-- ===== src/Lib.antt =====
-- Forch, the Faucet orchestrator: its authentication, its port states and its collectors.
--
-- A device that is learned at an access port is authenticated by its MAC address, and its port is
-- moved between VLANs by what authentication and testing say of it. The parts that are modelled:
--
-- - Auth/Session: `AuthStateMachine` of forch/simple_auth_state_machine.py, the session of one
--   device. `host_learned`, `host_expired`, `received_radius_accept`, `received_radius_reject` and
--   `handle_sm_timer` have their names; `handle` and `run` are a life of a session.
-- - Auth/Sessions: `Authenticator` of forch/authenticator.py, which keeps the sessions by address
--   and is called by the placements, the RADIUS client and the heartbeat: `Input` and `feed`.
-- - Port/Types: the enumerations of proto/shared_constants.proto and the messages of
--   proto/devices_state.proto.
-- - Port/Table: the transitions of `PortStateMachine` of forch/port_state_manager.py, and the merge
--   of overwrites into them. The dict belongs to the class; it stands in the state of the manager.
-- - Port/State: the state of `PortStateManager`, its timers and its calls of other objects.
-- - Port/Machine: the machines and the handlers of their states. `send` is
--   `handle_port_behavior` and `handle_session_result`.
-- - Port/Manager and Port/Placement: the methods of the manager, under their names without the
--   first underscore, and its constructor.
-- - Port/Inputs: all callers of the manager: the orchestrator, the results of tests, the timers.
-- - Radius/Datatypes and Radius/Attributes: forch/radius_datatypes.py, forch/radius_attributes.py
--   and `RadiusAttributesList` of forch/radius.py: `parse_attributes`, `pack_attributes`.
-- - Radius/Packet: `Radius.parse`, `RadiusPacket.pack` and `validate_packet` of forch/radius.py.
-- - Radius/Client: the requests of `RadiusQuery` of forch/radius_query.py, and the answers that
--   `receive_radius_messages` passes on. The authenticator calls `send_mab_request`; the answers are
--   the `answered` of Auth/Sessions.
-- - Report: `DeviceReportClient` of forch/device_report_client.py, which has the devices tested and
--   is called by the port state manager (`disconnect`) and for Faucet's events.
-- - Vlans: the choice of VLANs in `Faucetizer` of forch/faucetizer.py, the device state manager that
--   the port state manager calls: `calculate_vlan_id`, and `update_ports_config` for the devices that
--   have a behaviour and a port.
-- - Devices: its placements and behaviours, `process_device_placement` and `process_device_behavior`.
-- - Faucetize: the configuration that it writes: Faucetize/Config is what it does with one port,
--   Faucetize/Ports the laws of that, `place_device` a turn of the loop of `_update_ports_config`;
--   Faucetize/Cookies are the rules of access lists as they are read from files.
-- - Endpoints: the tap ports and endpoints of `EndpointHandler` of forch/endpoint_handler.py, to
--   which the device report client sends its requests.
-- - Events: `FaucetEventClient` of forch/faucet_event_client.py. Events/Buffer is the buffer of bytes
--   and lines, Events/Types the events, Events/Debounce the timers of port states; `step` and `feed`
--   are what reading from the socket, the timers and the callers do.
-- - Collectors: Collectors/Cpn is forch/cpn_state_collector.py, the nodes that are pinged;
--   Collectors/Vrrp and Collectors/Processes are the VRRP state and the scan of processes of
--   forch/local_state_collector.py.
-- - Hosts: `FaucetStateCollector` of forch/faucet_state_collector.py, the hosts that are learned at
--   switches and expire: Hosts/Config is the type of a port, Hosts/Switches the states of switches and
--   ports and `feed`, which takes all events that change hosts and switches, and RADIUS results.
-- - Egress: its `process_lag_state`, the links of the egress. `process_all` are the LACP events.
-- - Paths: the search for the egress in the same class, `FaucetStateCollector` of
--   forch/faucet_state_collector.py, when its links are known.
-- - Base: equality tests, text, dicts as association lists in the order of insertion, and `Exec`,
--   a method that changes a state and may raise.
--
-- A method is a function of the state and of the time at which it reads the clock, and is taken as
-- one step: a run of the program is a sequence of calls, and `feed_all` takes any such sequence. Most
-- methods hold a lock from their first line to their last. The placements, test results and timers
-- of the port state manager take it in parts only, and what comes between those parts is not
-- modelled. The calls that a part makes of other parts are recorded in the order in which they are
-- made. Loops run over lists and need no fuel, but for two. The loop that reads attributes takes one unit of fuel for a turn, and has no
-- result when the fuel is used up. The search for the egress visits a hop at most once, and a hop but
-- the first is an end of a link: it is given twice the number of links and three turns.
--
-- Times are natural numbers of seconds. What comes from outside is an argument: the time that
-- `dateutil` parses, the VLAN of a segment, the hashes MD5 and HMAC, the random bytes of a request, the
-- moment at which a timer runs out, the events that JSON parses from a line and the lines that it
-- makes of events, of which the code relies on that they have no line break. Timers are a list of
-- those that run. A constant of an enumeration whose name another one has is renamed:
-- `PortBehavior.sequestered` is `sequester`, `PASSED` and `FAILED` are `pass` and `fail`. Text is
-- lowered as ASCII. A text that is `None` is the empty text, which the code does not tell apart.
--
-- What a RADIUS query raises when a session sends it is an argument, `query_errors`. All other calls of
-- objects that a part is given are recorded and taken to return: the callback of results, metrics, the
-- Faucetizer behind the port state manager, which raises for a placement without switch or port, and
-- the log, also where a line of it is made of the attributes of an answer. What raises in a part
-- itself is in its model, as the exceptions of `_get_egress_port` in Paths, and the VLAN of a device
-- that is looked up before a first configuration was made, in Faucetize.
--
-- Not modelled: logging, threads, sockets, shell commands and configuration files; the values and the
-- encryption of RADIUS attributes; the VLAN section of the configuration; the averages and
-- connections of the local collector; the rest of forch/faucet_state_collector.py; and the
-- orchestrator that joins the parts, forch/forchestrator.py.
pub mod Base
pub mod Auth
pub mod Port
pub mod Radius
pub mod Report
pub mod Vlans
pub mod Devices
pub mod Endpoints
pub mod Events
pub mod Collectors
pub mod Faucetize
pub mod Egress
pub mod Hosts
pub mod Paths
