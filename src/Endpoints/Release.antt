-- ===== src/Endpoints/Release.antt =====
-- Freed ports, and whole runs of a handler.
use forch.Base.{
  ℕ, zero, suc, ◌-◌, ◌≤◌, ◌<◌, ◌≡◌, sym, ◌∙◌, ap, ◌≢◌, inl, inr, String, true, false, none, some,
  List, [], ◌∷◌, arith, contains, string_eq, nat_eq, if◌then◌else◌, Bool-cases, Option-cases,
}
use forch.Base.Dict
use forch.Base.Dict.{Dict}
use forch.Endpoints.{
  Value, EndpointHandler, Call, call, cleanup_interface, Input, processed, freed, allocate_tap_port,
  process_endpoint, deallocate_tap_port, port_range, all_free, without, reclaim, free_endpoint,
  feed, feed_all, create,
}
use forch.Endpoints.Sets.{contains-add, contains-port_range, contains-without, all_free-contains}
use forch.Endpoints.Allocation.{IsHeld, IsSound, allocate_tap_port-IsSound}

module _ (s : EndpointHandler) (mac : String) (p : ℕ) (v : IsSound s)
    (found : Dict.lookup mac s.mac_tap_port ≡ some p) where
  freed_state : EndpointHandler
  freed_state = deallocate_tap_port p (record s { mac_tap_port = Dict.erase mac s.mac_tap_port })

  old_entry :
      (m : String) (q : ℕ)
      → Dict.lookup m freed_state.mac_tap_port ≡ some q
      → (m ≢ mac) × (Dict.lookup m s.mac_tap_port ≡ some q)
  unfolding freed_state deallocate_tap_port
  old_entry m q e = ground (arith, Dict.lookup-erase m mac s.mac_tap_port)

  other_port : (m : String) (q : ℕ) → m ≢ mac → Dict.lookup m s.mac_tap_port ≡ some q → q ≢ p
  other_port m q n e same = n (v.distinct m mac q e (found ∙ ap some (sym same)))

  entry-IsHeld : (q : ℕ) → q ≢ p → IsHeld s q → IsHeld freed_state q
  unfolding freed_state deallocate_tap_port
  entry-IsHeld q n h = record {
    low = h.low;
    high = h.high;
    taken = ground (arith, h.taken, contains-add p q s.freed_tap_ports);
    configured = ground (arith, Dict.lookup-erase q p s.interfaces, h.configured);
  }

  freed-known :
      (q : ℕ)
      → 29 ≤ q
      → q < freed_state.next_tap_port
      → contains freed_state.freed_tap_ports q ≡ false
      → (m : String) × (Dict.lookup m freed_state.mac_tap_port ≡ some q)
  unfolding freed_state deallocate_tap_port
  freed-known q low high taken =
      let (m, e) = v.known q low high (ground (arith, contains-add p q s.freed_tap_ports)) in
      (
        m,
        ground (arith, Dict.lookup-erase m mac s.mac_tap_port, contains-add p q s.freed_tap_ports),
      )

  freed_state-IsSound : IsSound freed_state
  unfolding freed_state deallocate_tap_port
  freed_state-IsSound = record {
    base = v.base;
    held = λ m q e.
        let (n, old) = old_entry m q e in entry-IsHeld q (other_port m q n old) (v.held m q old);
    distinct = λ m k q e d. v.distinct m k q (old_entry m q e).1 (old_entry k q d).1;
    free = λ q h. ground (
      arith,
      contains-add p q s.freed_tap_ports,
      v.free q,
      (v.held mac p found).low,
      (v.held mac p found).high,
    );
    known = freed-known;
  }

module _ (p : ℕ) (s : EndpointHandler) (v : IsSound s) (low : 29 ≤ p)
    (high : p ≤ s.next_tap_port) where
  ports : List ℕ
  ports = port_range p (s.next_tap_port - p)

  -- The state after all ports from `p` on are given back
  shrunk : EndpointHandler
  shrunk = record s { next_tap_port = p; freed_tap_ports = without ports s.freed_tap_ports }

  left_free :
      (q : ℕ)
      → contains shrunk.freed_tap_ports q
        ≡ (if contains ports q then false else contains s.freed_tap_ports q)
  unfolding shrunk ports
  left_free q = contains-without ports s.freed_tap_ports q

  in_range : (q : ℕ) → p ≤ q → q < s.next_tap_port → contains ports q ≡ true
  unfolding ports
  in_range q l h = ground (arith, contains-port_range p (s.next_tap_port - p) q)

  out_of_range : (q : ℕ) → q < p → contains ports q ≡ false
  unfolding ports
  out_of_range q l = ground (arith, contains-port_range p (s.next_tap_port - p) q)

  module _ (all : all_free ports s.freed_tap_ports ≡ true) where
    held_below : (q : ℕ) → IsHeld s q → q < p
    held_below q h =
        ground (arith, h.high, h.taken, in_range q, all_free-contains ports s.freed_tap_ports q all)

    shrunk-IsSound : IsSound shrunk
    unfolding shrunk
    shrunk-IsSound = record {
      base = low;
      held = λ m q e.
          let h = v.held m q e in
          record {
            low = h.low;
            high = held_below q h;
            taken = ground (arith, left_free q, h.taken);
            configured = h.configured;
          };
      distinct = v.distinct;
      free = λ q h. ground (arith, left_free q, v.free q, in_range q);
      known = λ q l h t. v.known q l (omega arith) (ground (arith, left_free q, out_of_range q h));
    }

  reclaim-IsSound : IsSound (reclaim p s)
  unfolding reclaim shrunk ports
  reclaim-IsSound = elim (Bool-cases (all_free ports s.freed_tap_ports)) [
    | inl e ↦ rw (e, reclaim) (shrunk-IsSound e)
    | inr e ↦ rw (e, reclaim) v
  ]

module _ (s : EndpointHandler) (mac : String) (v : IsSound s)
    (absent : Dict.lookup mac s.mac_tap_port ≡ none) where
  same_entry :
      (m : String) (q : ℕ)
      → Dict.lookup m (Dict.erase mac s.mac_tap_port) ≡ some q
      → Dict.lookup m s.mac_tap_port ≡ some q
  same_entry m q e = ground (arith, Dict.lookup-erase m mac s.mac_tap_port)

  kept_entry :
      (m : String) (q : ℕ)
      → Dict.lookup m s.mac_tap_port ≡ some q
      → Dict.lookup m (Dict.erase mac s.mac_tap_port) ≡ some q
  kept_entry m q e = ground (arith, Dict.lookup-erase m mac s.mac_tap_port, absent)

  erased-IsSound : IsSound (record s { mac_tap_port = Dict.erase mac s.mac_tap_port })
  erased-IsSound = record {
    base = v.base;
    held = λ m q e.
        let h = v.held m q (same_entry m q e) in
        record { low = h.low; high = h.high; taken = h.taken; configured = h.configured };
    distinct = λ m k q e d. v.distinct m k q (same_entry m q e) (same_entry k q d);
    free = v.free;
    known = λ q l h t. let (m, e) = v.known q l h t in (m, kept_entry m q e);
  }

-- A call on the switch changes nothing of the state.
call-IsSound : (c : Call) (s : EndpointHandler) → IsSound s → IsSound (call c s)
call-IsSound c s v = record {
  base = v.base;
  held = λ m q e.
      let h = v.held m q e in
      record { low = h.low; high = h.high; taken = h.taken; configured = h.configured };
  distinct = v.distinct;
  free = v.free;
  known = v.known;
}

release-IsSound :
    (mac : String) (p : ℕ) (s : EndpointHandler)
    → IsSound s
    → Dict.lookup mac s.mac_tap_port ≡ some p
    → IsSound (
        reclaim p
          (deallocate_tap_port p (record s { mac_tap_port = Dict.erase mac s.mac_tap_port })))
unfolding freed_state deallocate_tap_port
release-IsSound mac p s v e =
    let h = v.held mac p e in
    reclaim-IsSound p _ (freed_state-IsSound s mac p v e) h.low (omega (arith, h.high))

free_endpoint-IsSound :
    (mac : String) (s : EndpointHandler) → IsSound s → IsSound (free_endpoint mac s)
unfolding free_endpoint
free_endpoint-IsSound mac s v = elim (Option-cases (Dict.lookup mac s.mac_tap_port)) [
  | inl e ↦ rw (e, free_endpoint) (erased-IsSound s mac v e)
  | inr (zero, e) ↦ absurd (omega (arith, (v.held mac 0 e).low))
  | inr (suc p, e) ↦
      rw (e, free_endpoint)
        (call-IsSound (cleanup_interface (suc p)) _ (release-IsSound mac (suc p) s v e))
]

feed-IsSound : (i : Input) (s : EndpointHandler) → IsSound s → IsSound (feed i s)
unfolding feed process_endpoint
feed-IsSound (processed endpoint mac) s v =
    call-IsSound _ (allocate_tap_port mac s).1 (allocate_tap_port-IsSound mac s v)
feed-IsSound (freed mac) s v = free_endpoint-IsSound mac s v

feed_all-IsSound :
    (inputs : List Input) (s : EndpointHandler) → IsSound s → IsSound (feed_all inputs s)
unfolding feed_all
feed_all-IsSound [] s v = v
feed_all-IsSound (i ∷ inputs) s v = feed_all-IsSound inputs (feed i s) (feed-IsSound i s v)

create-IsSound : (interfaces : Dict ℕ (Dict String Value)) → IsSound (create interfaces)
unfolding Dict.lookup
create-IsSound interfaces = record {
  base = omega arith;
  held = λ m q e. cc;
  distinct = λ m k q e d. cc;
  free = λ q h. cc;
  known = λ q l h t. absurd (omega arith);
}

-- After any requests to a handler that starts with no devices: two devices never have the same tap
-- port; the port of a device is at least 29 and below the next port, is not among the freed ports,
-- and has the configuration of a tap port in the file; the freed ports lie in the same range; and
-- every port of that range which is not free is some device's.
pub requests-IsSound :
    (inputs : List Input) (interfaces : Dict ℕ (Dict String Value))
    → IsSound (feed_all inputs (create interfaces))
requests-IsSound inputs interfaces =
    feed_all-IsSound inputs (create interfaces) (create-IsSound interfaces)
