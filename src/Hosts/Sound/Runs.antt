-- ===== src/Hosts/Sound/Runs.antt =====
-- Learning, forgetting and RADIUS results keep the two tables of hosts and switches sound.
use forch.Base.{
  ℕ, ◌≡◌, refl, sym, ap, ◌∙◌, String, Bool, true, false, not, ◌&&◌, truthy, Option, none, some,
  List, arith, string_eq, nat_eq, option_eq, bool_eq, ◌==◌, if◌then◌else◌,
}
use forch.Base.Dict
use forch.Base.Dict.{Dict}
use forch.Base.Exec.{Exec, Result, ok, raised, modify, when, ◌>>◌, after-keeps}
use forch.Hosts
use forch.Hosts.{
  Collector, Setup, Switch, Host, RadiusResult, Call, call, create, new_switch, or_new, table_of,
  learn_entry, learned, note_radius, learned_at_access, learned_placement, learned_metric,
  learned_report, invalid_vlan, placement, report_port_learn, report_port_state,
  unconfigured_port_event, no_config, count_learned, update_learned_macs_metric, forget, forget_at,
  forget_metric, expired, process_port_learn, process_port_expire, update_radius_result,
  port_type_of,
}
use forch.Hosts.Config.{PortType, is_access, fill_port_behavior}
use forch.Hosts.Switches
use forch.Hosts.Sound
use forch.Hosts.Sound.{IsSound, Sound, in_table, in_table-insert, learn-IsSound}
use forch.Hosts.Sound.Forget.{IsNewer, forget-IsSound, with_radius-IsSound}

-- Steps that keep the tables sound
abbrev pub Keeps : Exec Collector (Unit {0}) → Type 0
Keeps m = (s : Collector) → Sound s → Sound (m s).1

pub Keeps-then : (m k : Exec Collector (Unit {0})) → Keeps m → Keeps k → Keeps (m >> k)
Keeps-then m k p q s v = after-keeps Sound (m s) (λ _. k) (p s v) (λ _. q)

pub Keeps-when : (b : Bool) (m : Exec Collector (Unit {0})) → Keeps m → Keeps (when b m)
Keeps-when true m p s v = p s v
Keeps-when false m p s v = v

pub call-Keeps : (b : Bool) (c : Call) → Keeps (when b (modify (call c)))
call-Keeps b c = Keeps-when b (modify (call c)) (λ s v. v)

pub if-Sound :
    (b : Bool) (x y : Result (Unit {0}) × Collector)
    → Sound x.1
    → Sound y.1
    → Sound (if b then x else y).1
if-Sound true x y p q = p
if-Sound false x y p q = q

count_learned-Keeps :
    (mac name : String) (port : ℕ) (r : Result (Option ℕ)) → Keeps (count_learned mac name port r)
count_learned-Keeps mac name port (raised e) s v = v
count_learned-Keeps mac name port (ok vlan) s v = v

pub update_learned_macs_metric-Keeps :
    (mac name : String) (port written : ℕ)
    → Keeps (update_learned_macs_metric mac name port written)
update_learned_macs_metric-Keeps mac name port written s v =
    if-Sound (no_config s.dps) (ok tt, s) _ v
      (count_learned-Keeps mac name written (fill_port_behavior s.dps name port) s v)

note_radius-Keeps :
    (mac : String) (result : Option RadiusResult) (s : Collector)
    → Dict.lookup mac s.radius_results ≡ result
    → Sound s
    → Sound (note_radius mac result s).1
note_radius-Keeps mac none s e v =
    if-Sound (Hosts.has_radius (Dict.lookup mac s.learned_macs)) _ _ v v
note_radius-Keeps mac (some result) s e v =
    with_radius-IsSound mac result s.learned_macs s.switch_states s.radius_results s.radius_results
      (Dict.lookup mac s.learned_macs) refl (record { now = e; others = λ m r n h. h }) v

module _ (setup : Setup) where
  learned_at_access-Keeps :
      (name : String) (port : ℕ) (mac : String) (vid : ℕ)
      → Keeps (learned_at_access setup name port mac vid)
  learned_at_access-Keeps name port mac vid =
      let placed : Exec Collector (Unit {0}) = learned_placement setup mac name port in
      let counted : Exec Collector (Unit {0}) = learned_metric setup mac name port in
      Keeps-then (placed >> counted) (learned_report setup name port mac vid)
        (Keeps-then placed counted
          (call-Keeps setup.has_placement_callback (placement (some mac) name port true))
          (Keeps-when setup.has_metrics (update_learned_macs_metric mac name port port)
            (update_learned_macs_metric-Keeps mac name port port)))
        (call-Keeps (setup.has_reporter && truthy vid && not (vid == invalid_vlan))
          (report_port_learn name port mac vid))

  learned-Keeps :
      (name : String) (port : ℕ) (mac : String) (vid : ℕ) (type : Result PortType)
      → Keeps (learned setup name port mac vid type)
  learned-Keeps name port mac vid (raised e) s v = v
  learned-Keeps name port mac vid (ok type) s v =
      after-keeps Sound (note_radius mac (Dict.lookup mac s.radius_results) s)
        (λ _. when (is_access type) (learned_at_access setup name port mac vid))
        (note_radius-Keeps mac (Dict.lookup mac s.radius_results) s refl v)
        (λ _.
          Keeps-when (is_access type) (learned_at_access setup name port mac vid)
            (learned_at_access-Keeps name port mac vid))

  pub process_port_learn-Keeps :
      (timestamp : ℕ) (name : String) (port : ℕ) (mac : String) (vid : ℕ) (ip : String)
      → Keeps (process_port_learn setup timestamp name port mac vid ip)
  unfolding process_port_learn
  process_port_learn-Keeps timestamp name port mac vid ip s v =
      let t = learn_entry timestamp name port mac ip s in
      learned-Keeps name port mac vid (port_type_of setup t name port) t
        (learn-IsSound mac name s.learned_macs s.switch_states s.radius_results timestamp port ip v)

  forget-Keeps :
      (name mac : String) (table : Option (List String)) (s : Collector)
      → table_of (Dict.lookup name s.switch_states) ≡ table
      → Sound s
      → Sound (forget name mac table s).1
  forget-Keeps name mac none s e v = v
  forget-Keeps name mac (some table) s e v =
      forget-IsSound mac name s.learned_macs s.switch_states s.radius_results table e v

  expired-Keeps :
      (name : String) (port : ℕ) (mac : String) (type : Result PortType)
      → Keeps (expired setup name port mac type)
  expired-Keeps name port mac (raised e) s v = v
  expired-Keeps name port mac (ok type) s v =
      Keeps-then (forget_metric setup name port mac type) (forget_at name mac)
        (Keeps-when (is_access type && setup.has_metrics)
          (update_learned_macs_metric mac name port 0)
          (update_learned_macs_metric-Keeps mac name port 0))
        (λ s. forget-Keeps name mac (table_of (Dict.lookup name s.switch_states)) s refl) s v

  pub process_port_expire-Keeps :
      (name : String) (port : ℕ) (mac : String) → Keeps (process_port_expire setup name port mac)
  unfolding process_port_expire
  process_port_expire-Keeps name port mac s v =
      expired-Keeps name port mac (port_type_of setup s name port) s v

newer :
    (mac : String) (result : RadiusResult) (results : Dict String RadiusResult)
    → IsNewer mac result results (Dict.insert mac result results)
newer mac result results = record {
  now = Dict.lookup-insert_self mac result results;
  others = λ m r n h. Dict.lookup-insert_ne m mac result results n ∙ h;
}

pub update_radius_result-Keeps :
    (mac : String) (result : RadiusResult) → Keeps (update_radius_result mac result)
unfolding update_radius_result
update_radius_result-Keeps mac result s v =
    with_radius-IsSound mac result s.learned_macs s.switch_states s.radius_results
      (Dict.insert mac result s.radius_results) (Dict.lookup mac s.learned_macs) refl
      (newer mac result s.radius_results) v

pub set_switch-Sound :
    (name : String) (f : Option Switch → Switch) (s : Collector)
    → ((entry : Option Switch) → (f entry).learned_macs ≡ table_of entry)
    → Sound s
    → Sound (Switches.set_switch name f s)
set_switch-Sound name f s k v = record {
  agrees = λ m n. v.agrees m n ∙ sym (in_table-insert m n name (f old) s.switch_states ∙ same m n);
  inhabited = v.inhabited;
  current = v.current;
}
  where
    old : Option Switch
    old = Dict.lookup name s.switch_states

    at_name :
        (m n : String)
        → n ≡ name
        → in_table m (Dict.lookup n s.switch_states) ≡ in_table m (some (f old))
    at_name m n p =
        ap (λ x. in_table m (Dict.lookup x s.switch_states)) p ∙ ap (Sound.in_set m) (sym (k old))

    same :
        (m n : String)
        → (if n == name
            then in_table m (some (f old))
            else in_table m (Dict.lookup n s.switch_states))
          ≡ in_table m (Dict.lookup n s.switch_states)
    same m n = ground (arith, at_name m n)
