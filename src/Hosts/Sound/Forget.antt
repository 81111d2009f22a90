-- ===== src/Hosts/Sound/Forget.antt =====
-- Forgetting a host at a switch, and the RADIUS results of hosts, keep the two tables sound.
use forch.Base.{
  ℕ, ◌≡◌, refl, sym, ap, ◌∙◌, ◌≢◌, String, Bool, true, false, Option, none, some, List, [], ◌∷◌,
  string_eq, arith, ◌==◌, if◌then◌else◌, is_some, somes,
}
use mathlib.Core.Option.{none-ne-some}
use forch.Base.Dict
use forch.Base.Dict.{Dict}
use forch.Hosts.{Switch, Host, RadiusResult, with_radius, table_of, drop_switch, forget_host, leave}
use forch.Hosts.Sound.{
  host_at, in_table, radius_of, has_switch, IsSound, host_at-insert, host_at-if, in_table-insert,
  in_table-leave, both_set, radius_of-insert, radius_of-erase,
}

host_at-erase :
    (m mac name : String) (hosts : Dict String Host)
    → host_at name (Dict.lookup m (Dict.erase mac hosts))
      ≡ (if m == mac then false else host_at name (Dict.lookup m hosts))
host_at-erase m mac name hosts =
    ap (host_at name) (Dict.lookup-erase m mac hosts)
    ∙ host_at-if name (m == mac) none (Dict.lookup m hosts)

host_at-drop_switch :
    (m mac n : String) (host : Host) (rest : Dict String (ℕ × ℕ)) (hosts : Dict String Host)
    → host_at n (Dict.lookup m (drop_switch mac host rest hosts))
      ≡ (if m == mac then Dict.has n rest else host_at n (Dict.lookup m hosts))
host_at-drop_switch m mac n host [] hosts =
    host_at-erase m mac n hosts
    ∙ ap (λ o. if m == mac then is_some o else host_at n (Dict.lookup m hosts))
        (sym (Dict.lookup-nil {V = ℕ × ℕ} n))
host_at-drop_switch m mac n host (at ∷ more) hosts =
    host_at-insert m mac n (record host { switches = at ∷ more }) hosts

has-erase :
    (n name : String) (switches : Dict String (ℕ × ℕ))
    → Dict.has n (Dict.erase name switches) ≡ (if n == name then false else Dict.has n switches)
has-erase n name switches = ground (arith, Dict.lookup-erase n name switches)

-- What is left of the entry of the address, and of the others
if-drop :
    (b : Bool) (m mac n name : String) (host : Host) (hosts : Dict String Host)
    → Dict.has name host.switches ≡ b
    → Dict.lookup mac hosts ≡ some host
    → host_at n (
        Dict.lookup m
          (if b then drop_switch mac host (Dict.erase name host.switches) hosts else hosts))
      ≡ (if m == mac
          then if n == name then false else Dict.has n host.switches
          else host_at n (Dict.lookup m hosts))
if-drop true m mac n name host hosts b e =
    host_at-drop_switch m mac n host (Dict.erase name host.switches) hosts
    ∙ ap (λ x. if m == mac then x else host_at n (Dict.lookup m hosts))
        (has-erase n name host.switches)
if-drop false m mac n name host hosts b e = ground (arith, same_mac, same_name)
  where
    same_mac : m ≡ mac → host_at n (Dict.lookup m hosts) ≡ Dict.has n host.switches
    same_mac p = ap (λ x. host_at n (Dict.lookup x hosts)) p ∙ ap (host_at n) e

    same_name : n ≡ name → Dict.has n host.switches ≡ false
    same_name p = ap (λ x. Dict.has x host.switches) p ∙ b

host_at-forget_host :
    (m mac n name : String) (entry : Option Host) (hosts : Dict String Host)
    → Dict.lookup mac hosts ≡ entry
    → host_at n (Dict.lookup m (forget_host name mac entry hosts)) ≡ (
        if m == mac
        then if n == name then false else host_at n entry
        else host_at n (Dict.lookup m hosts))
host_at-forget_host m mac n name none hosts e = ground (arith, same_mac)
  where
    same_mac : m ≡ mac → host_at n (Dict.lookup m hosts) ≡ false
    same_mac p = ap (λ x. host_at n (Dict.lookup x hosts)) p ∙ ap (host_at n) e
host_at-forget_host m mac n name (some host) hosts e =
    if-drop (Dict.has name host.switches) m mac n name host hosts refl e

module _ (mac name : String) (hosts : Dict String Host) where
  drop_switch-inhabited :
      (host : Host) (rest : Dict String (ℕ × ℕ))
      → Dict.Each (λ _ host. has_switch host ≡ true) hosts
      → Dict.Each (λ _ host. has_switch host ≡ true) (drop_switch mac host rest hosts)
  drop_switch-inhabited host [] h = Dict.Each-erase (λ _ host. has_switch host ≡ true) mac hosts h
  drop_switch-inhabited host (at ∷ more) h =
      Dict.Each-insert (λ _ host. has_switch host ≡ true) mac (record host { switches = at ∷ more })
        hosts refl h

  drop_switch-current :
      (m : String) (host : Host) (rest : Dict String (ℕ × ℕ)) (result : RadiusResult)
      → Dict.lookup mac hosts ≡ some host
      → radius_of (Dict.lookup m (drop_switch mac host rest hosts)) ≡ some result
      → radius_of (Dict.lookup m hosts) ≡ some result
  drop_switch-current m host [] result e h = radius_of-erase m mac hosts result h
  drop_switch-current m host (at ∷ more) result e h =
      sym
        (radius_of-insert m mac (record host { switches = at ∷ more }) hosts (ap radius_of (sym e)))
      ∙ h

  either :
      (P : Dict String Host → Type 0) (b : Bool) (x y : Dict String Host)
      → P x
      → P y
      → P (if b then x else y)
  either P true x y p q = p
  either P false x y p q = q

  forget_host-inhabited :
      (entry : Option Host)
      → Dict.Each (λ _ host. has_switch host ≡ true) hosts
      → Dict.Each (λ _ host. has_switch host ≡ true) (forget_host name mac entry hosts)
  forget_host-inhabited none h = h
  forget_host-inhabited (some host) h =
      either (Dict.Each (λ _ host. has_switch host ≡ true)) (Dict.has name host.switches) _ hosts
        (drop_switch-inhabited host (Dict.erase name host.switches) h) h

  forget_host-current :
      (m : String) (entry : Option Host) (result : RadiusResult)
      → Dict.lookup mac hosts ≡ entry
      → radius_of (Dict.lookup m (forget_host name mac entry hosts)) ≡ some result
      → radius_of (Dict.lookup m hosts) ≡ some result
  forget_host-current m none result e h = h
  forget_host-current m (some host) result e h =
      either
        (λ d.
          radius_of (Dict.lookup m d) ≡ some result → radius_of (Dict.lookup m hosts) ≡ some result)
        (Dict.has name host.switches) _ hosts
        (drop_switch-current m host (Dict.erase name host.switches) result e) (λ k. k) h

module _ (mac name : String) (hosts : Dict String Host) (switches : Dict String Switch)
    (results : Dict String RadiusResult) where
  pub forget-IsSound :
      (table : List String)
      → table_of (Dict.lookup name switches) ≡ some table
      → IsSound switches hosts results
      → IsSound
          (Dict.insert name (leave mac (Dict.lookup name switches) (some table)) switches)
          (forget_host name mac (Dict.lookup mac hosts) hosts)
          results
  forget-IsSound table e v =
      let switch : Switch = leave mac (Dict.lookup name switches) (some table) in
      record {
        agrees = λ m n.
            host_at-forget_host m mac n name (Dict.lookup mac hosts) hosts refl
            ∙ both_set (λ m n. host_at n (Dict.lookup m hosts))
                (λ m n. in_table m (Dict.lookup n switches)) mac name m n false _ _ (v.agrees m n)
                refl (in_table-leave mac m (Dict.lookup name switches) table e)
            ∙ sym (in_table-insert m n name switch switches);
        inhabited = forget_host-inhabited mac name hosts (Dict.lookup mac hosts) v.inhabited;
        current = λ m result h.
            v.current m result
              (forget_host-current mac name hosts m (Dict.lookup mac hosts) result refl h);
      }

-- The RADIUS results before and after a new result for an address
pub record IsNewer (mac : String) (result : RadiusResult) (old new : Dict String RadiusResult)
    : Type 0 where
  pub now : Dict.lookup mac new ≡ some result
  pub others :
      (m : String) (r : RadiusResult)
      → m ≢ mac
      → Dict.lookup m old ≡ some r
      → Dict.lookup m new ≡ some r

module _ (mac : String) (result : RadiusResult) (hosts : Dict String Host)
    (switches : Dict String Switch) (old new : Dict String RadiusResult) where
  radius_none :
      (m : String) (r : RadiusResult)
      → Dict.lookup mac hosts ≡ none
      → m ≡ mac
      → radius_of (Dict.lookup m hosts) ≢ some r
  radius_none m r e p h =
      none-ne-some r (sym (ap (λ x. radius_of (Dict.lookup x hosts)) p ∙ ap radius_of e) ∙ h)

  found_now :
      (m : String) (r : RadiusResult) (host : Host)
      → m ≡ mac
      → radius_of
          (Dict.lookup m (Dict.insert mac (record host { radius_result = some result }) hosts))
        ≡ some r
      → result ≡ r
  found_now m r host p h =
      let given : Host = record host { radius_result = some result } in
      somes result r (
        sym (
          ap (λ x. radius_of (Dict.lookup x (Dict.insert mac given hosts))) p
          ∙ ap radius_of (Dict.lookup-insert_self mac given hosts))
        ∙ h)

  pub with_radius-IsSound :
      (entry : Option Host)
      → Dict.lookup mac hosts ≡ entry
      → IsNewer mac result old new
      → IsSound switches hosts old
      → IsSound switches (with_radius mac result entry hosts) new
  with_radius-IsSound none e w v = record {
    agrees = v.agrees;
    inhabited = v.inhabited;
    current = λ m r h. elim (string_eq.dec m mac) [
      | yes p ↦ absurd (radius_none m r e p h)
      | no n ↦ w.others m r n (v.current m r h)
    ];
  }
  with_radius-IsSound (some host) e w v =
      let given : Host = record host { radius_result = some result } in
      record {
        agrees = λ m n. host_at-insert m mac n given hosts ∙ same m n ∙ v.agrees m n;
        inhabited =
            Dict.Each-insert (λ _ host. has_switch host ≡ true) mac given hosts
              (v.inhabited mac host e) v.inhabited;
        current = λ m r h. elim (string_eq.dec m mac) [
          | yes p ↦ ap (λ x. Dict.lookup x new) p ∙ w.now ∙ ap some (found_now m r host p h)
          | no n ↦
              w.others m r n
                (v.current m r (sym (ap radius_of (Dict.lookup-insert_ne m mac given hosts n)) ∙ h))
        ];
      }
    where
      at_mac : (m n : String) → m ≡ mac → host_at n (Dict.lookup m hosts) ≡ host_at n (some host)
      at_mac m n p = ap (λ x. host_at n (Dict.lookup x hosts)) p ∙ ap (host_at n) e

      same :
          (m n : String)
          → (if m == mac then host_at n (some host) else host_at n (Dict.lookup m hosts))
            ≡ host_at n (Dict.lookup m hosts)
      same m n = ground (arith, at_mac m n)
