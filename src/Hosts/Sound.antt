-- ===== src/Hosts/Sound.antt =====
-- The hosts of the switches and the switches of the hosts, which are kept in two tables.
pub mod Forget
pub mod Runs
pub mod Events
use forch.Base.{
  ℕ, ◌≡◌, refl, sym, ap, ◌∙◌, ◌≢◌, ◌⊎◌, inl, inr, String, Bool, true, false, Option, none, some,
  List, [], ◌∷◌, ◌++◌, contains, string_eq, arith, ◌==◌, if◌then◌else◌, somes, is_some, Bool-cases,
  Option-cases,
}
use mathlib.Core.Option.{none-ne-some}
use forch.Base.Dict
use forch.Base.Dict.{Dict}
use forch.Base.Exec.{Exec, Result, ok, raised, after-keeps}
use forch.Hosts.{
  Collector, Switch, Host, RadiusResult, new_switch, new_host, or_new, add, add_ip, discard,
  learn_host, learn_at, learn_entry, with_radius, has_radius, note_radius, table_of, drop_switch,
  forget_host, leave, forget, update_radius_result,
}

contains-append :
    (a b : String) (xs : List String)
    → contains (xs ++ (a ∷ [])) b ≡ (if b == a then true else contains xs b)
contains-append a b [] = ground arith
contains-append a b (x ∷ xs) = ground (arith, contains-append a b xs)

known : (a b : String) (xs : List String) → contains xs a ≡ true → b ≡ a → contains xs b ≡ true
known a b xs h e = ap (contains xs) e ∙ h

contains-add :
    (a b : String) (xs : List String)
    → contains (add a xs) b ≡ (if b == a then true else contains xs b)
contains-add a b xs = ground (arith, contains-append a b xs, known a b xs)

contains-discard :
    (a b : String) (xs : List String)
    → contains (discard a xs) b ≡ (if b == a then false else contains xs b)
contains-discard a b [] = ground arith
contains-discard a b (x ∷ xs) = ground (arith, contains-discard a b xs)

-- Whether an entry of `learned_macs` has a switch
abbrev pub host_at : String → Option Host → Bool
host_at name none = false
host_at name (some host) = Dict.has name host.switches

abbrev pub in_set : String → Option (List String) → Bool
in_set mac none = false
in_set mac (some macs) = contains macs mac

-- Whether an entry of `switch_states` has an address
abbrev pub in_table : String → Option Switch → Bool
in_table mac entry = in_set mac (table_of entry)

abbrev pub radius_of : Option Host → Option RadiusResult
radius_of none = none
radius_of (some host) = host.radius_result

abbrev pub has_switch : Host → Bool
has_switch host = elim host.switches [ [] ↦ false | _ ∷ _ ↦ true ]

-- A host is learned at a switch just if the switch has its address; a host that is kept is learned at
-- some switch; and its RADIUS result is the last one for its address.
pub record IsSound (switches : Dict String Switch) (hosts : Dict String Host)
    (results : Dict String RadiusResult) : Type 0 where
  pub agrees :
      (mac name : String)
      → host_at name (Dict.lookup mac hosts) ≡ in_table mac (Dict.lookup name switches)
  pub inhabited : Dict.Each (λ _ host. has_switch host ≡ true) hosts
  pub current :
      (mac : String) (result : RadiusResult)
      → radius_of (Dict.lookup mac hosts) ≡ some result
      → Dict.lookup mac results ≡ some result

abbrev pub Sound : Collector → Type 0
Sound s = IsSound s.switch_states s.learned_macs s.radius_results

-- Learning
host_at-learn_host :
    (name m : String) (timestamp port : ℕ) (ip : String) (entry : Option Host)
    → host_at m (some (learn_host timestamp name port ip entry))
      ≡ (if m == name then true else host_at m entry)
host_at-learn_host name m timestamp port ip none = ground (
  arith,
  Dict.lookup-insert {V = ℕ × ℕ} m name (port, timestamp) [],
  Dict.lookup-nil {V = ℕ × ℕ} m,
)
host_at-learn_host name m timestamp port ip (some host) =
    ground (arith, Dict.lookup-insert {V = ℕ × ℕ} m name (port, timestamp) host.switches)

in_table-learn_at :
    (mac m : String) (entry : Option Switch)
    → in_table m (some (learn_at mac entry)) ≡ (if m == mac then true else in_table m entry)
in_table-learn_at mac m none = contains-add mac m []
in_table-learn_at mac m (some switch) =
    elim switch.learned_macs
      as (λ t. contains (add mac (or_new [] t)) m ≡ (if m == mac then true else in_set m t)) [
        | none ↦ contains-add mac m []
        | some macs ↦ contains-add mac m macs
      ]

-- Leaving
pub in_table-leave :
    (mac m : String) (entry : Option Switch) (macs : List String)
    → table_of entry ≡ some macs
    → in_table m (some (leave mac entry (some macs)))
      ≡ (if m == mac then false else in_table m entry)
in_table-leave mac m entry macs h =
    contains-discard mac m macs ∙ ap (λ t. if m == mac then false else in_set m t) (sym h)

pub host_at-if :
    (name : String) (b : Bool) (x y : Option Host)
    → host_at name (if b then x else y) ≡ (if b then host_at name x else host_at name y)
host_at-if name true x y = refl
host_at-if name false x y = refl

in_table-if :
    (mac : String) (b : Bool) (x y : Option Switch)
    → in_table mac (if b then x else y) ≡ (if b then in_table mac x else in_table mac y)
in_table-if mac true x y = refl
in_table-if mac false x y = refl

pub host_at-insert :
    (m mac name : String) (host : Host) (hosts : Dict String Host)
    → host_at name (Dict.lookup m (Dict.insert mac host hosts))
      ≡ (if m == mac then host_at name (some host) else host_at name (Dict.lookup m hosts))
host_at-insert m mac name host hosts =
    ap (host_at name) (Dict.lookup-insert m mac host hosts)
    ∙ host_at-if name (m == mac) (some host) (Dict.lookup m hosts)

pub in_table-insert :
    (mac n name : String) (switch : Switch) (switches : Dict String Switch)
    → in_table mac (Dict.lookup n (Dict.insert name switch switches))
      ≡ (if n == name then in_table mac (some switch) else in_table mac (Dict.lookup n switches))
in_table-insert mac n name switch switches =
    ap (in_table mac) (Dict.lookup-insert n name switch switches)
    ∙ in_table-if mac (n == name) (some switch) (Dict.lookup n switches)

-- One pair of address and switch is set in both tables, and the other pairs stay.
pub both_set :
    (H T : String → String → Bool) (mac name m n : String) (set host switch : Bool)
    → H m n ≡ T m n
    → host ≡ (if n == name then set else H mac n)
    → switch ≡ (if m == mac then set else T m name)
    → (if m == mac then host else H m n) ≡ (if n == name then switch else T m n)
both_set H T mac name m n set host switch e h k = ground (arith, h, k, same_mac, same_name)
  where
    same_mac : m ≡ mac → H m n ≡ H mac n
    same_mac p = ap (λ x. H x n) p

    same_name : n ≡ name → T m n ≡ T m name
    same_name p = ap (T m) p

module _ (mac name : String) (hosts : Dict String Host) (switches : Dict String Switch)
    (results : Dict String RadiusResult) where
  learn-agrees :
      (timestamp port : ℕ) (ip m n : String)
      → IsSound switches hosts results
      → let host = learn_host timestamp name port ip (Dict.lookup mac hosts) in
        let switch = learn_at mac (Dict.lookup name switches) in
        host_at n (Dict.lookup m (Dict.insert mac host hosts))
        ≡ in_table m (Dict.lookup n (Dict.insert name switch switches))
  learn-agrees timestamp port ip m n v =
      let host : Host = learn_host timestamp name port ip (Dict.lookup mac hosts) in
      let switch : Switch = learn_at mac (Dict.lookup name switches) in
      host_at-insert m mac n host hosts
      ∙ both_set (λ m n. host_at n (Dict.lookup m hosts))
          (λ m n. in_table m (Dict.lookup n switches)) mac name m n true _ _ (v.agrees m n)
          (host_at-learn_host name n timestamp port ip (Dict.lookup mac hosts))
          (in_table-learn_at mac m (Dict.lookup name switches))
      ∙ sym (in_table-insert m n name switch switches)

pub radius_of-if :
    (b : Bool) (x y : Option Host)
    → radius_of (if b then x else y) ≡ (if b then radius_of x else radius_of y)
radius_of-if true x y = refl
radius_of-if false x y = refl

-- A new entry with the RADIUS result of the old one
pub radius_of-insert :
    (m mac : String) (host : Host) (hosts : Dict String Host)
    → host.radius_result ≡ radius_of (Dict.lookup mac hosts)
    → radius_of (Dict.lookup m (Dict.insert mac host hosts)) ≡ radius_of (Dict.lookup m hosts)
radius_of-insert m mac host hosts e =
    ap radius_of (Dict.lookup-insert m mac host hosts)
    ∙ radius_of-if (m == mac) (some host) (Dict.lookup m hosts)
    ∙ ground (arith, e, same)
  where
    same : m ≡ mac → radius_of (Dict.lookup m hosts) ≡ radius_of (Dict.lookup mac hosts)
    same p = ap (λ x. radius_of (Dict.lookup x hosts)) p

pub radius_of-erase :
    (m mac : String) (hosts : Dict String Host) (result : RadiusResult)
    → radius_of (Dict.lookup m (Dict.erase mac hosts)) ≡ some result
    → radius_of (Dict.lookup m hosts) ≡ some result
radius_of-erase m mac hosts result h = elim (string_eq.dec m mac) [
  | yes p ↦ absurd (
      none-ne-some result (
        sym (
          ap radius_of
            (ap (λ x. Dict.lookup x (Dict.erase mac hosts)) p ∙ Dict.lookup-erase_self mac hosts))
        ∙ h))
  | no n ↦ sym (ap radius_of (Dict.lookup-erase_ne m mac hosts n)) ∙ h
]

learn_host-radius :
    (timestamp : ℕ) (name : String) (port : ℕ) (ip : String) (entry : Option Host)
    → (learn_host timestamp name port ip entry).radius_result ≡ radius_of entry
learn_host-radius timestamp name port ip none = refl
learn_host-radius timestamp name port ip (some host) = refl

insert-nonempty :
    (name : String) (at : ℕ × ℕ) (switches : Dict String (ℕ × ℕ)) (host : Host)
    → has_switch (record host { switches = Dict.insert name at switches }) ≡ true
unfolding Dict.insert
insert-nonempty name at [] host = refl
insert-nonempty name at ((n, old) ∷ switches) host = ground arith

module _ (mac name : String) (hosts : Dict String Host) (switches : Dict String Switch)
    (results : Dict String RadiusResult) where
  pub learn-IsSound :
      (timestamp port : ℕ) (ip : String)
      → IsSound switches hosts results
      → IsSound
          (Dict.insert name (learn_at mac (Dict.lookup name switches)) switches)
          (Dict.insert mac (learn_host timestamp name port ip (Dict.lookup mac hosts)) hosts)
          results
  learn-IsSound timestamp port ip v =
      let entry = Dict.lookup mac hosts in
      let host : Host = learn_host timestamp name port ip entry in
      record {
        agrees = λ m n. learn-agrees mac name hosts switches results timestamp port ip m n v;
        inhabited =
            Dict.Each-insert (λ _ host. has_switch host ≡ true) mac host hosts
              (insert-nonempty name (port, timestamp) (or_new new_host entry).switches host)
              v.inhabited;
        current = λ m result h. v.current m result (
            sym (radius_of-insert m mac host hosts (learn_host-radius timestamp name port ip entry))
            ∙ h);
      }
