-- ===== src/Egress/States.antt =====
-- What the state and the detail of the egress say of its links.
pub mod Runs
use forch.Base.{
  ℕ, ◌+◌, ◌≡◌, refl, sym, ap, ◌∙◌, ◌≢◌, ◌⊎◌, inl, inr, String, Bool, true, false, not, ◌&&◌, ◌||◌,
  Option, none, some, List, [], ◌∷◌, contains, All, string_eq, nat_eq, pair_eq, option_eq, ◌==◌,
  if◌then◌else◌, arith, somes, Bool-cases, is_some,
}
use mathlib.Core.Option.{none-ne-some}
use mathlib.Core.Bool.{false≢true}
use forch.Base.Dict
use forch.Base.Dict.{Dict}
use forch.Base.Exec.{Exec, Result, ok, raised}
use forch.Port.State.{is_empty}
use forch.Collectors.States.{State, broken, damaged, healthy}
use forch.Hosts.Config.{Dps, PortType, is_egress, get_port_attributes}
use forch.Egress
use forch.Egress.{
  Egress, Link, LinkState, LacpRole, LacpState, up, active, down, link_state_eq, Detail,
  all_links_down, active_link, Scan, scan_link, scan, subset, set_eq, state_of, detail_of,
  get_egress_state_detail, get_lacp_link_state, note_link, note_type, process_lag_state, create,
}

-- The state is healthy if a link is active and none is down, damaged if one is active and one is
-- down, and broken if none is active; the detail names such links.
pub data IsReported (links : Dict Link LinkState) : State → Detail → Type 0 where
  is_healthy :
      (a : Link)
      → Dict.lookup a links ≡ some active
      → ((k : Link) → Dict.lookup k links ≢ some down)
      → IsReported links healthy (active_link (some a) none)
  is_damaged :
      (a d : Link)
      → Dict.lookup a links ≡ some active
      → Dict.lookup d links ≡ some down
      → IsReported links damaged (active_link (some a) (some d))
  is_broken :
      ((k : Link) → Dict.lookup k links ≢ some active) → IsReported links broken all_links_down

-- The states of a set, one by one
subset-two :
    (states : List LinkState) → subset states (active ∷ up ∷ []) ≡ not (contains states down)
unfolding link_state_eq
subset-two [] = refl
subset-two (up ∷ states) = subset-two states
subset-two (active ∷ states) = subset-two states
subset-two (down ∷ states) = refl

subset-one :
    (states : List LinkState)
    → subset states (active ∷ []) ≡ not (contains states down) && not (contains states up)
unfolding link_state_eq
subset-one [] = refl
subset-one (up ∷ states) = ground (arith, subset-one states)
subset-one (active ∷ states) = subset-one states
subset-one (down ∷ states) = refl

choice :
    (a u d : Bool)
    → (if (not d && (a && (u && true))) || ((not d && not u) && (a && true))
        then healthy
        else if a
        then damaged
        else broken)
      ≡ (if a then if d then damaged else healthy else broken)
choice true true true = refl
choice true true false = refl
choice true false true = refl
choice true false false = refl
choice false true true = refl
choice false true false = refl
choice false false true = refl
choice false false false = refl

state_of-eq :
    (states : List LinkState)
    → state_of states ≡ (
        if contains states active
        then if contains states down then damaged else healthy
        else broken)
state_of-eq states =
    rw (subset-two states, subset-one states)
      (choice (contains states active) (contains states up) (contains states down))

-- What was collected of links, of which each is one of a dict
record IsScan (all : Dict Link LinkState) (s : Scan) : Type 0 where
  named :
      contains s.state_set active ≡ true
      → (k : Link) × (s.egress_name ≡ some k) × (Dict.lookup k all ≡ some active)
  lost :
      contains s.state_set down ≡ true
      → (k : Link) × (s.link_down ≡ some k) × (Dict.lookup k all ≡ some down)

scan_link-IsScan :
    (all : Dict Link LinkState) (key : Link) (state : LinkState) (s : Scan)
    → Dict.lookup key all ≡ some state
    → IsScan all s
    → IsScan all (scan_link key state s)
unfolding link_state_eq
scan_link-IsScan all key up s e v = record { named = v.named; lost = v.lost }
scan_link-IsScan all key active s e v = record { named = λ _. (key, refl, e); lost = v.lost }
scan_link-IsScan all key down s e v = record { named = v.named; lost = λ _. (key, refl, e) }

scan-IsScan :
    (all links : Dict Link LinkState) (s : Scan)
    → All (λ (e : Link × LinkState). Dict.lookup e.0 all ≡ some e.1) links
    → IsScan all s
    → IsScan all (scan links s)
unfolding scan
scan-IsScan all [] s h v = v
scan-IsScan all ((key, state) ∷ links) s h v =
    scan-IsScan all links (scan_link key state s) h.1 (scan_link-IsScan all key state s h.0 v)

-- Every link is collected.
scan_link-keeps :
    (key : Link) (state x : LinkState) (s : Scan)
    → contains s.state_set x ≡ true
    → contains (scan_link key state s).state_set x ≡ true
scan_link-keeps key up x s h = ground (arith, h)
scan_link-keeps key active x s h = ground (arith, h)
scan_link-keeps key down x s h = ground (arith, h)

scan_link_self :
    (key : Link) (state : LinkState) (s : Scan)
    → contains (scan_link key state s).state_set state ≡ true
unfolding link_state_eq
scan_link_self key up s = refl
scan_link_self key active s = refl
scan_link_self key down s = refl

scan-keeps :
    (links : Dict Link LinkState) (s : Scan) (x : LinkState)
    → contains s.state_set x ≡ true
    → contains (scan links s).state_set x ≡ true
unfolding scan
scan-keeps [] s x h = h
scan-keeps ((key, state) ∷ links) s x h =
    scan-keeps links (scan_link key state s) x (scan_link-keeps key state x s h)

chosen-contains :
    (b : Bool) (state x : LinkState) (rest : Option LinkState) (states : List LinkState)
    → contains states state ≡ true
    → (rest ≡ some x → contains states x ≡ true)
    → (if b then some state else rest) ≡ some x
    → contains states x ≡ true
chosen-contains true state x rest states h k e = ap (contains states) (sym (somes state x e)) ∙ h
chosen-contains false state x rest states h k e = k e

scan-contains :
    (links : Dict Link LinkState) (s : Scan) (k : Link) (x : LinkState)
    → Dict.lookup k links ≡ some x
    → contains (scan links s).state_set x ≡ true
unfolding scan
scan-contains [] s k x h = absurd (none-ne-some x (sym (Dict.lookup-nil {V = LinkState} k) ∙ h))
scan-contains ((key, state) ∷ links) s k x h =
    let t = scan_link key state s in
    chosen-contains (k == key) state x (Dict.lookup k links) (scan links t).state_set
      (scan-keeps links t state (scan_link_self key state s)) (scan-contains links t k x)
      (sym (Dict.lookup-cons k key state links) ∙ h)

-- Each entry of a dict without repeated keys is what its key is looked up as.
entries-lookup-cons :
    (key : Link) (state : LinkState) (all links : Dict Link LinkState)
    → Dict.lookup key all ≡ none
    → All (λ (e : Link × LinkState). Dict.lookup e.0 all ≡ some e.1) links
    → All (λ (e : Link × LinkState). Dict.lookup e.0 ((key, state) ∷ all) ≡ some e.1) links
entries-lookup-cons key state all [] n h = tt
entries-lookup-cons key state all ((k, x) ∷ links) n h = (
  Dict.lookup-cons k key state all ∙ ground (arith, h.0, other),
  entries-lookup-cons key state all links n h.1,
)
  where
    other : k ≢ key
    other p = none-ne-some x (sym (ap (λ j. Dict.lookup j all) p ∙ n) ∙ h.0)

entries-lookup :
    (links : Dict Link LinkState)
    → Dict.NodupKeys links
    → All (λ (e : Link × LinkState). Dict.lookup e.0 links ≡ some e.1) links
entries-lookup [] u = tt
entries-lookup ((key, state) ∷ links) u = (
  Dict.lookup-cons key key state links ∙ ground arith,
  entries-lookup-cons key state links links u.0 (entries-lookup links u.1),
)

start : Scan
start = record { state_set = []; egress_name = none; link_down = none }

absent :
    (links : Dict Link LinkState) (x : LinkState)
    → contains (scan links start).state_set x ≡ false
    → (k : Link) → Dict.lookup k links ≢ some x
absent links x n k h = false≢true (sym n ∙ scan-contains links start k x h)

reported :
    (links : Dict Link LinkState) (s : Scan) (a d : Bool)
    → contains s.state_set active ≡ a
    → contains s.state_set down ≡ d
    → IsScan links s
    → (contains s.state_set active ≡ false → (k : Link) → Dict.lookup k links ≢ some active)
    → (contains s.state_set down ≡ false → (k : Link) → Dict.lookup k links ≢ some down)
    → let state : State = if a then if d then damaged else healthy else broken in
      IsReported links state (detail_of state s)
reported links s true true p q v na nd =
    let (k, named, at) = v.named p in
    let (j, lost, gone) = v.lost q in rw (named, lost) (is_damaged k j at gone)
reported links s true false p q v na nd =
    let (k, named, at) = v.named p in rw named (is_healthy k at (nd q))
reported links s false d p q v na nd = is_broken (na p)

pub get_egress_state_detail-IsReported :
    (links : Dict Link LinkState)
    → Dict.NodupKeys links
    → IsReported links (get_egress_state_detail links).0 (get_egress_state_detail links).1
unfolding get_egress_state_detail start
get_egress_state_detail-IsReported links u =
    let s = scan links start in
    let v =
      scan-IsScan links links start (entries-lookup links u)
        (record { named = λ h. absurd cc; lost = λ h. absurd cc }) in
    rw (state_of-eq s.state_set) (
      reported links s (contains s.state_set active) (contains s.state_set down) refl refl v
        (absent links active) (absent links down))
