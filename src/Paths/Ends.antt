-- ===== src/Paths/Ends.antt =====
-- The loop of `_populate_path` ends.
use forch.Base.{
  ℕ, zero, suc, ◌+◌, ◌*◌, ◌≤◌, ◌<◌, ◌≡◌, refl, sym, ap, ◌∙◌, ◌≢◌, String, Bool, true, false, Option,
  none, some, List, [], ◌∷◌, ◌||◌, contains, length, arith, Eq, string_eq, nat_eq, pair_eq, list_eq,
  ◌==◌, if◌then◌else◌, somes,
}
use forch.Base.Exec.{Error, Result, ok, raised, key_error}
use forch.Paths.{
  Link, Hop, Topology, Outcome, found, loop_in_topology, root_absent, failed, out_of_fuel,
  root_hop_port, get_egress_port, ended_at, broken_path, unfinished, to_1, to_2, hop_tuple, prepend,
  with_out, populate_hop, turn, populate_path, enough, first_hop, path_state, is_nil,
  get_switch_egress_path,
}

-- Elements of a list that were not visited
module _ {A : Type 0} ⦃e : Eq A⦄ where
  abbrev unseen : List A → List A → ℕ
  unseen [] visited = 0
  unseen (u ∷ us) visited =
      let rest = unseen us visited in if contains visited u then rest else suc rest

  unseen-le : (us visited : List A) (v : A) → unseen us (v ∷ visited) ≤ unseen us visited
  unseen-le [] visited v = omega arith
  unseen-le (u ∷ us) visited v = ground (arith, unseen-le us visited v)

  -- Visiting an element leaves fewer.
  unseen-lt :
      (us visited : List A) (v : A)
      → contains us v ≡ true
      → contains visited v ≡ false
      → unseen us (v ∷ visited) < unseen us visited
  unseen-lt [] visited v h n = ground arith
  unseen-lt (u ∷ us) visited v h n = ground (arith, unseen-lt us visited v, unseen-le us visited v)

  unseen-nil : (us : List A) → unseen us [] ≡ length us
  unseen-nil [] = refl
  unseen-nil (u ∷ us) = ap suc (unseen-nil us)

  contains_self : (v : A) (us : List A) → contains (v ∷ us) v ≡ true
  contains_self v us = ground arith

  contains-cons : (u v : A) (us : List A) → contains us v ≡ true → contains (u ∷ us) v ≡ true
  contains-cons u v us h = ground (arith, h)

  -- What is made of the hops over the links, of either end
  abbrev ends : (Hop → A) → List Link → List A
  ends f [] = []
  ends f (l ∷ links) = f (to_2 l) ∷ f (to_1 l) ∷ ends f links

  length-ends : (f : Hop → A) (links : List Link) → length (ends f links) ≡ 2 * length links
  length-ends f [] = omega arith
  length-ends f (l ∷ links) = omega (arith, length-ends f links)

  ends-cases :
      (f : Hop → A) (l : Link) (links : List Link) (b c : Bool) (rest : Option Hop) (hop : Hop)
      → (rest ≡ some hop → contains (ends f links) (f hop) ≡ true)
      → (if b then some (to_2 l) else if c then some (to_1 l) else rest) ≡ some hop
      → contains (ends f (l ∷ links)) (f hop) ≡ true
  ends-cases f l links true c rest hop k h =
      rw (sym (somes _ _ h)) (contains_self (f (to_2 l)) (f (to_1 l) ∷ ends f links))
  ends-cases f l links false true rest hop k h = rw (sym (somes _ _ h)) (
      contains-cons (f (to_2 l)) (f (to_1 l)) (f (to_1 l) ∷ ends f links)
        (contains_self (f (to_1 l)) (ends f links)))
  ends-cases f l links false false rest hop k h =
      contains-cons (f (to_2 l)) (f hop) (f (to_1 l) ∷ ends f links)
        (contains-cons (f (to_1 l)) (f hop) (ends f links) (k h))

  contains-ends :
      (f : Hop → A) (links : List Link) (s : String) (p : ℕ) (hop : Hop)
      → populate_hop links s p ≡ some hop
      → contains (ends f links) (f hop) ≡ true
  unfolding populate_hop
  contains-ends f [] s p hop h = cc
  contains-ends f (l ∷ links) s p hop h =
      ends-cases f l links _ _ (populate_hop links s p) hop (contains-ends f links s p hop) h

module _ (t : Topology) where
  abbrev onward : Option ℕ → Hop → String × List ℕ
  onward none hop = hop_tuple hop
  onward (some p) hop = hop_tuple (with_out p hop)

  -- The tuple that is visited at a hop
  abbrev visit : Hop → String × List ℕ
  visit hop = onward (root_hop_port t hop.switch) hop

prepend-returns : (hop : Hop) (o : Outcome) → o ≢ out_of_fuel → prepend hop o ≢ out_of_fuel
prepend-returns hop (found path) n e = cc
prepend-returns hop (loop_in_topology path) n e = cc
prepend-returns hop (root_absent path) n e = cc
prepend-returns hop (failed x) n e = cc
prepend-returns hop out_of_fuel n e = n refl

if-returns :
    (b : Bool) (x y : Outcome)
    → x ≢ out_of_fuel
    → (b ≡ false → y ≢ out_of_fuel)
    → (if b then x else y) ≢ out_of_fuel
if-returns true x y p q = p
if-returns false x y p q = q refl

found-returns : (path : List Hop) → found path ≢ out_of_fuel
found-returns path e = cc

loop-returns : (path : List Hop) → loop_in_topology path ≢ out_of_fuel
loop-returns path e = cc

absent-returns : (path : List Hop) → root_absent path ≢ out_of_fuel
absent-returns path e = cc

failed-returns : (x : Error) → failed x ≢ out_of_fuel
failed-returns x e = cc

ended_at-returns : (hop : Hop) (port : Result (Option ℕ)) → ended_at hop port ≢ out_of_fuel
ended_at-returns hop (ok port) e = cc
ended_at-returns hop (raised x) e = cc

-- A turn returns if what follows it does, where a next hop is taken only from a new tuple.
turn-returns :
    (t : Topology) (hop : Hop) (visited : List (String × List ℕ)) (ended : Outcome)
    (rest : ℕ → Outcome) (port : Option ℕ)
    → ended ≢ out_of_fuel
    → ((p : ℕ)
        → contains visited (onward t port hop) ≡ false
        → port ≡ some (suc p)
        → rest p ≢ out_of_fuel)
    → turn t hop visited ended rest port ≢ out_of_fuel
unfolding turn
turn-returns t hop visited ended rest none e k = failed-returns key_error
turn-returns t hop visited ended rest (some zero) e k =
    if-returns (hop.switch == t.root) _ _ (ended_at-returns hop (get_egress_port t hop.switch))
      (λ _. if-returns (contains visited (hop_tuple hop)) _ _ (loop-returns []) (λ _. e))
turn-returns t hop visited ended rest (some (suc p)) e k =
    prepend-returns (with_out (suc p) hop) _ (
      if-returns (contains visited (hop_tuple (with_out (suc p) hop))) _ _ (loop-returns [])
        (λ n. k p n refl))

-- One turn without a next hop
stops :
    (t : Topology) (fuel : ℕ) (visited : List (String × List ℕ))
    → 0 < fuel
    → populate_path t fuel none visited ≢ out_of_fuel
unfolding populate_path
stops t zero visited l = absurd (omega arith)
stops t (suc fuel) visited l = absent-returns []

module _ (t : Topology) (first : Hop) where
  -- All tuples that a search from the first hop can visit
  abbrev visits : List (String × List ℕ)
  visits = visit t first ∷ ends (visit t) t.links

  -- From any next hop, fuel for the tuples that were not visited and for two turns is enough.
  goes :
      (fuel : ℕ) (next : Option Hop) (visited : List (String × List ℕ))
      → ((hop : Hop) → next ≡ some hop → contains visits (visit t hop) ≡ true)
      → unseen visits visited + 1 < fuel
      → populate_path t fuel next visited ≢ out_of_fuel
  unfolding populate_path
  goes zero next visited m l = absurd (omega arith)
  goes (suc fuel) none visited m l = absent-returns []
  goes (suc fuel) (some hop) visited m l =
      turn-returns t hop visited _ _ (root_hop_port t hop.switch)
        (stops t fuel (hop_tuple hop ∷ visited) (omega (arith, l)))
        (λ p new port.
          let v = hop_tuple (with_out (suc p) hop) in
          let same : visit t hop ≡ v = ap (λ o. onward t o hop) port in
          let known : contains visits v ≡ true = sym (ap (contains visits) same) ∙ m hop refl in
          let unseen_before : contains visited v ≡ false =
            sym (ap (λ o. contains visited (onward t o hop)) port) ∙ new in
          goes fuel (populate_hop t.links hop.switch (suc p)) (v ∷ visited)
            (λ next e.
              contains-cons (visit t first) (visit t next) (ends (visit t) t.links)
                (contains-ends (visit t) t.links hop.switch (suc p) next e))
            (omega (arith, l, unseen-lt visits visited v known unseen_before)))

  populate_path-returns : populate_path t (enough t) (some first) [] ≢ out_of_fuel
  populate_path-returns =
      goes (enough t) (some first) []
        (λ hop e.
          rw (sym (somes first hop e)) (contains_self (visit t first) (ends (visit t) t.links)))
        (omega (arith, unseen-nil visits, length-ends (visit t) t.links))

path_state-returns : (o : Outcome) → o ≢ out_of_fuel → path_state o ≢ unfinished
path_state-returns (found path) n e = cc
path_state-returns (loop_in_topology path) n e = cc
path_state-returns (root_absent path) n e = cc
path_state-returns (failed x) n e = cc
path_state-returns out_of_fuel n e = n refl

-- Twice the number of links and three turns are enough for the search from any switch, in any
-- topology, with loops or without: it ends with a path, with an error, or with an exception.
pub get_switch_egress_path-returns :
    (t : Topology) (switch : String) (port : ℕ) → get_switch_egress_path t switch port ≢ unfinished
unfolding get_switch_egress_path
get_switch_egress_path-returns t switch port =
    elim (is_nil t.links || is_nil t.dps)
      as (λ b.
        (if b
          then broken_path "No active links available"
          else path_state (populate_path t (enough t) (some (first_hop switch port)) []))
        ≢ unfinished) [
          | true ↦ (λ e. cc)
          | false ↦ path_state-returns _ (populate_path-returns t (first_hop switch port))
        ]
