-- ===== src/Vlans/Sets.antt =====
-- Lists of VLANs as sets: what is popped, and what is left.
use forch.Base.{
  ℕ, zero, suc, ◌≡◌, refl, sym, ◌≢◌, String, Bool, true, false, some, List, [], ◌∷◌, arith, All,
  contains, string_eq, nat_eq, if◌then◌else◌,
}
use forch.Base.Dict
use forch.Vlans.{minus, pop_at}

abbrev pub NotIn : ℕ → List ℕ → Type 0
NotIn v = All (λ w. w ≢ v)

abbrev pub NoDup : List ℕ → Type 0
NoDup [] = Unit
NoDup (v ∷ vlans) = NotIn v vlans × NoDup vlans

-- Every VLAN is given to one device at most.
abbrev pub IsInjective : Dict.Dict String ℕ → Type 0
IsInjective d = (m k : String) (v : ℕ) → Dict.lookup m d ≡ some v → Dict.lookup k d ≡ some v → m ≡ k

pub pop_at-NotIn :
    (k v : ℕ) (vlans : List ℕ) (x : ℕ)
    → NotIn x (v ∷ vlans)
    → ((pop_at k v vlans).0 ≢ x) × NotIn x (pop_at k v vlans).1
pop_at-NotIn k v [] x h = h
pop_at-NotIn zero v (w ∷ vlans) x h = h
pop_at-NotIn (suc k) v (w ∷ vlans) x h = let q = pop_at-NotIn k w vlans x h.1 in (q.0, (h.0, q.1))

pub pop_at-NoDup :
    (k v : ℕ) (vlans : List ℕ)
    → NoDup (v ∷ vlans)
    → NotIn (pop_at k v vlans).0 (pop_at k v vlans).1 × NoDup (pop_at k v vlans).1
pop_at-NoDup k v [] h = h
pop_at-NoDup zero v (w ∷ vlans) h = h
pop_at-NoDup (suc k) v (w ∷ vlans) h =
    let q = pop_at-NoDup k w vlans h.1 in
    let p = pop_at-NotIn k w vlans v h.0 in (((λ e. p.0 (sym e)), q.0), (p.1, q.1))

-- The element that is taken is none that is not there.
pub popped_in : (k v : ℕ) (vlans : List ℕ) → NotIn (pop_at k v vlans).0 (v ∷ vlans) → ⊥
popped_in k v vlans h = (pop_at-NotIn k v vlans (pop_at k v vlans).0 h).0 refl

-- Of two lists, whichever the test takes.
either :
    (P : List ℕ → Type 0) (b : Bool) (xs ys : List ℕ)
    → P xs
    → (b ≡ false → P ys)
    → P (if b then xs else ys)
either P true xs ys p q = p
either P false xs ys p q = q refl

pub minus-NotIn : (vlans others : List ℕ) (v : ℕ) → NotIn v vlans → NotIn v (minus vlans others)
minus-NotIn [] others v h = tt
minus-NotIn (w ∷ vlans) others v h =
    let rest = minus-NotIn vlans others v h.1 in
    either (NotIn v) (contains others w) _ (w ∷ minus vlans others) rest (λ _. (h.0, rest))

pub minus-NoDup : (vlans others : List ℕ) → NoDup vlans → NoDup (minus vlans others)
minus-NoDup [] others h = tt
minus-NoDup (w ∷ vlans) others h =
    let rest = minus-NoDup vlans others h.1 in
    either NoDup (contains others w) _ (w ∷ minus vlans others) rest
      (λ _. (minus-NotIn vlans others w h.0, rest))

clash :
    (others : List ℕ) (w v : ℕ) → w ≡ v → contains others w ≡ false → contains others v ≡ true → ⊥
clash others w v p e h = cc

pub minus-removes :
    (vlans others : List ℕ) (v : ℕ) → contains others v ≡ true → NotIn v (minus vlans others)
minus-removes [] others v h = tt
minus-removes (w ∷ vlans) others v h =
    let rest = minus-removes vlans others v h in
    either (NotIn v) (contains others w) _ (w ∷ minus vlans others) rest
      (λ e. ((λ p. clash others w v p e h), rest))

pub values-contains :
    (d : Dict.Dict String ℕ) (m : String) (v : ℕ)
    → Dict.lookup m d ≡ some v
    → contains (Dict.values d) v ≡ true
unfolding Dict.lookup Dict.values
values-contains [] m v e = cc
values-contains ((k, w) ∷ d) m v e = ground (arith, values-contains d m v)
