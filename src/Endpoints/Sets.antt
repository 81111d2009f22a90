-- ===== src/Endpoints/Sets.antt =====
-- Lists of ports as sets: what they contain after each operation.
use forch.Base.{
  ℕ, zero, suc, ◌+◌, ◌≤◌, ◌≡◌, refl, true, false, List, [], ◌∷◌, arith, contains, leb, string_eq,
  nat_eq, ◌==◌, if◌then◌else◌,
}
use forch.Endpoints.{max_of, remove, add, port_range, all_free, without}

pub contains-remove :
    (p q : ℕ) (ports : List ℕ)
    → contains (remove p ports) q ≡ (if q == p then false else contains ports q)
unfolding remove
contains-remove p q [] = ground arith
contains-remove p q (r ∷ ports) = ground (arith, contains-remove p q ports)

pub contains-add :
    (p q : ℕ) (ports : List ℕ)
    → contains (add p ports) q ≡ (if q == p then true else contains ports q)
contains-add p q ports = ground arith

pub contains-max_of : (p : ℕ) (ports : List ℕ) → contains (p ∷ ports) (max_of p ports) ≡ true
unfolding max_of
contains-max_of p [] = ground arith
contains-max_of p (q ∷ ports) = ground (arith, contains-max_of q ports)

pub max_of-max : (p q : ℕ) (ports : List ℕ) → contains (p ∷ ports) q ≡ true → q ≤ max_of p ports
unfolding max_of
max_of-max p q [] h = ground arith
max_of-max p q (r ∷ ports) h = ground (arith, max_of-max r q ports)

pub contains-port_range :
    (p n q : ℕ) → contains (port_range p n) q ≡ (if leb p q then leb (q + 1) (p + n) else false)
unfolding port_range
contains-port_range p zero q = ground arith
contains-port_range p (suc n) q = ground (arith, contains-port_range (p + 1) n q)

pub contains-without :
    (ports held : List ℕ) (q : ℕ)
    → contains (without ports held) q ≡ (if contains ports q then false else contains held q)
unfolding without
contains-without [] held q = refl
contains-without (p ∷ ports) held q =
    ground (arith, contains-without ports (remove p held) q, contains-remove p q held)

pub all_free-contains :
    (ports held : List ℕ) (q : ℕ)
    → all_free ports held ≡ true
    → contains ports q ≡ true
    → contains held q ≡ true
unfolding all_free
all_free-contains [] held q h c = cc
all_free-contains (p ∷ ports) held q h c = ground (arith, all_free-contains ports held q)
