-- ===== src/Auth/Sessions/PortId.antt =====
-- The port number that a session gives to the server.
use forch.Base.{
  ℕ, zero, suc, ◌≤◌, ◌≡◌, refl, ap, String, List, [], ◌∷◌, ◌++◌, take, length, encode, decimal,
  arith,
}
use forch.Auth.Sessions.{port_id_of}

take-append_le :
    {A : Type 0} (n : ℕ) (xs ys zs : List A) → n ≤ length xs → take n (xs ++ ys) ≡ take n (xs ++ zs)
take-append_le zero xs ys zs h = refl
take-append_le (suc n) [] ys zs h = absurd (omega arith)
take-append_le (suc n) (x ∷ xs) ys zs h = ap (λ r. x ∷ r) (take-append_le n xs ys zs (omega arith))

-- The port number is called unique for the physical port, and it is not: all ports of a switch
-- whose name has three bytes or more are given the same number.
pub port_id-same :
    (switch : String) (p q : ℕ)
    → 3 ≤ length (encode switch)
    → port_id_of switch p ≡ port_id_of switch q
unfolding port_id_of
port_id-same switch p q h = rw (take-append_le 3 (encode switch) (decimal p) (decimal q) h)
