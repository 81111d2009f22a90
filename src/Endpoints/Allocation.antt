-- ===== src/Endpoints/Allocation.antt =====
-- The ports of the devices stay distinct, and none is lost.
use forch.Base.{
  ℕ, ◌≤◌, ◌<◌, ◌≡◌, refl, sym, ◌∙◌, ◌≢◌, ◌⊎◌, inl, inr, String, true, false, none, some, List, [],
  ◌∷◌, arith, contains, string_eq, nat_eq, Option-cases,
}
use forch.Base.Dict
use forch.Base.Dict.{Dict}
use forch.Endpoints.{
  tap_port_config, EndpointHandler, max_of, take_port, note_port, allocate_tap_port,
}
use forch.Endpoints.Sets.{contains-remove, contains-max_of}

-- What holds of the port of a device
pub record IsHeld (s : EndpointHandler) (p : ℕ) : Type 0 where
  pub low : 29 ≤ p
  pub high : p < s.next_tap_port
  pub taken : contains s.freed_tap_ports p ≡ false
  pub configured : Dict.lookup p s.interfaces ≡ some tap_port_config

pub record IsSound (s : EndpointHandler) : Type 0 where
  pub base : 29 ≤ s.next_tap_port
  pub held : Dict.Each (λ mac p. IsHeld s p) s.mac_tap_port
  pub distinct :
      (mac m : String) (p : ℕ)
      → Dict.lookup mac s.mac_tap_port ≡ some p
      → Dict.lookup m s.mac_tap_port ≡ some p
      → mac ≡ m
  pub free : (p : ℕ) → contains s.freed_tap_ports p ≡ true → (29 ≤ p) × (p < s.next_tap_port)
  pub known :
      (p : ℕ)
      → 29 ≤ p
      → p < s.next_tap_port
      → contains s.freed_tap_ports p ≡ false
      → (mac : String) × (Dict.lookup mac s.mac_tap_port ≡ some p)

-- A port that is about to be given to a device
record IsFresh (s : EndpointHandler) (r : ℕ × EndpointHandler) : Type 0 where
  same : r.1.mac_tap_port ≡ s.mac_tap_port
  files : r.1.interfaces ≡ s.interfaces
  new : (29 ≤ r.0) × (r.0 < r.1.next_tap_port)
  grows : s.next_tap_port ≤ r.1.next_tap_port
  gone : contains r.1.freed_tap_ports r.0 ≡ false
  was_free : (contains s.freed_tap_ports r.0 ≡ true) ⊎ (s.next_tap_port ≤ r.0)
  others : (q : ℕ) → q ≢ r.0 → contains r.1.freed_tap_ports q ≡ contains s.freed_tap_ports q
  bound : (q : ℕ) → q ≢ r.0 → q < r.1.next_tap_port → q < s.next_tap_port

first_port-IsFresh :
    (s : EndpointHandler) → IsSound s → s.freed_tap_ports ≡ [] → IsFresh s (take_port s)
unfolding take_port
first_port-IsFresh s v e = ground (arith, v.base)

freed_port-IsFresh :
    (s : EndpointHandler) (p : ℕ) (ports : List ℕ)
    → IsSound s
    → s.freed_tap_ports ≡ p ∷ ports
    → IsFresh s (take_port s)
unfolding take_port
freed_port-IsFresh s p ports v e =
    let m = max_of p ports in
    let all = p ∷ ports in
    record {
      same = ground arith;
      files = ground arith;
      new = ground (arith, contains-max_of p ports, v.free m);
      grows = ground arith;
      gone = ground (arith, contains-remove m m all);
      was_free = ground (arith, contains-max_of p ports);
      others = λ q n. ground (arith, contains-remove m q all);
      bound = λ q n h. ground arith;
    }

List-cases : (xs : List ℕ) → (xs ≡ []) ⊎ ((x : ℕ) × (ys : List ℕ) × (xs ≡ x ∷ ys))
List-cases [] = inl refl
List-cases (x ∷ xs) = inr (x, xs, refl)

take_port-IsFresh : (s : EndpointHandler) → IsSound s → IsFresh s (take_port s)
take_port-IsFresh s v = elim (List-cases s.freed_tap_ports) [
  | inl e ↦ first_port-IsFresh s v e
  | inr (p, ports, e) ↦ freed_port-IsFresh s p ports v e
]

-- The port is none of the devices'.
fresh_ne :
    (s : EndpointHandler) (r : ℕ × EndpointHandler) (q : ℕ) → IsFresh s r → IsHeld s q → q ≢ r.0
fresh_ne s r q f h e = ground (arith, f.was_free, h.taken, h.high)

module _ (s : EndpointHandler) (r : ℕ × EndpointHandler) (mac : String) (v : IsSound s)
    (f : IsFresh s r) (new : Dict.lookup mac s.mac_tap_port ≡ none) where
  after : EndpointHandler
  after = note_port mac r.0 r.1

  old_entry :
      (m : String) (q : ℕ)
      → Dict.lookup m after.mac_tap_port ≡ some q
      → ((m ≡ mac) × (q ≡ r.0)) ⊎ ((m ≢ mac) × (Dict.lookup m s.mac_tap_port ≡ some q))
  unfolding after
  old_entry m q e = ground (arith, Dict.lookup-insert m mac r.0 r.1.mac_tap_port, f.same)

  entry-IsHeld : (q : ℕ) → q ≢ r.0 → IsHeld s q → IsHeld after q
  unfolding after
  entry-IsHeld q n h = record {
    low = h.low;
    high = ground (arith, h.high, f.grows);
    taken = ground (arith, h.taken, f.others q n);
    configured =
        ground
          (arith, Dict.lookup-insert q r.0 tap_port_config r.1.interfaces, f.files, h.configured);
  }

  new-IsHeld : IsHeld after r.0
  unfolding after
  new-IsHeld = record {
    low = f.new.0;
    high = f.new.1;
    taken = f.gone;
    configured = Dict.lookup-insert_self r.0 tap_port_config r.1.interfaces;
  }

  after-IsHeld : Dict.Each (λ m q. IsHeld after q) after.mac_tap_port
  after-IsHeld m q e = elim (old_entry m q e) [
    | inl (p, same) ↦ rw same new-IsHeld
    | inr (n, old) ↦ entry-IsHeld q (fresh_ne s r q f (v.held m q old)) (v.held m q old)
  ]

  after-distinct :
      (m k : String) (q : ℕ)
      → Dict.lookup m after.mac_tap_port ≡ some q
      → Dict.lookup k after.mac_tap_port ≡ some q
      → m ≡ k
  after-distinct m k q e d = elim (old_entry m q e) [
    | inl (a, p) ↦ elim (old_entry k q d) [
      | inl (b, c) ↦ a ∙ sym b
      | inr (n, old) ↦ absurd (fresh_ne s r q f (v.held k q old) p)
    ]
    | inr (n, old) ↦ elim (old_entry k q d) [
      | inl (b, c) ↦ absurd (fresh_ne s r q f (v.held m q old) c)
      | inr (_, older) ↦ v.distinct m k q old older
    ]
  ]

  after-known :
      (q : ℕ)
      → 29 ≤ q
      → q < after.next_tap_port
      → contains after.freed_tap_ports q ≡ false
      → (m : String) × (Dict.lookup m after.mac_tap_port ≡ some q)
  unfolding after
  after-known q low high taken = elim (nat_eq.dec q r.0) [
    | yes p ↦ (mac, ground (arith, Dict.lookup-insert_self mac r.0 r.1.mac_tap_port))
    | no n ↦
        let (m, e) = v.known q low (f.bound q n high) (sym (f.others q n) ∙ taken) in
        (m, ground (arith, Dict.lookup-insert m mac r.0 r.1.mac_tap_port, f.same))
  ]

  note_port-IsSound : IsSound after
  unfolding after
  note_port-IsSound = record {
    base = ground (arith, v.base, f.grows);
    held = after-IsHeld;
    distinct = after-distinct;
    free = λ q h. ground (arith, f.gone, f.others q, v.free q, f.grows);
    known = after-known;
  }

pub allocate_tap_port-IsSound :
    (mac : String) (s : EndpointHandler) → IsSound s → IsSound (allocate_tap_port mac s).1
unfolding allocate_tap_port after
allocate_tap_port-IsSound mac s v = elim (Option-cases (Dict.lookup mac s.mac_tap_port)) [
  | inl e ↦
      rw (e, allocate_tap_port) (note_port-IsSound s (take_port s) mac v (take_port-IsFresh s v) e)
  | inr (p, e) ↦ rw (e, allocate_tap_port) v
]
