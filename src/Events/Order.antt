-- ===== src/Events/Order.antt =====
-- The order of events: `_valid_event_order` over the events that are read.
use forch.Base.{
  ℕ, zero, suc, ◌+◌, ◌≤◌, ◌≡◌, ◌⊎◌, Bool, true, false, some, List, [], ◌∷◌, arith, length, nat_eq,
  if◌then◌else◌,
}
use forch.Base.Exec.{Exec, Result, ok, raised, pure, ◌>>=◌, faucet_event_order_error}
use forch.Events.{valid_event_order}
use forch.Events.Types.{Event, Client}

-- The ids of the events that pass, of those that were not debounced
abbrev pub passed : Event → Bool → List ℕ → List ℕ
passed event valid ids =
    if event.debounced then ids else if valid then event.event_id ∷ ids else ids

unfoldable pub admit_all : List Event → Exec Client (List ℕ)
unfolding valid_event_order
admit_all [] = pure []
admit_all (event ∷ events) =
    valid_event_order event >>= λ valid. admit_all events >>= λ ids. pure (passed event valid ids)

-- So many numbers from the first on
abbrev pub count_up : ℕ → ℕ → List ℕ
count_up first zero = []
count_up first (suc n) = first ∷ count_up (suc first) n

-- No id is left out: an event is debounced, outdated, or the next one.
abbrev pub HasNoGap : ℕ → List Event → Type 0
HasNoGap last [] = Unit
HasNoGap last (event ∷ events) =
    ((event.debounced ≡ true) × HasNoGap last events)
    ⊎ (((event.debounced ≡ false) × (event.event_id ≤ last) × HasNoGap last events)
        ⊎ ((event.debounced ≡ false) × (event.event_id ≡ suc last) × HasNoGap (suc last) events))

abbrev pub IsOrdered : ℕ → List Event → Result (List ℕ) × Client → Type 0
IsOrdered last events (ok ids, c) =
    (ids ≡ count_up (suc last) (length ids))
    × (c.last_event_id ≡ some (last + length ids))
    × HasNoGap last events
IsOrdered last events (raised e, c) = (e ≡ faucet_event_order_error) × (¬ HasNoGap last events)

-- After an event horizon that is not 0: if no event raises, the events that pass and were not
-- debounced have the ids that follow the horizon, one by one; the last id is the last of them, and
-- no event left an id out. If an event raises, it is an error of the order, and an id was left out.
pub admit_all-IsOrdered :
    (events : List Event) (n : ℕ) (c : Client)
    → c.last_event_id ≡ some (suc n)
    → IsOrdered (suc n) events (admit_all events c)
unfolding admit_all
admit_all-IsOrdered [] n c e = ground arith
admit_all-IsOrdered (event ∷ events) n c e = ground (
  arith,
  admit_all-IsOrdered events n c,
  admit_all-IsOrdered events (suc n) (record c { last_event_id = some (suc (suc n)) }),
)
