-- ===== src/Events/Timers.antt =====
-- The debounce timers: a port has one at most, and none once it is up.
pub mod Runs
use forch.Base.{
  ℕ, zero, suc, ◌+◌, ◌≤◌, ◌<◌, ◌≡◌, refl, sym, ◌∙◌, ap, ◌≢◌, ◌⊎◌, inl, inr, String, Bool, true,
  false, Option, none, some, List, [], ◌∷◌, ◌++◌, arith, string_eq, nat_eq, pair_eq, ◌==◌,
  if◌then◌else◌, Option-cases, All,
}
use forch.Base.Dict
use forch.Events.Types.{Event, Json, Timer, Client, create}
use forch.Events.Debounce.{
  drop_timer, handle_debounce, start_timer, cancel_timer, debounce_port_event, fire,
}

-- A timer is the one that its port has in the dict, and it waits to report that the port is down.
abbrev pub IsCurrent : Client → Timer → Type 0
IsCurrent c t =
    (Dict.lookup (t.event.dp_id, t.port) c.port_timers ≡ some t.number)
    × (t.active ≡ false)
    × (t.number < c.next_timer)

-- No two timers have the same number.
abbrev pub Apart : List Timer → Type 0
Apart [] = Unit
Apart (t ∷ timers) = All (λ u. u.number ≢ t.number) timers × Apart timers

pub record IsTimed (c : Client) : Type 0 where
  pub current : All (IsCurrent c) c.running
  pub apart : Apart c.running

abbrev pub port_of : Timer → ℕ × ℕ
port_of t = (t.event.dp_id, t.port)

-- No timer runs for a port.
abbrev pub NoTimer : ℕ × ℕ → Client → Type 0
NoTimer key c = All (λ t. port_of t ≢ key) c.running

pub All-drop_timer :
    (P : Timer → Type 0) (n : ℕ) (timers : List Timer) → All P timers → All P (drop_timer n timers)
All-drop_timer P n [] h = tt
All-drop_timer P n (t ∷ timers) h = ground (arith, All-drop_timer P n timers)

drop_timer-gone : (n : ℕ) (timers : List Timer) → All (λ t. t.number ≢ n) (drop_timer n timers)
drop_timer-gone n [] = tt
drop_timer-gone n (t ∷ timers) = ground (arith, drop_timer-gone n timers)

pub Apart-drop_timer : (n : ℕ) (timers : List Timer) → Apart timers → Apart (drop_timer n timers)
Apart-drop_timer n [] h = tt
Apart-drop_timer n (t ∷ timers) h =
    ground
      (arith, Apart-drop_timer n timers, All-drop_timer (λ u. u.number ≢ t.number) n timers h.0)

-- A property of the timers that follows from two others, or from one and its failure.
All-both :
    {P Q R : Timer → Type 0} (timers : List Timer)
    → ((t : Timer) → P t → Q t → R t)
    → All P timers
    → All Q timers
    → All R timers
All-both [] f p q = tt
All-both (t ∷ timers) f p q = (f t p.0 q.0, All-both timers f p.1 q.1)

module _ (c : Client) (v : IsTimed c) where
  -- The timers that are left when the one of a port is dropped
  pub left_other :
      (key : ℕ × ℕ) (n : ℕ)
      → Dict.lookup key c.port_timers ≡ some n
      → All (λ t. port_of t ≢ key) (drop_timer n c.running)
  left_other key n e =
      All-both (drop_timer n c.running) (λ t cur other same. other (number_of t key n cur same e))
        (All-drop_timer (IsCurrent c) n c.running v.current) (drop_timer-gone n c.running)
    where
      number_of :
          (t : Timer) (key : ℕ × ℕ) (n : ℕ)
          → IsCurrent c t
          → port_of t ≡ key
          → Dict.lookup key c.port_timers ≡ some n
          → t.number ≡ n
      number_of t key n cur same e = cc

  cancel_timer-IsTimed : (dpid port : ℕ) → IsTimed (cancel_timer dpid port c)
  unfolding cancel_timer
  cancel_timer-IsTimed dpid port = elim (Option-cases (Dict.lookup (dpid, port) c.port_timers)) [
    | inl e ↦ rw (e, cancel_timer) v
    | inr (n, e) ↦
        rw (e, cancel_timer)
          (record {
            current = All-drop_timer (IsCurrent c) n c.running v.current;
            apart = Apart-drop_timer n c.running v.apart;
          })
  ]

  pub cancel_timer-NoTimer : (dpid port : ℕ) → NoTimer (dpid, port) (cancel_timer dpid port c)
  unfolding cancel_timer
  cancel_timer-NoTimer dpid port = elim (Option-cases (Dict.lookup (dpid, port) c.port_timers)) [
    | inl e ↦
        rw (e, cancel_timer)
          (All-both c.running (λ t cur _ same. absurd (missing t (dpid, port) cur same e)) v.current
            v.current)
    | inr (n, e) ↦ rw (e, cancel_timer) (left_other (dpid, port) n e)
  ]
    where
      missing :
          (t : Timer) (key : ℕ × ℕ)
          → IsCurrent c t
          → port_of t ≡ key
          → Dict.lookup key c.port_timers ≡ none
          → ⊥
      missing t key cur same e = cc

module _ (json : Json) (event : Event) (port : ℕ) (active : Bool) (now : ℕ) (c : Client)
    (v : IsTimed c) (free : NoTimer (event.dp_id, port) c) where
  pub handle_debounce-IsTimed : IsTimed (handle_debounce json event port active now c)
  unfolding handle_debounce
  handle_debounce-IsTimed = record {
    current = All-both c.running (λ t cur other. (erased t cur other, cur.1, cur.2)) v.current free;
    apart = v.apart;
  }
    where
      erased :
          (t : Timer)
          → IsCurrent c t
          → port_of t ≢ (event.dp_id, port)
          → Dict.lookup (port_of t) (Dict.erase (event.dp_id, port) c.port_timers) ≡ some t.number
      erased t cur other =
          Dict.lookup-erase_ne (port_of t) (event.dp_id, port) c.port_timers other ∙ cur.0

  start_timer-IsTimed : active ≡ false → IsTimed (start_timer event port active c)
  start_timer-IsTimed down = record {
    current = (
      (Dict.lookup-insert_self (event.dp_id, port) c.next_timer c.port_timers, down, omega arith),
      All-both c.running (λ t cur other. (kept t cur other, cur.1, omega (arith, cur.2))) v.current
          free,
    );
    apart = (All-both c.running (λ t cur _. number_ne t cur) v.current v.current, v.apart);
  }
    where
      kept :
          (t : Timer)
          → IsCurrent c t
          → port_of t ≢ (event.dp_id, port)
          → Dict.lookup (port_of t) (Dict.insert (event.dp_id, port) c.next_timer c.port_timers)
            ≡ some t.number
      kept t cur other =
          Dict.lookup-insert_ne (port_of t) (event.dp_id, port) c.next_timer c.port_timers other
          ∙ cur.0

      number_ne : (t : Timer) → IsCurrent c t → t.number ≢ c.next_timer
      number_ne t cur e = omega (arith, cur.2)

module _ (json : Json) (event : Event) (port now : ℕ) (c : Client) (v : IsTimed c) where
  pub debounce_port_event-IsTimed :
      (active : Bool) → IsTimed (debounce_port_event json event port active now c)
  unfolding debounce_port_event
  debounce_port_event-IsTimed true =
      handle_debounce-IsTimed json event port true now (cancel_timer event.dp_id port c)
        (cancel_timer-IsTimed c v event.dp_id port) (cancel_timer-NoTimer c v event.dp_id port)
  debounce_port_event-IsTimed false =
      start_timer-IsTimed json event port false now (cancel_timer event.dp_id port c)
        (cancel_timer-IsTimed c v event.dp_id port) (cancel_timer-NoTimer c v event.dp_id port) refl
