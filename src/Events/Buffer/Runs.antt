-- ===== src/Events/Buffer/Runs.antt =====
-- Whole runs of the buffer, against the queue of lines.
use forch.Base.{
  ℕ, ◌≡◌, refl, sym, ◌∙◌, ap, Bool, true, false, Option, none, some, List, [], ◌∷◌, ◌++◌, All,
  arith, nat_eq, ◌==◌,
}
use forch.Events.Buffer.{Text, newline, Op, received, appended, prepended, taken, step, noted, run}
use forch.Events.Buffer.Queue.{
  Queue, put, put_by, view, push, IsLine, view-before, view-append_event, split_line-IsPopped,
}

-- The queue of a text that follows a queue
abbrev pub join : Queue → Queue → Queue
join q r = elim r.lines [
  | [] ↦ record { lines = q.lines; partial = q.partial ++ r.partial }
  | line ∷ lines ↦ record { lines = q.lines ++ ((q.partial ++ line) ∷ lines); partial = r.partial }
]

put_by-join :
    (b : Bool) (c : ℕ) (lines rest : List Text) (partial end : Text)
    → let q : Queue = record { lines = lines; partial = partial } in
      let r : Queue = record { lines = rest; partial = end } in
      put_by b c (join q r) ≡ join (put_by b c q) r
put_by-join true c lines [] partial end = refl
put_by-join true c lines (line ∷ rest) partial end = refl
put_by-join false c [] [] partial end = refl
put_by-join false c [] (line ∷ rest) partial end = refl
put_by-join false c (l ∷ lines) [] partial end = refl
put_by-join false c (l ∷ lines) (line ∷ rest) partial end = refl

join-nil :
    (lines : List Text) (partial : Text)
    → let r : Queue = record { lines = lines; partial = partial } in
      join (record { lines = []; partial = [] }) r ≡ r
join-nil [] partial = refl
join-nil (line ∷ lines) partial = refl

view-join : (buffer text : Text) → view (buffer ++ text) ≡ join (view buffer) (view text)
unfolding view
view-join [] text = sym (join-nil (view text).lines (view text).partial)
view-join (c ∷ buffer) text =
    ap (put c) (view-join buffer text)
    ∙ put_by-join (c == newline) c (view buffer).lines (view text).lines (view buffer).partial
        (view text).partial

-- What each operation does to the queue
pub spec : Op → Queue → Option Text × Queue
spec (received chunk) q = (none, join q (view chunk))
spec (appended event) q = (none, push event q)
spec (prepended event) q = (none, record { lines = event ∷ q.lines; partial = q.partial })
spec taken q = elim q.lines [
  | [] ↦ (none, q)
  | line ∷ lines ↦ (some line, record { lines = lines; partial = q.partial })
]

pub replay : List Op → Queue → List Text × Queue
replay [] q = ([], q)
replay (op ∷ ops) q =
    let (line, rest) = spec op q in let (lines, end) = replay ops rest in (noted line lines, end)

-- The text of an event is written without a line feed.
abbrev pub HasEvent : Op → Type 0
HasEvent (received chunk) = Unit
HasEvent (appended event) = IsLine event
HasEvent (prepended event) = IsLine event
HasEvent taken = Unit

abbrev seen : Option Text × Text → Option Text × Queue
seen (line, buffer) = (line, view buffer)

taken-seen : (buffer : Text) → seen (step taken buffer) ≡ spec taken (view buffer)
unfolding step spec
taken-seen buffer = ground (arith, split_line-IsPopped buffer)

step-seen : (op : Op) (buffer : Text) → HasEvent op → seen (step op buffer) ≡ spec op (view buffer)
unfolding step spec
step-seen (received chunk) buffer h = ap (λ q. (none, q)) (view-join buffer chunk)
step-seen (appended event) buffer h = ap (λ q. (none, q)) (view-append_event event buffer h)
step-seen (prepended event) buffer h = ap (λ q. (none, q)) (view-before event buffer h)
step-seen taken buffer h = taken-seen buffer

-- Whatever is received, put in and taken, the buffer behaves as a queue of lines with the beginning
-- of a line behind it, if the text of each event that is put in has no line feed: appended events
-- are the last lines, prepended ones the first, data goes on with the line that has begun, and the
-- lines that are taken are those of the queue.
pub run_refines :
    (ops : List Op) (buffer : Text)
    → All HasEvent ops
    → ((run ops buffer).0 ≡ (replay ops (view buffer)).0)
      × (view (run ops buffer).1 ≡ (replay ops (view buffer)).1)
unfolding run replay
run_refines [] buffer h = (refl, refl)
run_refines (op ∷ ops) buffer h =
    ground (arith, step-seen op buffer h.0, run_refines ops (step op buffer).1 h.1)
