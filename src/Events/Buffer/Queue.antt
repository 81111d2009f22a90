-- ===== src/Events/Buffer/Queue.antt =====
-- The buffer is a queue of lines and the beginning of the next one.
use forch.Base.{
  ℕ, suc, ◌≡◌, refl, sym, ◌∙◌, ap, ◌≢◌, ◌⊎◌, inl, inr, Bool, true, false, Option, none, some, List,
  [], ◌∷◌, ◌++◌, length, length-append, take, take-append, drop, drop-append, All, arith, nat_eq,
  ◌==◌, if◌then◌else◌,
}
use mathlib.Core.List.{append_assoc}
use forch.Events.Buffer.{Text, newline, rfind, append_at, append_event, split_line}

-- The complete lines, and the part of a line that is left over
pub record Queue : Type 0 where
  pub lines : List Text
  pub partial : Text

-- One more character before all others, which may be a line feed
abbrev pub put_by : Bool → ℕ → Queue → Queue
put_by true c q = record { lines = [] ∷ q.lines; partial = q.partial }
put_by false c q = elim q.lines [
  | [] ↦ record { lines = []; partial = c ∷ q.partial }
  | line ∷ lines ↦ record { lines = (c ∷ line) ∷ lines; partial = q.partial }
]

abbrev pub put : ℕ → Queue → Queue
put c = put_by (c == newline) c

-- `text.split('\n')`, its last piece apart
unfoldable pub view : Text → Queue
view [] = record { lines = []; partial = [] }
view (c ∷ text) = put c (view text)

abbrev pub IsLine : Text → Type 0
IsLine = All (λ c. c ≢ newline)

-- The queue with a line put behind its lines
abbrev pub push : Text → Queue → Queue
push line q = record q { lines = q.lines ++ (line ∷ []) }

-- A queue, a line feed, and another queue
abbrev after : Queue → Queue → Queue
after q r = record { lines = q.lines ++ (q.partial ∷ r.lines); partial = r.partial }

put_by-after :
    (b : Bool) (c : ℕ) (lines : List Text) (partial : Text) (r : Queue)
    → let q : Queue = record { lines = lines; partial = partial } in
      put_by b c (after q r) ≡ after (put_by b c q) r
put_by-after true c lines partial r = refl
put_by-after false c [] partial r = refl
put_by-after false c (line ∷ lines) partial r = refl

newline_same : newline == newline ≡ true
newline_same = ground arith

newline_other : (c : ℕ) → c ≢ newline → c == newline ≡ false
newline_other c n = ground arith

-- What stands before a line feed and what stands behind it
view-append : (xs text : Text) → view (xs ++ (newline ∷ text)) ≡ after (view xs) (view text)
unfolding view
view-append [] text = ap (λ b. put_by b newline (view text)) newline_same
view-append (c ∷ xs) text =
    ap (put c) (view-append xs text)
    ∙ put_by-after (c == newline) c (view xs).lines (view xs).partial (view text)

view-line : (line : Text) → IsLine line → view line ≡ record { lines = []; partial = line }
unfolding view
view-line [] h = refl
view-line (c ∷ line) h =
    ap (put c) (view-line line h.1)
    ∙ ap (λ b. put_by b c (record { lines = []; partial = line })) (newline_other c h.0)

rfind-line : (line : Text) → IsLine line → rfind line ≡ none
unfolding rfind
rfind-line [] h = refl
rfind-line (c ∷ line) h = ground (arith, h.0, rfind-line line h.1)

rfind-append : (xs line : Text) → IsLine line → rfind (xs ++ (newline ∷ line)) ≡ some (length xs)
unfolding rfind
rfind-append [] line h = ground (arith, rfind-line line h)
rfind-append (c ∷ xs) line h = ground (arith, rfind-append xs line h)

-- A text is one line, or has a last line feed.
record HasLast (text : Text) : Type 0 where
  before : Text
  last : Text
  parts : text ≡ before ++ (newline ∷ last)
  line : IsLine last

last-cons : (c : ℕ) (text : Text) → HasLast text → HasLast (c ∷ text)
last-cons c text h = record {
  before = c ∷ h.before;
  last = h.last;
  parts = ap (λ t. c ∷ t) h.parts;
  line = h.line;
}

last-here : (c : ℕ) (text : Text) → c ≡ newline → IsLine text → HasLast (c ∷ text)
last-here c text e h = record { before = []; last = text; parts = ap (λ d. d ∷ text) e; line = h }

last_cases : (text : Text) → IsLine text ⊎ HasLast text
last_cases [] = inl tt
last_cases (c ∷ text) = elim (last_cases text) [
  | inr h ↦ inr (last-cons c text h)
  | inl h ↦ elim (nat_eq.dec c newline) [ yes e ↦ inr (last-here c text e h) | no n ↦ inl (n, h) ]
]

append-if :
    (b : Bool) (i : ℕ) (event buffer text : Text)
    → (b ≡ true → buffer ++ (event ++ (newline ∷ [])) ≡ text)
    → (b ≡ false → take i buffer ++ ((newline ∷ event) ++ drop i buffer) ≡ text)
    → (if b
        then buffer ++ (event ++ (newline ∷ []))
        else take i buffer ++ ((newline ∷ event) ++ drop i buffer))
      ≡ text
append-if true i event buffer text h k = h refl
append-if false i event buffer text h k = k refl

-- A buffer that ends with a line feed
at_end :
    (event xs line : Text) → suc (length xs) == length (xs ++ (newline ∷ line)) ≡ true → line ≡ []
at_end event xs [] e = refl
at_end event xs (c ∷ line) e = absurd (ground (arith, length-append xs (newline ∷ c ∷ line)))

-- `append_event` at a last line feed
append-split :
    (event xs line : Text)
    → append_at (some (length xs)) event (xs ++ (newline ∷ line))
      ≡ xs ++ ((newline ∷ event) ++ (newline ∷ line))
append-split event xs line =
    append-if (suc (length xs) == length (xs ++ (newline ∷ line))) (length xs) event
      (xs ++ (newline ∷ line)) _
      (λ e. rw (at_end event xs line e) (append_assoc xs (newline ∷ []) (event ++ (newline ∷ []))))
      (λ _. rw (take-append xs (newline ∷ line), drop-append xs (newline ∷ line)) refl)

append-line :
    (event line : Text) → IsLine line → append_at none event line ≡ event ++ (newline ∷ line)
append-line event [] h = ground arith
append-line event (c ∷ line) h = ground arith

-- Where the event lands, in the text
append_event-line :
    (event line : Text) → IsLine line → append_event event line ≡ event ++ (newline ∷ line)
unfolding append_event
append_event-line event line h = rw (rfind-line line h, append_event) (append-line event line h)

append_event-split :
    (event xs line : Text)
    → IsLine line
    → append_event event (xs ++ (newline ∷ line)) ≡ xs ++ ((newline ∷ event) ++ (newline ∷ line))
unfolding append_event
append_event-split event xs line h =
    rw (rfind-append xs line h, append_event) (append-split event xs line)

pub view-before :
    (event text : Text)
    → IsLine event
    → view (event ++ (newline ∷ text))
      ≡ record { lines = event ∷ (view text).lines; partial = (view text).partial }
view-before event text h =
    view-append event text ∙ ap (λ q. after q (view text)) (view-line event h)

push-after :
    (event last : Text) (q : Queue)
    → after q (record { lines = event ∷ []; partial = last })
      ≡ push event (after q (record { lines = []; partial = last }))
push-after event last q =
    ap (λ ls. record { lines = ls; partial = last })
      (sym (append_assoc q.lines (q.partial ∷ []) (event ∷ [])))

view-last :
    (buffer : Text) (l : HasLast buffer)
    → view buffer ≡ after (view l.before) (record { lines = []; partial = l.last })
view-last buffer l =
    ap view l.parts
    ∙ view-append l.before l.last
    ∙ ap (after (view l.before)) (view-line l.last l.line)

-- An appended event is the last complete line; what was received of the next line stays behind it.
pub view-append_event :
    (event buffer : Text)
    → IsLine event
    → view (append_event event buffer) ≡ push event (view buffer)
view-append_event event buffer h = elim (last_cases buffer) [
  | inl l ↦
      ap view (append_event-line event buffer l)
      ∙ view-before event buffer h
      ∙ rw (view-line buffer l) refl
  | inr l ↦
      ap (λ b. view (append_event event b)) l.parts
      ∙ ap view (append_event-split event l.before l.last l.line)
      ∙ view-append l.before (event ++ (newline ∷ l.last))
      ∙ ap (after (view l.before)) (view-before event l.last h)
      ∙ rw (view-line l.last l.line) (push-after event l.last (view l.before))
      ∙ ap (push event) (sym (view-last buffer l))
]

-- `split_line` takes the first line, if there is one.
abbrev pub IsPopped : Queue → Option (Text × Text) → Type 0
IsPopped q none = q.lines ≡ []
IsPopped q (some (line, remainder)) =
    q ≡ record { lines = line ∷ (view remainder).lines; partial = (view remainder).partial }

pub split_line-IsPopped : (buffer : Text) → IsPopped (view buffer) (split_line buffer)
unfolding view split_line
split_line-IsPopped [] = refl
split_line-IsPopped (c ∷ text) = ground (arith, split_line-IsPopped text)
