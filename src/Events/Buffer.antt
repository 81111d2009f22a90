-- ===== src/Events/Buffer.antt =====
-- The buffer of `FaucetEventClient` of forch/faucet_event_client.py: the text that was received and
-- not yet read, as the list of its code points. Complete lines end with a line feed.
pub mod Queue
pub mod Runs
use forch.Base.{
  ℕ, zero, suc, ◌+◌, Option, none, some, List, [], ◌∷◌, ◌++◌, length, take, drop, nat_eq, ◌==◌,
  if◌then◌else◌,
}

abbrev pub Text : Type 0
Text = List ℕ

abbrev pub newline : ℕ
newline = 10

-- `text.rfind('\n')`, where -1 is `none`
unfoldable pub rfind : Text → Option ℕ
rfind [] = none
rfind (c ∷ text) = elim (rfind text) [
  | some i ↦ some (suc i)
  | none ↦ if c == newline then some 0 else none
]

-- The three branches of `_append_event`, for a place of the last line feed
abbrev pub append_at : Option ℕ → Text → Text → Text
append_at none event buffer =
    if length buffer == 0 then buffer ++ (event ++ (newline ∷ [])) else event ++ (newline ∷ buffer)
append_at (some i) event buffer =
    if suc i == length buffer
    then buffer ++ (event ++ (newline ∷ []))
    else take i buffer ++ ((newline ∷ event) ++ drop i buffer)

-- `_append_event`, of the text of the merged event. An empty buffer has -1 for both places.
unfoldable pub append_event : Text → Text → Text
unfolding rfind
append_event event buffer = append_at (rfind buffer) event buffer

-- `_prepend_event`
abbrev pub prepend_event : Text → Text → Text
prepend_event event buffer = event ++ (newline ∷ buffer)

-- `'\n' in buffer`, and then `buffer.split('\n', 1)`
unfoldable pub split_line : Text → Option (Text × Text)
split_line [] = none
split_line (c ∷ text) =
    let rest = split_line text in
    if c == newline
    then some ([], text)
    else elim rest [ none ↦ none | some (line, remainder) ↦ some (c ∷ line, remainder) ]

-- What happens to the buffer: data of the socket, the events that are put into it, and a line that
-- `next_event` takes.
pub data Op : Type 0 where
  received : Text → Op
  appended : Text → Op
  prepended : Text → Op
  taken : Op

-- The buffer after an operation, and the line that it takes
unfoldable pub step : Op → Text → Option Text × Text
unfolding append_event split_line
step (received chunk) buffer = (none, buffer ++ chunk)
step (appended event) buffer = (none, append_event event buffer)
step (prepended event) buffer = (none, prepend_event event buffer)
step taken buffer = elim (split_line buffer) [
  | none ↦ (none, buffer)
  | some (line, remainder) ↦ (some line, remainder)
]

abbrev pub noted : Option Text → List Text → List Text
noted none lines = lines
noted (some line) lines = line ∷ lines

-- The lines that a run takes, and the buffer that it leaves
unfoldable pub run : List Op → Text → List Text × Text
unfolding step
run [] buffer = ([], buffer)
run (op ∷ ops) buffer =
    let (line, rest) = step op buffer in let (lines, end) = run ops rest in (noted line lines, end)
