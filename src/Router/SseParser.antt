-- ===== src/Router/SseParser.antt =====
-- packages/wft-router/src/sse/parser.ts: the parser of server-sent events. Text is the list of its
-- code units. `Number` of a digit string is exact here; beyond 2 ^ 53 JavaScript rounds it.
pub mod Chunks
pub mod Frames
use wood_fired_tasks.Prelude.{
  ℕ, ◌+◌, ◌-◌, ◌*◌, Bool, true, false, not, ◌&&◌, ◌||◌, Option, none, some, List, [], ◌∷◌, ◌++◌,
  leb, ◌==◌, if◌then◌else◌,
}
use wood_fired_tasks.Prelude.Text.{Text, codes, text_eq}

abbrev pub newline : ℕ
newline = 10

abbrev pub return_char : ℕ
return_char = 13

abbrev pub colon : ℕ
colon = 58

abbrev pub space : ℕ
space = 32

-- SSEEvent.
pub record SseEvent : Type 0 where
  pub id : Option Text
  pub event : Option Text
  pub payload : Text
  pub retry : Option ℕ

-- PendingEvent.
pub record Pending : Type 0 where
  pub id : Option Text
  pub event : Option Text
  pub data_lines : List Text
  pub retry : Option ℕ
  pub has_field : Bool

abbrev pub new_block : Pending
new_block = record { id = none; event = none; data_lines = []; retry = none; has_field = false }

-- `dataLines.join('\n')`.
pub join : List Text → Text
join [] = []
join (l ∷ []) = l
join (l ∷ m ∷ ls) = l ++ newline ∷ join (m ∷ ls)

-- `finalizeIfReady`: the events that it adds to `out`. The block is new afterwards.
pub finalize : Pending → List SseEvent
finalize p =
    if p.has_field
    then record { id = p.id; event = p.event; payload = join p.data_lines; retry = p.retry } ∷ []
    else []

-- `rawLine.endsWith('\r') ? rawLine.slice(0, -1) : rawLine`.
pub strip_return : Text → Text
strip_return [] = []
strip_return (c ∷ []) = if c == return_char then [] else c ∷ []
strip_return (c ∷ d ∷ cs) = c ∷ strip_return (d ∷ cs)

-- The field name and the value of a line, split at its first colon.
abbrev in_name : ℕ → Text × Text → Text × Text
in_name c (name, value) = (c ∷ name, value)

pub split_colon : Text → Text × Text
split_colon [] = ([], [])
split_colon (c ∷ cs) = if c == colon then ([], cs) else in_name c (split_colon cs)

pub strip_space : Text → Text
strip_space [] = []
strip_space (c ∷ cs) = if c == space then cs else c ∷ cs

abbrev is_digit : ℕ → Bool
is_digit c = leb 48 c && leb c 57

all_digits : Text → Bool
all_digits [] = true
all_digits (c ∷ cs) = is_digit c && all_digits cs

decimal : ℕ → Text → ℕ
decimal acc [] = acc
decimal acc (c ∷ cs) = decimal (acc * 10 + (c - 48)) cs

-- `/^\d+$/.test(value)` and `Number(value)`.
pub parse_retry : Text → Option ℕ
parse_retry [] = none
parse_retry (c ∷ cs) = if all_digits (c ∷ cs) then some (decimal 0 (c ∷ cs)) else none

-- `value.includes('\0')`.
pub has_nul : Text → Bool
has_nul [] = false
has_nul (c ∷ cs) = c == 0 || has_nul cs

abbrev set_retry : Option ℕ → Pending → Pending
set_retry none p = p
set_retry (some n) p = record p { retry = some n; has_field = true }

-- The switch over the field name.
pub set_field : Text → Text → Pending → Pending
unfolding has_nul parse_retry
set_field field value p =
    if text_eq field (codes "event")
    then record p { event = some value; has_field = true }
    else if text_eq field (codes "data")
    then record p { data_lines = p.data_lines ++ value ∷ []; has_field = true }
    else if text_eq field (codes "id")
    then (if has_nul value then p else record p { id = some value; has_field = true })
    else if text_eq field (codes "retry")
    then set_retry (parse_retry value) p
    else p

abbrev is_comment : Text → Bool
is_comment [] = false
is_comment (c ∷ cs) = c == colon

abbrev field_line : Text × Text → Pending → Pending
field_line (field, value) p = set_field field (strip_space value) p

-- `processLine`, after the trailing '\r' is gone: the block, and the events that are complete.
pub process_stripped : Text → Pending → Pending × List SseEvent
process_stripped [] p = (new_block, finalize p)
process_stripped (c ∷ cs) p =
    if c == colon then (p, []) else (field_line (split_colon (c ∷ cs)) p, [])

pub process_line : Text → Pending → Pending × List SseEvent
process_line raw p = process_stripped (strip_return raw) p

-- The loop over the complete lines.
pub process_lines : List Text → Pending → Pending × List SseEvent
process_lines [] p = (p, [])
process_lines (l ∷ ls) p =
    let (p', out) = process_line l p in let (p'', out') = process_lines ls p' in (p'', out ++ out')

-- `combined.split('\n')` with its last element taken off: the complete lines, and the rest.
abbrev in_line : ℕ → List Text × Text → List Text × Text
in_line c ([], rest) = ([], c ∷ rest)
in_line c (l ∷ ls, rest) = ((c ∷ l) ∷ ls, rest)

abbrev new_line : List Text × Text → List Text × Text
new_line (ls, rest) = ([] ∷ ls, rest)

pub split_lines : Text → List Text × Text
split_lines [] = ([], [])
split_lines (c ∷ cs) =
    if c == newline then new_line (split_lines cs) else in_line c (split_lines cs)

-- The two variables of a parser's closure.
pub record Parser : Type 0 where
  pub line_buffer : Text
  pub pending : Pending

-- `createSSEParser`.
abbrev pub fresh : Parser
fresh = record { line_buffer = []; pending = new_block }

unfoldable pub feed : Parser → Text → Parser × List SseEvent
feed s chunk =
    let (lines, rest) = split_lines (s.line_buffer ++ chunk) in
    let (p, out) = process_lines lines s.pending in
    (record { line_buffer = rest; pending = p }, out)

abbrev flush_line : Text → Pending → Pending × List SseEvent
flush_line [] p = (p, [])
flush_line (c ∷ cs) p = process_line (c ∷ cs) p

unfoldable pub flush : Parser → Parser × List SseEvent
flush s =
    let (p, out) = flush_line s.line_buffer s.pending in
    (record { line_buffer = []; pending = new_block }, out ++ finalize p)

-- The chunks of a stream, one `feed` each.
pub feed_all : Parser → List Text → Parser × List SseEvent
feed_all s [] = (s, [])
feed_all s (c ∷ cs) =
    let (s', out) = feed s c in let (s'', out') = feed_all s' cs in (s'', out ++ out')

-- Opens what a run of the parser computes with.
unfoldable pub parser_runs : Unit {0}
unfolding feed feed_all flush split_lines process_lines process_line process_stripped strip_return
    split_colon strip_space set_field finalize join all_digits decimal
parser_runs = tt
