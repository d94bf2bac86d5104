-- ===== src/Router/SseParser/Frames.antt =====
-- What the parser makes of one event written in the wire format.
use mathlib.Core.List.{append_assoc, append-nil}
use wood_fired_tasks.Prelude.{
  ◌≡◌, ◌≢◌, refl, ap, ◌∙◌, true, false, Option, none, some, List, [], ◌∷◌, ◌++◌, arith, All, map,
}
use wood_fired_tasks.Prelude.Text.{Text, codes}
use wood_fired_tasks.Router.SseParser.{
  newline, return_char, SseEvent, Pending, fresh, new_block, finalize, join, strip_return,
  strip_space, split_colon, set_field, has_nul, process_stripped, process_line, process_lines,
  split_lines, feed,
}
use wood_fired_tasks.Router.SseParser.Chunks.{process_lines-append}

-- A value that stands on one line.
abbrev pub IsPlain : Text → Type 0
IsPlain = All (λ c. (c ≢ newline) × (c ≢ return_char))

-- What a sender puts on the wire: the optional lines, a line for each line of data, a blank line.
pub record Message : Type 0 where
  pub id : Option Text
  pub event : Option Text
  pub first : Text
  pub others : List Text

abbrev field_lines : Text → Option Text → List Text
field_lines name none = []
field_lines name (some v) = (name ++ v) ∷ []

abbrev data_lines : Text → List Text → List Text
data_lines v vs = map (λ w. codes "data: " ++ w) (v ∷ vs)

abbrev pub message_lines : Message → List Text
message_lines m =
    field_lines (codes "id: ") m.id
    ++ (field_lines (codes "event: ") m.event ++ (data_lines m.first m.others ++ [] ∷ []))

abbrev pub wire : List Text → Text
wire [] = []
wire (l ∷ ls) = l ++ newline ∷ wire ls

abbrev IsPlain? : Option Text → Type 0
IsPlain? none = Unit
IsPlain? (some v) = IsPlain v

abbrev IsId : Option Text → Type 0
IsId none = Unit
IsId (some v) = has_nul v ≡ false

pub record IsSendable (m : Message) : Type 0 where
  pub plain_id : IsPlain? m.id
  pub id_without_nul : IsId m.id
  pub plain_event : IsPlain? m.event
  pub plain_data : All IsPlain (m.first ∷ m.others)

abbrev pub received : Message → SseEvent
received m = record {
  id = m.id;
  event = m.event;
  payload = join (m.first ∷ m.others);
  retry = none;
}

strip_return_plain : (l : Text) → IsPlain l → strip_return l ≡ l
unfolding strip_return
strip_return_plain [] h = refl
strip_return_plain (c ∷ []) h = ground arith
strip_return_plain (c ∷ d ∷ cs) h = ap (λ r. c ∷ r) (strip_return_plain (d ∷ cs) h.1)

split_lines_line :
    (l rest : Text)
    → IsPlain l
    → split_lines (l ++ newline ∷ rest) ≡ (l ∷ (split_lines rest).0, (split_lines rest).1)
unfolding split_lines
split_lines_line [] rest h = refl
split_lines_line (c ∷ l) rest h = ground (arith, split_lines_line l rest h.1)

split_lines-wire : (ls : List Text) → All IsPlain ls → split_lines (wire ls) ≡ (ls, [])
unfolding split_lines
split_lines-wire [] h = refl
split_lines-wire (l ∷ ls) h =
    split_lines_line l (wire ls) h.0 ∙ ap (λ r. (l ∷ r.0, r.1)) (split_lines-wire ls h.1)

process_line_plain : (l : Text) (p : Pending) → IsPlain l → process_line l p ≡ process_stripped l p
unfolding process_line
process_line_plain l p h = rw (strip_return_plain l h)

abbrev with_data : Text → Pending → Pending
with_data v p = record p { data_lines = p.data_lines ++ v ∷ []; has_field = true }

process_data :
    (v : Text) (p : Pending)
    → IsPlain v
    → process_line (codes "data: " ++ v) p ≡ (with_data v p, [])
unfolding process_stripped split_colon strip_space set_field
process_data v p h = process_line_plain (codes "data: " ++ v) p (ground arith) ∙ refl

process_event :
    (v : Text) (p : Pending)
    → IsPlain v
    → process_line (codes "event: " ++ v) p ≡ (record p { event = some v; has_field = true }, [])
unfolding process_stripped split_colon strip_space set_field
process_event v p h = process_line_plain (codes "event: " ++ v) p (ground arith) ∙ refl

process_id :
    (v : Text) (p : Pending)
    → IsPlain v
    → has_nul v ≡ false
    → process_line (codes "id: " ++ v) p ≡ (record p { id = some v; has_field = true }, [])
unfolding process_stripped split_colon strip_space set_field
process_id v p h k = process_line_plain (codes "id: " ++ v) p (ground arith) ∙ (rw k)

abbrev with_lines : List Text → Pending → Pending
with_lines vs p = record p { data_lines = p.data_lines ++ vs; has_field = true }

process_data_lines :
    (v : Text) (vs : List Text) (p : Pending)
    → All IsPlain (v ∷ vs)
    → process_lines (data_lines v vs) p ≡ (with_lines (v ∷ vs) p, [])
unfolding process_lines
process_data_lines v [] p h = rw (process_data v p h.0)
process_data_lines v (w ∷ vs) p h =
    rw (process_data v p h.0) (rw (process_data_lines w vs (with_data v p) h.1) (simp append_assoc))

abbrev opt_id : Option Text → Pending → Pending
opt_id none p = p
opt_id (some v) p = record p { id = some v; has_field = true }

abbrev opt_event : Option Text → Pending → Pending
opt_event none p = p
opt_event (some v) p = record p { event = some v; has_field = true }

process_opt_id :
    (o : Option Text) (p : Pending)
    → IsPlain? o
    → IsId o
    → process_lines (field_lines (codes "id: ") o) p ≡ (opt_id o p, [])
unfolding process_lines
process_opt_id none p h k = refl
process_opt_id (some v) p h k = rw (process_id v p h k)

process_opt_event :
    (o : Option Text) (p : Pending)
    → IsPlain? o
    → process_lines (field_lines (codes "event: ") o) p ≡ (opt_event o p, [])
unfolding process_lines
process_opt_event none p h = refl
process_opt_event (some v) p h = rw (process_event v p h)

process_end : (p : Pending) → process_lines ([] ∷ []) p ≡ (new_block, finalize p)
unfolding process_lines process_line strip_return process_stripped
process_end p = simp append-nil

-- The block that the lines of a message build.
abbrev built : Message → Pending
built m = with_lines (m.first ∷ m.others) (opt_event m.event (opt_id m.id new_block))

finalize-built : (m : Message) → finalize (built m) ≡ received m ∷ []
unfolding finalize
finalize-built m = ground arith

process_message :
    (m : Message)
    → IsSendable m
    → process_lines (message_lines m) new_block ≡ (new_block, received m ∷ [])
process_message m s =
    rw
      (
        process_lines-append (field_lines (codes "id: ") m.id),
        process_opt_id m.id new_block s.plain_id s.id_without_nul,
      )
      (rw
        (
          process_lines-append (field_lines (codes "event: ") m.event),
          process_opt_event m.event (opt_id m.id new_block) s.plain_event,
        )
        (rw
          (
            process_lines-append (data_lines m.first m.others),
            process_data_lines m.first m.others (opt_event m.event (opt_id m.id new_block))
                s.plain_data,
          )
          (rw (process_end, finalize-built m))))

All-append : (xs ys : List Text) → All IsPlain xs → All IsPlain ys → All IsPlain (xs ++ ys)
All-append [] ys h k = k
All-append (x ∷ xs) ys h k = (h.0, All-append xs ys h.1 k)

data_lines-IsPlain :
    (v : Text) (vs : List Text) → All IsPlain (v ∷ vs) → All IsPlain (data_lines v vs)
data_lines-IsPlain v [] h = (ground arith, tt)
data_lines-IsPlain v (w ∷ vs) h = (ground arith, data_lines-IsPlain w vs h.1)

message_lines-IsPlain : (m : Message) → IsSendable m → All IsPlain (message_lines m)
message_lines-IsPlain m s =
    All-append (field_lines (codes "id: ") m.id) _ (id_plain m.id s.plain_id) (
      All-append (field_lines (codes "event: ") m.event) _ (event_plain m.event s.plain_event) (
        All-append (data_lines m.first m.others) ([] ∷ [])
          (data_lines-IsPlain m.first m.others s.plain_data) (tt, tt)))
  where
    id_plain : (o : Option Text) → IsPlain? o → All IsPlain (field_lines (codes "id: ") o)
    id_plain none h = tt
    id_plain (some v) h = (ground arith, tt)

    event_plain : (o : Option Text) → IsPlain? o → All IsPlain (field_lines (codes "event: ") o)
    event_plain none h = tt
    event_plain (some v) h = (ground arith, tt)

-- A sendable message on the wire comes out as one event with its id, its name and its lines of
-- data joined by newlines, and leaves the parser as it was at the start.
pub feed-wire :
    (m : Message) → IsSendable m → feed fresh (wire (message_lines m)) ≡ (fresh, received m ∷ [])
unfolding feed
feed-wire m s =
    rw (split_lines-wire (message_lines m) (message_lines-IsPlain m s)) (rw (process_message m s))
