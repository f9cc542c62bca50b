-- ===== src/Sse/Reading.antt =====
-- How the web front end reads the stream, SuperBizAgentFrontend/app.js: the part of sendStreamMessage
-- that collects the response.
use on_call_agent.Base.{
  ◌≡◌, refl, sym, ap, ◌∙◌, ℕ, Bool, true, false, not, ◌&&◌, ◌||◌, ◌==◌, List, [], ◌∷◌, ◌++◌,
  append_assoc, append-nil, Option, none, some, arith, if◌then◌else◌, leb, ◌=?◌, Text, codes,
  is_empty, split, split_from, has_code, Bool-cases, inl, inr, nat_eq, list_eq,
}
use on_call_agent.Sse.{format_event}

-- What String.prototype.trim removes.
unfoldable pub is_js_space : ℕ → Bool
is_js_space c =
    (leb 9 c && leb c 13)
    || c == 32
    || c == 160
    || c == 5760
    || (leb 8192 c && leb c 8202)
    || c == 8232
    || c == 8233
    || c == 8239
    || c == 8287
    || c == 12288
    || c == 65279

unfoldable pub is_blank : Text → Bool
unfolding is_js_space
is_blank [] = true
is_blank (c ∷ s) = is_js_space c && is_blank s

-- startsWith and substring: what follows the prefix, if the text has it.
abbrev pub after_prefix : Text → Text → Option Text
after_prefix [] s = some s
after_prefix (c ∷ prefix) [] = none
after_prefix (c ∷ prefix) (d ∷ s) = if c == d then after_prefix prefix s else none

-- `is_over` after the return.
pub record Reader : Type 0 where
  pub current_event : Text
  pub full_response : Text
  pub is_over : Bool

-- The data of one event.
unfoldable pub read_data : Reader → Text → Reader
read_data r payload =
    if payload =? codes "[DONE]"
    then record r { is_over = true }
    else if r.current_event =? codes "message"
    then record r {
      full_response = r.full_response ++ (if is_empty payload then codes "\n" else payload);
    }
    else r

-- One line.
unfoldable pub read_line : Reader → Text → Reader
read_line r line =
    if r.is_over || is_blank line then r else (elim (after_prefix (codes "id: ") line) [
      | some _ ↦ r
      | none ↦ elim (after_prefix (codes "event: ") line) [
        | some event ↦ record r { current_event = event; is_over = event =? codes "done" }
        | none ↦ elim (after_prefix (codes "data: ") line) [
          | some payload ↦ read_data r payload
          | none ↦ r
        ]
      ]
    ])

unfoldable pub read_lines : Reader → List Text → Reader
read_lines r [] = r
read_lines r (line ∷ lines) = read_lines (read_line r line) lines

-- The lines that have ended; the last one stays in the buffer.
abbrev pub complete_lines : List Text → List Text
complete_lines [] = []
complete_lines (line ∷ []) = []
complete_lines (line ∷ next ∷ lines) = line ∷ complete_lines (next ∷ lines)

unfoldable pub read_stream : Reader → Text → Reader
read_stream r text = read_lines r (complete_lines (split b'\n' text))

-- The events that carry the pieces of a message, each with the time that it was formatted at.
abbrev pub events_for : List (Text × Text) → Text
events_for [] = []
events_for ((now, piece) ∷ pieces) = format_event now (codes "message") piece ++ events_for pieces

abbrev pub joined : List (Text × Text) → Text
joined [] = []
joined ((now, piece) ∷ pieces) = piece ++ joined pieces

-- A piece that one event can carry.
abbrev pub fits : Text → Bool
fits piece = not (is_empty piece) && not (has_code b'\n' piece) && not (piece =? codes "[DONE]")

-- Pieces that fit, at times that are printed without a newline.
abbrev pub all_fit : List (Text × Text) → Bool
all_fit [] = true
all_fit ((now, piece) ∷ pieces) = not (has_code b'\n' now) && fits piece && all_fit pieces

split_from-line :
    (word line rest : Text)
    → has_code b'\n' line ≡ false
    → split_from b'\n' word (line ++ b'\n' ∷ rest) ≡ (word ++ line) ∷ split_from b'\n' [] rest
unfolding split_from has_code
split_from-line word [] rest h = ap (λ w. w ∷ split_from b'\n' [] rest) (sym (append-nil word))
split_from-line word (c ∷ line) rest h =
    ground (arith, h, split_from-line (word ++ c ∷ []) line rest, append_assoc word (c ∷ []) line)

split_from-nonempty :
    (word s : Text) → (line : Text) × (lines : List Text) × (split_from b'\n' word s ≡ line ∷ lines)
unfolding split_from
split_from-nonempty word [] = (word, [], refl)
split_from-nonempty word (c ∷ s) = elim (Bool-cases (c == b'\n')) [
  | inl e ↦ (word, split_from b'\n' [] s, ground (arith, e))
  | inr e ↦
      let (line, lines, h) = split_from-nonempty (word ++ c ∷ []) s in
      (line, lines, ground (arith, e, h))
]

-- A line that has ended is read, and the rest after it.
read_stream-line :
    (r : Reader) (line rest : Text)
    → has_code b'\n' line ≡ false
    → read_stream r (line ++ b'\n' ∷ rest) ≡ read_stream (read_line r line) rest
unfolding split read_stream read_lines
read_stream-line r line rest h =
    let (next, lines, e) = split_from-nonempty [] rest in
    ground (arith, split_from-line [] line rest h, e)

id_line : (r : Reader) (now : Text) → r.is_over ≡ false → read_line r (codes "id: " ++ now) ≡ r
unfolding read_line is_blank is_js_space
id_line r now going = ground (arith, going)

-- A reader in the middle of a message.
abbrev pub in_message : Text → Reader
in_message response = record {
  current_event = codes "message";
  full_response = response;
  is_over = false;
}

event_line :
    (r : Reader)
    → r.is_over ≡ false
    → read_line r (codes "event: message") ≡ in_message r.full_response
unfolding read_line is_blank is_js_space
event_line r going = ground (arith, going)

data_line :
    (response piece : Text)
    → fits piece ≡ true
    → read_line (in_message response) (codes "data: " ++ piece) ≡ in_message (response ++ piece)
unfolding read_line read_data is_blank is_js_space
data_line response piece h = ground (arith, h)

blank_line : (r : Reader) → read_line r [] ≡ r
unfolding read_line is_blank
blank_line r = ground arith

-- The lines of an event.
shape :
    (now piece rest : Text)
    → format_event now (codes "message") piece ++ rest
      ≡ (codes "id: " ++ now)
        ++ b'\n'
          ∷ (codes "event: message" ++ b'\n' ∷ ((codes "data: " ++ piece) ++ b'\n' ∷ b'\n' ∷ rest))
unfolding format_event
shape now piece rest =
    append_assoc (codes "id: " ++ now) (codes "\nevent: message\ndata: " ++ (piece ++ codes "\n\n"))
      rest
    ∙ ap (λ s. (codes "id: " ++ now) ++ (codes "\nevent: message\ndata: " ++ s))
        (append_assoc piece (codes "\n\n") rest)

-- One event of a message.
read_event :
    (r : Reader) (now piece rest : Text)
    → r.is_over ≡ false
    → has_code b'\n' now ≡ false
    → fits piece ≡ true
    → read_stream r (format_event now (codes "message") piece ++ rest)
      ≡ read_stream (in_message (r.full_response ++ piece)) rest
unfolding has_code
read_event r now piece rest going now_fits piece_fits =
    let one_line : has_code b'\n' piece ≡ false = ground (arith, piece_fits) in
    let id : has_code b'\n' (codes "id: " ++ now) ≡ false = now_fits in
    let value : has_code b'\n' (codes "data: " ++ piece) ≡ false = one_line in
    let last : Text = (codes "data: " ++ piece) ++ b'\n' ∷ b'\n' ∷ rest in
    let lines : Text = codes "event: message" ++ b'\n' ∷ last in
    ap (read_stream r) (shape now piece rest)
    ∙ read_stream-line r (codes "id: " ++ now) lines id
    ∙ ap (λ s. read_stream s lines) (id_line r now going)
    ∙ read_stream-line r (codes "event: message") last refl
    ∙ ap (λ s. read_stream s last) (event_line r going)
    ∙ read_stream-line (in_message r.full_response) (codes "data: " ++ piece) (b'\n' ∷ rest) value
    ∙ ap (λ s. read_stream s (b'\n' ∷ rest)) (data_line r.full_response piece piece_fits)
    ∙ read_stream-line (in_message (r.full_response ++ piece)) [] rest refl
    ∙ ap (λ s. read_stream s rest) (blank_line (in_message (r.full_response ++ piece)))

-- What the server sends as events of a message, each at its own time, the front end puts together
-- again, piece after piece, if no piece is empty, holds a newline or is the mark of a stream that is
-- over, and no printed time has a newline.
pub read_stream-events_for :
    (r : Reader) (pieces : List (Text × Text))
    → r.is_over ≡ false
    → all_fit pieces ≡ true
    → (read_stream r (events_for pieces)).full_response ≡ r.full_response ++ joined pieces
unfolding read_stream read_lines split
read_stream-events_for r [] going h = sym (append-nil r.full_response)
read_stream-events_for r ((now, piece) ∷ pieces) going h =
    ap (λ (s : Reader). s.full_response)
      (read_event r now piece (events_for pieces) going (ground (arith, h)) (ground (arith, h)))
    ∙ read_stream-events_for (in_message (r.full_response ++ piece)) pieces refl (ground (arith, h))
    ∙ append_assoc r.full_response piece (joined pieces)
