-- ===== src/Api/EventStream/Frames/Reading.antt =====
-- What a browser reads of the frames, by the rules of the interface EventSource for lines that end
-- in a line feed.
use mathlib.Core.List.{append_assoc, append-nil}
use ulcer.Prelude.{
  ℕ, zero, suc, ◌+◌, ◌-◌, ◌*◌, ◌/◌, ◌%◌, ◌^◌, ◌<◌, ◌≡◌, refl, sym, ap, ◌∙◌, true, false, not, Text,
  text, List, [], ◌∷◌, ◌++◌, ◌==◌, ltb, leb, text_eq, has_prefix, if◌then◌else◌, All, all-append,
  arith, Bool-cases, inl, inr,
}
use ulcer.Model.{Event}
use ulcer.SshInstall.Safety.{lines, lines_from-append, is_one_line}
use ulcer.Api.EventStream.Frames.{
  decimal, decimal_from, parse_uint, resume_after, Written, event, keepalive, write_event,
  write_frames,
}

-- An event of the browser, with what it sends as Last-Event-ID when it connects again.
pub record Message : Type 0 where
  pub last_event_id : Text
  pub type_name : Text
  pub content : Text

-- A line without its field name.
abbrev strip : Text → Text → Text
strip [] s = s
strip (c ∷ p) [] = []
strip (c ∷ p) (d ∷ s) = strip p s

unfoldable pub read_lines : Message → List Text → List Message
read_lines m [] = []
read_lines m (line ∷ rest) =
    let done = read_lines (record m { type_name = []; content = [] }) rest in
    let ignored = read_lines m rest in
    let id = read_lines (record m { last_event_id = strip (text "id: ") line }) rest in
    let type_name = read_lines (record m { type_name = strip (text "event: ") line }) rest in
    let content = read_lines (record m { content = strip (text "data: ") line }) rest in
    if text_eq line []
    then (if text_eq m.content [] then done else m ∷ done)
    else if has_prefix line (text "id: ")
    then id
    else if has_prefix line (text "event: ")
    then type_name
    else if has_prefix line (text "data: ")
    then content
    else ignored

unfoldable pub read : Text → List Message
unfolding read_lines
read s = read_lines (record { last_event_id = []; type_name = []; content = [] }) (lines s)

-- The events among what is written, as they are meant to arrive.
unfoldable pub arriving : (Event → Text) → List Written → List Message
arriving marshal [] = []
arriving marshal (event e ∷ ws) =
    record { last_event_id = decimal e.id; type_name = e.type_name; content = marshal e }
    ∷ arriving marshal ws
arriving marshal (keepalive ∷ ws) = arriving marshal ws

decimal_from-is_one_line : (fuel n : ℕ) → is_one_line (decimal_from fuel n) ≡ true
unfolding decimal_from
decimal_from-is_one_line zero n = refl
decimal_from-is_one_line (suc fuel) n = elim (Bool-cases (ltb n 10)) [
  | inl e ↦ rw e (ground arith)
  | inr e ↦ rw e (
      all-append (λ c. not (c == 10)) (decimal_from fuel (n / 10)) _
        (decimal_from-is_one_line fuel (n / 10)) (ground arith))
]

parse_uint-digit :
    (m d : ℕ) (rest : Text)
    → d < 10
    → m * 10 + d < 2 ^ 64
    → parse_uint m ((b'0' + d) ∷ rest) ≡ parse_uint (m * 10 + d) rest
unfolding parse_uint
parse_uint-digit m d rest digit small =
    let low : leb b'0' (b'0' + d) ≡ true = ground arith in
    let high : leb (b'0' + d) b'9' ≡ true = ground arith in
    let same : m * 10 + ((b'0' + d) - b'0') ≡ m * 10 + d = omega arith in
    let fits : ltb (m * 10 + d) (2 ^ 64) ≡ true = ground arith in rw (low, high, same, fits) refl

-- A number that is read again from its digits.
parse_uint-decimal_from :
    (fuel n : ℕ) (rest : Text)
    → n < fuel
    → n < 2 ^ 64
    → parse_uint 0 (decimal_from fuel n ++ rest) ≡ parse_uint n rest
unfolding parse_uint decimal_from
parse_uint-decimal_from zero n rest lt small = absurd (ground arith)
parse_uint-decimal_from (suc fuel) n rest lt small = elim (Bool-cases (ltb n 10)) [
  | inl e ↦ rw e (
      parse_uint-digit 0 n rest (ground arith) (omega arith)
      ∙ ap (λ m. parse_uint m rest) (omega arith))
  | inr e ↦
      let front : n / 10 < fuel = ground arith in
      rw e (
        ap (parse_uint 0) (append_assoc (decimal_from fuel (n / 10)) ((b'0' + n % 10) ∷ []) rest)
        ∙ parse_uint-decimal_from fuel (n / 10) ((b'0' + n % 10) ∷ rest) front (omega arith)
        ∙ parse_uint-digit (n / 10) (n % 10) rest (omega arith) (omega arith)
        ∙ ap (λ m. parse_uint m rest) (omega arith))
]

text_eq-append : (s : Text) (c : ℕ) → text_eq (s ++ c ∷ []) [] ≡ false
text_eq-append [] c = refl
text_eq-append (d ∷ s) c = refl

text_eq-decimal : (n : ℕ) → text_eq (decimal n) [] ≡ false
unfolding decimal decimal_from
text_eq-decimal n = elim (Bool-cases (ltb n 10)) [
  | inl e ↦ rw e refl
  | inr e ↦ rw e (text_eq-append (decimal_from n (n / 10)) (b'0' + n % 10))
]

resume_after-parse_uint : (s : Text) → text_eq s [] ≡ false → resume_after s ≡ parse_uint 0 s
unfolding resume_after
resume_after-parse_uint s h = rw h refl

-- The last event id of a client gives back the number of the event.
resume_after-decimal : (n : ℕ) → n < 2 ^ 64 → resume_after (decimal n) ≡ n
unfolding decimal parse_uint
resume_after-decimal n small =
    resume_after-parse_uint (decimal n) (text_eq-decimal n)
    ∙ ap (parse_uint 0) (sym (append-nil (decimal_from (suc n) n)))
    ∙ parse_uint-decimal_from (suc n) n [] (omega arith) small

decimal-is_one_line : (n : ℕ) → is_one_line (decimal n) ≡ true
unfolding decimal
decimal-is_one_line n = decimal_from-is_one_line (suc n) n

lines-write_event :
    (marshal : Event → Text) (e : Event) (rest : Text)
    → is_one_line e.type_name ≡ true
    → is_one_line (marshal e) ≡ true
    → lines (write_event marshal e rest)
      ≡ (text "id: " ++ decimal e.id)
        ∷ (text "event: " ++ e.type_name)
        ∷ (text "data: " ++ marshal e)
        ∷ []
        ∷ lines rest
unfolding write_event
lines-write_event marshal e rest plain_type plain_data =
    lines_from-append (text "id: ") (decimal e.id) _ (decimal-is_one_line e.id)
    ∙ ap (λ t. (text "id: " ++ decimal e.id) ∷ t)
        (lines_from-append (text "event: ") e.type_name _ plain_type
          ∙ ap (λ t. (text "event: " ++ e.type_name) ∷ t)
              (lines_from-append (text "data: ") (marshal e) _ plain_data))

-- One frame gives one event of the browser, and leaves only its id behind.
read_lines-event :
    (marshal : Event → Text) (e : Event) (m : Message) (rest : List Text)
    → text_eq (marshal e) [] ≡ false
    → read_lines m (
        (text "id: " ++ decimal e.id)
        ∷ (text "event: " ++ e.type_name)
        ∷ (text "data: " ++ marshal e)
        ∷ []
        ∷ rest)
      ≡ record { last_event_id = decimal e.id; type_name = e.type_name; content = marshal e }
        ∷ read_lines (record { last_event_id = decimal e.id; type_name = []; content = [] }) rest
unfolding read_lines
read_lines-event marshal e m rest full = rw full refl

-- A text that fits a frame.
abbrev pub IsFramed : (Event → Text) → Written → Type 0
IsFramed marshal (event e) =
    (is_one_line e.type_name ≡ true)
    × (is_one_line (marshal e) ≡ true)
    × (text_eq (marshal e) [] ≡ false)
IsFramed marshal keepalive = Unit

read_lines-frames :
    (marshal : Event → Text) (ws : List Written) (id : Text)
    → All (IsFramed marshal) ws
    → read_lines
        (record { last_event_id = id; type_name = []; content = [] })
        (lines (write_frames marshal ws))
      ≡ arriving marshal ws
unfolding read_lines write_frames arriving
read_lines-frames marshal [] id h = refl
read_lines-frames marshal (event e ∷ ws) id ((plain_type, plain_data, full), h) =
    let m : Message = record { last_event_id = id; type_name = []; content = [] } in
    ap (read_lines m) (lines-write_event marshal e (write_frames marshal ws) plain_type plain_data)
    ∙ read_lines-event marshal e m (lines (write_frames marshal ws)) full
    ∙ ap
        (λ t.
          record { last_event_id = decimal e.id; type_name = e.type_name; content = marshal e } ∷ t)
        (read_lines-frames marshal ws (decimal e.id) h)
read_lines-frames marshal (keepalive ∷ ws) id (_, h) = read_lines-frames marshal ws id h

-- A browser reads from the frames, between which any keepalives stand, exactly the events that were
-- written, in their order, if no name of an event and no encoding of one has a line feed and no
-- encoding is empty; and the id of an event of a number below 2 ^ 64 is one after whose number the
-- stream resumes.
pub read-write_frames :
    (marshal : Event → Text) (ws : List Written)
    → All (IsFramed marshal) ws
    → (read (write_frames marshal ws) ≡ arriving marshal ws)
      × ((n : ℕ) → n < 2 ^ 64 → resume_after (decimal n) ≡ n)
unfolding read
read-write_frames marshal ws h = (read_lines-frames marshal ws [] h, resume_after-decimal)
