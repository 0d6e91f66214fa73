-- ===== src/Api/EventStream/Frames.antt =====
-- internal/api/api.go: the number at which a client resumes, and the frames of eventStream.
pub mod Reading
use ulcer.Prelude.{
  ℕ, zero, suc, ◌+◌, ◌-◌, ◌*◌, ◌/◌, ◌%◌, ◌^◌, Bool, true, false, ◌&&◌, not, Text, text, List, [],
  ◌∷◌, ◌++◌, ltb, leb, text_eq, if◌then◌else◌,
}
use ulcer.Model.{Event}

-- %d, where the first argument is above the number.
unfoldable pub decimal_from : ℕ → ℕ → Text
decimal_from zero n = []
decimal_from (suc fuel) n =
    let front = decimal_from fuel (n / 10) in
    if ltb n 10 then (b'0' + n) ∷ [] else front ++ (b'0' + n % 10) ∷ []

unfoldable pub decimal : ℕ → Text
unfolding decimal_from
decimal n = decimal_from (suc n) n

-- strconv.ParseUint of base 10 and 64 bits from a number on, without its error: 0 at a character that
-- is no digit, and the greatest number where the value is out of range.
unfoldable pub parse_uint : ℕ → Text → ℕ
parse_uint n [] = n
parse_uint n (c ∷ s) =
    let next = n * 10 + (c - b'0') in
    let rest = parse_uint next s in
    if not (leb b'0' c && leb c b'9') then 0 else if ltb next (2 ^ 64) then rest else 2 ^ 64 - 1

unfoldable pub resume_after : Text → ℕ
unfolding parse_uint
resume_after header = if text_eq header [] then 0 else parse_uint 0 header

-- What the loop writes.
pub data Written : Type 0 where
  event : Event → Written
  keepalive : Written

-- `marshal` is json.Marshal, and the rest of the stream follows.
unfoldable pub write_event : (Event → Text) → Event → Text → Text
write_event marshal e rest =
    text "id: "
    ++ decimal e.id
    ++ 10 ∷ (text "event: " ++ e.type_name ++ 10 ∷ (text "data: " ++ marshal e ++ 10 ∷ 10 ∷ rest))

unfoldable pub write_frames : (Event → Text) → List Written → Text
unfolding write_event
write_frames marshal [] = []
write_frames marshal (event e ∷ ws) = write_event marshal e (write_frames marshal ws)
write_frames marshal (keepalive ∷ ws) = text ": keepalive" ++ 10 ∷ 10 ∷ write_frames marshal ws
