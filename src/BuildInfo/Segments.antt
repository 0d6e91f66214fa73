-- ===== src/BuildInfo/Segments.antt =====
-- The path segments of the links: what they hold, and that nothing is lost in them.
use ulcer.Prelude.{
  ℕ, ◌+◌, ◌-◌, ◌*◌, ◌/◌, ◌%◌, ◌<◌, ◌≡◌, refl, Bool, true, false, ◌&&◌, ◌||◌, Text, text, Option,
  none, some, [], ◌∷◌, ◌==◌, ltb, leb, text_eq, text_eq_sound, if◌then◌else◌, arith, all, All,
  Bool-cases, inl, inr, ap, ◌∙◌, sym, subst,
}
use ulcer.BuildInfo.{is_plain, hex_digit, path_escape, escape_dots, escape_path_segment}

-- url.PathUnescape of one hexadecimal digit, of either case.
unfoldable hex_value : ℕ → Option ℕ
hex_value c =
    if leb b'0' c && leb c b'9'
    then some (c - b'0')
    else if leb b'A' c && leb c b'F'
    then some (c - 55)
    else if leb b'a' c && leb c b'f'
    then some (c - 87)
    else none

abbrev join_digits : Option ℕ → Option ℕ → Option Text → Option Text
join_digits (some h) (some l) (some s) = some ((h * 16 + l) ∷ s)
join_digits _ _ _ = none

abbrev put_first : ℕ → Option Text → Option Text
put_first c (some s) = some (c ∷ s)
put_first c none = none

-- url.PathUnescape.
unfoldable pub path_unescape : Text → Option Text
unfolding hex_value
path_unescape [] = some []
path_unescape (c ∷ []) = if c == b'%' then none else some (c ∷ [])
path_unescape (c ∷ h ∷ []) = if c == b'%' then none else put_first c (path_unescape (h ∷ []))
path_unescape (c ∷ h ∷ l ∷ s) =
    let rest = path_unescape s in
    let rest' = path_unescape (h ∷ l ∷ s) in
    if c == b'%' then join_digits (hex_value h) (hex_value l) rest else put_first c rest'

hex_value-hex_digit : (n : ℕ) → n < 16 → hex_value (hex_digit n) ≡ some n
unfolding hex_value hex_digit
hex_value-hex_digit n h = ground arith

path_unescape-plain :
    (c : ℕ) (s : Text) → (c == b'%') ≡ false → path_unescape (c ∷ s) ≡ put_first c (path_unescape s)
unfolding path_unescape
path_unescape-plain c [] h = rw h refl
path_unescape-plain c (e ∷ []) h = rw h refl
path_unescape-plain c (e ∷ f ∷ s) h = rw h refl

put_digits :
    (h l : ℕ) (s : Option Text) → join_digits (some h) (some l) s ≡ put_first (h * 16 + l) s
put_digits h l none = refl
put_digits h l (some s) = refl

path_unescape-digits :
    (c : ℕ) (s : Text)
    → c < 256
    → path_unescape (b'%' ∷ hex_digit (c / 16) ∷ hex_digit (c % 16) ∷ s)
      ≡ put_first c (path_unescape s)
unfolding path_unescape
path_unescape-digits c s h =
    rw (hex_value-hex_digit (c / 16) (omega arith), hex_value-hex_digit (c % 16) (omega arith))
      (put_digits (c / 16) (c % 16) (path_unescape s)
        ∙ ap (λ n. put_first n (path_unescape s)) (omega arith))

is_plain-percent : (c : ℕ) → is_plain c ≡ true → (c == b'%') ≡ false
unfolding is_plain
is_plain-percent c h = ground arith

path_unescape-escape : (s : Text) → All (λ c. c < 256) s → path_unescape (path_escape s) ≡ some s
unfolding path_unescape path_escape
path_unescape-escape [] h = refl
path_unescape-escape (c ∷ s) (h, hs) = elim (Bool-cases (is_plain c)) [
  | inl e ↦ rw e (
      path_unescape-plain c (path_escape s) (is_plain-percent c e)
      ∙ ap (put_first c) (path_unescape-escape s hs))
  | inr e ↦
      rw e (path_unescape-digits c (path_escape s) h ∙ ap (put_first c) (path_unescape-escape s hs))
]

-- A byte of a path segment.
unfoldable pub is_segment : ℕ → Bool
is_segment c = is_plain c || c == b'%'

is_plain-digit : (c : ℕ) → leb b'0' c ≡ true → leb c b'9' ≡ true → is_plain c ≡ true
unfolding is_plain
is_plain-digit c h g = ground arith

is_plain-upper : (c : ℕ) → leb b'A' c ≡ true → leb c b'Z' ≡ true → is_plain c ≡ true
unfolding is_plain
is_plain-upper c h g = ground arith

hex_digit-is_plain : (n : ℕ) → n < 16 → is_plain (hex_digit n) ≡ true
unfolding hex_digit
hex_digit-is_plain n h = elim (Bool-cases (ltb n 10)) [
  | inl e ↦ rw e (is_plain-digit (b'0' + n) (ground arith) (ground arith))
  | inr e ↦ rw e (is_plain-upper (55 + n) (ground arith) (ground arith))
]

is_plain-is_segment : (c : ℕ) → is_plain c ≡ true → is_segment c ≡ true
unfolding is_segment
is_plain-is_segment c h = rw h refl

all-path_escape : (s : Text) → All (λ c. c < 256) s → all is_segment (path_escape s) ≡ true
unfolding path_escape is_segment
all-path_escape [] h = refl
all-path_escape (c ∷ s) (h, hs) = elim (Bool-cases (is_plain c)) [
  | inl e ↦ rw (e, is_plain-is_segment c e) (all-path_escape s hs)
  | inr e ↦
      rw (e, hex_digit-is_plain (c / 16) (omega arith), hex_digit-is_plain (c % 16) (omega arith))
        (all-path_escape s hs)
]

-- A segment `p` that stands for `s` in a link.
abbrev pub IsSegmentOf : Text → Text → Type 0
IsSegmentOf s p =
    (path_unescape p ≡ some s)
    × (all is_segment p ≡ true)
    × (text_eq p (text ".") ≡ false)
    × (text_eq p (text "..") ≡ false)

-- The segment that stands for a text in a link gives the text back, whatever bytes the text has, is
-- neither "." nor "..", and has only bytes that do not end a segment or a path.
pub escape_path_segment-IsSegmentOf :
    (s : Text) → All (λ c. c < 256) s → IsSegmentOf s (escape_path_segment s)
unfolding escape_path_segment escape_dots path_unescape is_segment is_plain
escape_path_segment-IsSegmentOf s h =
    let back = path_unescape-escape s h in
    let dots = λ (p : Text). path_unescape p ≡ some s → IsSegmentOf s (escape_dots p) in
    elim (Bool-cases (text_eq (path_escape s) (text "."))) [
      | inl e ↦ rw e (
          subst dots (sym (text_eq_sound (path_escape s) (text ".") e)) (λ b. (b, refl, refl, refl))
            back)
      | inr e ↦ elim (Bool-cases (text_eq (path_escape s) (text ".."))) [
        | inl g ↦
            rw (e, g)
              (subst dots (sym (text_eq_sound (path_escape s) (text "..") g))
                (λ b. (b, refl, refl, refl)) back)
        | inr g ↦ rw (e, g) (back, all-path_escape s h, e, g)
      ]
    ]
