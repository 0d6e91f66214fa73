-- ===== src/Prelude/Spaces.antt =====
-- Texts without white space.
use mathlib.Core.List.{reverse, reverse-cons, reverse-reverse}
use ulcer.Prelude.Texts.{is_space, trim_left}
use ulcer.Prelude.{◌≡◌, refl, Bool, true, not, Text, [], ◌∷◌, all, all-append, arith, trim_space}

-- No character that TrimSpace takes away.
abbrev pub has_no_space : Text → Bool
has_no_space t = all (λ c. not (is_space c)) t

pub trim_left-plain : (t : Text) → has_no_space t ≡ true → trim_left t ≡ t
unfolding trim_left
trim_left-plain [] h = refl
trim_left-plain (c ∷ t) h = ground arith

pub has_no_space-reverse : (t : Text) → has_no_space t ≡ true → has_no_space (reverse t) ≡ true
has_no_space-reverse [] h = refl
has_no_space-reverse (c ∷ t) h = rw (reverse-cons c t) (
    all-append (λ d. not (is_space d)) (reverse t) (c ∷ []) (has_no_space-reverse t (ground arith))
      (ground arith))

pub trim_space-plain : (t : Text) → has_no_space t ≡ true → trim_space t ≡ t
unfolding trim_space
trim_space-plain t h =
    rw (trim_left-plain t h)
      (rw (trim_left-plain (reverse t) (has_no_space-reverse t h)) (reverse-reverse t))
