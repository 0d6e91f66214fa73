-- ===== src/SshInstall/Image/Alphabet.antt =====
-- The characters that an image reference brings to a shell.
use ulcer.Prelude.{
  ℕ, ◌≡◌, refl, Bool, true, ◌||◌, Text, text, Option, none, some, [], ◌∷◌, ◌++◌, ◌==◌, arith, all,
  all-imp, all-append, ap,
}
use ulcer.SshInstall.Checks.{is_hex}
use ulcer.SshInstall.Image.{
  cut_prefix, cut, is_name_character, is_image_name, matches_image, valid_image,
}

cut_prefix-eq-some : (p s : Text) {after : Text} → cut_prefix p s ≡ some after → s ≡ p ++ after
unfolding cut_prefix
cut_prefix-eq-some [] s h = ground arith
cut_prefix-eq-some (c ∷ p) [] h = ground arith
cut_prefix-eq-some (c ∷ p) (d ∷ s) {after} h =
    ground (arith, cut_prefix-eq-some p s {after = after})

-- What a cut puts together again.
abbrev Rejoins : Text → Text → Option (Text × Text) → Type 0
Rejoins mark s none = Unit
Rejoins mark s (some (before, after)) = s ≡ before ++ (mark ++ after)

Rejoins-cons :
    (mark : Text) (c : ℕ) (s : Text) (o : Option Text) (r : Option (Text × Text))
    → cut_prefix mark (c ∷ s) ≡ o
    → Rejoins mark s r
    → Rejoins mark (c ∷ s) (elim o [
      | some after ↦ some ([], after)
      | none ↦ elim r [ none ↦ none | some (before, after) ↦ some (c ∷ before, after) ]
    ])
Rejoins-cons mark c s (some after) r e h = cut_prefix-eq-some mark (c ∷ s) e
Rejoins-cons mark c s none none e h = tt
Rejoins-cons mark c s none (some (before, after)) e h = ap (λ t. c ∷ t) h

cut-Rejoins : (mark s : Text) → Rejoins mark s (cut mark s)
unfolding cut
cut-Rejoins mark [] = tt
cut-Rejoins mark (c ∷ s) =
    Rejoins-cons mark c s (cut_prefix mark (c ∷ s)) (cut mark s) refl (cut-Rejoins mark s)

abbrev pub is_reference_character : ℕ → Bool
is_reference_character c = is_name_character c || c == b'@'

name-characters :
    (name : Text) → is_image_name name ≡ true → all (λ c. is_reference_character c) name ≡ true
unfolding is_image_name
name-characters [] h = refl
name-characters (c ∷ s) h = ground (
  arith,
  all-imp (λ d. is_name_character d) (λ d. is_reference_character d) s (λ d e. ground arith),
)

digest-characters :
    (digest : Text)
    → all (λ c. is_hex c) digest ≡ true
    → all (λ c. is_reference_character c) digest ≡ true
digest-characters digest h =
    all-imp (λ c. is_hex c) (λ c. is_reference_character c) digest (λ c e. ground arith) h

from_parts :
    (image : Text) (o : Option (Text × Text))
    → Rejoins (text "@sha256:") image o
    → matches_image o ≡ true
    → all (λ c. is_reference_character c) image ≡ true
unfolding matches_image
from_parts image none r h = ground arith
from_parts image (some (name, digest)) r h = rw r (
    all-append (λ c. is_reference_character c) name (text "@sha256:" ++ digest)
      (name-characters name (ground arith)) (digest-characters digest (ground arith)))

-- A valid image reference has no character but lowercase letters, digits and `._:/-@`: it is one
-- word of a shell, and no other command.
pub valid_image_lem :
    (image : Text) → valid_image image ≡ true → all (λ c. is_reference_character c) image ≡ true
unfolding valid_image
valid_image_lem image h =
    from_parts image (cut (text "@sha256:") image) (cut-Rejoins (text "@sha256:") image)
      (ground arith)
