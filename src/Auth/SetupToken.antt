-- ===== src/Auth/SetupToken.antt =====
-- internal/auth/auth.go: the token of the setup and its file.
use mathlib.Core.List.{reverse, reverse-append, reverse-reverse}
use ulcer.Prelude.Texts.{is_space, trim_left}
use ulcer.Prelude.Spaces.{has_no_space, trim_left-plain, has_no_space-reverse}
use ulcer.Prelude.{
  ◌≡◌, refl, Bool, true, false, Text, Option, none, some, [], ◌∷◌, ◌++◌, text_eq, trim_space,
  if◌then◌else◌, arith,
}

-- What os.ReadFile returns.
pub data Reading : Type 0 where
  found : Text → Reading
  missing unreadable : Reading

-- The token, and the text of the file if it has been written.
pub record SetupToken : Type 0 where
  pub token : Text
  pub written : Option Text

-- After os.ReadFile has found no file: whether MkdirAll and WriteFile succeed, and the token of
-- randomHex.
unfoldable pub create_token : Bool → Option Text → Bool → Option SetupToken
create_token false random writes = none
create_token true none writes = none
create_token true (some token) false = none
create_token true (some token) true =
    some (record { token = token; written = some (token ++ 10 ∷ []) })

-- `none` is an error.
unfoldable pub setup_token : Text → Reading → Bool → Option Text → Bool → Option SetupToken
unfolding create_token trim_space
setup_token configured reading makes random writes =
    if text_eq configured []
    then elim reading [
      | found content ↦ some (record { token = trim_space content; written = none })
      | missing ↦ create_token makes random writes
      | unreadable ↦ none
    ]
    else some (record { token = configured; written = none })

trim_space-line : (t : Text) → has_no_space t ≡ true → trim_space (t ++ 10 ∷ []) ≡ t
unfolding trim_space trim_left is_space
trim_space-line [] h = refl
trim_space-line (c ∷ t) h =
    let first : trim_left (c ∷ t ++ 10 ∷ []) ≡ c ∷ t ++ 10 ∷ [] = ground arith in
    rw first (
      rw (reverse-append (c ∷ t) (10 ∷ [])) (
        rw (trim_left-plain (reverse (c ∷ t)) (has_no_space-reverse (c ∷ t) h))
          (reverse-reverse (c ∷ t))))

-- A token that has been created is the one that the host finds in its file when it starts again, with
-- no token configured; a token has no space.
pub setup_token-setup_token :
    (reading : Reading) (makes makes' : Bool) (random random' : Option Text) (writes writes' : Bool)
    (t : SetupToken) (file : Text)
    → ((token : Text) → random ≡ some token → has_no_space token ≡ true)
    → setup_token [] reading makes random writes ≡ some t
    → t.written ≡ some file
    → setup_token [] (found file) makes' random' writes'
      ≡ some (record { token = t.token; written = none })
unfolding setup_token create_token
setup_token-setup_token (found content) makes makes' random random' writes writes' t file plain h
      w =
    absurd (ground arith)
setup_token-setup_token unreadable makes makes' random random' writes writes' t file plain h w =
    absurd (ground arith)
setup_token-setup_token missing false makes' random random' writes writes' t file plain h w =
    absurd (ground arith)
setup_token-setup_token missing true makes' none random' writes writes' t file plain h w =
    absurd (ground arith)
setup_token-setup_token missing true makes' (some token) random' false writes' t file plain h w =
    absurd (ground arith)
setup_token-setup_token missing true makes' (some token) random' true writes' t file plain h w =
    ground (arith, trim_space-line token (plain token refl))
