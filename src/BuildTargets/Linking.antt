-- ===== src/BuildTargets/Linking.antt =====
-- How a command line without quotes is taken apart, and what a linker does by its flags -X.
use mathlib.Core.List.{append_assoc, append-nil}
use ulcer.Prelude.{
  ◌≡◌, ◌∙◌, ap, Bool, true, not, Text, text, Option, none, some, List, [], ◌∷◌, ◌++◌, ◌==◌, all,
  All, arith, text_eq, if◌then◌else◌,
}
use ulcer.BuildInfo.{Linked}
use ulcer.BuildTargets.{join_words}

-- The words of a command line without quotes.
abbrev pub words_from : Text → Text → List Text
words_from part [] = part ∷ []
words_from part (c ∷ s) =
    if c == b' ' then part ∷ words_from [] s else words_from (part ++ c ∷ []) s

abbrev pub words : Text → List Text
words s = words_from [] s

abbrev pub is_word : Text → Bool
is_word s = all (λ c. not (c == b' ')) s

words_from-append :
    (part s rest : Text)
    → is_word s ≡ true
    → words_from part (s ++ b' ' ∷ rest) ≡ (part ++ s) ∷ words rest
words_from-append part [] rest h = rw (append-nil part)
words_from-append part (c ∷ s) rest h =
    ground (arith, words_from-append (part ++ c ∷ []) s rest, append_assoc part (c ∷ []) s)

words_from-word : (part s : Text) → is_word s ≡ true → words_from part s ≡ (part ++ s) ∷ []
words_from-word part [] h = rw (append-nil part)
words_from-word part (c ∷ s) h =
    ground (arith, words_from-word (part ++ c ∷ []) s, append_assoc part (c ∷ []) s)

pub words-join_words :
    (w : Text) (ws : List Text)
    → All (λ s. is_word s ≡ true) (w ∷ ws)
    → words (join_words (w ∷ ws)) ≡ w ∷ ws
unfolding join_words
words-join_words w [] (h, _) = words_from-word [] w h
words-join_words w (v ∷ ws) (h, hs) =
    words_from-append [] w (join_words (v ∷ ws)) h ∙ ap (λ t. w ∷ t) (words-join_words v ws hs)

-- What stands after a prefix, if a text begins with it.
abbrev pub cut_prefix : Text → Text → Option Text
cut_prefix [] s = some s
cut_prefix (c ∷ p) [] = none
cut_prefix (c ∷ p) (d ∷ s) = if c == d then cut_prefix p s else none

-- The variables of internal/buildinfo as the linker finds them by the argument of a flag -X, which is
-- the path of the package, a dot, the variable's name, an equals sign and the value.
abbrev pub set_variable : Text → Linked → Linked
set_variable definition l =
    elim (cut_prefix (text "github.com/owenewans/ulcer/internal/buildinfo.Version=") definition) [
      | some v ↦ record l { version = v }
      | none ↦
          elim (cut_prefix (text "github.com/owenewans/ulcer/internal/buildinfo.Revision=")
            definition) [
              | some v ↦ record l { revision = v }
              | none ↦
                  elim (cut_prefix (text "github.com/owenewans/ulcer/internal/buildinfo.SourceRef=")
                    definition) [ some v ↦ record l { source_ref = v } | none ↦ l ]
            ]
    ]

-- The variables of a program that is linked with the words of a command line, by the flags -X in it.
abbrev pub linked_by : List Text → Linked → Linked
linked_by [] l = l
linked_by (w ∷ []) l = l
linked_by (w ∷ v ∷ ws) l =
    if text_eq w (text "-X") then linked_by ws (set_variable v l) else linked_by (v ∷ ws) l

abbrev pub unset : Linked
unset = record { version = []; revision = []; source_ref = [] }
