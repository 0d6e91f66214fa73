-- ===== src/Witnesses/Targets.antt =====
-- The build targets at concrete values.
use ulcer.Prelude.{◌≡◌, refl, false, Text, text, Option, some, List, [], ◌∷◌}
use ulcer.BuildInfo.{RuntimeInfo, current}
use ulcer.BuildTargets.{
  BuildMetadata, Source, current_build_metadata, build_ld_flags, join_words, flags_of, commit_at,
  gitlinks_of, freeze,
}
use ulcer.BuildTargets.Linking.{words, linked_by, unset}
use ulcer.BuildTargets.Stamping.{IsReported, build_ld_flags-IsReported}
use ulcer.BuildTargets.Freezing.{reviewed_commit, freeze_lem}

abbrev environment : Text → Text
environment name = text "v1.2"

abbrev git : List Text → Text
git arguments = []

abbrev metadata : BuildMetadata
metadata = record { version = text "v1.2"; revision = text "v1.2"; source_ref = text "v1.2" }

build_ld_flags-IsReported_example :
    (m : BuildMetadata) × (current_build_metadata environment git ≡ some m)
    × (words (join_words (flags_of false metadata)) ≡ flags_of false m)
    × ((info : Option RuntimeInfo)
        → IsReported m
            (current (linked_by (words (join_words (flags_of false metadata))) unset) info))
unfolding build_ld_flags
build_ld_flags-IsReported_example =
    build_ld_flags-IsReported false environment git (join_words (flags_of false metadata)) refl

abbrev sources : List Source
sources = record { path = text "upstream/a"; commit = text "0f3a" } ∷ []

abbrev index : List (List Text)
index =
    (text "100644" ∷ text "11" ∷ text "0" ∷ text "README.md" ∷ [])
    ∷ (text "160000" ∷ text "0f3a" ∷ text "0" ∷ text "upstream/a" ∷ [])
    ∷ []

freeze_lem_example :
    commit_at (text "upstream/a") (gitlinks_of index [])
    ≡ reviewed_commit (text "upstream/a") sources
unfolding freeze
freeze_lem_example = freeze_lem sources index (text "upstream/a") refl
