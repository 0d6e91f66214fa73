-- ===== src/BuildTargets/Freezing.antt =====
-- What a freeze that holds says of the submodules.
use ulcer.Prelude.{
  ◌≡◌, refl, ◌∙◌, sym, ap, false, Text, List, [], ◌∷◌, arith, text_eq, text_eq_sound, Bool-cases,
  inl, inr, if◌then◌else◌,
}
use ulcer.BuildTargets.{
  Source, Gitlinks, commit_at, without, gitlinks_of, frozen, check_sources, freeze,
}

-- The commit that the manifest gives for a path, empty if it names none.
unfoldable pub reviewed_commit : Text → List Source → Text
reviewed_commit path [] = []
reviewed_commit path (s ∷ ss) = if text_eq s.path path then s.commit else reviewed_commit path ss

commit_at-without :
    (path q : Text) (links : Gitlinks)
    → text_eq q path ≡ false
    → commit_at path (without q links) ≡ commit_at path links
unfolding without
commit_at-without path q [] h = refl
commit_at-without path q ((p, commit) ∷ links) h = elim (Bool-cases (text_eq p q)) [
  | inl e ↦
      rw (e, ap (λ x. text_eq x path) (text_eq_sound p q e) ∙ h) (commit_at-without path q links h)
  | inr e ↦ rw e (ap (λ c. if text_eq p path then commit else c) (commit_at-without path q links h))
]

check_sources_lem :
    (sources : List Source) (links : Gitlinks) (path : Text)
    → check_sources sources links ≡ frozen
    → commit_at path links ≡ reviewed_commit path sources
unfolding check_sources reviewed_commit
check_sources_lem [] [] path h = refl
check_sources_lem [] (l ∷ links) path h = absurd (ground arith)
check_sources_lem (s ∷ ss) links path h =
    elim (Bool-cases (text_eq (commit_at s.path links) s.commit)) [
      | inl e ↦ elim (Bool-cases (text_eq s.path path)) [
        | inl same ↦ rw same (
            ap (λ x. commit_at x links) (sym (text_eq_sound s.path path same))
            ∙ text_eq_sound (commit_at s.path links) s.commit e)
        | inr other ↦ rw other (
            sym (commit_at-without path s.path links other)
            ∙ check_sources_lem ss (without s.path links) path (ground arith))
      ]
      | inr e ↦ absurd (ground arith)
    ]

-- When Freeze passes, every path of the index has exactly the commit that the manifest gives for it,
-- and a path that the manifest does not name is no submodule.
pub freeze_lem :
    (sources : List Source) (lines : List (List Text)) (path : Text)
    → freeze sources lines ≡ frozen
    → commit_at path (gitlinks_of lines []) ≡ reviewed_commit path sources
unfolding freeze
freeze_lem sources lines path = check_sources_lem sources (gitlinks_of lines []) path
