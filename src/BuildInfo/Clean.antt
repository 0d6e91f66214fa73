-- ===== src/BuildInfo/Clean.antt =====
-- The values that the running build reports of itself.
use ulcer.Prelude.{
  ◌≡◌, refl, ◌⊎◌, inl, inr, ◌||◌, Bool, true, false, Text, text, Option, none, some, List, [], ◌∷◌,
  length, ltb, text_eq, if◌then◌else◌, arith, Bool-cases, trim_space,
}
use ulcer.BuildInfo.{
  Linked, RuntimeInfo, has_control, clean, vcs_revision, or_else, version_of, revision_of, current,
}

-- A text that is shown: it is not empty, at most 256 bytes long, and without a control character.
abbrev pub IsClean : Text → Type 0
IsClean s = (text_eq s [] ≡ false) × (ltb 256 (length s) ≡ false) × (has_control s ≡ false)

abbrev IsCleanOrEmpty : Text → Type 0
IsCleanOrEmpty s = (s ≡ []) ⊎ IsClean s

kept-IsCleanOrEmpty : (s : Text) → (ltb 256 (length s) || has_control s) ≡ false → IsCleanOrEmpty s
kept-IsCleanOrEmpty [] h = inl refl
kept-IsCleanOrEmpty (c ∷ s) h = inr (refl, ground arith, ground arith)

clean-IsCleanOrEmpty : (s : Text) → IsCleanOrEmpty (clean s)
unfolding clean
clean-IsCleanOrEmpty s =
    elim (Bool-cases (ltb 256 (length (trim_space s)) || has_control (trim_space s))) [
      | inl e ↦ inl (rw e refl)
      | inr e ↦ rw e (kept-IsCleanOrEmpty (trim_space s) e)
    ]

or_else-IsClean : (s t : Text) → IsCleanOrEmpty s → IsClean t → IsClean (or_else s t)
or_else-IsClean s t (inl e) h = rw e h
or_else-IsClean s t (inr (e, g, k)) h = rw e (e, g, k)

or_else-IsCleanOrEmpty :
    (s t : Text) → IsCleanOrEmpty s → IsCleanOrEmpty t → IsCleanOrEmpty (or_else s t)
or_else-IsCleanOrEmpty s t (inl e) h = rw e h
or_else-IsCleanOrEmpty s t (inr (e, g, k)) h = inr (rw e (e, g, k))

vcs_revision-IsCleanOrEmpty :
    (settings : List (Text × Text)) → IsCleanOrEmpty (vcs_revision settings)
unfolding vcs_revision
vcs_revision-IsCleanOrEmpty [] = inl refl
vcs_revision-IsCleanOrEmpty ((key, value) ∷ rest) =
    elim (Bool-cases (text_eq key (text "vcs.revision"))) [
      | inl e ↦ rw e (clean-IsCleanOrEmpty value)
      | inr e ↦ rw e (vcs_revision-IsCleanOrEmpty rest)
    ]

if-IsCleanOrEmpty :
    (b : Bool) (s t : Text)
    → IsCleanOrEmpty s
    → IsCleanOrEmpty t
    → IsCleanOrEmpty (if b then s else t)
if-IsCleanOrEmpty true s t h g = h
if-IsCleanOrEmpty false s t h g = g

version_of-IsCleanOrEmpty :
    (s : Text) (info : Option RuntimeInfo) → IsCleanOrEmpty (version_of s info)
unfolding version_of
version_of-IsCleanOrEmpty s none = clean-IsCleanOrEmpty s
version_of-IsCleanOrEmpty s (some info) =
    if-IsCleanOrEmpty _ _ _ (clean-IsCleanOrEmpty info.main_version) (clean-IsCleanOrEmpty s)

revision_of-IsCleanOrEmpty :
    (s : Text) (info : Option RuntimeInfo) → IsCleanOrEmpty (revision_of s info)
unfolding revision_of
revision_of-IsCleanOrEmpty s none = clean-IsCleanOrEmpty s
revision_of-IsCleanOrEmpty s (some info) =
    or_else-IsCleanOrEmpty _ _ (clean-IsCleanOrEmpty s) (vcs_revision-IsCleanOrEmpty info.settings)

-- Whatever the linker and the runtime say, the version, the revision and the source reference that a
-- build reports are not empty, at most 256 bytes long and without control characters.
pub current-IsClean :
    (linked : Linked) (info : Option RuntimeInfo)
    → IsClean (current linked info).version
      × IsClean (current linked info).revision
      × IsClean (current linked info).source_ref
unfolding current has_control
current-IsClean linked info =
    let revision =
      or_else-IsClean _ (text "unknown") (revision_of-IsCleanOrEmpty linked.revision info)
        (refl, refl, refl) in
    (
      or_else-IsClean _ (text "development") (version_of-IsCleanOrEmpty linked.version info)
          (refl, refl, refl),
      revision,
      or_else-IsClean _ (text "unknown")
          (inr (or_else-IsClean _ _ (clean-IsCleanOrEmpty linked.source_ref) revision))
          (refl, refl, refl),
    )
