-- ===== src/BuildTargets/Stamping.antt =====
-- The values that a build is stamped with, as the running program reports them.
use ulcer.Prelude.Texts.{is_space}
use ulcer.Prelude.Spaces.{trim_space-plain}
use ulcer.Prelude.{
  ℕ, ◌≡◌, refl, ◌∙◌, ap, sym, subst, Bool, true, false, ◌&&◌, ◌||◌, not, Text, text, Option, none,
  some, List, [], ◌∷◌, ◌++◌, length, ◌==◌, ltb, all, all-imp, all-append, All, arith, text_eq,
  Option-cases, inl, inr, trim_space, if◌then◌else◌,
}
use ulcer.BuildInfo.{RuntimeInfo, Info, has_control, clean, version_of, revision_of, current}
use ulcer.BuildTargets.Linking.{words, is_word, words-join_words, linked_by, unset}
use ulcer.BuildTargets.{
  BuildMetadata, is_build_character, valid_build_value, package_path, metadata_of,
  current_build_metadata, flags_of, stamp_flags, join_words, build_ld_flags,
}

is_build_character-is_space : (c : ℕ) → is_build_character c ≡ true → not (is_space c) ≡ true
unfolding is_build_character is_space
is_build_character-is_space c h = ground arith

is_build_character-is_word : (c : ℕ) → is_build_character c ≡ true → not (c == b' ') ≡ true
unfolding is_build_character
is_build_character-is_word c h = ground arith

is_build_character-control :
    (c : ℕ) → is_build_character c ≡ true → (ltb c 32 || c == 127) || c == 194 ≡ false
unfolding is_build_character
is_build_character-control c h = ground arith

all-has_control : (s : Text) → all is_build_character s ≡ true → has_control s ≡ false
unfolding has_control
all-has_control [] h = refl
all-has_control (c ∷ []) h = ground (arith, is_build_character-control c)
all-has_control (c ∷ e ∷ s) h =
    ground (arith, is_build_character-control c, all-has_control (e ∷ s))

clean-kept :
    (s : Text) → (ltb 256 (length s) || has_control s) ≡ false → trim_space s ≡ s → clean s ≡ s
unfolding clean
clean-kept s h t = rw t (rw h refl)

valid_build_value_lem :
    (s : Text)
    → valid_build_value s ≡ true
    → (text_eq s [] ≡ false) × (ltb 256 (length s) ≡ false) × (all is_build_character s ≡ true)
unfolding valid_build_value
valid_build_value_lem s h = (ground arith, ground arith, ground arith)

clean-valid : (s : Text) → valid_build_value s ≡ true → clean s ≡ s
clean-valid s h =
    let (_, short, plain) = valid_build_value_lem s h in
    clean-kept s (rw (short, all-has_control s plain) refl) (
      trim_space-plain s
        (all-imp is_build_character (λ c. not (is_space c)) s is_build_character-is_space plain))

version_of-valid :
    (s : Text) (info : Option RuntimeInfo) → valid_build_value s ≡ true → version_of s info ≡ s
unfolding version_of
version_of-valid s none h = clean-valid s h
version_of-valid s (some info) h = rw (clean-valid s h, (valid_build_value_lem s h).0) refl

revision_of-valid :
    (s : Text) (info : Option RuntimeInfo) → valid_build_value s ≡ true → revision_of s info ≡ s
unfolding revision_of
revision_of-valid s none h = clean-valid s h
revision_of-valid s (some info) h = rw (clean-valid s h, (valid_build_value_lem s h).0) refl

linked_by-flags_of :
    (strip : Bool) (m : BuildMetadata)
    → linked_by (flags_of strip m) unset
      ≡ record { version = m.version; revision = m.revision; source_ref = m.source_ref }
linked_by-flags_of true m = refl
linked_by-flags_of false m = refl

-- A program reports the values that it was stamped with.
abbrev pub IsReported : BuildMetadata → Info → Type 0
IsReported m i = (i.version ≡ m.version) × (i.revision ≡ m.revision) × (i.source_ref ≡ m.source_ref)

current-stamped :
    (m : BuildMetadata) (info : Option RuntimeInfo)
    → valid_build_value m.version ≡ true
    → valid_build_value m.revision ≡ true
    → valid_build_value m.source_ref ≡ true
    → IsReported m (
        current
          (record { version = m.version; revision = m.revision; source_ref = m.source_ref })
          info)
unfolding current
current-stamped m info v r s = (
  rw (version_of-valid m.version info v, (valid_build_value_lem m.version v).0) refl,
  rw (revision_of-valid m.revision info r, (valid_build_value_lem m.revision r).0) refl,
  rw (clean-valid m.source_ref s) (
      rw (valid_build_value_lem m.source_ref s).0
        (rw (valid_build_value_lem m.source_ref s).0 refl)),
)

valid-is_word :
    (prefix s : Text)
    → is_word prefix ≡ true
    → valid_build_value s ≡ true
    → is_word (prefix ++ s) ≡ true
valid-is_word prefix s p h =
    all-append (λ c. not (c == b' ')) prefix s p
      (all-imp is_build_character (λ c. not (c == b' ')) s is_build_character-is_word
        (valid_build_value_lem s h).2)

stamp_flags-is_word :
    (m : BuildMetadata)
    → valid_build_value m.version ≡ true
    → valid_build_value m.revision ≡ true
    → valid_build_value m.source_ref ≡ true
    → All (λ s. is_word s ≡ true) (stamp_flags m)
stamp_flags-is_word m v r s = (
  refl,
  (
    valid-is_word (package_path ++ text "Version=") m.version refl v,
    (
      refl,
      (
        valid-is_word (package_path ++ text "Revision=") m.revision refl r,
        (refl, (valid-is_word (package_path ++ text "SourceRef=") m.source_ref refl s, tt)),
      ),
    ),
  ),
)

flags_of-is_word :
    (strip : Bool) (m : BuildMetadata)
    → All (λ s. is_word s ≡ true) (stamp_flags m)
    → All (λ s. is_word s ≡ true) (flags_of strip m)
flags_of-is_word true m h = (refl, (refl, h))
flags_of-is_word false m h = h

words-flags_of :
    (strip : Bool) (m : BuildMetadata)
    → All (λ s. is_word s ≡ true) (flags_of strip m)
    → words (join_words (flags_of strip m)) ≡ flags_of strip m
words-flags_of true m h = words-join_words (text "-s") _ h
words-flags_of false m h = words-join_words (text "-X") _ h

guarded :
    (a b c : Bool) (n m : BuildMetadata)
    → (if a && b && c then some n else none) ≡ some m
    → (a ≡ true) × (b ≡ true) × (c ≡ true) × (n ≡ m)
guarded a b c n m h = ground arith

current_build_metadata-valid :
    (getenv : Text → Text) (git : List Text → Text) (m : BuildMetadata)
    → current_build_metadata getenv git ≡ some m
    → (valid_build_value m.version ≡ true)
      × (valid_build_value m.revision ≡ true)
      × (valid_build_value m.source_ref ≡ true)
unfolding current_build_metadata
current_build_metadata-valid getenv git m h =
    let n = metadata_of getenv git in
    let (v, r, s, e) =
      guarded (valid_build_value n.version) (valid_build_value n.revision)
        (valid_build_value n.source_ref) n m h in
    (
      subst (λ x. valid_build_value x.version ≡ true) e v,
      subst (λ x. valid_build_value x.revision ≡ true) e r,
      subst (λ x. valid_build_value x.source_ref ≡ true) e s,
    )

-- When a build gets its linker flags, their words are the flags of its metadata, none of whose values
-- is split, and a program whose variables a linker sets by these words, as its flags -X say, reports
-- the version, the revision and the source reference of the metadata, whatever the Go runtime knows
-- of the build.
pub build_ld_flags-IsReported :
    (strip : Bool) (getenv : Text → Text) (git : List Text → Text) (flags : Text)
    → build_ld_flags strip getenv git ≡ some flags
    → (m : BuildMetadata) × (current_build_metadata getenv git ≡ some m)
      × (words flags ≡ flags_of strip m)
      × ((info : Option RuntimeInfo) → IsReported m (current (linked_by (words flags) unset) info))
unfolding build_ld_flags
build_ld_flags-IsReported strip getenv git flags h =
    elim (Option-cases (current_build_metadata getenv git)) [
      | inl e ↦ absurd (ground arith)
      | inr (m, e) ↦
          let (v, r, s) = current_build_metadata-valid getenv git m e in
          let made : flags ≡ join_words (flags_of strip m) = ground arith in
          let split : words flags ≡ flags_of strip m =
            ap words made
            ∙ words-flags_of strip m (flags_of-is_word strip m (stamp_flags-is_word m v r s)) in
          (
            m,
            e,
            split,
            λ info.
                subst (λ l. IsReported m (current l info))
                  (sym (ap (λ ws. linked_by ws unset) split ∙ linked_by-flags_of strip m))
                  (current-stamped m info v r s),
          )
    ]
