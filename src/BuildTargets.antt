-- ===== src/BuildTargets.antt =====
-- magefile.go: what the build targets compute. The environment, the output of git and the files are
-- arguments.
pub mod Linking
pub mod Stamping
pub mod Freezing
use ulcer.Prelude.{
  ℕ, Bool, true, false, ◌&&◌, ◌||◌, not, Bytes, Text, text, Option, none, some, List, [], ◌∷◌, ◌++◌,
  length, ◌==◌, ltb, leb, all, any, text_eq, if◌then◌else◌,
}
use ulcer.BuildInfo.{or_else}

pub record BuildMetadata : Type 0 where
  pub version : Text
  pub revision : Text
  pub source_ref : Text

unfoldable pub is_build_character : ℕ → Bool
is_build_character c =
    (leb b'a' c && leb c b'z')
    || (leb b'A' c && leb c b'Z')
    || (leb b'0' c && leb c b'9')
    || (c == b'.')
    || (c == b'_')
    || (c == b'/')
    || (c == b'+')
    || (c == b':')
    || (c == b'-')

unfoldable pub valid_build_value : Text → Bool
unfolding is_build_character
valid_build_value value =
    if text_eq value [] || ltb 256 (length value) then false else all is_build_character value

-- `git` is gitOutput on its arguments, empty where the command fails.
unfoldable pub metadata_of : (Text → Text) → (List Text → Text) → BuildMetadata
metadata_of getenv git =
    let release = getenv (text "RELEASE_VERSION") in
    let tag = git (text "describe" ∷ text "--tags" ∷ text "--exact-match" ∷ []) in
    let branch = git (text "symbolic-ref" ∷ text "--short" ∷ text "-q" ∷ text "HEAD" ∷ []) in
    let head = git (text "rev-parse" ∷ text "HEAD" ∷ []) in
    let revision = or_else (or_else (getenv (text "BUILD_REVISION")) head) (text "unknown") in
    record {
      version =
          or_else (or_else (or_else (getenv (text "BUILD_VERSION")) release) tag)
            (text "development");
      revision = revision;
      source_ref =
          or_else
            (or_else (or_else (or_else (getenv (text "BUILD_SOURCE_REF")) tag) release) branch)
            revision;
    }

unfoldable pub current_build_metadata : (Text → Text) → (List Text → Text) → Option BuildMetadata
unfolding metadata_of valid_build_value
current_build_metadata getenv git =
    let m = metadata_of getenv git in
    if valid_build_value m.version && valid_build_value m.revision && valid_build_value m.source_ref
    then some m
    else none

abbrev pub package_path : Text
package_path = text "github.com/owenewans/ulcer/internal/buildinfo."

abbrev pub stamp_flags : BuildMetadata → List Text
stamp_flags m =
    text "-X"
    ∷ (package_path ++ text "Version=" ++ m.version)
    ∷ text "-X"
    ∷ (package_path ++ text "Revision=" ++ m.revision)
    ∷ text "-X"
    ∷ (package_path ++ text "SourceRef=" ++ m.source_ref)
    ∷ []

-- strings.Join with a space.
unfoldable pub join_words : List Text → Text
join_words [] = []
join_words (w ∷ []) = w
join_words (w ∷ v ∷ ws) = w ++ b' ' ∷ join_words (v ∷ ws)

abbrev pub flags_of : Bool → BuildMetadata → List Text
flags_of true m = text "-s" ∷ text "-w" ∷ stamp_flags m
flags_of false m = stamp_flags m

unfoldable pub build_ld_flags : Bool → (Text → Text) → (List Text → Text) → Option Text
unfolding current_build_metadata join_words
build_ld_flags strip getenv git = elim (current_build_metadata getenv git) [
  | none ↦ none
  | some m ↦ some (join_words (flags_of strip m))
]

unfoldable pub environment_or : (Text → Text) → Text → Text → Text
environment_or getenv name fallback = if text_eq (getenv name) [] then fallback else getenv name

-- filepath.Join of "dist" and the name of a release binary.
unfoldable pub release_output : (Text → Text) → Text → Text
unfolding environment_or
release_output getenv binary =
    let goos = environment_or getenv (text "GOOS") (text "linux") in
    let goarch = environment_or getenv (text "GOARCH") (text "amd64") in
    let extension = if text_eq goos (text "windows") then text ".exe" else [] in
    text "dist/ulcer-" ++ binary ++ text "-" ++ goos ++ text "-" ++ goarch ++ extension

-- A source of versions/sources.json.
pub record Source : Type 0 where
  pub path : Text
  pub commit : Text

-- The gitlinks of the index by their paths.
abbrev pub Gitlinks : Type 0
Gitlinks = List (Text × Text)

abbrev pub commit_at : Text → Gitlinks → Text
commit_at path [] = []
commit_at path ((p, commit) ∷ rest) = if text_eq p path then commit else commit_at path rest

unfoldable pub without : Text → Gitlinks → Gitlinks
without path [] = []
without path ((p, commit) ∷ rest) =
    let rest' = without path rest in if text_eq p path then rest' else (p, commit) ∷ rest'

-- The words of a line of `git ls-files --stage`; a later line of a path takes the place of an earlier
-- one.
unfoldable pub add_gitlink : List Text → Gitlinks → Gitlinks
unfolding without
add_gitlink (mode ∷ commit ∷ stage ∷ path ∷ rest) links =
    if text_eq mode (text "160000") then (path, commit) ∷ without path links else links
add_gitlink _ links = links

unfoldable pub gitlinks_of : List (List Text) → Gitlinks → Gitlinks
unfolding add_gitlink
gitlinks_of [] links = links
gitlinks_of (line ∷ lines) links = gitlinks_of lines (add_gitlink line links)

pub data Freeze : Type 0 where
  frozen : Freeze
  differs : Source → Freeze
  unreviewed : Gitlinks → Freeze

unfoldable pub check_sources : List Source → Gitlinks → Freeze
unfolding without
check_sources [] [] = frozen
check_sources [] (l ∷ links) = unreviewed (l ∷ links)
check_sources (s ∷ ss) links =
    let rest = check_sources ss (without s.path links) in
    if text_eq (commit_at s.path links) s.commit then rest else differs s

-- Freeze, once the manifest and the index have been read.
unfoldable pub freeze : List Source → List (List Text) → Freeze
unfolding gitlinks_of check_sources
freeze sources lines = check_sources sources (gitlinks_of lines [])

-- A file of dist: its name, whether it is a directory, and what it holds.
pub record Entry : Type 0 where
  pub name : Text
  pub is_dir : Bool
  pub content : Option Bytes

-- `digest` is the SHA-256 of a file in hexadecimal; `none` is an error of reading.
unfoldable pub checksums : (Bytes → Text) → List Entry → Option Text
checksums digest [] = some []
checksums digest (e ∷ es) =
    let rest = checksums digest es in
    if e.is_dir || text_eq e.name (text "SHA256SUMS") then rest else elim e.content [
      | none ↦ none
      | some b ↦ elim rest [
        | none ↦ none
        | some t ↦ some (digest b ++ text "  " ++ e.name ++ 10 ∷ t)
      ]
    ]
