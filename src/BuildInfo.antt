-- ===== src/BuildInfo.antt =====
-- internal/buildinfo/buildinfo.go: the version, the revision and the links of the running build.
pub mod Segments
pub mod Clean
use ulcer.Prelude.{
  ℕ, ◌+◌, ◌/◌, ◌%◌, Bool, true, false, ◌&&◌, ◌||◌, not, Text, text, Option, none, some, List, [],
  ◌∷◌, ◌++◌, length, ◌==◌, ltb, leb, text_eq, trim_space, if◌then◌else◌,
}

-- The values that the linker sets, each empty if it is not set.
pub record Linked : Type 0 where
  pub version : Text
  pub revision : Text
  pub source_ref : Text

-- What debug.ReadBuildInfo knows.
pub record RuntimeInfo : Type 0 where
  pub main_version : Text
  pub settings : List (Text × Text)

pub record Info : Type 0 where
  pub version : Text
  pub revision : Text
  pub source_ref : Text
  pub source_url : Text
  pub license_url : Text

abbrev pub source_url : Text
source_url = text "https://github.com/owenewans/ulcer"

-- unicode.IsControl at some place of a text in UTF-8: U+0000 to U+001F, U+007F and U+0080 to U+009F.
unfoldable pub has_control : Text → Bool
has_control [] = false
has_control (c ∷ []) = ltb c 32 || c == 127
has_control (c ∷ e ∷ s) =
    (ltb c 32 || c == 127) || (c == 194 && leb 128 e && ltb e 160) || has_control (e ∷ s)

unfoldable pub clean : Text → Text
unfolding has_control
clean value =
    let trimmed = trim_space value in
    if ltb 256 (length trimmed) || has_control trimmed then [] else trimmed

-- The bytes of a path segment that url.PathEscape leaves as they are.
unfoldable pub is_plain : ℕ → Bool
is_plain c =
    (leb b'a' c && leb c b'z')
    || (leb b'A' c && leb c b'Z')
    || (leb b'0' c && leb c b'9')
    || (c == b'-')
    || (c == b'_')
    || (c == b'.')
    || (c == b'~')
    || (c == b'$')
    || (c == b'&')
    || (c == b'+')
    || (c == b':')
    || (c == b'=')
    || (c == b'@')

unfoldable pub hex_digit : ℕ → ℕ
hex_digit n = if ltb n 10 then b'0' + n else 55 + n

-- url.PathEscape on a text of bytes.
unfoldable pub path_escape : Text → Text
unfolding is_plain hex_digit
path_escape [] = []
path_escape (c ∷ s) =
    if is_plain c
    then c ∷ path_escape s
    else b'%' ∷ hex_digit (c / 16) ∷ hex_digit (c % 16) ∷ path_escape s

-- strings.ReplaceAll of "." by "%2E".
unfoldable pub escape_dots : Text → Text
escape_dots [] = []
escape_dots (c ∷ s) = if c == b'.' then text "%2E" ++ escape_dots s else c ∷ escape_dots s

unfoldable pub escape_path_segment : Text → Text
unfolding path_escape escape_dots
escape_path_segment value =
    let escaped = path_escape value in
    if text_eq escaped (text ".") || text_eq escaped (text "..")
    then escape_dots escaped
    else escaped

unfoldable pub source_revision_url : Text → Text
unfolding clean escape_path_segment
source_revision_url revision =
    let revision' = clean revision in
    if text_eq revision' [] || text_eq revision' (text "unknown")
    then source_url
    else source_url ++ text "/tree/" ++ escape_path_segment revision'

-- The loop over the settings, which stops at the first revision.
unfoldable pub vcs_revision : List (Text × Text) → Text
unfolding clean
vcs_revision [] = []
vcs_revision ((key, value) ∷ rest) =
    if text_eq key (text "vcs.revision") then clean value else vcs_revision rest

-- `value` if it is not empty.
abbrev pub or_else : Text → Text → Text
or_else value other = if text_eq value [] then other else value

unfoldable pub version_of : Text → Option RuntimeInfo → Text
unfolding clean
version_of linked none = clean linked
version_of linked (some info) =
    let version = clean linked in
    if text_eq version []
      && not (text_eq info.main_version [])
      && not (text_eq info.main_version (text "(devel)"))
    then clean info.main_version
    else version

unfoldable pub revision_of : Text → Option RuntimeInfo → Text
unfolding clean vcs_revision
revision_of linked none = clean linked
revision_of linked (some info) = or_else (clean linked) (vcs_revision info.settings)

unfoldable pub current : Linked → Option RuntimeInfo → Info
unfolding clean version_of revision_of escape_path_segment
current linked info =
    let version = or_else (version_of linked.version info) (text "development") in
    let revision = or_else (revision_of linked.revision info) (text "unknown") in
    let source_ref = or_else (or_else (clean linked.source_ref) revision) (text "unknown") in
    let license_ref = if text_eq revision (text "unknown") then source_ref else revision in
    record {
      version = version;
      revision = revision;
      source_ref = source_ref;
      source_url = source_url;
      license_url =
          source_url ++ text "/blob/" ++ escape_path_segment license_ref ++ text "/LICENSE";
    }
