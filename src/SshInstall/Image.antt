-- ===== src/SshInstall/Image.antt =====
-- internal/sshinstall/render.go: the reference to the image, and the unit file that runs it; and the
-- fingerprint of internal/sshinstall/target.go.
pub mod Alphabet
use ulcer.Prelude.{
  ℕ, Bool, true, false, ◌&&◌, ◌||◌, not, Text, text, Option, none, some, List, [], ◌∷◌, ◌++◌, ◌==◌,
  text_eq, length, all, if◌then◌else◌, ◌+◌, leb,
}
use ulcer.Api.Machines.{is_alphanumeric, last_of}
use ulcer.SshInstall.Checks.{is_hex, contains_any, safe_uuid}

-- strings.CutPrefix
unfoldable pub cut_prefix : Text → Text → Option Text
cut_prefix [] s = some s
cut_prefix (c ∷ p) [] = none
cut_prefix (c ∷ p) (d ∷ s) = if c == d then cut_prefix p s else none

-- strings.Cut, which returns the whole text as the first part where the mark is not found.
unfoldable pub cut : Text → Text → Option (Text × Text)
unfolding cut_prefix
cut mark [] = none
cut mark (c ∷ s) = elim (cut_prefix mark (c ∷ s)) [
  | some after ↦ some ([], after)
  | none ↦ elim (cut mark s) [ none ↦ none | some (before, after) ↦ some (c ∷ before, after) ]
]

abbrev pub is_cut : Option (Text × Text) → Bool
is_cut none = false
is_cut (some _) = true

abbrev pub is_name_character : ℕ → Bool
is_name_character c =
    is_alphanumeric c || c == b'.' || c == b'_' || c == b':' || c == b'/' || c == b'-'

-- `[a-z0-9](?:[a-z0-9._:/-]*[a-z0-9])?`
unfoldable pub is_image_name : Text → Bool
is_image_name [] = false
is_image_name (c ∷ s) =
    is_alphanumeric c && is_alphanumeric (last_of c s) && all (λ d. is_name_character d) s

-- imagePattern; a name has no `@`, so that the first mark is the one of the pattern.
unfoldable pub matches_image : Option (Text × Text) → Bool
unfolding is_image_name
matches_image none = false
matches_image (some (name, digest)) =
    is_image_name name && length digest == 64 && all (λ c. is_hex c) digest

-- Where a match of repositoryComponentPattern stands: in a run of letters and digits, or behind
-- `.` or one `_` or two of them or dashes, with a letter or digit to come.
pub data Spot : Type 0 where
  opening word separated underscore dashes nowhere : Spot

unfoldable pub next_spot : Spot → ℕ → Spot
next_spot nowhere c = nowhere
next_spot spot c = if is_alphanumeric c then word else elim spot [
  | word ↦
      if c == b'.'
      then separated
      else if c == b'_'
      then underscore
      else if c == b'-'
      then dashes
      else nowhere
  | underscore ↦ if c == b'_' then separated else nowhere
  | dashes ↦ if c == b'-' then dashes else nowhere
  | other ↦ nowhere
]

unfoldable pub is_component_from : Spot → Text → Bool
unfolding next_spot
is_component_from spot [] = elim spot [ word ↦ true | other ↦ false ]
is_component_from spot (c ∷ s) = is_component_from (next_spot spot c) s

-- strings.Split(repository, "/"), after the component that has been read, each tested.
unfoldable pub are_components : Spot → Text → Bool
unfolding is_component_from next_spot
are_components spot [] = is_component_from spot []
are_components spot (c ∷ s) =
    let rest = are_components opening s in
    let more = are_components (next_spot spot c) s in
    if c == b'/' then is_component_from spot [] && rest else more

-- The registry is the part of the name before its first `/`.
unfoldable pub is_qualified : Option (Text × Text) → Bool
unfolding are_components
is_qualified none = false
is_qualified (some (registry, repository)) =
    (text_eq registry (text "localhost") || contains_any registry (text ".:"))
    && are_components opening repository

abbrev pub count_of : ℕ → Text → ℕ
count_of c [] = 0
count_of c (d ∷ s) = (if c == d then 1 else 0) + count_of c s

abbrev pub name_part : Option (Text × Text) → Text → Text
name_part none image = image
name_part (some (name, digest)) image = name

unfoldable pub valid_image : Text → Bool
unfolding cut matches_image is_qualified
valid_image image =
    let parts = cut (text "@sha256:") image in
    is_cut parts
    && is_qualified (cut (text "/") (name_part parts image))
    && matches_image parts
    && count_of b'@' image == 1
    && not (is_cut (cut (text "://") image))
    && not (is_cut (cut (text "//") image))

abbrev pub instance_directory : Text → Text
instance_directory id = text "/etc/ulcer/instances/" ++ id

abbrev pub container_name : Text → Text
container_name id = text "ulcer-instance-" ++ id

abbrev pub unit_head : Text → Text
unit_head id =
    text "[Unit]\nDescription=Ulcer INSTANCE agent "
    ++ id
    ++ text "\nAfter=network-online.target\nWants=network-online.target\n\n[Service]\nType=simple\n"

abbrev pub run_options : Text
run_options =
    text
      " --pull=never --network=bridge --read-only --user=65532:65532 --security-opt=no-new-privileges"
    ++ text
        " --cap-drop=all --pids-limit=128 --memory=256m --cpus=1 --tmpfs=/tmp:rw,noexec,nosuid,nodev,size=16m"
    ++ text
        " --tmpfs=/var/lib/ulcer-instance:rw,noexec,nosuid,nodev,size=32m,uid=65532,gid=65532,mode=0700"

abbrev pub unit_tail : Text
unit_tail =
    text
      "\nRestart=on-failure\nRestartSec=5s\nTimeoutStartSec=300s\nTimeoutStopSec=30s\nTasksMax=160\n"
    ++ text
        "MemoryMax=384M\nCPUQuota=100%\nNoNewPrivileges=yes\n\n[Install]\nWantedBy=multi-user.target\n"

unfoldable pub unit_text : Text → Text → Text
unit_text id image =
    let directory = instance_directory id in
    let container = container_name id in
    unit_head id
    ++ text "ExecStart=/usr/bin/podman run --rm --name="
    ++ container
    ++ run_options
    ++ text " --env-file="
    ++ directory
    ++ text "/instance.env --volume="
    ++ directory
    ++ text ":/run/ulcer-identity:ro "
    ++ image
    ++ text "\nExecStop=-/usr/bin/podman stop --time=10 "
    ++ container
    ++ text "\nExecStopPost=-/usr/bin/podman rm --force "
    ++ container
    ++ unit_tail

unfoldable pub render_unit : Text → Text → Option Text
unfolding valid_image unit_text safe_uuid
render_unit id image =
    if not (safe_uuid id) || not (valid_image image) then none else some (unit_text id image)

-- encoding/base64 without padding.
pub record Base64 : Type 0 where
  pub decode : Text → Option Text
  pub encode : Text → Text

-- The fingerprint that the callback accepts, if it is one of 32 bytes in the form of ssh.
unfoldable pub fingerprint_callback : Base64 → Text → Option Text
unfolding cut_prefix
fingerprint_callback base64 fingerprint = elim (cut_prefix (text "SHA256:") fingerprint) [
  | none ↦ none
  | some encoded ↦ elim (base64.decode encoded) [
    | none ↦ none
    | some digest ↦
        if length digest == 32 && text_eq (base64.encode digest) encoded
        then some fingerprint
        else none
  ]
]

-- What the callback answers for the fingerprint of the key that the server shows.
unfoldable pub accepts_key : Text → Text → Bool
accepts_key confirmed actual = text_eq actual confirmed
