-- ===== src/SshInstall/Checks.antt =====
-- internal/sshinstall/render.go and target.go: the checks on texts and the environment file.
use ulcer.Prelude.{
  ℕ, suc, ◌≡◌, ◌⊎◌, Bool, true, false, ◌&&◌, ◌||◌, not, Text, text, Option, none, some, List, [],
  ◌∷◌, ◌++◌, ltb, leb, ◌==◌, text_eq, trim_space, length, all, any, if◌then◌else◌,
}
use ulcer.Api.Machines.{validate_instance_name}

abbrev pub is_digit : ℕ → Bool
is_digit c = leb b'0' c && leb c b'9'

-- What the package takes from the standard library.
pub record Net : Type 1 where
  -- netip.Addr
  pub Addr : Type 0
  -- netip.ParseAddr
  pub parse_addr : Text → Option Addr
  -- Addr.String and Addr.Unmap
  pub addr_text : Addr → Text
  pub unmap : Addr → Addr
  -- The tests of netip.Addr by name, and the bytes of As4.
  pub is_valid : Addr → Bool
  pub is_unspecified : Addr → Bool
  pub is_loopback : Addr → Bool
  pub is_link_local_unicast : Addr → Bool
  pub is_link_local_multicast : Addr → Bool
  pub is_multicast : Addr → Bool
  pub is6 : Addr → Bool
  pub is4_in6 : Addr → Bool
  pub is4 : Addr → Bool
  pub as4 : Addr → List ℕ
  -- net.SplitHostPort
  pub split_host_port : Text → Option (Text × Text)
  pub split_host_port-eq-some :
      (endpoint host port : Text)
      → split_host_port endpoint ≡ some (host, port)
      → (endpoint ≡ host ++ b':' ∷ port) ⊎ (endpoint ≡ b'[' ∷ host ++ b']' ∷ b':' ∷ port)
  -- strconv.Atoi, for a number that is not negative
  pub atoi : Text → Option ℕ
  pub atoi-eq-some :
      (s : Text) (n : ℕ)
      → atoi s ≡ some n
      → all (λ c. is_digit c || c == b'+' || c == b'-') s ≡ true
  -- strings.ToLower
  pub to_lower : Text → Text

abbrev pub is_hex : ℕ → Bool
is_hex c = is_digit c || leb b'a' c && leb c b'f'

abbrev pub is_dash_index : ℕ → Bool
is_dash_index n = n == 8 || n == 13 || n == 18 || n == 23

-- The loop of `safeUUID` from an index on.
unfoldable pub safe_uuid_from : ℕ → Text → Bool
safe_uuid_from n [] = true
safe_uuid_from n (c ∷ s) =
    (if is_dash_index n then c == b'-' else is_hex c) && safe_uuid_from (suc n) s

unfoldable pub safe_uuid : Text → Bool
unfolding safe_uuid_from
safe_uuid id = length id == 36 && safe_uuid_from 0 id

abbrev pub is_safe_character : ℕ → Bool
is_safe_character c = leb 33 c && leb c 126 && not (c == b'#') && not (c == b'=')

unfoldable pub safe_environment_value : Text → Bool
safe_environment_value s =
    not (text_eq s []) && leb (length s) 255 && all (λ c. is_safe_character c) s

-- strings.ContainsAny
abbrev pub contains_any : Text → Text → Bool
contains_any s chars = any (λ c. any (λ d. c == d) chars) s

unfoldable pub all_numeric_host : Text → Bool
all_numeric_host host = all (λ c. is_digit c || c == b'.') host

-- strings.HasSuffix and strings.TrimSuffix with one byte.
abbrev pub ends_with : ℕ → Text → Bool
ends_with c [] = false
ends_with c (d ∷ []) = d == c
ends_with c (d ∷ e ∷ s) = ends_with c (e ∷ s)

abbrev pub trim_suffix : ℕ → Text → Text
trim_suffix c [] = []
trim_suffix c (d ∷ []) = if d == c then [] else d ∷ []
trim_suffix c (d ∷ e ∷ s) = d ∷ trim_suffix c (e ∷ s)

-- strings.Split(name, "."), after the label that has been read.
abbrev pub split_labels : Text → Text → List Text
split_labels label [] = label ∷ []
split_labels label (c ∷ s) =
    if c == b'.' then label ∷ split_labels [] s else split_labels (label ++ c ∷ []) s

abbrev pub starts_with : ℕ → Text → Bool
starts_with c [] = false
starts_with c (d ∷ s) = d == c

abbrev pub drop_first : Text → Text
drop_first [] = []
drop_first (c ∷ s) = s

unfoldable pub valid_label : Text → Bool
valid_label label =
    ltb 0 (length label)
    && leb (length label) 63
    && not (starts_with b'-' label)
    && not (ends_with b'-' label)
    && all (λ c. leb b'a' c && leb c b'z' || is_digit c || c == b'-') label

module _ ⦃net : Net⦄ where
  open net use {
    Addr, parse_addr, addr_text, unmap, split_host_port, atoi, to_lower, is_valid, is_unspecified,
    is_loopback, is_link_local_unicast, is_link_local_multicast, is_multicast, is6, is4_in6, is4,
    as4,
  }

  abbrev pub is_broadcast : List ℕ → Bool
  is_broadcast bytes = text_eq bytes (255 ∷ 255 ∷ 255 ∷ 255 ∷ [])

  unfoldable pub allowed_target_address : Addr → Bool
  allowed_target_address a =
      if not (is_valid a)
        || is_unspecified a
        || is_loopback a
        || is_link_local_unicast a
        || is_link_local_multicast a
        || is_multicast a
      then false
      else if is6 a && is4_in6 a
      then false
      else if is4 a
      then not (starts_with 0 (as4 a)) && not (is_broadcast (as4 a))
      else true

  -- The host of the target, with its address if it is one; `none` is ErrInvalidTarget.
  unfoldable pub normalize_name : Text → Option (Text × Option Addr)
  unfolding valid_label
  normalize_name host =
      let name = trim_suffix b'.' (to_lower host) in
      if text_eq name []
      then none
      else if all (λ l. valid_label l) (split_labels [] name)
      then some (name, none)
      else none

  unfoldable pub normalize_plain : Text → Option (Text × Option Addr)
  unfolding normalize_name all_numeric_host
  normalize_plain host = elim (parse_addr host) [
    | some a ↦ some (addr_text a, some (unmap a))
    | none ↦
        if contains_any host (text ":") || all_numeric_host host then none else normalize_name host
  ]

  unfoldable pub normalize_host : Text → Option (Text × Option Addr)
  unfolding normalize_plain trim_space
  normalize_host host =
      if text_eq host []
        || not (text_eq (trim_space host) host)
        || ltb 253 (length host)
        || contains_any host (text "/\\%@")
      then none
      else if starts_with b'[' host || ends_with b']' host
      then if starts_with b'[' host && ends_with b']' host
        then normalize_plain (trim_suffix b']' (drop_first host))
        else none
      else normalize_plain host

  abbrev pub is_host : Option (Text × Option Addr) → Bool
  is_host none = false
  is_host (some _) = true

  unfoldable pub valid_server_name : Text → Bool
  unfolding safe_environment_value normalize_host
  valid_server_name name =
      safe_environment_value name
      && not (contains_any name (text "[]/"))
      && is_host (normalize_host name)

  abbrev pub is_port : Option ℕ → Bool
  is_port none = false
  is_port (some n) = ltb 0 n && leb n 65535

  unfoldable pub valid_endpoint : Text → Bool
  unfolding valid_server_name
  valid_endpoint endpoint = elim (split_host_port endpoint) [
    | none ↦ false
    | some (host, port) ↦ valid_server_name host && is_port (atoi port)
  ]

  abbrev pub line : Text → Text → Text → Text
  line key value rest = key ++ value ++ 10 ∷ rest

  abbrev pub fixed_lines : Text
  fixed_lines = line (text "ULCER_INSTANCE_DATA_DIR=") (text "/var/lib/ulcer-instance") (
      line (text "ULCER_INSTANCE_CERT=") (text "/run/ulcer-identity/instance.crt") (
        line (text "ULCER_INSTANCE_KEY=") (text "/run/ulcer-identity/instance.key")
          (line (text "ULCER_INSTANCE_CA=") (text "/run/ulcer-identity/ca.crt") [])))

  unfoldable pub render_instance_env : Text → Text → Text → Text → Option Text
  unfolding safe_uuid validate_instance_name valid_endpoint valid_server_name
  render_instance_env id name endpoint server_name =
      if not (safe_uuid id)
        || not (validate_instance_name name)
        || not (valid_endpoint endpoint)
        || not (valid_server_name server_name)
      then none
      else some (
          line (text "ULCER_INSTANCE_ID=") id (
            line (text "ULCER_INSTANCE_NAME=") name (
              line (text "ULCER_HOST_GRPC=") endpoint
                (line (text "ULCER_HOST_SERVER_NAME=") server_name fixed_lines))))

  -- The allowed addresses of a lookup; `literal` is the address that the host is, if it is one.
  pub data Target : Type 0 where
    invalid_target blocked : Target
    resolved : Text → Addr → ℕ → Target

  unfoldable pub pick_address : Text → ℕ → List Addr → Target
  unfolding allowed_target_address
  pick_address host port [] = invalid_target
  pick_address host port (a ∷ as') =
      if all (λ b. allowed_target_address (unmap b)) (a ∷ as')
      then resolved host (unmap a) port
      else blocked

  unfoldable pub resolve_target : (Text → Option (List Addr)) → Text → ℕ → Target
  unfolding normalize_host pick_address
  resolve_target lookup host port = elim (normalize_host host) [
    | none ↦ invalid_target
    | some (name, literal) ↦ if ltb port 1 || ltb 65535 port then invalid_target else elim literal [
      | some a ↦ pick_address name port (a ∷ [])
      | none ↦ elim (lookup name) [ none ↦ invalid_target | some as' ↦ pick_address name port as' ]
    ]
  ]
