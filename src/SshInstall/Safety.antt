-- ===== src/SshInstall/Safety.antt =====
-- What the checks keep out of a remote shell, the environment file and the choice of a target.
use ulcer.Prelude.{
  all-imp, all-append, ℕ, suc, ◌≡◌, refl, ◌≤◌, ◌<◌, Bool, true, ◌||◌, not, Text, text, Option, none,
  some, List, [], ◌∷◌, ◌++◌, ◌==◌, arith, all, length, if◌then◌else◌, ◌⊎◌, inl, inr, ◌∙◌, ap,
}
use mathlib.Core.List.{append_assoc, append-nil}
use ulcer.Api.Machines.{validate_instance_name, is_alphanumeric}
use ulcer.SshInstall.Checks.{
  Net, is_hex, is_digit, safe_uuid, safe_uuid_from, safe_environment_value, valid_server_name,
  valid_endpoint, render_instance_env, line, fixed_lines, resolve_target, pick_address,
  allowed_target_address, resolved, is_safe_character, normalize_host, is_port,
}

-- The lines of a text, after the part of one that has been read.
abbrev pub lines_from : Text → Text → List Text
lines_from part [] = part ∷ []
lines_from part (c ∷ s) = if c == 10 then part ∷ lines_from [] s else lines_from (part ++ c ∷ []) s

abbrev pub lines : Text → List Text
lines s = lines_from [] s

abbrev pub is_one_line : Text → Bool
is_one_line s = all (λ c. not (c == 10)) s

pub lines_from-append :
    (part s rest : Text)
    → is_one_line s ≡ true
    → lines_from part (s ++ 10 ∷ rest) ≡ (part ++ s) ∷ lines_from [] rest
lines_from-append part [] rest h = rw (append-nil part)
lines_from-append part (c ∷ s) rest h =
    ground (arith, lines_from-append (part ++ c ∷ []) s rest, append_assoc part (c ∷ []) s)

safe_uuid_from_lem :
    (n : ℕ) (s : Text) → safe_uuid_from n s ≡ true → all (λ c. is_hex c || c == b'-') s ≡ true
unfolding safe_uuid_from
safe_uuid_from_lem n [] h = refl
safe_uuid_from_lem n (c ∷ s) h = ground (arith, safe_uuid_from_lem (suc n) s)

-- An identity that reaches a shell command has 36 characters, each a lowercase hexadecimal digit or
-- a dash.
pub safe_uuid_lem :
    (id : Text)
    → safe_uuid id ≡ true
    → (length id ≡ 36) × (all (λ c. is_hex c || c == b'-') id ≡ true)
unfolding safe_uuid
safe_uuid_lem id h = (ground arith, ground (arith, safe_uuid_from_lem 0 id))

uuid-is_one_line : (id : Text) → safe_uuid id ≡ true → is_one_line id ≡ true
uuid-is_one_line id h =
    all-imp (λ c. is_hex c || c == b'-') (λ c. not (c == 10)) id (λ c e. ground arith)
      (safe_uuid_lem id h).1

value-is_one_line : (s : Text) → safe_environment_value s ≡ true → is_one_line s ≡ true
unfolding safe_environment_value
value-is_one_line s h =
    all-imp (λ c. is_safe_character c) (λ c. not (c == 10)) s (λ c e. ground arith) (ground arith)

name-is_one_line : (s : Text) → validate_instance_name s ≡ true → is_one_line s ≡ true
unfolding validate_instance_name
name-is_one_line [] h = refl
name-is_one_line (c ∷ s) h = ground (
  arith,
  all-imp (λ d. is_alphanumeric d || d == b'-') (λ d. not (d == 10)) s (λ d e. ground arith),
)

pub checked :
    (b1 b2 b3 b4 : Bool) (file env : Text)
    → (if not b1 || not b2 || not b3 || not b4 then none else some file) ≡ some env
    → (b1 ≡ true) × (b2 ≡ true) × (b3 ≡ true) × (b4 ≡ true) × (env ≡ file)
checked b1 b2 b3 b4 file env h = ground arith

module _ ⦃net : Net⦄ where
  open net use {Addr, unmap, split_host_port, atoi, split_host_port-eq-some, atoi-eq-some}

  server-is_one_line : (s : Text) → valid_server_name s ≡ true → is_one_line s ≡ true
  unfolding valid_server_name
  server-is_one_line s h = value-is_one_line s (ground arith)

  port-is_one_line :
      (s : Text) (o : Option ℕ) → atoi s ≡ o → is_port o ≡ true → is_one_line s ≡ true
  port-is_one_line s none e h = ground arith
  port-is_one_line s (some n) e h =
      all-imp (λ c. is_digit c || c == b'+' || c == b'-') (λ c. not (c == 10)) s
        (λ c k. ground arith) (atoi-eq-some s n e)

  joined :
      (endpoint host port : Text)
      → (endpoint ≡ host ++ b':' ∷ port) ⊎ (endpoint ≡ b'[' ∷ host ++ b']' ∷ b':' ∷ port)
      → is_one_line host ≡ true
      → is_one_line port ≡ true
      → is_one_line endpoint ≡ true
  joined endpoint host port (inl e) h k = rw e (all-append _ host (b':' ∷ port) h k)
  joined endpoint host port (inr e) h k = rw e (all-append _ host (b']' ∷ b':' ∷ port) h k)

  endpoint-is_one_line_at :
      (endpoint : Text) (o : Option (Text × Text))
      → split_host_port endpoint ≡ o
      → valid_endpoint endpoint ≡ true
      → is_one_line endpoint ≡ true
  unfolding valid_endpoint
  endpoint-is_one_line_at endpoint none e h = ground arith
  endpoint-is_one_line_at endpoint (some (host, port)) e h =
      joined endpoint host port (split_host_port-eq-some endpoint host port e)
        (server-is_one_line host (ground arith))
        (port-is_one_line port (atoi port) refl (ground arith))

  -- No value adds a line to the environment file, or changes another one: the file of an instance
  -- has the eight lines of its format, each with the value that was given for it.
  pub lines-render_instance_env :
      (id name endpoint server_name env : Text)
      → render_instance_env id name endpoint server_name ≡ some env
      → lines env
        ≡ (text "ULCER_INSTANCE_ID=" ++ id)
          ∷ (text "ULCER_INSTANCE_NAME=" ++ name)
          ∷ (text "ULCER_HOST_GRPC=" ++ endpoint)
          ∷ (text "ULCER_HOST_SERVER_NAME=" ++ server_name)
          ∷ lines fixed_lines
  unfolding render_instance_env
  lines-render_instance_env id name endpoint server_name env h =
      let l4 = line (text "ULCER_HOST_SERVER_NAME=") server_name fixed_lines in
      let l3 = line (text "ULCER_HOST_GRPC=") endpoint l4 in
      let l2 = line (text "ULCER_INSTANCE_NAME=") name l3 in
      let (uuid, label, address, server, written) =
        checked (safe_uuid id) (validate_instance_name name) (valid_endpoint endpoint)
          (valid_server_name server_name) (line (text "ULCER_INSTANCE_ID=") id l2) env h in
      let a = lines_from-append (text "ULCER_INSTANCE_ID=") id l2 (uuid-is_one_line id uuid) in
      let b =
        lines_from-append (text "ULCER_INSTANCE_NAME=") name l3 (name-is_one_line name label) in
      let c =
        lines_from-append (text "ULCER_HOST_GRPC=") endpoint l4
          (endpoint-is_one_line_at endpoint (split_host_port endpoint) refl address) in
      let d =
        lines_from-append (text "ULCER_HOST_SERVER_NAME=") server_name fixed_lines
          (server-is_one_line server_name server) in
      ap lines written
      ∙ a
      ∙ ap (λ t. (text "ULCER_INSTANCE_ID=" ++ id) ∷ t)
          (b
            ∙ ap (λ t. (text "ULCER_INSTANCE_NAME=" ++ name) ∷ t)
                (c ∙ ap (λ t. (text "ULCER_HOST_GRPC=" ++ endpoint) ∷ t) d))

  pick-allowed :
      (host name : Text) (port q : ℕ) (as' : List Addr) (a : Addr)
      → pick_address host port as' ≡ resolved name a q
      → (allowed_target_address a ≡ true)
        × (q ≡ port)
        × (host ≡ name)
        × (all (λ b. allowed_target_address (unmap b)) as' ≡ true)
  unfolding pick_address
  pick-allowed host name port q [] a h = ground arith
  pick-allowed host name port q (b ∷ bs) a h = ground arith

  IsResolved : (Text → Option (List Addr)) → Text → Text → ℕ → Addr → ℕ → Type 0
  IsResolved lookup host found port a q =
      (0 < port)
      × (port ≤ 65535)
      × (q ≡ port)
      × (allowed_target_address a ≡ true)
      × ((as' : List Addr)
          → normalize_host host ≡ some (found, none)
          → lookup found ≡ some as'
          → all (λ b. allowed_target_address (unmap b)) as' ≡ true)

  from_lookup :
      (lookup : Text → Option (List Addr)) (name host found : Text) (port q : ℕ) (a : Addr)
      (o : Option (List Addr))
      → lookup name ≡ o
      → normalize_host host ≡ some (name, none)
      → resolve_target lookup host port ≡ resolved found a q
      → IsResolved lookup host found port a q
  unfolding resolve_target IsResolved
  from_lookup lookup name host found port q a none l n h = absurd (ground arith)
  from_lookup lookup name host found port q a (some bs) l n h =
      let p = pick-allowed name found port q bs a in
      (
        ground arith,
        ground arith,
        ground (arith, p),
        ground (arith, p),
        λ as' e k. ground (arith, p),
      )

  from_host :
      (lookup : Text → Option (List Addr)) (host found : Text) (port q : ℕ) (a : Addr)
      (o : Option (Text × Option Addr))
      → normalize_host host ≡ o
      → resolve_target lookup host port ≡ resolved found a q
      → IsResolved lookup host found port a q
  unfolding resolve_target IsResolved
  from_host lookup host found port q a none n h = absurd (ground arith)
  from_host lookup host found port q a (some (name, some b)) n h =
      let p = pick-allowed name found port q (b ∷ []) a in
      (
        ground arith,
        ground arith,
        ground (arith, p),
        ground (arith, p),
        λ as' e k. ground (arith, p),
      )
  from_host lookup host found port q a (some (name, none)) n h =
      from_lookup lookup name host found port q a (lookup name) refl n h

  -- An address that is chosen for a target is an allowed one, at a port from 1 to 65535; if the host
  -- is a name, every address to which the name was resolved is an allowed one.
  pub resolve_target_lem :
      (lookup : Text → Option (List Addr)) (host found : Text) (port q : ℕ) (a : Addr)
      → resolve_target lookup host port ≡ resolved found a q
      → (0 < port)
        × (port ≤ 65535)
        × (q ≡ port)
        × (allowed_target_address a ≡ true)
        × ((as' : List Addr)
            → normalize_host host ≡ some (found, none)
            → lookup found ≡ some as'
            → all (λ b. allowed_target_address (unmap b)) as' ≡ true)
  unfolding IsResolved
  resolve_target_lem lookup host found port q a h =
      from_host lookup host found port q a (normalize_host host) refl h
