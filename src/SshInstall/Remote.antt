-- ===== src/SshInstall/Remote.antt =====
-- internal/sshinstall/install.go and target.go: the connection to the server on which an instance is
-- installed, and the commands that are run on it.
use ulcer.Prelude.{
  ℕ, ◌≡◌, Bool, true, false, ◌&&◌, ◌||◌, not, Bytes, Text, text, Option, none, some, [], ◌++◌, ltb,
  length, if◌then◌else◌,
}
use ulcer.SshInstall.Checks.{Net, safe_uuid}
use ulcer.SshInstall.Image.{accepts_key, instance_directory, container_name}

pub record Request : Type 0 where
  pub name : Text
  pub host : Text
  pub port : ℕ
  pub user : Text
  pub host_key_sha256 : Text
  pub password : Bytes
  pub private_key_pem : Bytes
  pub private_key_password : Bytes

pub data AuthMethod (Signer : Type 0) : Type 0 where
  password_callback : Bytes → AuthMethod Signer
  public_keys : Signer → AuthMethod Signer

-- How ssh.NewClientConn ends: with a client, with the error of the callback, or with another one.
pub data Handshake (Client : Type 0) : Type 0 where
  connected : Client → Handshake Client
  refused_key broken : Handshake Client

-- What the package takes from golang.org/x/crypto/ssh, from the dialer and from the context. A
-- `Machine` is a state of all that is outside of the host: the server, the network and the time.
pub record Remote ⦃net : Net⦄ : Type 1 where
  pub Machine : Type 0
  pub Client : Type 0
  pub Signer : Type 0
  pub parse_private_key : Bytes → Option Signer
  pub parse_private_key_with_passphrase : Bytes → Bytes → Option Signer
  -- DialContext, and SetDeadline on the connection.
  pub dial : net.Addr → ℕ → Machine → Bool × Machine
  pub set_deadline : Machine → Bool × Machine
  -- The callback gets the fingerprint of the key with which the server has proved itself.
  pub new_client_conn :
      Text → AuthMethod Signer → (Text → Bool) → Machine → Handshake Client × Machine
  pub shown_key : Client → Text
  -- A session that runs one command on an input, and whether its exit status is zero.
  pub run : Client → Text → Bytes → Machine → Bool × Machine
  -- Whether the context of the installation has ended, and the time.
  pub is_ended : Machine → Bool
  pub now : Machine → ℕ
  -- The time that passes up to the next call on the host.
  pub tick : Machine → Machine
  -- A client is returned only where the callback accepts the key that the server shows.
  pub new_client_conn_checked :
      (user : Text) (auth : AuthMethod Signer) (callback : Text → Bool) (m : Machine) (c : Client)
      → (new_client_conn user auth callback m).0 ≡ connected c
      → callback (shown_key c) ≡ true

pub data ConnectError : Type 0 where
  host_key_mismatch connection_failed : ConnectError

pub data Connecting (Client : Type 0) : Type 0 where
  succeeds : Client → Connecting Client
  fails_with : ConnectError → Connecting Client

module _ ⦃net : Net⦄ ⦃remote : Remote⦄ where
  open net use {Addr}
  open remote use {
    Machine, Client, Signer, parse_private_key, parse_private_key_with_passphrase, dial,
    set_deadline, new_client_conn, shown_key, run,
  }

  -- `none` is ErrInvalidAuth.
  unfoldable pub authentication_method : Request → Option (AuthMethod Signer)
  authentication_method r =
      let password = ltb 0 (length r.password) in
      let private_key = ltb 0 (length r.private_key_pem) in
      let passphrase = ltb 0 (length r.private_key_password) in
      if (password && private_key)
        || (not password && not private_key)
        || (passphrase && not private_key)
      then none
      else if password
      then some (password_callback r.password)
      else elim (if passphrase
          then parse_private_key_with_passphrase r.private_key_pem r.private_key_password
          else parse_private_key r.private_key_pem) [
            | none ↦ none
            | some signer ↦ some (public_keys signer)
          ]

  unfoldable pub dial_target : Addr → ℕ → Machine → Bool × Machine
  dial_target address port m =
      let (dialed, m1) = dial address port m in
      let (limited, m2) = set_deadline m1 in if dialed then (limited, m2) else (false, m1)

  unfoldable pub after_handshake : Handshake Client × Machine → Connecting Client × Machine
  after_handshake (refused_key, m) = (fails_with host_key_mismatch, m)
  after_handshake (broken, m) = (fails_with connection_failed, m)
  after_handshake (connected client, m) =
      let (cleared, m') = set_deadline m in
      (if cleared then succeeds client else fails_with connection_failed, m')

  unfoldable pub connect_to :
      Addr → ℕ → Text → Text → AuthMethod Signer → Machine → Connecting Client × Machine
  unfolding dial_target after_handshake accepts_key
  connect_to address port user confirmed auth m =
      let (dialed, m1) = dial_target address port m in
      let opened = after_handshake (new_client_conn user auth (λ k. accepts_key confirmed k) m1) in
      if dialed then opened else (fails_with connection_failed, m1)

  -- runCommand, for a session without an input.
  abbrev pub run_command : Client → Text → Machine → Bool × Machine
  run_command client command m = run client command [] m

  unfoldable pub prepare_remote : Client → Text → Machine → Bool × Machine
  unfolding safe_uuid
  prepare_remote client id m =
      if safe_uuid id
      then run_command client (text "install -d -m 0750 -o root -g 65532 " ++ instance_directory id)
          m
      else (false, m)

  unfoldable pub upload_file : Client → Text → Text → Text → Bytes → Machine → Bool × Machine
  upload_file client path mode owner content m =
      run client
        (text "umask 077; cat > "
          ++ path
          ++ text " && chown "
          ++ owner
          ++ text " "
          ++ path
          ++ text " && chmod "
          ++ mode
          ++ text " "
          ++ path)
        content m

  abbrev pub unit_name : Text → Text
  unit_name id = container_name id ++ text ".service"

  abbrev pub cleanup_command : Text → Text
  cleanup_command id =
      text "systemctl disable --now "
      ++ unit_name id
      ++ text " >/dev/null 2>&1 || true; "
      ++ text "podman rm --force "
      ++ container_name id
      ++ text " >/dev/null 2>&1 || true; "
      ++ text "rm -f /etc/systemd/system/"
      ++ unit_name id
      ++ text "; rm -rf "
      ++ instance_directory id
      ++ text "; systemctl daemon-reload"

  unfoldable pub cleanup_remote : Client → Text → Machine → Bool × Machine
  unfolding safe_uuid
  cleanup_remote client id m =
      if safe_uuid id then run_command client (cleanup_command id) m else (false, m)
