-- ===== src/SshInstall/Install/Reach.antt =====
-- Which servers an installation reaches.
use ulcer.Prelude.{
  ℕ, ◌≡◌, refl, ◌≤◌, ◌<◌, ◌⊎◌, inl, inr, Bool, true, not, Text, Option, none, some, text, text_eq,
  text_eq_sound, ◌+◌, ◌-◌, arith, ap, ◌∙◌, Bool-cases, ltb, if◌then◌else◌,
}
use ulcer.Model.{Instance}
use ulcer.Platform.{Platform}
use ulcer.Api.Machines.{validate_instance_name}
use ulcer.SshInstall.Checks.{
  Net, resolve_target, Target, invalid_target, blocked, resolved, allowed_target_address,
}
use ulcer.SshInstall.Safety.{resolve_target_lem}
use ulcer.SshInstall.Image.{accepts_key, fingerprint_callback}
use ulcer.SshInstall.Remote.{
  dial_target, Remote, Request, AuthMethod, Handshake, connected, refused_key, broken, succeeds,
  connect_to, after_handshake, authentication_method,
}
use ulcer.SshInstall.Job.{
  InstallError, err_unavailable, err_invalid_name, err_invalid_user, err_invalid_host_key, Outcome,
  Site,
}
use ulcer.SshInstall.Install.{
  Surroundings, with_auth, after_connect, to_target, in_slot, install, admitted, leave_slot,
  is_some, refusal, available, install_slots,
}

module _ ⦃net : Net⦄ ⦃remote : Remote⦄ where
  open net use {Addr}
  open remote use {Machine, Client, Signer, new_client_conn, new_client_conn_checked, shown_key}

  handshake-client :
      (q : Handshake Client × Machine) (client : Client)
      → (after_handshake q).0 ≡ succeeds client
      → q.0 ≡ connected client
  unfolding after_handshake
  handshake-client (connected c, m) client h = ground arith
  handshake-client (refused_key, m) client h = ground arith
  handshake-client (broken, m) client h = ground arith

  -- The server to which a connection is made has shown a key whose fingerprint is the confirmed one.
  pub connect_to-shown_key :
      (address : Addr) (port : ℕ) (user confirmed : Text) (auth : AuthMethod Signer) (m : Machine)
      (client : Client)
      → (connect_to address port user confirmed auth m).0 ≡ succeeds client
      → shown_key client ≡ confirmed
  unfolding connect_to accepts_key
  connect_to-shown_key address port user confirmed auth m client h =
      let m1 = (dial_target address port m).1 in
      elim (Bool-cases (dial_target address port m).0) [
        | inr e ↦ absurd (ground arith)
        | inl e ↦ text_eq_sound (shown_key client) confirmed (
            new_client_conn_checked user auth (λ k. text_eq k confirmed) m1 client
              (handshake-client (new_client_conn user auth (λ k. text_eq k confirmed) m1) client
                (ground arith)))
      ]

guards-none :
    (a b c d : Bool)
    → (if not a
        then some err_unavailable
        else if not b
        then some err_invalid_name
        else if not c
        then some err_invalid_user
        else if not d
        then some err_invalid_host_key
        else none)
      ≡ none
    → (a ≡ true) × (b ≡ true) × (c ≡ true) × (d ≡ true)
guards-none a b c d h = ground arith

module _ ⦃p : Platform⦄ ⦃net : Net⦄ ⦃remote : Remote⦄ (e : Surroundings) (r : Request) where
  open net use {Addr}
  open remote use {Machine, Signer, shown_key}

  -- The connection to an address at the port of the request, which must show the confirmed key, and
  -- what the installation does after it.
  abbrev pub connection : Addr → AuthMethod Signer → Site → Outcome Instance × Site
  connection address auth s =
      let q = connect_to address r.port r.user r.host_key_sha256 auth s.machine in
      after_connect e r address r.port auth q.0 (record s { machine = q.1 })

  -- An installation that is let in, passes its checks and connects to the address to which its
  -- target resolves.
  pub record IsReached (s : Site) : Type 0 where
    pub is_available : available e.config ≡ true
    pub is_named : validate_instance_name r.name ≡ true
    pub is_root : text_eq r.user (text "root") ≡ true
    pub is_confirmed : is_some (fingerprint_callback e.base64 r.host_key_sha256) ≡ true
    pub has_slot : ltb s.slots install_slots ≡ true
    pub auth : AuthMethod Signer
    pub authenticates : authentication_method r ≡ some auth
    pub address : Addr
    pub host : Text
    pub resolves : resolve_target e.lookup r.host r.port ≡ resolved host address r.port
    pub is_allowed : allowed_target_address address ≡ true
    pub port_bounds : (0 < r.port) × (r.port ≤ 65535)
    pub shows :
        (m : Machine) (client : remote.Client)
        → (connect_to address r.port r.user r.host_key_sha256 auth m).0 ≡ succeeds client
        → shown_key client ≡ r.host_key_sha256
    pub runs :
        install e r s ≡ leave_slot (connection address auth (record s { slots = s.slots + 1 }))

  -- The part of it that holds a slot.
  record IsConnected (a : Option (AuthMethod Signer)) (s : Site) : Type 0 where
    auth : AuthMethod Signer
    authenticates : a ≡ some auth
    address : Addr
    host : Text
    resolves : resolve_target e.lookup r.host r.port ≡ resolved host address r.port
    is_allowed : allowed_target_address address ≡ true
    port_bounds : (0 < r.port) × (r.port ≤ 65535)
    connects : with_auth e r a s ≡ connection address auth s

  abbrev IsChecked : Type 0
  IsChecked =
      (available e.config ≡ true)
      × (validate_instance_name r.name ≡ true)
      × (text_eq r.user (text "root") ≡ true)
      × (is_some (fingerprint_callback e.base64 r.host_key_sha256) ≡ true)

  refusal-none : refusal e r ≡ none → IsChecked
  unfolding refusal
  refusal-none h =
      guards-none (available e.config) (validate_instance_name r.name)
        (text_eq r.user (text "root")) (is_some (fingerprint_callback e.base64 r.host_key_sha256)) h

  target_lem :
      (auth : AuthMethod Signer) (s : Site) (t : Target)
      → resolve_target e.lookup r.host r.port ≡ t
      → ((to_target e r auth t s).1 ≡ s)
        ⊎ ((address : Addr) × (host : Text) × (resolve_target e.lookup r.host r.port
              ≡ resolved host address r.port)
            × (allowed_target_address address ≡ true)
            × ((0 < r.port) × (r.port ≤ 65535))
            × (to_target e r auth t s ≡ connection address auth s))
  unfolding to_target
  target_lem auth s invalid_target h = inl refl
  target_lem auth s blocked h = inl refl
  target_lem auth s (resolved host a port) h =
      let found = resolve_target_lem e.lookup r.host host r.port port a h in
      inr (
        a,
        host,
        h ∙ ap (λ n. resolved host a n) found.2,
        found.3,
        (found.0, found.1),
        ap (λ n. to_target e r auth (resolved host a n) s) found.2,
      )

  with_auth_lem :
      (a : Option (AuthMethod Signer)) (s : Site) → ((with_auth e r a s).1 ≡ s) ⊎ IsConnected a s
  unfolding with_auth
  with_auth_lem none s = inl refl
  with_auth_lem (some auth) s =
      elim (target_lem auth s (resolve_target e.lookup r.host r.port) refl) [
        | inl same ↦ inl same
        | inr (address, host, found, allowed, bounds, run) ↦ inr (record {
          auth = auth;
          authenticates = refl;
          address = address;
          host = host;
          resolves = found;
          is_allowed = allowed;
          port_bounds = bounds;
          connects = run;
        })
      ]

  slot_given_back :
      (o : Outcome Instance × Site) (s : Site)
      → o.1 ≡ record s { slots = s.slots + 1 }
      → (leave_slot o).1 ≡ s
  slot_given_back (x, s') s h =
      (λ i. record (h i) { slots = (h i).slots - 1 }) ∙ (λ i. record s { slots = back s.slots i })
    where
      back : (n : ℕ) → n + 1 - 1 ≡ n
      back n = omega arith

  admitted-slot :
      (s : Site)
      → refusal e r ≡ none
      → ltb s.slots install_slots ≡ true
      → install e r s ≡ leave_slot (in_slot e r (record s { slots = s.slots + 1 }))
  unfolding install admitted
  admitted-slot s h l = ap (λ o. admitted e r o s) h ∙ rw l refl

  connected_lem :
      (s : Site)
      → refusal e r ≡ none
      → ltb s.slots install_slots ≡ true
      → IsConnected (authentication_method r) (record s { slots = s.slots + 1 })
      → IsReached s
  unfolding in_slot
  connected_lem s h l c =
      let (available, named, root, confirmed) = refusal-none h in
      record {
        is_available = available;
        is_named = named;
        is_root = root;
        is_confirmed = confirmed;
        has_slot = l;
        auth = c.auth;
        authenticates = c.authenticates;
        address = c.address;
        host = c.host;
        resolves = c.resolves;
        is_allowed = c.is_allowed;
        port_bounds = c.port_bounds;
        shows = λ m client q.
            connect_to-shown_key c.address r.port r.user r.host_key_sha256 c.auth m client q;
        runs = admitted-slot s h l ∙ ap (λ o. leave_slot o) c.connects;
      }

  admitted_lem :
      (o : Option InstallError) (s : Site) → refusal e r ≡ o → ((install e r s).1 ≡ s) ⊎ IsReached s
  unfolding install admitted in_slot
  admitted_lem (some x) s h = inl (ap (λ o. (admitted e r o s).1) h)
  admitted_lem none s h = elim (Bool-cases (ltb s.slots install_slots)) [
    | inr l ↦ inl (ap (λ o. (admitted e r o s).1) h ∙ rw l refl)
    | inl l ↦
        let s1 = record s { slots = s.slots + 1 } in
        elim (with_auth_lem (authentication_method r) s1) [
          | inl same ↦
              inl (ap (λ o. o.1) (admitted-slot s h l) ∙ slot_given_back (in_slot e r s1) s same)
          | inr found ↦ inr (connected_lem s h l found)
        ]
  ]

  -- An installation either leaves everything as it was, and has not connected to any server, or it
  -- runs as follows. Installations are available on the host, the name is valid, the user is root,
  -- the fingerprint is well formed, a slot is free and the request names a way to authenticate. Its
  -- target resolves to an address that is allowed, at a port from 1 to 65535. It connects to this
  -- address at this port with this way to authenticate, and goes on as after this connection, which
  -- succeeds only with a server whose key has the confirmed fingerprint; then it gives the slot back.
  pub install-IsReached : (s : Site) → ((install e r s).1 ≡ s) ⊎ IsReached s
  install-IsReached s = admitted_lem (refusal e r) s refl
