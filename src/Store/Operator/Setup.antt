-- ===== src/Store/Operator/Setup.antt =====
-- CompleteOperator: the operator is configured once, and everything that the login needs is there.
use ulcer.Prelude.{
  ℕ, ◌+◌, ◌≡◌, refl, ◌∙◌, ◌≢◌, false, Text, none, some, List, [], ◌∷◌, arith, text_eq, text_eq_refl,
  All, All-imp,
}
use ulcer.Result.{ok, err}
use ulcer.Platform.{Platform, Entry}
use ulcer.Store.Words.{put_uint64}
use ulcer.Store.Keys.{
  operator_ready_key, pending_totp_key, totp_secret_key, totp_step_key, recovery_key, session_key,
  session_hash,
}
use ulcer.Store.Txn.{live, set, set_uint64, set_with_ttl, delete}
use ulcer.Store.Txn.Steps.{plain}
use ulcer.Store.Operator.{mark, set_recovery_hashes, enrol_operator, complete_operator}

module _ ⦃p : Platform⦄ where
  open p use {Db, entry, write, erase, fault, entry-write, entry-erase}

  set_recovery_hashes-entry :
      (hs : List Text) (k : Text) (d : Db) {w : Db}
      → ((h : Text) → text_eq (recovery_key h) k ≡ false)
      → set_recovery_hashes hs d ≡ ok (tt, w)
      → entry w k ≡ entry d k
  unfolding set_recovery_hashes set
  set_recovery_hashes-entry [] k d other h = ground arith
  set_recovery_hashes-entry (x ∷ hs) k d {w} other h = ground (
    arith,
    other x,
    entry-write d (recovery_key x) k (plain mark),
    set_recovery_hashes-entry hs k (write (recovery_key x) (plain mark) d) {w = w} other,
  )

  set_recovery_hashes-keeps :
      (hs : List Text) (x : Text) (d : Db) {w : Db}
      → entry d (recovery_key x) ≡ some (plain mark)
      → set_recovery_hashes hs d ≡ ok (tt, w)
      → entry w (recovery_key x) ≡ some (plain mark)
  unfolding set_recovery_hashes set
  set_recovery_hashes-keeps [] x d e h = ground arith
  set_recovery_hashes-keeps (y ∷ hs) x d {w} e h = ground (
    arith,
    entry-write d (recovery_key y) (recovery_key x) (plain mark),
    set_recovery_hashes-keeps hs x (write (recovery_key y) (plain mark) d) {w = w},
  )

  set_recovery_hashes-stores :
      (hs : List Text) (d : Db) {w : Db}
      → set_recovery_hashes hs d ≡ ok (tt, w)
      → All (λ h. entry w (recovery_key h) ≡ some (plain mark)) hs
  unfolding set_recovery_hashes set
  set_recovery_hashes-stores [] d h = tt
  set_recovery_hashes-stores (x ∷ hs) d {w} h =
      let d1 = write (recovery_key x) (plain mark) d in
      let rest : set_recovery_hashes hs d1 ≡ ok (tt, w) = ground arith in
      let first : entry d1 (recovery_key x) ≡ some (plain mark) =
        ground
          (arith, entry-write d (recovery_key x) (recovery_key x) (plain mark), text_eq_refl x) in
      (set_recovery_hashes-keeps hs x d1 first rest, set_recovery_hashes-stores hs d1 rest)

  prepared : Text → ℕ → Db → Db
  prepared secret step d = erase pending_totp_key (
      write operator_ready_key (plain mark)
        (write totp_step_key (plain (put_uint64 step)) (write totp_secret_key (plain secret) d)))

  with_hashes : List Text → Db → Db
  with_hashes hs d = elim (set_recovery_hashes hs d) [ ok (_, w) ↦ w | err _ ↦ d ]

  abbrev pub session_entry : ℕ → Entry
  session_entry expiry = record { value = mark; expires_at = some expiry }

  complete_operator-eq-ok :
      (now : ℕ) (secret : Text) (step : ℕ) (hs : List Text) (token : Text) (ttl : ℕ) (d d' : Db)
      → complete_operator now secret step hs token ttl d ≡ (ok tt, d')
      → (set_recovery_hashes hs (prepared secret step d)
          ≡ ok (tt, with_hashes hs (prepared secret step d)))
        × (d'
            ≡ write
                (session_key token)
                (session_entry (now + ttl))
                (with_hashes hs (prepared secret step d)))
        × (live now (entry d operator_ready_key) ≡ none)
  unfolding complete_operator enrol_operator prepared set_uint64 set delete set_with_ttl with_hashes
  complete_operator-eq-ok now secret step hs token ttl d d' h = ground arith

  -- A database that holds this setup: the key under which the operator is ready, the secret and
  -- step of the login, no pending secret, every recovery code and the first session.
  pub record IsEnrolled (s : Text) (n : ℕ) (hs : List Text) (token : Text) (expiry : ℕ) (d : Db)
      : Type 0 where
    pub ready : entry d operator_ready_key ≡ some (plain mark)
    pub secret : entry d totp_secret_key ≡ some (plain s)
    pub step : entry d totp_step_key ≡ some (plain (put_uint64 n))
    pub pending : entry d pending_totp_key ≡ none
    pub codes : All (λ h. entry d (recovery_key h) ≡ some (plain mark)) hs
    pub session : entry d (session_key token) ≡ some (session_entry expiry)

  kept :
      (k : Text) (s : Text) (n : ℕ) (hs : List Text) (token : Text) (expiry : ℕ) (d d' : Db)
      → ((h : Text) → text_eq (recovery_key h) k ≡ false)
      → text_eq (session_key token) k ≡ false
      → set_recovery_hashes hs (prepared s n d) ≡ ok (tt, with_hashes hs (prepared s n d))
      → d' ≡ write (session_key token) (session_entry expiry) (with_hashes hs (prepared s n d))
      → entry d' k ≡ entry (prepared s n d) k
  kept k s n hs token expiry d d' r t h e =
      let w = with_hashes hs (prepared s n d) in
      ground (
        arith,
        entry-write w (session_key token) k (session_entry expiry),
        set_recovery_hashes-entry hs k (prepared s n d) {w = w} r h,
      )

  -- A setup that succeeds has stored all of it.
  pub complete_operator-IsEnrolled :
      (now : ℕ) (s : Text) (n : ℕ) (hs : List Text) (token : Text) (ttl : ℕ) (d d' : Db)
      → complete_operator now s n hs token ttl d ≡ (ok tt, d')
      → IsEnrolled s n hs token (now + ttl) d'
  unfolding prepared
  complete_operator-IsEnrolled now s n hs token ttl d d' h =
      let (e, eq, _) = complete_operator-eq-ok now s n hs token ttl d d' h in
      let same : (k : Text)
          → ((x : Text) → text_eq (recovery_key x) k ≡ false)
          → text_eq (session_key token) k ≡ false
          → entry d' k ≡ entry (prepared s n d) k =
        λ k r t. kept k s n hs token (now + ttl) d d' r t e eq in
      let w = with_hashes hs (prepared s n d) in
      let late = entry-write w (session_key token) in
      record {
        ready = same operator_ready_key (λ _. refl) refl ∙ simp (entry-write, entry-erase);
        secret = same totp_secret_key (λ _. refl) refl ∙ simp (entry-write, entry-erase);
        step = same totp_step_key (λ _. refl) refl ∙ simp (entry-write, entry-erase);
        pending = same pending_totp_key (λ _. refl) refl ∙ simp entry-erase;
        codes =
            All-imp (λ x m. rw eq (late (recovery_key x) (session_entry (now + ttl)) ∙ m)) hs
              (set_recovery_hashes-stores hs (prepared s n d) e);
        session = rw eq (
            rw (
              late (session_key token) (session_entry (now + ttl)),
              text_eq_refl (session_hash token),
            ));
      }

  -- The operator is configured once: in the database that a setup leaves when it succeeds, no other
  -- setup does.
  pub complete_operator_once :
      (t1 t2 : ℕ) (s1 s2 : Text) (n1 n2 : ℕ) (hs1 hs2 : List Text) (k1 k2 : Text) (ttl1 ttl2 : ℕ)
      (d d' d'' : Db)
      → complete_operator t1 s1 n1 hs1 k1 ttl1 d ≡ (ok tt, d')
      → complete_operator t2 s2 n2 hs2 k2 ttl2 d' ≢ (ok tt, d'')
  unfolding live
  complete_operator_once t1 t2 s1 s2 n1 n2 hs1 hs2 k1 k2 ttl1 ttl2 d d' d'' h k = ground (
    arith,
    (complete_operator-IsEnrolled t1 s1 n1 hs1 k1 ttl1 d d' h).ready,
    complete_operator-eq-ok t2 s2 n2 hs2 k2 ttl2 d' d'' k,
  )
