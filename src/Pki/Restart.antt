-- ===== src/Pki/Restart.antt =====
-- What later starts of the host find of the files of an earlier one.
use ulcer.Prelude.{
  ℕ, ◌≡◌, refl, ◌≢◌, ap, ◌∙◌, subst, true, false, Bytes, Text, text, some, arith, text_eq,
  Bool-cases, Option-cases, inl, inr,
}
use ulcer.Pki.Outside.{
  Parts, Stat, present, missing, unknown, Name, ca_crt, ca_key, host_crt, host_key, name_text,
}
use ulcer.Pki.Steps.{then_on-eq-done, bind-eq-done, done-inj, if-eq-done}
use ulcer.Pki.{
  directory_error, Issue, done, failed, Bundle, Authority, Draw, path_of, write_pair, write_new,
  ensure_pair, pair_at, load_authority, load_bundle, ◌>>=◌, load_or_create_authority, ensure_server,
  ensure, new_authority, issue_server,
}

module _ ⦃parts : Parts⦄ where
  open parts use {
    Disk, join, stat, read_file, write_file, mkdir_all, write_file_other, mkdir_all_other,
    read_file-stat, join_ne,
  }

  -- A name beside those of a pair.
  abbrev IsApart : Name → Name → Name → Type 0
  IsApart n cert key =
      (text_eq (name_text cert) (name_text n) ≡ false)
      × (text_eq (name_text key) (name_text n) ≡ false)

  read_other :
      (dir : Text) (n m : Name) (b : Bytes) (d : Disk)
      → text_eq (name_text m) (name_text n) ≡ false
      → read_file (write_file (path_of dir m) b d).1 (path_of dir n) ≡ read_file d (path_of dir n)
  read_other dir n m b d h =
      (write_file_other (path_of dir m) (path_of dir n) b d (join_ne dir m n h)).0

  write_pair-read :
      (dir : Text) (n cert key : Name) (pair : Bytes × Bytes) (d : Disk)
      → IsApart n cert key
      → read_file (write_pair (path_of dir cert) (path_of dir key) pair d).1 (path_of dir n)
        ≡ read_file d (path_of dir n)
  unfolding write_pair
  write_pair-read dir n cert key (c, k) d (h, g) =
      let d' = (write_file (path_of dir cert) c d).1 in
      elim (Bool-cases (write_file (path_of dir cert) c d).0) [
        | inl e ↦ rw e (read_other dir n key k d' g ∙ read_other dir n cert c d h)
        | inr e ↦ rw e (read_other dir n cert c d h)
      ]

  write_new-read :
      (dir : Text) (n cert key : Name) (pair : Issue (Bytes × Bytes)) (d : Disk)
      → IsApart n cert key
      → read_file (write_new dir cert key pair d).1 (path_of dir n) ≡ read_file d (path_of dir n)
  unfolding write_new
  write_new-read dir n cert key (failed e) d h = refl
  write_new-read dir n cert key (done pair) d h = write_pair-read dir n cert key pair d h

  -- The files beside a pair are left alone.
  pair_at-read :
      (st : Stat) (dir : Text) (n cert key : Name) (pair : Issue (Bytes × Bytes)) (d : Disk)
      → IsApart n cert key
      → read_file (pair_at st dir cert key pair d).1 (path_of dir n) ≡ read_file d (path_of dir n)
  pair_at-read missing dir n cert key pair d h = write_new-read dir n cert key pair d h
  pair_at-read present dir n cert key pair d h = refl
  pair_at-read unknown dir n cert key pair d h = refl

  ensure_pair-read :
      (dir : Text) (n cert key : Name) (pair : Issue (Bytes × Bytes)) (d : Disk)
      → IsApart n cert key
      → read_file (ensure_pair dir cert key pair d).1 (path_of dir n) ≡ read_file d (path_of dir n)
  unfolding ensure_pair
  ensure_pair-read dir n cert key pair d =
      pair_at-read (stat d (path_of dir cert)) dir n cert key pair d

  -- A certificate that is there is not made again.
  pair_at-kept :
      (st : Stat) (dir : Text) (cert key : Name) (pair : Issue (Bytes × Bytes)) (d : Disk)
      → st ≢ missing
      → pair_at st dir cert key pair d ≡ (done tt, d)
  pair_at-kept missing dir cert key pair d ne = absurd (ne refl)
  pair_at-kept present dir cert key pair d ne = refl
  pair_at-kept unknown dir cert key pair d ne = refl

  pub ensure_pair-kept :
      (dir : Text) (cert key : Name) (pair : Issue (Bytes × Bytes)) (d : Disk)
      → stat d (path_of dir cert) ≢ missing
      → ensure_pair dir cert key pair d ≡ (done tt, d)
  unfolding ensure_pair
  ensure_pair-kept dir cert key pair d =
      pair_at-kept (stat d (path_of dir cert)) dir cert key pair d

  load_authority-eq-done :
      (dir : Text) (d : Disk) {a : Authority}
      → load_authority dir d ≡ done a
      → (b : Bytes) × (read_file d (path_of dir ca_crt) ≡ some b)
  unfolding load_authority
  load_authority-eq-done dir d h = elim (Option-cases (read_file d (path_of dir ca_crt))) [
    | inl e ↦ absurd (ground arith)
    | inr found ↦ found
  ]

  load_bundle-eq-done :
      (dir : Text) (d : Disk) {b : Bundle}
      → load_bundle dir d ≡ done b
      → (c : Bytes) × (read_file d (path_of dir host_crt) ≡ some c)
  unfolding load_bundle
  load_bundle-eq-done dir d h = elim (Option-cases (read_file d (path_of dir host_crt))) [
    | inl e ↦ absurd (ground arith)
    | inr found ↦ found
  ]

  -- Two disks on which the files of the authority read the same.
  load_authority-same :
      (dir : Text) (d d' : Disk)
      → read_file d' (path_of dir ca_crt) ≡ read_file d (path_of dir ca_crt)
      → read_file d' (path_of dir ca_key) ≡ read_file d (path_of dir ca_key)
      → load_authority dir d' ≡ load_authority dir d
  unfolding load_authority
  load_authority-same dir d d' h k = rw (h, k) refl

  load_bundle-same :
      (dir : Text) (d d' : Disk)
      → ((n : Name) → read_file d' (path_of dir n) ≡ read_file d (path_of dir n))
      → load_bundle dir d' ≡ load_bundle dir d
  unfolding load_bundle
  load_bundle-same dir d d' h = rw (h host_crt, h host_key, h ca_crt) refl

  -- The files of a start that has succeeded.
  abbrev IsStarted : Text → Authority × Bundle → Disk → Type 0
  IsStarted dir r d = (load_authority dir d ≡ done r.0) × (load_bundle dir d ≡ done r.1)

  authority_lem :
      (now : ℕ) (dir : Text) (draw : Draw) (d d' : Disk) (a : Authority)
      → load_or_create_authority now dir draw d ≡ (done a, d')
      → load_authority dir d' ≡ done a
  unfolding load_or_create_authority
  authority_lem now dir draw d d' a h =
      let (_, _, q) =
        then_on-eq-done (ensure_pair dir ca_crt ca_key (new_authority now draw) d)
          (λ _ w. (load_authority dir w, w)) h in
      subst (λ w. load_authority dir w ≡ done a) (ap (λ r. r.1) q) (ap (λ r. r.0) q)

  server_lem :
      (now : ℕ) (dir name : Text) (draw : Draw) (a : Authority) (d d' : Disk)
      (r : Authority × Bundle)
      → load_authority dir d ≡ done a
      → ensure_server now dir name draw a d ≡ (done r, d')
      → IsStarted dir r d'
  unfolding ensure_server
  server_lem now dir name draw a d d' r loaded h =
      let w = (ensure_pair dir host_crt host_key (issue_server now name draw a) d).1 in
      let (_, _, q) =
        then_on-eq-done (ensure_pair dir host_crt host_key (issue_server now name draw a) d)
          (λ _ v. (load_bundle dir v >>= λ b. done (a, b), v)) h in
      let (b, got, made) = bind-eq-done (load_bundle dir w) (λ x. done (a, x)) (ap (λ x. x.0) q) in
      let read =
        λ (n : Name). ensure_pair-read dir n host_crt host_key (issue_server now name draw a) d in
      let same =
        load_authority-same dir d w (read ca_crt (refl, refl)) (read ca_key (refl, refl)) in
      subst (IsStarted dir r) (ap (λ x. x.1) q)
        (subst (λ x. IsStarted dir x w) (done-inj made) (same ∙ loaded, got))

  -- What a start of the host leaves is what every later start reads.
  ensure-IsStarted :
      (now : ℕ) (data_dir name : Text) (ca_draw server_draw : Draw) (d d' : Disk)
      (r : Authority × Bundle)
      → ensure now data_dir name ca_draw server_draw d ≡ (done r, d')
      → IsStarted (join data_dir (text "pki")) r d'
  unfolding ensure
  ensure-IsStarted now data_dir name ca_draw server_draw d d' r h =
      let dir = join data_dir (text "pki") in
      let d1 = (mkdir_all dir d).1 in
      let started = if-eq-done (mkdir_all dir d).0 _ directory_error r d1 d' h in
      let (a, p, q) =
        then_on-eq-done (load_or_create_authority now dir ca_draw d1)
          (λ a d2. ensure_server now dir name server_draw a d2) started in
      server_lem now dir name server_draw a (load_or_create_authority now dir ca_draw d1).1 d' r
        (authority_lem now dir ca_draw d1 (load_or_create_authority now dir ca_draw d1).1 a p) q

  load_or_create_authority-kept :
      (now : ℕ) (dir : Text) (draw : Draw) (d : Disk) (a : Authority)
      → load_authority dir d ≡ done a
      → load_or_create_authority now dir draw d ≡ (done a, d)
  unfolding load_or_create_authority
  load_or_create_authority-kept now dir draw d a h =
      let (b, found) = load_authority-eq-done dir d h in
      rw
        (
          ensure_pair-kept dir ca_crt ca_key (new_authority now draw) d
              (read_file-stat (path_of dir ca_crt) b d found),
          h,
        )
        refl

  ensure_server-kept :
      (now : ℕ) (dir name : Text) (draw : Draw) (a : Authority) (d : Disk) (b : Bundle)
      → load_bundle dir d ≡ done b
      → ensure_server now dir name draw a d ≡ (done (a, b), d)
  unfolding ensure_server
  ensure_server-kept now dir name draw a d b h =
      let (c, found) = load_bundle-eq-done dir d h in
      rw
        (
          ensure_pair-kept dir host_crt host_key (issue_server now name draw a) d
              (read_file-stat (path_of dir host_crt) c d found),
          h,
        )
        refl

  IsStarted-mkdir_all :
      (dir : Text) (r : Authority × Bundle) (d : Disk)
      → IsStarted dir r d
      → IsStarted dir r (mkdir_all dir d).1
  IsStarted-mkdir_all dir r d (h, g) =
      let w = (mkdir_all dir d).1 in
      let read = λ (n : Name). (mkdir_all_other dir n d).0 in
      (
        load_authority-same dir d w (read ca_crt) (read ca_key) ∙ h,
        load_bundle-same dir d w read ∙ g,
      )

  -- A start reads what an earlier one has left.
  ensure-kept :
      (now : ℕ) (data_dir name : Text) (ca_draw server_draw : Draw) (d : Disk)
      (r : Authority × Bundle)
      → IsStarted (join data_dir (text "pki")) r d
      → (mkdir_all (join data_dir (text "pki")) d).0 ≡ true
      → ensure now data_dir name ca_draw server_draw d
        ≡ (done r, (mkdir_all (join data_dir (text "pki")) d).1)
  unfolding ensure
  ensure-kept now data_dir name ca_draw server_draw d (a, b) started made =
      let dir = join data_dir (text "pki") in
      let d1 = (mkdir_all dir d).1 in
      let (h, g) = IsStarted-mkdir_all dir (a, b) d started in
      rw
        (
          made,
          load_or_create_authority-kept now dir ca_draw d1 a h,
          ensure_server-kept now dir name server_draw a d1 b g,
        )
        refl

  -- When a start has given an authority and the certificate of the host, every later start whose
  -- directory can be made gives the same two and writes no file, also at another time and with
  -- another public name.
  pub ensure-ensure :
      (now later : ℕ) (data_dir name other : Text)
      (ca_draw server_draw ca_draw' server_draw' : Draw)
      → (d d' : Disk) (r : Authority × Bundle)
      → ensure now data_dir name ca_draw server_draw d ≡ (done r, d')
      → (mkdir_all (join data_dir (text "pki")) d').0 ≡ true
      → ensure later data_dir other ca_draw' server_draw' d'
        ≡ (done r, (mkdir_all (join data_dir (text "pki")) d').1)
  ensure-ensure now later data_dir name other ca_draw server_draw ca_draw' server_draw' d d' r h
        made =
      ensure-kept later data_dir other ca_draw' server_draw' d' r
        (ensure-IsStarted now data_dir name ca_draw server_draw d d' r h) made
