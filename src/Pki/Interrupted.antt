-- ===== src/Pki/Interrupted.antt =====
-- A start that has stopped between the two writes of the authority's pair.
use ulcer.Prelude.{
  ℕ, ◌≡◌, refl, ◌≢◌, sym, ap, ◌∙◌, subst, true, Bytes, Text, text, none, List, [], ◌∷◌, Bool-cases,
  Option-cases, inl, inr,
}
use ulcer.Pki.Outside.{Parts, missing, ca_crt, ca_key}
use ulcer.Pki.{
  PkiError, read_error, directory_error, failed, Draw, path_of, load_authority,
  load_or_create_authority, ensure, new_authority,
}
use ulcer.Pki.Restart.{ensure_pair-kept}

-- What a start of the host gets from outside.
pub record Start ⦃parts : Parts⦄ : Type 0 where
  pub now : ℕ
  pub name : Text
  pub ca_draw : Draw
  pub server_draw : Draw

module _ ⦃parts : Parts⦄ where
  open parts use {
    Disk, join, stat, read_file, write_file, mkdir_all, write_file-read, write_file_other,
    mkdir_all_other, read_file-stat, join_ne,
  }

  -- The disk after some starts.
  unfoldable pub restart : Text → List Start → Disk → Disk
  restart data_dir [] d = d
  restart data_dir (s ∷ rest) d =
      restart data_dir rest (ensure s.now data_dir s.name s.ca_draw s.server_draw d).1

  -- The certificate of the authority is there and its key is not.
  abbrev IsHalfWritten : Text → Disk → Type 0
  IsHalfWritten dir d =
      (stat d (path_of dir ca_crt) ≢ missing) × (read_file d (path_of dir ca_key) ≡ none)

  write_file-IsHalfWritten :
      (dir : Text) (cert : Bytes) (d : Disk)
      → read_file d (path_of dir ca_key) ≡ none
      → (write_file (path_of dir ca_crt) cert d).0 ≡ true
      → IsHalfWritten dir (write_file (path_of dir ca_crt) cert d).1
  write_file-IsHalfWritten dir cert d absent wrote = (
    read_file-stat (path_of dir ca_crt) cert _ (write_file-read (path_of dir ca_crt) cert d wrote),
    (write_file_other (path_of dir ca_crt) (path_of dir ca_key) cert d
          (join_ne dir ca_crt ca_key refl)).0
        ∙ absent,
  )

  IsHalfWritten-mkdir_all :
      (dir : Text) (d : Disk) → IsHalfWritten dir d → IsHalfWritten dir (mkdir_all dir d).1
  IsHalfWritten-mkdir_all dir d (there, absent) =
      let (read, _) = mkdir_all_other dir ca_key d in
      let (_, found) = mkdir_all_other dir ca_crt d in (λ e. there (sym found ∙ e), read ∙ absent)

  load_authority-fails :
      (dir : Text) (d : Disk)
      → read_file d (path_of dir ca_key) ≡ none
      → load_authority dir d ≡ failed read_error
  unfolding load_authority
  load_authority-fails dir d h = elim (Option-cases (read_file d (path_of dir ca_crt))) [
    | inl e ↦ rw e refl
    | inr (_, e) ↦ rw (e, h) refl
  ]

  load_or_create_authority-fails :
      (now : ℕ) (dir : Text) (draw : Draw) (d : Disk)
      → IsHalfWritten dir d
      → load_or_create_authority now dir draw d ≡ (failed read_error, d)
  unfolding load_or_create_authority
  load_or_create_authority-fails now dir draw d (there, absent) =
      rw
        (
          ensure_pair-kept dir ca_crt ca_key (new_authority now draw) d there,
          load_authority-fails dir d absent,
        )
        refl

  ensure-fails :
      (data_dir : Text) (s : Start) (d : Disk)
      → IsHalfWritten (join data_dir (text "pki")) d
      → (e : PkiError) × (ensure s.now data_dir s.name s.ca_draw s.server_draw d
          ≡ (failed e, (mkdir_all (join data_dir (text "pki")) d).1))
  unfolding ensure
  ensure-fails data_dir s d half =
      let dir = join data_dir (text "pki") in
      let d1 = (mkdir_all dir d).1 in
      elim (Bool-cases (mkdir_all dir d).0) [
        | inl made ↦ (
          read_error,
          rw
              (
                made,
                load_or_create_authority-fails s.now dir s.ca_draw d1
                    (IsHalfWritten-mkdir_all dir d half),
              )
              refl,
        )
        | inr made ↦ (directory_error, rw made refl)
      ]

  restart-fails :
      (data_dir : Text) (starts : List Start) (s : Start) (d : Disk)
      → IsHalfWritten (join data_dir (text "pki")) d
      → (e : PkiError) × ((ensure s.now data_dir s.name s.ca_draw s.server_draw
            (restart data_dir starts d)).0
          ≡ failed e)
  unfolding restart
  restart-fails data_dir [] s d half =
      let (e, h) = ensure-fails data_dir s d half in (e, ap (λ r. r.0) h)
  restart-fails data_dir (first ∷ rest) s d half =
      let (e, h) = ensure-fails data_dir first d half in
      restart-fails data_dir rest s _ (
        subst (IsHalfWritten (join data_dir (text "pki"))) (sym (ap (λ r. r.1) h))
          (IsHalfWritten-mkdir_all (join data_dir (text "pki")) d half))

  -- When a first start has written the certificate of the authority and has stopped before it wrote
  -- the key, whatever starts of the host follow, the next one fails too.
  pub ensure_interrupted :
      (data_dir : Text) (cert : Bytes) (starts : List Start) (s : Start) (d : Disk)
      → read_file d (path_of (join data_dir (text "pki")) ca_key) ≡ none
      → (write_file (path_of (join data_dir (text "pki")) ca_crt) cert d).0 ≡ true
      → (e : PkiError) × ((ensure s.now data_dir s.name s.ca_draw s.server_draw (
            restart data_dir starts
              (write_file (path_of (join data_dir (text "pki")) ca_crt) cert d).1)).0
          ≡ failed e)
  ensure_interrupted data_dir cert starts s d absent wrote =
      restart-fails data_dir starts s _
        (write_file-IsHalfWritten (join data_dir (text "pki")) cert d absent wrote)
