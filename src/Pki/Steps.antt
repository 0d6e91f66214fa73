-- ===== src/Pki/Steps.antt =====
-- What a result that is not an error says of the steps that gave it.
use ulcer.Prelude.{◌≡◌, refl, ap, Bool, true, false, Option, none, some, arith, if◌then◌else◌}
use ulcer.Pki.Outside.{Parts}
use ulcer.Pki.{PkiError, Issue, done, failed, ◌>>=◌, or_fail, then_on}

module _ ⦃parts : Parts⦄ where
  open parts use {Disk}

  pub then_on-eq-done {ℓ κ} :
      {A : Type ℓ} {B : Type κ} (r : Issue A × Disk) (f : A → Disk → Issue B × Disk) {b : B}
      {d' : Disk}
      → then_on r f ≡ (done b, d')
      → (a : A) × (r ≡ (done a, r.1)) × (f a r.1 ≡ (done b, d'))
  then_on-eq-done (done a, d) f h = (a, refl, h)
  then_on-eq-done (failed e, d) f h = absurd (ground arith)

  pub done-inj {ℓ} : {A : Type ℓ} {a b : A} → done a ≡ done b → a ≡ b
  done-inj h = ground arith

  pub bind-eq-done {ℓ κ} :
      {A : Type ℓ} {B : Type κ} (m : Issue A) (f : A → Issue B) {b : B}
      → m >>= f ≡ done b
      → (a : A) × (m ≡ done a) × (f a ≡ done b)
  bind-eq-done (done a) f h = (a, refl, h)
  bind-eq-done (failed e) f h = absurd (ground arith)

  pub if-eq-done {ℓ} :
      {A : Type ℓ} (b : Bool) (x : Issue A × Disk) (e : PkiError) (a : A) (d d' : Disk)
      → (if b then x else (failed e, d)) ≡ (done a, d')
      → x ≡ (done a, d')
  if-eq-done true x e a d d' h = h
  if-eq-done false x e a d d' h = absurd (ground arith)

  pub some-inj {ℓ} : {A : Type ℓ} {a b : A} → some a ≡ some b → a ≡ b
  some-inj h = ground arith

  pub or_fail-eq-done {ℓ} :
      {A : Type ℓ} (e : _) (o : Option A) {a : A} → or_fail e o ≡ done a → o ≡ some a
  or_fail-eq-done e none h = absurd (ground arith)
  or_fail-eq-done e (some b) h = ap some (done-inj h)
