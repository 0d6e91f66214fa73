-- ===== src/SshInstall/Job.antt =====
-- internal/sshinstall/install.go: the errors of an installation, and its sequence of steps.
use ulcer.Prelude.{ℕ, Bool, if◌then◌else◌}
use ulcer.Platform.{Platform}
use ulcer.Control.Server.{World}
use ulcer.SshInstall.Checks.{Net}
use ulcer.SshInstall.Remote.{Remote}

-- The errors of the package; `err_invalid_name` is that of model.ValidateInstanceName.
pub data InstallError : Type 0 where
  err_unavailable err_invalid_name err_invalid_user err_invalid_host_key err_busy err_invalid_auth
        err_invalid_target err_target_blocked err_host_key_mismatch err_connect err_preflight
        err_install err_online :
      InstallError

pub data Outcome {ℓ} (A : Type ℓ) : Type ℓ where
  done : A → Outcome A
  failed : InstallError → Outcome A

module _ ⦃p : Platform⦄ ⦃net : Net⦄ ⦃remote : Remote⦄ where
  open net use {Addr}
  open remote use {Machine, Client, Signer, is_ended, now, tick}

  -- The slots in use stand beside the state that the goroutines share.
  pub record Site : Type 0 where
    pub world : World
    pub slots : ℕ
    pub machine : Machine

  abbrev pub Job {ℓ} : Type ℓ → Type ℓ
  Job A = Site → Outcome A × Site

  infixl 5 ◌>>=◌ ◌>>◌
  abbrev pub ◌>>=◌ {ℓ κ} : {A : Type ℓ} {B : Type κ} → Job A → (A → Job B) → Job B
  ◌>>=◌ m f s = let (o, s') = m s in elim o [ failed e ↦ (failed e, s') | done a ↦ f a s' ]

  abbrev pub ◌>>◌ {ℓ κ} : {A : Type ℓ} {B : Type κ} → Job A → Job B → Job B
  m >> k = m >>= λ _. k

  -- A call on the remote side, whose failure ends the installation with an error.
  abbrev pub must : InstallError → (Machine → Bool × Machine) → Job (Unit {0})
  must e f s =
      let (succeeded, m) = f s.machine in
      (if succeeded then done tt else failed e, record s { machine = m })
