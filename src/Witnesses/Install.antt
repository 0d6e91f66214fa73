-- ===== src/Witnesses/Install.antt =====
-- The installation at concrete inputs.
use ulcer.Prelude.{◌≡◌, refl, ◌⊎◌, Bool, true, false, text}
use ulcer.Samples.{sample_platform}
use ulcer.Samples.Net.{sample_net}
use ulcer.Samples.Server.{sample_remote, identity, surroundings, request, site}
use ulcer.Control.Hub.{activate, reserve, new_hub}
use ulcer.Store.Txn.{live}
use ulcer.Store.Words.{uint64, put_uint64}
use ulcer.Store.Keys.{event_key}
use ulcer.SshInstall.Job.{Outcome, done, failed}
use ulcer.SshInstall.Install.{install}
use ulcer.SshInstall.Install.Failure.{IsClean, install-IsClean}
use ulcer.SshInstall.Install.Success.{IsStarted, install-IsStarted}
use ulcer.SshInstall.Install.Reach.{IsReached, install-IsReached}

abbrev is_done {ℓ κ} : {A : Type ℓ} {B : Type κ} → Outcome A × B → Bool
is_done (done _, s) = true
is_done (failed _, s) = false

install-succeeds : is_done (install surroundings request (site 5)) ≡ true
unfolding install activate reserve new_hub live uint64 put_uint64 event_key
install-succeeds = refl

install-fails : is_done (install surroundings request (site 100)) ≡ false
unfolding install
install-fails = refl

install-IsStarted_example : IsStarted identity (text "eu-1") (install surroundings request (site 5))
install-IsStarted_example = install-IsStarted surroundings request (site 5)

install-IsClean_example :
    IsClean surroundings request (site 100).world (install surroundings request (site 100))
install-IsClean_example =
    install-IsClean surroundings request (λ m w h. h) (λ c h. h) (site 100) refl

install-IsReached_example :
    ((install surroundings request (site 100)).1 ≡ site 100)
    ⊎ IsReached surroundings request (site 100)
install-IsReached_example = install-IsReached surroundings request (site 100)
