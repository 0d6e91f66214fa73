-- ===== src/SshInstall/Install/Success.antt =====
-- What a successful installation has seen, and the slots of all of them.
use ulcer.Prelude.{
  ℕ, ◌≡◌, refl, inl, inr, Bool, true, false, Text, Option, none, some, [], ◌∷◌, text, ◌+◌, subst,
  Bool-cases, ltb,
}
use ulcer.Result.{Result, ok, err}
use ulcer.Model.{Instance, label}
use ulcer.Platform.{Platform}
use ulcer.Store.Instances.{instance, put_instance}
use ulcer.Control.Hub.{if_online}
use ulcer.Control.Server.{World}
use ulcer.Api.Machines.{new_instance}
use ulcer.SshInstall.Checks.{Net}
use ulcer.SshInstall.Remote.{Remote, Request}
use ulcer.SshInstall.Job.{InstallError, Outcome, done, failed, Site}
use ulcer.SshInstall.Enrolment.{
  Setting, publish, settle, after_packages, after_put, deploy, start_agent, finish, finish_with,
  enrol, meet, install_packages,
}
use ulcer.SshInstall.Install.{
  Surroundings, in_slot, install, admitted, leave_slot, refusal, install_slots,
}
use ulcer.SshInstall.Install.Lifting.{in_slot_lem}

module _ ⦃p : Platform⦄ ⦃net : Net⦄ ⦃remote : Remote⦄ where
  -- The end of a success: the instance was online and its record was found, in one step of the hub,
  -- in which the success was published.
  abbrev pub IsStarted : Text → Text → Outcome Instance × Site → Type 0
  IsStarted id name (failed x, s) = Unit
  IsStarted id name (done i, s) =
      (t : ℕ) × (u : ℕ) × (w : World) × (if_online id w.hub ≡ true)
      × (instance t id w.db ≡ ok i)
      × (s.world
          ≡ publish u (text "instance.ssh_install.succeeded") id ((text "name", label name) ∷ []) w)

  module _ (g : Setting) where
    finish_with-IsStarted :
        (t : ℕ) (s : Site) (r : Result Instance)
        → if_online g.id s.world.hub ≡ true
        → instance t g.id s.world.db ≡ r
        → IsStarted g.id g.name (finish_with g r s)
    unfolding finish_with
    finish_with-IsStarted t s (ok i) up found = (t, remote.now s.machine, s.world, up, found, refl)
    finish_with-IsStarted t s (err e) up found = tt

    finish-IsStarted : (s : Site) → IsStarted g.id g.name (finish g s)
    unfolding finish
    finish-IsStarted s =
        let s1 = meet g s in
        elim (Bool-cases (if_online g.id s1.world.hub)) [
          | inl up ↦ rw up (
              finish_with-IsStarted (remote.now s.machine) s1
                (instance (remote.now s.machine) g.id s1.world.db) up refl)
          | inr down ↦ rw down tt
        ]

    started :
        (o : Outcome (Unit {0}) × Site)
        → IsStarted g.id g.name (elim o.0 as (λ _. Outcome Instance × Site) [
          | failed x ↦ (failed x, o.1)
          | done _ ↦ finish g o.1
        ])
    started (failed x, s) = tt
    started (done _, s) = finish-IsStarted s

    settle-IsStarted :
        (touched : Bool) (o : Outcome Instance × Site)
        → IsStarted g.id g.name o
        → IsStarted g.id g.name (settle g touched o)
    unfolding settle
    settle-IsStarted touched (done i, s) h = h
    settle-IsStarted touched (failed x, s) h = tt

    after_packages-IsStarted :
        (o : Outcome (Unit {0}) × Site) → IsStarted g.id g.name (after_packages g o)
    unfolding after_packages deploy
    after_packages-IsStarted (failed x, s) = settle-IsStarted false (failed x, s) tt
    after_packages-IsStarted (done _, s) =
        settle-IsStarted true (deploy g s) (started (start_agent g s))

    after_put-IsStarted :
        (o : Result (Unit {0})) (s : Site) → IsStarted g.id g.name (after_put g o s)
    unfolding after_put
    after_put-IsStarted (err x) s = tt
    after_put-IsStarted (ok _) s = after_packages-IsStarted (install_packages g s)

    enrol-IsStarted : (s : Site) → IsStarted g.id g.name (enrol g s)
    unfolding enrol
    enrol-IsStarted s =
        let s1 = meet g s in
        let (q, d) = put_instance (new_instance (remote.now s.machine) g.id g.name) s1.world.db in
        after_put-IsStarted q (record s1 { world = record s1.world { db = d } })

  module _ (e : Surroundings) (r : Request) where
    in_slot-IsStarted : (s : Site) → IsStarted e.id r.name (in_slot e r s)
    in_slot-IsStarted s =
        in_slot_lem e r (λ _. Unit {0}) (IsStarted e.id r.name) (λ s m h. tt) (λ x s h. tt)
          (λ g s of h.
            subst (λ j. IsStarted j r.name (enrol g s)) of.0
              (subst (λ n. IsStarted g.id n (enrol g s)) of.1 (enrol-IsStarted g s)))
          s tt

    leave_slot-IsStarted :
        (o : Outcome Instance × Site)
        → IsStarted e.id r.name o
        → IsStarted e.id r.name (leave_slot o)
    leave_slot-IsStarted (done i, s) h = h
    leave_slot-IsStarted (failed x, s) h = tt

    admitted-IsStarted :
        (o : Option InstallError) (s : Site) → IsStarted e.id r.name (admitted e r o s)
    unfolding admitted
    admitted-IsStarted (some x) s = tt
    admitted-IsStarted none s = elim (Bool-cases (ltb s.slots install_slots)) [
      | inl l ↦
          let s1 = record s { slots = s.slots + 1 } in
          rw l (leave_slot-IsStarted (in_slot e r s1) (in_slot-IsStarted s1))
      | inr l ↦ rw l tt
    ]

    -- An installation that succeeds has, in one step of the hub, found the instance online and not
    -- under revocation, read the record that it returns, and published the success; nothing of the
    -- shared state is changed after that.
    pub install-IsStarted : (s : Site) → IsStarted e.id r.name (install e r s)
    unfolding install
    install-IsStarted s = admitted-IsStarted (refusal e r) s
