-- ===== src/SshInstall/Install/Failure.antt =====
-- A failed installation leaves no instance behind.
use ulcer.Prelude.{
  ◌≡◌, refl, ◌⊎◌, inl, inr, Bool, true, false, Option, none, some, ◌+◌, arith, sym, ap, subst,
  Bool-cases, ltb,
}
use ulcer.Result.{Result, Error, ok, err}
use ulcer.Model.{Instance}
use ulcer.Platform.{Platform}
use ulcer.Store.Instances.{put_instance, delete_instance}
use ulcer.Control.Server.{World}
use ulcer.Api.Machines.{new_instance}
use ulcer.SshInstall.Checks.{Net}
use ulcer.SshInstall.Remote.{Remote, Request}
use ulcer.SshInstall.Job.{InstallError, Outcome, done, failed, Site}
use ulcer.SshInstall.Enrolment.{
  Setting, settle, after_packages, deploy, enrol, after_put, meet, install_packages, rollback,
  fence, withdraw, after_deletion,
}
use ulcer.SshInstall.Enrolment.Rollback.{IsAbsent, rollback-IsAbsent}
use ulcer.SshInstall.Enrolment.Refused.{put_instance-IsAbsent}
use ulcer.SshInstall.Install.Lifting.{IsOf, in_slot_lem}
use ulcer.SshInstall.Install.{
  Surroundings, admitted, in_slot, install, leave_slot, refusal, install_slots,
}

module _ ⦃p : Platform⦄ ⦃net : Net⦄ ⦃remote : Remote⦄ where
  open p use {Db, entry, refusal as commit_refusal, later, encode_instance}
  open remote use {Machine, Client, Signer}

  -- What has failed after PutInstance, which left the site `started`: the packages, before anything
  -- on the server was touched, or the steps after them.
  abbrev pub FailsAfter : Setting → InstallError → Site → Bool → Site → Type 0
  FailsAfter g x started touched s =
      ((touched ≡ false) × (install_packages g started ≡ (failed x, s)))
      ⊎ ((touched ≡ true)
          × (packed : Site) × (install_packages g started ≡ (done tt, packed))
          × (deploy g packed ≡ (failed x, s)))

  -- The site after a PutInstance that has left the database `d`.
  abbrev pub put_site : Setting → Site → Db → Site
  put_site g before d = let s = meet g before in record s { world = record s.world { db = d } }

  -- The result of DeleteInstance in the deferred function, called at a site.
  abbrev pub deletion : Setting → Bool → Site → Result Instance
  deletion g touched s =
      let s1 = (fence g touched s).0 in
      (delete_instance (remote.now s1.machine) g.id (meet g s1).world.db).0

  after_deletion-eq-err :
      (g : Setting) (q : Result Instance) (s : Site) {error : Error}
      → (after_deletion g q s).0 ≡ err error
      → q ≡ err error
  unfolding after_deletion
  after_deletion-eq-err g (ok i) s h = absurd (ground arith)
  after_deletion-eq-err g (err f) s h = h

  rollback-eq-err :
      (g : Setting) (touched : Bool) (s : Site) {error : Error}
      → (rollback g touched s).0 ≡ err error
      → deletion g touched s ≡ err error
  unfolding rollback withdraw
  rollback-eq-err g touched s h =
      let s1 = (fence g touched s).0 in
      let q = delete_instance (remote.now s1.machine) g.id (meet g s1).world.db in
      let s2 = meet g s1 in
      after_deletion-eq-err g q.0 (record s2 { world = record s2.world { db = q.1 } }) h

  module _ (e : Surroundings) (r : Request) (initial : World) where
    -- An installation of the request that begins in the world `initial`, has enrolled its instance
    -- and fails, with the error `x`, at the site `s`.
    pub record IsFailing (g : Setting) (x : InstallError) (touched : Bool) (s : Site) : Type 0 where
      pub is_of : IsOf e r g
      pub before : Site
      pub begins : before.world ≡ initial
      pub db : Db
      pub puts :
          put_instance
            (new_instance (remote.now before.machine) g.id g.name)
            (meet g before).world.db
          ≡ (ok tt, db)
      pub fails_after : FailsAfter g x (put_site g before db) touched s

    -- How such a failure leaves the world: without a record of the instance, or as the deferred
    -- function does, called where the installation has failed, if its DeleteInstance fails.
    abbrev pub IsCleanAt : InstallError → World → Type 0
    IsCleanAt x w =
        IsAbsent e.id w.db
        ⊎ ((g : Setting) × (touched : Bool) × (s : Site) × (error : Error) × IsFailing g x touched s
            × (deletion g touched s ≡ err error)
            × (w ≡ (rollback g touched s).1.world))

    abbrev pub IsClean : Outcome Instance × Site → Type 0
    IsClean (done _, s) = Unit
    IsClean (failed x, s) = IsCleanAt x s.world

  module _ (e : Surroundings) (r : Request) (initial : World)
      (others-keep : (m : Machine) (w : World)
        → IsAbsent e.id w.db
        → IsAbsent e.id (e.others m w).db)
      (later-keeps : (c : Db) → IsAbsent e.id c → IsAbsent e.id (later c))
      (absent : IsAbsent e.id initial.db) where
    module _ (g : Setting) (of : IsOf e r g) where
      rolled_back :
          (x : InstallError) (touched : Bool) (s : Site) (q : Result Instance)
          → IsFailing e r initial g x touched s
          → (rollback g touched s).0 ≡ q
          → IsCleanAt e r initial x (rollback g touched s).1.world
      rolled_back x touched s (ok i) f q = inl (
          subst (λ j. IsAbsent j (rollback g touched s).1.world.db) of.0
            (rollback-IsAbsent g
              (subst
                (λ o. (m : Machine) (w : World) → IsAbsent g.id w.db → IsAbsent g.id (o m w).db)
                (sym of.2)
                (subst
                  (λ j. (m : Machine) (w : World) → IsAbsent j w.db → IsAbsent j (e.others m w).db)
                  (sym of.0) others-keep))
              (subst (λ j. (c : Db) → IsAbsent j c → IsAbsent j (later c)) (sym of.0) later-keeps)
              touched s i q))
      rolled_back x touched s (err error) f q =
          inr (g, touched, s, error, f, rollback-eq-err g touched s q, refl)

      settle-IsClean :
          (touched : Bool) (o : Outcome Instance × Site)
          → ((x : InstallError) (s : Site)
              → o ≡ (failed x, s)
              → IsFailing e r initial g x touched s)
          → IsClean e r initial (settle g touched o)
      unfolding settle
      settle-IsClean touched (done i, s) f = tt
      settle-IsClean touched (failed x, s) f =
          rolled_back x touched s (rollback g touched s).0 (f x s refl) refl

      module _ (before : Site) (begins : before.world ≡ initial) where
        abbrev new_record : Instance
        new_record = new_instance (remote.now before.machine) g.id g.name

        failing :
            (d : Db) (x : InstallError) (touched : Bool) (s : Site)
            → put_instance new_record (meet g before).world.db ≡ (ok tt, d)
            → FailsAfter g x (put_site g before d) touched s
            → IsFailing e r initial g x touched s
        failing d x touched s q h = record {
          is_of = of;
          before = before;
          begins = begins;
          db = d;
          puts = q;
          fails_after = h;
        }

        after_packages-IsClean :
            (d : Db) (o : Outcome (Unit {0}) × Site)
            → put_instance new_record (meet g before).world.db ≡ (ok tt, d)
            → install_packages g (put_site g before d) ≡ o
            → IsClean e r initial (after_packages g o)
        unfolding after_packages settle
        after_packages-IsClean d (done _, s) q h =
            settle-IsClean true (deploy g s) (λ x s' k. failing d x true s' q (inr (refl, s, h, k)))
        after_packages-IsClean d (failed x, s) q h =
            rolled_back x false s (rollback g false s).0 (failing d x false s q (inl (refl, h)))
              refl

        not_put :
            (d : Db) (f : Error)
            → put_instance new_record (meet g before).world.db ≡ (err f, d)
            → IsAbsent e.id d
        not_put d f q =
            subst (λ o. IsAbsent e.id o.1) q
              (put_instance-IsAbsent e.id later-keeps new_record (meet g before).world.db
                (ap (λ o. o.0) q)
                (subst (λ o. IsAbsent e.id (o before.machine before.world).db) (sym of.2)
                  (others-keep before.machine before.world
                    (subst (λ w. IsAbsent e.id w.db) (sym begins) absent))))

        after_put-IsClean :
            (q : Result (Unit {0}) × Db)
            → put_instance new_record (meet g before).world.db ≡ q
            → IsClean e r initial (after_put g q.0 (put_site g before q.1))
        unfolding after_put
        after_put-IsClean (ok x, d) h =
            after_packages-IsClean d (install_packages g (put_site g before d)) h refl
        after_put-IsClean (err f, d) h = inl (not_put d f h)

        enrol-IsClean : IsClean e r initial (enrol g before)
        unfolding enrol
        enrol-IsClean = after_put-IsClean (put_instance new_record (meet g before).world.db) refl

    in_slot-IsClean : (s : Site) → s.world ≡ initial → IsClean e r initial (in_slot e r s)
    in_slot-IsClean =
        in_slot_lem e r (λ s. s.world ≡ initial) (IsClean e r initial) (λ s m h. h)
          (λ x s h. inl (subst (λ w. IsAbsent e.id w.db) (sym h) absent))
          (λ g s of h. enrol-IsClean g of s h)

    leave_slot-IsClean :
        (o : Outcome Instance × Site) → IsClean e r initial o → IsClean e r initial (leave_slot o)
    leave_slot-IsClean (done i, s) h = tt
    leave_slot-IsClean (failed x, s) h = h

    admitted-IsClean :
        (o : Option InstallError) (s : Site)
        → s.world ≡ initial
        → IsClean e r initial (admitted e r o s)
    unfolding admitted
    admitted-IsClean (some x) s h = inl (subst (λ w. IsAbsent e.id w.db) (sym h) absent)
    admitted-IsClean none s h = elim (Bool-cases (ltb s.slots install_slots)) [
      | inl l ↦
          let s1 = record s { slots = s.slots + 1 } in
          rw l (leave_slot-IsClean (in_slot e r s1) (in_slot-IsClean s1 h))
      | inr l ↦ rw l (inl (subst (λ w. IsAbsent e.id w.db) (sym h) absent))
    ]

  -- If an installation fails, there is no record of its instance, its identity being a new one and
  -- the others, also those that commit before a transaction that conflicts, writing no record of
  -- it. Or else this installation had stored the record and failed after it, its deferred function
  -- has run where it failed and has left the world as it is, and the DeleteInstance in it failed.
  pub install-IsClean :
      (e : Surroundings) (r : Request)
      → ((m : Machine) (w : World) → IsAbsent e.id w.db → IsAbsent e.id (e.others m w).db)
      → ((c : Db) → IsAbsent e.id c → IsAbsent e.id (later c))
      → (s : Site) → IsAbsent e.id s.world.db
      → IsClean e r s.world (install e r s)
  unfolding install
  install-IsClean e r others-keep later-keeps s absent =
      admitted-IsClean e r s.world others-keep later-keeps absent (refusal e r) s refl
