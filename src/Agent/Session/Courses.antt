-- ===== src/Agent/Session/Courses.antt =====
-- The statuses that the agent sends over one connection, and the state that it leaves.
use ulcer.Prelude.{
  ℕ, ◌≤◌, ◌≡◌, refl, none, some, Option, List, [], ◌∷◌, ◌++◌, Text, Bool-cases, inl, inr, subst,
  sym, ap, ◌∙◌, text_eq, arith,
}
use ulcer.Result.{Result, Error, ok, err}
use ulcer.Model.{HostMessage, desired, meter_ack, notice, DesiredState}
use ulcer.Platform.{Platform, reads}
use ulcer.Store.Txn.{Txn, update, finish}
use ulcer.Agent.{
  StateCodec, AgentSpec, RuntimeState, InstanceStatus, Outcome, answers, ignores, identity_mismatch,
  ends, load, apply, store_state, answer, receive, state_key, reconciled,
}
use ulcer.Agent.Reconcile.{apply_lem}
use ulcer.Agent.Loop.{
  Failure, Waking, context_ends, heartbeats, receive_fails, closes, receives, Course, send_status,
  after_message, converse,
}
use ulcer.Agent.Loop.Reports.{status_of-load}

-- Statuses of one identity whose generations go up from one number to another.
abbrev pub IsBetween : Text → ℕ → List InstanceStatus → ℕ → Type 0
IsBetween id n [] m = n ≤ m
IsBetween id n (s ∷ ss) m =
    (s.instance_id ≡ id) × (n ≤ s.applied_generation) × IsBetween id s.applied_generation ss m

pub IsBetween-lower :
    (id : Text) (k n m : ℕ) (ss : List InstanceStatus)
    → k ≤ n
    → IsBetween id n ss m
    → IsBetween id k ss m
IsBetween-lower id k n m [] le h = ground arith
IsBetween-lower id k n m (s ∷ ss) le h = (h.0, ground arith, h.2)

pub IsBetween-append :
    (id : Text) (n m k : ℕ) (ss ts : List InstanceStatus)
    → IsBetween id n ss m
    → IsBetween id m ts k
    → IsBetween id n (ss ++ ts) k
IsBetween-append id n m k [] ts h g = IsBetween-lower id n m k ts h g
IsBetween-append id n m k (s ∷ ss) ts h g =
    (h.0, h.1, IsBetween-append id s.applied_generation m k ss ts h.2 g)

module _ ⦃p : Platform⦄ ⦃c : StateCodec⦄ where
  open p use {Db, fault, refusal, later}

  -- What is refused leaves the database as it was, if no other transaction commits.
  update-eq-err {ℓ} :
      {A : Type ℓ} (m : Txn A) (d : Db) (e : Error) (d' : Db)
      → later d ≡ d
      → update m d ≡ (err e, d')
      → d' ≡ d
  unfolding update finish
  update-eq-err m d e d' alone h = ground arith

  store_state-eq-err :
      (s : RuntimeState) (d : Db) (e : Error) (d' : Db)
      → later d ≡ d
      → store_state s d ≡ (err e, d')
      → d' ≡ d
  unfolding store_state update finish
  store_state-eq-err s d e d' alone h = ground arith

  apply-eq-err :
      (now : ℕ) (wanted : DesiredState) (d : Db) (e : Error) (d' : Db)
      → later d ≡ d
      → apply now wanted d ≡ (err e, d')
      → d' ≡ d
  unfolding apply
  apply-eq-err now wanted d e d' alone h =
      ground (arith, λ (spec : AgentSpec). store_state-eq-err (reconciled wanted spec) d e d' alone)

  module _ (now : ℕ) (id : Text) (readable : (d : Db) → fault d (reads state_key) ≡ none)
      (alone : (d : Db) → later d ≡ d) where
    -- What a message leaves: a state that has not gone back, which is the one that is reported.
    abbrev IsKept : ℕ → Outcome × Db → Type 0
    IsKept n (o, d) =
        (t : RuntimeState) × (load now d ≡ ok t)
        × (n ≤ t.applied_generation)
        × ((s : InstanceStatus)
            → o ≡ answers s
            → (s.instance_id ≡ id) × (s.applied_generation ≡ t.applied_generation))

    answer-IsKept :
        (wanted : DesiredState) (s : RuntimeState) (d : Db) (r : Result RuntimeState × Db)
        → load now d ≡ ok s
        → apply now wanted d ≡ r
        → IsKept s.applied_generation (answer now id r)
    unfolding answer
    answer-IsKept wanted s d (err e, d') h q = (
      s,
      ap (load now) (apply-eq-err now wanted d e d' (alone d) q) ∙ h,
      ground arith,
      λ t x. absurd (ground arith),
    )
    answer-IsKept wanted s d (ok t, d') h q =
        let found = apply_lem now now wanted s t d d' h q in
        subst
          (λ x.
            IsKept s.applied_generation
              (elim x as (λ _. Outcome × Db) [ err e ↦ (ends e, d') | ok v ↦ (answers v, d') ]))
          (sym (status_of-load now id d' t (found.5 (readable d'))))
          (t, found.5 (readable d'), found.1, λ u x. ground arith)

    receive-IsKept :
        (m : HostMessage) (s : RuntimeState) (d : Db)
        → load now d ≡ ok s
        → IsKept s.applied_generation (receive now id m d)
    unfolding receive
    receive-IsKept (desired wanted) s d h = elim (Bool-cases (text_eq wanted.instance_id id)) [
      | inl e ↦ rw e (answer-IsKept wanted s d (apply now wanted d) h refl)
      | inr e ↦ rw e (s, h, ground arith, λ t x. absurd (ground arith))
    ]
    receive-IsKept (meter_ack i n) s d h = (s, h, ground arith, λ t x. absurd (ground arith))
    receive-IsKept (notice i n) s d h = (s, h, ground arith, λ t x. absurd (ground arith))

    -- A course that leads from one state to a later one, through the statuses in between.
    abbrev pub IsCourse : ℕ → Course → Type 0
    IsCourse n k =
        (t : RuntimeState) × (load now k.db ≡ ok t) × IsBetween id n k.sent t.applied_generation

    after_message-IsCourse :
        (n : ℕ) (o : Outcome) (d : Db) (failure : Option Failure) (rest : Course)
        → IsKept n (o, d)
        → ((t : RuntimeState) → load now d ≡ ok t → IsCourse t.applied_generation rest)
        → IsCourse n (after_message o failure d rest)
    unfolding after_message send_status
    after_message-IsCourse n (answers s) d (some f) rest (t, h, le, own) more = (t, h, le)
    after_message-IsCourse n (answers s) d none rest (t, h, le, own) more =
        let (u, g, b) = more t h in
        let (same, level) = own s refl in
        (
          u,
          g,
          (
            same,
            ground arith,
            subst (λ k. IsBetween id k rest.sent u.applied_generation) (sym level) b,
          ),
        )
    after_message-IsCourse n ignores d failure rest (t, h, le, own) more =
        let (u, g, b) = more t h in
        (u, g, IsBetween-lower id n t.applied_generation u.applied_generation rest.sent le b)
    after_message-IsCourse n identity_mismatch d failure rest (t, h, le, own) more = (t, h, le)
    after_message-IsCourse n (ends e) d failure rest (t, h, le, own) more = (t, h, le)

    pub converse-IsCourse :
        (ks : List Waking) (s : RuntimeState) (d : Db)
        → load now d ≡ ok s
        → IsCourse s.applied_generation (converse now id ks d)
    unfolding converse send_status
    converse-IsCourse [] s d h = (s, h, ground arith)
    converse-IsCourse (context_ends f ∷ ks) s d h = (s, h, ground arith)
    converse-IsCourse (receive_fails o ∷ ks) s d h = (s, h, ground arith)
    converse-IsCourse (closes how ∷ ks) s d h = (s, h, ground arith)
    converse-IsCourse (heartbeats (some f) ∷ ks) s d h =
        rw (status_of-load now id d s h) (s, h, ground arith)
    converse-IsCourse (heartbeats none ∷ ks) s d h =
        let (u, g, b) = converse-IsCourse ks s d h in
        rw (status_of-load now id d s h) (u, g, (refl, ground arith, b))
    converse-IsCourse (receives m failure ∷ ks) s d h =
        let q = receive now id m d in
        after_message-IsCourse s.applied_generation q.0 q.1 failure (converse now id ks q.1)
          (receive-IsKept m s d h) (λ t loaded. converse-IsCourse ks t q.1 loaded)
