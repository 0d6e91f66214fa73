-- ===== src/Agent/Loop/Reports.antt =====
-- The statuses that the agent sends over a connection.
use ulcer.Prelude.{
  ℕ, ◌≤◌, ◌≡◌, refl, none, some, Option, List, [], ◌∷◌, Text, Bool-cases, inl, inr, subst, sym,
  text_eq, arith,
}
use ulcer.Result.{Result, ok, err}
use ulcer.Model.{HostMessage, desired, meter_ack, notice, DesiredState}
use ulcer.Platform.{Platform, reads}
use ulcer.Agent.{
  StateCodec, RuntimeState, InstanceStatus, Outcome, answers, ignores, identity_mismatch, ends,
  load, apply, answer, status_of, receive, state_key,
}
use ulcer.Agent.Reconcile.{apply_lem}
use ulcer.Agent.Loop.{
  Failure, Waking, context_ends, heartbeats, receive_fails, closes, receives, Course, send_status,
  after_message, converse,
}

-- Statuses of one identity whose generations do not go back, from a number on.
abbrev pub IsForward : Text → ℕ → List InstanceStatus → Type 0
IsForward id n [] = Unit
IsForward id n (s ∷ ss) =
    (s.instance_id ≡ id) × (n ≤ s.applied_generation) × IsForward id s.applied_generation ss

from_lower :
    (id : Text) (m n : ℕ) (ss : List InstanceStatus) → m ≤ n → IsForward id n ss → IsForward id m ss
from_lower id m n [] le h = tt
from_lower id m n (s ∷ ss) le h = (h.0, ground arith, h.2)

module _ ⦃p : Platform⦄ ⦃c : StateCodec⦄ where
  open p use {Db, fault}

  pub status_of-load :
      (now : ℕ) (id : Text) (d : Db) (s : RuntimeState)
      → load now d ≡ ok s
      → status_of now id d
        ≡ ok (record {
          instance_id = id;
          applied_generation = s.applied_generation;
          spec_digest = s.spec_digest;
          phase = s.phase;
          reason = s.reason;
        })
  unfolding status_of
  status_of-load now id d s h = ground arith

  module _ (now : ℕ) (id : Text) (readable : (d : Db) → fault d (reads state_key) ≡ none) where
    -- What a message leaves: a state that has not gone back, which is the one that is reported.
    abbrev IsAnswered : ℕ → Outcome × Db → Type 0
    IsAnswered n (answers s, d) =
        (t : RuntimeState) × (load now d ≡ ok t)
        × (n ≤ t.applied_generation)
        × (s.instance_id ≡ id)
        × (s.applied_generation ≡ t.applied_generation)
    IsAnswered n (ignores, d) =
        (t : RuntimeState) × (load now d ≡ ok t) × (n ≤ t.applied_generation)
    IsAnswered n (identity_mismatch, d) = Unit
    IsAnswered n (ends _, d) = Unit

    answer-IsAnswered :
        (wanted : DesiredState) (s : RuntimeState) (d : Db) (r : Result RuntimeState × Db)
        → load now d ≡ ok s
        → apply now wanted d ≡ r
        → IsAnswered s.applied_generation (answer now id r)
    unfolding answer
    answer-IsAnswered wanted s d (err e, d') h q = tt
    answer-IsAnswered wanted s d (ok t, d') h q =
        let found = apply_lem now now wanted s t d d' h q in
        subst
          (λ x.
            IsAnswered s.applied_generation
              (elim x as (λ _. Outcome × Db) [ err e ↦ (ends e, d') | ok v ↦ (answers v, d') ]))
          (sym (status_of-load now id d' t (found.5 (readable d'))))
          (t, found.5 (readable d'), found.1, refl, refl)

    receive-IsAnswered :
        (m : HostMessage) (s : RuntimeState) (d : Db)
        → load now d ≡ ok s
        → IsAnswered s.applied_generation (receive now id m d)
    unfolding receive
    receive-IsAnswered (desired wanted) s d h = elim (Bool-cases (text_eq wanted.instance_id id)) [
      | inl e ↦ rw e (answer-IsAnswered wanted s d (apply now wanted d) h refl)
      | inr e ↦ rw e tt
    ]
    receive-IsAnswered (meter_ack i n) s d h = (s, h, ground arith)
    receive-IsAnswered (notice i n) s d h = (s, h, ground arith)

    after_message-IsForward :
        (n : ℕ) (q : Outcome × Db) (failure : Option Failure) (rest : Course)
        → IsAnswered n q
        → ((t : RuntimeState) → load now q.1 ≡ ok t → IsForward id t.applied_generation rest.sent)
        → IsForward id n (after_message q.0 failure q.1 rest).sent
    unfolding after_message send_status
    after_message-IsForward n (answers s, d) (some f) rest (t, _, _, _, _) more = tt
    after_message-IsForward n (answers s, d) none rest (t, loaded, le, own, same) more =
        (own, ground arith, subst (λ g. IsForward id g rest.sent) (sym same) (more t loaded))
    after_message-IsForward n (ignores, d) failure rest (t, loaded, le) more =
        from_lower id n t.applied_generation rest.sent le (more t loaded)
    after_message-IsForward n (identity_mismatch, d) failure rest a more = tt
    after_message-IsForward n (ends e, d) failure rest a more = tt

    -- Over one connection the generations that the agent reports do not go back, from the one that it
    -- has stored on, and every report is of its own identity, if its entry can be read.
    pub converse-IsForward :
        (ks : List Waking) (s : RuntimeState) (d : Db)
        → load now d ≡ ok s
        → IsForward id s.applied_generation (converse now id ks d).sent
    unfolding converse send_status
    converse-IsForward [] s d h = tt
    converse-IsForward (context_ends f ∷ ks) s d h = tt
    converse-IsForward (receive_fails o ∷ ks) s d h = tt
    converse-IsForward (closes how ∷ ks) s d h = tt
    converse-IsForward (heartbeats (some f) ∷ ks) s d h = rw (status_of-load now id d s h) tt
    converse-IsForward (heartbeats none ∷ ks) s d h =
        rw (status_of-load now id d s h) (refl, ground arith, converse-IsForward ks s d h)
    converse-IsForward (receives m failure ∷ ks) s d h =
        let q = receive now id m d in
        after_message-IsForward s.applied_generation q failure (converse now id ks q.1)
          (receive-IsAnswered m s d h) (λ t loaded. converse-IsForward ks t q.1 loaded)
