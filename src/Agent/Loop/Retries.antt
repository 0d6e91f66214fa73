-- ===== src/Agent/Loop/Retries.antt =====
-- When Run tries again, and after how long.
use ulcer.Prelude.{
  ℕ, zero, suc, ◌^◌, ◌≡◌, refl, ◌∙◌, true, false, none, some, ◌⊎◌, List, [], ◌∷◌, ◌++◌, arith, ltb,
  length, All, if◌then◌else◌, Bool-cases, inl, inr,
}
use ulcer.Agent.{next_backoff, backoff_after}
use ulcer.Agent.Reconcile.{backoff_after_lem}
use ulcer.Agent.Loop.{
  Attempt, unauthenticated, permission_denied, canceled, broken, identity_rejected, Standing,
  rejected, context_ended, retrying, verdict, Retrying, run_from, run,
}

-- An attempt that ends without an error, or with one that is neither a rejection nor
-- context.Canceled.
abbrev pub IsBroken : Attempt → Type 0
IsBroken a = (a.failure ≡ none) ⊎ (a.failure ≡ some broken)

-- Such an attempt, with a context that does not end in the wait after it.
abbrev pub IsRetried : Attempt → Type 0
IsRetried a = IsBroken a × (a.is_cancelled ≡ false)

-- The host has turned the identity away, with the code Unauthenticated or PermissionDenied.
abbrev pub IsTurnedAway : Attempt → Type 0
IsTurnedAway a = (a.failure ≡ some unauthenticated) ⊎ (a.failure ≡ some permission_denied)

-- The context has ended in the attempt or in the wait after it.
abbrev pub IsEnded : Attempt → Type 0
IsEnded a = (a.failure ≡ some canceled) ⊎ (IsBroken a × (a.is_cancelled ≡ true))

verdict-broken : (a : Attempt) → IsBroken a → verdict a.failure ≡ retrying
unfolding verdict identity_rejected
verdict-broken a (inl e) = rw e refl
verdict-broken a (inr e) = rw e refl

verdict-turned_away : (a : Attempt) → IsTurnedAway a → verdict a.failure ≡ rejected
unfolding verdict identity_rejected
verdict-turned_away a (inl e) = rw e refl
verdict-turned_away a (inr e) = rw e refl

verdict-canceled : (a : Attempt) → a.failure ≡ some canceled → verdict a.failure ≡ context_ended
unfolding verdict identity_rejected
verdict-canceled a e = rw e refl

-- The n-th power of two, but 32 seconds at most.
abbrev pub capped : ℕ → ℕ
capped n = if ltb n 5 then 2 ^ n else 32

abbrev pub waits_from : ℕ → ℕ → List ℕ
waits_from k zero = []
waits_from k (suc n) = capped k ∷ waits_from (suc k) n

capped-backoff_after : (k : ℕ) → backoff_after k ≡ capped k
capped-backoff_after k = elim (Bool-cases (ltb k 5)) [
  | inl e ↦ rw e ((backoff_after_lem k).0 (ground arith))
  | inr e ↦ rw e ((backoff_after_lem k).1 (ground arith))
]

abbrev waited : ℕ → Retrying → Retrying
waited b r = record r { waits = b ∷ r.waits }

run_from-retried :
    (b : ℕ) (a : Attempt) (as' : List Attempt)
    → IsRetried a
    → run_from b (a ∷ as') ≡ waited b (run_from (next_backoff b) as')
unfolding run_from
run_from-retried b a as' (how, still) = let go_on = verdict-broken a how in ground arith

run_from-retries :
    (k : ℕ) (as' : List Attempt)
    → All IsRetried as'
    → run_from (backoff_after k) as'
      ≡ record { standing = retrying; waits = waits_from k (length as') }
unfolding run_from backoff_after
run_from-retries k [] h = refl
run_from-retries k (a ∷ as') h =
    run_from-retried (backoff_after k) a as' h.0
    ∙ (λ i. waited (capped-backoff_after k i) (run_from-retries (suc k) as' h.1 i))

run_from-over :
    (k : ℕ) (as' bs : List Attempt) (a : Attempt) (standing : Standing)
    → All IsRetried as'
    → ((b : ℕ) → run_from b (a ∷ bs) ≡ record { standing = standing; waits = [] })
    → run_from (backoff_after k) (as' ++ a ∷ bs)
      ≡ record { standing = standing; waits = waits_from k (length as') }
unfolding run_from backoff_after
run_from-over k [] bs a standing h r = r (backoff_after k)
run_from-over k (b ∷ as') bs a standing h r =
    run_from-retried (backoff_after k) b (as' ++ a ∷ bs) h.0
    ∙ (λ i. waited (capped-backoff_after k i) (run_from-over (suc k) as' bs a standing h.1 r i))

run_from-turned_away :
    (b : ℕ) (a : Attempt) (bs : List Attempt)
    → IsTurnedAway a
    → run_from b (a ∷ bs) ≡ record { standing = rejected; waits = [] }
unfolding run_from
run_from-turned_away b a bs h = let ending = verdict-turned_away a h in ground arith

run_from-ended :
    (b : ℕ) (a : Attempt) (bs : List Attempt)
    → IsEnded a
    → run_from b (a ∷ bs) ≡ record { standing = context_ended; waits = [] }
unfolding run_from
run_from-ended b a bs (inl h) = let ending = verdict-canceled a h in ground arith
run_from-ended b a bs (inr (h, c)) = let going_on = verdict-broken a h in ground arith

-- After attempts that end without an error, or with one that is neither a rejection of the identity
-- nor context.Canceled, and whose contexts go on, Run tries again, each time after a wait that
-- doubles from one second to 32 seconds. An attempt after them that the host turns away, with
-- Unauthenticated or PermissionDenied, ends it as rejected, and one that ends with context.Canceled,
-- or in the wait after which the context ends, ends it with the error of the context, without
-- another wait or attempt.
pub run_lem :
    (as' bs : List Attempt) (a : Attempt)
    → All IsRetried as'
    → (run as' ≡ record { standing = retrying; waits = waits_from 0 (length as') })
      × (IsTurnedAway a
          → run (as' ++ a ∷ bs) ≡ record { standing = rejected; waits = waits_from 0 (length as') })
      × (IsEnded a
          → run (as' ++ a ∷ bs)
            ≡ record { standing = context_ended; waits = waits_from 0 (length as') })
unfolding run backoff_after
run_lem as' bs a h = (
  run_from-retries 0 as' h,
  λ r. run_from-over 0 as' bs a rejected h (λ b. run_from-turned_away b a bs r),
  λ r. run_from-over 0 as' bs a context_ended h (λ b. run_from-ended b a bs r),
)
