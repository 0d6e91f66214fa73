-- ===== src/Result.antt =====
-- The errors that the packages return as values, and the chaining of fallible calls.
-- internal/store/store.go, internal/auth/auth.go and badger's ErrConflict; other texts are kept as
-- the name of the failure.
use ulcer.Prelude.{Text, Bool, true, false}

pub data Error : Type 0 where
  not_found already_configured conflict invalid_code : Error
  delta_is_nil traffic_overflow invalid_step invalid_uint64 : Error
  -- statusMessage rejected by the mutation of internal/control/server.go
  generation_exceeds digest_differs : Error
  -- desired state rejected by internal/instance/state.go
  generation_regressed digest_changed digest_mismatch : Error
  -- an error of badger, encoding/json, crypto/rand or the operating system
  platform : Text → Error

-- The pair of a value and an error that a call returns, of which one counts.
pub data Result {ℓ} (Value : Type ℓ) : Type ℓ where
  ok : Value → Result Value
  err : Error → Result Value

module _ {ℓ κ} {Value : Type ℓ} {Next : Type κ} where
  -- `if err != nil { return err }` after a call.
  infixl 5 ◌>>=◌
  abbrev pub ◌>>=◌ : Result Value → (Value → Result Next) → Result Next
  r >>= next = elim r [ err e ↦ err e | ok value ↦ next value ]

-- errors.Is(err, badger.ErrConflict) and errors.Is(err, store.ErrNotFound)
abbrev pub is_conflict : Error → Bool
is_conflict conflict = true
is_conflict _ = false

abbrev pub is_not_found : Error → Bool
is_not_found not_found = true
is_not_found _ = false

abbrev pub is_platform : Error → Bool
is_platform (platform _) = true
is_platform _ = false
