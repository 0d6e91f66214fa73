-- ===== src/Auth/Window.antt =====
-- MatchTOTPStep: which steps a code may belong to.
use ulcer.Prelude.{
  ℕ, zero, suc, ◌+◌, ◌*◌, ◌/◌, ◌≤◌, ◌≡◌, Text, some, List, [], ◌∷◌, arith, text_eq_iff, trim_space,
  any, ◌==◌, true,
}
use ulcer.Result.{Result, ok, err}
use ulcer.Auth.{period, steps_around, first_match, match_totp_step}

value : Result Text → Text
value (ok t) = t
value (err _) = []

first_match-eq-some :
    (generate : ℕ → Result Text) (code : Text) (steps : List ℕ) (step : ℕ)
    → first_match generate code steps ≡ some step
    → (any (λ s. s == step) steps ≡ true) × (generate (step * period) ≡ ok (trim_space code))
unfolding first_match value
first_match-eq-some generate code [] step h = ground arith
first_match-eq-some generate code (s ∷ steps) step h = ground (
  arith,
  first_match-eq-some generate code steps step,
  text_eq_iff (value (generate (s * period))) (trim_space code),
)

steps_around-near :
    (c step : ℕ) → any (λ s. s == step) (steps_around c) ≡ true → (c ≤ step + 1) × (step ≤ c + 1)
unfolding steps_around
steps_around-near zero step h = ground arith
steps_around-near (suc c) step h = ground arith

-- A code is accepted for the current step of 30 seconds or a neighbour of it only, and is then
-- the code of that step but for spaces around it.
pub match_totp_step_window :
    (totp : Text → ℕ → Result Text) (secret code : Text) (now step : ℕ)
    → match_totp_step totp secret code now ≡ some step
    → (now / period ≤ step + 1)
      × (step ≤ now / period + 1)
      × (totp secret (step * period) ≡ ok (trim_space code))
unfolding match_totp_step
match_totp_step_window totp secret code now step h =
    let (around, same) =
      first_match-eq-some (totp secret) code (steps_around (now / period)) step h in
    let near = steps_around-near (now / period) step around in (near.0, near.1, same)
