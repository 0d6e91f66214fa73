-- ===== src/Witnesses/Operator.antt =====
-- The operator's credentials, the login and the agent's state at concrete inputs.
use ulcer.Prelude.{
  ℕ, ◌≡◌, refl, ◌≢◌, ◌≤◌, ◌<◌, true, Text, text, Option, none, [], ◌∷◌, ◌⊎◌, arith, ltb, ◌+◌,
  trim_space, to_upper,
}
use ulcer.Result.{Result, ok}
use ulcer.Model.{DesiredState}
use ulcer.Samples.{sample_platform, sample_codec}
use ulcer.Samples.Keyed.{Cells}
use ulcer.Store.Words.{uint64, put_uint64}
use ulcer.Store.Txn.{live, set, set_uint64, delete, set_with_ttl}
use ulcer.Store.Operator.{
  complete_operator, enrol_operator, set_recovery_hashes, consume_totp_step, consume_recovery_code,
  code_key,
}
use ulcer.Store.Operator.Setup.{IsEnrolled, complete_operator-IsEnrolled, complete_operator_once}
use ulcer.Store.Operator.SingleUse.{consume_totp_step-lt, consume_recovery_code_once}
use ulcer.Store.Sessions.{session_valid}
use ulcer.Auth.{login, session_ttl}
use ulcer.Auth.Login.{Factor, login-session}
use ulcer.Agent.{RuntimeState, AgentSpec, load, apply, idle}
use ulcer.Agent.Reconcile.{apply_lem}

abbrev enrolled : Cells
enrolled = (complete_operator 100 (text "secret") 3 (text "A1" ∷ []) (text "token") 60 []).1

complete_operator-IsEnrolled_example :
    IsEnrolled (text "secret") 3 (text "A1" ∷ []) (text "token") (100 + 60) enrolled
unfolding complete_operator enrol_operator set set_uint64 delete set_recovery_hashes set_with_ttl
    live
complete_operator-IsEnrolled_example =
    complete_operator-IsEnrolled 100 (text "secret") 3 (text "A1" ∷ []) (text "token") 60 []
      enrolled refl

abbrev enrolled_again : Cells
enrolled_again = (complete_operator 200 (text "other") 9 [] (text "t2") 60 enrolled).1

complete_operator_once_example :
    complete_operator 200 (text "other") 9 [] (text "t2") 60 enrolled ≢ (ok tt, enrolled_again)
unfolding complete_operator enrol_operator set set_uint64 delete set_recovery_hashes set_with_ttl
    live
complete_operator_once_example =
    complete_operator_once 100 200 (text "secret") (text "other") 3 9 (text "A1" ∷ []) []
      (text "token") (text "t2") 60 60 [] enrolled enrolled_again refl

abbrev step_four : Cells
step_four = (consume_totp_step 120 4 enrolled).1

consume_totp_step-lt_example : 4 < 6
unfolding complete_operator enrol_operator set set_uint64 delete set_recovery_hashes set_with_ttl
    consume_totp_step live uint64 put_uint64
consume_totp_step-lt_example =
    consume_totp_step-lt 120 180 4 6 enrolled step_four (consume_totp_step 180 6 step_four).1
      (ground arith) refl refl

consume_recovery_code_once_example :
    consume_recovery_code 180 (text "A1") (consume_recovery_code 120 (text " a1") enrolled).1
    ≢ (ok true, [])
unfolding complete_operator enrol_operator set set_uint64 delete set_recovery_hashes set_with_ttl
    consume_recovery_code code_key live trim_space to_upper
consume_recovery_code_once_example =
    consume_recovery_code_once 120 180 (text " a1") (text "A1") enrolled
      (consume_recovery_code 120 (text " a1") enrolled).1 [] refl refl

abbrev clock : Text → ℕ → Result Text
clock secret at = ok (at ∷ [])

abbrev signed_in : Cells
signed_in = (login clock 150 (150 ∷ []) (ok (text "t3")) enrolled).1

abbrev no_fault : Option Text
no_fault = none

login-session_example :
    (text "t3" ≡ text "t3")
    × Factor clock 150 (150 ∷ []) (text "t3") enrolled signed_in
    × (no_fault ≡ none → session_valid 200 (text "t3") signed_in ≡ ok (ltb 200 (150 + session_ttl)))
unfolding complete_operator enrol_operator set set_uint64 delete set_recovery_hashes set_with_ttl
    login live uint64 put_uint64 trim_space
login-session_example =
    login-session clock 150 200 (150 ∷ []) (text "t3") (text "t3") enrolled signed_in
      (λ e. ground arith) refl

abbrev wanted : DesiredState
wanted = record {
  instance_id = text "r1";
  generation = 2;
  spec_digest = text "xray";
  canonical_spec = text "xray";
}

abbrev xray : AgentSpec
xray = record { engine = text "xray"; desired_phase = text "stopped" }

abbrev stopped : RuntimeState
stopped = record {
  applied_generation = 2;
  spec_digest = text "xray";
  phase = text "stopped";
  reason = [];
}

apply_lem_example :
    (stopped.applied_generation ≡ wanted.generation)
    × (idle.applied_generation ≤ stopped.applied_generation)
    × (text "xray" ≡ text "xray")
    × (text "xray" ≡ text "xray")
    × (idle.applied_generation ≡ stopped.applied_generation
        → (idle.spec_digest ≡ []) ⊎ (idle.spec_digest ≡ text "xray"))
    × (no_fault ≡ none → load 8 (apply 7 wanted []).1 ≡ ok stopped)
unfolding apply live
apply_lem_example = apply_lem 7 8 wanted idle stopped [] (apply 7 wanted []).1 refl refl
