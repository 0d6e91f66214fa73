-- ===== src/Witnesses/AgentLoop.antt =====
-- The loops of the agent at concrete inputs.
use ulcer.Prelude.{ℕ, ◌≡◌, refl, Text, text, none, some, inr, [], ◌∷◌, false, List, All}
use ulcer.Model.{DesiredState, desired, meter_ack}
use ulcer.Samples.{sample_platform, sample_codec}
use ulcer.Result.{ok}
use ulcer.Config.{Instance}
use ulcer.Agent.{idle, load, RuntimeState}
use ulcer.Agent.Session.{Session, run_sessions}
use ulcer.Agent.Session.Courses.{IsBetween}
use ulcer.Agent.Session.Reports.{run_sessions_lem}
use ulcer.Agent.Loop.{
  broken, permission_denied, Waking, heartbeats, receives, Attempt, run, rejected, retrying,
  context_ended,
}
use ulcer.Agent.Loop.Retries.{IsTurnedAway, IsEnded, run_lem}
use ulcer.Store.Txn.{live}

abbrev wanted : ℕ → Text → DesiredState
wanted n digest = record {
  instance_id = text "r1";
  generation = n;
  spec_digest = digest;
  canonical_spec = digest;
}

-- Two desired states, and then one that goes back, which ends the connection.
abbrev rounds : List Waking
rounds =
    heartbeats none
    ∷ receives (desired (wanted 2 (text "a"))) none
    ∷ receives (meter_ack (text "r1") 4) none
    ∷ receives (desired (wanted 3 (text "b"))) none
    ∷ receives (desired (wanted 1 (text "a"))) none
    ∷ []

abbrev broken_once : Attempt
broken_once = record { failure = some broken; is_cancelled = false }

abbrev turned_away : Attempt
turned_away = record { failure = some permission_denied; is_cancelled = false }

run_lem_example :
    (run (broken_once ∷ broken_once ∷ []) ≡ record { standing = retrying; waits = 1 ∷ 2 ∷ [] })
    × (IsTurnedAway turned_away
        → run (broken_once ∷ broken_once ∷ turned_away ∷ broken_once ∷ [])
          ≡ record { standing = rejected; waits = 1 ∷ 2 ∷ [] })
    × (IsEnded turned_away
        → run (broken_once ∷ broken_once ∷ turned_away ∷ broken_once ∷ [])
          ≡ record { standing = context_ended; waits = 1 ∷ 2 ∷ [] })
run_lem_example =
    run_lem (broken_once ∷ broken_once ∷ []) (broken_once ∷ []) turned_away
      ((inr refl, refl), ((inr refl, refl), tt))

abbrev settings : Instance
settings = record {
  id = text "r1";
  name = text "one";
  host = text "h:8443";
  server_name = text "h";
  data_dir = text "/d";
  cert_file = text "c";
  key_file = text "k";
  ca_file = text "a";
}

-- A connection that the host breaks, one that cannot be opened, and one that is turned away.
abbrev sessions : List Session
sessions =
    record { dial = none; stream = none; greeting = none; wakings = rounds; is_cancelled = false }
    ∷ record {
      dial = some broken;
      stream = none;
      greeting = none;
      wakings = [];
      is_cancelled = false;
    }
    ∷ record {
      dial = none;
      stream = some permission_denied;
      greeting = none;
      wakings = [];
      is_cancelled = false;
    }
    ∷ []

run_sessions_lem_example :
    let q = run_sessions 7 settings (text "1") 1 sessions [] in
    (t : RuntimeState) × (load 7 q.db ≡ ok t)
    × IsBetween (text "r1") 0 q.sent t.applied_generation
    × All (λ h. h.instance_id ≡ text "r1") q.hellos
unfolding load live
run_sessions_lem_example =
    run_sessions_lem 7 settings (text "1") (λ d. refl) (λ d. refl) sessions 1 idle [] refl
