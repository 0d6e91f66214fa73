-- ===== src/Witnesses/EventLog.antt =====
-- The event log at concrete inputs.
use ulcer.Prelude.{◌≤◌, ◌≡◌, refl, text, none, List, [], ◌∷◌, arith, inr}
use ulcer.Result.{ok}
use ulcer.Model.{Event}
use ulcer.Store.Txn.{live}
use ulcer.Store.Keys.{event_key}
use ulcer.Samples.{sample_platform}
use ulcer.Samples.Keyed.{Cells}
use ulcer.Store.Events.{append_event, events_after}
use ulcer.Store.Events.Frame.{numbered}
use ulcer.Store.Events.Log.{Log, Holds, append, after_number, first_number}
use ulcer.Store.Events.Log.Appending.{append_event-Log}
use ulcer.Store.Events.Log.Refinement.{events_after-Log}
use ulcer.Api.EventStream.{stream_events, last_written}
use ulcer.Api.EventStream.Order.{IsConsecutive}
use ulcer.Api.EventStream.Resuming.{stream_events-Log}

abbrev no_log : Log
no_log = record { last = 0; kept = [] }

no_log-Holds : Holds no_log []
unfolding first_number
no_log-Holds = record {
  counter = inr (refl, refl);
  run = omega arith;
  size = refl;
  stored = tt;
  known = λ k ne. absurd (ne refl);
}

abbrev enrolled : Event
enrolled = record {
  id = 0;
  type_name = text "instance.enrolled";
  resource_id = text "r1";
  at = none;
  details = [];
}

abbrev one_event : Cells
one_event = (append_event 7 enrolled []).1

append_event-Log_example :
    (numbered 7 1 enrolled ≡ numbered 7 1 enrolled) × Holds (append 7 enrolled no_log) one_event
unfolding append_event live
append_event-Log_example =
    append_event-Log 7 enrolled (numbered 7 1 enrolled) no_log [] one_event no_log-Holds refl
      (omega arith) refl

one_log-Holds : Holds (append 7 enrolled no_log) one_event
unfolding append_event live
one_log-Holds =
    (append_event-Log 7 enrolled (numbered 7 1 enrolled) no_log [] one_event no_log-Holds refl
      (omega arith) refl).1

events_after-Log_example :
    events_after 9 0 10 one_event ≡ ok (after_number 0 10 (append 7 enrolled no_log))
unfolding append
events_after-Log_example =
    events_after-Log 9 0 10 (append 7 enrolled no_log) one_event one_log-Holds (λ k. refl)
      (omega arith) (omega arith)

-- The event of the log and the one after it, both of which the subscription delivers.
abbrev first : Event
first = numbered 7 1 enrolled

abbrev delivered : List Event
delivered = first ∷ record first { id = 2 } ∷ []

stream_events-Log_example :
    (written : List Event) × (stream_events 9 0 delivered one_event ≡ ok written)
    × IsConsecutive 0 written
    × (1 ≤ last_written 0 written)
    × (2 ≤ last_written 0 written)
unfolding append last_written first_number
stream_events-Log_example =
    stream_events-Log 9 0 0 (append 7 enrolled no_log) one_event delivered one_log-Holds (λ k. refl)
      (omega arith) (omega arith) (refl, (refl, tt)) (omega arith)

stream_events-both : stream_events 9 0 delivered one_event ≡ ok delivered
unfolding stream_events append_event live event_key
stream_events-both = refl
