-- ===== src/Witnesses/Connection.antt =====
-- The streams of the control server at concrete inputs.
use ulcer.Prelude.{
  ◌≡◌, refl, Text, text, none, some, List, [], ◌∷◌, arith, text_eq, ◌++◌, ◌≤◌, length,
}
use ulcer.Model.{Instance, HostMessage, meter_ack}
use ulcer.Samples.{sample_platform}
use ulcer.Events.{new_bus}
use ulcer.Store.Instances.{put_instance}
use ulcer.Store.Txn.{live}
use ulcer.Control.Hub.{Hub, new_hub, revoke, activate, reserve, without_pending}
use ulcer.Control.Hub.Fence.{
  Op, run, reserves, activates, sends, receives, revokes, run-new_hub-Inv,
}
use ulcer.Control.Hub.Queue.{queue, taken_by, accepted_by}
use ulcer.Control.Hub.Order.{reserve-queue_order}
use ulcer.Control.Server.{World, Hello, hello, aborted, connect, Opening}
use ulcer.Control.Stream.{
  verified, sends, receive_ends, over, serve, conclude, connect_stream, authorize_instance,
}
use ulcer.Control.Stream.Safety.{IsDetached, serve-revoke, connect_stream-IsDetached}
use ulcer.Api.Machines.{new_instance}

abbrev name : Text
name = text "r1"

abbrev connected_hub : Hub
connected_hub = run new_hub (reserves name ∷ activates 0 ∷ [])

abbrev before : World
before = record { db = []; bus = new_bus; hub = connected_hub }

abbrev revoking : World → World
revoking w = record w { hub = (revoke name connected_hub).0 }

serve-revoke_example :
    conclude 7 name 0 (serve 7 revoking name 0 (receive_ends ∷ []) before)
    ≡ record { standing = over (some aborted); sent = []; world = revoking before }
unfolding run revoke activate reserve new_hub without_pending
serve-revoke_example =
    serve-revoke 7 revoking name 0 receive_ends [] before connected_hub []
      (run-new_hub-Inv (reserves name ∷ activates 0 ∷ [])) tt refl (omega arith) refl

abbrev greeting : Hello
greeting = record { instance_id = name; agent_version = text "1"; capabilities = [] }

abbrev uris : List Text
uris = text "spiffe://ulcer/instance/r1" ∷ []

abbrev enrolled : World
enrolled = record {
  db = (put_instance (new_instance 5 name (text "eu-1")) []).1;
  bus = new_bus;
  hub = new_hub;
}

abbrev opening : Opening × World
opening =
    connect 7 (λ n w. w) (hello greeting) (authorize_instance text_eq (verified uris) name) enrolled

abbrev opened : Instance
opened = record (new_instance 5 name (text "eu-1")) {
  last_seen_at = some 7;
  agent_version = text "1";
  phase = text "connected";
}

connect_stream-IsDetached_example :
    IsDetached 0
      (connect_stream 7
        (λ n w. w)
        text_eq
        (verified uris)
        (hello greeting)
        (sends none)
        (receive_ends ∷ [])
        enrolled).world.hub
unfolding connect_stream new_hub live put_instance
connect_stream-IsDetached_example =
    connect_stream-IsDetached 7 (λ n w. w) text_eq (verified uris) (hello greeting) (sends none)
      (receive_ends ∷ []) enrolled opening.1 0 opened none refl refl

abbrev first_message : HostMessage
first_message = meter_ack name 4

abbrev second_message : HostMessage
second_message = meter_ack name 5

abbrev calls : List Op
calls =
    activates 0
    ∷ sends name first_message
    ∷ sends name second_message
    ∷ receives 0
    ∷ revokes name
    ∷ []

reserve-queue_order_example :
    let h = (reserve name new_hub).0 in
    (taken_by 0 h calls ++ queue 0 (run h calls) ≡ accepted_by 0 h calls)
    × (length (queue 0 (run h calls)) ≤ 16)
unfolding reserve new_hub
reserve-queue_order_example = reserve-queue_order name 0 new_hub calls refl
