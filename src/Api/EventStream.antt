-- ===== src/Api/EventStream.antt =====
-- eventStream of internal/api/api.go: the stored events after the client's last one, and then what
-- the subscription delivers. The result is the list of the events that are written.
pub mod Order
pub mod Frames
pub mod Resuming
use ulcer.Prelude.{ℕ, List, [], ◌∷◌, ◌++◌, leb, if◌then◌else◌}
use ulcer.Result.{Result, ok, err}
use ulcer.Model.{Event}
use ulcer.Platform.{Platform}
use ulcer.Store.Events.{events_after}

-- `after` once the loop over the history has ended.
unfoldable pub last_written : ℕ → List Event → ℕ
last_written after [] = after
last_written after (e ∷ es) = last_written e.id es

-- The loop over the channel, which passes over an event that is not newer than `after`.
unfoldable pub write_live : ℕ → List Event → List Event
write_live after [] = []
write_live after (e ∷ es) =
    let rest = write_live e.id es in if leb e.id after then write_live after es else e ∷ rest

unfoldable pub event_stream : ℕ → List Event → List Event → List Event
unfolding last_written write_live
event_stream after history live = history ++ write_live (last_written after history) live

-- A history that cannot be read is answered by 500, without a stream.
abbrev pub after_read : ℕ → List Event → Result (List Event) → Result (List Event)
after_read after live (err e) = err e
after_read after live (ok history) = ok (event_stream after history live)

-- The stream of a client whose last event has the number `after`. `live` is what the subscription,
-- made before the history is read, delivers.
unfoldable pub stream_events : ⦃p : Platform⦄ → ℕ → ℕ → List Event → p.Db → Result (List Event)
unfolding events_after event_stream
stream_events now after live d = after_read after live (events_after now after 500 d)
