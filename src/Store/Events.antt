-- ===== src/Store/Events.antt =====
-- The event log of internal/store/store.go: numbered entries, of which the newest 500 are kept.
pub mod Frame
pub mod Order
pub mod Scan
pub mod Log
use ulcer.Prelude.{
  ℕ, ◌+◌, ◌-◌, ◌%◌, true, false, ◌||◌, Text, Option, none, some, List, [], ◌∷◌, ltb, ◌==◌,
  has_prefix, if◌then◌else◌, zero, suc,
}
use ulcer.Result.{Result}
use ulcer.Model.{Event}
use ulcer.Platform.{Platform}
use ulcer.Store.Words.{u64_mod}
use ulcer.Store.Keys.{event_key, event_prefix, event_sequence_key, default_event_limit}
use ulcer.Store.Txn.{
  Txn, ◌>>=◌, ◌>>◌, pure, lift, get, set, delete, get_uint64, set_uint64, or_zero, update, view,
}
use ulcer.Store.Instances.{seek}

unfoldable pub stamp : ℕ → Option ℕ → Option ℕ
stamp now none = some now
stamp now (some t) = some t

unfoldable pub clamp_limit : ℕ → ℕ
clamp_limit limit =
    if limit == 0 || ltb default_event_limit limit then default_event_limit else limit

module _ ⦃p : Platform⦄ where
  open p use {Db, keys, encode_event, decode_event}

  unfoldable pub drop_oldest : ℕ → Txn (Unit {0})
  unfolding delete
  drop_oldest sequence =
      if ltb default_event_limit sequence
      then delete (event_key (sequence - default_event_limit))
      else pure tt

  unfoldable pub number_event : ℕ → Event → Txn Event
  unfolding stamp drop_oldest get_uint64 set_uint64 or_zero set
  number_event now event = do
    last ← or_zero (get_uint64 now event_sequence_key)
    let sequence = (last + 1) % u64_mod
    let numbered = record event { id = sequence; at = stamp now event.at }
    value ← lift (encode_event numbered)
    set (event_key sequence) value
    set_uint64 event_sequence_key sequence
    drop_oldest sequence
    pure numbered

  unfoldable pub append_event : ℕ → Event → Db → Result Event × Db
  unfolding update number_event
  append_event now event = update (number_event now event)

  -- The loop of `EventsAfter`, with the number of events that it may still append.
  unfoldable pub events_from : ℕ → ℕ → List Text → Txn (List Event)
  unfolding get
  events_from now room [] = pure []
  events_from now zero (_ ∷ _) = pure []
  events_from now (suc room) (k ∷ ks) = do
    item ← get now k
    elim item [
      | none ↦ events_from now (suc room) ks
      | some v ↦ elim (has_prefix k event_prefix) [
        | false ↦ pure []
        | true ↦ do e ← lift (decode_event v); rest ← events_from now room ks; pure (e ∷ rest)
      ]
    ]

  unfoldable pub events_after : ℕ → ℕ → ℕ → Db → Result (List Event)
  unfolding view events_from seek clamp_limit
  events_after now after limit d =
      view (events_from now (clamp_limit limit) (seek (event_key ((after + 1) % u64_mod)) (keys d)))
        d
