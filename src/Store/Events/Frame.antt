-- ===== src/Store/Events/Frame.antt =====
-- The database that an appended event leaves, and what it leaves alone.
use ulcer.Prelude.{
  ◌&&◌, ℕ, [], ◌≡◌, Text, Bytes, none, some, arith, text_eq, ltb, ◌-◌, ◌%◌, ◌+◌, if◌then◌else◌,
}
use ulcer.Result.{ok, err}
use ulcer.Model.{Event}
use ulcer.Platform.{Platform}
use ulcer.Store.Words.{u64_mod, put_uint64}
use ulcer.Store.Keys.{event_key, event_sequence_key, default_event_limit}
use ulcer.Store.Txn.{get_uint64, or_zero}
use ulcer.Store.Txn.Steps.{plain, update-eq-ok}
use ulcer.Store.Events.{number_event, append_event, stamp}

abbrev pub numbered : ℕ → ℕ → Event → Event
numbered now n e = record e { id = n; at = stamp now e.at }

module _ ⦃p : Platform⦄ where
  open p use {Db, entry, write, erase, encode_event, entry-write, entry-erase}

  -- The number of the last event, as AppendEvent reads it.
  unfoldable pub last_number : ℕ → Db → ℕ
  unfolding or_zero get_uint64
  last_number now d = elim (or_zero (get_uint64 now event_sequence_key) d) [
    | ok (n, _) ↦ n
    | err _ ↦ 0
  ]

  unfoldable pub next_number : ℕ → Db → ℕ
  unfolding last_number
  next_number now d = (last_number now d + 1) % u64_mod

  unfoldable pub event_bytes : Event → Bytes
  event_bytes e = elim (encode_event e) [ ok b ↦ b | err _ ↦ [] ]

  unfoldable pub trimmed : ℕ → Db → Db
  trimmed n d =
      if ltb default_event_limit n then erase (event_key (n - default_event_limit)) d else d

  abbrev pub logged : ℕ → Bytes → Db → Db
  logged n b d = write event_sequence_key (plain (put_uint64 n)) (write (event_key n) (plain b) d)

  -- What each key holds after an append.
  pub entry-trimmed :
      (n : ℕ) (b : Bytes) (d : Db) (k : Text)
      → entry (trimmed n (logged n b d)) k ≡ (
          if ltb default_event_limit n && text_eq (event_key (n - default_event_limit)) k
          then none
          else if text_eq event_sequence_key k
          then some (plain (put_uint64 n))
          else if text_eq (event_key n) k
          then some (plain b)
          else entry d k)
  unfolding trimmed
  entry-trimmed n b d k = ground (
    arith,
    entry-erase (logged n b d) (event_key (n - default_event_limit)) k,
    entry-write (write (event_key n) (plain b) d) event_sequence_key k (plain (put_uint64 n)),
    entry-write d (event_key n) k (plain b),
  )

  pub number_event-eq-ok :
      (now : ℕ) (e : Event) (d : Db) {x : Event} {w : Db}
      → number_event now e d ≡ ok (x, w)
      → (x ≡ numbered now (next_number now d) e)
        × (encode_event x ≡ ok (event_bytes x))
        × (w ≡ trimmed (next_number now d) (logged (next_number now d) (event_bytes x) d))
  unfolding number_event next_number event_bytes trimmed
  number_event-eq-ok now e d h = ground arith

  -- Everything that an append which succeeds does.
  pub append_event-eq-ok :
      (now : ℕ) (e : Event) (d : Db) {x : Event} {w : Db}
      → append_event now e d ≡ (ok x, w)
      → (x ≡ numbered now (next_number now d) e)
        × (encode_event x ≡ ok (event_bytes x))
        × (w ≡ trimmed (next_number now d) (logged (next_number now d) (event_bytes x) d))
  unfolding append_event
  append_event-eq-ok now e d h = number_event-eq-ok now e d (update-eq-ok (number_event now e) d h)
