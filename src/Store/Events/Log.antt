-- ===== src/Store/Events/Log.antt =====
-- The log that the events of the database are: the last number given, and the newest events. This is
-- what AppendEvent and EventsAfter promise, without keys, encodings and iterators.
pub mod Refinement
pub mod Appending
use ulcer.Prelude.{
  ℕ, suc, ◌+◌, ◌-◌, ◌≤◌, ◌≡◌, ◌≢◌, ◌⊎◌, true, Text, none, some, List, [], ◌∷◌, ◌++◌, length, ltb,
  has_prefix, All, if◌then◌else◌,
}
use ulcer.Model.{Event}
use ulcer.Platform.{Platform}
use ulcer.Store.Words.{put_uint64}
use ulcer.Store.Keys.{event_key, event_prefix, event_sequence_key, default_event_limit}
use ulcer.Store.Txn.Steps.{plain}
use ulcer.Store.Events.{stamp, clamp_limit}
use ulcer.Store.Events.Frame.{numbered}
use ulcer.Store.Events.Scan.{take, IsRun, IsKnown, IsStored}

pub record Log : Type 0 where
  pub last : ℕ
  pub kept : List Event

abbrev pub without_first : List Event → List Event
without_first [] = []
without_first (e ∷ es) = es

abbrev pub retain : ℕ → List Event → List Event
retain n es = if ltb default_event_limit n then without_first es else es

-- An event gets the next number; from the 501st on the oldest one goes.
unfoldable pub append : ℕ → Event → Log → Log
append now e log = record {
  last = suc log.last;
  kept = retain (suc log.last) (log.kept ++ numbered now (suc log.last) e ∷ []);
}

unfoldable pub newer : ℕ → List Event → List Event
newer after [] = []
newer after (e ∷ es) = if ltb after e.id then e ∷ newer after es else newer after es

unfoldable pub after_number : ℕ → ℕ → Log → List Event
unfolding newer clamp_limit
after_number after limit log = take (clamp_limit limit) (newer after log.kept)

unfoldable pub first_number : Log → ℕ
first_number log = log.last + 1 - length log.kept

module _ ⦃p : Platform⦄ where
  open p use {Db, entry}

  -- A database that holds a log: its counter, an entry for each event, and no other entry under the
  -- prefix; all events up to the limit, or as many of the newest ones.
  pub record Holds (log : Log) (d : Db) : Type 0 where
    pub counter :
        (entry d event_sequence_key ≡ some (plain (put_uint64 log.last)))
        ⊎ ((entry d event_sequence_key ≡ none) × (log.last ≡ 0))
    pub run : IsRun (first_number log) log.kept log.last
    pub size :
        if◌then◌else◌ (ltb log.last default_event_limit) log.last default_event_limit
        ≡ length log.kept
    pub stored : All (IsStored d) log.kept
    pub known : (k : Text) → entry d k ≢ none → IsKnown (first_number log) log.last k
