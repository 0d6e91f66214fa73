-- ===== src/Api/EventStream/Resuming.antt =====
-- eventStream of internal/api/api.go on the stored history: what a client that comes back receives.
use ulcer.Prelude.{
  ℕ, zero, suc, ◌+◌, ◌-◌, ◌≤◌, ◌<◌, ◌≡◌, refl, ◌∙◌, sym, ap, subst, Text, none, List, [], ◌∷◌, ◌++◌,
  arith, ltb, length, if◌then◌else◌,
}
use ulcer.Result.{ok}
use ulcer.Model.{Event}
use ulcer.Platform.{Platform, reads}
use ulcer.Store.Words.{u64_mod}
use ulcer.Store.Events.{events_after, clamp_limit}
use ulcer.Store.Events.Scan.{take, IsRun}
use ulcer.Store.Events.Log.{Log, Holds, newer, after_number, first_number}
use ulcer.Store.Events.Log.Refinement.{events_after-Log, later_of, newer-IsRun}
use ulcer.Api.EventStream.{last_written, write_live, event_stream, after_read, stream_events}
use ulcer.Api.EventStream.Order.{IsConsecutive, IsConsecutive-append, write_live-IsConsecutive}

take-length : (n : ℕ) (es : List Event) → length es ≤ n → take n es ≡ es
take-length zero [] h = refl
take-length zero (e ∷ es) h = absurd (ground arith)
take-length (suc n) [] h = refl
take-length (suc n) (e ∷ es) h = ap (λ l. e ∷ l) (take-length n es (ground arith))

length-newer : (after : ℕ) (es : List Event) → length (newer after es) ≤ length es
unfolding newer
length-newer after [] = ground arith
length-newer after (e ∷ es) = ground (arith, length-newer after es)

IsRun-IsConsecutive :
    (s n : ℕ) (es : List Event) → IsRun (s + 1) es n → IsConsecutive s es × (n ≤ last_written s es)
unfolding last_written
IsRun-IsConsecutive s n [] run = (tt, ground arith)
IsRun-IsConsecutive s n (e ∷ es) run =
    let rest = IsRun-IsConsecutive (s + 1) n es run.2 in
    (
      (run.0, subst (λ k. IsConsecutive k es) (sym run.0) rest.0),
      subst (λ k. n ≤ last_written k es) (sym run.0) rest.1,
    )

write_live-reaches :
    (after n : ℕ) (live : List Event)
    → n ≤ after
    → IsConsecutive n live
    → (after ≤ last_written after (write_live after live))
      × (last_written n live ≤ last_written after (write_live after live))
unfolding write_live last_written
write_live-reaches after n [] lo c = (ground arith, ground arith)
write_live-reaches after n (e ∷ es) lo c =
    ground (arith, write_live-reaches after e.id es, write_live-reaches e.id e.id es)

last_written-append :
    (after : ℕ) (xs ys : List Event)
    → last_written after (xs ++ ys) ≡ last_written (last_written after xs) ys
unfolding last_written
last_written-append after [] ys = refl
last_written-append after (x ∷ xs) ys = last_written-append x.id xs ys

-- Where the events begin of which a client gets every one: behind the last that it has, or behind the
-- last that the retention has dropped, if that is later.
abbrev pub resumed_from : ℕ → ℕ → ℕ
resumed_from after first = if ltb after first then first - 1 else after

later_of-resumed_from :
    (after first : ℕ) → 0 < first → later_of after first ≡ resumed_from after first + 1
later_of-resumed_from after first pos = ground arith

-- A client that gets no history loses nothing.
history_end :
    (after first last : ℕ) (history : List Event)
    → IsRun (later_of after first) history last
    → (last < first → first ≡ 1)
    → last_written after history ≡ last_written (resumed_from after first) history
unfolding last_written
history_end after first last [] run empty = ground (arith, empty)
history_end after first last (e ∷ es) run empty = refl

-- What a client receives from a history that is a run of numbers, and then from a subscription.
resumed :
    (after first last n : ℕ) (history live : List Event)
    → 0 < first
    → IsRun (later_of after first) history last
    → (last < first → first ≡ 1)
    → IsConsecutive n live
    → n ≤ last
    → let s = resumed_from after first in
      IsConsecutive s (event_stream after history live)
      × (last ≤ last_written s (event_stream after history live))
      × (last_written n live ≤ last_written s (event_stream after history live))
unfolding event_stream
resumed after first last n history live pos run empty c lo =
    let s = resumed_from after first in
    let (told, reached) =
      IsRun-IsConsecutive s last history
        (subst (λ a. IsRun a history last) (later_of-resumed_from after first pos) run) in
    let same = history_end after first last history run empty in
    let b = last_written s history in
    let up_to : n ≤ b = omega arith in
    let (kept, reaches) = write_live-reaches b n live up_to c in
    let whole : last_written s (history ++ write_live b live) ≡ last_written b (write_live b live) =
      last_written-append s history (write_live b live) in
    rw same (
      IsConsecutive-append s history (write_live b live) told
          (write_live-IsConsecutive b n live up_to c),
      rw whole (omega arith),
      rw whole reaches,
    )

module _ ⦃p : Platform⦄ where
  open p use {Db, fault}

  first_number-pos : (log : Log) (d : Db) → Holds log d → 0 < first_number log
  unfolding first_number
  first_number-pos log d h = let size = h.size in ground arith

  first_number-empty :
      (log : Log) (d : Db) → Holds log d → log.last < first_number log → first_number log ≡ 1
  unfolding first_number
  first_number-empty log d h over = let size = h.size in ground arith

  kept-length : (log : Log) (d : Db) → Holds log d → length log.kept ≤ 500
  kept-length log d h = let size = h.size in ground arith

  -- The history that is read with the limit 500 is the whole retained log after a number.
  after_number-newer :
      (after : ℕ) (log : Log) (d : Db)
      → Holds log d
      → after_number after 500 log ≡ newer after log.kept
  unfolding after_number clamp_limit
  after_number-newer after log d h =
      let few = kept-length log d h in
      let fewer = length-newer after log.kept in
      take-length 500 (newer after log.kept) (omega arith)

  -- A client that comes back with the number of its last event, of which the database holds the log at
  -- the time of the read, gets a stream, in which it receives every event that the retention of 500
  -- has not dropped, up to the last one of the log and to the last one of the subscription, each once
  -- and in order. The entries are readable and the numbers below 2^64; the subscription delivers
  -- consecutive numbers, from one on that is not behind the next number of the log.
  pub stream_events-Log :
      (now after n : ℕ) (log : Log) (d : Db) (live : List Event)
      → Holds log d
      → ((k : Text) → fault d (reads k) ≡ none)
      → log.last + 1 < u64_mod
      → after + 1 < u64_mod
      → IsConsecutive n live
      → n ≤ log.last
      → let s = resumed_from after (first_number log) in
        (written : List Event) × (stream_events now after live d ≡ ok written)
        × IsConsecutive s written
        × (log.last ≤ last_written s written)
        × (last_written n live ≤ last_written s written)
  unfolding stream_events
  stream_events-Log now after n log d live h readable bound small c lo =
      let history = newer after log.kept in
      let read : events_after now after 500 d ≡ ok history =
        events_after-Log now after 500 log d h readable bound small
        ∙ ap ok (after_number-newer after log d h) in
      let (told, reached, delivered) =
        resumed after (first_number log) log.last n history live (first_number-pos log d h)
          (newer-IsRun after (first_number log) log.last log.kept h.run)
          (first_number-empty log d h) c lo in
      (event_stream after history live, ap (after_read after live) read, told, reached, delivered)
