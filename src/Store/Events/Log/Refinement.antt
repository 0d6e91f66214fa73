-- ===== src/Store/Events/Log/Refinement.antt =====
-- AppendEvent and EventsAfter do to the database what the log does.
use ulcer.Prelude.{
  ℕ, ◌+◌, ◌%◌, ◌^◌, ◌≤◌, ◌<◌, ◌≡◌, refl, ◌∙◌, true, false, Text, none, List, [], ◌∷◌, arith, ltb,
  text_eq, text_eq_refl, text_eq_sound, text_lt, text_lt_trans, any, All, ◌==◌, if◌then◌else◌,
  Bool-cases, inl, inr, subst,
}
use ulcer.Result.{ok}
use ulcer.Model.{Event}
use ulcer.Platform.{Platform, IsAscending, reads}
use ulcer.Store.Words.{u64_mod}
use ulcer.Store.Keys.{event_key}
use ulcer.Store.Instances.{seek}
use ulcer.Store.Txn.{view}
use ulcer.Store.Events.{events_after, events_from, clamp_limit}
use ulcer.Store.Events.Order.{event_key-lt}
use ulcer.Store.Events.Scan.{take, IsRun, IsKnown, IsComplete, IsStored, All-zip, scan, known_above}
use ulcer.Store.Events.Log.{Log, Holds, newer, after_number, first_number}

abbrev pub later_of : ℕ → ℕ → ℕ
later_of after a = if ltb after a then a else after + 1

pub newer-IsRun :
    (after a n : ℕ) (es : List Event) → IsRun a es n → IsRun (later_of after a) (newer after es) n
unfolding newer
newer-IsRun after a n [] run = ground arith
newer-IsRun after a n (e ∷ es) run = ground (arith, newer-IsRun after (a + 1) n es run.2)

newer-All : (P : Event → Type 0) (after : ℕ) (es : List Event) → All P es → All P (newer after es)
unfolding newer
newer-All P after [] h = tt
newer-All P after (e ∷ es) h = elim (Bool-cases (ltb after e.id)) [
  | inl l ↦ rw l (h.0, newer-All P after es h.1)
  | inr l ↦ rw l (newer-All P after es h.1)
]

seek-All : (P : Text → Type 0) (start : Text) (ks : List Text) → All P ks → All P (seek start ks)
unfolding seek
seek-All P start [] h = tt
seek-All P start (k ∷ ks) h = elim (Bool-cases (text_lt k start)) [
  | inl l ↦ rw l (seek-All P start ks h.1)
  | inr l ↦ rw l h
]

IsAscending-tail : (k : Text) (ks : List Text) → IsAscending (k ∷ ks) → IsAscending ks
IsAscending-tail k [] a = tt
IsAscending-tail k (j ∷ ks) a = a.1

seek-IsAscending : (start : Text) (ks : List Text) → IsAscending ks → IsAscending (seek start ks)
unfolding seek
seek-IsAscending start [] a = tt
seek-IsAscending start (k ∷ ks) a = elim (Bool-cases (text_lt k start)) [
  | inl l ↦ rw l (seek-IsAscending start ks (IsAscending-tail k ks a))
  | inr l ↦ rw l a
]

not_below :
    (start k : Text) (ks : List Text)
    → text_lt k start ≡ false
    → IsAscending (k ∷ ks)
    → All (λ j. text_lt j start ≡ false) (k ∷ ks)
not_below start k [] h a = (h, tt)
not_below start k (j ∷ ks) h a =
    (h, not_below start j ks (ground (arith, text_lt_trans k j start)) a.1)

seek-above :
    (start : Text) (ks : List Text)
    → IsAscending ks
    → All (λ j. text_lt j start ≡ false) (seek start ks)
unfolding seek
seek-above start [] a = tt
seek-above start (k ∷ ks) a = elim (Bool-cases (text_lt k start)) [
  | inl l ↦ rw l (seek-above start ks (IsAscending-tail k ks a))
  | inr l ↦ rw l (not_below start k ks l a)
]

any-seek :
    (start j : Text) (ks : List Text)
    → text_lt j start ≡ false
    → any (text_eq j) (seek start ks) ≡ any (text_eq j) ks
unfolding seek
any-seek start j [] h = refl
any-seek start j (k ∷ ks) h = ground (arith, any-seek start j ks h, text_eq_sound j k)

All-any :
    (P : Text → Type 0) (ks : List Text) → ((k : Text) → any (text_eq k) ks ≡ true → P k) → All P ks
All-any P [] h = tt
All-any P (k ∷ ks) h =
    (h k (ground (arith, text_eq_refl k)), All-any P ks (λ j m. h j (ground arith)))

-- Every number of a run has its event.
find :
    (P : Event → Type 0) (Q : ℕ → Type 0) (a n : ℕ) (es : List Event)
    → ((e : Event) → P e → Q e.id)
    → IsRun a es n
    → All P es
    → (i : ℕ) → a ≤ i
    → i ≤ n
    → Q i
find P Q a n [] f run h i lo hi = absurd (omega arith)
find P Q a n (e ∷ es) f run h i lo hi = elim (Bool-cases (i == a)) [
  | inl same ↦ subst Q (ground arith) (f e h.0)
  | inr other ↦ find P Q (a + 1) n es f run.2 h.1 i (ground arith) hi
]

IsKnown-from :
    (after a n : ℕ) (k : Text)
    → n < 10 ^ 20
    → after + 1 < 10 ^ 20
    → IsKnown a n k
    → text_lt k (event_key (after + 1)) ≡ false
    → IsKnown (later_of after a) n k
IsKnown-from after a n k hn ha known above h =
    let (i, same, lo, hi) = known h in (i, same, ground (arith, event_key-lt i (after + 1)), hi)

module _ ⦃p : Platform⦄ where
  open p use {
    Db, entry, write, erase, fault, keys, keys_ascending, keys_entries, entry-write, entry-erase,
  }

  -- The keys from the one after a number on.
  abbrev remaining : ℕ → Db → List Text
  remaining after d = seek (event_key (after + 1)) (keys d)

  start-lt :
      (after : ℕ) (log : Log)
      → log.last < u64_mod
      → after + 1 < u64_mod
      → later_of after (first_number log) < 10 ^ 20
  unfolding first_number
  start-lt after log hn ha = ground arith

  module _ (after : ℕ) (log : Log) (d : Db) (h : Holds log d) (hn : log.last < u64_mod)
      (ha : after + 1 < u64_mod) where
    remaining-IsKnown :
        All (IsKnown (later_of after (first_number log)) log.last) (remaining after d)
    remaining-IsKnown =
        All-zip
          (λ k q r.
            IsKnown-from after (first_number log) log.last k (omega arith) (omega arith) q r)
          (remaining after d)
          (seek-All (IsKnown (first_number log) log.last) (event_key (after + 1)) (keys d) (
            All-any (IsKnown (first_number log) log.last) (keys d)
              (λ k m. h.known k ((keys_entries d k).0 m))))
          (seek-above (event_key (after + 1)) (keys d) (keys_ascending d))

    remaining-above :
        All
          (λ k. text_lt k (event_key (later_of after (first_number log))) ≡ false)
          (remaining after d)
    remaining-above =
        All-zip
          (λ k q r.
            known_above (later_of after (first_number log)) (after + 1) log.last k (omega arith)
              (start-lt after log hn ha) q r)
          (remaining after d) remaining-IsKnown
          (seek-above (event_key (after + 1)) (keys d) (keys_ascending d))

    present :
        (i : ℕ) → first_number log ≤ i → i ≤ log.last → any (text_eq (event_key i)) (keys d) ≡ true
    present =
        find (IsStored d) (λ i. any (text_eq (event_key i)) (keys d) ≡ true) (first_number log)
          log.last log.kept (λ e q. (keys_entries d (event_key e.id)).1 (λ z. ground (arith, q.0)))
          h.run h.stored

    remaining-IsComplete :
        IsComplete (later_of after (first_number log)) log.last (remaining after d)
    remaining-IsComplete i lo hi =
        any-seek (event_key (after + 1)) (event_key i) (keys d)
          (ground (arith, event_key-lt i (after + 1)))
        ∙ present i (ground arith) hi

  -- EventsAfter on a database that holds a log returns what the log returns: the retained events
  -- after a number, up to the limit, in order. Every entry is readable, the number is not the last
  -- one of 64 bits, and the last one of the log is below it.
  pub events_after-Log :
      (now after limit : ℕ) (log : Log) (d : Db)
      → Holds log d
      → ((k : Text) → fault d (reads k) ≡ none)
      → log.last + 1 < u64_mod
      → after + 1 < u64_mod
      → events_after now after limit d ≡ ok (after_number after limit log)
  unfolding events_after after_number view
  events_after-Log now after limit log d h readable hn ha =
      let a = later_of after (first_number log) in
      let found : events_from now (clamp_limit limit) (remaining after d) d
          ≡ ok (take (clamp_limit limit) (newer after log.kept), d) =
        scan now d readable (clamp_limit limit) a log.last (newer after log.kept)
          (remaining after d) (omega arith) (start-lt after log (omega arith) ha)
          (newer-IsRun after (first_number log) log.last log.kept h.run)
          (newer-All (IsStored d) after log.kept h.stored)
          (seek-IsAscending (event_key (after + 1)) (keys d) (keys_ascending d))
          (remaining-IsKnown after log d h (omega arith) ha)
          (remaining-IsComplete after log d h (omega arith) ha)
          (remaining-above after log d h (omega arith) ha) in
      let start : (after + 1) % u64_mod ≡ after + 1 = omega arith in ground (arith, start, found)
