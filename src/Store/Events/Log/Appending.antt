-- ===== src/Store/Events/Log/Appending.antt =====
-- AppendEvent leaves a database that holds the log with the event appended.
use ulcer.Prelude.{
  ℕ, suc, ◌+◌, ◌-◌, ◌^◌, ◌≤◌, ◌<◌, ◌≡◌, refl, sym, ◌∙◌, ap, ◌≢◌, true, false, Text, Bytes, none,
  some, List, [], ◌∷◌, ◌++◌, arith, length, length-append, ltb, text_eq, text_eq_refl,
  text_eq_sound, text_lt_irrefl, has_prefix, All, All-imp, if◌then◌else◌, Bool-cases, inl, inr, ◌⊎◌,
  subst,
}
use ulcer.Result.{ok}
use ulcer.Model.{Event}
use ulcer.Platform.{Platform, reads}
use ulcer.Store.Words.{u64_mod, put_uint64, uint64-put_uint64}
use ulcer.Store.Keys.{event_key, event_prefix, event_sequence_key, default_event_limit}
use ulcer.Store.Txn.{live}
use ulcer.Store.Txn.Steps.{plain}
use ulcer.Store.Events.{append_event}
use ulcer.Store.Events.Frame.{
  next_number, last_number, numbered, logged, trimmed, event_bytes, append_event-eq-ok,
  entry-trimmed,
}
use ulcer.Store.Events.Order.{event_key-lt}
use ulcer.Store.Events.Scan.{IsRun, IsKnown, IsStored}
use ulcer.Store.Events.Log.{Log, Holds, append, first_number, retain}

IsRun-append :
    (a n : ℕ) (es : List Event) (e : Event)
    → IsRun a es n
    → a + length es ≡ n + 1
    → e.id ≡ suc n
    → IsRun a (es ++ e ∷ []) (suc n)
IsRun-append a n [] e run full number = ground arith
IsRun-append a n (f ∷ es) e run full number =
    (run.0, omega arith, IsRun-append (a + 1) n es e run.2 (omega arith) number)

-- The numbers of a run beside what holds of its events.
All-run :
    (P : Event → Type 0) (a n : ℕ) (es : List Event)
    → IsRun a es n
    → All P es
    → All (λ e. (a ≤ e.id) × (e.id ≤ n) × P e) es
All-run P a n [] run h = tt
All-run P a n (e ∷ es) run h = (
  (omega arith, omega arith, h.0),
  All-imp (λ f q. (omega arith, q.1, q.2)) es (All-run P (a + 1) n es run.2 h.1),
)

All-snoc :
    (P : Event → Type 0) (es : List Event) (e : Event) → All P es → P e → All P (es ++ e ∷ [])
All-snoc P [] e h k = (k, tt)
All-snoc P (f ∷ es) e h k = (h.0, All-snoc P es e h.1 k)

abbrev kept_size : ℕ → ℕ
kept_size n = if ltb n default_event_limit then n else default_event_limit

length-retain :
    (n : ℕ) (es : List Event) (x : Event)
    → kept_size n ≡ length es
    → kept_size (suc n) ≡ length (retain (suc n) (es ++ x ∷ []))
length-retain n [] x h = ground arith
length-retain n (e ∷ es) x h = ground (arith, length-append {0} {A = Event} es (x ∷ []))

retain-IsRun :
    (n : ℕ) (es : List Event) (x : Event)
    → IsRun (n + 1 - length es) es n
    → kept_size n ≡ length es
    → x.id ≡ suc n
    → IsRun
        (suc n + 1 - length (retain (suc n) (es ++ x ∷ [])))
        (retain (suc n) (es ++ x ∷ []))
        (suc n)
retain-IsRun n [] x run size number = ground arith
retain-IsRun n (e ∷ es) x run size number = elim (Bool-cases (ltb default_event_limit (suc n))) [
  | inl l ↦
      let len = length-append {0} {A = Event} es (x ∷ []) in
      let from : n + 1 - suc (length es) + 1 ≡ suc n + 1 - length (es ++ x ∷ []) =
        ground (arith, len) in
      rw l (
        subst (λ a. IsRun a (es ++ x ∷ []) (suc n)) from
          (IsRun-append (n + 1 - suc (length es) + 1) n es x run.2 (ground arith) number))
  | inr l ↦
      let len = length-append {0} {A = Event} es (x ∷ []) in
      let from : n + 1 - suc (length es) ≡ suc n + 1 - length (e ∷ es ++ x ∷ []) =
        ground (arith, len) in
      rw l (
        subst (λ a. IsRun a (e ∷ es ++ x ∷ []) (suc n)) from
          (IsRun-append (n + 1 - suc (length es)) n (e ∷ es) x run (ground arith) number))
]

retain-All : (P : Event → Type 0) (n : ℕ) (es : List Event) → All P es → All P (retain n es)
retain-All P n [] h = elim (Bool-cases (ltb default_event_limit n)) [
  | inl l ↦ rw l tt
  | inr l ↦ rw l tt
]
retain-All P n (e ∷ es) h = elim (Bool-cases (ltb default_event_limit n)) [
  | inl l ↦ rw l h.1
  | inr l ↦ rw l h
]

event_key-ne :
    (a b : ℕ) → a < 10 ^ 20 → b < 10 ^ 20 → a ≢ b → text_eq (event_key a) (event_key b) ≡ false
event_key-ne a b h k ne = ground (
  arith,
  event_key-lt a b h k,
  event_key-lt b a k h,
  text_eq_sound (event_key a) (event_key b),
  text_lt_irrefl (event_key a),
)

sequence-ne : (n : ℕ) → text_eq event_sequence_key (event_key n) ≡ false
unfolding event_key
sequence-ne n = refl

sequence_no_prefix : has_prefix event_sequence_key event_prefix ≡ false
sequence_no_prefix = refl

sequence_apart :
    (k : Text) → has_prefix k event_prefix ≡ true → text_eq event_sequence_key k ≡ false
sequence_apart k h = ground (arith, text_eq_sound event_sequence_key k, sequence_no_prefix)

key-ne-sequence : (n : ℕ) → text_eq (event_key n) event_sequence_key ≡ false
unfolding event_key
key-ne-sequence n = refl

module _ ⦃p : Platform⦄ where
  open p use {
    Db, entry, write, erase, fault, entry-write, entry-erase, encode_event, decode_event,
    decode-encode_event,
  }

  last_number-eq :
      (now : ℕ) (log : Log) (d : Db)
      → Holds log d
      → fault d (reads event_sequence_key) ≡ none
      → log.last < u64_mod
      → last_number now d ≡ log.last
  unfolding last_number live
  last_number-eq now log d h r b = ground (arith, h.counter, uint64-put_uint64 log.last)

  next_number-eq :
      (now : ℕ) (log : Log) (d : Db)
      → Holds log d
      → fault d (reads event_sequence_key) ≡ none
      → log.last + 1 < u64_mod
      → next_number now d ≡ suc log.last
  unfolding next_number
  next_number-eq now log d h readable bound =
      rw (last_number-eq now log d h readable (omega arith)) (omega arith)

  -- An event of the log after an append: one from before, or the new one.
  abbrev IsOldOrNew : Db → ℕ → Event → Event → Type 0
  IsOldOrNew d last x e = ((e.id ≤ last) × IsStored d e) ⊎ (e ≡ x)

  still-IsStored :
      (d : Db) (last a : ℕ) (x e : Event)
      → suc last < u64_mod
      → x.id ≡ suc last
      → (500 < suc last → suc last - 500 < a)
      → decode_event (event_bytes x) ≡ ok x
      → (a ≤ e.id) × (e.id ≤ suc last) × IsOldOrNew d last x e
      → IsStored (trimmed (suc last) (logged (suc last) (event_bytes x) d)) e
  still-IsStored d last a x e bound number kept decoded (lo, hi, inl old) = (
    ground (
      arith,
      kept,
      entry-trimmed (suc last) (event_bytes x) d (event_key e.id),
      event_key-ne (suc last - 500) e.id,
      event_key-ne (suc last) e.id,
      sequence-ne e.id,
    ),
    old.1.1,
  )
  still-IsStored d last a x e bound number kept decoded (lo, hi, inr new) = rw new (
    ground (
      arith,
      entry-trimmed (suc last) (event_bytes x) d (event_key (suc last)),
      event_key-ne (suc last - 500) (suc last),
      sequence-ne (suc last),
      text_eq_refl (event_key (suc last)),
    ),
    decoded,
  )

  abbrev IsKnownIn : Db → ℕ → ℕ → Type 0
  IsKnownIn d a n = (k : Text) → entry d k ≢ none → IsKnown a n k

  -- The key of the oldest event is not there after it has gone.
  gone :
      (n : ℕ) (b : Bytes) (d : Db)
      → 500 < n
      → entry (trimmed n (logged n b d)) (event_key (n - 500)) ≡ none
  gone n b d h =
      ground (arith, entry-trimmed n b d (event_key (n - 500)), text_eq_refl (event_key (n - 500)))

  still-IsKnown :
      (d : Db) (last a a' : ℕ) (b : Bytes) (k : Text)
      → IsKnownIn d a last
      → a' ≤ suc last
      → (suc last ≤ 500 → a' ≤ a)
      → (500 < suc last → (a ≡ suc last - 500) × (a' ≡ a + 1))
      → entry (trimmed (suc last) (logged (suc last) b d)) k ≢ none
      → IsKnown a' (suc last) k
  still-IsKnown d last a a' b k known top small large ne prefix =
      elim (Bool-cases (text_eq (event_key (suc last)) k)) [
        | inl e ↦ (suc last, sym (text_eq_sound (event_key (suc last)) k e), top, omega arith)
        | inr e ↦
            let (i, same, lo, hi) =
              known k (λ z. ne (not_new e (sequence_apart k prefix) z)) prefix in
            (
              i,
              same,
              kept_number i lo (λ o. λ same_number. ne (was_gone i same same_number o)),
              omega arith,
            )
      ]
    where
      not_new :
          text_eq (event_key (suc last)) k ≡ false
          → text_eq event_sequence_key k ≡ false
          → entry d k ≡ none
          → entry (trimmed (suc last) (logged (suc last) b d)) k ≡ none
      not_new e apart z = ground (arith, entry-trimmed (suc last) b d k)

      was_gone :
          (i : ℕ)
          → k ≡ event_key i
          → i ≡ suc last - 500
          → 500 < suc last
          → entry (trimmed (suc last) (logged (suc last) b d)) k ≡ none
      was_gone i same number o = rw (same, number) (gone (suc last) b d o)

      kept_number : (i : ℕ) → a ≤ i → (500 < suc last → i ≢ suc last - 500) → a' ≤ i
      kept_number i lo h = ground arith

  module _ (now : ℕ) (e : Event) (log : Log) (d : Db) (h : Holds log d)
      (bound : log.last + 1 < u64_mod)
      (decoded : decode_event (event_bytes (numbered now (suc log.last) e))
        ≡ ok (numbered now (suc log.last) e)) where
    abbrev new : Event
    new = numbered now (suc log.last) e

    abbrev after : Db
    after = trimmed (suc log.last) (logged (suc log.last) (event_bytes new) d)

    abbrev kept' : List Event
    kept' = retain (suc log.last) (log.kept ++ new ∷ [])

    abbrev start : ℕ
    start = suc log.last + 1 - length kept'

    size' : kept_size (suc log.last) ≡ length kept'
    size' = length-retain log.last log.kept new h.size

    run' : IsRun start kept' (suc log.last)
    unfolding first_number
    run' = retain-IsRun log.last log.kept new h.run h.size refl

    old_or_new : All (IsOldOrNew d log.last new) kept'
    unfolding first_number
    old_or_new = retain-All (IsOldOrNew d log.last new) (suc log.last) (log.kept ++ new ∷ []) (
        All-snoc (IsOldOrNew d log.last new) log.kept new
          (All-imp (λ f q. inl (q.1, q.2)) log.kept
            (All-run (IsStored d) (first_number log) log.last log.kept h.run h.stored))
          (inr refl))

    stored' : All (IsStored after) kept'
    stored' =
        All-imp
          (λ f q.
            still-IsStored d log.last start new f (omega arith) refl (λ o. ground (arith, size'))
              decoded q)
          kept' (All-run (IsOldOrNew d log.last new) start (suc log.last) kept' run' old_or_new)

    counter' : entry after event_sequence_key ≡ some (plain (put_uint64 (suc log.last)))
    counter' = ground (
      arith,
      entry-trimmed (suc log.last) (event_bytes new) d event_sequence_key,
      key-ne-sequence (suc log.last - 500),
      text_eq_refl event_sequence_key,
    )

    known' : (k : Text) → entry after k ≢ none → IsKnown start (suc log.last) k
    unfolding first_number
    known' k ne =
        still-IsKnown d log.last (first_number log) start (event_bytes new) k h.known
          (ground (arith, size')) (λ o. ground (arith, size', h.size))
          (λ o. ground (arith, size', h.size)) ne

    appended-Holds : Holds (append now e log) after
    unfolding append first_number
    appended-Holds = record {
      counter = inl counter';
      run = run';
      size = size';
      stored = stored';
      known = known';
    }

  -- AppendEvent, if it succeeds on a database that holds a log, returns the event under the next
  -- number and leaves the database with the log that the event has been appended to, of which 500
  -- events are retained; the counter is readable and the next number is below 2^64.
  pub append_event-Log :
      (now : ℕ) (e x : Event) (log : Log) (d d' : Db)
      → Holds log d
      → fault d (reads event_sequence_key) ≡ none
      → log.last + 1 < u64_mod
      → append_event now e d ≡ (ok x, d')
      → (x ≡ numbered now (suc log.last) e) × Holds (append now e log) d'
  append_event-Log now e x log d d' h readable bound run =
      let (is_x, encoded, is_d) = append_event-eq-ok now e d run in
      let next = next_number-eq now log d h readable bound in
      let same : x ≡ numbered now (suc log.last) e = is_x ∙ ap (λ n. numbered now n e) next in
      let decoded = decode-encode_event x (event_bytes x) encoded in
      let left = is_d ∙ (λ i. trimmed (next i) (logged (next i) (event_bytes (same i)) d)) in
      (
        same,
        subst (Holds (append now e log)) (sym left) (
            appended-Holds now e log d h bound
              (subst (λ y. decode_event (event_bytes y) ≡ ok y) same decoded)),
      )
