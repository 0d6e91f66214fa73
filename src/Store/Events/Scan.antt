-- ===== src/Store/Events/Scan.antt =====
-- The loop of EventsAfter over the keys of a database that holds a run of events.
use ulcer.Prelude.{
  ℕ, zero, suc, ◌+◌, ◌^◌, ◌≤◌, ◌<◌, ◌≡◌, refl, sym, Bool, true, false, Text, none, some, List, [],
  ◌∷◌, arith, text_eq, text_eq_sound, text_lt, text_lt_irrefl, text_lt_trans, has_prefix, any, All,
  Bool-cases, inl, inr, ap, subst, ◌∙◌,
}
use ulcer.Result.{ok}
use ulcer.Model.{Event}
use ulcer.Platform.{Platform, IsAscending, reads}
use ulcer.Store.Keys.{event_key, event_prefix}
use ulcer.Store.Txn.{live}
use ulcer.Store.Txn.Steps.{plain}
use ulcer.Store.Events.{events_from}
use ulcer.Store.Events.Frame.{event_bytes}
use ulcer.Store.Events.Order.{event_key-lt, event_key-has_prefix, has_prefix-between}

abbrev pub take {ℓ} : {A : Type ℓ} → ℕ → List A → List A
take zero xs = []
take (suc n) [] = []
take (suc n) (x ∷ xs) = x ∷ take n xs

take-nil {ℓ} : {A : Type ℓ} (n : ℕ) → take {A = A} n [] ≡ []
take-nil zero = refl
take-nil (suc n) = refl

-- The numbers a, a + 1, …, n.
abbrev pub IsRun : ℕ → List Event → ℕ → Type 0
IsRun a [] n = n < a
IsRun a (e ∷ es) n = (e.id ≡ a) × (a ≤ n) × IsRun (a + 1) es n

-- A key of the log is that of one of these numbers.
abbrev pub IsKnown : ℕ → ℕ → Text → Type 0
IsKnown a n k = has_prefix k event_prefix ≡ true → (i : ℕ) × (k ≡ event_key i) × (a ≤ i) × (i ≤ n)

abbrev pub IsComplete : ℕ → ℕ → List Text → Type 0
IsComplete a n ks = (i : ℕ) → a ≤ i → i ≤ n → any (text_eq (event_key i)) ks ≡ true

pub All-zip {ℓ κ μ ν} :
    {A : Type ℓ} {P : A → Type κ} {Q : A → Type μ} {R : A → Type ν}
    → ((x : A) → P x → Q x → R x)
    → (xs : List A) → All P xs
    → All Q xs
    → All R xs
All-zip f [] p q = tt
All-zip f (x ∷ xs) p q = (f x p.0 q.0, All-zip f xs p.1 q.1)

lt_asym : (s t : Text) → text_lt s t ≡ true → text_lt t s ≡ false
lt_asym s t h = ground (arith, text_lt_trans s t s, text_lt_irrefl s)

IsAscending-tail : (k : Text) (ks : List Text) → IsAscending (k ∷ ks) → IsAscending ks
IsAscending-tail k [] a = tt
IsAscending-tail k (j ∷ ks) a = a.1

IsAscending-skip :
    (k j : Text) (ks : List Text) → text_lt k j ≡ true → IsAscending (j ∷ ks) → IsAscending (k ∷ ks)
IsAscending-skip k j [] h a = tt
IsAscending-skip k j (i ∷ ks) h a = (text_lt_trans k j i h a.0, a.1)

IsAscending-above :
    (k : Text) (ks : List Text) → IsAscending (k ∷ ks) → All (λ j. text_lt k j ≡ true) ks
IsAscending-above k [] a = tt
IsAscending-above k (j ∷ ks) a = (a.0, IsAscending-above k ks (IsAscending-skip k j ks a.0 a.1))

any-All :
    (f : Text → Bool) (j : Text) (ks : List Text)
    → All (λ k. f k ≡ true) ks
    → any (text_eq j) ks ≡ true
    → f j ≡ true
any-All f j [] h m = ground arith
any-All f j (k ∷ ks) h m = ground (arith, any-All f j ks h.1, text_eq_sound j k)

-- The least key that is in the list is its head.
head_lem :
    (k j : Text) (ks : List Text)
    → IsAscending (k ∷ ks)
    → any (text_eq j) (k ∷ ks) ≡ true
    → text_lt k j ≡ false
    → k ≡ j
head_lem k j ks a m h =
    ground (arith, any-All (text_lt k) j ks (IsAscending-above k ks a), text_eq_sound j k)

-- Below the numbers that are known no key of the log stands.
pub known_above :
    (a b n : ℕ) (k : Text)
    → n < 10 ^ 20
    → a < 10 ^ 20
    → IsKnown a n k
    → text_lt k (event_key b) ≡ false
    → text_lt k (event_key a) ≡ false
known_above a b n k hn ha known above = elim (Bool-cases (text_lt k (event_key a))) [
  | inr e ↦ e
  | inl e ↦
      let (i, same, lo, hi) = known (
        has_prefix-between event_prefix (event_key b) k (event_key a) (event_key-has_prefix b)
          (event_key-has_prefix a) above e) in
      ground (arith, event_key-lt i a)
]

IsComplete-next :
    (a n : ℕ) (k : Text) (ks : List Text)
    → n + 1 < 10 ^ 20
    → k ≡ event_key a
    → IsComplete a n (k ∷ ks)
    → IsComplete (a + 1) n ks
IsComplete-next a n k ks hn here complete i lo hi = ground (
  arith,
  complete i (omega arith) hi,
  text_eq_sound (event_key i) k,
  event_key-lt a i,
  text_lt_irrefl (event_key a),
)

-- Behind the key of `a`, the numbers that are known are above it.
IsKnown-next :
    (a n : ℕ) (k : Text)
    → n < 10 ^ 20
    → IsKnown a n k
    → text_lt (event_key a) k ≡ true
    → IsKnown (a + 1) n k
IsKnown-next a n k hn known behind h =
    let (i, same, lo, hi) = known h in
    (i, same, ground (arith, event_key-lt a i, text_lt_irrefl (event_key a)), hi)

module _ ⦃p : Platform⦄ where
  open p use {Db, entry, fault, decode_event}

  -- The entry of an event.
  abbrev pub IsStored : Db → Event → Type 0
  IsStored d e =
      (entry d (event_key e.id) ≡ some (plain (event_bytes e)))
      × (decode_event (event_bytes e) ≡ ok e)

  module _ (now : ℕ) (d : Db) (readable : (k : Text) → fault d (reads k) ≡ none) where
    -- Keys that are not of the log end the loop, or are passed over as expired.
    scan_end :
        (room a n : ℕ) (ks : List Text)
        → n < a
        → All (IsKnown a n) ks
        → events_from now room ks d ≡ ok ([], d)
    unfolding events_from
    scan_end zero a n [] lt h = refl
    scan_end (suc room) a n [] lt h = refl
    scan_end zero a n (k ∷ ks) lt h = refl
    scan_end (suc room) a n (k ∷ ks) lt h = elim (Bool-cases (has_prefix k event_prefix)) [
      | inl e ↦ let (i, same, lo, hi) = h.0 e in absurd (omega arith)
      | inr e ↦ ground (arith, readable k, scan_end (suc room) a n ks lt h.1)
    ]

    scan_none :
        (e : Event) (es : List Event) (k : Text) (ks : List Text)
        → events_from now zero (k ∷ ks) d ≡ ok (take zero (e ∷ es), d)
    unfolding events_from
    scan_none e es k ks = refl

    scan_step :
        (room a : ℕ) (e : Event) (es : List Event) (k : Text) (ks : List Text)
        → k ≡ event_key a
        → e.id ≡ a
        → IsStored d e
        → events_from now room ks d ≡ ok (take room es, d)
        → events_from now (suc room) (k ∷ ks) d ≡ ok (e ∷ take room es, d)
    unfolding events_from live
    scan_step room a e es k ks here number stored rest =
        ground (arith, readable k, event_key-has_prefix a)

    -- The loop finds the run from its first number on, as far as there is room.
    pub scan :
        (room a n : ℕ) (es : List Event) (ks : List Text)
        → n + 1 < 10 ^ 20
        → a < 10 ^ 20
        → IsRun a es n
        → All (IsStored d) es
        → IsAscending ks
        → All (IsKnown a n) ks
        → IsComplete a n ks
        → All (λ k. text_lt k (event_key a) ≡ false) ks
        → events_from now room ks d ≡ ok (take room es, d)
    scan room a n [] ks hn ha run stored asc known complete above =
        scan_end room a n ks run known ∙ ap (λ l. ok (l, d)) (sym (take-nil room))
    scan room a n (e ∷ es) [] hn ha run stored asc known complete above =
        absurd (ground (arith, complete a (omega arith) run.1))
    scan zero a n (e ∷ es) (k ∷ ks) hn ha run stored asc known complete above = scan_none e es k ks
    scan (suc room) a n (e ∷ es) (k ∷ ks) hn ha run stored asc known complete above =
        let here = head_lem k (event_key a) ks asc (complete a (omega arith) run.1) above.0 in
        let behind =
          subst (λ j. All (λ i. text_lt j i ≡ true) ks) here (IsAscending-above k ks asc) in
        let known' = All-zip (λ j q r. IsKnown-next a n j (omega arith) q r) ks known.1 behind in
        let above' =
          All-zip
            (λ j q r.
              known_above (a + 1) a n j (omega arith) (omega arith) q (lt_asym (event_key a) j r))
            ks known' behind in
        let rest =
          scan room (a + 1) n es ks hn (omega arith) run.2 stored.1 (IsAscending-tail k ks asc)
            known' (IsComplete-next a n k ks hn here complete) above' in
        scan_step room a e es k ks here run.0 stored.0 rest
