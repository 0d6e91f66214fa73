-- ===== src/Control/Hub/Invariant.antt =====
-- What holds of the hub at all times, and that every method keeps it.
use ulcer.Prelude.{
  ℕ, zero, suc, ◌+◌, ◌<◌, ◌≡◌, refl, true, false, ◌&&◌, not, ◌⊎◌, inl, inr, ◌≢◌, Text, Option, none,
  some, List, [], ◌∷◌, ◌++◌, ◌==◌, arith, text_eq, text_eq_refl, text_eq_iff, if◌then◌else◌,
  Bool-cases, Option-cases,
}
use ulcer.Model.{HostMessage}
use ulcer.Control.Hub.{
  Hub, Reservation, new_hub, contains, remove, non_empty, or_empty, reserve, forget,
  close_connection, attach, activate, detach, cancel, canceled_reservation, put_at, close_previous,
  cancel_all, without_pending, is_refused, revoke, release, release_once, handle, spend, send,
  receive, nobody,
}

-- The release functions of an identity that have not been called.
abbrev pub count : Text → List (Option Text) → ℕ
count id [] = 0
count id (none ∷ xs) = count id xs
count id (some j ∷ xs) = if text_eq j id then suc (count id xs) else count id xs

pub record Inv (h : Hub) : Type 0 where
  -- A connection in the map was reserved for its identity and is not pending any more.
  pub attached :
      (id : Text) (a : ℕ)
      → h.connections id ≡ some a
      → (a < h.next) × ((h.heap a).id ≡ id) × (contains a (or_empty (h.pending id)) ≡ false)
  -- A pending reservation stands under its identity, open and not canceled.
  pub waiting :
      (id : Text) (a : ℕ)
      → contains a (or_empty (h.pending id)) ≡ true
      → (a < h.next)
        × ((h.heap a).id ≡ id)
        × ((h.heap a).canceled ≡ false)
        × ((h.heap a).connection.closed ≡ false)
  -- An identity that is being revoked has no connection and no pending reservation.
  pub fenced : (id : Text) → 0 < h.blocked id → (h.connections id ≡ none) × (h.pending id ≡ none)
  -- A connection that is open is pending or in the map.
  pub accounted :
      (a : ℕ)
      → a < h.next
      → (h.heap a).connection.closed ≡ false
      → (contains a (or_empty (h.pending (h.heap a).id)) ≡ true)
        ⊎ (h.connections (h.heap a).id ≡ some a)
  -- A revocation is in force for each release function that has not been called.
  pub counted : (id : Text) → h.blocked id ≡ count id h.handles

pub contains-remove :
    (a b : ℕ) (l : List ℕ) → contains b (remove a l) ≡ (contains b l && not (a == b))
contains-remove a b [] = refl
contains-remove a b (c ∷ l) = ground (arith, contains-remove a b l)

or_empty-non_empty : (l : List ℕ) → or_empty (non_empty l) ≡ l
or_empty-non_empty [] = refl
or_empty-non_empty (a ∷ l) = refl

count-append :
    (id j : Text) (xs : List (Option Text))
    → count id (xs ++ some j ∷ []) ≡ (if text_eq j id then count id xs + 1 else count id xs)
count-append id j [] = ground arith
count-append id j (none ∷ xs) = count-append id j xs
count-append id j (some k ∷ xs) = ground (arith, count-append id j xs)

count-spend :
    (k : ℕ) (id j : Text) (xs : List (Option Text))
    → handle k xs ≡ some j
    → count id xs ≡ (if text_eq j id then count id (spend k xs) + 1 else count id (spend k xs))
count-spend k id j [] h = ground arith
count-spend zero id j (x ∷ xs) h = ground arith
count-spend (suc k) id j (none ∷ xs) h = count-spend k id j xs h
count-spend (suc k) id j (some i ∷ xs) h = ground (arith, count-spend k id j xs)

pub new_hub-Inv : Inv new_hub
unfolding new_hub nobody
new_hub-Inv = record {
  attached = λ id a e. ground arith;
  waiting = λ id a e. ground arith;
  fenced = λ id e. ground arith;
  accounted = λ a lt e. ground arith;
  counted = λ id. refl;
}

pub reserve-Inv : (id : Text) (h : Hub) → Inv h → Inv (reserve id h).0
unfolding reserve
reserve-Inv id h v = record {
  attached = λ j a e. ground (arith, v.attached j a, text_eq_iff id j, text_eq_refl id);
  waiting =
      λ j a e. ground (arith, v.waiting j a, v.waiting id a, text_eq_iff id j, text_eq_refl id);
  fenced = λ j e. ground (arith, v.fenced j, text_eq_iff id j);
  accounted =
      λ a lt e. ground (arith, v.accounted a, text_eq_iff id (h.heap a).id, text_eq_refl id);
  counted = λ j. ground (arith, v.counted j);
}

pub close_connection-Inv :
    (a : ℕ) (h : Hub)
    → contains a (or_empty (h.pending (h.heap a).id)) ≡ false
    → Inv h
    → Inv (close_connection a h)
unfolding close_connection
close_connection-Inv a h np v = record {
  attached = λ j b e. ground (arith, v.attached j b);
  waiting = λ j b e. ground (arith, v.waiting j b);
  fenced = λ j e. ground (arith, v.fenced j);
  accounted = λ b lt e. ground (arith, v.accounted b);
  counted = v.counted;
}

contains-without_pending :
    (a b : ℕ) (id j : Text) (m : Text → Option (List ℕ))
    → contains b (or_empty (without_pending a id m j))
      ≡ (contains b (or_empty (m j)) && not (text_eq id j && a == b))
unfolding without_pending
contains-without_pending a b id j m = elim (Option-cases (m id)) [
  | inl e ↦ ground (arith, text_eq_iff id j)
  | inr (l, e) ↦
      ground (arith, contains-remove a b l, or_empty-non_empty (remove a l), text_eq_iff id j)
]

without_pending-none :
    (a : ℕ) (id j : Text) (m : Text → Option (List ℕ))
    → m j ≡ none
    → without_pending a id m j ≡ none
unfolding without_pending
without_pending-none a id j m e = ground (arith, text_eq_iff id j)

refused-Inv : (a : ℕ) (h : Hub) → Inv h → Inv (close_connection a (forget a h))
unfolding close_connection forget
refused-Inv a h v = record {
  attached = λ j b e.
      ground (arith, v.attached j b, contains-without_pending a b (h.heap a).id j h.pending);
  waiting = λ j b e. ground (
    arith,
    v.waiting j b,
    contains-without_pending a b (h.heap a).id j h.pending,
    text_eq_refl (h.heap a).id,
  );
  fenced = λ j e. ground (arith, v.fenced j, without_pending-none a (h.heap a).id j h.pending);
  accounted = λ b lt e.
      ground
        (arith, v.accounted b, contains-without_pending a b (h.heap a).id (h.heap b).id h.pending);
  counted = v.counted;
}

attach-Inv : (a : ℕ) (h : Hub) → is_refused a h ≡ false → Inv h → Inv (attach a (forget a h))
unfolding attach is_refused forget
attach-Inv a h ready v =
    let id = (h.heap a).id in
    record {
      attached = λ j b e. ground (
        arith,
        v.attached j b,
        v.waiting id a,
        contains-without_pending a b (h.heap a).id j h.pending,
        text_eq_iff id j,
        text_eq_refl id,
      );
      waiting = λ j b e. ground (
        arith,
        v.waiting j b,
        v.attached id b,
        contains-without_pending a b (h.heap a).id j h.pending,
        text_eq_iff id j,
      );
      fenced = λ j e.
          ground
            (arith, v.fenced j, without_pending-none a (h.heap a).id j h.pending, text_eq_iff id j);
      accounted = λ b lt e. ground (
        arith,
        v.accounted b,
        contains-without_pending a b (h.heap a).id (h.heap b).id h.pending,
        text_eq_iff id (h.heap b).id,
      );
      counted = v.counted;
    }

pub activate-Inv : (a : ℕ) (h : Hub) → Inv h → Inv (activate a h).0
unfolding activate
activate-Inv a h v = elim (Bool-cases (is_refused a h)) [
  | inl e ↦ rw e (refused-Inv a h v)
  | inr e ↦ rw e (attach-Inv a h e v)
]

pub detach-Inv : (a : ℕ) (h : Hub) → Inv h → Inv (detach a h).0
unfolding detach
detach-Inv a h v = record {
  attached = λ j b e. ground (arith, v.attached j b);
  waiting = λ j b e. ground (arith, v.waiting j b, v.attached (h.heap a).id b);
  fenced = λ j e. ground (arith, v.fenced j);
  accounted = λ b l e. ground (arith, v.accounted b, text_eq_iff (h.heap a).id (h.heap b).id);
  counted = λ j. ground (arith, v.counted j);
}

pub cancel-Inv : (o : Option ℕ) (h : Hub) → Inv h → Inv (cancel o h)
unfolding cancel forget
cancel-Inv none h v = v
cancel-Inv (some a) h v =
    let id = (h.heap a).id in
    record {
      attached =
          λ j b e. ground (arith, v.attached j b, contains-without_pending a b id j h.pending);
      waiting = λ j b e.
          ground
            (arith, v.waiting j b, contains-without_pending a b id j h.pending, text_eq_refl id);
      fenced = λ j e. ground (arith, v.fenced j, without_pending-none a id j h.pending);
      accounted = λ b lt e.
          ground (arith, v.accounted b, contains-without_pending a b id (h.heap b).id h.pending);
      counted = v.counted;
    }

cancel_all-heap :
    (l : List ℕ) (heap : ℕ → Reservation) (b : ℕ)
    → cancel_all l heap b ≡ (if contains b l then canceled_reservation (heap b) else heap b)
unfolding cancel_all
cancel_all-heap [] heap b = refl
cancel_all-heap (a ∷ l) heap b =
    ground (arith, cancel_all-heap l (put_at a (canceled_reservation (heap a)) heap) b)

pub close_previous_lem :
    (o : Option ℕ) (heap : ℕ → Reservation) (b : ℕ)
    → ((close_previous o heap b).id ≡ (heap b).id)
      × ((close_previous o heap b).canceled ≡ (heap b).canceled)
      × (o ≡ some b → (close_previous o heap b).connection.closed ≡ true)
      × ((heap b).connection.closed ≡ true → (close_previous o heap b).connection.closed ≡ true)
      × (o ≢ some b → close_previous o heap b ≡ heap b)
close_previous_lem none heap b = ground arith
close_previous_lem (some a) heap b = ground arith

pub revoke-Inv : (id : Text) (h : Hub) → Inv h → Inv (revoke id h).0
unfolding revoke
revoke-Inv id h v =
    let heap = cancel_all (or_empty (h.pending id)) h.heap in
    let closes = close_previous_lem (h.connections id) heap in
    let cancels = cancel_all-heap (or_empty (h.pending id)) h.heap in
    record {
      attached = λ j b e. ground (arith, v.attached j b, closes b, cancels b);
      waiting = λ j b e. ground (
        arith,
        v.waiting j b,
        v.waiting id b,
        v.attached id b,
        closes b,
        cancels b,
        text_eq_iff id j,
      );
      fenced = λ j e. ground (arith, v.fenced j);
      accounted = λ b lt e.
          ground (arith, v.accounted b, closes b, cancels b, text_eq_iff id (h.heap b).id);
      counted = λ j. ground (arith, v.counted j, count-append j id h.handles, text_eq_iff id j);
    }

release_once-Inv :
    (k : ℕ) (o : Option Text) (h : Hub) → handle k h.handles ≡ o → Inv h → Inv (release_once k o h)
unfolding release_once
release_once-Inv k none h e v = v
release_once-Inv k (some i) h e v = record {
  attached = v.attached;
  waiting = v.waiting;
  fenced = λ j p. ground (arith, v.fenced j, text_eq_iff i j);
  accounted = v.accounted;
  counted = λ j. ground (arith, v.counted j, count-spend k j i h.handles, text_eq_iff i j);
}

pub release-Inv : (k : ℕ) (h : Hub) → Inv h → Inv (release k h)
unfolding release
release-Inv k h v = release_once-Inv k (handle k h.handles) h refl v

pub send-Inv : (id : Text) (m : HostMessage) (h : Hub) → Inv h → Inv (send id m h).0
unfolding send
send-Inv id m h v = record {
  attached = λ j b e. ground (arith, v.attached j b);
  waiting = λ j b e. ground (arith, v.waiting j b, v.attached id b);
  fenced = λ j e. ground (arith, v.fenced j);
  accounted = λ b lt e. ground (arith, v.accounted b);
  counted = λ j. ground (arith, v.counted j);
}

pub receive-Inv : (a : ℕ) (h : Hub) → Inv h → Inv (receive a h).0
unfolding receive
receive-Inv a h v = record {
  attached = λ j b e. ground (arith, v.attached j b);
  waiting = λ j b e. ground (arith, v.waiting j b);
  fenced = λ j e. ground (arith, v.fenced j);
  accounted = λ b lt e. ground (arith, v.accounted b);
  counted = λ j. ground (arith, v.counted j);
}
