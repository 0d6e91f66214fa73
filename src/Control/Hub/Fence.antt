-- ===== src/Control/Hub/Fence.antt =====
-- Sequences of hub calls: a revocation cuts an identity off until it is released.
use ulcer.Prelude.{
  ℕ, zero, suc, ◌<◌, ◌≡◌, refl, ◌≢◌, true, false, Text, Option, none, some, List, [], ◌∷◌, ◌++◌,
  arith, text_eq_refl, length, All,
}
use ulcer.Model.{HostMessage}
use ulcer.Control.Hub.{
  Hub, new_hub, reserve, activate, detach, cancel, revoke, release, send, receive, online,
  if_not_revoked, if_online, handle, spend, forget, attach,
}
use ulcer.Control.Hub.Invariant.{
  Inv, count, new_hub-Inv, reserve-Inv, activate-Inv, detach-Inv, cancel-Inv, revoke-Inv,
  release-Inv, send-Inv, receive-Inv,
}

-- A call of the hub, by any goroutine.
pub data Op : Type 0 where
  reserves revokes : Text → Op
  activates detaches releases receives : ℕ → Op
  cancels : Option ℕ → Op
  sends : Text → HostMessage → Op

unfoldable pub step : Hub → Op → Hub
step h (reserves id) = (reserve id h).0
step h (revokes id) = (revoke id h).0
step h (activates a) = (activate a h).0
step h (detaches a) = (detach a h).0
step h (releases k) = release k h
step h (receives a) = (receive a h).0
step h (cancels o) = cancel o h
step h (sends id m) = (send id m h).0

unfoldable pub run : Hub → List Op → Hub
unfolding step
run h [] = h
run h (o ∷ os) = run (step h o) os

step-Inv : (h : Hub) (o : Op) → Inv h → Inv (step h o)
unfolding step
step-Inv h (reserves id) v = reserve-Inv id h v
step-Inv h (revokes id) v = revoke-Inv id h v
step-Inv h (activates a) v = activate-Inv a h v
step-Inv h (detaches a) v = detach-Inv a h v
step-Inv h (releases k) v = release-Inv k h v
step-Inv h (receives a) v = receive-Inv a h v
step-Inv h (cancels o) v = cancel-Inv o h v
step-Inv h (sends id m) v = send-Inv id m h v

pub run-Inv : (h : Hub) (os : List Op) → Inv h → Inv (run h os)
unfolding run
run-Inv h [] v = v
run-Inv h (o ∷ os) v = run-Inv (step h o) os (step-Inv h o v)

-- However the calls of goroutines interleave, the hub keeps its invariant: what is in the maps
-- was reserved for that identity, an identity under revocation has neither a connection nor a
-- pending reservation, an open connection is in one of the maps, and the number of revocations in
-- force is that of the release functions not called.
pub run-new_hub-Inv : (os : List Op) → Inv (run new_hub os)
run-new_hub-Inv os = run-Inv new_hub os new_hub-Inv

handle-count :
    (k : ℕ) (id : Text) (xs : List (Option Text)) → handle k xs ≡ some id → 0 < count id xs
handle-count k id [] h = ground arith
handle-count zero id (x ∷ xs) h = ground (arith, text_eq_refl id)
handle-count (suc k) id (none ∷ xs) h = handle-count k id xs h
handle-count (suc k) id (some j ∷ xs) h = ground (arith, handle-count k id xs)

handle-append :
    (k : ℕ) (xs ys : List (Option Text)) {id : Text}
    → handle k xs ≡ some id
    → handle k (xs ++ ys) ≡ some id
handle-append k [] ys h = ground arith
handle-append zero (x ∷ xs) ys h = h
handle-append (suc k) (x ∷ xs) ys h = handle-append k xs ys h

handle-length : (xs : List (Option Text)) (x : Option Text) → handle (length xs) (xs ++ x ∷ []) ≡ x
handle-length [] x = refl
handle-length (y ∷ xs) x = handle-length xs x

revoke-handle : (h : Hub) (id : Text) → handle (revoke id h).1 (revoke id h).0.handles ≡ some id
unfolding revoke
revoke-handle h id = handle-length h.handles (some id)

handle-spend : (k j : ℕ) (xs : List (Option Text)) → j ≢ k → handle k (spend j xs) ≡ handle k xs
handle-spend k j [] ne = refl
handle-spend zero zero (x ∷ xs) ne = absurd (ne refl)
handle-spend (suc k) zero (x ∷ xs) ne = refl
handle-spend zero (suc j) (x ∷ xs) ne = refl
handle-spend (suc k) (suc j) (x ∷ xs) ne = handle-spend k j xs (λ e. ground arith)

-- The call is not that of the release function k.
abbrev pub Spares : ℕ → Op → Type 0
Spares k (releases j) = j ≢ k
Spares k _ = Unit

step-handle :
    (h : Hub) (o : Op) (k : ℕ) (id : Text)
    → Spares k o
    → handle k h.handles ≡ some id
    → handle k (step h o).handles ≡ some id
unfolding step reserve activate detach cancel revoke release send receive forget attach
step-handle h (releases j) k id sp e = ground (arith, handle-spend k j h.handles sp)
step-handle h (revokes i) k id sp e = handle-append k h.handles (some i ∷ []) e
step-handle h (reserves i) k id sp e = ground arith
step-handle h (activates a) k id sp e = ground arith
step-handle h (detaches a) k id sp e = ground arith
step-handle h (receives a) k id sp e = ground arith
step-handle h (cancels none) k id sp e = e
step-handle h (cancels (some a)) k id sp e = e
step-handle h (sends i m) k id sp e = ground arith

run-handle :
    (h : Hub) (os : List Op) (k : ℕ) (id : Text)
    → All (Spares k) os
    → handle k h.handles ≡ some id
    → handle k (run h os).handles ≡ some id
unfolding run
run-handle h [] k id sp e = e
run-handle h (o ∷ os) k id sp e = run-handle (step h o) os k id sp.1 (step-handle h o k id sp.0 e)

handle-fences :
    (h : Hub) (k : ℕ) (id : Text) → Inv h → handle k h.handles ≡ some id → 0 < h.blocked id
handle-fences h k id v e = omega (arith, v.counted id, handle-count k id h.handles e)

pub revoke-fences :
    (h : Hub) (id : Text) (os : List Op)
    → Inv h
    → All (Spares (revoke id h).1) os
    → 0 < (run (revoke id h).0 os).blocked id
revoke-fences h id os v sp =
    let h' = (revoke id h).0 in
    let k = (revoke id h).1 in
    handle-fences (run h' os) k id (run-Inv h' os (revoke-Inv id h v))
      (run-handle h' os k id sp (revoke-handle h id))

-- What is cut off while an identity is under revocation.
pub record IsFenced (id : Text) (h : Hub) : Type 0 where
  pub offline : online id h ≡ false
  pub not_online : if_online id h ≡ false
  pub not_published : if_not_revoked id h ≡ false
  pub not_reserved : (reserve id h).1 ≡ none
  pub not_attached : (a : ℕ) → (h.heap a).id ≡ id → (activate a h).1 ≡ false
  pub all_closed : (a : ℕ) → a < h.next → (h.heap a).id ≡ id → (h.heap a).connection.closed ≡ true

blocked-IsFenced : (h : Hub) (id : Text) → Inv h → 0 < h.blocked id → IsFenced id h
unfolding online if_online if_not_revoked reserve activate
blocked-IsFenced h id v b =
    let (gone, idle) = v.fenced id b in
    record {
      offline = rw gone;
      not_online = ground arith;
      not_published = ground arith;
      not_reserved = ground arith;
      not_attached = λ a e. ground arith;
      all_closed = λ a lt e. ground (arith, v.accounted a);
    }

-- From a revocation in a hub with the invariant until its release function is called, whatever else happens: the identity is
-- offline, no action that needs it online or not revoked runs, no reservation is given or
-- activated, and every connection that was ever reserved for it is closed.
pub revoke-IsFenced :
    (h : Hub) (id : Text) (os : List Op)
    → Inv h
    → All (Spares (revoke id h).1) os
    → IsFenced id (run (revoke id h).0 os)
revoke-IsFenced h id os v sp =
    blocked-IsFenced (run (revoke id h).0 os) id (run-Inv (revoke id h).0 os (revoke-Inv id h v))
      (revoke-fences h id os v sp)
