-- ===== src/Control/Hub/Order.antt =====
-- The messages of a connection, over sequences of hub calls: what is sent comes out in its order.
use mathlib.Core.List.{append_assoc, append-nil}
use ulcer.Prelude.{
  ℕ, suc, ◌+◌, ◌<◌, ◌≤◌, ◌≡◌, refl, sym, ap, ◌∙◌, subst, Bool, true, false, ◌&&◌, Text, Option,
  none, some, List, [], ◌∷◌, ◌++◌, ◌==◌, ==_iff, ltb, length, length-append, arith, if◌then◌else◌,
}
use ulcer.Model.{HostMessage}
use ulcer.Control.Hub.{
  Hub, reserve, activate, detach, cancel, mark_canceled, revoke, release, release_once, send,
  send_to, receive, forget, attach, attached_to, close_connection, put_at, fresh_reservation,
  handle,
}
use ulcer.Control.Hub.Fence.{
  Op, reserves, revokes, activates, detaches, releases, receives, cancels, sends, step, run,
}
use ulcer.Control.Hub.Queue.{
  queue, accepted, taken, accepted_by, taken_by, messages_of, put_at-true, step-queue,
}

release_once-next : (k : ℕ) (o : Option Text) (h : Hub) → h.next ≤ (release_once k o h).next
unfolding release_once
release_once-next k none h = ground arith
release_once-next k (some id) h = ground arith

step-next : (h : Hub) (o : Op) → h.next ≤ (step h o).next
unfolding step reserve activate detach cancel revoke release send send_to receive forget attach
    close_connection mark_canceled release_once
step-next h (reserves id) = ground arith
step-next h (revokes id) = ground arith
step-next h (activates b) = ground arith
step-next h (detaches b) = ground arith
step-next h (releases k) = release_once-next k (handle k h.handles) h
step-next h (receives b) = ground arith
step-next h (cancels none) = ground arith
step-next h (cancels (some b)) = ground arith
step-next h (sends id m) = ground arith

-- A message is accepted only where there is room for it.
send_to-room :
    (a b : ℕ) (m : HostMessage) (h : Hub)
    → (send_to m b h).1 ≡ true
    → (a == b) ≡ true
    → length (queue a h) < 16
unfolding send_to
send_to-room a b m h sent same =
    let e : a ≡ b = (==_iff a b).0 same in
    subst (λ x. length (queue x h) < 16) (sym e) (ground arith)

room_for :
    (t : Bool) (n : ℕ) (m : HostMessage)
    → n ≤ 16
    → (t ≡ true → n < 16)
    → n + length (if t then m ∷ [] else []) ≤ 16
room_for true n m le h = let lt = h refl in omega (arith, lt)
room_for false n m le h = omega arith

send-room :
    (a : ℕ) (m : HostMessage) (h : Hub) (o : Option ℕ)
    → length (queue a h) ≤ 16
    → let q : Hub × Bool = elim o [ none ↦ (h, false) | some b ↦ send_to m b h ] in
      length (queue a h) + length (if q.1 && attached_to a o then m ∷ [] else []) ≤ 16
send-room a m h none le = omega arith
send-room a m h (some b) le =
    room_for ((send_to m b h).1 && (a == b)) (length (queue a h)) m le
      (λ e. send_to-room a b m h (ground arith) (ground arith))

accepted-room :
    (a : ℕ) (h : Hub) (o : Op)
    → length (queue a h) ≤ 16
    → length (queue a h) + length (accepted a h o) ≤ 16
unfolding accepted send
accepted-room a h (sends id m) le = send-room a m h (h.connections id) le
accepted-room a h (reserves id) le = omega arith
accepted-room a h (revokes id) le = omega arith
accepted-room a h (activates b) le = omega arith
accepted-room a h (detaches b) le = omega arith
accepted-room a h (releases k) le = omega arith
accepted-room a h (receives b) le = omega arith
accepted-room a h (cancels o) le = omega arith

step-length :
    (a : ℕ) (h : Hub) (o : Op)
    → a < h.next
    → length (queue a h) ≤ 16
    → length (queue a (step h o)) ≤ 16
step-length a h o lt le =
    let same = ap length (step-queue a h o lt) in
    let room = accepted-room a h o le in
    omega (
      arith,
      same,
      room,
      length-append (taken a h o) (queue a (step h o)),
      length-append (queue a h) (accepted a h o),
    )

reserve_cases :
    (id : Text) (a : ℕ) (h : Hub) (blocked : Bool) (pending : Text → Option (List ℕ))
    → let q : Hub × Option ℕ = if blocked then (h, none) else (
      record h {
        heap = put_at h.next (fresh_reservation id) h.heap;
        next = suc h.next;
        pending = pending;
      },
      some h.next,
    ) in
      q.1 ≡ some a → (a < q.0.next) × (queue a q.0 ≡ [])
reserve_cases id a h true pending got = absurd (ground arith)
reserve_cases id a h false pending got =
    let e : h.next ≡ a = ground arith in
    (
      ground arith,
      ap messages_of (put_at-true h.next a (fresh_reservation id) h.heap (ground arith)),
    )

reserve-fresh :
    (id : Text) (a : ℕ) (h : Hub)
    → (reserve id h).1 ≡ some a
    → (a < (reserve id h).0.next) × (queue a (reserve id h).0 ≡ [])
unfolding reserve
reserve-fresh id a h = reserve_cases id a h (ltb 0 (h.blocked id)) _

-- The messages that are taken out of a connection and those that wait in it are the ones that waited
-- in it at first and the ones that it has accepted since, in their order, and no more than 16 wait.
run-queue :
    (a : ℕ) (h : Hub) (os : List Op)
    → a < h.next
    → length (queue a h) ≤ 16
    → (taken_by a h os ++ queue a (run h os) ≡ queue a h ++ accepted_by a h os)
      × (length (queue a (run h os)) ≤ 16)
unfolding run taken_by accepted_by
run-queue a h [] lt le = (sym (append-nil (queue a h)), le)
run-queue a h (o ∷ os) lt le =
    let (rest, bound) =
      run-queue a (step h o) os (omega (arith, lt, step-next h o)) (step-length a h o lt le) in
    (
      append_assoc (taken a h o) (taken_by a (step h o) os) (queue a (run (step h o) os))
          ∙ ap (λ x. taken a h o ++ x) rest
          ∙ sym (append_assoc (taken a h o) (queue a (step h o)) (accepted_by a (step h o) os))
          ∙ ap (λ x. x ++ accepted_by a (step h o) os) (step-queue a h o lt)
          ∙ append_assoc (queue a h) (accepted a h o) (accepted_by a (step h o) os),
      bound,
    )

-- From the reservation of a connection on, whatever hub calls of any goroutines follow, the messages
-- that are taken out of it, followed by those that wait in it, are the ones that it has accepted, each
-- once and in the order of the sends, and no more than 16 wait.
pub reserve-queue_order :
    (id : Text) (a : ℕ) (h : Hub) (os : List Op)
    → (reserve id h).1 ≡ some a
    → let h' = (reserve id h).0 in
      (taken_by a h' os ++ queue a (run h' os) ≡ accepted_by a h' os)
      × (length (queue a (run h' os)) ≤ 16)
reserve-queue_order id a h os got =
    let h' = (reserve id h).0 in
    let (new, empty) = reserve-fresh id a h got in
    let (order, bound) =
      run-queue a h' os new (subst (λ l. length l ≤ 16) (sym empty) (omega arith)) in
    (order ∙ ap (λ l. l ++ accepted_by a h' os) empty, bound)
