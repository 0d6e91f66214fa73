-- ===== src/Control/Hub/Queue.antt =====
-- What each call of the hub does to the messages of a connection.
use mathlib.Core.List.{append-nil}
use ulcer.Prelude.{
  ℕ, ◌<◌, ◌≡◌, refl, sym, ap, ◌∙◌, Bool, true, false, ◌&&◌, Text, Option, none, some, List, [], ◌∷◌,
  ◌++◌, ◌==◌, ==_iff, ltb, length, arith, Bool-cases, inl, inr, if◌then◌else◌,
}
use ulcer.Model.{HostMessage}
use ulcer.Control.Hub.{
  Hub, Reservation, buffer_size, reserve, activate, detach, cancel, cancel_all, mark_canceled,
  revoke, release, release_once, send, send_to, receive, forget, attach, attached_to,
  close_previous, close_connection, put_at, closed_reservation, canceled_reservation, queue_message,
  handle, or_empty, is_refused,
}
use ulcer.Control.Hub.Fence.{
  Op, reserves, revokes, activates, detaches, releases, receives, cancels, sends, step,
}

-- The messages that wait in a connection.
abbrev pub queue : ℕ → Hub → List HostMessage
queue a h = (h.heap a).connection.messages

abbrev pub waiting : ℕ → (ℕ → Reservation) → List HostMessage
waiting a heap = (heap a).connection.messages

-- The message that a call has put into the connection, if it has.
unfoldable pub accepted : ℕ → Hub → Op → List HostMessage
accepted a h (sends id m) =
    if (send id m h).1 && attached_to a (h.connections id) then m ∷ [] else []
accepted a h _ = []

abbrev pub as_list : Option HostMessage → List HostMessage
as_list none = []
as_list (some m) = m ∷ []

-- The message that a call has taken out of the connection, if it has.
unfoldable pub taken : ℕ → Hub → Op → List HostMessage
taken a h (receives b) = if a == b then as_list (receive b h).1 else []
taken a h _ = []

unfoldable pub accepted_by : ℕ → Hub → List Op → List HostMessage
accepted_by a h [] = []
accepted_by a h (o ∷ os) = accepted a h o ++ accepted_by a (step h o) os

unfoldable pub taken_by : ℕ → Hub → List Op → List HostMessage
taken_by a h [] = []
taken_by a h (o ∷ os) = taken a h o ++ taken_by a (step h o) os

pub put_at-true {ℓ} :
    {V : Type ℓ} (b a : ℕ) (v : V) (m : ℕ → V) → (b == a) ≡ true → put_at b v m a ≡ v
put_at-true b a v m e = ap (λ t. if t then v else m a) e

put_at-false {ℓ} :
    {V : Type ℓ} (b a : ℕ) (v : V) (m : ℕ → V) → (b == a) ≡ false → put_at b v m a ≡ m a
put_at-false b a v m e = ap (λ t. if t then v else m a) e

==-swap : (a b : ℕ) (t : Bool) → (a == b) ≡ t → (b == a) ≡ t
==-swap a b true h = ground arith
==-swap a b false h = ground arith

abbrev pub messages_of : Reservation → List HostMessage
messages_of r = r.connection.messages

-- A change of a reservation that keeps its messages.
put_at-waiting :
    (a b : ℕ) (heap : ℕ → Reservation) (r : Reservation)
    → r.connection.messages ≡ waiting b heap
    → waiting a (put_at b r heap) ≡ waiting a heap
put_at-waiting a b heap r h = elim (Bool-cases (b == a)) [
  | inl e ↦
      ap messages_of (put_at-true b a r heap e) ∙ h ∙ ap (λ x. waiting x heap) ((==_iff b a).0 e)
  | inr e ↦ ap messages_of (put_at-false b a r heap e)
]

put_at-other :
    (a b : ℕ) (heap : ℕ → Reservation) (r : Reservation)
    → a < b
    → waiting a (put_at b r heap) ≡ waiting a heap
put_at-other a b heap r lt = ap messages_of (put_at-false b a r heap (ground arith))

close_previous-waiting :
    (a : ℕ) (o : Option ℕ) (heap : ℕ → Reservation)
    → waiting a (close_previous o heap) ≡ waiting a heap
close_previous-waiting a none heap = refl
close_previous-waiting a (some b) heap = put_at-waiting a b heap (closed_reservation (heap b)) refl

cancel_all-waiting :
    (a : ℕ) (l : List ℕ) (heap : ℕ → Reservation) → waiting a (cancel_all l heap) ≡ waiting a heap
unfolding cancel_all
cancel_all-waiting a [] heap = refl
cancel_all-waiting a (b ∷ l) heap =
    cancel_all-waiting a l (put_at b (canceled_reservation (heap b)) heap)
    ∙ put_at-waiting a b heap (canceled_reservation (heap b)) refl

activate-queue : (a b : ℕ) (h : Hub) → queue a (activate b h).0 ≡ queue a h
unfolding activate attach forget close_connection
activate-queue a b h = elim (Bool-cases (is_refused b h)) [
  | inl e ↦ rw e (put_at-waiting a b h.heap (closed_reservation (h.heap b)) refl)
  | inr e ↦ rw e (close_previous-waiting a (h.connections (h.heap b).id) h.heap)
]

detach-queue : (a b : ℕ) (h : Hub) → queue a (detach b h).0 ≡ queue a h
unfolding detach close_connection
detach-queue a b h = elim (Bool-cases (attached_to b (h.connections (h.heap b).id))) [
  | inl e ↦ rw e (put_at-waiting a b h.heap (closed_reservation (h.heap b)) refl)
  | inr e ↦ rw e refl
]

cancel-queue : (a : ℕ) (o : Option ℕ) (h : Hub) → queue a (cancel o h) ≡ queue a h
unfolding cancel mark_canceled forget
cancel-queue a none h = refl
cancel-queue a (some b) h = put_at-waiting a b h.heap (canceled_reservation (h.heap b)) refl

release_once-queue :
    (a k : ℕ) (o : Option Text) (h : Hub) → queue a (release_once k o h) ≡ queue a h
unfolding release_once
release_once-queue a k none h = refl
release_once-queue a k (some id) h = refl

reserve-queue : (a : ℕ) (id : Text) (h : Hub) → a < h.next → queue a (reserve id h).0 ≡ queue a h
unfolding reserve
reserve-queue a id h lt = elim (Bool-cases (ltb 0 (h.blocked id))) [
  | inl e ↦ rw e refl
  | inr e ↦ rw e (put_at-other a h.next h.heap _ lt)
]

revoke-queue : (a : ℕ) (id : Text) (h : Hub) → queue a (revoke id h).0 ≡ queue a h
unfolding revoke
revoke-queue a id h =
    close_previous-waiting a (h.connections id) (cancel_all (or_empty (h.pending id)) h.heap)
    ∙ cancel_all-waiting a (or_empty (h.pending id)) h.heap

-- A message at the end of the queue of b, if it is that of a.
put_at-queue_message :
    (a b : ℕ) (m : HostMessage) (heap : ℕ → Reservation) (same : Bool)
    → (a == b) ≡ same
    → waiting a (put_at b (queue_message m (heap b)) heap)
      ≡ waiting a heap ++ (if same then m ∷ [] else [])
put_at-queue_message a b m heap true e =
    ap messages_of (put_at-true b a _ heap (==-swap a b true e))
    ∙ ap (λ x. waiting x heap ++ m ∷ []) (sym ((==_iff a b).0 e))
put_at-queue_message a b m heap false e =
    ap messages_of (put_at-false b a _ heap (==-swap a b false e))
    ∙ sym (append-nil (waiting a heap))

send_cases :
    (a b : ℕ) (m : HostMessage) (h : Hub) (closed room : Bool)
    → let q : Hub × Bool =
        if closed
        then (h, false)
        else if room
        then (record h { heap = put_at b (queue_message m (h.heap b)) h.heap }, true)
        else (close_connection b h, false) in
      queue a q.0 ≡ queue a h ++ (if q.1 && (a == b) then m ∷ [] else [])
unfolding close_connection
send_cases a b m h true room = sym (append-nil (queue a h))
send_cases a b m h false true = put_at-queue_message a b m h.heap (a == b) refl
send_cases a b m h false false =
    put_at-waiting a b h.heap (closed_reservation (h.heap b)) refl ∙ sym (append-nil (queue a h))

send-queue :
    (a : ℕ) (m : HostMessage) (h : Hub) (o : Option ℕ)
    → let q : Hub × Bool = elim o [ none ↦ (h, false) | some b ↦ send_to m b h ] in
      queue a q.0 ≡ queue a h ++ (if q.1 && attached_to a o then m ∷ [] else [])
unfolding send_to
send-queue a m h none = sym (append-nil (queue a h))
send-queue a m h (some b) =
    send_cases a b m h (h.heap b).connection.closed
      (ltb (length (h.heap b).connection.messages) buffer_size)

if-nil {ℓ} : {A : Type ℓ} (t : Bool) (xs : List A) → (if t then [] else []) ++ xs ≡ xs
if-nil true xs = refl
if-nil false xs = refl

-- The first message of b put back before the rest, if b is a.
put_at-first :
    (a b : ℕ) (n : HostMessage) (ns : List HostMessage) (heap : ℕ → Reservation) (r : Reservation)
    (same : Bool)
    → (a == b) ≡ same
    → waiting b heap ≡ n ∷ ns
    → r.connection.messages ≡ ns
    → (if same then n ∷ [] else []) ++ waiting a (put_at b r heap) ≡ waiting a heap
put_at-first a b n ns heap r true e h g =
    ap (λ x. n ∷ x) (ap messages_of (put_at-true b a r heap (==-swap a b true e)) ∙ g)
    ∙ sym h
    ∙ ap (λ x. waiting x heap) (sym ((==_iff a b).0 e))
put_at-first a b n ns heap r false e h g =
    ap messages_of (put_at-false b a r heap (==-swap a b false e))

receive_cases :
    (a b : ℕ) (h : Hub) (ms : List HostMessage)
    → (h.heap b).connection.messages ≡ ms
    → let q : Hub × Option HostMessage = elim ms [
      | [] ↦ (h, none)
      | n ∷ ns ↦ (
        record h {
          heap =
              put_at b
                (record (h.heap b) { connection = record (h.heap b).connection { messages = ns } })
                h.heap;
        },
        some n,
      )
    ] in
      (if a == b then as_list q.1 else []) ++ queue a q.0 ≡ queue a h
receive_cases a b h [] e = if-nil (a == b) (queue a h)
receive_cases a b h (n ∷ ns) e = put_at-first a b n ns h.heap _ (a == b) refl e refl

receive-queue :
    (a b : ℕ) (h : Hub)
    → (if a == b then as_list (receive b h).1 else []) ++ queue a (receive b h).0 ≡ queue a h
unfolding receive
receive-queue a b h = receive_cases a b h (h.heap b).connection.messages refl

pub step-queue :
    (a : ℕ) (h : Hub) (o : Op)
    → a < h.next
    → taken a h o ++ queue a (step h o) ≡ queue a h ++ accepted a h o
unfolding step taken accepted send receive release
step-queue a h (reserves id) lt = reserve-queue a id h lt ∙ sym (append-nil (queue a h))
step-queue a h (revokes id) lt = revoke-queue a id h ∙ sym (append-nil (queue a h))
step-queue a h (activates b) lt = activate-queue a b h ∙ sym (append-nil (queue a h))
step-queue a h (detaches b) lt = detach-queue a b h ∙ sym (append-nil (queue a h))
step-queue a h (releases k) lt =
    release_once-queue a k (handle k h.handles) h ∙ sym (append-nil (queue a h))
step-queue a h (receives b) lt = receive-queue a b h ∙ sym (append-nil (queue a h))
step-queue a h (cancels o) lt = cancel-queue a o h ∙ sym (append-nil (queue a h))
step-queue a h (sends id m) lt = send-queue a m h (h.connections id)
