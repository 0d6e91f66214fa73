-- ===== src/Control/Hub.antt =====
-- internal/control/hub.go. The mutex makes each method one step. A reservation and its connection
-- are allocated together and share an address; `handles` are the release functions that Revoke has
-- returned, each with the identity that it will unblock or, once called, with `none`. A channel is
-- the list of its messages, the oldest first.
pub mod Invariant
pub mod Fence
pub mod Ownership
pub mod Queue
pub mod Order
use ulcer.Prelude.{
  ℕ, zero, suc, ◌+◌, ◌-◌, Bool, true, false, ◌&&◌, ◌||◌, not, Text, Option, none, some, List, [],
  ◌∷◌, ◌++◌, ltb, leb, ◌==◌, text_eq, length, any, if◌then◌else◌,
}
use ulcer.Model.{HostMessage}

pub record Connection : Type 0 where
  pub messages : List HostMessage
  pub closed : Bool

pub record Reservation : Type 0 where
  pub id : Text
  pub connection : Connection
  pub canceled : Bool

pub record Hub : Type 0 where
  pub heap : ℕ → Reservation
  pub next : ℕ
  pub connections : Text → Option ℕ
  pub pending : Text → Option (List ℕ)
  pub blocked : Text → ℕ
  pub handles : List (Option Text)

abbrev pub buffer_size : ℕ
buffer_size = 16

-- m[k] = v
abbrev pub put {ℓ} : {V : Type ℓ} → Text → V → (Text → V) → Text → V
put k v m j = if text_eq k j then v else m j

abbrev pub put_at {ℓ} : {V : Type ℓ} → ℕ → V → (ℕ → V) → ℕ → V
put_at a v m b = if a == b then v else m b

abbrev pub contains : ℕ → List ℕ → Bool
contains a l = any (λ b. a == b) l

-- delete(set, a)
abbrev pub remove : ℕ → List ℕ → List ℕ
remove a [] = []
remove a (b ∷ l) = if a == b then remove a l else b ∷ remove a l

pub nobody : Reservation
nobody = record { id = []; connection = record { messages = []; closed = true }; canceled = true }

unfoldable pub new_hub : Hub
unfolding nobody
new_hub = record {
  heap = λ _. nobody;
  next = 0;
  connections = λ _. none;
  pending = λ _. none;
  blocked = λ _. 0;
  handles = [];
}

abbrev pub closed_reservation : Reservation → Reservation
closed_reservation r = record r { connection = record r.connection { closed = true } }

-- closeConnection, which does nothing to a connection that is closed.
abbrev pub close_at : ℕ → (ℕ → Reservation) → ℕ → Reservation
close_at a heap = put_at a (closed_reservation (heap a)) heap

unfoldable pub close_connection : ℕ → Hub → Hub
close_connection a h = record h { heap = close_at a h.heap }

abbrev pub fresh_reservation : Text → Reservation
fresh_reservation id = record {
  id = id;
  connection = record { messages = []; closed = false };
  canceled = false;
}

abbrev pub or_empty : Option (List ℕ) → List ℕ
or_empty none = []
or_empty (some l) = l

unfoldable pub reserve : Text → Hub → Hub × Option ℕ
reserve id h = if ltb 0 (h.blocked id) then (h, none) else (
  record h {
    heap = put_at h.next (fresh_reservation id) h.heap;
    next = suc h.next;
    pending = put id (some (h.next ∷ or_empty (h.pending id))) h.pending;
  },
  some h.next,
)

abbrev pub non_empty : List ℕ → Option (List ℕ)
non_empty [] = none
non_empty (a ∷ l) = some (a ∷ l)

-- Take a reservation out of the set of its identity; an empty set leaves the map.
unfoldable pub without_pending : ℕ → Text → (Text → Option (List ℕ)) → Text → Option (List ℕ)
without_pending a id m j = elim (m id) [ none ↦ m j | some l ↦ put id (non_empty (remove a l)) m j ]

unfoldable pub forget : ℕ → Hub → Hub
forget a h = record h { pending = without_pending a (h.heap a).id h.pending }

unfoldable pub is_pending : ℕ → Hub → Bool
is_pending a h = contains a (or_empty (h.pending (h.heap a).id))

abbrev pub close_previous : Option ℕ → (ℕ → Reservation) → ℕ → Reservation
close_previous none heap b = heap b
close_previous (some a) heap b = close_at a heap b

unfoldable pub attach : ℕ → Hub → Hub
attach a h = record h {
  heap = close_previous (h.connections (h.heap a).id) h.heap;
  connections = put (h.heap a).id (some a) h.connections;
}

-- `!exists || reservation.canceled || h.blocked[reservation.id] > 0`
unfoldable pub is_refused : ℕ → Hub → Bool
unfolding is_pending
is_refused a h = not (is_pending a h) || (h.heap a).canceled || ltb 0 (h.blocked (h.heap a).id)

unfoldable pub activate : ℕ → Hub → Hub × Bool
unfolding forget is_refused attach close_connection
activate a h =
    let h' = forget a h in
    if is_refused a h then (close_connection a h', false) else (attach a h', true)

abbrev pub attached_to : ℕ → Option ℕ → Bool
attached_to a none = false
attached_to a (some b) = a == b

-- The function that Activate returns.
unfoldable pub detach : ℕ → Hub → Hub × Bool
unfolding close_connection
detach a h =
    if attached_to a (h.connections (h.heap a).id)
    then (
      close_connection a (record h { connections = put (h.heap a).id none h.connections }),
      true,
    )
    else (h, false)

abbrev pub canceled_reservation : Reservation → Reservation
canceled_reservation r = record r {
  canceled = true;
  connection = record r.connection { closed = true };
}

unfoldable pub mark_canceled : ℕ → Hub → Hub
mark_canceled a h = record h { heap = put_at a (canceled_reservation (h.heap a)) h.heap }

unfoldable pub cancel : Option ℕ → Hub → Hub
unfolding mark_canceled forget
cancel none h = h
cancel (some a) h = mark_canceled a (forget a h)

unfoldable pub cancel_all : List ℕ → (ℕ → Reservation) → ℕ → Reservation
cancel_all [] heap = heap
cancel_all (a ∷ l) heap = cancel_all l (put_at a (canceled_reservation (heap a)) heap)

-- The new hub, and the number of the release function.
unfoldable pub revoke : Text → Hub → Hub × ℕ
unfolding cancel_all
revoke id h = (
  record h {
    heap = close_previous (h.connections id) (cancel_all (or_empty (h.pending id)) h.heap);
    connections = put id none h.connections;
    pending = put id none h.pending;
    blocked = put id (h.blocked id + 1) h.blocked;
    handles = h.handles ++ some id ∷ [];
  },
  length h.handles,
)

abbrev pub handle : ℕ → List (Option Text) → Option Text
handle k [] = none
handle zero (x ∷ xs) = x
handle (suc k) (x ∷ xs) = handle k xs

abbrev pub spend : ℕ → List (Option Text) → List (Option Text)
spend k [] = []
spend zero (x ∷ xs) = none ∷ xs
spend (suc k) (x ∷ xs) = x ∷ spend k xs

unfoldable pub release_once : ℕ → Option Text → Hub → Hub
release_once k none h = h
release_once k (some id) h = record h {
  blocked = put id (h.blocked id - 1) h.blocked;
  handles = spend k h.handles;
}

-- once.Do: the second call of a release function does nothing.
unfoldable pub release : ℕ → Hub → Hub
unfolding release_once
release k h = release_once k (handle k h.handles) h

abbrev pub is_open : Hub → Option ℕ → Bool
is_open h none = false
is_open h (some a) = not (h.heap a).connection.closed

unfoldable pub online : Text → Hub → Bool
online id h = is_open h (h.connections id)

-- Whether the action of IfNotRevoked and of IfOnline runs. The action is run under the mutex.
unfoldable pub if_not_revoked : Text → Hub → Bool
if_not_revoked id h = not (ltb 0 (h.blocked id))

unfoldable pub if_online : Text → Hub → Bool
if_online id h = not (ltb 0 (h.blocked id)) && is_open h (h.connections id)

abbrev pub queue_message : HostMessage → Reservation → Reservation
queue_message m r = record r {
  connection = record r.connection { messages = r.connection.messages ++ m ∷ [] };
}

unfoldable pub send_to : HostMessage → ℕ → Hub → Hub × Bool
unfolding close_connection
send_to m a h =
    if (h.heap a).connection.closed
    then (h, false)
    else if ltb (length (h.heap a).connection.messages) buffer_size
    then (record h { heap = put_at a (queue_message m (h.heap a)) h.heap }, true)
    else (close_connection a h, false)

unfoldable pub send : Text → HostMessage → Hub → Hub × Bool
unfolding send_to
send id m h = elim (h.connections id) [ none ↦ (h, false) | some a ↦ send_to m a h ]

-- A stream takes the oldest message out of its channel.
unfoldable pub receive : ℕ → Hub → Hub × Option HostMessage
receive a h = elim (h.heap a).connection.messages [
  | [] ↦ (h, none)
  | m ∷ ms ↦ (
    record h {
      heap =
          put_at a
            (record (h.heap a) { connection = record (h.heap a).connection { messages = ms } })
            h.heap;
    },
    some m,
  )
]
