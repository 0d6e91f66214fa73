-- ===== src/Control/Hub/Ownership.antt =====
-- One connection of an identity at a time: who may take it off line, and what a full buffer does.
use ulcer.Prelude.{
  ℕ, ◌≤◌, ◌≡◌, ◌≢◌, true, false, Text, some, [], ◌∷◌, ◌++◌, arith, text_eq_refl, length,
  length-append, Bool-cases, Option-cases, inl, inr,
}
use ulcer.Model.{HostMessage}
use ulcer.Control.Hub.{Hub, activate, attach, forget, is_refused, detach, send, online, buffer_size}
use ulcer.Control.Hub.Invariant.{Inv, close_previous_lem}

attach_owner :
    (a b : ℕ) (h : Hub)
    → (h.heap a).id ≡ (h.heap b).id
    → a ≢ b
    → ((detach a (attach b h)).1 ≡ false)
      × ((detach b (attach b h)).1 ≡ true)
      × ((detach b (detach b (attach b h)).0).1 ≡ false)
unfolding attach detach
attach_owner a b h e ne = ground (
  arith,
  close_previous_lem (h.connections (h.heap b).id) h.heap a,
  close_previous_lem (h.connections (h.heap b).id) h.heap b,
  text_eq_refl (h.heap b).id,
)

-- A connection that another one of its identity has replaced does not take the identity off line;
-- the one that replaced it does, once.
pub detach-activate :
    (a b : ℕ) (h : Hub)
    → (activate b h).1 ≡ true
    → (h.heap a).id ≡ (h.heap b).id
    → a ≢ b
    → ((detach a (activate b h).0).1 ≡ false)
      × ((detach b (activate b h).0).1 ≡ true)
      × ((detach b (detach b (activate b h).0).0).1 ≡ false)
unfolding activate forget
detach-activate a b h act e ne = elim (Bool-cases (is_refused b h)) [
  | inl r ↦ ground arith
  | inr r ↦ rw r (attach_owner a b (forget b h) e ne)
]

-- A message for a full buffer is not queued: the connection is closed and counts as offline, and
-- its stream still owns the transition to offline.
pub send-full :
    (id : Text) (m : HostMessage) (a : ℕ) (h : Hub)
    → Inv h
    → h.connections id ≡ some a
    → (h.heap a).connection.closed ≡ false
    → buffer_size ≤ length (h.heap a).connection.messages
    → ((send id m h).1 ≡ false)
      × (online id (send id m h).0 ≡ false)
      × ((detach a (send id m h).0).1 ≡ true)
unfolding send online detach
send-full id m a h v e o f = ground (arith, v.attached id a, text_eq_refl id)

-- A message that is accepted is the last of the queue of the attached connection, which is open and
-- has room for it; no other queue changes.
pub send-queues :
    (id : Text) (m : HostMessage) (h : Hub)
    → (send id m h).1 ≡ true
    → (a : ℕ) × (h.connections id ≡ some a)
      × (online id (send id m h).0 ≡ true)
      × (((send id m h).0.heap a).connection.messages ≡ (h.heap a).connection.messages ++ m ∷ [])
      × (length ((send id m h).0.heap a).connection.messages ≤ buffer_size)
      × ((b : ℕ) → b ≢ a → (send id m h).0.heap b ≡ h.heap b)
unfolding send online
send-queues id m h e = elim (Option-cases (h.connections id)) [
  | inl c ↦ ground arith
  | inr (a, c) ↦ (
    a,
    c,
    ground arith,
    ground arith,
    ground (arith, length-append {0} {A = HostMessage} (h.heap a).connection.messages (m ∷ [])),
    λ b ne. ground arith,
  )
]
