-- ===== src/Events.antt =====
-- internal/events/bus.go: the bus that stores an event and hands it to the subscribers. A map of
-- subscribers is a list of their numbers; the channels stand on a heap, so that a reader still
-- drains one that is closed.
pub mod Delivery
use ulcer.Prelude.{
  ℕ, ◌+◌, Bool, true, false, List, [], ◌∷◌, ◌++◌, ◌==◌, ltb, any, length, if◌then◌else◌,
}
use ulcer.Result.{Result, ok, err}
use ulcer.Model.{Event}
use ulcer.Platform.{Platform}
use ulcer.Store.Events.{append_event}

pub record Channel : Type 0 where
  pub queue : List Event
  pub closed : Bool

pub record Bus : Type 0 where
  pub next : ℕ
  pub subs : List ℕ
  pub channels : ℕ → Channel

unfoldable pub new_bus : Bus
new_bus = record { next = 0; subs = []; channels = λ _. record { queue = []; closed = true } }

abbrev pub channel_size : ℕ
channel_size = 32

abbrev pub has_room : Channel → Bool
has_room c = ltb (length c.queue) channel_size

abbrev pub is_subscribed : ℕ → List ℕ → Bool
is_subscribed a l = any (λ b. a == b) l

-- `select { case subscriber <- event: default: close(subscriber) }`
abbrev pub offer : Event → Channel → Channel
offer e c =
    if has_room c then record c { queue = c.queue ++ e ∷ [] } else record c { closed = true }

abbrev pub keep_ready : (ℕ → Channel) → List ℕ → List ℕ
keep_ready channels [] = []
keep_ready channels (a ∷ l) =
    if has_room (channels a) then a ∷ keep_ready channels l else keep_ready channels l

-- The part of Publish under the mutex: every subscriber gets the event, and one whose channel is
-- full is closed and forgotten.
unfoldable pub deliver : Event → Bus → Bus
deliver e b = record b {
  subs = keep_ready b.channels b.subs;
  channels = λ a. if is_subscribed a b.subs then offer e (b.channels a) else b.channels a;
}

unfoldable pub subscribe : Bus → Bus × ℕ
subscribe b = (
  record b {
    next = b.next + 1;
    subs = b.next ∷ b.subs;
    channels = λ a. if a == b.next then record { queue = []; closed = false } else b.channels a;
  },
  b.next,
)

abbrev pub drop_sub : ℕ → List ℕ → List ℕ
drop_sub a [] = []
drop_sub a (b ∷ l) = if a == b then drop_sub a l else b ∷ drop_sub a l

-- The function that Subscribe returns.
unfoldable pub unsubscribe : ℕ → Bus → Bus
unsubscribe id b =
    if is_subscribed id b.subs
    then record b {
      subs = drop_sub id b.subs;
      channels = λ a. if a == id then record (b.channels a) { closed = true } else b.channels a;
    }
    else b

module _ ⦃p : Platform⦄ where
  open p use {Db}

  unfoldable pub publish : ℕ → Event → Db → Bus → Result Event × Db × Bus
  unfolding append_event deliver
  publish now event d b =
      let (r, d') = append_event now event d in
      elim r [ err e ↦ (err e, d', b) | ok e ↦ (ok e, d', deliver e b) ]
