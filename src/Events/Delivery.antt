-- ===== src/Events/Delivery.antt =====
-- What a subscriber finds in its channel.
use ulcer.Prelude.{
  ℕ, ◌+◌, ◌≤◌, ◌≡◌, refl, sym, ◌∙◌, true, List, [], ◌∷◌, ◌++◌, length, length-append, arith,
}
use mathlib.Core.List.{append-nil, append_assoc}
use ulcer.Model.{Event}
use ulcer.Events.{Bus, Channel, channel_size, has_room, is_subscribed, keep_ready, deliver}

-- Events delivered one after another.
unfoldable pub deliver_all : List Event → Bus → Bus
deliver_all [] b = b
deliver_all (e ∷ es) b = deliver_all es (deliver e b)

is_subscribed-keep_ready :
    (a : ℕ) (channels : ℕ → Channel) (l : List ℕ)
    → has_room (channels a) ≡ true
    → is_subscribed a (keep_ready channels l) ≡ is_subscribed a l
is_subscribed-keep_ready a channels [] h = refl
is_subscribed-keep_ready a channels (b ∷ l) h =
    ground (arith, is_subscribed-keep_ready a channels l)

-- A subscriber whose channel has room for them gets every event, once and in the order of delivery,
-- and stays subscribed.
pub deliver_all-queue :
    (es : List Event) (b : Bus) (a : ℕ)
    → is_subscribed a b.subs ≡ true
    → length (b.channels a).queue + length es ≤ channel_size
    → (((deliver_all es b).channels a).queue ≡ (b.channels a).queue ++ es)
      × (is_subscribed a (deliver_all es b).subs ≡ true)
unfolding deliver_all deliver
deliver_all-queue [] b a s r = (sym (append-nil (b.channels a).queue), s)
deliver_all-queue (e ∷ es) b a s r =
    let q = (b.channels a).queue in
    let b' = deliver e b in
    let sub : is_subscribed a b'.subs ≡ true =
      is_subscribed-keep_ready a b.channels b.subs (ground arith) ∙ s in
    let queued : (b'.channels a).queue ≡ q ++ e ∷ [] = ground arith in
    let len = length-append {0} {A = Event} q (e ∷ []) in
    let rest = deliver_all-queue es b' a sub (ground (arith, len)) in
    (rest.0 ∙ rw queued (append_assoc q (e ∷ []) es), rest.1)
