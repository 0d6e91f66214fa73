-- ===== src/Control/Stream/Safety.antt =====
-- A stream needs the certificate of its identity, and ends when the identity is revoked.
use ulcer.Prelude.{
  ℕ, ◌≡◌, refl, ◌≢◌, ◌<◌, ◌⊎◌, inl, inr, Bool, true, Text, text, Option, none, some, List, [], ◌∷◌,
  ◌++◌, arith, any, All, sym, subst, inl, Bool-cases, text_eq, text_eq_refl, ◌∙◌, ap,
}
use ulcer.Result.{Result, ok, err}
use ulcer.Model.{Instance}
use ulcer.Store.Instances.{update_instance}
use ulcer.Platform.{Platform}
use ulcer.Control.Hub.{Hub, revoke, detach, if_not_revoked}
use ulcer.Control.Hub.Invariant.{Inv, revoke-Inv}
use ulcer.Control.Hub.Fence.{Op, Spares, run, run-Inv, revoke-IsFenced, revoke-fences}
use ulcer.Control.Server.{
  Code, aborted, permission_denied, invalid_argument, refuses, InstanceMessage, World, connect,
  hello, status, meters, empty, disconnect, opens, mark_offline, take_offline, publish_event, event,
  go_offline,
}
use ulcer.Control.Stream.{
  Peer, missing, unverified, verified, authorize_instance, Race, Waking, Standing, over, waiting,
  converse, Course, ends, serve, conclude, is_closed, connect_stream, hello_id, after_opening,
}

module _ ⦃p : Platform⦄ where
  open p use {Db}

  -- A round of the loop in which the connection is found closed.
  serve-closed :
      (now : ℕ) (others : World → World) (id : Text) (a : ℕ) (k : Waking) (ks : List Waking)
      (w : World)
      → is_closed a (others w).hub ≡ true
      → serve now others id a (k ∷ ks) w ≡ ends (some aborted) (others w)
  unfolding serve
  serve-closed now others id a k ks w h = rw h refl

  -- Without an entry in the map, the deferred function of a stream changes nothing.
  disconnect_gone :
      (now : ℕ) (id : Text) (a : ℕ) (w : World)
      → w.hub.connections (w.hub.heap a).id ≡ none
      → disconnect now id a w ≡ w
  unfolding disconnect detach
  disconnect_gone now id a w h = rw h refl

  -- Once its identity is revoked, whatever hub calls have followed but that of the release function,
  -- a stream ends in its next round: it takes no message, sends none, and its end changes nothing.
  pub serve-revoke :
      (now : ℕ) (others : World → World) (id : Text) (a : ℕ) (k : Waking) (ks : List Waking)
      (w : World) (h : Hub) (os : List Op)
      → Inv h
      → All (Spares (revoke id h).1) os
      → (others w).hub ≡ run (revoke id h).0 os
      → a < (others w).hub.next
      → ((others w).hub.heap a).id ≡ id
      → conclude now id a (serve now others id a (k ∷ ks) w)
        ≡ record { standing = over (some aborted); sent = []; world = others w }
  unfolding conclude is_closed
  serve-revoke now others id a k ks w h os v sp same lt of =
      let g = run (revoke id h).0 os in
      let still = run-Inv (revoke id h).0 os (revoke-Inv id h v) in
      let shut =
        subst (λ x. a < x.next → (x.heap a).id ≡ id → is_closed a x ≡ true) (sym same)
          (λ lt' of'. (revoke-IsFenced h id os v sp).all_closed a lt' of') lt of in
      let gone : (others w).hub.connections id ≡ none =
        subst (λ x. x.connections id ≡ none) (sym same)
          (still.fenced id (revoke-fences h id os v sp)).0 in
      ap (conclude now id a) (serve-closed now others id a k ks w shut)
      ∙ ap (λ x. record { standing = over (some aborted); sent = []; world = x })
          (disconnect_gone now id a (others w) (ap (others w).hub.connections of ∙ gone))

  authorized_lem :
      (equal_fold : Text → Text → Bool) (peer : Peer) (id : Text)
      → ((c : Code) × (authorize_instance equal_fold peer id ≡ some c))
        ⊎ ((uris : List Text) × (peer ≡ verified uris)
            × (any (λ uri. equal_fold uri (text "spiffe://ulcer/instance/" ++ id)) uris ≡ true))
  unfolding authorize_instance
  authorized_lem equal_fold missing id = inl (_, refl)
  authorized_lem equal_fold unverified id = inl (_, refl)
  authorized_lem equal_fold (verified uris) id =
      let b = any (λ uri. equal_fold uri (text "spiffe://ulcer/instance/" ++ id)) uris in
      elim (Bool-cases b) [
        | inl e ↦ inr (uris, refl, e)
        | inr e ↦ inl (permission_denied, rw e refl)
      ]

  connect-refused :
      (now : ℕ) (others : ℕ → World → World) (first : InstanceMessage) (c : Code) (w : World)
      → (x : Code) × (connect now others first (some c) w ≡ (refuses x, w))
  unfolding connect
  connect-refused now others (status s) c w = (_, refl)
  connect-refused now others (meters m) c w = (_, refl)
  connect-refused now others empty c w = (_, refl)
  connect-refused now others (hello h) c w = elim (Bool-cases (text_eq h.instance_id [])) [
    | inl e ↦ (invalid_argument, rw e refl)
    | inr e ↦ (c, rw e refl)
  ]

  -- A stream either ends with an error, having changed nothing and sent nothing, or comes from a
  -- verified peer whose certificate has the URI of the identity that the stream names.
  pub connect_stream-authorized :
      (now : ℕ) (others : ℕ → World → World) (equal_fold : Text → Text → Bool) (peer : Peer)
      (first : InstanceMessage) (race : Race) (ks : List Waking) (w : World)
      → ((c : Code) × (connect_stream now others equal_fold peer first race ks w ≡ ends (some c) w))
        ⊎ ((uris : List Text) × (peer ≡ verified uris)
            × (any (λ uri. equal_fold uri (text "spiffe://ulcer/instance/" ++ hello_id first)) uris
                ≡ true))
  unfolding connect_stream after_opening
  connect_stream-authorized now others equal_fold peer first race ks w =
      elim (authorized_lem equal_fold peer (hello_id first)) [
        | inr found ↦ inr found
        | inl (c, e) ↦
            let (x, q) = connect-refused now others first c w in
            inl (x, rw e (ap (after_opening now (others 3) (hello_id first) race ks) q))
      ]

  mark_offline-hub : (now : ℕ) (id : Text) (w : World) → (mark_offline now id w).hub ≡ w.hub
  unfolding mark_offline take_offline publish_event
  mark_offline-hub now id w = elim (Bool-cases (if_not_revoked id w.hub)) [
    | inr e ↦ rw e refl
    | inl e ↦
        rw e (
          kept (update_instance now id go_offline w.db).0
            (update_instance now id go_offline w.db).1)
  ]
    where
      kept :
          (r : Result Instance) (d : Db)
          → (elim r as (λ _. World) [
            | err _ ↦ record w { db = d }
            | ok _ ↦
                publish_event now (event (text "instance.disconnected") id []) (record w { db = d })
          ]).hub
            ≡ w.hub
      kept (ok i) d = refl
      kept (err x) d = refl

  -- The connection is not in the map.
  abbrev pub IsDetached : ℕ → Hub → Type 0
  IsDetached a h = h.connections (h.heap a).id ≢ some a

  detach_lem : (a : ℕ) (h : Hub) → IsDetached a (detach a h).0
  unfolding detach
  detach_lem a h e = ground (arith, text_eq_refl (h.heap a).id)

  disconnect-hub :
      (now : ℕ) (id : Text) (a : ℕ) (w : World) → (disconnect now id a w).hub ≡ (detach a w.hub).0
  unfolding disconnect
  disconnect-hub now id a w = elim (Bool-cases (detach a w.hub).1) [
    | inr e ↦ rw e refl
    | inl e ↦ rw e (mark_offline-hub now id (record w { hub = (detach a w.hub).0 }))
  ]

  conclude_lem :
      (now : ℕ) (id : Text) (a : ℕ) (c : Course) (st : Standing)
      → c.standing ≡ st
      → ((conclude now id a c).standing ≡ waiting)
        ⊎ ((conclude now id a c).world.hub ≡ (detach a c.world.hub).0)
  unfolding conclude
  conclude_lem now id a c waiting h = inl (rw h refl)
  conclude_lem now id a c (over x) h = inr (rw h (disconnect-hub now id a c.world))

  -- A stream that has been opened and is over has left the hub: its connection is not the one of its
  -- identity any more, whatever ended the stream and whatever the others have done.
  pub connect_stream-IsDetached :
      (now : ℕ) (others : ℕ → World → World) (equal_fold : Text → Text → Bool) (peer : Peer)
      (first : InstanceMessage) (race : Race) (ks : List Waking) (w w1 : World) (a : ℕ)
      (i : Instance) (x : Option Code)
      → connect now others first (authorize_instance equal_fold peer (hello_id first)) w
        ≡ (opens a i, w1)
      → (connect_stream now others equal_fold peer first race ks w).standing ≡ over x
      → IsDetached a (connect_stream now others equal_fold peer first race ks w).world.hub
  unfolding connect_stream after_opening
  connect_stream-IsDetached now others equal_fold peer first race ks w w1 a i x opened h =
      let c = converse now (others 3) (hello_id first) a i race ks w1 in
      let same = ap (after_opening now (others 3) (hello_id first) race ks) opened in
      subst (λ z. IsDetached a z.world.hub) (sym same)
        (elim (conclude_lem now i.id a c c.standing refl) [
          | inl e ↦ absurd (ground (arith, same))
          | inr e ↦ subst (IsDetached a) (sym e) (detach_lem a c.world.hub)
        ])
