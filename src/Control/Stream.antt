-- ===== src/Control/Stream.antt =====
-- internal/control/server.go: the certificate check, the sends and the loop of Connect. A list says
-- what wakes the select of the loop, one entry for each of its rounds.
pub mod Safety
use ulcer.Prelude.{
  ℕ, Bool, true, false, Text, text, Option, none, some, List, [], ◌∷◌, ◌++◌, any, ltb,
  if◌then◌else◌,
}
use ulcer.Model.{Instance, HostMessage}
use ulcer.Platform.{Platform}
use ulcer.Control.Hub.{Hub, receive}
use ulcer.Control.Server.{
  Code, unauthenticated, permission_denied, aborted, InstanceMessage, hello, World, Opening, opens,
  refuses, connect, handle_message, first_message, disconnect,
}

-- What peer.FromContext knows of the connection: the URIs of the first certificate of the first
-- verified chain, if there is one.
pub data Peer : Type 0 where
  missing unverified : Peer
  verified : List Text → Peer

-- `equal_fold` is strings.EqualFold.
unfoldable pub authorize_instance : (Text → Text → Bool) → Peer → Text → Option Code
authorize_instance equal_fold missing id = some unauthenticated
authorize_instance equal_fold unverified id = some unauthenticated
authorize_instance equal_fold (verified uris) id =
    if any (λ uri. equal_fold uri (text "spiffe://ulcer/instance/" ++ id)) uris
    then none
    else some permission_denied

-- Which case the select of sendWhileConnected takes: the end of the connection, that of the context,
-- or the result of Send.
pub data Race : Type 0 where
  disconnects : Race
  context_done : Code → Race
  sends : Option Code → Race

unfoldable pub send_while_connected : Race → Option Code
send_while_connected disconnects = some aborted
send_while_connected (context_done c) = some c
send_while_connected (sends result) = result

-- What wakes the loop; `none` is io.EOF, and a race is that of the send that follows.
pub data Waking : Type 0 where
  context_ends : Code → Waking
  connection_ends : Waking
  receive_fails : Option Code → Waking
  receive_ends : Waking
  receives : InstanceMessage → Race → Waking
  takes : Race → Waking

-- How a stream stands: over, with its error if there is one, or in the select of its loop.
pub data Standing : Type 0 where
  over : Option Code → Standing
  waiting : Standing

unfoldable pub is_closed : ℕ → Hub → Bool
is_closed a h = (h.heap a).connection.closed

module _ ⦃p : Platform⦄ where
  pub record Course : Type 0 where
    pub standing : Standing
    pub sent : List HostMessage
    pub world : World

  abbrev pub ends : Option Code → World → Course
  ends c w = record { standing = over c; sent = []; world = w }

  -- A message that was sent before the rest of a course.
  abbrev pub after_send : Option HostMessage → Course → Course
  after_send none c = c
  after_send (some m) c = record c { sent = m ∷ c.sent }

  -- A message out of the channel of the connection; a channel that is closed and empty ends the
  -- stream, an empty one does not wake it.
  unfoldable pub forward : ℕ → Option HostMessage → Race → World → Course → Course
  unfolding is_closed send_while_connected
  forward a none race w rest = if is_closed a w.hub then ends (some aborted) w else rest
  forward a (some m) race w rest =
      if is_closed a w.hub then ends (some aborted) w else elim (send_while_connected race) [
        | some c ↦ ends (some c) w
        | none ↦ after_send (some m) rest
      ]

  -- The loop, for the connection at an address. The others act before each round, while the
  -- select waits, and between the calls for a message.
  unfoldable pub serve : ℕ → (World → World) → Text → ℕ → List Waking → World → Course
  unfolding is_closed handle_message send_while_connected forward receive
  serve now others id a [] w = record { standing = waiting; sent = []; world = w }
  serve now others id a (k ∷ ks) w =
      let w1 = others w in
      let w2 = others w1 in
      if is_closed a w1.hub then ends (some aborted) w1 else elim k [
        | context_ends c ↦ ends (some c) w2
        | connection_ends ↦
            let rest = serve now others id a ks w2 in
            if is_closed a w2.hub then ends (some aborted) w2 else rest
        | receive_fails c ↦ ends c w2
        | receive_ends ↦ ends none w2
        | receives m race ↦
            let reply = handle_message now others id m (send_while_connected race) w2 in
            let rest = serve now others id a ks reply.world in
            after_send reply.sent
              (elim reply.code [ some c ↦ ends (some c) reply.world | none ↦ rest ])
        | takes race ↦
            let (hub', o) = receive a w2.hub in
            let w3 = record w2 { hub = hub' } in
            let rest = serve now others id a ks w3 in forward a o race w3 rest
      ]

  -- The part of Connect between the opening and its deferred end.
  unfoldable pub converse :
      ℕ → (World → World) → Text → ℕ → Instance → Race → List Waking → World → Course
  unfolding first_message send_while_connected serve
  converse now others id a i race ks w =
      let rest = serve now others id a ks w in
      elim (first_message i) [
        | none ↦ rest
        | some m ↦ elim (send_while_connected race) [
          | some c ↦ ends (some c) w
          | none ↦ after_send (some m) rest
        ]
      ]

  -- The deferred function runs when the stream is over.
  unfoldable pub conclude : ℕ → Text → ℕ → Course → Course
  unfolding disconnect
  conclude now id a c = elim c.standing [
    | waiting ↦ c
    | over _ ↦ record c { world = disconnect now id a c.world }
  ]

  unfoldable pub after_opening :
      ℕ → (World → World) → Text → Race → List Waking → Opening × World → Course
  unfolding converse conclude
  after_opening now others id race ks (refuses c, w) = ends (some c) w
  after_opening now others id race ks (opens a i, w) =
      conclude now i.id a (converse now others id a i race ks w)

  abbrev pub hello_id : InstanceMessage → Text
  hello_id (hello h) = h.instance_id
  hello_id _ = []

  -- Connect, from its first message on.
  unfoldable pub connect_stream :
      ℕ
      → (ℕ → World → World)
      → (Text → Text → Bool)
      → Peer
      → InstanceMessage
      → Race
      → List Waking
      → World
      → Course
  unfolding connect after_opening authorize_instance
  connect_stream now others equal_fold peer first race ks w =
      after_opening now (others 3) (hello_id first) race ks
        (connect now others first (authorize_instance equal_fold peer (hello_id first)) w)
