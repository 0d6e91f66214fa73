-- ===== src/Agent/Session/Reports.antt =====
-- The statuses that the agent sends over all its connections.
use ulcer.Prelude.{
  ℕ, ◌≡◌, refl, none, some, Option, List, [], ◌∷◌, Text, Bool, true, false, arith, All, All-append,
}
use ulcer.Result.{ok}
use ulcer.Platform.{Platform, reads}
use ulcer.Config.{Instance}
use ulcer.Control.Server.{Hello}
use ulcer.Agent.{StateCodec, RuntimeState, InstanceStatus, load, state_key, next_backoff}
use ulcer.Agent.Loop.{Failure, converse, verdict, Standing, rejected, context_ended, retrying}
use ulcer.Agent.Session.{
  Session, Conversation, Progress, opening, after_opening, connect, after_verdict, after_connection,
  run_sessions, greet,
}
use ulcer.Agent.Session.Courses.{IsBetween, IsBetween-append, converse-IsCourse}

module _ ⦃p : Platform⦄ ⦃c : StateCodec⦄ where
  open p use {Db, fault, later}

  module _ (now : ℕ) (config : Instance) (version : Text)
      (readable : (d : Db) → fault d (reads state_key) ≡ none)
      (alone : (d : Db) → later d ≡ d) where
    -- The reports and the greetings between one state and a later one.
    abbrev IsHistory : ℕ → List Hello → List InstanceStatus → Db → Type 0
    IsHistory n hellos sent d =
        (t : RuntimeState) × (load now d ≡ ok t)
        × IsBetween config.id n sent t.applied_generation
        × All (λ h. h.instance_id ≡ config.id) hellos

    opened :
        (o : Option Failure) (q : Conversation) (r : RuntimeState) (d : Db)
        → load now d ≡ ok r
        → IsHistory r.applied_generation q.hellos q.course.sent q.course.db
        → let k = after_opening o q d in
          IsHistory r.applied_generation k.hellos k.course.sent k.course.db
    opened none q r d loaded h = h
    opened (some f) q r d loaded h = (r, loaded, ground arith, tt)

    connect-IsHistory :
        (s : Session) (r : RuntimeState) (d : Db)
        → load now d ≡ ok r
        → let q = connect now config version s d in
          IsHistory r.applied_generation q.hellos q.course.sent q.course.db
    unfolding connect greet
    connect-IsHistory s r d h =
        let (t, loaded, between) = converse-IsCourse now config.id readable alone s.wakings r d h in
        opened (opening s.dial s.stream s.greeting)
          (record {
            hellos = greet config version ∷ [];
            course = converse now config.id s.wakings d;
          })
          r d h (t, loaded, between, (refl, tt))

    after_verdict-IsHistory :
        (n : ℕ) (v : Standing) (is_cancelled : Bool) (backoff : ℕ) (q : Conversation)
        (rest : Progress)
        → IsHistory n q.hellos q.course.sent q.course.db
        → ((t : RuntimeState)
            → load now q.course.db ≡ ok t
            → IsHistory t.applied_generation rest.hellos rest.sent rest.db)
        → let r = after_verdict v is_cancelled backoff q rest in IsHistory n r.hellos r.sent r.db
    after_verdict-IsHistory n rejected is_cancelled backoff q rest h more = h
    after_verdict-IsHistory n context_ended is_cancelled backoff q rest h more = h
    after_verdict-IsHistory n retrying true backoff q rest h more = h
    after_verdict-IsHistory n retrying false backoff q rest (t, loaded, between, own) more =
        let (u, g, b, own') = more t loaded in
        (
          u,
          g,
          IsBetween-append config.id n t.applied_generation u.applied_generation q.course.sent
              rest.sent between b,
          All-append (λ h. h.instance_id ≡ config.id) q.hellos rest.hellos own own',
        )

    after_connection-IsHistory :
        (n : ℕ) (failure : Option Failure) (is_cancelled : Bool) (backoff : ℕ) (q : Conversation)
        (rest : Progress)
        → IsHistory n q.hellos q.course.sent q.course.db
        → ((t : RuntimeState)
            → load now q.course.db ≡ ok t
            → IsHistory t.applied_generation rest.hellos rest.sent rest.db)
        → let r = after_connection failure is_cancelled backoff q rest in
          IsHistory n r.hellos r.sent r.db
    unfolding after_connection
    after_connection-IsHistory n none is_cancelled backoff q rest h more = h
    after_connection-IsHistory n (some f) is_cancelled backoff q rest h more =
        after_verdict-IsHistory n (verdict (some f)) is_cancelled backoff q rest h more

    -- Over all the connections of a run, which may be any number of retries, the generations that the
    -- agent reports do not go back, from the one it started with to the one that it is left with,
    -- and every hello and every report is of its own identity, if its entry can be read and nothing
    -- else writes to its database.
    pub run_sessions_lem :
        (ss : List Session) (backoff : ℕ) (r : RuntimeState) (d : Db)
        → load now d ≡ ok r
        → let q = run_sessions now config version backoff ss d in
          (t : RuntimeState) × (load now q.db ≡ ok t)
          × IsBetween config.id r.applied_generation q.sent t.applied_generation
          × All (λ h. h.instance_id ≡ config.id) q.hellos
    unfolding run_sessions
    run_sessions_lem [] backoff r d h = (r, h, ground arith, tt)
    run_sessions_lem (s ∷ ss) backoff r d h =
        let q = connect now config version s d in
        after_connection-IsHistory r.applied_generation q.course.failure s.is_cancelled backoff q
          (run_sessions now config version (next_backoff backoff) ss q.course.db)
          (connect-IsHistory s r d h)
          (λ t loaded. run_sessions_lem ss (next_backoff backoff) t q.course.db loaded)
