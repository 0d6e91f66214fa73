-- ===== src/Agent/Session.antt =====
-- internal/instance/client.go: the credentials of a connection, its opening, and Run over the
-- connections that follow each other.
pub mod Courses
pub mod Reports
pub mod Ending
use ulcer.Prelude.{
  ℕ, Bool, true, false, not, Bytes, Text, text, Option, none, some, List, [], ◌∷◌, ◌++◌,
  if◌then◌else◌,
}
use ulcer.Platform.{Platform}
use ulcer.Config.{Instance}
use ulcer.Control.Server.{Hello}
use ulcer.Agent.{StateCodec, InstanceStatus, next_backoff}
use ulcer.Agent.Loop.{
  Failure, broken, Waking, Course, converse, identity_rejected, Standing, rejected, context_ended,
  retrying, verdict,
}

-- tls.LoadX509KeyPair, os.ReadFile, and whether CertPool.AppendCertsFromPEM has found a certificate.
pub record Credentials : Type 1 where
  pub KeyPair : Type 0
  pub load_key_pair : Text → Text → Option KeyPair
  pub read_file : Text → Option Bytes
  pub has_certificate : Bytes → Bool

pub data TlsError : Type 0 where
  load_instance_certificate load_host_authority no_certificate : TlsError

module _ ⦃files : Credentials⦄ where
  open files use {KeyPair, load_key_pair, read_file, has_certificate}

  -- The settings of a TLS 1.3 connection.
  pub record TlsConfig : Type 0 where
    pub certificate : KeyPair
    pub roots : Bytes
    pub server_name : Text

  pub data TlsResult : Type 0 where
    configured : TlsConfig → TlsResult
    refused : TlsError → TlsResult

  unfoldable pub tls_config : Instance → TlsResult
  tls_config config = elim (load_key_pair config.cert_file config.key_file) [
    | none ↦ refused load_instance_certificate
    | some pair ↦ elim (read_file config.ca_file) [
      | none ↦ refused load_host_authority
      | some pem ↦
          if has_certificate pem
          then configured
              (record { certificate = pair; roots = pem; server_name = config.server_name })
          else refused no_certificate
    ]
  ]

-- What a connection of Run meets: the errors of grpc.NewClient, of Connect and of the Send of the
-- hello, if there are any, what wakes the loop, and whether the context ends in the wait after it.
pub record Session : Type 0 where
  pub dial : Option Failure
  pub stream : Option Failure
  pub greeting : Option Failure
  pub wakings : List Waking
  pub is_cancelled : Bool

-- The hello, without the name, which the host does not read.
unfoldable pub greet : Instance → Text → Hello
greet config version = record {
  instance_id = config.id;
  agent_version = version;
  capabilities = text "desired-state-v1" ∷ [];
}

module _ ⦃p : Platform⦄ ⦃c : StateCodec⦄ where
  open p use {Db}

  pub record Conversation : Type 0 where
    pub hellos : List Hello
    pub course : Course

  abbrev pub fails_early : Failure → Db → Conversation
  fails_early f d = record { hellos = []; course = record { failure = some f; sent = []; db = d } }

  -- The error of the opening, if it has one; its steps are taken in this order.
  unfoldable pub opening : Option Failure → Option Failure → Option Failure → Option Failure
  opening (some f) _ _ = some f
  opening none (some f) _ = some f
  opening none none greeting = greeting

  abbrev pub after_opening : Option Failure → Conversation → Db → Conversation
  after_opening none q d = q
  after_opening (some f) q d = fails_early f d

  unfoldable pub connect : ℕ → Instance → Text → Session → Db → Conversation
  unfolding converse greet opening
  connect now config version s d =
      after_opening (opening s.dial s.stream s.greeting)
        (record { hellos = greet config version ∷ []; course = converse now config.id s.wakings d })
        d

  -- What Run has done: how it stands, `none` being in a connection, the waits, what was sent and the
  -- state that is left.
  pub record Progress : Type 0 where
    pub standing : Option Standing
    pub waits : List ℕ
    pub hellos : List Hello
    pub sent : List InstanceStatus
    pub db : Db

  abbrev pub rests : Option Standing → Conversation → Progress
  rests s q = record {
    standing = s;
    waits = [];
    hellos = q.hellos;
    sent = q.course.sent;
    db = q.course.db;
  }

  -- A connection and a wait before the rest of the run.
  abbrev pub goes_on : ℕ → Conversation → Progress → Progress
  goes_on backoff q rest = record {
    standing = rest.standing;
    waits = backoff ∷ rest.waits;
    hellos = q.hellos ++ rest.hellos;
    sent = q.course.sent ++ rest.sent;
    db = rest.db;
  }

  abbrev pub after_verdict : Standing → Bool → ℕ → Conversation → Progress → Progress
  after_verdict rejected is_cancelled backoff q rest = rests (some rejected) q
  after_verdict context_ended is_cancelled backoff q rest = rests (some context_ended) q
  after_verdict retrying true backoff q rest = rests (some context_ended) q
  after_verdict retrying false backoff q rest = goes_on backoff q rest

  unfoldable pub after_connection : Option Failure → Bool → ℕ → Conversation → Progress → Progress
  unfolding verdict
  after_connection none is_cancelled backoff q rest = rests none q
  after_connection (some f) is_cancelled backoff q rest =
      after_verdict (verdict (some f)) is_cancelled backoff q rest

  unfoldable pub run_sessions : ℕ → Instance → Text → ℕ → List Session → Db → Progress
  unfolding connect after_connection next_backoff
  run_sessions now config version backoff [] d = record {
    standing = some retrying;
    waits = [];
    hellos = [];
    sent = [];
    db = d;
  }
  run_sessions now config version backoff (s ∷ ss) d =
      let q = connect now config version s d in
      let rest = run_sessions now config version (next_backoff backoff) ss q.course.db in
      after_connection q.course.failure s.is_cancelled backoff q rest
