-- ===== src/Lib.antt =====
-- Ulcer: a host that manages proxy instances over mutually authenticated gRPC streams, and the
-- agent that runs on an instance.
--
-- The host keeps its records in a badger database (internal/store). An operator logs in by TOTP or
-- a recovery code (internal/auth, internal/api). Each instance holds one stream to the host
-- (internal/control/server.go) that the hub (internal/control/hub.go) owns: a stream reserves its
-- identity, is activated, and is cut off while the identity is revoked. What happens is published
-- on a bus (internal/events) that stores an event and hands it to the browsers' event streams. The
-- agent (internal/instance) checks the desired states that the host sends and reports its own.
--
-- Files:
--   Prelude, Result, Model: texts, numbers and lists; the errors as values; internal/model.
--   Platform: badger, encoding/json and crypto/sha256 as parameters with documented laws.
--   Store: internal/store/store.go. Txn is the monad of a transaction, Words the eight bytes of a
--     counter, and Keys, Operator, Sessions, Instances, Meters and Events have a function per
--     method. Their child modules hold the proofs; Store.Events.Log is what the event log promises,
--     without keys and encodings.
--   Control.Hub: internal/control/hub.go, a function per method on the record of its maps.
--   Control.Server: internal/control/server.go, the handlers of a stream on the shared state;
--     Control.Stream, its loop.
--   Events: internal/events/bus.go. Api: internal/api/limiter.go and the event stream of
--     internal/api/api.go. Auth: internal/auth/auth.go. Agent: internal/instance, with the
--     loops of its client in Agent.Loop.
--   Api.Access, Api.Machines, Api.Installations and Api.Meta: the handlers of internal/api/api.go; a
--     response is its status, the code of an error and the body that matters. Api.Routes: the table
--     of its routes; Api.Middleware: the handlers around it and the session cookie.
--   Agent.Session: the TLS settings and the opening of a connection, and Run over its connections.
--   Pki: internal/pki/pki.go, on a state of the file system; Pki.Outside: crypto/x509, encoding/pem
--     and os as parameters with documented laws. BuildInfo: internal/buildinfo/buildinfo.go.
--   BuildTargets: what the targets of magefile.go compute; BuildTargets.Linking, how a linker reads
--     its flags -X. Command: cmd/ulcer-instance/main.go.
--   SshInstall: the checks (Checks, Image), the commands (Remote) and the run (Job, Enrolment,
--     Install) of internal/sshinstall. Config: internal/config/config.go.
--   Samples: a concrete database and encodings. Witnesses: the theorems at concrete inputs.
--
-- How the model stands to the code: numbers are natural numbers; where the code has uint64 the
-- bound 2 ^ 64 is written out. A time is a number of seconds, in the limiter of nanoseconds (with
-- fewer than 3 * 10 ^ 8 failures, so that a duration does not overflow). TrimSpace and ToUpper are
-- those of ASCII texts. A transaction is one step; a commit that conflicts is refused and leaves
-- the state that another transaction made. Results that Go returns beside an error are dropped. A
-- mutex makes the code under it one step, and interleavings are sequences of such steps; in the
-- opening of a stream, and between the calls for a message of it, the other goroutines are a
-- function on the shared state. A connection stands at the address of its reservation. Random
-- values, TOTP codes and the results of gRPC calls are arguments. The bound of eight in the retries
-- of a deletion is that of the source; only the digits of a number (Api.EventStream.Frames) are
-- taken on fuel, of one more than the number, and there are no more digits than that.
--
-- The loops of a stream, on both sides, run on a list of what wakes their select.
-- An installation over SSH is a sequence of steps on the shared state and on a state of all that is
-- outside of the host; before each step on the shared state the other goroutines act. Its loop that
-- waits for the instance runs on the number of times that its ticker wins against its timer.
--
-- The handlers of Api.Routes are a parameter of the dispatch, which treats them all alike; whether a
-- request has a valid session is what `authenticated` finds for its cookie in the state.
--
-- Not modelled: the start-up of the host (cmd/ulcer-host), which connects the parts to listeners and
-- signals, the flushing of the event stream, the generated protocol (gen), and the targets of
-- magefile.go that only run a command.
pub mod Prelude
pub mod Result
pub mod Model
pub mod Platform
pub mod Store
pub mod Control
pub mod Auth
pub mod Config
pub mod Pki
pub mod BuildInfo
pub mod BuildTargets
pub mod Command
pub mod Api
pub mod Events
pub mod Agent
pub mod Samples
pub mod Witnesses
pub mod SshInstall
