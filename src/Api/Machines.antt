-- ===== src/Api/Machines.antt =====
-- internal/api/api.go: the handlers of the instances. A request is `none` where decodeJSON refuses
-- it; `others` is what other goroutines do between two calls of a handler.
pub mod Desired
pub mod Enrolment
use ulcer.Prelude.{
  ℕ, suc, ◌+◌, ◌%◌, Bool, true, false, ◌&&◌, ◌||◌, not, Bytes, Text, text, Option, none, some, List,
  [], ◌∷◌, ltb, leb, ◌==◌, text_eq, length, all, if◌then◌else◌,
}
use ulcer.Result.{Result, Error, ok, err, is_not_found}
use ulcer.Model.{Instance, Usage, label, number, flag}
use ulcer.Platform.{Platform}
use ulcer.Store.Words.{u64_mod}
use ulcer.Store.Instances.{instance, instances, put_instance, update_instance, delete_instance}
use ulcer.Store.Meters.{usage}
use ulcer.Control.Hub.{Hub, revoke, release, send, online, if_not_revoked}
use ulcer.Control.Server.{World, event, publish_event, publish_if_enrolled, desired_message}
use ulcer.Pki.Outside.{Parts}
use ulcer.Pki.{Bundle, Authority, Draw, Issue, done, failed, issue_instance}
use ulcer.Api.Response.{Response, replies, refuses, malformed}

-- model.InstanceSpec; the configuration and the labels only pass through encoding/json.
pub record InstanceSpec : Type 0 where
  pub engine : Text
  pub artifact : Text
  pub desired_phase : Text
  pub config : Bytes
  pub labels : List (Text × Text)

abbrev pub is_alphanumeric : ℕ → Bool
is_alphanumeric c = leb b'a' c && leb c b'z' || leb b'0' c && leb c b'9'

abbrev pub last_of : ℕ → Text → ℕ
last_of c [] = c
last_of c (d ∷ s) = last_of d s

-- The pattern `^[a-z0-9](?:[a-z0-9-]{0,61}[a-z0-9])?$`.
unfoldable pub validate_instance_name : Text → Bool
validate_instance_name [] = false
validate_instance_name (c ∷ s) =
    is_alphanumeric c
    && is_alphanumeric (last_of c s)
    && all (λ d. is_alphanumeric d || d == b'-') s
    && leb (length s) 62

-- The mutation of `setDesired`.
unfoldable pub desire : Bytes → Text → Instance → Result Instance
desire canonical digest i =
    if text_eq i.desired_digest digest
    then ok i
    else ok (record i {
      desired_generation = (i.desired_generation + 1) % u64_mod;
      desired_digest = digest;
      desired_spec = canonical;
    })

-- model.Dashboard, but for its time.
pub record Dashboard : Type 0 where
  pub total : ℕ
  pub online : ℕ
  pub running : ℕ
  pub failed : ℕ
  pub traffic : Usage

abbrev pub one_if : Bool → ℕ
one_if true = 1
one_if false = 0

unfoldable pub count_instances : Hub → List Instance → Dashboard → Dashboard
unfolding online
count_instances h [] d = d
count_instances h (i ∷ is) d = count_instances h is (record d {
  online = d.online + one_if (online i.id h);
  running = d.running + one_if (text_eq i.phase (text "running"));
  failed = d.failed + one_if (text_eq i.phase (text "failed"));
})

module _ ⦃p : Platform⦄ where
  open p use {Db, sha256_hex}

  -- `encoded` is the result of json.Marshal.
  unfoldable pub canonical_spec : Result Bytes → Result (Bytes × Text)
  canonical_spec (err e) = err e
  canonical_spec (ok canonical) = ok (canonical, sha256_hex canonical)

  unfoldable pub dashboard : ℕ → World → Response Dashboard
  unfolding instances usage count_instances
  dashboard now w = elim (instances now w.db) [
    | err _ ↦ refuses 500 (text "store_error")
    | ok l ↦ elim (usage now w.db) [
      | err _ ↦ refuses 500 (text "store_error")
      | ok u ↦ replies 200 (
          count_instances w.hub l
            (record { total = length l; online = 0; running = 0; failed = 0; traffic = u }))
    ]
  ]

  unfoldable pub with_online : Hub → List Instance → List (Instance × Bool)
  unfolding online
  with_online h [] = []
  with_online h (i ∷ is) = (i, online i.id h) ∷ with_online h is

  unfoldable pub list_instances : ℕ → World → Response (List (Instance × Bool))
  unfolding instances with_online
  list_instances now w = elim (instances now w.db) [
    | err _ ↦ refuses 500 (text "store_error")
    | ok l ↦ replies 200 (with_online w.hub l)
  ]

  unfoldable pub show_instance : ℕ → Text → World → Response (Instance × Bool)
  unfolding instance online
  show_instance now id w = elim (instance now id w.db) [
    | err e ↦
        if is_not_found e then refuses 404 (text "not_found") else refuses 500 (text "store_error")
    | ok i ↦ replies 200 (i, online i.id w.hub)
  ]

  abbrev pub new_instance : ℕ → Text → Text → Instance
  new_instance now id name = record {
    id = id;
    name = name;
    created_at = now;
    last_seen_at = none;
    agent_version = [];
    capabilities = [];
    desired_generation = 0;
    desired_digest = [];
    desired_spec = [];
    applied_generation = 0;
    applied_digest = [];
    phase = text "enrolled";
    reason = [];
  }

  -- After IssueInstance.
  unfoldable pub with_bundle :
      ℕ → Text → Text → Issue Bundle → World → Response (Instance × Bundle) × World
  unfolding put_instance publish_event
  with_bundle now name id (failed _) w = (refuses 500 (text "certificate_error"), w)
  with_bundle now name id (done bundle) w =
      let i = new_instance now id name in
      let (r, d) = put_instance i w.db in
      elim r [
        | err _ ↦ (refuses 500 (text "store_error"), record w { db = d })
        | ok _ ↦ (
          replies 201 (i, bundle),
          publish_event now (event (text "instance.enrolled") id ((text "name", label name) ∷ []))
              (record w { db = d }),
        )
      ]

  -- `id` is the new UUID; the certificate is drawn and signed for it, with the files of the disk.
  unfoldable pub create_instance :
      ⦃parts : Parts⦄
      → ℕ
      → Option Text
      → Text
      → Draw
      → Authority
      → parts.Disk
      → World
      → Response (Instance × Bundle) × World
  unfolding validate_instance_name issue_instance with_bundle
  create_instance now none id draw a disk w = (malformed, w)
  create_instance now (some name) id draw a disk w =
      if validate_instance_name name
      then with_bundle now name id (issue_instance now id draw a disk) w
      else (refuses 400 (text "invalid_name"), w)

  unfoldable pub after_deletion : ℕ → Text → Result Instance → World → Response (Unit {0}) × World
  unfolding publish_event
  after_deletion now id (err e) w = (
    if is_not_found e then refuses 404 (text "not_found") else refuses 500 (text "store_error"),
    w,
  )
  after_deletion now id (ok i) w = (
    replies 204 tt,
    publish_event now (event (text "instance.deleted") id ((text "name", label i.name) ∷ [])) w,
  )

  unfoldable pub delete_request :
      ℕ → (ℕ → World → World) → Text → World → Response (Unit {0}) × World
  unfolding revoke release delete_instance after_deletion
  delete_request now others id w =
      let (hub', k) = revoke id w.hub in
      let w1 = others 0 (record w { hub = hub' }) in
      let (r, d) = delete_instance now id w1.db in
      let (response, w2) = after_deletion now id r (others 1 (record w1 { db = d })) in
      (response, record w2 { hub = release k w2.hub })

  -- The instance, and whether its stream has taken the message.
  unfoldable pub after_update :
      ℕ → (ℕ → World → World) → Result Instance → World → Response (Instance × Bool) × World
  unfolding send publish_if_enrolled desired_message
  after_update now others (err e) w = (
    if is_not_found e then refuses 404 (text "not_found") else refuses 500 (text "store_error"),
    w,
  )
  after_update now others (ok i) w =
      let (hub', delivered) = send i.id (desired_message i) w.hub in
      let e = event (text "instance.desired") i.id (
        (text "generation", number i.desired_generation)
        ∷ (text "delivered", flag delivered)
        ∷ []) in
      let (w', published) = publish_if_enrolled now e (others 1 (record w { hub = hub' })) in
      (if published then replies 200 (i, delivered) else refuses 404 (text "not_found"), w')

  -- The guards on a specification.
  unfoldable pub spec_refusal : InstanceSpec → Option (Response (Instance × Bool))
  spec_refusal s =
      if text_eq s.engine []
        || text_eq s.artifact []
        || (not (text_eq s.desired_phase (text "running"))
            && not (text_eq s.desired_phase (text "stopped")))
      then some (refuses 400 (text "invalid_spec"))
      else if text_eq s.desired_phase (text "running")
      then some (refuses 422 (text "adapter_unavailable"))
      else none

  unfoldable pub set_desired :
      ℕ
      → (ℕ → World → World)
      → (InstanceSpec → Result Bytes)
      → Text
      → Option InstanceSpec
      → World
      → Response (Instance × Bool) × World
  unfolding spec_refusal canonical_spec update_instance desire after_update
  set_desired now others marshal id none w = (malformed, w)
  set_desired now others marshal id (some s) w = elim (spec_refusal s) [
    | some refused ↦ (refused, w)
    | none ↦ elim (canonical_spec (marshal s)) [
      | err _ ↦ (refuses 400 (text "invalid_spec"), w)
      | ok (canonical, digest) ↦
          let (r, d) = update_instance now id (desire canonical digest) w.db in
          after_update now others r (others 0 (record w { db = d }))
    ]
  ]
