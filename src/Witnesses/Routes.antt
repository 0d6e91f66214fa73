-- ===== src/Witnesses/Routes.antt =====
-- The routes and the handlers around them at concrete requests.
use ulcer.Prelude.{
  refl, [], ◌∷◌, ◌++◌, ◌^◌, ℕ, ◌≡◌, ◌≤◌, ◌<◌, ◌⊎◌, true, false, Text, text, Option, none, some,
  List, ◌∷◌,
}
use ulcer.Samples.{sample_platform}
use ulcer.Samples.Net.{sample_net}
use ulcer.Samples.Server.{sample_remote}
use ulcer.SshInstall.Checks.{allowed_target_address}
use ulcer.Api.Response.{Response, replies, refuses}
use ulcer.Store.Txn.{live}
use ulcer.Events.{new_bus}
use ulcer.Api.Access.{Access, authenticated}
use ulcer.Api.Routes.{Endpoint, serve}
use ulcer.Api.Routes.Guarded.{is_open, method_of, path_of, serve_lem}
use ulcer.Model.{Event}
use ulcer.Api.EventStream.Frames.{event, keepalive, write_frames, resume_after, decimal}
use ulcer.Api.EventStream.Frames.Reading.{read, arriving, read-write_frames}
use ulcer.Api.Meta.{HostKey, ssh_host_key, answer_probe, probe_resolved_host_key}
use ulcer.Api.Meta.Probing.{ssh_host_key-IsReached}

abbrev host : Access
host = record {
  db = [];
  bus = new_bus;
  service = record { setup_token = []; setup_token_path = [] };
  limiter = record { failures = 0; blocked_until = 0 };
}

-- Handlers that count their calls, beside the state that they share.
abbrev counting : Endpoint → List Text → Access × ℕ → Response ℕ × (Access × ℕ)
counting e path (a, n) = (replies 200 n, (a, 7))

abbrev access_of : Access × ℕ → Access
access_of s = s.0

serve_lem_example :
    ((method : Text) (path : List Text) (s : Access × ℕ)
      → authenticated 5 (some (text "t")) (access_of s) ≡ false
      → ((status : ℕ) × (code : Text) × (serve access_of counting 5 (some (text "t")) method path s
            ≡ (refuses status code, s)))
        ⊎ ((e : Endpoint) × (is_open e ≡ true)
            × (serve access_of counting 5 (some (text "t")) method path s ≡ counting e path s)))
    × ((e : Endpoint) (c : ℕ) (id : Text) (s : Access × ℕ)
        → authenticated 5 (some (text "t")) (access_of s) ≡ true
        → serve access_of counting 5 (some (text "t")) (method_of e) (path_of e (c ∷ id)) s
          ≡ counting e (path_of e (c ∷ id)) s)
serve_lem_example = serve_lem counting access_of 5 (some (text "t"))

-- Without a session in the database the dashboard is not reached.
dashboard-is_refused :
    serve access_of counting 5
      (some (text "t"))
      (text "GET")
      (text "api" ∷ text "v1" ∷ text "dashboard" ∷ [])
      (host, 3)
    ≡ (refuses 401 (text "unauthorized"), (host, 3))
unfolding serve live
dashboard-is_refused = refl

abbrev capture : ℕ → Option HostKey × ℕ
capture m = (some (record { algorithm = text "ssh-ed25519"; fingerprint = text "SHA256:0" }), m)

ssh_host_key-IsReached_example :
    let q = ssh_host_key capture (λ s. none) (some (text "127.0.0.1", 22)) 5 in
    (q.1 ≡ 5)
    ⊎ ((address : sample_net.Addr) × (port : ℕ) × (allowed_target_address address ≡ true)
        × (0 < port)
        × (port ≤ 65535)
        × (q ≡ answer_probe (probe_resolved_host_key capture address port 5)))
ssh_host_key-IsReached_example =
    ssh_host_key-IsReached capture (λ s. none) (some (text "127.0.0.1", 22)) 5

abbrev enrolled : Event
enrolled = record {
  id = 12;
  type_name = text "instance.enrolled";
  resource_id = text "r1";
  at = none;
  details = [];
}

-- An encoding that is the resource.
abbrev marshal : Event → Text
marshal e = text "{" ++ e.resource_id

read-write_frames_example :
    (read (write_frames marshal (event enrolled ∷ keepalive ∷ event enrolled ∷ []))
      ≡ arriving marshal (event enrolled ∷ keepalive ∷ event enrolled ∷ []))
    × ((n : ℕ) → n < 2 ^ 64 → resume_after (decimal n) ≡ n)
read-write_frames_example =
    read-write_frames marshal (event enrolled ∷ keepalive ∷ event enrolled ∷ [])
      ((refl, refl, refl), (tt, ((refl, refl, refl), tt)))
