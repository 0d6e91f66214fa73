-- ===== src/Api/Routes.antt =====
-- internal/api/api.go: the routes of New and the handlers around them. A path is given by the
-- segments between its slashes, as http.ServeMux takes it apart, and is clean.
pub mod Guarded
use ulcer.Prelude.{
  ℕ, Bool, true, false, ◌&&◌, ◌||◌, not, Text, text, Option, none, some, List, [], ◌∷◌, ◌++◌, ◌==◌,
  any, text_eq, if◌then◌else◌,
}
use ulcer.Platform.{Platform}
use ulcer.Api.Response.{Response, refuses}
use ulcer.Api.Access.{Access, require_auth, authenticated}

-- The handlers of the API.
pub data Endpoint : Type 0 where
  health bootstrap_status bootstrap_start bootstrap_complete login logout session dashboard meta
        engines instances create_instance install_instance_ssh ssh_host_key instance delete_instance
        set_desired event_stream :
      Endpoint

pub data Segment : Type 0 where
  literal : Text → Segment
  wildcard : Segment

-- A pattern with its handler, which `is_guarded` says to be inside requireAuth.
pub record Route : Type 0 where
  pub method : Text
  pub path : List Segment
  pub endpoint : Endpoint
  pub is_guarded : Bool

abbrev pub versioned : List Segment → List Segment
versioned rest = literal (text "api") ∷ literal (text "v1") ∷ rest

abbrev pub open_route : Text → List Segment → Endpoint → Route
open_route method path e = record { method = method; path = path; endpoint = e; is_guarded = false }

abbrev pub guarded_route : Text → List Segment → Endpoint → Route
guarded_route method path e = record {
  method = method;
  path = versioned path;
  endpoint = e;
  is_guarded = true;
}

abbrev pub one_instance : List Segment → List Segment
one_instance rest = literal (text "instances") ∷ wildcard ∷ rest

unfoldable pub routes : List Route
routes =
    open_route (text "GET") (literal (text "healthz") ∷ []) health
    ∷ open_route (text "GET")
        (versioned (literal (text "bootstrap") ∷ literal (text "status") ∷ [])) bootstrap_status
    ∷ open_route (text "POST")
        (versioned (literal (text "bootstrap") ∷ literal (text "start") ∷ [])) bootstrap_start
    ∷ open_route (text "POST")
        (versioned (literal (text "bootstrap") ∷ literal (text "complete") ∷ [])) bootstrap_complete
    ∷ open_route (text "POST") (versioned (literal (text "auth") ∷ literal (text "login") ∷ []))
        login
    ∷ guarded_route (text "POST") (literal (text "auth") ∷ literal (text "logout") ∷ []) logout
    ∷ open_route (text "GET") (versioned (literal (text "auth") ∷ literal (text "session") ∷ []))
        session
    ∷ guarded_route (text "GET") (literal (text "dashboard") ∷ []) dashboard
    ∷ guarded_route (text "GET") (literal (text "meta") ∷ []) meta
    ∷ guarded_route (text "GET") (literal (text "engines") ∷ []) engines
    ∷ guarded_route (text "GET") (literal (text "instances") ∷ []) instances
    ∷ guarded_route (text "POST") (literal (text "instances") ∷ []) create_instance
    ∷ guarded_route (text "POST") (literal (text "instances") ∷ literal (text "ssh") ∷ [])
        install_instance_ssh
    ∷ guarded_route (text "POST") (literal (text "ssh") ∷ literal (text "host-key") ∷ [])
        ssh_host_key
    ∷ guarded_route (text "GET") (one_instance []) instance
    ∷ guarded_route (text "DELETE") (one_instance []) delete_instance
    ∷ guarded_route (text "PUT") (one_instance (literal (text "desired") ∷ [])) set_desired
    ∷ guarded_route (text "GET") (literal (text "events") ∷ []) event_stream
    ∷ []

-- A wildcard takes one segment that is not empty.
abbrev pub takes : Segment → Text → Bool
takes (literal t) s = text_eq t s
takes wildcard s = not (text_eq s [])

unfoldable pub matches_path : List Segment → List Text → Bool
matches_path [] [] = true
matches_path [] (_ ∷ _) = false
matches_path (_ ∷ _) [] = false
matches_path (p ∷ ps) (s ∷ ss) = takes p s && matches_path ps ss

-- A pattern for GET takes HEAD too.
unfoldable pub matches_method : Text → Text → Bool
matches_method pattern method =
    text_eq pattern method || (text_eq pattern (text "GET") && text_eq method (text "HEAD"))

-- No two patterns of the table take the same request, so that the order does not matter.
unfoldable pub find_route : Text → List Text → List Route → Option Route
unfolding matches_path matches_method
find_route method path [] = none
find_route method path (r ∷ rs) =
    if matches_method r.method method && matches_path r.path path
    then some r
    else find_route method path rs

unfoldable pub is_known_path : List Text → List Route → Bool
unfolding matches_path
is_known_path path rs = any (λ r. matches_path r.path path) rs

module _ ⦃p : Platform⦄ {Body State : Type 0} where
  -- What a route does, where `perform` is the handler of an endpoint on the segments of the request.
  unfoldable pub enter :
      (Endpoint → List Text → State → Response Body × State)
      → Bool
      → List Text
      → Route
      → State
      → Response Body × State
  unfolding require_auth
  enter perform is_authenticated path r s =
      if r.is_guarded
      then require_auth is_authenticated (perform r.endpoint path) s
      else perform r.endpoint path s

  -- http.ServeMux answers what no pattern takes: 405 if one takes the path, 404 if none does.
  abbrev pub after_lookup :
      (Endpoint → List Text → State → Response Body × State)
      → Bool
      → List Text
      → Bool
      → Option Route
      → State
      → Response Body × State
  after_lookup perform is_authenticated path is_known (some r) s =
      enter perform is_authenticated path r s
  after_lookup perform is_authenticated path true none s =
      (refuses 405 (text "Method Not Allowed"), s)
  after_lookup perform is_authenticated path false none s = (refuses 404 (text "Not Found"), s)

  unfoldable pub dispatch :
      List Route
      → (Endpoint → List Text → State → Response Body × State)
      → Bool
      → Text
      → List Text
      → State
      → Response Body × State
  unfolding enter find_route is_known_path
  dispatch rs perform is_authenticated method path s =
      after_lookup perform is_authenticated path (is_known_path path rs) (find_route method path rs)
        s

  -- `access` is the part of the state by which requireAuth judges the cookie of the request.
  unfoldable pub serve :
      (State → Access)
      → (Endpoint → List Text → State → Response Body × State)
      → ℕ
      → Option Text
      → Text
      → List Text
      → State
      → Response Body × State
  unfolding dispatch routes authenticated
  serve access perform at cookie method path s =
      dispatch routes perform (authenticated at cookie (access s)) method path s
