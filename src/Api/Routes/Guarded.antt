-- ===== src/Api/Routes/Guarded.antt =====
-- What the routes let through.
use ulcer.Prelude.{
  ◌≡◌, refl, ◌⊎◌, inl, inr, Bool, true, false, ◌&&◌, ◌||◌, all, ℕ, subst, sym, ap, ◌∙◌, Text, text,
  Option, none, some, List, [], ◌∷◌, Bool-cases, arith,
}
use ulcer.Platform.{Platform}
use ulcer.Api.Response.{Response, refuses}
use ulcer.Api.Access.{Access, require_auth, authenticated}
use ulcer.Api.Routes.{
  Endpoint, health, bootstrap_status, bootstrap_start, bootstrap_complete, login, logout, session,
  dashboard, meta, engines, instances, create_instance, install_instance_ssh, ssh_host_key,
  instance, delete_instance, set_desired, event_stream, Route, routes, matches_path, matches_method,
  find_route, is_known_path, enter, after_lookup, dispatch, serve,
}

-- What is open to everyone: the health check, the setup, the login, and whether one is logged in.
unfoldable pub is_open : Endpoint → Bool
is_open health = true
is_open bootstrap_status = true
is_open bootstrap_start = true
is_open bootstrap_complete = true
is_open login = true
is_open session = true
is_open _ = false

-- A route that is not guarded leads to an open endpoint.
abbrev is_safe : Route → Bool
is_safe r = r.is_guarded || is_open r.endpoint

abbrev on_instance : List Text → List Text
on_instance rest = text "api" ∷ text "v1" ∷ text "instances" ∷ rest

abbrev pub method_of : Endpoint → Text
method_of health = text "GET"
method_of bootstrap_status = text "GET"
method_of bootstrap_start = text "POST"
method_of bootstrap_complete = text "POST"
method_of login = text "POST"
method_of logout = text "POST"
method_of session = text "GET"
method_of dashboard = text "GET"
method_of meta = text "GET"
method_of engines = text "GET"
method_of instances = text "GET"
method_of create_instance = text "POST"
method_of install_instance_ssh = text "POST"
method_of ssh_host_key = text "POST"
method_of instance = text "GET"
method_of delete_instance = text "DELETE"
method_of set_desired = text "PUT"
method_of event_stream = text "GET"

abbrev pub path_of : Endpoint → Text → List Text
path_of health id = text "healthz" ∷ []
path_of bootstrap_status id = text "api" ∷ text "v1" ∷ text "bootstrap" ∷ text "status" ∷ []
path_of bootstrap_start id = text "api" ∷ text "v1" ∷ text "bootstrap" ∷ text "start" ∷ []
path_of bootstrap_complete id = text "api" ∷ text "v1" ∷ text "bootstrap" ∷ text "complete" ∷ []
path_of login id = text "api" ∷ text "v1" ∷ text "auth" ∷ text "login" ∷ []
path_of logout id = text "api" ∷ text "v1" ∷ text "auth" ∷ text "logout" ∷ []
path_of session id = text "api" ∷ text "v1" ∷ text "auth" ∷ text "session" ∷ []
path_of dashboard id = text "api" ∷ text "v1" ∷ text "dashboard" ∷ []
path_of meta id = text "api" ∷ text "v1" ∷ text "meta" ∷ []
path_of engines id = text "api" ∷ text "v1" ∷ text "engines" ∷ []
path_of instances id = on_instance []
path_of create_instance id = on_instance []
path_of install_instance_ssh id = on_instance (text "ssh" ∷ [])
path_of ssh_host_key id = text "api" ∷ text "v1" ∷ text "ssh" ∷ text "host-key" ∷ []
path_of instance id = on_instance (id ∷ [])
path_of delete_instance id = on_instance (id ∷ [])
path_of set_desired id = on_instance (id ∷ text "desired" ∷ [])
path_of event_stream id = text "api" ∷ text "v1" ∷ text "events" ∷ []

find_route-all :
    (f : Route → Bool) (method : Text) (path : List Text) (rs : List Route) (r : Route)
    → all f rs ≡ true
    → find_route method path rs ≡ some r
    → f r ≡ true
unfolding find_route
find_route-all f method path [] r h found = absurd (ground arith)
find_route-all f method path (q ∷ rs) r h found =
    elim (Bool-cases (matches_method q.method method && matches_path q.path path)) [
      | inl e ↦ ground (arith, e)
      | inr e ↦ ground (arith, e, find_route-all f method path rs r)
    ]

routes-is_safe : all is_safe routes ≡ true
unfolding routes is_open
routes-is_safe = refl

module _ ⦃p : Platform⦄ {Body State : Type 0}
    (perform : Endpoint → List Text → State → Response Body × State) where
  abbrev IsTurnedAway : Response Body × State → State → Type 0
  IsTurnedAway q s = (status : ℕ) × (code : Text) × (q ≡ (refuses status code, s))

  enter-unauthenticated :
      (path : List Text) (r : Route) (s : State)
      → is_safe r ≡ true
      → IsTurnedAway (enter perform false path r s) s
        ⊎ ((is_open r.endpoint ≡ true) × (enter perform false path r s ≡ perform r.endpoint path s))
  unfolding enter require_auth
  enter-unauthenticated path r s h = elim (Bool-cases r.is_guarded) [
    | inl e ↦ inl (401, text "unauthorized", rw e refl)
    | inr e ↦ inr (subst (λ b. b || is_open r.endpoint ≡ true) e h, rw e refl)
  ]

  abbrev IsTurnedAwayOrOpen : List Text → State → Response Body × State → Type 0
  IsTurnedAwayOrOpen path s q =
      ((status : ℕ) × (code : Text) × (q ≡ (refuses status code, s)))
      ⊎ ((e : Endpoint) × (is_open e ≡ true) × (q ≡ perform e path s))

  after_lookup-unauthenticated :
      (path : List Text) (known : Bool) (o : Option Route) (s : State)
      → ((r : Route) → o ≡ some r → is_safe r ≡ true)
      → IsTurnedAwayOrOpen path s (after_lookup perform false path known o s)
  after_lookup-unauthenticated path known (some r) s h =
      elim (enter-unauthenticated path r s (h r refl)) [
        | inl away ↦ inl away
        | inr (e, q) ↦ inr (r.endpoint, e, q)
      ]
  after_lookup-unauthenticated path true none s h = inl (405, text "Method Not Allowed", refl)
  after_lookup-unauthenticated path false none s h = inl (404, text "Not Found", refl)

  dispatch-unauthenticated :
      (rs : List Route) (method : Text) (path : List Text) (s : State)
      → all is_safe rs ≡ true
      → IsTurnedAwayOrOpen path s (dispatch rs perform false method path s)
  unfolding dispatch
  dispatch-unauthenticated rs method path s h =
      after_lookup-unauthenticated path (is_known_path path rs) (find_route method path rs) s
        (λ r. find_route-all is_safe method path rs r h)

  -- With a valid session the request that the interface describes for a handler reaches it; `id` is an
  -- instance.
  dispatch-perform :
      (e : Endpoint) (c : ℕ) (id : Text) (s : State)
      → dispatch routes perform true (method_of e) (path_of e (c ∷ id)) s
        ≡ perform e (path_of e (c ∷ id)) s
  unfolding dispatch find_route routes matches_path matches_method enter require_auth
  dispatch-perform health c id s = refl
  dispatch-perform e c id s = refl

  module _ (access : State → Access) (at : ℕ) (cookie : Option Text) where
    serve-unauthenticated :
        (method : Text) (path : List Text) (s : State)
        → authenticated at cookie (access s) ≡ false
        → IsTurnedAwayOrOpen path s (serve access perform at cookie method path s)
    unfolding serve
    serve-unauthenticated method path s h =
        subst (λ b. IsTurnedAwayOrOpen path s (dispatch routes perform b method path s)) (sym h)
          (dispatch-unauthenticated routes method path s routes-is_safe)

    serve-perform :
        (e : Endpoint) (c : ℕ) (id : Text) (s : State)
        → authenticated at cookie (access s) ≡ true
        → serve access perform at cookie (method_of e) (path_of e (c ∷ id)) s
          ≡ perform e (path_of e (c ∷ id)) s
    unfolding serve
    serve-perform e c id s h =
        ap (λ b. dispatch routes perform b (method_of e) (path_of e (c ∷ id)) s) h
        ∙ dispatch-perform e c id s

    -- Whatever the handlers do, a request whose cookie does not name a valid session is turned away
    -- and changes nothing, or it is for the health check, the setup, the login or the question
    -- whether one is logged in; with a valid session the request that the interface describes for a
    -- handler reaches that handler.
    pub serve_lem :
        ((method : Text) (path : List Text) (s : State)
          → authenticated at cookie (access s) ≡ false
          → ((status : ℕ) × (code : Text) × (serve access perform at cookie method path s
                ≡ (refuses status code, s)))
            ⊎ ((e : Endpoint) × (is_open e ≡ true)
                × (serve access perform at cookie method path s ≡ perform e path s)))
        × ((e : Endpoint) (c : ℕ) (id : Text) (s : State)
            → authenticated at cookie (access s) ≡ true
            → serve access perform at cookie (method_of e) (path_of e (c ∷ id)) s
              ≡ perform e (path_of e (c ∷ id)) s)
    serve_lem = (serve-unauthenticated, serve-perform)
