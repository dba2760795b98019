-- ===== src/Security/Boundary.antt =====
-- `security_boundary`, the middleware of src/agentops/main.py, around the handler of a request. The
-- handler is a parameter: it takes the request, the actor where there is one and the state of the
-- service, and returns a status code and the new state.
pub mod Guards
use agentops_control_plane.Base.{
  drop_prefix, ℕ, String, Bool, true, false, ◌&&◌, ◌||◌, not, ◌≡◌, ◌≢◌, ◌⊎◌, refl, Option, none,
  some, List, [], ◌∷◌, ◌==◌, str_eq, one_of, if◌then◌else◌, arith, inl, inr,
}
use Prim.Native.String.{[] as nothing, ◌∷◌ as char}
use text.Mathlib.Text.{starts_with}
use agentops_control_plane.Store.Rows.{Role, admin, operator, viewer, AuditEvent}
use agentops_control_plane.Approvals.{Actor}
use agentops_control_plane.Security.RateLimit.{admit}
use agentops_control_plane.Security.Authenticator.{
  Digest, Users, Login, accepted, refused, raised, enabled, authenticate,
}

pub record HttpRequest : Type 0 where
  pub method : String
  pub path : String
  pub authorization : String

abbrev pub public_paths : List String
public_paths =
    "/" ∷ "/api/health" ∷ "/api/ready" ∷ "/api/auth/status" ∷ "/robots.txt"
    ∷ "/.well-known/security.txt" ∷ []

abbrev pub admin_prefixes : List String
admin_prefixes =
    "/api/users" ∷ "/api/secrets" ∷ "/api/audit" ∷ "/api/events" ∷ "/api/project-members"
    ∷ "/api/webhooks" ∷ "/api/outbox" ∷ "/api/alerts" ∷ "/api/approvals/expire"
    ∷ "/api/schedules/run-due" ∷ []

-- str.startswith of a tuple
unfoldable pub starts_with_any : String → List String → Bool
starts_with_any path [] = false
starts_with_any path (p ∷ ps) = starts_with path p || starts_with_any path ps

unfoldable pub is_public : HttpRequest → Bool
is_public request = one_of request.path public_paths || starts_with request.path "/static/"

unfoldable pub is_safe : HttpRequest → Bool
is_safe request = one_of request.method ("GET" ∷ "HEAD" ∷ "OPTIONS" ∷ [])

unfoldable pub is_admin_path : HttpRequest → Bool
unfolding starts_with_any
is_admin_path request = starts_with_any request.path admin_prefixes

-- The token of an Authorization header, empty where it is no bearer token.
unfoldable pub bearer_token : HttpRequest → String
bearer_token request =
    if starts_with request.authorization "Bearer "
    then drop_prefix "Bearer " request.authorization
    else ""

abbrev pub is_viewer : Role → Bool
is_viewer viewer = true
is_viewer _ = false

abbrev pub is_admin : Role → Bool
is_admin admin = true
is_admin _ = false

pub record Server (S : Type 0) : Type 0 where
  pub buckets : String → List ℕ
  pub audit_events : List AuditEvent
  pub state : S

-- Whom the boundary lets in: anybody on a public path; an actor; or nobody, with the status of the
-- answer. `crashed` is an exception, which the server answers by 500 with no audit row.
pub data Entry : Type 0 where
  anybody crashed : Entry
  known : Actor → Entry
  unknown : Entry

abbrev local_user : Actor
local_user = record { name = "local-user"; role = admin }

module _ (d : Digest) where
  abbrev pub entry_of : Login → Entry
  entry_of (accepted actor) = known actor
  entry_of refused = unknown
  entry_of raised = crashed

  -- The authentication part.
  unfoldable pub identify : Users → HttpRequest → Entry
  identify users request =
      if is_public request
      then anybody
      else if enabled users
      then (if str_eq (bearer_token request) ""
          then unknown
          else entry_of (authenticate d users (bearer_token request)))
      else known local_user

-- The row that is written for a request that may change something.
unfoldable pub audit : {S : Type 0} → HttpRequest → Actor → ℕ × Server S → ℕ × Server S
audit request actor (status, server) = if is_safe request then (status, server) else (
  status,
  record server {
    audit_events =
        (record {
          actor = actor.name;
          action = request.method;
          resource = request.path;
          status_code = status;
        })
        ∷ server.audit_events;
  },
)

module _ (window : ℕ) {S : Type 0} (handler : HttpRequest → Option Actor → S → ℕ × S) where
  -- Handing on to the handler.
  abbrev pub call_next : HttpRequest → Option Actor → Server S → ℕ × Server S
  call_next request actor server =
      let (status, state) = handler request actor server.state in
      (status, record server { state = state })

  abbrev pub set_bucket : String → List ℕ → (String → List ℕ) → String → List ℕ
  set_bucket name bucket buckets other = if str_eq other name then bucket else buckets other

  -- The role checks, the rate limit and the handler, for a known actor.
  unfoldable pub serve_actor : ℕ → HttpRequest → Actor → Server S → ℕ × Server S
  serve_actor now request actor server =
      if not (is_safe request) && is_viewer actor.role
      then (403, server)
      else if is_admin_path request && not (is_admin actor.role)
      then (403, server)
      else let (admitted, bucket) = admit window now (server.buckets actor.name) in
        let server' = record server { buckets = set_bucket actor.name bucket server.buckets } in
        if admitted then call_next request (some actor) server' else (429, server')

  abbrev pub respond : ℕ → HttpRequest → Entry → Server S → ℕ × Server S
  respond now request anybody server = call_next request none server
  respond now request crashed server = (500, server)
  respond now request unknown server = (401, server)
  respond now request (known actor) server =
      audit request actor (serve_actor now request actor server)

  unfoldable pub security_boundary : Digest → Users → ℕ → HttpRequest → Server S → ℕ × Server S
  security_boundary d users now request server =
      respond now request (identify d users request) server
