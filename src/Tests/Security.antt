-- ===== src/Tests/Security.antt =====
-- The theorems on the security boundary, applied.
use agentops_control_plane.Base.{
  ℕ, suc, String, none, some, true, [], ◌∷◌, ◌≡◌, ◌≢◌, ◌↔◌, refl, arith, Option, str_eq,
}
use agentops_control_plane.Json.{Value, text, obj, field, end}
use agentops_control_plane.Store.Rows.{operator, viewer}
use agentops_control_plane.Store.Exec.{ok}
use agentops_control_plane.Approvals.{Actor}
use agentops_control_plane.Security.Redact.{redact, IsClean, redact-IsClean}
use agentops_control_plane.Security.RateLimit.{
  evict, admit, decisions, sliding_window, decisions-eq-sliding_window,
}
use agentops_control_plane.Security.Authenticator.{
  Digest, Users, enabled, login_user, authenticate, accepted,
}
use agentops_control_plane.Security.Boundary.{
  HttpRequest, Server, identify, known, is_public, is_safe, is_admin_path, bearer_token,
  serve_actor, audit, security_boundary, starts_with_any,
}
use agentops_control_plane.Security.Boundary.Guards.{Permitted, security_boundary-guard}
use agentops_control_plane.Security.Access.{
  Members, require_approval_access, IsOf, IsMember, require_approval_access_lem,
}
use agentops_control_plane.Tests.{db}

abbrev digest : Digest
digest = record { token_hash = λ t. t; compare_digest = λ a b. some (str_eq a b) }

abbrev users : Users
users = record {
  api_key = none;
  rows = (record { name = "alice"; token_hash = "token"; role = operator }) ∷ [];
}

abbrev post : String → HttpRequest
post authorization = record { method = "POST"; path = "/api/runs"; authorization = authorization }

abbrev alice : Actor
alice = record { name = "alice"; role = operator }

-- A handler that counts its calls.
abbrev handler : HttpRequest → Option Actor → ℕ → ℕ × ℕ
handler request actor n = (200, suc n)

abbrev server : Server ℕ
server = record { buckets = λ _. []; audit_events = []; state = 0 }

alice-known : identify digest users (post "Bearer token") ≡ known alice
unfolding identify is_public bearer_token enabled authenticate login_user
alice-known = refl

security_boundary-counts :
    (security_boundary 60 handler digest users 100 (post "Bearer token") server).1.state ≡ 1
unfolding security_boundary serve_actor audit is_safe is_admin_path admit evict identify is_public
    bearer_token enabled authenticate login_user starts_with_any
security_boundary-counts = refl

security_boundary-changed :
    (security_boundary 60 handler digest users 100 (post "Bearer token") server).1.state ≢ 0
security_boundary-changed e = omega (arith, security_boundary-counts, e)

security_boundary-guard_example : Permitted digest users (post "Bearer token")
security_boundary-guard_example =
    security_boundary-guard 60 handler digest users 100 (post "Bearer token") server
      security_boundary-changed

nobody :
    (actor : Actor)
    → authenticate digest users (bearer_token (post "Bearer wrong")) ≢ accepted actor
unfolding authenticate login_user bearer_token
nobody actor e = grind arith

decisions-eq-sliding_window_example :
    decisions 60 (0 ∷ 1 ∷ 61 ∷ []) [] ≡ sliding_window 60 (0 ∷ 1 ∷ 61 ∷ []) []
decisions-eq-sliding_window_example =
    decisions-eq-sliding_window 60 (0 ∷ 1 ∷ 61 ∷ []) (omega arith, (omega arith, (omega arith, tt)))

abbrev credentials : Value
credentials = obj (field "user" (text "alice") (field "token" (text "t") end))

redact-IsClean_example :
    IsClean (λ key. key) (redact (λ key. key) credentials)
    × (IsClean (λ key. key) credentials → redact (λ key. key) credentials ≡ credentials)
    × (redact (λ key. key) (redact (λ key. key) credentials) ≡ redact (λ key. key) credentials)
redact-IsClean_example = redact-IsClean (λ key. key) credentials

abbrev members : Members
members project_id name = some viewer

require_approval_access_example :
    (require_approval_access members alice 1 true db ≡ (ok tt, db)) ↔ (
      (project_id : ℕ) × IsOf members alice db 1 project_id
      × IsMember members alice project_id true)
require_approval_access_example = require_approval_access_lem members alice db 1 true
