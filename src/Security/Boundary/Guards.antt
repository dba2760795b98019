-- ===== src/Security/Boundary/Guards.antt =====
-- The requests that the middleware lets through, and its audit trail.
use agentops_control_plane.Base.{
  ℕ, true, false, ◌≡◌, ◌≢◌, ◌⊎◌, refl, ◌∙◌, ap, Option, ◌∷◌, if◌then◌else◌, arith, inl, inr,
  Bool-cases, List,
}
use agentops_control_plane.Store.Rows.{Role, admin, operator, viewer, AuditEvent}
use agentops_control_plane.Approvals.{Actor}
use agentops_control_plane.Security.Authenticator.{
  Digest, Users, enabled, authenticate, accepted, Login, refused, raised,
}
use agentops_control_plane.Security.Boundary.{
  HttpRequest, Server, Entry, known, anybody, crashed, unknown, identify, is_safe, is_public,
  is_admin_path, is_viewer, is_admin, entry_of, serve_actor, audit, security_boundary, bearer_token,
  respond,
}

pub Entry-cases :
    (e : Entry)
    → (e ≡ anybody) ⊎ ((e ≡ crashed) ⊎ ((e ≡ unknown) ⊎ ((actor : Actor) × (e ≡ known actor))))
Entry-cases anybody = inl refl
Entry-cases crashed = inr (inl refl)
Entry-cases unknown = inr (inr (inl refl))
Entry-cases (known actor) = inr (inr (inr (actor, refl)))

viewer-or : (r : Role) → (is_viewer r ≡ true) ⊎ (r ≢ viewer)
viewer-or viewer = inl refl
viewer-or admin = inr (λ e. grind arith)
viewer-or operator = inr (λ e. grind arith)

admin-or : (r : Role) → (is_admin r ≡ false) ⊎ (r ≡ admin)
admin-or admin = inr refl
admin-or viewer = inl refl
admin-or operator = inl refl

-- The request is let through to the handler.
pub data Permitted (d : Digest) (users : Users) (request : HttpRequest) : Type 0 where
  public : is_public request ≡ true → Permitted d users request
  by_role :
      (actor : Actor)
      → identify d users request ≡ known actor
      → (is_safe request ≡ true) ⊎ (actor.role ≢ viewer)
      → (is_admin_path request ≡ false) ⊎ (actor.role ≡ admin)
      → Permitted d users request

module _ (d : Digest) (users : Users) (request : HttpRequest) where
  entry_of-anybody : (login : Login) → entry_of d login ≢ anybody
  entry_of-anybody (accepted actor) e = grind arith
  entry_of-anybody refused e = grind arith
  entry_of-anybody raised e = grind arith

  entry_of-known :
      (login : Login) (actor : Actor) → entry_of d login ≡ known actor → login ≡ accepted actor
  entry_of-known (accepted a) actor e = grind arith
  entry_of-known refused actor e = grind arith
  entry_of-known raised actor e = grind arith

  identify-anybody : identify d users request ≡ anybody → is_public request ≡ true
  unfolding identify
  identify-anybody e =
      ground (arith, entry_of-anybody (authenticate d users (bearer_token request)))

  identify-known :
      (actor : Actor)
      → is_public request ≡ false
      → enabled users ≡ true
      → identify d users request ≡ known actor
      → authenticate d users (bearer_token request) ≡ accepted actor
  unfolding identify
  identify-known actor private on e =
      ground (arith, entry_of-known (authenticate d users (bearer_token request)) actor)

audit-state :
    {S : Type 0} (request : HttpRequest) (actor : Actor) (answer : ℕ × Server S)
    → (audit request actor answer).1.state ≡ answer.1.state
unfolding audit
audit-state request actor answer = ground arith

-- The rows behind a request that answered `status`.
abbrev pub with_row : HttpRequest → Actor → ℕ → List AuditEvent → List AuditEvent
with_row request actor status rows =
    if is_safe request
    then rows
    else (record {
      actor = actor.name;
      action = request.method;
      resource = request.path;
      status_code = status;
    })
      ∷ rows

audit-rows :
    {S : Type 0} (request : HttpRequest) (actor : Actor) (answer : ℕ × Server S)
    → (audit request actor answer).1.audit_events
      ≡ with_row request actor (audit request actor answer).0 answer.1.audit_events
unfolding audit
audit-rows request actor answer = ground arith

module _ (window : ℕ) {S : Type 0} (handler : HttpRequest → Option Actor → S → ℕ × S) where
  serve_actor-viewer :
      (now : ℕ) (request : HttpRequest) (actor : Actor) (server : Server S)
      → is_safe request ≡ false
      → is_viewer actor.role ≡ true
      → serve_actor window handler now request actor server ≡ (403, server)
  unfolding serve_actor
  serve_actor-viewer now request actor server a b = ground arith

  serve_actor-admin :
      (now : ℕ) (request : HttpRequest) (actor : Actor) (server : Server S)
      → is_admin_path request ≡ true
      → is_admin actor.role ≡ false
      → serve_actor window handler now request actor server ≡ (403, server)
  unfolding serve_actor
  serve_actor-admin now request actor server a b = ground arith

  -- The state changes under an actor only if the role checks let him through.
  serve_actor-changed :
      (now : ℕ) (request : HttpRequest) (actor : Actor) (server : Server S)
      → (serve_actor window handler now request actor server).1.state ≢ server.state
      → ((is_safe request ≡ true) ⊎ (actor.role ≢ viewer))
        × ((is_admin_path request ≡ false) ⊎ (actor.role ≡ admin))
  serve_actor-changed now request actor server changed = (
    elim (Bool-cases (is_safe request)) [
      | inl safe ↦ inl safe
      | inr unsafe ↦ elim (viewer-or actor.role) [
        | inl v ↦
            elim (changed
              (ap (λ x. x.1.state) (serve_actor-viewer now request actor server unsafe v))) [ ]
        | inr n ↦ inr n
      ]
    ],
    elim (Bool-cases (is_admin_path request)) [
      | inr plain ↦ inl plain
      | inl path ↦ elim (admin-or actor.role) [
        | inl n ↦
            elim (changed
              (ap (λ x. x.1.state) (serve_actor-admin now request actor server path n))) [ ]
        | inr a ↦ inr a
      ]
    ],
  )

  serve_actor-rows :
      (now : ℕ) (request : HttpRequest) (actor : Actor) (server : Server S)
      → (serve_actor window handler now request actor server).1.audit_events ≡ server.audit_events
  unfolding serve_actor
  serve_actor-rows now request actor server = ground arith

  -- The state of the service changes only under a request to a public path, or one by a known actor
  -- who is no viewer or only reads, and who is an admin where the path is for admins.
  pub security_boundary-guard :
      (d : Digest) (users : Users) (now : ℕ) (request : HttpRequest) (server : Server S)
      → (security_boundary window handler d users now request server).1.state ≢ server.state
      → Permitted d users request
  unfolding security_boundary
  security_boundary-guard d users now request server changed =
      elim (Entry-cases (identify d users request)) [
        | inl e ↦ public (identify-anybody d users request e)
        | inr (inl e) ↦
            elim (changed (ap (λ x. (respond window handler now request x server).1.state) e)) [ ]
        | inr (inr (inl e)) ↦
            elim (changed (ap (λ x. (respond window handler now request x server).1.state) e)) [ ]
        | inr (inr (inr (actor, e))) ↦
            let checks = serve_actor-changed now request actor server (λ same. changed (
              rw e (
                audit-state request actor (serve_actor window handler now request actor server)
                ∙ same))) in
            by_role actor e checks.0 checks.1
      ]

  -- With authentication on, a request to a path that is not public whose token is not accepted is
  -- answered by 401 and changes nothing, neither the service nor a bucket nor the audit trail; if
  -- the comparison of the token raises, the answer is 500.
  pub security_boundary-unknown :
      (d : Digest) (users : Users) (now : ℕ) (request : HttpRequest) (server : Server S)
      → is_public request ≡ false
      → enabled users ≡ true
      → ((actor : Actor) → authenticate d users (bearer_token request) ≢ accepted actor)
      → ((security_boundary window handler d users now request server ≡ (401, server))
          ⊎ (security_boundary window handler d users now request server ≡ (500, server)))
  unfolding security_boundary
  security_boundary-unknown d users now request server private on no_actor =
      elim (Entry-cases (identify d users request)) [
        | inl e ↦ grind (arith, identify-anybody d users request e)
        | inr (inl e) ↦ inr (rw e refl)
        | inr (inr (inl e)) ↦ inl (rw e refl)
        | inr (inr (inr (actor, e))) ↦
            elim (no_actor actor (identify-known d users request actor private on e)) [ ]
      ]

  -- A request by a known actor leaves one more row in the audit trail if its method may change
  -- something, with the status of the answer, and none otherwise.
  pub security_boundary-audit :
      (d : Digest) (users : Users) (now : ℕ) (request : HttpRequest) (server : Server S)
      (actor : Actor)
      → identify d users request ≡ known actor
      → let (status, server') = security_boundary window handler d users now request server in
        server'.audit_events ≡ with_row request actor status server.audit_events
  unfolding security_boundary
  security_boundary-audit d users now request server actor e = rw e (
      audit-rows request actor (serve_actor window handler now request actor server)
      ∙ ap
          (with_row request actor
            (audit request actor (serve_actor window handler now request actor server)).0)
          (serve_actor-rows now request actor server))
