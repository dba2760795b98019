-- ===== src/Api/Grants.antt =====
-- The access of those who make a project or import one.
use agentops_control_plane.Base.{
  ℕ, String, true, false, ◌≡◌, refl, sym, ap, ◌∙◌, inl, inr, Option, some, List, eq_iff, arith,
  ==_refl,
}
use agentops_control_plane.Store.Rows.{Role, operator}
use agentops_control_plane.Store.Exec.{Result, ok}
use agentops_control_plane.Approvals.{Actor}
use agentops_control_plane.Service.{Service, Served, pure, on_catalog, >>=-ok, ◌>>◌}
use agentops_control_plane.Packages.{Package, import_project}
use agentops_control_plane.Accounts.{project_role, put_project_member, grant_created_project}
use agentops_control_plane.Accounts.Roles.{new_role, put_project_member-project_role}
use agentops_control_plane.Security.Access.{IsMember, as_admin, as_member, Role-cases}
use agentops_control_plane.Security.Boundary.{is_admin}
use agentops_control_plane.Api.{Outside, post_import}

-- The call that is made for a caller who is no admin.
abbrev granted : Actor → ℕ → Served (Unit {0})
granted actor p = do put_project_member p actor.name operator; pure tt

grant-other :
    (actor : Actor) (p : ℕ) (v : Service)
    → is_admin actor.role ≡ false
    → grant_created_project actor p v ≡ granted actor p v
unfolding grant_created_project
grant-other actor p v plain = ground arith

new_role_self :
    (p : ℕ) (name : String) (role : Role) (before : Option Role)
    → new_role p name role p name before ≡ some role
new_role_self p name role before = ground (arith, (eq_iff name name).1 refl, ==_refl p)

grant-IsMember :
    (actor : Actor) (p : ℕ) (v v' : Service)
    → grant_created_project actor p v ≡ (ok tt, v')
    → IsMember (project_role v'.members) actor p true
grant-IsMember actor p v v' h = elim (Role-cases (project_role v.members) actor actor.role) [
  | inl admin_too ↦ as_admin admin_too
  | inr plain ↦
      let call : granted actor p v ≡ (ok tt, v') = sym (grant-other actor p v plain) ∙ h in
      let (member, w, put, rest) =
        >>=-ok (put_project_member p actor.name operator) (λ _. pure tt) v v' tt call in
      let end : w ≡ v' = ap (λ (x : Result (Unit {0}) × Service). x.1) rest in
      as_member operator
        (put_project_member-project_role p actor.name operator v v' member
            (put ∙ ap (λ x. (ok member, x)) end) p actor.name
          ∙ new_role_self p actor.name operator _)
        refl
]

-- A package that `post_import` answers with: who imports it may write in its project.
pub post_import-IsMember :
    (o : Outside) (actor : Actor) (p : Package) (name : Option String)
    (imported : ℕ × List ℕ × List ℕ) (v v' : Service)
    → post_import o actor p name v ≡ (ok imported, v')
    → IsMember (project_role v'.members) actor imported.0 true
unfolding post_import
post_import-IsMember o actor p name imported v v' h =
    let (done, w, created, rest) =
      >>=-ok (on_catalog (import_project o.naming p name)) _ v v' imported h in
    let (u, w', granted_it, end) =
      >>=-ok (grant_created_project actor done.0) (λ _. pure done) w v' imported rest in
    let same : done ≡ imported = ground arith in
    let last : w' ≡ v' = ap (λ (x : Result (ℕ × List ℕ × List ℕ) × Service). x.1) end in
    rw (← ap (λ (x : ℕ × List ℕ × List ℕ). x.0) same)
      (grant-IsMember actor done.0 w v' (granted_it ∙ ap (λ x. (ok tt, x)) last))
