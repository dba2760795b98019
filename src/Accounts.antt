-- ===== src/Accounts.antt =====
-- Users and the members of projects in src/agentops/service.py (`create_user`, `put_project_member`,
-- `project_role`, `project_ids_for_user`, `list_project_members`), and what src/agentops/main.py asks
-- of them (`actor_project_ids`, `grant_created_project`).
pub mod Roles
use agentops_control_plane.Base.{
  ℕ, String, Bool, ◌&&◌, ◌||◌, Option, none, some, List, [], ◌∷◌, ◌==◌, str_eq, if◌then◌else◌, keep,
}
use agentops_control_plane.Base.Table.{Table, insert, update, any_row, newest_first}
use agentops_control_plane.Store.Rows.{Role, admin, operator, viewer}
use agentops_control_plane.Store.Exec.{Error, ok, err}
use agentops_control_plane.Runs.Agent.{get_project}
use agentops_control_plane.Approvals.{Actor}
use agentops_control_plane.Security.Authenticator.{User}
use agentops_control_plane.Service.{Member, Service, Served, pure, on_db, ◌>>=◌, ◌>>◌}

abbrev pub taken_user : String → String → User → Bool
taken_user name digest user = str_eq user.name name || str_eq user.token_hash digest

-- `strip` is the method of `str`, `token_hash` SHA-256. The id comes back with the user.
unfoldable pub create_user :
    (String → String) → (String → String) → String → String → Role → Served (ℕ × User)
create_user strip token_hash name token role v =
    let user : User = record { name = strip name; token_hash = token_hash token; role = role } in
    if any_row (taken_user user.name user.token_hash) v.users
    then (err (Error.conflict "user name or token already exists"), v)
    else (ok (v.users.next, user), record v { users = insert user v.users })

-- WHERE project_id=? AND user_name=?
abbrev pub is_membership : ℕ → String → Member → Bool
is_membership project_id user_name m = m.project_id == project_id && str_eq m.user_name user_name

abbrev pub find_member : ℕ → String → List (ℕ × Member) → Option (ℕ × Member)
find_member project_id user_name [] = none
find_member project_id user_name ((id, m) ∷ rest) =
    let found = find_member project_id user_name rest in
    if is_membership project_id user_name m then some (id, m) else found

unfoldable pub find_membership : ℕ → String → Table Member → Option (ℕ × Member)
unfolding newest_first
find_membership project_id user_name members =
    find_member project_id user_name (newest_first members)

abbrev pub set_members : Table Member → Service → Service
set_members members v = record v { members = members }

-- The row of a member, changed where there is one and inserted where there is none.
unfoldable pub write_member : ℕ → String → Role → Option (ℕ × Member) → Served Member
write_member project_id user_name role (some (id, m)) v =
    let set = λ (row : Member). record row { role = role } in
    (ok (set m), set_members (update id set v.members) v)
write_member project_id user_name role none v =
    let m : Member = record { project_id = project_id; user_name = user_name; role = role } in
    (ok m, set_members (insert m v.members) v)

unfoldable pub put_project_member : ℕ → String → Role → Served Member
unfolding get_project find_membership write_member
put_project_member project_id user_name role = do
  on_db (get_project project_id)
  λ v.
      if any_row (λ u. str_eq u.name user_name) v.users
      then write_member project_id user_name role (find_membership project_id user_name v.members) v
      else (err (Error.not_found "user not found"), v)

abbrev pub role_of : Option (ℕ × Member) → Option Role
role_of none = none
role_of (some (id, m)) = some m.role

unfoldable pub project_role : Table Member → ℕ → String → Option Role
unfolding find_membership
project_role members project_id user_name = role_of (find_membership project_id user_name members)

abbrev pub projects_of : String → List (ℕ × Member) → List ℕ
projects_of user_name [] = []
projects_of user_name ((id, m) ∷ rest) =
    let others = projects_of user_name rest in
    if str_eq m.user_name user_name then m.project_id ∷ others else others

-- The set as a list, in which a project may stand twice.
unfoldable pub project_ids_for_user : Table Member → String → List ℕ
unfolding newest_first
project_ids_for_user members user_name = projects_of user_name (newest_first members)

-- `none` is every project.
unfoldable pub actor_project_ids : Table Member → Actor → Option (List ℕ)
unfolding project_ids_for_user
actor_project_ids members actor = elim actor.role [
  | admin ↦ none
  | _ ↦ some (project_ids_for_user members actor.name)
]

unfoldable pub grant_created_project : Actor → ℕ → Served (Unit {0})
unfolding put_project_member
grant_created_project actor project_id = elim actor.role [
  | admin ↦ pure tt
  | _ ↦ do put_project_member project_id actor.name operator; pure tt
]
