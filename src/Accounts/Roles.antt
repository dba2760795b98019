-- ===== src/Accounts/Roles.antt =====
-- The role of a member after it is written, and the two ways to ask for the members: by a project,
-- as the checks of a route do, and by a user, as the listings do.
use agentops_control_plane.Base.{
  ℕ, zero, suc, String, Bool, true, false, ◌&&◌, ◌≡◌, refl, ap, Option, none, some, List, [], ◌∷◌,
  ◌==◌, str_eq, eq_iff, if◌then◌else◌, occurs, arith, Bool-cases, Option-cases, inl, inr, eq_of_==,
}
use agentops_control_plane.Base.Table.{Table, update, any_row, rows_below, newest_first}
use agentops_control_plane.Base.Rows.{newest_first-insert}
use agentops_control_plane.Store.Rows.{Role}
use agentops_control_plane.Store.Exec.{Result, ok}
use agentops_control_plane.Service.{Member, Service}
use agentops_control_plane.Accounts.{
  is_membership, find_member, find_membership, write_member, put_project_member, role_of,
  project_role, projects_of, project_ids_for_user,
}

abbrev pub is_some : {A : Type 0} → Option A → Bool
is_some none = false
is_some (some a) = true

occurs-projects_of :
    (p : ℕ) (name : String) (rows : List (ℕ × Member))
    → occurs p (projects_of name rows) ≡ is_some (role_of (find_member p name rows))
occurs-projects_of p name [] = refl
occurs-projects_of p name ((id, m) ∷ rest) = ground (arith, occurs-projects_of p name rest)

-- The projects that the listings of a user range over are those in which he has a role.
pub occurs-project_ids_for_user :
    (members : Table Member) (p : ℕ) (name : String)
    → occurs p (project_ids_for_user members name) ≡ is_some (project_role members p name)
unfolding project_ids_for_user project_role
occurs-project_ids_for_user members p name = occurs-projects_of p name (newest_first members)

abbrev with_role : Role → Member → Member
with_role role m = record m { role = role }

abbrev updated : ℕ → Role → (ℕ → Option Member) → ℕ → Option Member
updated id role row = (update id (with_role role) (record { next = 0; row = row })).row

-- The role that `write_member` leaves.
abbrev pub new_role : ℕ → String → Role → ℕ → String → Option Role → Option Role
new_role p name role p' name' before = if p' == p && str_eq name' name then some role else before

module _ (id : ℕ) (role : Role) (row : ℕ → Option Member) where
  find_member-updated_same :
      (p : ℕ) (name : String) (n : ℕ) (m : Member)
      → find_member p name (rows_below n row) ≡ some (id, m)
      → role_of (find_member p name (rows_below n (updated id role row))) ≡ some role
  unfolding rows_below
  find_member-updated_same p name zero m h = ground arith
  find_member-updated_same p name (suc n) m h = elim (Option-cases (row n)) [
    | inl absent ↦ ground (arith, find_member-updated_same p name n m)
    | inr (b, e) ↦ ground (arith, find_member-updated_same p name n m)
  ]

  find_member-updated_other :
      (p : ℕ) (name : String) (n : ℕ) (m : Member)
      → row id ≡ some m
      → is_membership p name m ≡ false
      → role_of (find_member p name (rows_below n (updated id role row)))
        ≡ role_of (find_member p name (rows_below n row))
  unfolding rows_below
  find_member-updated_other p name zero m there h = refl
  find_member-updated_other p name (suc n) m there h = elim (Bool-cases (n == id)) [
    | inl same ↦
        ground (arith, find_member-updated_other p name n m there h, ap row (eq_of_== n id same))
    | inr other ↦ ground (arith, find_member-updated_other p name n m there h)
  ]

-- A row that is found is stored, and is the membership that was asked for.
find_member-stored :
    (p : ℕ) (name : String) (n : ℕ) (row : ℕ → Option Member) (id : ℕ) (m : Member)
    → find_member p name (rows_below n row) ≡ some (id, m)
    → (row id ≡ some m) × (is_membership p name m ≡ true)
unfolding rows_below
find_member-stored p name zero row id m h = ground arith
find_member-stored p name (suc n) row id m h = elim (Option-cases (row n)) [
  | inl absent ↦ find_member-stored p name n row id m (ground arith)
  | inr (b, e) ↦ elim (Bool-cases (is_membership p name b)) [
    | inl own ↦
        let at : n ≡ id = ground arith in
        let it : b ≡ m = ground arith in (ground (arith, ap row at), ground arith)
    | inr other ↦ find_member-stored p name n row id m (ground arith)
  ]
]

-- No membership of one pair is one of another.
is_membership-other :
    (p : ℕ) (name : String) (p' : ℕ) (name' : String) (m : Member)
    → is_membership p name m ≡ true
    → (p' == p && str_eq name' name) ≡ false
    → is_membership p' name' m ≡ false
is_membership-other p name p' name' m own other =
    ground (arith, eq_iff m.user_name name, eq_iff m.user_name name', eq_iff name' name)

module _ (p : ℕ) (name : String) (role : Role) (v : Service) (p' : ℕ) (name' : String) where
  abbrev written : Option (ℕ × Member) → Service
  written found = (write_member p name role found v).1

  project_role-insert :
      find_membership p name v.members ≡ none
      → project_role (written none).members p' name'
        ≡ new_role p name role p' name' (project_role v.members p' name')
  unfolding write_member project_role find_membership
  project_role-insert absent =
      let m : Member = record { project_id = p; user_name = name; role = role } in
      rw (newest_first-insert m v.members) (ground (arith, eq_iff name name', eq_iff name' name))

  project_role-update :
      (id : ℕ) (m : Member)
      → find_membership p name v.members ≡ some (id, m)
      → project_role (written (some (id, m))).members p' name'
        ≡ new_role p name role p' name' (project_role v.members p' name')
  unfolding write_member project_role find_membership newest_first
  project_role-update id m found = elim (Bool-cases (p' == p && str_eq name' name)) [
    | inl same ↦
        let at : p' ≡ p = ground arith in
        let who : name' ≡ name = (eq_iff name' name).0 (ground arith) in
        rw (same, at, who)
          (find_member-updated_same id role v.members.row p name v.members.next m found)
    | inr other ↦
        let (there, own) = find_member-stored p name v.members.next v.members.row id m found in
        rw other (
          find_member-updated_other id role v.members.row p' name' v.members.next m there
            (is_membership-other p name p' name' m own other))
  ]

  project_role-write :
      project_role (written (find_membership p name v.members)).members p' name'
      ≡ new_role p name role p' name' (project_role v.members p' name')
  project_role-write = elim (Option-cases (find_membership p name v.members)) [
    | inl absent ↦ rw absent (project_role-insert absent)
    | inr ((id, m), found) ↦ rw found (project_role-update id m found)
  ]

-- Giving a user a role in a project where it succeeds: he has the role there afterwards, and every
-- other role of his and of other users is as it was.
pub put_project_member-project_role :
    (p : ℕ) (name : String) (role : Role) (v v' : Service) (m : Member)
    → put_project_member p name role v ≡ (ok m, v')
    → (p' : ℕ) (name' : String)
    → project_role v'.members p' name'
      ≡ new_role p name role p' name' (project_role v.members p' name')
unfolding put_project_member
put_project_member-project_role p name role v v' m h p' name' =
    elim (Option-cases (v.db.projects.row p)) [
      | inl absent ↦ grind arith
      | inr (project, there) ↦ elim (Bool-cases (any_row (λ u. str_eq u.name name) v.users)) [
        | inl known ↦
            rw (← ap (λ (x : Result Member × Service). x.1) (rw (there, known) at h))
              (project_role-write p name role v p' name')
        | inr stranger ↦ grind arith
      ]
    ]
