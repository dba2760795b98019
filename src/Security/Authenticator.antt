-- ===== src/Security/Authenticator.antt =====
-- `Authenticator` of src/agentops/security.py. SHA-256 (`token_hash`) and `hmac.compare_digest` are
-- parameters: the latter raises on texts that are not ASCII, which `none` stands for.
use agentops_control_plane.Base.{
  String, Bool, true, false, Option, none, some, List, [], ◌∷◌, str_eq, if◌then◌else◌,
}
use agentops_control_plane.Store.Rows.{Role, admin}
use agentops_control_plane.Approvals.{Actor}

pub record Digest : Type 0 where
  pub token_hash : String → String
  pub compare_digest : String → String → Option Bool

-- A row of `users`.
pub record User : Type 0 where
  pub name : String
  pub token_hash : String
  pub role : Role

-- The environment and the table that the class reads; an unset or empty key is `none`.
pub record Users : Type 0 where
  pub api_key : Option String
  pub rows : List User

abbrev pub nonempty : List User → Bool
nonempty [] = false
nonempty (u ∷ us) = true

unfoldable pub enabled : Users → Bool
enabled users = elim users.api_key [ none ↦ nonempty users.rows | some key ↦ true ]

abbrev pub find_hash : String → List User → Option User
find_hash digest [] = none
find_hash digest (u ∷ us) = if str_eq u.token_hash digest then some u else find_hash digest us

-- What `authenticate` returns; `raised` is the TypeError of `compare_digest`.
pub data Login : Type 0 where
  accepted : Actor → Login
  refused raised : Login

module _ (d : Digest) where
  abbrev pub checked : User → Option Bool → Login
  checked u none = raised
  checked u (some true) = accepted (record { name = u.name; role = u.role })
  checked u (some false) = refused

  unfoldable pub login_user : String → Option User → Login
  login_user digest none = refused
  login_user digest (some u) = checked u (d.compare_digest digest u.token_hash)

  abbrev pub or_user : Option Bool → Login → Login
  or_user none user = raised
  or_user (some true) user = accepted (record { name = "bootstrap-admin"; role = admin })
  or_user (some false) user = user

  unfoldable pub authenticate : Users → String → Login
  unfolding login_user
  authenticate users token =
      let digest = d.token_hash token in
      let user = login_user digest (find_hash digest users.rows) in
      elim users.api_key [ none ↦ user | some key ↦ or_user (d.compare_digest token key) user ]
