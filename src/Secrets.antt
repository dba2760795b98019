-- ===== src/Secrets.antt =====
-- The secrets of projects in src/agentops/service.py (`put_secret`, `list_secrets`, `reveal_secret`)
-- and the vault of src/agentops/security.py (`SecretVault`) over Fernet, which is a parameter.
pub mod Revealed
use agentops_control_plane.Base.{ℕ, String, Bool, Option, none, some, List, map, ◌==◌, keep, str_eq}
use agentops_control_plane.Base.Table.{Table, insert, update, newest_first}
use agentops_control_plane.Store.Rows.{Secret}
use agentops_control_plane.Store.Exec.{
  Db, Error, Exec, Result, ok, err, pure, raise, lift, gets, modify, ◌>>=◌, ◌>>◌,
}
use agentops_control_plane.Runs.Agent.{get_project}
use agentops_control_plane.Runs.Tools.{find_secret}

-- A Fernet key: `none` of `decrypt` is an InvalidToken. Encryption draws a nonce, which is an
-- argument.
pub record Fernet : Type 0 where
  pub encrypt : ℕ → String → String
  pub decrypt : String → Option String

-- The vault, with a key where AGENTOPS_ENCRYPTION_KEY is set.
abbrev pub SecretVault : Type 0
SecretVault = Option Fernet

unfoldable pub encrypt : SecretVault → ℕ → String → Result String
encrypt none nonce value = err (Error.runtime "AGENTOPS_ENCRYPTION_KEY is not configured")
encrypt (some fernet) nonce value = ok (fernet.encrypt nonce value)

abbrev opened : Option String → Result String
opened none = err (Error.runtime "secret cannot be decrypted with the configured key")
opened (some value) = ok value

unfoldable pub decrypt : SecretVault → String → Result String
decrypt none ciphertext = err (Error.runtime "AGENTOPS_ENCRYPTION_KEY is not configured")
decrypt (some fernet) ciphertext = opened (fernet.decrypt ciphertext)

abbrev pub set_secrets : Table Secret → Db → Db
set_secrets t s = record s { secrets = t }

-- INSERT ... ON CONFLICT(project_id,name) DO UPDATE, and the id of the row.
unfoldable pub upsert_secret :
    ℕ → String → String → Option (ℕ × Secret) → Table Secret → ℕ × Table Secret
upsert_secret project_id name ciphertext none t =
    (t.next, insert (record { project_id = project_id; name = name; ciphertext = ciphertext }) t)
upsert_secret project_id name ciphertext (some (id, x)) t =
    (id, update id (λ row. record row { ciphertext = ciphertext }) t)

module _ (vault : SecretVault) where
  -- The id comes back; the ciphertext does not leave the service.
  unfoldable pub put_secret : ℕ → ℕ → String → String → Exec ℕ
  unfolding get_project encrypt upsert_secret newest_first
  put_secret nonce project_id name value = do
    project ← get_project project_id
    ciphertext ← lift (encrypt vault nonce value)
    rows ← gets (λ s. s.secrets)
    let written =
        upsert_secret project_id name ciphertext (find_secret project_id name (newest_first rows))
          rows
    modify (set_secrets written.1)
    pure written.0

  abbrev pub revealed : Option Secret → Exec String
  revealed none = raise (Error.not_found "secret not found")
  revealed (some secret) = lift (decrypt vault secret.ciphertext)

  unfoldable pub reveal_secret : ℕ → Exec String
  unfolding decrypt
  reveal_secret id = do row ← gets (λ s. s.secrets.row id); revealed row

-- The ids and names of a project's secrets. The order by name is left out.
abbrev pub names_of : ℕ → List (ℕ × Secret) → List (ℕ × String)
names_of project_id rows =
    map (λ row. (row.0, row.1.name)) (keep (λ row. row.1.project_id == project_id) rows)

unfoldable pub list_secrets : ℕ → Exec (List (ℕ × String))
unfolding get_project newest_first
list_secrets project_id = do
  get_project project_id
  gets (λ s. names_of project_id (newest_first s.secrets))
