-- ===== src/Secrets/Revealed.antt =====
-- Secrets that are stored, and what is revealed of them.
use agentops_control_plane.Base.{
  ℕ, String, true, false, ◌&&◌, ◌≡◌, refl, ap, ◌∙◌, Option, none, some, ◌==◌, str_eq, eq_iff, arith,
  Option-cases, inl, inr, ==_refl,
}
use agentops_control_plane.Base.Table.{Table, newest_first}
use agentops_control_plane.Base.Rows.{newest_first-insert, find_first-update, find_first-stored}
use agentops_control_plane.Store.Rows.{Secret}
use agentops_control_plane.Store.Exec.{Db, ok}
use agentops_control_plane.Runs.Env.{Env}
use agentops_control_plane.Runs.Tools.{find_secret, reveal_secret_named}
use agentops_control_plane.Secrets.{
  Fernet, SecretVault, revealed, decrypt, upsert_secret, put_secret, reveal_secret, set_secrets,
}

-- The row that `upsert_secret` leaves.
record IsWritten (p : ℕ) (name ciphertext : String) (t : Table Secret) (w : ℕ × Table Secret)
    : Type 0 where
  secret : Secret
  text_of : secret.ciphertext ≡ ciphertext
  by_id : (w.1).row w.0 ≡ some secret
  by_name : find_secret p name (newest_first w.1) ≡ some (w.0, secret)
  others : (k : ℕ) → (k == w.0) ≡ false → (w.1).row k ≡ t.row k

abbrev found : ℕ → String → Table Secret → Option (ℕ × Secret)
found p name t = find_secret p name (newest_first t)

upsert_secret-insert :
    (p : ℕ) (name ciphertext : String) (t : Table Secret)
    → IsWritten p name ciphertext t (upsert_secret p name ciphertext none t)
unfolding upsert_secret
upsert_secret-insert p name ciphertext t =
    let x : Secret = record { project_id = p; name = name; ciphertext = ciphertext } in
    let own : (p == p && str_eq name name) ≡ true = ground (arith, (eq_iff name name).1 refl) in
    record {
      secret = x;
      text_of = refl;
      by_id = rw (==_refl t.next) refl;
      by_name = rw (newest_first-insert x t, own) refl;
      others = λ k other. rw other refl;
    }

upsert_secret-update :
    (p : ℕ) (name ciphertext : String) (t : Table Secret) (id : ℕ) (x : Secret)
    → found p name t ≡ some (id, x)
    → IsWritten p name ciphertext t (upsert_secret p name ciphertext (some (id, x)) t)
unfolding upsert_secret newest_first
upsert_secret-update p name ciphertext t id x there =
    let key = λ (row : Secret). row.project_id == p && str_eq row.name name in
    let set = λ (row : Secret). record row { ciphertext = ciphertext } in
    let stored = find_first-stored key t.next t.row id x there in
    record {
      secret = set x;
      text_of = refl;
      by_id = rw (==_refl id, stored.0) refl;
      by_name = find_first-update key set t.next t id x (λ row. refl) there;
      others = λ k other. rw other refl;
    }

upsert_secret-IsWritten :
    (p : ℕ) (name ciphertext : String) (t : Table Secret)
    → IsWritten p name ciphertext t (upsert_secret p name ciphertext (found p name t) t)
upsert_secret-IsWritten p name ciphertext t = elim (Option-cases (found p name t)) [
  | inl absent ↦ rw absent (upsert_secret-insert p name ciphertext t)
  | inr ((id, x), there) ↦ rw there (upsert_secret-update p name ciphertext t id x there)
]

module _ (fernet : Fernet) (nonce p : ℕ) (name value : String) (s : Db) where
  abbrev written : ℕ × Table Secret
  written = upsert_secret p name (fernet.encrypt nonce value) (found p name s.secrets) s.secrets

  put_secret-written :
      (project : String)
      → s.projects.row p ≡ some project
      → put_secret (some fernet) nonce p name value s ≡ (ok written.0, set_secrets written.1 s)
  unfolding put_secret
  put_secret-written project there = rw (there, put_secret) refl

  -- What is revealed of a table that has the secret.
  module _ (t : Table Secret) (w : ℕ × Table Secret) where
    reveal_secret-written :
        fernet.decrypt (fernet.encrypt nonce value) ≡ some value
        → IsWritten p name (fernet.encrypt nonce value) t w
        → reveal_secret (some fernet) w.0 (set_secrets w.1 s) ≡ (ok value, set_secrets w.1 s)
    unfolding reveal_secret decrypt
    reveal_secret-written law h = rw (h.by_id, h.text_of, law) refl

    reveal_secret_named-written :
        (env : Env)
        → ((c : String) → env.decrypt c ≡ decrypt (some fernet) c)
        → fernet.decrypt (fernet.encrypt nonce value) ≡ some value
        → IsWritten p name (fernet.encrypt nonce value) t w
        → (reveal_secret_named env p name (set_secrets w.1 s)).0 ≡ ok value
    unfolding reveal_secret_named decrypt
    reveal_secret_named-written env same law h =
        rw (h.by_name, h.text_of, same (fernet.encrypt nonce value), law) refl

revealed-any :
    (vault : SecretVault) (o : Option Secret) (s s' : Db)
    → (revealed vault o s).0 ≡ (revealed vault o s').0
revealed-any vault none s s' = refl
revealed-any vault (some x) s s' = refl

-- Where Fernet decrypts what it has encrypted, and runs open ciphertexts with the same vault: a
-- secret that `put_secret` stores in a project that exists is revealed by the id that comes back,
-- and a run gets it by its name; every other secret is revealed as before.
pub put_secret-reveal_secret :
    (fernet : Fernet)
    → ((nonce : ℕ) (value : String) → fernet.decrypt (fernet.encrypt nonce value) ≡ some value)
    → (env : Env) → ((c : String) → env.decrypt c ≡ decrypt (some fernet) c)
    → (nonce p : ℕ) (name value project : String) (s : Db) → s.projects.row p ≡ some project
    → let (result, s') = put_secret (some fernet) nonce p name value s in
      (id : ℕ) × (result ≡ ok id)
      × (reveal_secret (some fernet) id s' ≡ (ok value, s'))
      × ((reveal_secret_named env p name s').0 ≡ ok value)
      × ((k : ℕ)
          → (k == id) ≡ false
          → (reveal_secret (some fernet) k s').0 ≡ (reveal_secret (some fernet) k s).0)
unfolding reveal_secret
put_secret-reveal_secret fernet law env same nonce p name value project s there =
    let h = upsert_secret-IsWritten p name (fernet.encrypt nonce value) s.secrets in
    let w = written fernet nonce p name value s in
    rw (put_secret-written fernet nonce p name value s project there) (
      w.0,
      refl,
      reveal_secret-written fernet nonce p name value s s.secrets w (law nonce value) h,
      reveal_secret_named-written fernet nonce p name value s s.secrets w env same (law nonce value)
          h,
      λ k other.
          ap (λ o. (revealed (some fernet) o (set_secrets w.1 s)).0) (h.others k other)
          ∙ revealed-any (some fernet) (s.secrets.row k) (set_secrets w.1 s) s,
    )
