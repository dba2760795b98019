-- ===== src/Store/Exec.antt =====
-- A method of the service: it reads and writes the database and may raise. Every `with
-- self.db.connect()` block commits on its own, so what was written before a raise stays written.
use agentops_control_plane.Base.{
  ℕ, String, Bool, true, false, Option, none, some, List, ◌≡◌, refl, ◌⊎◌, inl, inr,
}
use agentops_control_plane.Base.Table.{Table}
use agentops_control_plane.Json.{Value}
use agentops_control_plane.Store.Rows.{
  Workflow, Run, Span, Approval, AgentEvent, AuditEvent, Webhook, OutboxEvent, Secret,
}

-- `spans` is keyed by its UNIQUE(run_id, step_index), `memories` by UNIQUE(project_id, namespace,
-- key); `events` and `audit_events` have the newest first.
pub record Db : Type 0 where
  pub projects : Table String
  pub workflows : Table Workflow
  pub runs : Table Run
  pub spans : ℕ → ℕ → Option Span
  pub approvals : Table Approval
  pub events : List AgentEvent
  pub webhooks : Table Webhook
  pub outbox : Table OutboxEvent
  pub memories : ℕ → String → String → Option Value
  pub secrets : Table Secret
  pub audit_events : List AuditEvent

-- The exceptions that the service raises or meets, with their messages.
pub data Error : Type 0 where
  not_found conflict forbidden value_error type_error runtime timeout provider : String → Error
  integrity : Error
  -- the nesting of handoffs went deeper than the fuel
  too_deep : Error

-- str(error)
abbrev pub message : Error → String
message (Error.not_found m) = m
message (Error.conflict m) = m
message (Error.forbidden m) = m
message (Error.value_error m) = m
message (Error.type_error m) = m
message (Error.runtime m) = m
message (Error.timeout m) = m
message (Error.provider m) = m
message Error.integrity = "UNIQUE constraint failed"
message Error.too_deep = "maximum recursion depth exceeded"

pub data Result {ℓ} (A : Type ℓ) : Type ℓ where
  ok : A → Result A
  err : Error → Result A

abbrev pub Exec {ℓ} : Type ℓ → Type ℓ
Exec A = Db → Result A × Db

module _ {ℓ} {A : Type ℓ} where
  abbrev pub pure : A → Exec A
  pure a s = (ok a, s)

  abbrev pub raise : Error → Exec A
  raise e s = (err e, s)

  abbrev pub gets : (Db → A) → Exec A
  gets f s = (ok (f s), s)

  -- A row that must be there.
  abbrev pub or_raise : Option A → Error → Exec A
  or_raise none e = raise e
  or_raise (some a) _ = pure a

  abbrev pub lift : Result A → Exec A
  lift r s = (r, s)

abbrev pub modify : (Db → Db) → Exec (Unit {0})
modify f s = (ok tt, f s)

module _ {ℓ κ} {A : Type ℓ} {B : Type κ} where
  abbrev pub continue : Result A → (A → Exec B) → Exec B
  continue (ok a) f s = f a s
  continue (err e) f s = (err e, s)

  infixl 5 ◌>>=◌ ◌>>◌
  abbrev pub ◌>>=◌ : Exec A → (A → Exec B) → Exec B
  ◌>>=◌ m f s = let (r, s') = m s in continue r f s'

  abbrev pub ◌>>◌ : Exec A → Exec B → Exec B
  m >> n = m >>= λ _. n

  abbrev pub handle : Result A → (A → Exec B) → (Error → Exec B) → Exec B
  handle (ok a) f g s = f a s
  handle (err e) f g s = g e s

  -- try: a = m() except Exception as e: g(e) else: f(a)
  abbrev pub attempt : Exec A → (A → Exec B) → (Error → Exec B) → Exec B
  attempt m f g s = let (r, s') = m s in handle r f g s'

abbrev pub when : Bool → Exec (Unit {0}) → Exec (Unit {0})
when true m = m
when false m = pure tt

-- if b: raise e
abbrev pub raise_if : Bool → Error → Exec (Unit {0})
raise_if true e = raise e
raise_if false e = pure tt

pub Result-cases {ℓ} :
    {A : Type ℓ} (r : Result A) → ((a : A) × (r ≡ ok a)) ⊎ ((e : Error) × (r ≡ err e))
Result-cases (ok a) = inl (a, refl)
Result-cases (err e) = inr (e, refl)
