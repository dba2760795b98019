-- ===== src/Service.antt =====
-- The tables of src/agentops/database.py together, as `AgentOpsService` of src/agentops/service.py
-- reaches them, and its methods on the parts lifted to the whole.
use agentops_control_plane.Base.{ℕ, String, Bool, Option, none, some, ◌≡◌, refl, ap, arith}
use agentops_control_plane.Base.Table.{Table}
use agentops_control_plane.Store.Rows.{Role}
use agentops_control_plane.Store.Exec.{Db, Error, Exec, Result, ok, err}
use agentops_control_plane.Datasets.{Dataset, Evaluation, Bench, Catalog}
use agentops_control_plane.Schedules.{Schedule, Timed, Timetable}
use agentops_control_plane.Security.Authenticator.{User}

-- A row of `project_members`.
pub record Member : Type 0 where
  pub project_id : ℕ
  pub user_name : String
  pub role : Role

pub data Metric : Type 0 where
  failure_rate pending_approvals total_cost_usd : Metric

-- A row of `alerts`; the threshold is in millionths.
pub record Alert : Type 0 where
  pub name : String
  pub metric : Metric
  pub threshold : ℕ
  pub enabled : Bool

pub record Service : Type 0 where
  pub db : Db
  pub datasets : Table Dataset
  pub evaluations : Table Evaluation
  pub schedules : Table Schedule
  pub users : Table User
  pub members : Table Member
  pub alerts : Table Alert

-- A method of the service, that may raise.
abbrev pub Served {ℓ} : Type ℓ → Type ℓ
Served A = Service → Result A × Service

module _ {ℓ κ} {A : Type ℓ} {B : Type κ} where
  abbrev pub go_on : Result A → (A → Served B) → Served B
  go_on (ok a) f v = f a v
  go_on (err e) f v = (err e, v)

  infixl 5 ◌>>=◌ ◌>>◌
  abbrev pub ◌>>=◌ : Served A → (A → Served B) → Served B
  ◌>>=◌ m f v = let (r, v') = m v in go_on r f v'

  abbrev pub ◌>>◌ : Served A → Served B → Served B
  m >> n = m >>= λ _. n

module _ {ℓ} {A : Type ℓ} where
  abbrev pub pure : A → Served A
  pure a v = (ok a, v)

  abbrev pub raise : Error → Served A
  raise e v = (err e, v)

  -- A row that must be there.
  abbrev pub or_raise : Option A → Error → Served A
  or_raise none e = raise e
  or_raise (some a) _ = pure a

  abbrev pub on_db : Exec A → Served A
  on_db m v = let (r, s) = m v.db in (r, record v { db = s })

abbrev pub catalog_of : Service → Catalog
catalog_of v = record { db = v.db; datasets = v.datasets; evaluations = v.evaluations }

abbrev pub on_catalog : {A : Type 0} → Bench A → Served A
on_catalog m v =
    let (r, c) = m (catalog_of v) in
    (r, record v { db = c.db; datasets = c.datasets; evaluations = c.evaluations })

abbrev pub timetable_of : Service → Timetable
timetable_of v = record { db = v.db; schedules = v.schedules }

abbrev pub on_timetable : {A : Type 0} → Timed A → Served A
on_timetable m v =
    let (r, t) = m (timetable_of v) in (r, record v { db = t.db; schedules = t.schedules })

-- What came before the end of two calls that both succeed.
pub go_on-ok {ℓ κ} :
    {A : Type ℓ} {B : Type κ} (r : Result A) (f : A → Served B) (w v : Service) (b : B)
    → go_on r f w ≡ (ok b, v)
    → (a : A) × (r ≡ ok a) × (f a w ≡ (ok b, v))
go_on-ok (ok a) f w v b h = (a, refl, h)
go_on-ok (err e) f w v b h = grind arith

pub >>=-ok {ℓ κ} :
    {A : Type ℓ} {B : Type κ} (m : Served A) (f : A → Served B) (v v' : Service) (b : B)
    → (m >>= f) v ≡ (ok b, v')
    → (a : A) × (w : Service) × (m v ≡ (ok a, w)) × (f a w ≡ (ok b, v'))
>>=-ok m f v v' b h =
    let (a, fine, after) = go_on-ok (m v).0 f (m v).1 v' b h in
    (a, (m v).1, ap (λ r. (r, (m v).1)) fine, after)
