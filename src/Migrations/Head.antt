-- ===== src/Migrations/Head.antt =====
-- The head of the migrations: what each of them brings about, and what is already there.
use agentops_control_plane.Base.{
  String, Bool, true, false, ◌&&◌, ◌≡◌, refl, List, [], ◌∷◌, ◌++◌, map, Option, none, some, one_of,
  str_eq, eq_iff, if◌then◌else◌, Bool-cases, Option-cases, inl, inr, arith,
}
use agentops_control_plane.Migrations.Tables.{
  Schema, Statement, create_table, add_column, create_index, table_columns, set_columns, execute,
}
use agentops_control_plane.Migrations.{
  Op, statement, ensure, and_then, ensure_columns, apply_op, apply_ops,
}

-- What a migration can bring about, and what a database has.
pub data Fact : Type 0 where
  has_table : String → Fact
  has_column : String → String → Fact
  has_index : String → Fact
  has_version : String → Fact

abbrev pub exists : {A : Type 0} → Option A → Bool
exists none = false
exists (some a) = true

abbrev pub holds : Fact → Schema → Bool
holds (has_table table) s = exists (s.columns table)
holds (has_column table name) s = one_of name (table_columns table s)
holds (has_index index) s = one_of index s.indexes
holds (has_version version) s = one_of version s.versions

abbrev pub all_hold : List Fact → Schema → Bool
all_hold [] s = true
all_hold (f ∷ fs) s = holds f s && all_hold fs s

abbrev pub result_of : Statement → Fact
result_of (create_table table cols) = has_table table
result_of (add_column table name) = has_column table name
result_of (create_index index table cols) = has_index index

abbrev pub results_of : Op → List Fact
results_of (statement st) = result_of st ∷ []
results_of (ensure table names) = map (has_column table) names

abbrev pub results : List Op → List Fact
results [] = []
results (op ∷ ops) = results_of op ++ results ops

-- Everything that holds goes on to hold.
abbrev pub Grows : Schema → Schema → Type 0
Grows s s' = (f : Fact) → holds f s ≡ true → holds f s' ≡ true

pub all_hold-Grows :
    (fs : List Fact) (s s' : Schema) → Grows s s' → all_hold fs s ≡ true → all_hold fs s' ≡ true
all_hold-Grows [] s s' grows h = refl
all_hold-Grows (f ∷ fs) s s' grows h = ground (arith, grows f, all_hold-Grows fs s s' grows)

all_hold-append :
    (fs gs : List Fact) (s : Schema)
    → all_hold fs s ≡ true
    → all_hold gs s ≡ true
    → all_hold (fs ++ gs) s ≡ true
all_hold-append [] gs s h k = k
all_hold-append (f ∷ fs) gs s h k = ground (arith, all_hold-append fs gs s)

one_of-append_left :
    (x : String) (xs ys : List String) → one_of x xs ≡ true → one_of x (xs ++ ys) ≡ true
one_of-append_left x [] ys h = ground arith
one_of-append_left x (y ∷ xs) ys h = ground (arith, one_of-append_left x xs ys)

pub str_eq_refl : (x : String) → str_eq x x ≡ true
str_eq_refl x = (eq_iff x x).1 refl

one_of-append_right : (x : String) (xs : List String) → one_of x (xs ++ x ∷ []) ≡ true
one_of-append_right x [] = rw (str_eq_refl x) refl
one_of-append_right x (y ∷ xs) = ground (arith, one_of-append_right x xs)

table_columns-set_columns :
    (t table : String) (cols : List String) (s : Schema)
    → table_columns t (set_columns table cols s)
      ≡ (if str_eq t table then cols else table_columns t s)
table_columns-set_columns t table cols s = ground arith

set_columns-Grows :
    (table : String) (cols : List String) (s : Schema)
    → ((name : String) → one_of name (table_columns table s) ≡ true → one_of name cols ≡ true)
    → Grows s (set_columns table cols s)
set_columns-Grows table cols s more (has_table t) h = ground arith
set_columns-Grows table cols s more (has_column t name) h =
    ground (arith, table_columns-set_columns t table cols s, (eq_iff t table).0, more name)
set_columns-Grows table cols s more (has_index i) h = h
set_columns-Grows table cols s more (has_version v) h = h

add_index-Grows : (index : String) (s : Schema) → Grows s (record s { indexes = index ∷ s.indexes })
add_index-Grows index s (has_table t) h = h
add_index-Grows index s (has_column t name) h = h
add_index-Grows index s (has_index i) h = ground arith
add_index-Grows index s (has_version v) h = h

execute-Grows : (st : Statement) (s s' : Schema) → execute st s ≡ some s' → Grows s s'
unfolding execute
execute-Grows (create_table table cols) s s' e = elim (Option-cases (s.columns table)) [
  | inl new ↦
      let grows = set_columns-Grows table cols s (λ name h. ground arith) in
      λ f h. ground (arith, grows f h)
  | inr (old, found) ↦ λ f h. ground arith
]
execute-Grows (add_column table name) s s' e = elim (Option-cases (s.columns table)) [
  | inl missing ↦ λ f h. ground arith
  | inr (cols, found) ↦
      let grows =
        set_columns-Grows table (cols ++ name ∷ []) s
          (λ x h. one_of-append_left x cols (name ∷ []) (ground arith)) in
      λ f h. ground (arith, grows f h)
]
execute-Grows (create_index index table cols) s s' e =
    let grows = add_index-Grows index s in λ f h. ground (arith, grows f h)

execute-holds :
    (st : Statement) (s s' : Schema) → execute st s ≡ some s' → holds (result_of st) s' ≡ true
unfolding execute
execute-holds (create_table table cols) s s' e = ground (arith, str_eq_refl table)
execute-holds (add_column table name) s s' e = elim (Option-cases (s.columns table)) [
  | inl missing ↦ ground arith
  | inr (cols, found) ↦ ground (arith, str_eq_refl table, one_of-append_right name cols)
]
execute-holds (create_index index table cols) s s' e = ground (arith, str_eq_refl index)

-- From one database to another that has more, these facts among it.
abbrev pub Moves : List Fact → Schema → Schema → Type 0
Moves fs s s' = Grows s s' × (all_hold fs s' ≡ true)

pub Moves-nil : (s : Schema) → Moves [] s s
Moves-nil s = ((λ f h. h), refl)

pub Moves-append :
    (fs gs : List Fact) (s s₁ s₂ : Schema) → Moves fs s s₁ → Moves gs s₁ s₂ → Moves (fs ++ gs) s s₂
Moves-append fs gs s s₁ s₂ (grow, have) (grow', have') = (
  (λ f h. grow' f (grow f h)),
  all_hold-append fs gs s₂ (all_hold-Grows fs s₁ s₂ grow' have) have',
)

pub and_then-cases :
    {A B : Type 0} (o : Option A) (f : A → Option B) (b : B)
    → and_then o f ≡ some b
    → (a : A) × ((o ≡ some a) × (f a ≡ some b))
and_then-cases none f b e = ground arith
and_then-cases (some a) f b e = (a, (refl, e))

execute-Moves :
    (st : Statement) (s s' : Schema) → execute st s ≡ some s' → Moves (result_of st ∷ []) s s'
execute-Moves st s s' e = (execute-Grows st s s' e, ground (arith, execute-holds st s s' e))

column-Moves :
    (table : String) (columns : List String) (name : String) (s s' : Schema)
    → ((x : String) → one_of x columns ≡ true → one_of x (table_columns table s) ≡ true)
    → (if one_of name columns then some s else execute (add_column table name) s) ≡ some s'
    → Moves (has_column table name ∷ []) s s'
column-Moves table columns name s s' known e = elim (Bool-cases (one_of name columns)) [
  | inl there ↦
      let same : some s ≡ some s' = ground arith in
      ((λ f h. ground arith), ground (arith, known name))
  | inr new ↦ execute-Moves (add_column table name) s s' (ground arith)
]

ensure_columns-Moves :
    (table : String) (columns names : List String) (s s' : Schema)
    → ((x : String) → one_of x columns ≡ true → one_of x (table_columns table s) ≡ true)
    → ensure_columns table columns names s ≡ some s'
    → Moves (map (has_column table) names) s s'
unfolding ensure_columns
ensure_columns-Moves table columns [] s s' known e = ground (arith, Moves-nil s)
ensure_columns-Moves table columns (name ∷ names) s s' known e =
    let (s₁, (first, later)) =
      and_then-cases (if one_of name columns then some s else execute (add_column table name) s)
        (ensure_columns table columns names) s' e in
    let moved = column-Moves table columns name s s₁ known first in
    Moves-append (has_column table name ∷ []) (map (has_column table) names) s s₁ s' moved (
      ensure_columns-Moves table columns names s₁ s'
        (λ x h. moved.0 (has_column table x) (known x h)) later)

apply_op-Moves : (op : Op) (s s' : Schema) → apply_op op s ≡ some s' → Moves (results_of op) s s'
unfolding apply_op
apply_op-Moves (statement st) s s' e = execute-Moves st s s' e
apply_op-Moves (ensure table names) s s' e =
    ensure_columns-Moves table (table_columns table s) names s s' (λ x h. h) e

pub apply_ops-Moves :
    (ops : List Op) (s s' : Schema) → apply_ops ops s ≡ some s' → Moves (results ops) s s'
unfolding apply_ops
apply_ops-Moves [] s s' e = ground (arith, Moves-nil s)
apply_ops-Moves (op ∷ ops) s s' e =
    let (s₁, (first, later)) = and_then-cases (apply_op op s) (apply_ops ops) s' e in
    Moves-append (results_of op) (results ops) s s₁ s' (apply_op-Moves op s s₁ first)
      (apply_ops-Moves ops s₁ s' later)
