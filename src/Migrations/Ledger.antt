-- ===== src/Migrations/Ledger.antt =====
-- `migrate` of src/agentops/migrations.py over a ledger that tells the truth.
use agentops_control_plane.Base.{
  String, Bool, true, false, ◌&&◌, ◌||◌, not, ◌≡◌, ◌⊎◌, inl, inr, refl, ap, List, [], ◌∷◌, ◌++◌,
  map, Option, none, some, one_of, keep, Bool-cases, arith,
}
use agentops_control_plane.Migrations.Tables.{Schema}
use agentops_control_plane.Migrations.{
  apply_ops, Migration, migrations, add_version, applied_too, apply_pending, committed, migrate,
  and_then,
}
use agentops_control_plane.Migrations.Head.{
  Fact, has_version, all_hold, results, Grows, Moves, Moves-nil, Moves-append, and_then-cases,
  all_hold-Grows, apply_ops-Moves, str_eq_refl,
}

-- The versions that the ledger `applied` does not have, in their order.
abbrev pub pending_versions : List String → List Migration → List String
pending_versions applied ms = map (λ m. m.version) (keep (λ m. not (one_of m.version applied)) ms)

add_version-Grows : (version : String) (s : Schema) → Grows s (add_version version s)
add_version-Grows version s (Fact.has_table t) h = h
add_version-Grows version s (Fact.has_column t name) h = h
add_version-Grows version s (Fact.has_index i) h = h
add_version-Grows version s (Fact.has_version v) h = ground arith

-- A migration that the ledger does not have is applied, and recorded before the rest.
apply_pending-new :
    (applied : List String) (m : Migration) (ms : List Migration) (s : Schema) (vs : List String)
    (s' : Schema)
    → one_of m.version applied ≡ false
    → apply_pending applied (m ∷ ms) s ≡ some (vs, s')
    → (s₁ : Schema) × (vs' : List String) × (apply_ops m.ops s ≡ some s₁)
      × (apply_pending applied ms (add_version m.version s₁) ≡ some (vs', s'))
      × (vs ≡ m.version ∷ vs')
unfolding apply_pending
apply_pending-new applied m ms s vs s' new e =
    let go = λ (s₁ : Schema).
      and_then (apply_pending applied ms (add_version m.version s₁)) (applied_too m.version) in
    let taken : and_then (apply_ops m.ops s) go ≡ some (vs, s') = ground arith in
    let (s₁, (first, later)) = and_then-cases (apply_ops m.ops s) go (vs, s') taken in
    let ((vs', s₂), (after, same)) =
      and_then-cases (apply_pending applied ms (add_version m.version s₁)) (applied_too m.version)
        (vs, s') later in
    (s₁, vs', first, ground arith, ground arith)

module _ (facts : Migration → List Fact) where
  abbrev pub head_of : List Migration → List Fact
  head_of [] = []
  head_of (m ∷ ms) = facts m ++ head_of ms

  -- The migrations that the ledger has left what they bring about.
  abbrev pub promised : List String → List Migration → Schema → Bool
  promised applied [] s = true
  promised applied (m ∷ ms) s =
      (not (one_of m.version applied) || all_hold (facts m) s) && promised applied ms s

  promised-Grows :
      (applied : List String) (ms : List Migration) (s s' : Schema)
      → Grows s s'
      → promised applied ms s ≡ true
      → promised applied ms s' ≡ true
  promised-Grows applied [] s s' grows h = refl
  promised-Grows applied (m ∷ ms) s s' grows h =
      ground (arith, all_hold-Grows (facts m) s s' grows, promised-Grows applied ms s s' grows)

  module _
      (brings : (m : Migration) (s s' : Schema)
        → apply_ops m.ops s ≡ some s'
        → Moves (facts m) s (add_version m.version s')) where
    apply_pending-Moves :
        (applied : List String) (ms : List Migration) (s : Schema) (vs : List String) (s' : Schema)
        → promised applied ms s ≡ true
        → apply_pending applied ms s ≡ some (vs, s')
        → Moves (head_of ms) s s'
    unfolding apply_pending
    apply_pending-Moves applied [] s vs s' h e = ground (arith, Moves-nil s)
    apply_pending-Moves applied (m ∷ ms) s vs s' h e =
        elim (Bool-cases (one_of m.version applied)) [
          | inl there ↦
              Moves-append (facts m) (head_of ms) s s s' ((λ f k. k), ground arith)
                (apply_pending-Moves applied ms s vs s' (ground arith) (ground arith))
          | inr new ↦
              let (s₁, vs', first, after, same) = apply_pending-new applied m ms s vs s' new e in
              let moved = brings m s s₁ first in
              let s₃ = add_version m.version s₁ in
              Moves-append (facts m) (head_of ms) s s₃ s' moved (
                apply_pending-Moves applied ms s₃ vs' s'
                  (promised-Grows applied ms s s₃ moved.0 (ground arith)) after)
        ]

apply_pending-versions :
    (applied : List String) (ms : List Migration) (s : Schema) (vs : List String) (s' : Schema)
    → apply_pending applied ms s ≡ some (vs, s')
    → vs ≡ pending_versions applied ms
unfolding apply_pending
apply_pending-versions applied [] s vs s' e = ground arith
apply_pending-versions applied (m ∷ ms) s vs s' e = elim (Bool-cases (one_of m.version applied)) [
  | inl there ↦ ground (arith, apply_pending-versions applied ms s vs s' (ground arith))
  | inr new ↦
      let (s₁, vs', first, after, same) = apply_pending-new applied m ms s vs s' new e in
      ground (arith, apply_pending-versions applied ms (add_version m.version s₁) vs' s' after)
]

-- What a migration of the list brings about, its row in the ledger included.
abbrev pub achieved : Migration → List Fact
achieved m = has_version m.version ∷ results m.ops

apply_ops-achieved :
    (m : Migration) (s s' : Schema)
    → apply_ops m.ops s ≡ some s'
    → Moves (achieved m) s (add_version m.version s')
apply_ops-achieved m s s' e =
    let (grows, have) = apply_ops-Moves m.ops s s' e in
    let s₁ = add_version m.version s' in
    let more = add_version-Grows m.version s' in
    let kept = all_hold-Grows (results m.ops) s' s₁ more have in
    ((λ f h. more f (grows f h)), ground (arith, str_eq_refl m.version))

-- Its row alone.
abbrev recorded : Migration → List Fact
recorded m = has_version m.version ∷ []

apply_ops-recorded :
    (m : Migration) (s s' : Schema)
    → apply_ops m.ops s ≡ some s'
    → Moves (recorded m) s (add_version m.version s')
apply_ops-recorded m s s' e =
    ((apply_ops-achieved m s s' e).0, ground (arith, str_eq_refl m.version))

promised-recorded : (ms : List Migration) (s : Schema) → promised recorded s.versions ms s ≡ true
promised-recorded [] s = refl
promised-recorded (m ∷ ms) s = ground (arith, promised-recorded ms s)

-- Nothing is left to do where every version is recorded.
apply_pending-done :
    (ms : List Migration) (s : Schema)
    → all_hold (head_of recorded ms) s ≡ true
    → apply_pending s.versions ms s ≡ some ([], s)
unfolding apply_pending
apply_pending-done [] s h = refl
apply_pending-done (m ∷ ms) s h = ground (arith, apply_pending-done ms s)

-- A database at the head, after the versions `vs` were applied to `s`.
abbrev pub AtHead : Schema → List String → Schema → Type 0
AtHead s vs s' =
    (vs ≡ pending_versions s.versions migrations)
    × Moves (head_of achieved migrations) s s'
    × (migrate s' ≡ (some [], s'))

committed-cases :
    (s : Schema) (o : Option (List String × Schema))
    → (committed s o ≡ (none, s))
      ⊎ ((vs : List String) × (s' : Schema) × (o ≡ some (vs, s')) × (committed s o ≡ (some vs, s')))
committed-cases s none = inl refl
committed-cases s (some (vs, s')) = inr (vs, s', refl, refl)

-- A migration of a database whose ledger tells the truth, that is, in which each recorded migration
-- has left what it brings about: either it fails and the database is as it was, or it applies the
-- versions that the ledger did not have, in their order. Then every migration is recorded and what
-- each brings about is there, tables, columns and indexes that were there are there still, and to
-- migrate again applies nothing and changes nothing.
pub migrate-AtHead :
    (s : Schema)
    → promised achieved s.versions migrations s ≡ true
    → (migrate s ≡ (none, s))
      ⊎ ((vs : List String) × (s' : Schema) × (migrate s ≡ (some vs, s')) × AtHead s vs s')
unfolding migrate
migrate-AtHead s h = elim (committed-cases s (apply_pending s.versions migrations s)) [
  | inl e ↦ inl e
  | inr (vs, s', done, e) ↦
      let row =
        apply_pending-Moves recorded apply_ops-recorded s.versions migrations s vs s'
          (promised-recorded migrations s) done in
      inr (
        vs,
        s',
        e,
        (
          apply_pending-versions s.versions migrations s vs s' done,
          apply_pending-Moves achieved apply_ops-achieved s.versions migrations s vs s' h done,
          ap (committed s') (apply_pending-done migrations s' row.1),
        ),
      )
]
