-- ===== src/Listings/Pages.antt =====
-- A client that reads the audit trail page by page, each page below the last id of the one before.
use agentops_control_plane.Base.{
  ℕ, zero, suc, ◌<◌, ◌≡◌, refl, ap, ◌∙◌, Option, none, some, List, [], ◌∷◌, ◌++◌, keep, length,
  length-append, ltb, arith,
}
use mathlib.Core.List.{append_assoc}
use agentops_control_plane.Store.Rows.{AuditEvent}
use agentops_control_plane.Listings.{take, given, numbered, list_audit_events}

-- The id of the last row of a page.
abbrev last_id : List (ℕ × AuditEvent) → Option ℕ
last_id [] = none
last_id ((id, e) ∷ []) = some id
last_id ((id, e) ∷ row ∷ rows) = last_id (row ∷ rows)

abbrev and_next :
    Option ℕ → List (ℕ × AuditEvent) → (ℕ → List (ℕ × AuditEvent)) → List (ℕ × AuditEvent)
and_next none page next = []
and_next (some id) page next = page ++ next id

-- The pages joined, until one is empty.
unfoldable pub read_trail : ℕ → ℕ → Option ℕ → List AuditEvent → List (ℕ × AuditEvent)
unfolding list_audit_events
read_trail zero limit cursor events = []
read_trail (suc fuel) limit cursor events =
    let page = list_audit_events limit cursor events in
    and_next (last_id page) page λ id. read_trail fuel limit (some id) events

-- Whether a row lies below a cursor.
abbrev below : ℕ → List (ℕ × AuditEvent) → List (ℕ × AuditEvent)
below c rows = keep (λ row. ltb row.0 c) rows

below-all : (c : ℕ) (s : List AuditEvent) → length s < c → below c (numbered s) ≡ numbered s
below-all c [] h = refl
below-all c (e ∷ s) h = ground (arith, below-all c s (omega arith))

-- The rows below the first one of a tail are the tail.
below-tail : (q s : List AuditEvent) → below (suc (length s)) (numbered (q ++ s)) ≡ numbered s
below-tail [] s = below-all (suc (length s)) s (omega arith)
below-tail (e ∷ q) s = ground (arith, below-tail q s, length-append q s)

-- A page of a tail, split off: the rows that are left are a tail again, below the page's last id.
record Split (n : ℕ) (s : List AuditEvent) : Type 0 where
  page : List AuditEvent
  left : List AuditEvent
  whole : page ++ left ≡ s
  last : last_id (take (suc n) (numbered s)) ≡ some (suc (length left))
  rows : take (suc n) (numbered s) ++ numbered left ≡ numbered s
  shorter : length left < length s

split : (n : ℕ) (e : AuditEvent) (s : List AuditEvent) → Split n (e ∷ s)
split zero e s = record {
  page = e ∷ [];
  left = s;
  whole = refl;
  last = refl;
  rows = refl;
  shorter = omega arith;
}
split (suc n) e [] = record {
  page = e ∷ [];
  left = [];
  whole = refl;
  last = refl;
  rows = refl;
  shorter = omega arith;
}
split (suc n) e (e' ∷ s) =
    let rest = split n e' s in
    record {
      page = e ∷ rest.page;
      left = rest.left;
      whole = ap (λ x. e ∷ x) rest.whole;
      last = rest.last;
      rows = ap (λ x. (suc (length (e' ∷ s)), e) ∷ x) rest.rows;
      shorter = omega (arith, rest.shorter);
    }

abbrev page_of : Option ℕ → List AuditEvent → List (ℕ × AuditEvent)
page_of cursor events = keep (λ row. given cursor (λ c. ltb row.0 c)) (numbered events)

-- What a client reads whose cursor leaves a tail of the trail, where the fuel is enough.
read_trail-tail :
    (fuel n : ℕ) (q s : List AuditEvent) (cursor : Option ℕ)
    → length s < fuel
    → page_of cursor (q ++ s) ≡ numbered s
    → read_trail fuel (suc n) cursor (q ++ s) ≡ numbered s
unfolding read_trail
read_trail-tail zero n q s cursor h e = elim h [ ]
read_trail-tail (suc fuel) n q [] cursor h e =
    ap
      (λ rows.
        and_next (last_id (take (suc n) rows)) (take (suc n) rows)
          λ id. read_trail fuel (suc n) (some id) (q ++ []))
      e
read_trail-tail (suc fuel) n q (x ∷ s) cursor h e =
    let cut = split n x s in
    let again : (q ++ cut.page) ++ cut.left ≡ q ++ x ∷ s =
      append_assoc q cut.page cut.left ∙ ap (λ t. q ++ t) cut.whole in
    let below_it : page_of (some (suc (length cut.left))) (q ++ x ∷ s) ≡ numbered cut.left =
      rw again at (below-tail (q ++ cut.page) cut.left) in
    let rest : read_trail fuel (suc n) (some (suc (length cut.left))) (q ++ x ∷ s)
        ≡ numbered cut.left =
      rw again at (
        read_trail-tail fuel n (q ++ cut.page) cut.left (some (suc (length cut.left)))
          (omega (arith, cut.shorter)) (below-tail (q ++ cut.page) cut.left)) in
    ap
      (λ rows.
        and_next (last_id (take (suc n) rows)) (take (suc n) rows)
          λ id. read_trail fuel (suc n) (some id) (q ++ x ∷ s))
      e
    ∙ ap
        (λ id.
          and_next id (take (suc n) (numbered (x ∷ s)))
            λ i. read_trail fuel (suc n) (some i) (q ++ x ∷ s))
        cut.last
    ∙ ap (λ rows. take (suc n) (numbered (x ∷ s)) ++ rows) rest
    ∙ cut.rows

page_of-none : (events : List AuditEvent) → page_of none events ≡ numbered events
page_of-none [] = refl
page_of-none (e ∷ events) = ap (λ rows. (suc (length events), e) ∷ rows) (page_of-none events)

-- A client that reads the trail by pages of at least one row, each below the last id of the page
-- before, gets every row of the trail once and in its order, and needs one page more than there
-- are rows at most.
pub read_trail-numbered :
    (fuel n : ℕ) (events : List AuditEvent)
    → length events < fuel
    → read_trail fuel (suc n) none events ≡ numbered events
read_trail-numbered fuel n events h = read_trail-tail fuel n [] events none h (page_of-none events)
