-- ===== src/WellTests/Lifecycle/Overlap.antt =====
-- The rule of well-tests.service.ts that a unit has at most one active test, over every history of
-- calls that do not interleave.
use rvf_malinois.WellTests.Lifecycle.Edges.{perform-Advances, Advances}
use rvf_malinois.WellTests.Lifecycle.Soundness.{performed, create-Created, created, empty, Reach}
use rvf_malinois.WellTests.Service.{new_row, WellTestRow, is_other_active, CallerContext, Job}
use rvf_malinois.WellTests.Contracts.{CreateWellTestInput, active_statuses, includes}
use rvf_malinois.WellTests.Table.{has_id, replace, WellTest}
use rvf_malinois.Prelude.{
  Uuid, Time, inr, inl, ==_iff, ◌∙◌, Bool-cases, ◌≢◌, ◌⊎◌, ◌≡◌, sym, true, false, List, [], ◌∷◌,
  none, find_by, arith, In, here, there, All-In, find_by-none, find_by-some,
}

abbrev pub IsActive : WellTest → Type 0
IsActive r = includes active_statuses r.lifecycle_status ≡ true

-- Two active tests of one unit of one tenant are the same test.
abbrev pub NoOverlap : List WellTest → Type 0
NoOverlap rows =
    (a b : WellTest)
    → In a rows
    → In b rows
    → IsActive a
    → IsActive b
    → a.tenant_id ≡ b.tenant_id
    → a.unit_id ≡ b.unit_id
    → a.id ≡ b.id

-- A row after a replacement is the new row, or an old row with another id.
In-replace :
    (id : Uuid) (new : WellTest) (rows : List WellTest) (a : WellTest)
    → In a (replace id new rows)
    → (a ≡ new) ⊎ (In a rows × (a.id ≢ id))
unfolding replace
In-replace id new [] a i = elim i [ ]
In-replace id new (r ∷ rows) a here = elim (Bool-cases (has_id id r)) [
  | inl e ↦ inl (rw e)
  | inr e ↦ inr (rw e (here, ground arith))
]
In-replace id new (r ∷ rows) a (there i) = elim (In-replace id new rows a i) [
  | inl e ↦ inl e
  | inr (j, ne) ↦ inr (there j, ne)
]

-- A row that the guard of `connect` did not find is not active, or is the test itself.
not_other :
    (tenant unit self : Uuid) (rows : List WellTest) (b : WellTest)
    → find_by (is_other_active tenant unit self) rows ≡ none
    → In b rows
    → IsActive b
    → b.tenant_id ≡ tenant
    → b.unit_id ≡ unit
    → b.id ≡ self
not_other tenant unit self rows b e i act t u =
    let miss = All-In (λ a. is_other_active tenant unit self a ≡ false) (find_by-none _ rows e) i in
    ground arith

-- The test that a transition has written overlaps with none of the other rows.
alone :
    {ctx : CallerContext} {id : Uuid} {now : Time} {rows rows' : List WellTest} {wire : WellTestRow}
    (v : Advances ctx id now rows rows' wire) (b : WellTest)
    → NoOverlap rows
    → In b rows
    → IsActive v.after
    → IsActive b
    → v.after.tenant_id ≡ b.tenant_id
    → v.after.unit_id ≡ b.unit_id
    → b.id ≡ id
alone {id} {rows} v b apart i act_a act_b t u = elim (v.exclusive act_a) [
  | inl was ↦
      let hit = find_by-some (has_id id) rows v.found in
      let q = apart v.before b hit.0 i was act_b (sym v.same.tenant ∙ t) (sym v.same.unit ∙ u) in
      sym q ∙ (==_iff _ _).0 hit.1
  | inr e ↦ not_other _ _ id rows b e i act_b (sym t ∙ v.same.tenant) (sym u ∙ v.same.unit)
]

after_id :
    {ctx : CallerContext} {id : Uuid} {now : Time} {rows rows' : List WellTest} {wire : WellTestRow}
    (v : Advances ctx id now rows rows' wire)
    → v.after.id ≡ id
after_id {id} {rows} v =
    let hit = find_by-some (has_id id) rows v.found in v.same.id ∙ (==_iff _ _).0 hit.1

Advances-NoOverlap :
    {ctx : CallerContext} {id : Uuid} {now : Time} {rows rows' : List WellTest} {wire : WellTestRow}
    → Advances ctx id now rows rows' wire
    → NoOverlap rows
    → NoOverlap rows'
Advances-NoOverlap {id} {rows} v apart a b i j act_a act_b t u =
    go (In-replace id v.after rows a (rw v.written at i))
      (In-replace id v.after rows b (rw v.written at j))
  where
    go :
        (a ≡ v.after) ⊎ (In a rows × (a.id ≢ id))
        → (b ≡ v.after) ⊎ (In b rows × (b.id ≢ id))
        → a.id ≡ b.id
    go (inl p) (inl q) = rw (p, q)
    go (inl p) (inr (ib, ne)) =
        absurd (ne (alone v b apart ib (rw p at act_a) act_b (rw p at t) (rw p at u)))
    go (inr (ia, ne)) (inl q) =
        absurd (ne (alone v a apart ia (rw q at act_b) act_a (sym (rw q at t)) (sym (rw q at u))))
    go (inr (ia, _)) (inr (ib, _)) = apart a b ia ib act_a act_b t u

-- A new test is scheduled, so it is not active.
not_yet-IsActive :
    (input : CreateWellTestInput) (new_id tenant_id : Uuid) (now : Time)
    → ¬ IsActive (new_row input new_id tenant_id now)
unfolding new_row
not_yet-IsActive input new_id tenant_id now h = cc

cons-NoOverlap :
    (r : WellTest) (rows : List WellTest) → ¬ IsActive r → NoOverlap rows → NoOverlap (r ∷ rows)
cons-NoOverlap r rows idle apart a b here j act_a act_b t u = absurd (idle act_a)
cons-NoOverlap r rows idle apart a b (there i) here act_a act_b t u = absurd (idle act_b)
cons-NoOverlap r rows idle apart a b (there i) (there j) act_a act_b t u =
    apart a b i j act_a act_b t u

not_in : {a : WellTest} {P : Type 0} → In a [] → P
not_in i = elim i [ ]

-- However the calls follow one another, no unit of a tenant has two active tests.
pub Reach-NoOverlap :
    {jobs : List Job} {now : Time} {rows : List WellTest} → Reach jobs now rows → NoOverlap rows
Reach-NoOverlap (empty now) = λ a b i j act_a act_b t u. not_in i
Reach-NoOverlap (created {later} {rows} r le ctx input new_id h) =
    let c = create-Created ctx input new_id later _ rows h in
    rw c.written (
      cons-NoOverlap _ rows (not_yet-IsActive input new_id c.job.tenant_id later)
        (Reach-NoOverlap r))
Reach-NoOverlap (performed {later} {rows} r le ctx id notes action h) =
    Advances-NoOverlap (perform-Advances ctx id notes later rows action h) (Reach-NoOverlap r)

-- In every table that the service reaches by calls that do not interleave, two active tests of one
-- unit of one tenant have the same id.
pub Reach-one_active :
    {jobs : List Job} {now : Time} {rows : List WellTest}
    → Reach jobs now rows
    → (a b : WellTest) → In a rows
    → In b rows
    → IsActive a
    → IsActive b
    → a.tenant_id ≡ b.tenant_id
    → a.unit_id ≡ b.unit_id
    → a.id ≡ b.id
Reach-one_active r = Reach-NoOverlap r
