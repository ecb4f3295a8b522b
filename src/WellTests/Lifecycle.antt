-- ===== src/WellTests/Lifecycle.antt =====
-- The transitions of apps/backend/src/well-tests/well-tests.service.ts taken together, one action
-- for each write route of well-tests.controller.ts, and the shape that all of them share.
pub mod Edges
pub mod Constraints
pub mod Overlap
pub mod Soundness
use rvf_malinois.Prelude.{
  Uuid, Time, ◌≡◌, refl, ap, Bool, true, false, not, List, Option, none, some, find_by, String,
  Result, ok, err, ◌>>=◌, ◌>>◌, guard, or_throw, arith, Option-cases, inl, inr, Bool-cases,
  >>=-eq-ok,
}
use rvf_malinois.WellTests.Contracts.{abort_schema, notes_schema, LifecycleStatus, includes}
use rvf_malinois.WellTests.Table.{WellTest, Error, conflict, has_id, row_chk, replace, update}
use rvf_malinois.WellTests.Service.{
  WellTestRow, CallerContext, Reply, other_tenant, row_to_wire, load_for_transition,
  assert_transition, apply_update, connect, start_stabilization, start_official, end_official,
  abort, close,
}

pub data Action : Type 0 where
  connects starts_stabilization starts_official ends_official : Action
  aborts : String → Action
  closes : Option Time → Action

unfoldable pub perform :
    CallerContext → Uuid → Option String → Time → List WellTest → Action → Reply
perform ctx id notes now rows connects = connect ctx id notes now rows
perform ctx id notes now rows starts_stabilization = start_stabilization ctx id notes now rows
perform ctx id notes now rows starts_official = start_official ctx id notes now rows
perform ctx id notes now rows ends_official = end_official ctx id notes now rows
perform ctx id notes now rows (aborts reason) = abort ctx id notes now rows reason
perform ctx id notes now rows (closes report) = close ctx id notes now rows report

-- What the schema of the action's route asks of its texts.
unfoldable pub request_schema : Action → Option String → Bool
unfolding notes_schema abort_schema
request_schema (aborts reason) notes = abort_schema reason notes
request_schema connects notes = notes_schema notes
request_schema starts_stabilization notes = notes_schema notes
request_schema starts_official notes = notes_schema notes
request_schema ends_official notes = notes_schema notes
request_schema (closes report) notes = notes_schema notes

abbrev pub stamp : Time → WellTest → WellTest
stamp now row = record row { updated_at = now }

-- What a transition that went through has done.
pub record Applied (ctx : CallerContext) (id : Uuid) (now : Time) (rows : List WellTest)
    (allowed : List LifecycleStatus) (extra : WellTest → Result Error (Unit {0}))
    (patch : WellTest → WellTest) (rows' : List WellTest) (wire : WellTestRow) : Type 0 where
  pub before : WellTest
  pub found : find_by (has_id id) rows ≡ some before
  pub visible : other_tenant ctx.tenant_id before.tenant_id ≡ false
  pub permitted : includes allowed before.lifecycle_status ≡ true
  pub passed : extra before ≡ ok tt
  pub checked : row_chk (stamp now (patch before)) ≡ true
  pub written : rows' ≡ replace id (stamp now (patch before)) rows
  pub answered : wire ≡ row_to_wire (stamp now (patch before))

guard-ok : (b : Bool) (e : Error) {u : Unit {0}} → guard b e ≡ ok u → b ≡ true
guard-ok true e h = refl
guard-ok false e h = cc

not-eq-true : (b : Bool) → not b ≡ true → b ≡ false
not-eq-true true h = cc
not-eq-true false h = refl

pub load_for_transition-ok :
    (ctx : CallerContext) (id : Uuid) (rows : List WellTest) {row : WellTest}
    → load_for_transition ctx id rows ≡ ok row
    → (find_by (has_id id) rows ≡ some row) × (other_tenant ctx.tenant_id row.tenant_id ≡ false)
unfolding load_for_transition
load_for_transition-ok ctx id rows {row} h = elim (Option-cases (find_by (has_id id) rows)) [
  | inl e ↦ ground arith
  | inr (r, e) ↦ ground arith
]

pub transition-Applied :
    (ctx : CallerContext) (id : Uuid) (now : Time) (rows : List WellTest) (next : LifecycleStatus)
    (allowed : List LifecycleStatus) (extra : WellTest → Result Error (Unit {0}))
    (patch : WellTest → WellTest) {rows' : List WellTest} {wire : WellTestRow}
    → (load_for_transition ctx id rows >>= λ row.
        assert_transition row.lifecycle_status next allowed
        >> (extra row >> apply_update id now patch rows))
      ≡ ok (rows', wire)
    → Applied ctx id now rows allowed extra patch rows' wire
unfolding apply_update update
transition-Applied ctx id now rows next allowed extra patch {rows'} {wire} h =
    let (row, loaded, h₁) = >>=-eq-ok (load_for_transition ctx id rows) _ h in
    let (found, visible) = load_for_transition-ok ctx id rows loaded in
    let (u, permitted, h₂) = >>=-eq-ok (assert_transition row.lifecycle_status next allowed) _ h₁ in
    let (v, passed, h₃) = >>=-eq-ok (extra row) _ h₂ in
    record {
      before = row;
      found = found;
      visible = visible;
      permitted = guard-ok _ conflict permitted;
      passed = passed;
      checked = ground arith;
      written = ground arith;
      answered = ground arith;
    }
