-- ===== src/WellTests/Lifecycle/Edges.antt =====
-- The lifecycle as a graph, and the transitions of well-tests.service.ts as moves along its edges.
use rvf_malinois.Prelude.{
  Uuid, Time, none, ◌≡◌, refl, true, false, List, [], ◌∷◌, Option, some, find_by, String, ok, err,
  arith, Result, guard, not, ◌≢◌, Option-cases, inl, inr, ◌⊎◌,
}
use rvf_malinois.WellTests.Contracts.{
  LifecycleStatus, scheduled, connected, stabilizing, measuring, completed, closed, aborted,
  includes, active_statuses,
}
use rvf_malinois.WellTests.Table.{
  WellTest, Error, not_found, conflict, bad_request, has_id, row_chk, replace,
}
use rvf_malinois.WellTests.Service.{
  WellTestRow, CallerContext, other_tenant, row_to_wire, is_other_active, load_for_transition,
  connect, start_stabilization, start_official, end_official, abort, close, is_earlier,
  assert_no_other_active_test_for_unit,
}
use rvf_malinois.WellTests.Lifecycle.Constraints.{IsSound}
use rvf_malinois.WellTests.Lifecycle.{
  Action, connects, starts_stabilization, starts_official, ends_official, aborts, closes, perform,
  Applied, transition-Applied, stamp,
}

-- The arrows of the lifecycle.
pub data Edge : LifecycleStatus → LifecycleStatus → Type 0 where
  connecting : Edge scheduled connected
  settling : Edge connected stabilizing
  starting : Edge stabilizing measuring
  ending : Edge measuring completed
  closing : Edge completed closed
  dropping_scheduled : Edge scheduled aborted
  dropping_connected : Edge connected aborted
  dropping_stabilizing : Edge stabilizing aborted
  dropping_measuring : Edge measuring aborted

-- The columns that no transition writes.
pub record SameTest (before after : WellTest) : Type 0 where
  pub id : after.id ≡ before.id
  pub tenant : after.tenant_id ≡ before.tenant_id
  pub job : after.job_id ≡ before.job_id
  pub well : after.well_id ≡ before.well_id
  pub unit : after.unit_id ≡ before.unit_id
  pub test_type : after.test_type ≡ before.test_type
  pub report_type : after.report_type ≡ before.report_type
  pub duration : after.planned_official_duration_hours ≡ before.planned_official_duration_hours
  pub created : after.created_at ≡ before.created_at

pub record Advances (ctx : CallerContext) (id : Uuid) (now : Time) (rows : List WellTest)
    (rows' : List WellTest) (wire : WellTestRow) : Type 0 where
  pub before : WellTest
  pub after : WellTest
  pub found : find_by (has_id id) rows ≡ some before
  pub visible : other_tenant ctx.tenant_id before.tenant_id ≡ false
  pub edge : Edge before.lifecycle_status after.lifecycle_status
  pub same : SameTest before after
  pub stamped : after.updated_at ≡ now
  pub checked : row_chk after ≡ true
  pub written : rows' ≡ replace id after rows
  pub answered : wire ≡ row_to_wire after
  pub sound : IsSound now before → IsSound now after
  pub exclusive :
      includes active_statuses after.lifecycle_status ≡ true
      → (includes active_statuses before.lifecycle_status ≡ true)
        ⊎ (find_by (is_other_active before.tenant_id before.unit_id id) rows ≡ none)

Edge-connected : (s : LifecycleStatus) → includes (scheduled ∷ []) s ≡ true → Edge s connected
Edge-connected scheduled h = connecting
Edge-connected _ h = cc

Edge-stabilizing : (s : LifecycleStatus) → includes (connected ∷ []) s ≡ true → Edge s stabilizing
Edge-stabilizing connected h = settling
Edge-stabilizing _ h = cc

Edge-measuring : (s : LifecycleStatus) → includes (stabilizing ∷ []) s ≡ true → Edge s measuring
Edge-measuring stabilizing h = starting
Edge-measuring _ h = cc

Edge-completed : (s : LifecycleStatus) → includes (measuring ∷ []) s ≡ true → Edge s completed
Edge-completed measuring h = ending
Edge-completed _ h = cc

Edge-closed : (s : LifecycleStatus) → includes (completed ∷ []) s ≡ true → Edge s closed
Edge-closed completed h = closing
Edge-closed _ h = cc

Edge-aborted :
    (s : LifecycleStatus)
    → includes (scheduled ∷ connected ∷ stabilizing ∷ measuring ∷ []) s ≡ true
    → Edge s aborted
Edge-aborted scheduled h = dropping_scheduled
Edge-aborted connected h = dropping_connected
Edge-aborted stabilizing h = dropping_stabilizing
Edge-aborted measuring h = dropping_measuring
Edge-aborted _ h = cc

advance :
    {ctx : CallerContext} {id : Uuid} {now : Time} {rows : List WellTest}
    {allowed : List LifecycleStatus} {extra : WellTest → Result Error (Unit {0})}
    {patch : WellTest → WellTest} {rows' : List WellTest} {wire : WellTestRow}
    → ((r : WellTest)
        → includes allowed r.lifecycle_status ≡ true
        → Edge r.lifecycle_status (patch r).lifecycle_status)
    → ((r : WellTest) → SameTest r (stamp now (patch r)))
    → ((r : WellTest)
        → includes allowed r.lifecycle_status ≡ true
        → row_chk (stamp now (patch r)) ≡ true
        → IsSound now r
        → IsSound now (stamp now (patch r)))
    → ((r : WellTest)
        → includes allowed r.lifecycle_status ≡ true
        → extra r ≡ ok tt
        → includes active_statuses (patch r).lifecycle_status ≡ true
        → (includes active_statuses r.lifecycle_status ≡ true)
          ⊎ (find_by (is_other_active r.tenant_id r.unit_id id) rows ≡ none))
    → Applied ctx id now rows allowed extra patch rows' wire
    → Advances ctx id now rows rows' wire
advance {now} {patch} edge same sound exclusive a = record {
  before = a.before;
  after = stamp now (patch a.before);
  found = a.found;
  visible = a.visible;
  edge = edge a.before a.permitted;
  same = same a.before;
  stamped = refl;
  checked = a.checked;
  written = a.written;
  answered = a.answered;
  sound = sound a.before a.permitted a.checked;
  exclusive = exclusive a.before a.permitted a.passed;
}

-- The guard of `connect` passes only if no other test of the unit is active.
no_other_active :
    (tenant unit self : Uuid) (rows : List WellTest)
    → assert_no_other_active_test_for_unit tenant unit self rows ≡ ok tt
    → find_by (is_other_active tenant unit self) rows ≡ none
unfolding assert_no_other_active_test_for_unit
no_other_active tenant unit self rows h =
    elim (Option-cases (find_by (is_other_active tenant unit self) rows)) [
      | inl e ↦ e
      | inr (r, e) ↦ ground arith
    ]

-- Whatever transition the service performs, it moves one visible test along an edge of the
-- lifecycle: the columns that name the test stay, the row written passes the table's constraints,
-- no other row changes, and the reply is the written row. A sound row stays sound, and a test
-- becomes active only where no other test of its unit is active.
pub perform-Advances :
    (ctx : CallerContext) (id : Uuid) (notes : Option String) (now : Time) (rows : List WellTest)
    (action : Action) {rows' : List WellTest} {wire : WellTestRow}
    → perform ctx id notes now rows action ≡ ok (rows', wire)
    → Advances ctx id now rows rows' wire
unfolding perform connect start_stabilization start_official end_official abort close
perform-Advances ctx id notes now rows connects h =
    advance (λ r. Edge-connected r.lifecycle_status) (λ r. ground arith) (λ r i c s. ground arith)
      (λ r i e a. inr (no_other_active r.tenant_id r.unit_id id rows e))
      (transition-Applied ctx id now rows connected (scheduled ∷ [])
        (λ r. assert_no_other_active_test_for_unit r.tenant_id r.unit_id id rows) _ h)
perform-Advances ctx id notes now rows starts_stabilization h =
    advance (λ r. Edge-stabilizing r.lifecycle_status) (λ r. ground arith) (λ r i c s. ground arith)
      (λ r i e a. ground arith)
      (transition-Applied ctx id now rows stabilizing (connected ∷ []) (λ r. ok tt) _ h)
perform-Advances ctx id notes now rows starts_official h =
    advance (λ r. Edge-measuring r.lifecycle_status) (λ r. ground arith) (λ r i c s. ground arith)
      (λ r i e a. ground arith)
      (transition-Applied ctx id now rows measuring (stabilizing ∷ [])
        (λ r. guard (not (is_earlier now r.stabilization_started_at)) bad_request) _ h)
perform-Advances ctx id notes now rows ends_official h =
    advance (λ r. Edge-completed r.lifecycle_status) (λ r. ground arith) (λ r i c s. ground arith)
      (λ r i e a. ground arith)
      (transition-Applied ctx id now rows completed (measuring ∷ [])
        (λ r. guard (not (is_earlier now r.official_started_at)) bad_request) _ h)
perform-Advances ctx id notes now rows (aborts reason) h =
    advance (λ r. Edge-aborted r.lifecycle_status) (λ r. ground arith) (λ r i c s. ground arith)
      (λ r i e a. ground arith)
      (transition-Applied ctx id now rows aborted
        (scheduled ∷ connected ∷ stabilizing ∷ measuring ∷ []) (λ r. ok tt) _ h)
perform-Advances ctx id notes now rows (closes report) h =
    advance (λ r. Edge-closed r.lifecycle_status) (λ r. ground arith) (λ r i c s. ground arith)
      (λ r i e a. ground arith)
      (transition-Applied ctx id now rows closed (completed ∷ []) (λ r. ok tt) _ h)

-- A closed or aborted test is terminal: to a caller who may see it, one without a tenant or of its own
-- tenant, every transition of it is answered with a conflict.
pub perform-terminal :
    (ctx : CallerContext) (id : Uuid) (notes : Option String) (now : Time) (rows : List WellTest)
    (action : Action) (row : WellTest)
    → find_by (has_id id) rows ≡ some row
    → other_tenant ctx.tenant_id row.tenant_id ≡ false
    → (row.lifecycle_status ≡ closed) ⊎ (row.lifecycle_status ≡ aborted)
    → perform ctx id notes now rows action ≡ err conflict
unfolding perform connect start_stabilization start_official end_official abort close
    load_for_transition
perform-terminal ctx id notes now rows connects row f v t = ground arith
perform-terminal ctx id notes now rows starts_stabilization row f v t = ground arith
perform-terminal ctx id notes now rows starts_official row f v t = ground arith
perform-terminal ctx id notes now rows ends_official row f v t = ground arith
perform-terminal ctx id notes now rows (aborts reason) row f v t = ground arith
perform-terminal ctx id notes now rows (closes report) row f v t = ground arith

-- A caller scoped to one tenant is told that a test of another tenant does not exist.
pub perform-other_tenant :
    (ctx : CallerContext) (id : Uuid) (notes : Option String) (now : Time) (rows : List WellTest)
    (action : Action) (tenant : Uuid) (row : WellTest)
    → find_by (has_id id) rows ≡ some row
    → ctx.tenant_id ≡ some tenant
    → row.tenant_id ≢ tenant
    → perform ctx id notes now rows action ≡ err not_found
unfolding perform connect start_stabilization start_official end_official abort close
    load_for_transition
perform-other_tenant ctx id notes now rows connects tenant row f c t = ground arith
perform-other_tenant ctx id notes now rows starts_stabilization tenant row f c t = ground arith
perform-other_tenant ctx id notes now rows starts_official tenant row f c t = ground arith
perform-other_tenant ctx id notes now rows ends_official tenant row f c t = ground arith
perform-other_tenant ctx id notes now rows (aborts reason) tenant row f c t = ground arith
perform-other_tenant ctx id notes now rows (closes report) tenant row f c t = ground arith

-- A test that is not in the table is answered so.
pub perform-missing :
    (ctx : CallerContext) (id : Uuid) (notes : Option String) (now : Time) (rows : List WellTest)
    (action : Action)
    → find_by (has_id id) rows ≡ none
    → perform ctx id notes now rows action ≡ err not_found
unfolding perform connect start_stabilization start_official end_official abort close
    load_for_transition
perform-missing ctx id notes now rows connects e = ground arith
perform-missing ctx id notes now rows starts_stabilization e = ground arith
perform-missing ctx id notes now rows starts_official e = ground arith
perform-missing ctx id notes now rows ends_official e = ground arith
perform-missing ctx id notes now rows (aborts reason) e = ground arith
perform-missing ctx id notes now rows (closes report) e = ground arith
