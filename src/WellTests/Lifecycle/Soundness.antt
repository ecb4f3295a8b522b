-- ===== src/WellTests/Lifecycle/Soundness.antt =====
-- Soundness of the rows over the writes of well-tests.service.ts.
use rvf_malinois.WellTests.Lifecycle.Edges.{perform-Advances, perform-missing}
use rvf_malinois.Prelude.{
  true, Uuid, Time, find_by-some, All-In, ◌≡◌, ◌≢◌, ◌≤◌, false, List, [], ◌∷◌, Option, none, some,
  find_by, String, ok, err, arith, Option-cases, inl, inr, All, All-map, ◌==◌,
}
use rvf_malinois.WellTests.Contracts.{CreateWellTestInput}
use rvf_malinois.WellTests.Table.{WellTest, check_violation, has_id, replace}
use rvf_malinois.WellTests.Service.{new_row, WellTestRow, CallerContext, other_tenant, Job, create}
use rvf_malinois.WellTests.Lifecycle.{request_schema, row_to_wire, Action, perform}
use rvf_malinois.WellTests.Lifecycle.Constraints.{perform-ne-check_violation, IsPast, IsSound}

IsPast-later : {now later : Time} (at : Option Time) → now ≤ later → IsPast now at → IsPast later at
IsPast-later none h p = tt
IsPast-later (some t) h p = omega arith

pub IsSound-later :
    {now later : Time} (r : WellTest) → now ≤ later → IsSound now r → IsSound later r
IsSound-later r h s = record {
  checked = s.checked;
  unreached = s.unreached;
  connected_past = IsPast-later r.connected_at h s.connected_past;
  stabilization_past = IsPast-later r.stabilization_started_at h s.stabilization_past;
  official_past = IsPast-later r.official_started_at h s.official_past;
  aborted_after = s.aborted_after;
  together = s.together;
  disconnected_after = s.disconnected_after;
}

pub All-replace {κ} :
    (P : WellTest → Type κ) (id : Uuid) (new : WellTest) (rows : List WellTest)
    → P new
    → All P rows
    → All P (replace id new rows)
unfolding replace
All-replace P id new [] p h = tt
All-replace P id new (r ∷ rows) p h = ground (arith, All-replace P id new rows p h.1)

-- What a `create` that went through has done.
pub record Created (ctx : CallerContext) (input : CreateWellTestInput) (new_id : Uuid) (now : Time)
    (jobs : List Job) (rows rows' : List WellTest) (wire : WellTestRow) : Type 0 where
  pub job : Job
  pub found : find_by (λ j. j.id == input.job_id) jobs ≡ some job
  pub visible : other_tenant ctx.tenant_id job.tenant_id ≡ false
  pub well : job.well_id ≡ input.well_id
  pub unit : job.unit_id ≡ input.unit_id
  pub written : rows' ≡ new_row input new_id job.tenant_id now ∷ rows
  pub answered : wire ≡ row_to_wire (new_row input new_id job.tenant_id now)
  pub sound : IsSound now (new_row input new_id job.tenant_id now)

-- A `create` that goes through adds one row and no other change: the row has the tenant, the well and
-- the unit of a job that the caller may see, it is sound, and the reply is that row.
pub create-Created :
    (ctx : CallerContext) (input : CreateWellTestInput) (new_id : Uuid) (now : Time)
    (jobs : List Job) (rows : List WellTest) {rows' : List WellTest} {wire : WellTestRow}
    → create ctx input new_id now jobs rows ≡ ok (rows', wire)
    → Created ctx input new_id now jobs rows rows' wire
unfolding create
create-Created ctx input new_id now jobs rows {rows'} {wire} h =
    elim (Option-cases (find_by (λ j. j.id == input.job_id) jobs)) [
      | inl e ↦ ground arith
      | inr (job, e) ↦ record {
        job = job;
        found = e;
        visible = ground arith;
        well = ground arith;
        unit = ground arith;
        written = ground arith;
        answered = ground arith;
        sound = ground arith;
      }
    ]

-- All that happens to the table, each call at an instant that is not before the last one.
pub data Reach (jobs : List Job) : Time → List WellTest → Type 0 where
  empty : (now : Time) → Reach jobs now []
  created :
      {now later : Time} {rows rows' : List WellTest} {wire : WellTestRow}
      → Reach jobs now rows
      → now ≤ later
      → (ctx : CallerContext) (input : CreateWellTestInput) (new_id : Uuid)
      → create ctx input new_id later jobs rows ≡ ok (rows', wire)
      → Reach jobs later rows'
  performed :
      {now later : Time} {rows rows' : List WellTest} {wire : WellTestRow}
      → Reach jobs now rows
      → now ≤ later
      → (ctx : CallerContext) (id : Uuid) (notes : Option String) (action : Action)
      → perform ctx id notes later rows action ≡ ok (rows', wire)
      → Reach jobs later rows'

-- Every row of a table that the service has reached, by calls at instants that do not go back, is sound:
-- it passes the CHECK constraints, bears no stamp of a stage that its status has not reached, has been
-- connected, stabilized and measured at no later instant than the table's, has the end of its
-- stabilization exactly with the start of its measurement, and was aborted no sooner than measured and
-- disconnected no sooner than connected.
pub Reach-IsSound :
    {jobs : List Job} {now : Time} {rows : List WellTest}
    → Reach jobs now rows
    → All (IsSound now) rows
Reach-IsSound (empty now) = tt
Reach-IsSound (created {later} {rows} {wire} r le ctx input new_id h) =
    let c = create-Created ctx input new_id later _ rows h in
    rw c.written (c.sound, All-map rows (λ x k. IsSound-later x le k) (Reach-IsSound r))
Reach-IsSound (performed {later} {rows} r le ctx id notes action h) =
    let a = perform-Advances ctx id notes later rows action h in
    let old = All-map {Q = IsSound later} rows (λ x k. IsSound-later x le k) (Reach-IsSound r) in
    let found = find_by-some (has_id id) rows a.found in
    rw a.written (
      All-replace (IsSound later) id a.after rows (a.sound (All-In (IsSound later) old found.0))
        old)

-- In a table that the service has reached, no transition at the table's instant or later, by a request
-- whose texts its schema takes, breaks a CHECK constraint of the database, those on the lengths of texts
-- included.
pub Reach-ne-check_violation :
    {jobs : List Job} {now later : Time} {rows : List WellTest}
    → Reach jobs now rows
    → now ≤ later
    → (ctx : CallerContext) (id : Uuid) (notes : Option String) (action : Action)
    → request_schema action notes ≡ true
    → perform ctx id notes later rows action ≢ err check_violation
Reach-ne-check_violation {later} {rows} r le ctx id notes action q =
    elim (Option-cases (find_by (has_id id) rows)) [
      | inl e ↦ λ h. cc (perform-missing ctx id notes later rows action e)
      | inr (row, e) ↦
          perform-ne-check_violation ctx id notes later rows action row e
            (IsSound-later row le
              (All-In (IsSound _) (Reach-IsSound r) (find_by-some (has_id id) rows e).0))
            q
    ]
