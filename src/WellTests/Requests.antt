-- ===== src/WellTests/Requests.antt =====
-- What the request schemas of contracts/well-tests.ts and the reads of well-tests.service.ts
-- guarantee together with the table.
use rvf_malinois.WellTests.Lifecycle.Constraints.{IsSound}
use rvf_malinois.WellTests.Lifecycle.Overlap.{IsActive, NoOverlap}
use rvf_malinois.WellTests.Table.{
  text_length_chk, bad_request, check_violation, has_id, contract_chk, row_chk, WellTest,
}
use rvf_malinois.WellTests.Contracts.{
  pos, closed, stabilizing, connected, completed, CreateWellTestInput,
  derive_actual_official_duration_seconds, create_well_test_schema,
}
use rvf_malinois.WellTests.Service.{
  new_row, other_tenant, WellTestRow, Job, apply_update, CallerContext, load_for_transition, create,
  start_stabilization, start_official, row_to_wire,
}
use rvf_malinois.WellTests.Reads.{active_where, get_active}
use rvf_malinois.Prelude.{
  text_schema-length_chk, Uuid, Time, sym, ◌∙◌, ◌/◌, find_by-some, find_by-none, inr, inl, ◌==◌,
  Option-cases, ◌⊎◌, String, ℕ, ◌+◌, ◌*◌, ◌-◌, ◌≤◌, ◌<◌, ◌≡◌, ◌≢◌, true, false, List, Option, some,
  find_by, err, arith, In, All-In,
}

-- A request that the schema lets through is never refused by the table's constraints.
pub create-ne-check_violation :
    (ctx : CallerContext) (input : CreateWellTestInput) (new_id : Uuid) (now : Time)
    (jobs : List Job) (rows : List WellTest)
    → create_well_test_schema input ≡ true
    → create ctx input new_id now jobs rows ≢ err check_violation
unfolding create create_well_test_schema row_chk contract_chk text_length_chk new_row
create-ne-check_violation ctx input new_id now jobs rows h =
    elim (Option-cases (find_by (λ j. j.id == input.job_id) jobs)) [
      | inl e ↦ ground arith
      | inr (job, e) ↦ ground (
        arith,
        text_schema-length_chk 2000 input.notes,
        text_schema-length_chk 120 input.client_reference,
      )
    ]

-- If the server's clock has fallen behind the instant of the connection, `startStabilization` checks
-- nothing and the write is refused by the database, unlike the two later transitions.
start_stabilization_clock_behind :
    (ctx : CallerContext) (id : Uuid) (notes : Option String) (now at : Time) (rows : List WellTest)
    (row : WellTest)
    → find_by (has_id id) rows ≡ some row
    → other_tenant ctx.tenant_id row.tenant_id ≡ false
    → row.lifecycle_status ≡ connected
    → row.connected_at ≡ some at
    → now < at
    → start_stabilization ctx id notes now rows ≡ err check_violation
unfolding start_stabilization load_for_transition apply_update row_chk
start_stabilization_clock_behind ctx id notes now at rows row f v s c lt = ground arith

-- `startOfficial` and `endOfficial` answer the same skew with a bad request.
pub start_official_clock_behind :
    (ctx : CallerContext) (id : Uuid) (notes : Option String) (now at : Time) (rows : List WellTest)
    (row : WellTest)
    → find_by (has_id id) rows ≡ some row
    → other_tenant ctx.tenant_id row.tenant_id ≡ false
    → row.lifecycle_status ≡ stabilizing
    → row.stabilization_started_at ≡ some at
    → now < at
    → start_official ctx id notes now rows ≡ err bad_request
unfolding start_official load_for_transition
start_official_clock_behind ctx id notes now at rows row f v s c lt = ground arith

-- The duration on the wire of a sound finished test is the length of its official window in whole
-- seconds, rounded down, and it is not negative.
pub official_duration :
    (now : Time) (row : WellTest)
    → IsSound now row
    → (row.lifecycle_status ≡ completed) ⊎ (row.lifecycle_status ≡ closed)
    → (started : Time) × (ended : Time) × (seconds : ℕ) × (row.official_started_at ≡ some started)
      × (row.official_ended_at ≡ some ended)
      × ((row_to_wire row).actual_official_duration_seconds ≡ some (pos seconds))
      × (started + seconds * 1000 ≤ ended)
      × (ended < started + (seconds + 1) * 1000)
unfolding row_to_wire derive_actual_official_duration_seconds row_chk
official_duration now row s h = elim (Option-cases row.official_started_at) [
  | inl e ↦ ground arith
  | inr (a, e) ↦ elim (Option-cases row.official_ended_at) [
    | inl e' ↦ ground arith
    | inr (b, e') ↦ (a, b, (b - a) / 1000, e, e', ground arith, ground arith, ground arith)
  ]
]

active_where_parts :
    (tenant unit : Uuid) (r : WellTest)
    → active_where (record { tenant_id = some tenant }) unit r ≡ true
    → (r.tenant_id ≡ tenant) × (r.unit_id ≡ unit) × IsActive r
unfolding active_where
active_where_parts tenant unit r h = (ground arith, ground arith, ground arith)

-- Whatever the order that the database returns, the active test of a unit is the one reported.
pub get_active_complete :
    (newest_first : List WellTest → List WellTest) (tenant unit : Uuid) (rows : List WellTest)
    (row : WellTest)
    → ((r : WellTest) → In r rows → In r (newest_first rows))
    → ((r : WellTest) → In r (newest_first rows) → In r rows)
    → NoOverlap rows
    → In row rows
    → IsActive row
    → row.tenant_id ≡ tenant
    → row.unit_id ≡ unit
    → (wire : WellTestRow) × (get_active newest_first (record { tenant_id = some tenant }) unit rows
        ≡ some wire)
      × (wire.id ≡ row.id)
unfolding get_active row_to_wire
get_active_complete newest_first tenant unit rows row to from apart i act t u =
    elim (Option-cases
      (find_by (active_where (record { tenant_id = some tenant }) unit) (newest_first rows))) [
        | inl e ↦
            let miss =
              All-In (λ a. active_where (record { tenant_id = some tenant }) unit a ≡ false)
                (find_by-none _ (newest_first rows) e) (to row i) in
            absurd (ground arith)
        | inr (r, e) ↦
            let hit = find_by-some _ (newest_first rows) e in
            let (t', u', act') = active_where_parts tenant unit r hit.1 in
            (row_to_wire r, rw e, apart r row (from r hit.0) i act' act (t' ∙ sym t) (u' ∙ sym u))
      ]
