-- ===== src/WellTests/Lifecycle/Constraints.antt =====
-- The table's CHECK constraints against the writes of well-tests.service.ts: with a clock that does
-- not run backwards the transitions never run into them.
use rvf_malinois.Prelude.{
  not, guard, [], ◌∷◌, ◌>>=◌, ◌>>◌, ok, Result, text_schema-length_chk, length_chk, text_schema,
  is_some, Uuid, Time, ◌≡◌, ◌≢◌, ◌≤◌, true, List, Option, none, some, find_by, String, err, arith,
}
use rvf_malinois.WellTests.Contracts.{
  includes, notes_schema, abort_schema, LifecycleStatus, scheduled, connected, stabilizing,
  measuring, completed, closed, aborted,
}
use rvf_malinois.WellTests.Table.{
  bad_request, text_length_chk, WellTest, check_violation, has_id, row_chk, update, not_before,
}
use rvf_malinois.WellTests.Service.{
  is_earlier, patch_time, patch_text, CallerContext, load_for_transition, connect,
  start_stabilization, start_official, end_official, abort, close, apply_update,
  assert_no_other_active_test_for_unit,
}
use rvf_malinois.WellTests.Lifecycle.{
  assert_transition, stamp, Error, request_schema, Action, connects, starts_stabilization,
  starts_official, ends_official, aborts, closes, perform,
}

-- The columns of the stages that a row is not in, or has not come to, are empty.
abbrev pub Unreached : LifecycleStatus → WellTest → Type 0
Unreached scheduled r =
    (r.aborted_at ≡ none)
    × (r.connected_at ≡ none)
    × (r.stabilization_started_at ≡ none)
    × (r.stabilization_ended_at ≡ none)
    × (r.official_started_at ≡ none)
    × (r.official_ended_at ≡ none)
    × (r.disconnected_at ≡ none)
Unreached connected r =
    (r.aborted_at ≡ none)
    × (r.stabilization_started_at ≡ none)
    × (r.stabilization_ended_at ≡ none)
    × (r.official_started_at ≡ none)
    × (r.official_ended_at ≡ none)
    × (r.disconnected_at ≡ none)
Unreached stabilizing r =
    (r.aborted_at ≡ none)
    × (r.stabilization_ended_at ≡ none)
    × (r.official_started_at ≡ none)
    × (r.official_ended_at ≡ none)
    × (r.disconnected_at ≡ none)
Unreached measuring r =
    (r.aborted_at ≡ none) × (r.official_ended_at ≡ none) × (r.disconnected_at ≡ none)
Unreached completed r = (r.aborted_at ≡ none) × (r.disconnected_at ≡ none)
Unreached closed r = r.aborted_at ≡ none
Unreached aborted r = (r.official_ended_at ≡ none) × (r.disconnected_at ≡ none)

-- The instant is not in the future.
abbrev pub IsPast : Time → Option Time → Type 0
IsPast now none = Unit {0}
IsPast now (some t) = t ≤ now

-- What holds of every row that the service has written by the instant `now`.
pub record IsSound (now : Time) (r : WellTest) : Type 0 where
  pub checked : row_chk r ≡ true
  pub unreached : Unreached r.lifecycle_status r
  pub connected_past : IsPast now r.connected_at
  pub stabilization_past : IsPast now r.stabilization_started_at
  pub official_past : IsPast now r.official_started_at
  pub aborted_after : not_before r.aborted_at r.official_started_at ≡ true
  pub together : is_some r.stabilization_ended_at ≡ is_some r.official_started_at
  pub disconnected_after : not_before r.disconnected_at r.connected_at ≡ true

-- The notes of a row after a patch that the schema takes are within the constraint.
patch_text-length_chk :
    (notes old : Option String)
    → text_schema 2000 notes ≡ true
    → length_chk 2000 old ≡ true
    → length_chk 2000 (patch_text notes old) ≡ true
patch_text-length_chk none old h k = k
patch_text-length_chk (some s) old h k =
    let fits = text_schema-length_chk 2000 (some s) h in ground arith

-- A write of notes, and of a reason, that the schema takes.
noted-text_length_chk :
    (reason notes old reference : Option String)
    → text_schema 2000 notes ≡ true
    → text_length_chk reason old reference ≡ true
    → text_length_chk reason (patch_text notes old) reference ≡ true
unfolding text_length_chk
noted-text_length_chk reason notes old reference h k =
    let fits = patch_text-length_chk notes old h in ground arith

reasoned-text_length_chk :
    (before : Option String) (reason : String) (notes old reference : Option String)
    → abort_schema reason notes ≡ true
    → text_length_chk before old reference ≡ true
    → text_length_chk (some reason) (patch_text notes old) reference ≡ true
unfolding text_length_chk abort_schema
reasoned-text_length_chk before reason notes old reference h k =
    let fits = text_schema-length_chk 240 (some reason) in
    let noted = patch_text-length_chk notes old in ground arith

-- A transition breaks a constraint only where it comes to write a row that does.
transition-ne-check_violation :
    (ctx : CallerContext) (id : Uuid) (now : Time) (rows : List WellTest) (next : LifecycleStatus)
    (allowed : List LifecycleStatus) (extra : WellTest → Result Error (Unit {0}))
    (patch : WellTest → WellTest) (row : WellTest)
    → find_by (has_id id) rows ≡ some row
    → extra row ≢ err check_violation
    → (includes allowed row.lifecycle_status ≡ true
        → extra row ≡ ok tt
        → row_chk (stamp now (patch row)) ≡ true)
    → (load_for_transition ctx id rows >>= λ r.
        assert_transition r.lifecycle_status next allowed
        >> (extra r >> apply_update id now patch rows))
      ≢ err check_violation
unfolding load_for_transition apply_update update
transition-ne-check_violation ctx id now rows next allowed extra patch row f e c = ground arith

-- The row that each transition writes, with any notes within the constraint.
module _ (now : Time) (row : WellTest) (n : Option String) (s : IsSound now row) where
  connected_chk :
      includes (scheduled ∷ []) row.lifecycle_status ≡ true
      → text_length_chk row.abort_reason n row.client_reference ≡ true
      → row_chk (record row {
        lifecycle_status = connected;
        connected_at = some now;
        notes = n;
        updated_at = now;
      })
        ≡ true
  unfolding row_chk
  connected_chk i t = ground arith

  stabilizing_chk :
      includes (connected ∷ []) row.lifecycle_status ≡ true
      → text_length_chk row.abort_reason n row.client_reference ≡ true
      → row_chk (record row {
        lifecycle_status = stabilizing;
        stabilization_started_at = some now;
        notes = n;
        updated_at = now;
      })
        ≡ true
  unfolding row_chk
  stabilizing_chk i t = ground arith

  measuring_chk :
      includes (stabilizing ∷ []) row.lifecycle_status ≡ true
      → guard (not (is_earlier now row.stabilization_started_at)) bad_request ≡ ok tt
      → text_length_chk row.abort_reason n row.client_reference ≡ true
      → row_chk (record row {
        lifecycle_status = measuring;
        official_started_at = some now;
        stabilization_ended_at = some now;
        notes = n;
        updated_at = now;
      })
        ≡ true
  unfolding row_chk
  measuring_chk i e t = ground arith

  completed_chk :
      includes (measuring ∷ []) row.lifecycle_status ≡ true
      → guard (not (is_earlier now row.official_started_at)) bad_request ≡ ok tt
      → text_length_chk row.abort_reason n row.client_reference ≡ true
      → row_chk (record row {
        lifecycle_status = completed;
        official_ended_at = some now;
        notes = n;
        updated_at = now;
      })
        ≡ true
  unfolding row_chk
  completed_chk i e t = ground arith

  aborted_chk :
      (reason : String)
      → includes (scheduled ∷ connected ∷ stabilizing ∷ measuring ∷ []) row.lifecycle_status ≡ true
      → text_length_chk (some reason) n row.client_reference ≡ true
      → row_chk (record row {
        lifecycle_status = aborted;
        aborted_at = some now;
        abort_reason = some reason;
        notes = n;
        updated_at = now;
      })
        ≡ true
  unfolding row_chk
  aborted_chk reason i t = ground arith

  closed_chk :
      (report : Option Time)
      → includes (completed ∷ []) row.lifecycle_status ≡ true
      → text_length_chk row.abort_reason n row.client_reference ≡ true
      → row_chk (record row {
        lifecycle_status = closed;
        disconnected_at = some now;
        report_generated_at = patch_time report row.report_generated_at;
        notes = n;
        updated_at = now;
      })
        ≡ true
  unfolding row_chk
  closed_chk report i t = ground arith

texts_of :
    (now : Time) (row : WellTest)
    → IsSound now row
    → text_length_chk row.abort_reason row.notes row.client_reference ≡ true
unfolding row_chk
texts_of now row s = ground (arith, s.checked)

-- No transition of a sound row by a request that its schema takes is refused by the database.
pub perform-ne-check_violation :
    (ctx : CallerContext) (id : Uuid) (notes : Option String) (now : Time) (rows : List WellTest)
    (action : Action) (row : WellTest)
    → find_by (has_id id) rows ≡ some row
    → IsSound now row
    → request_schema action notes ≡ true
    → perform ctx id notes now rows action ≢ err check_violation
unfolding perform connect start_stabilization start_official end_official abort close
    assert_no_other_active_test_for_unit request_schema notes_schema
perform-ne-check_violation ctx id notes now rows connects row f s q =
    transition-ne-check_violation ctx id now rows connected (scheduled ∷ [])
      (λ r. assert_no_other_active_test_for_unit r.tenant_id r.unit_id id rows) _ row f
      (ground arith)
      (λ i e. connected_chk now row (patch_text notes row.notes) s i (
        noted-text_length_chk row.abort_reason notes row.notes row.client_reference q
          (texts_of now row s)))
perform-ne-check_violation ctx id notes now rows starts_stabilization row f s q =
    transition-ne-check_violation ctx id now rows stabilizing (connected ∷ []) (λ r. ok tt) _ row f
      (ground arith)
      (λ i e. stabilizing_chk now row (patch_text notes row.notes) s i (
        noted-text_length_chk row.abort_reason notes row.notes row.client_reference q
          (texts_of now row s)))
perform-ne-check_violation ctx id notes now rows starts_official row f s q =
    transition-ne-check_violation ctx id now rows measuring (stabilizing ∷ [])
      (λ r. guard (not (is_earlier now r.stabilization_started_at)) bad_request) _ row f
      (ground arith)
      (λ i e. measuring_chk now row (patch_text notes row.notes) s i e (
        noted-text_length_chk row.abort_reason notes row.notes row.client_reference q
          (texts_of now row s)))
perform-ne-check_violation ctx id notes now rows ends_official row f s q =
    transition-ne-check_violation ctx id now rows completed (measuring ∷ [])
      (λ r. guard (not (is_earlier now r.official_started_at)) bad_request) _ row f (ground arith)
      (λ i e. completed_chk now row (patch_text notes row.notes) s i e (
        noted-text_length_chk row.abort_reason notes row.notes row.client_reference q
          (texts_of now row s)))
perform-ne-check_violation ctx id notes now rows (aborts reason) row f s q =
    transition-ne-check_violation ctx id now rows aborted
      (scheduled ∷ connected ∷ stabilizing ∷ measuring ∷ []) (λ r. ok tt) _ row f (ground arith)
      (λ i e. aborted_chk now row (patch_text notes row.notes) s reason i (
        reasoned-text_length_chk row.abort_reason reason notes row.notes row.client_reference q
          (texts_of now row s)))
perform-ne-check_violation ctx id notes now rows (closes report) row f s q =
    transition-ne-check_violation ctx id now rows closed (completed ∷ []) (λ r. ok tt) _ row f
      (ground arith)
      (λ i e. closed_chk now row (patch_text notes row.notes) s report i (
        noted-text_length_chk row.abort_reason notes row.notes row.client_reference q
          (texts_of now row s)))
