-- ===== src/Telemetry/Ingestion/Batch.antt =====
-- What a batch adds to the canonical rows and to the quarantine.
use rvf_malinois.Telemetry.Ingestion.Sections.{quarantine_result-Meets}
use rvf_malinois.Telemetry.Ingestion.Sample.{process_guarded-Described}
use rvf_malinois.Telemetry.Ingestion.Quarantine.{quarantine_result, QuarantineArgs}
use rvf_malinois.Telemetry.Ingestion.Outcomes.{Quarantined, Described, Stored}
use rvf_malinois.Store.Rows.{IntegrationSource, Db, QuarantineReason}
use rvf_malinois.Store.Endings.{EndsOut}
use rvf_malinois.Store.Frames.{query-cases, Same}
use rvf_malinois.Telemetry.Ingestion.Service.{
  sample_step, is_duplicate, aggregate, ingest_batch, each_sample, tally, process_guarded,
  is_rejected_request, is_rejected, is_conflict, is_accepted,
}
use rvf_malinois.Telemetry.Ingestion.Storing.{SampleContext}
use rvf_malinois.Store.Effects.{counted, ◌>>=◌}
use rvf_malinois.Prelude.{
  true, ◌==◌, find_by, str_eq, String, Time, Option, suc, Bool, refl, ◌≤◌, none, ◌∷◌, some, [], inl,
  inr, sym, subst, List, arith, ◌≡◌, length, Uuid, ℕ, ok, err, false, ap, if◌then◌else◌, ◌+◌,
}
use rvf_malinois.Store.Effects.{continue, M, pure, Out, Env, World}
use rvf_malinois.Telemetry.Ingestion.Contracts.{
  BatchInput, BatchResult, Sample, SampleResult, Outcome, accepted, duplicate, conflict_quarantined,
  rejected_quarantined, rejected_request,
}

abbrev readings_of : World → ℕ
readings_of w = length w.db.readings

abbrev errors_of : World → ℕ
errors_of w = length w.db.errors

abbrev accepts : Outcome → ℕ
accepts o = if is_accepted o then 1 else 0

abbrev quarantines : Outcome → ℕ
quarantines o = (if is_conflict o then 1 else 0) + (if is_rejected o then 1 else 0)

abbrev CountedOut : World → Out SampleResult → Type 0
CountedOut before (ok r, w) =
    (readings_of w ≡ readings_of before + accepts r.outcome)
    × (errors_of w ≡ errors_of before + quarantines r.outcome)
    × (is_rejected_request r.outcome ≡ false)
CountedOut before (err e, w) =
    (readings_of w ≡ readings_of before) × (errors_of w ≡ errors_of before)

module _ (env : Env) (ctx : SampleContext) where
  Same-counted :
      (before w : World)
      → Same before.db before.emitted w
      → (readings_of w ≡ readings_of before) × (errors_of w ≡ errors_of before)
  Same-counted before w s =
      (ap (λ (d : Db). length d.readings) s.db_same, ap (λ (d : Db). length d.errors) s.db_same)

  Quarantined-counted :
      (before w : World) (id : Uuid) (reason : QuarantineReason)
      → Quarantined env ctx before.db before.emitted id reason w
      → (readings_of w ≡ readings_of before) × (errors_of w ≡ errors_of before + 1)
  Quarantined-counted before w id reason q = ground (
    arith,
    ap (λ (d : Db). length d.readings) q.one_error,
    ap (λ (d : Db). length d.errors) q.one_error,
  )

  Stored-counted :
      (before w : World) (id : Uuid)
      → Stored env ctx before.db before.emitted id w
      → (readings_of w ≡ readings_of before + 1) × (errors_of w ≡ errors_of before)
  Stored-counted before w id q = ground (
    arith,
    ap (λ (d : Db). length d.readings) q.one_reading,
    ap (λ (d : Db). length d.errors) q.one_reading,
  )

  Described-counted :
      (before : World) (out : Out SampleResult)
      → EndsOut before.db before.emitted
          (λ r. Described env ctx before.db before.emitted r.outcome)
          out
      → CountedOut before out
  Described-counted before (err e, w) s = Same-counted before w s
  Described-counted before (ok r, w) s = go r.outcome s
    where
      go :
          (o : Outcome)
          → Described env ctx before.db before.emitted o w
          → (readings_of w ≡ readings_of before + accepts o)
            × (errors_of w ≡ errors_of before + quarantines o)
            × (is_rejected_request o ≡ false)
      go (accepted id) q = ground (arith, Stored-counted before w id q)
      go duplicate q = ground (arith, Same-counted before w q)
      go (conflict_quarantined id reason) q =
          ground (arith, Quarantined-counted before w id reason q)
      go (rejected_quarantined id reason) q =
          ground (arith, Quarantined-counted before w id reason q)
      go rejected_request q = elim q [ ]

  process_guarded-counted : (w : World) → CountedOut w (process_guarded env ctx w)
  process_guarded-counted w = Described-counted w _ (process_guarded-Described env ctx w)

no_source : IntegrationSource
no_source = record { id = 0; tenant_id = 0; status = ""; kind = "" }

quarantine_result-counted :
    (env : Env) (i : ℕ) (args : QuarantineArgs) (w : World)
    → CountedOut w (quarantine_result env i args w)
quarantine_result-counted env i args w = Described-counted env ctx w _ (
    (quarantine_result-Meets {d = w.db} {em = w.emitted} {env = env} {ctx = ctx} args i refl).at w
      (record { db_same = refl; emitted_same = refl }))
  where
    ctx : SampleContext
    ctx = record {
      sample = args.sample;
      sample_index = i;
      source = no_source;
      correlation_id = none;
      now = 0;
    }

-- What a list of results says of the tables; after a throw no row is lost.
abbrev CountedAllOut : World → List Sample → Out (List SampleResult) → Type 0
CountedAllOut before ss (ok rs, w) =
    (readings_of w ≡ readings_of before + tally is_accepted rs)
    × (errors_of w ≡ errors_of before + (tally is_conflict rs + tally is_rejected rs))
    × (tally is_rejected_request rs ≡ 0)
    × (length rs ≡ length ss)
CountedAllOut before ss (err e, w) =
    (readings_of before ≤ readings_of w) × (errors_of before ≤ errors_of w)

cons_lem :
    (before w : World) (r : SampleResult) (s : Sample) (ss : List Sample)
    (out : Out (List SampleResult))
    → CountedOut before (ok r, w)
    → CountedAllOut w ss out
    → CountedAllOut before (s ∷ ss) (continue out (λ rest. pure (r ∷ rest)))
unfolding pure
cons_lem before w r s ss (ok rs, x) c k = ground arith
cons_lem before w r s ss (err e, x) c k = ground arith

module _ (env : Env) (step : ℕ → Sample → M SampleResult)
    (counted_step : (i : ℕ) (s : Sample) (w : World) → CountedOut w (step i s w)) where
  head_lem :
      (before : World) (s : Sample) (ss : List Sample) (out : Out SampleResult)
      (rest : M (List SampleResult))
      → CountedOut before out
      → ((w : World) → CountedAllOut w ss (rest w))
      → CountedAllOut before
          (s ∷ ss)
          (continue out (λ one. rest >>= λ results. pure (one ∷ results)))
  unfolding ◌>>=◌
  head_lem before s ss (ok r, w) rest c k = cons_lem before w r s ss (rest w) c (k w)
  head_lem before s ss (err e, w) rest c k = ground arith

  each_sample-counted :
      (i : ℕ) (ss : List Sample) (w : World) → CountedAllOut w ss (each_sample env step i ss w)
  unfolding each_sample ◌>>=◌ pure
  each_sample-counted i [] w = ground arith
  each_sample-counted i (s ∷ ss) w =
      head_lem w s ss (step i s w) (each_sample env step (suc i) ss) (counted_step i s w)
        (each_sample-counted (suc i) ss)

either_counted :
    (b : Bool) (m k : ℕ → Sample → M SampleResult)
    → ((i : ℕ) (s : Sample) (w : World) → CountedOut w (m i s w))
    → ((i : ℕ) (s : Sample) (w : World) → CountedOut w (k i s w))
    → (i : ℕ) (s : Sample) (w : World) → CountedOut w ((if b then m else k) i s w)
either_counted true m k f g = f
either_counted false m k f g = g

sample_step-counted :
    (env : Env) (input : BatchInput) (now : Time) (source : Option IntegrationSource) (i : ℕ)
    (s : Sample) (w : World)
    → CountedOut w (sample_step env input now source i s w)
sample_step-counted env input now none i s w = quarantine_result-counted env i _ w
sample_step-counted env input now (some source) i s w =
    either_counted (str_eq source.status "active") _ _ (λ j x v. process_guarded-counted env _ v)
      (λ j x v. quarantine_result-counted env j _ v) i s w

-- What the result of a batch says of the tables; after a throw no row is lost.
abbrev pub BatchOut : World → List Sample → Out BatchResult → Type 0
BatchOut before ss (ok r, w) =
    (length w.db.readings ≡ length before.db.readings + r.accepted_count)
    × (length w.db.errors
        ≡ length before.db.errors + (r.conflict_quarantined_count + r.rejected_quarantined_count))
    × (r.accepted_count + r.duplicate_count + r.conflict_quarantined_count
          + r.rejected_quarantined_count
        ≡ length ss)
    × (length r.results ≡ length ss)
BatchOut before ss (err e, w) =
    (length before.db.readings ≤ length w.db.readings)
    × (length before.db.errors ≤ length w.db.errors)

tally_lem :
    (rs : List SampleResult)
    → tally is_rejected_request rs ≡ 0
    → tally is_accepted rs + tally is_duplicate rs + tally is_conflict rs + tally is_rejected rs
      ≡ length rs
tally_lem [] e = refl
tally_lem (r ∷ rs) e = ground (arith, tally_lem rs)

aggregate_lem :
    (before : World) (correlation : Option String) (ss : List Sample)
    (out : Out (List SampleResult))
    → CountedAllOut before ss out
    → BatchOut before ss (continue out (λ rs. pure (aggregate correlation rs)))
unfolding pure aggregate
aggregate_lem before correlation ss (ok rs, w) (a, b, c, l) = ground (arith, tally_lem rs c)
aggregate_lem before correlation ss (err e, w) k = k

abbrev after_source : Env → BatchInput → Time → Option IntegrationSource → M BatchResult
after_source env input now source = do
  results ← each_sample env (sample_step env input now source) 0 input.samples
  pure (aggregate input.correlation_id results)

batch_lem :
    (env : Env) (input : BatchInput) (now : Time) (source : Option IntegrationSource) (w : World)
    → BatchOut w input.samples (
        (each_sample env (sample_step env input now source) 0 input.samples >>= λ results.
        pure (aggregate input.correlation_id results))
          w)
unfolding ◌>>=◌
batch_lem env input now source w = aggregate_lem w input.correlation_id input.samples _ (
    each_sample-counted env (sample_step env input now source)
      (sample_step-counted env input now source) 0 input.samples w)

-- If no other client writes meanwhile, a batch that returns has added as many canonical readings
-- as it counts accepted samples and as many quarantine rows as it counts quarantined ones, and its
-- four counts add up to its samples, each of which has one result; a batch that throws leaves no
-- fewer canonical readings and no fewer quarantine rows than there were.
pub ingest_batch-conserves :
    (env : Env) (input : BatchInput) (now : Time) (w : World)
    → BatchOut w input.samples (ingest_batch env input now w)
unfolding ingest_batch ◌>>=◌
ingest_batch-conserves env input now w =
    elim (query-cases env (λ db. find_by (λ s. s.id == input.integration_source_id) db.sources) w) [
      | inl e ↦
          subst (λ out. BatchOut w input.samples (continue out (after_source env input now)))
            (sym e) (ground arith)
      | inr e ↦
          subst (λ out. BatchOut w input.samples (continue out (after_source env input now)))
            (sym e)
            (batch_lem env input now
              (find_by (λ s. s.id == input.integration_source_id) w.db.sources) (counted w))
    ]
