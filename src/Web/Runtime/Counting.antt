-- ===== src/Web/Runtime/Counting.antt =====
-- The runtime against the number of its users, and the adapters that it keeps alive.
use rvf_malinois.Web.Models.{ActiveJobSnapshot}
use rvf_malinois.Web.Runtime.{
  no_options, create_telemetry_adapter, with_first_job, with_notice, PublicEnv, RuntimeHandle,
  Runtime, Action, attach_to, detach_from, start_adapter, stop_adapter, start_operations_telemetry,
  stop_operations_telemetry,
}
use rvf_malinois.Prelude.{
  ◌&&◌, inr, inl, ltb, Bool-cases, sym, subst, true, ◌∙◌, false, ap, arith, refl, ◌-◌, ◌+◌, none,
  ◌==◌, not, ◌≤◌, ◌∷◌, some, [], Bool, ◌≡◌, filter_by, List, ℕ, Option, String,
}

-- A user of the runtime mounts or unmounts.
pub data Use : Type 0 where
  mount unmount : Use

-- The reference: the number of users, where an unmount of none is ignored, and whether each call
-- changed it from or to none.
abbrev pub counted_use : Use → ℕ → Bool × ℕ
counted_use mount n = (n == 0, n + 1)
counted_use unmount n = (n == 1, n - 1)

abbrev pub counted : List Use → ℕ → List Bool × ℕ
counted [] n = ([], n)
counted (u ∷ us) n =
    let (answer, next) = counted_use u n in
    let (answers, last) = counted us next in (answer ∷ answers, last)

-- The adapters that the log has started and not stopped, and those that feed the store.
abbrev pub started : List Action → List ℕ
started [] = []
started (Action.start k ∷ log) = k ∷ started log
started (Action.stop k ∷ log) = filter_by (λ j. not (j == k)) (started log)
started (_ ∷ log) = started log

abbrev pub connected_adapters : List Action → List ℕ
connected_adapters [] = []
connected_adapters (Action.connect k ∷ log) = k ∷ connected_adapters log
connected_adapters (Action.disconnect k ∷ log) =
    filter_by (λ j. not (j == k)) (connected_adapters log)
connected_adapters (_ ∷ log) = connected_adapters log

abbrev pub held : Option RuntimeHandle → List ℕ
held none = []
held (some h) = h.adapter ∷ []

abbrev pub users : Option RuntimeHandle → ℕ
users none = 0
users (some h) = h.ref_count

abbrev pub HasUser : Option RuntimeHandle → Type 0
HasUser none = Unit
HasUser (some h) = 1 ≤ h.ref_count

-- The runtime counts `n` users: with none nothing runs, and else the one adapter of the handle runs and
-- feeds the store.
pub record IsCounting (n : ℕ) (r : Runtime) : Type 0 where
  pub counts : users r.handle ≡ n
  pub has_user : HasUser r.handle
  pub runs : started r.log ≡ held r.handle
  pub feeds : connected_adapters r.log ≡ held r.handle

-- What the start of an adapter logs before the adapter runs, starts and connects nothing.
started-with_notice : (b : Bool) (log : List Action) → started (with_notice b log) ≡ started log
started-with_notice false log = refl
started-with_notice true log = refl

feeding-with_notice :
    (b : Bool) (log : List Action) → connected_adapters (with_notice b log) ≡ connected_adapters log
feeding-with_notice false log = refl
feeding-with_notice true log = refl

started-with_first_job :
    (jobs : List ActiveJobSnapshot) (log : List Action)
    → started (with_first_job jobs log) ≡ started log
started-with_first_job [] log = refl
started-with_first_job (job ∷ jobs) log = refl

feeding-with_first_job :
    (jobs : List ActiveJobSnapshot) (log : List Action)
    → connected_adapters (with_first_job jobs log) ≡ connected_adapters log
feeding-with_first_job [] log = refl
feeding-with_first_job (job ∷ jobs) log = refl

only_one : (k : ℕ) (ks : List ℕ) → ks ≡ k ∷ [] → filter_by (λ j. not (j == k)) ks ≡ []
only_one k ks e = rw e (ground arith)

detach-IsCounting :
    (h : Option RuntimeHandle) (n : ℕ) (r : Runtime)
    → users h ≡ n
    → HasUser h
    → r.handle ≡ h
    → started r.log ≡ held h
    → connected_adapters r.log ≡ held h
    → ((detach_from h r).0 ≡ (n == 1)) × IsCounting (n - 1) (detach_from h r).1
unfolding detach_from stop_adapter
detach-IsCounting none n r u l e s f = (
  ground arith,
  record {
    counts = ap users e ∙ omega (arith, u);
    has_user = subst HasUser (sym e) tt;
    runs = s ∙ ap held (sym e);
    feeds = f ∙ ap held (sym e);
  },
)
detach-IsCounting (some h) n r u l e s f = elim (Bool-cases (ltb 0 (h.ref_count - 1))) [
  | inl t ↦ rw t (
    ground arith,
    record { counts = omega (arith, u); has_user = ground arith; runs = s; feeds = f },
  )
  | inr t ↦ rw t (
    ground arith,
    record {
      counts = ground arith;
      has_user = tt;
      runs = only_one h.adapter (started r.log) s;
      feeds = only_one h.adapter (connected_adapters r.log) f;
    },
  )
]

module _ (lower : String → String) (env : PublicEnv) (production : Bool)
    (operations_jobs : List ActiveJobSnapshot) where
  abbrev pub call : Use → Runtime → Bool × Runtime
  call mount r = start_operations_telemetry lower env production operations_jobs r
  call unmount r = stop_operations_telemetry r

  abbrev pub run : List Use → Runtime → List Bool × Runtime
  run [] r = ([], r)
  run (u ∷ us) r =
      let (answer, next) = call u r in let (answers, last) = run us next in (answer ∷ answers, last)

  attach-IsCounting :
      (h : Option RuntimeHandle) (n : ℕ) (r : Runtime)
      → users h ≡ n
      → HasUser h
      → started r.log ≡ held h
      → connected_adapters r.log ≡ held h
      → ((attach_to lower env production operations_jobs h r).0 ≡ (n == 0))
        × IsCounting (n + 1) (attach_to lower env production operations_jobs h r).1
  unfolding attach_to start_adapter
  attach-IsCounting none n r u l s f =
      let made = create_telemetry_adapter lower env operations_jobs none no_options in
      let noticed = made.1.fell_back_to_simulator && not production in
      let created = Action.create r.next_adapter made.0 ∷ with_first_job operations_jobs r.log in
      (
        ground arith,
        record {
          counts = omega (arith, u);
          has_user = omega arith;
          runs =
              ap (λ ks. r.next_adapter ∷ ks)
                (started-with_notice noticed created
                  ∙ started-with_first_job operations_jobs r.log
                  ∙ s);
          feeds =
              ap (λ ks. r.next_adapter ∷ ks)
                (feeding-with_notice noticed created
                  ∙ feeding-with_first_job operations_jobs r.log
                  ∙ f);
        },
      )
  attach-IsCounting (some h) n r u l s f = (
    ground arith,
    record { counts = omega (arith, u); has_user = omega arith; runs = s; feeds = f },
  )

  call-IsCounting :
      (u : Use) (n : ℕ) (r : Runtime)
      → IsCounting n r
      → ((call u r).0 ≡ (counted_use u n).0) × IsCounting (counted_use u n).1 (call u r).1
  unfolding start_operations_telemetry stop_operations_telemetry
  call-IsCounting mount n r c = attach-IsCounting r.handle n r c.counts c.has_user c.runs c.feeds
  call-IsCounting unmount n r c =
      detach-IsCounting r.handle n r c.counts c.has_user refl c.runs c.feeds

  -- From a runtime that counts its users, any sequence of mounts and unmounts is answered like the
  -- reference that only counts the users: a call tells whether it was the first mount or the last
  -- unmount. Afterwards the runtime counts as many users as the reference, no adapter runs or feeds the
  -- store if there is none, and else exactly the adapter of its handle does.
  pub run-IsCounting :
      (us : List Use) (n : ℕ) (r : Runtime)
      → IsCounting n r
      → ((run us r).0 ≡ (counted us n).0) × IsCounting (counted us n).1 (run us r).1
  run-IsCounting [] n r c = (refl, c)
  run-IsCounting (u ∷ us) n r c =
      let (answer, next) = call-IsCounting u n r c in
      let (answers, last) = run-IsCounting us (counted_use u n).1 (call u r).1 next in
      (
        ap (λ rest. (call u r).0 ∷ rest) answers
            ∙ ap (λ a. a ∷ (counted us (counted_use u n).1).0) answer,
        last,
      )
