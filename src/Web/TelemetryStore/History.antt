-- ===== src/Web/TelemetryStore/History.antt =====
-- What the store returns for a job and a tag, from the messages that it was given.
use rvf_malinois.Prelude.{
  Option, none, some, List, [], ◌∷◌, ◌++◌, String, Bool, ℕ, zero, suc, str_eq, str_eq_iff, lookup,
  assign, lookup-assign_self, lookup-assign_ne, filter_by, map, keep_last, keep_last-append,
  keep_last-map, keep_last-nil, Bool-cases, inl, inr, refl, subst, ◌≡◌, ◌<◌, arith, ap, sym, ◌∙◌,
}
use mathlib.Core.List.{map-append, append-nil, append_assoc, map-append}
use rvf_malinois.Web.Models.{
  JobId, CanonicalTag, TelemetryReading, NormalizedTelemetryMessage, reading, frame, alarm,
  snapshot_update, heartbeat, connection,
}
use rvf_malinois.Web.RingBuffer.{RingBuffer, push, to_array}
use rvf_malinois.Web.RingBuffer.Contents.{IsValid, push-IsValid}
use rvf_malinois.Web.RingBuffer.Pushes.{push-capacity, push-to_array, create-IsValid}
use rvf_malinois.Web.TelemetryStore.{
  TelemetryStore, Listener, new_store, tag_key, ring_or_new, store_pushed, ingest_reading,
  ingest_readings, ingest, then_calls, add_calls, array_of, get_history,
}

-- The readings that a message carries.
abbrev pub readings_in : NormalizedTelemetryMessage → List TelemetryReading
readings_in (reading r) = r ∷ []
readings_in (frame f) = f.readings
readings_in (alarm a) = []
readings_in (connection status) = []
readings_in (heartbeat ts) = []
readings_in (snapshot_update snapshot) = []

abbrev pub has_key : String → TelemetryReading → Bool
has_key key r = str_eq (tag_key r.job_id r.tag) key

-- The readings of a key, in the order in which they arrive.
abbrev pub of_key : String → List TelemetryReading → List TelemetryReading
of_key key rs = filter_by (has_key key) rs

abbrev pub arriving : List NormalizedTelemetryMessage → List TelemetryReading
arriving [] = []
arriving (m ∷ ms) = readings_in m ++ arriving ms

-- The messages of an adapter, one after the other.
abbrev pub ingest_all :
    List NormalizedTelemetryMessage → TelemetryStore → Option (TelemetryStore × List Listener)
ingest_all [] s = some (s, [])
ingest_all (m ∷ ms) s = then_calls (ingest_all ms) (ingest m s)

-- What the ring of a key, if there is one, holds after the readings `xs` of that key.
Held : ℕ → Option (RingBuffer TelemetryReading) → List TelemetryReading → Type 0
Held c none xs = xs ≡ []
Held c (some ring) xs =
    IsValid ring × (ring.capacity ≡ c) × (to_array ring ≡ map some (keep_last c xs))

array_of-Held :
    (c : ℕ) (o : Option (RingBuffer TelemetryReading)) (xs : List TelemetryReading)
    → Held c o xs
    → array_of o ≡ map some (keep_last c xs)
unfolding Held
array_of-Held c none xs h =
    sym (ap (λ ys. map some (keep_last c ys)) h ∙ ap (map some) (keep_last-nil c))
array_of-Held c (some ring) xs (valid, size, held) = held

pushed-Held :
    (c : ℕ) (ring : RingBuffer TelemetryReading) (xs : List TelemetryReading) (r : TelemetryReading)
    → Held c (some ring) xs
    → Held c (some (push r ring)) (xs ++ (r ∷ []))
unfolding Held
pushed-Held c ring xs r (valid, size, held) = (
  push-IsValid ring r valid,
  push-capacity ring r ∙ size,
  push-to_array ring r valid
      ∙ ap (λ n. keep_last n (to_array ring ++ (some r ∷ []))) size
      ∙ ap (λ ys. keep_last c (ys ++ (some r ∷ []))) held
      ∙ ap (keep_last c) (sym (map-append some (keep_last c xs) (r ∷ [])))
      ∙ keep_last-map some c (keep_last c xs ++ (r ∷ []))
      ∙ ap (map some) (keep_last-append c xs (r ∷ [])),
)

-- Every reading of a key goes to a ring, made for the first of them.
push-Held :
    (c : ℕ) (o : Option (RingBuffer TelemetryReading)) (xs : List TelemetryReading)
    (r : TelemetryReading)
    → 0 < c
    → Held c o xs
    → (ring : RingBuffer TelemetryReading) × (ring_or_new c o ≡ some ring)
      × Held c (some (push r ring)) (xs ++ (r ∷ []))
unfolding Held
push-Held c (some ring) xs r pos h = (ring, refl, pushed-Held c ring xs r h)
push-Held zero none xs r pos h = absurd (omega arith)
push-Held (suc c) none xs r pos h =
    let (ring, made, valid, nothing, size) = create-IsValid c in
    let held : Held (suc c) (some ring) xs =
      (valid, size, nothing ∙ array_of-Held (suc c) none xs h) in
    (ring, made, pushed-Held (suc c) ring xs r held)

ring_or_new-some :
    (c : ℕ) (o : Option (RingBuffer TelemetryReading))
    → 0 < c
    → (ring : RingBuffer TelemetryReading) × (ring_or_new c o ≡ some ring)
ring_or_new-some c (some ring) h = (ring, refl)
ring_or_new-some zero none h = absurd (omega arith)
ring_or_new-some (suc c) none h =
    let (ring, made, _, _, _) = create-IsValid {T = TelemetryReading} c in (ring, made)

-- A store of capacity `c` that has seen the readings `xs` of a key.
Seen : ℕ → String → List TelemetryReading → TelemetryStore → Type 0
unfolding Held
Seen c key xs s = (s.capacity ≡ c) × Held c (lookup key s.rings) xs

ingest_reading-Seen :
    (c : ℕ) (key : String) (xs : List TelemetryReading) (r : TelemetryReading) (s : TelemetryStore)
    → 0 < c
    → Seen c key xs s
    → (s' : TelemetryStore) × (called : List Listener) × (ingest_reading r s ≡ some (s', called))
      × Seen c key (xs ++ of_key key (r ∷ [])) s'
unfolding Seen Held ingest_reading store_pushed
ingest_reading-Seen c key xs r s h (size, held) =
    let own : String = tag_key r.job_id r.tag in
    elim (Bool-cases (str_eq own key)) [
      | inl e ↦
          let same : own ≡ key = (str_eq_iff own key).0 e in
          let at_key : Held c (lookup own s.rings) xs = rw same held in
          let (ring, found, next) = push-Held c (lookup own s.rings) xs r h at_key in
          let found' : ring_or_new s.capacity (lookup own s.rings) ≡ some ring = rw size found in
          let stored : lookup key (assign own (push r ring) s.rings) ≡ some (push r ring) =
            subst (λ k. lookup k (assign own (push r ring) s.rings) ≡ some (push r ring)) same
              (lookup-assign_self own (push r ring) s.rings) in
          (_, _, ap (store_pushed r s) found', (size, rw e (rw stored next)))
      | inr e ↦
          let (ring, found) = ring_or_new-some c (lookup own s.rings) h in
          let found' : ring_or_new s.capacity (lookup own s.rings) ≡ some ring = rw size found in
          let kept : lookup key (assign own (push r ring) s.rings) ≡ lookup key s.rings =
            lookup-assign_ne own key (push r ring) s.rings e in
          (_, _, ap (store_pushed r s) found', (size, rw e (rw (kept, append-nil xs) held)))
    ]

of_key-append :
    (key : String) (xs ys : List TelemetryReading)
    → of_key key (xs ++ ys) ≡ of_key key xs ++ of_key key ys
of_key-append key [] ys = refl
of_key-append key (x ∷ xs) ys = elim (Bool-cases (has_key key x)) [
  | inl e ↦ rw e (ap (λ zs. x ∷ zs) (of_key-append key xs ys))
  | inr e ↦ rw e (of_key-append key xs ys)
]

-- A step that succeeds and sees `ys`, then one that succeeds and sees `zs`.
Sees : ℕ → String → List TelemetryReading → Option (TelemetryStore × List Listener) → Type 0
unfolding Seen
Sees c key xs o =
    (s : TelemetryStore) × (called : List Listener) × (o ≡ some (s, called)) × Seen c key xs s

then_calls-Sees :
    (c : ℕ) (key : String) (xs ys : List TelemetryReading)
    (next : TelemetryStore → Option (TelemetryStore × List Listener))
    (o : Option (TelemetryStore × List Listener))
    → Sees c key xs o
    → ((s : TelemetryStore) → Seen c key xs s → Sees c key ys (next s))
    → Sees c key ys (then_calls next o)
unfolding Sees
then_calls-Sees c key xs ys next o (s, called, e, seen) f =
    let (s', more, e', seen') = f s seen in
    (s', called ++ more, rw e (ap (add_calls called) e'), seen')

ingest_readings-Seen :
    (c : ℕ) (key : String) (xs rs : List TelemetryReading) (s : TelemetryStore)
    → 0 < c
    → Seen c key xs s
    → Sees c key (xs ++ of_key key rs) (ingest_readings rs s)
unfolding Sees ingest_readings
ingest_readings-Seen c key xs [] s h seen = (s, [], refl, rw (append-nil xs) seen)
ingest_readings-Seen c key xs (r ∷ rs) s h seen =
    let first : List TelemetryReading = xs ++ of_key key (r ∷ []) in
    let order : first ++ of_key key rs ≡ xs ++ of_key key (r ∷ rs) =
      append_assoc xs (of_key key (r ∷ [])) (of_key key rs)
      ∙ sym (ap (λ zs. xs ++ zs) (of_key-append key (r ∷ []) rs)) in
    subst (λ zs. Sees c key zs (then_calls (ingest_readings rs) (ingest_reading r s))) order
      (then_calls-Sees c key first (first ++ of_key key rs) (ingest_readings rs)
        (ingest_reading r s) (ingest_reading-Seen c key xs r s h seen)
        (λ s' seen'. ingest_readings-Seen c key first rs s' h seen'))

-- A message that carries no reading leaves every ring as it was.
ingest-Seen :
    (c : ℕ) (key : String) (xs : List TelemetryReading) (m : NormalizedTelemetryMessage)
    (s : TelemetryStore)
    → 0 < c
    → Seen c key xs s
    → Sees c key (xs ++ of_key key (readings_in m)) (ingest m s)
unfolding Sees ingest
ingest-Seen c key xs (reading r) s h seen = ingest_reading-Seen c key xs r s h seen
ingest-Seen c key xs (frame f) s h seen = ingest_readings-Seen c key xs f.readings s h seen
ingest-Seen c key xs (alarm a) s h seen = (_, _, refl, rw (append-nil xs) seen)
ingest-Seen c key xs (connection status) s h seen = (_, _, refl, rw (append-nil xs) seen)
ingest-Seen c key xs (heartbeat ts) s h seen = (_, _, refl, rw (append-nil xs) seen)
ingest-Seen c key xs (snapshot_update snapshot) s h seen = (_, _, refl, rw (append-nil xs) seen)

ingest_all-Seen :
    (c : ℕ) (key : String) (xs : List TelemetryReading) (ms : List NormalizedTelemetryMessage)
    (s : TelemetryStore)
    → 0 < c
    → Seen c key xs s
    → Sees c key (xs ++ of_key key (arriving ms)) (ingest_all ms s)
unfolding Sees
ingest_all-Seen c key xs [] s h seen = (s, [], refl, rw (append-nil xs) seen)
ingest_all-Seen c key xs (m ∷ ms) s h seen =
    let first : List TelemetryReading = xs ++ of_key key (readings_in m) in
    let order : first ++ of_key key (arriving ms) ≡ xs ++ of_key key (arriving (m ∷ ms)) =
      append_assoc xs (of_key key (readings_in m)) (of_key key (arriving ms))
      ∙ sym (ap (λ zs. xs ++ zs) (of_key-append key (readings_in m) (arriving ms))) in
    subst (λ zs. Sees c key zs (then_calls (ingest_all ms) (ingest m s))) order
      (then_calls-Sees c key first (first ++ of_key key (arriving ms)) (ingest_all ms) (ingest m s)
        (ingest-Seen c key xs m s h seen) (λ s' seen'. ingest_all-Seen c key first ms s' h seen'))

-- With a capacity that is not zero, no message throws, and after any sequence of messages into a
-- new store the history of a job and tag is the last `capacity` readings, in the order of their
-- arrival, of those that came, alone or in a frame, with the same key.
pub get_history-ingest_all :
    (c : ℕ) (ms : List NormalizedTelemetryMessage) (job_id : JobId) (tag : CanonicalTag)
    → 0 < c
    → (s : TelemetryStore) × (called : List Listener) × (ingest_all ms (new_store c)
        ≡ some (s, called))
      × (get_history job_id tag s
          ≡ map some (keep_last c (of_key (tag_key job_id tag) (arriving ms))))
unfolding Sees Seen Held new_store get_history
get_history-ingest_all c ms job_id tag h =
    let key : String = tag_key job_id tag in
    let (s, called, e, (size, held)) = ingest_all-Seen c key [] ms (new_store c) h (refl, refl) in
    (s, called, e, array_of-Held c (lookup key s.rings) (of_key key (arriving ms)) held)
