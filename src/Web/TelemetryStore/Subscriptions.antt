-- ===== src/Web/TelemetryStore/Subscriptions.antt =====
-- The subscriptions of apps/web/lib/realtime/telemetryStore.ts. What `subscribeTag` and
-- `subscribeJob` return holds the key, the set it was given and the listener.
use rvf_malinois.Prelude.{
  Option, none, some, List, [], ◌∷◌, ◌++◌, String, Bool, true, false, if◌then◌else◌, lookup, assign,
  remove, get_or, set, length,
}
use rvf_malinois.Web.Models.{JobId, CanonicalTag}
use rvf_malinois.Web.TelemetryStore.{Listener, SetRef, tag_key, TelemetryStore, add, delete}

pub record Subscription : Type 0 where
  pub key : String
  pub ref : SetRef
  pub listener : Listener

-- A map of listener sets with the heap of the sets.
pub record Registry : Type 0 where
  pub entries : List (String × SetRef)
  pub sets : List (List Listener)

-- `set.add(listener)` on the set that is there, or on a new one.
unfoldable pub subscribe_at : String → Listener → Registry → Option SetRef → Registry × Subscription
subscribe_at key listener g (some ref) = (
  record g { sets = set g.sets ref (add listener (get_or g.sets ref [])) },
  record { key = key; ref = ref; listener = listener },
)
subscribe_at key listener g none = (
  record {
    entries = assign key (length g.sets) g.entries;
    sets = g.sets ++ ((listener ∷ []) ∷ []);
  },
  record { key = key; ref = length g.sets; listener = listener },
)

abbrev pub is_empty {ℓ} : {A : Type ℓ} → List A → Bool
is_empty [] = true
is_empty (x ∷ xs) = false

-- The function that a subscription returned.
unfoldable pub unsubscribe_at : Subscription → Registry → Registry
unsubscribe_at u g =
    let rest = delete u.listener (get_or g.sets u.ref []) in
    record {
      entries = if is_empty rest then remove u.key g.entries else g.entries;
      sets = set g.sets u.ref rest;
    }

abbrev pub tags : TelemetryStore → Registry
tags s = record { entries = s.tag_listeners; sets = s.sets }

abbrev pub jobs : TelemetryStore → Registry
jobs s = record { entries = s.job_listeners; sets = s.sets }

abbrev pub with_tags : TelemetryStore → Registry → TelemetryStore
with_tags s g = record s { tag_listeners = g.entries; sets = g.sets }

abbrev pub with_jobs : TelemetryStore → Registry → TelemetryStore
with_jobs s g = record s { job_listeners = g.entries; sets = g.sets }

unfoldable pub subscribe_tag :
    JobId → CanonicalTag → Listener → TelemetryStore → TelemetryStore × Subscription
subscribe_tag job_id tag listener s =
    let key = tag_key job_id tag in
    let (g, u) = subscribe_at key listener (tags s) (lookup key s.tag_listeners) in
    (with_tags s g, u)

unfoldable pub unsubscribe_tag : Subscription → TelemetryStore → TelemetryStore
unsubscribe_tag u s = with_tags s (unsubscribe_at u (tags s))

unfoldable pub subscribe_job : JobId → Listener → TelemetryStore → TelemetryStore × Subscription
unfolding subscribe_at
subscribe_job job_id listener s =
    let (g, u) = subscribe_at job_id listener (jobs s) (lookup job_id s.job_listeners) in
    (with_jobs s g, u)

unfoldable pub unsubscribe_job : Subscription → TelemetryStore → TelemetryStore
unfolding unsubscribe_at
unsubscribe_job u s = with_jobs s (unsubscribe_at u (jobs s))

unfoldable pub subscribe_connection : Listener → TelemetryStore → TelemetryStore
subscribe_connection listener s = record s { conn_listeners = add listener s.conn_listeners }

unfoldable pub unsubscribe_connection : Listener → TelemetryStore → TelemetryStore
unsubscribe_connection listener s = record s { conn_listeners = delete listener s.conn_listeners }
