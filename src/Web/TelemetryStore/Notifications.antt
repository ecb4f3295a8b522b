-- ===== src/Web/TelemetryStore/Notifications.antt =====
-- Which listeners a notification calls after subscriptions and unsubscriptions.
use rvf_malinois.Prelude.{
  Option, none, some, List, [], ◌∷◌, ◌++◌, String, ==_refl, refl, ◌≡◌, ap, ◌∙◌, ◌<◌, arith, lookup,
  assign, remove-assign, lookup-assign_self, get_or, set, length, length-append, length-set,
  get_or-append_last, get_or-append_left, get_or-set_self,
}
use rvf_malinois.Web.Models.{JobId, CanonicalTag}
use rvf_malinois.Web.TelemetryStore.{
  Listener, SetRef, tag_key, TelemetryStore, add, delete, members, notify_tag,
}
use rvf_malinois.Web.TelemetryStore.Subscriptions.{
  Subscription, Registry, subscribe_at, unsubscribe_at, tags, subscribe_tag, unsubscribe_tag,
}

delete_own : (l : Listener) → delete l (l ∷ []) ≡ []
delete_own l = rw (==_refl l) refl

-- The last to leave a set that was made for a key takes the key out again.
unsubscribe_at-last :
    (key : String) (l : Listener) (entries : List (String × SetRef)) (sets : List (List Listener))
    → lookup key entries ≡ none
    → unsubscribe_at
        (record { key = key; ref = length sets; listener = l })
        (record { entries = assign key (length sets) entries; sets = sets ++ ((l ∷ []) ∷ []) })
      ≡ record { entries = entries; sets = set (sets ++ ((l ∷ []) ∷ [])) (length sets) [] }
unfolding unsubscribe_at
unsubscribe_at-last key l entries sets unused =
    let e : delete l (get_or (sets ++ ((l ∷ []) ∷ [])) (length sets) []) ≡ [] =
      ap (delete l) (get_or-append_last sets (l ∷ []) []) ∙ delete_own l in
    rw e (rw (remove-assign key (length sets) entries unused) refl)

-- It takes it out once more if it leaves twice, also when the key has another set by then.
unsubscribe_at-again :
    (key : String) (l : Listener) (ref other : SetRef) (entries : List (String × SetRef))
    (sets : List (List Listener))
    → lookup key entries ≡ none
    → get_or sets ref [] ≡ []
    → (unsubscribe_at
        (record { key = key; ref = ref; listener = l })
        (record { entries = assign key other entries; sets = sets })).entries
      ≡ entries
unfolding unsubscribe_at
unsubscribe_at-again key l ref other entries sets unused e =
    rw e (remove-assign key other entries unused)

module _ (job_id : JobId) (tag : CanonicalTag) (a b : Listener) where
  -- `a` subscribes and unsubscribes, then `b` subscribes; with the subscription of `a`.
  abbrev pub replaced : TelemetryStore → TelemetryStore × Subscription
  replaced s =
      let (s1, u) = subscribe_tag job_id tag a s in
      ((subscribe_tag job_id tag b (unsubscribe_tag u s1)).0, u)

  subscribe_tag-new :
      (l : Listener) (s : TelemetryStore)
      → lookup (tag_key job_id tag) s.tag_listeners ≡ none
      → subscribe_tag job_id tag l s ≡ (
        record s {
          tag_listeners = assign (tag_key job_id tag) (length s.sets) s.tag_listeners;
          sets = s.sets ++ ((l ∷ []) ∷ []);
        },
        record { key = tag_key job_id tag; ref = length s.sets; listener = l },
      )
  unfolding subscribe_tag subscribe_at
  subscribe_tag-new l s unused = rw unused refl

  replaced-eq :
      (s : TelemetryStore)
      → lookup (tag_key job_id tag) s.tag_listeners ≡ none
      → replaced s ≡ (
        record s {
          tag_listeners =
              assign
                (tag_key job_id tag)
                (length (set (s.sets ++ ((a ∷ []) ∷ [])) (length s.sets) []))
                s.tag_listeners;
          sets = set (s.sets ++ ((a ∷ []) ∷ [])) (length s.sets) [] ++ ((b ∷ []) ∷ []);
        },
        record { key = tag_key job_id tag; ref = length s.sets; listener = a },
      )
  unfolding unsubscribe_tag
  replaced-eq s unused =
      let first = subscribe_tag-new a s unused in
      let left = unsubscribe_at-last (tag_key job_id tag) a s.tag_listeners s.sets unused in
      let cut : List (List Listener) = set (s.sets ++ ((a ∷ []) ∷ [])) (length s.sets) [] in
      let own : Subscription = record {
        key = tag_key job_id tag;
        ref = length s.sets;
        listener = a;
      } in
      rw first
        (rw left (ap (λ p. (p.0, own)) (subscribe_tag-new b (record s { sets = cut }) unused)))

  -- On a key that no listener has: after `a` subscribed and left, `b` is notified once it has
  -- subscribed, but is no longer notified after `a` calls its unsubscribe function again.
  pub unsubscribe_tag-replaced :
      (s : TelemetryStore)
      → lookup (tag_key job_id tag) s.tag_listeners ≡ none
      → (notify_tag job_id tag (replaced s).0 ≡ b ∷ [])
        × (notify_tag job_id tag (unsubscribe_tag (replaced s).1 (replaced s).0) ≡ [])
  unfolding notify_tag unsubscribe_tag
  unsubscribe_tag-replaced s unused =
      let key : String = tag_key job_id tag in
      let grown : List (List Listener) = s.sets ++ ((a ∷ []) ∷ []) in
      let cut : List (List Listener) = set grown (length s.sets) [] in
      let long : length s.sets < length grown =
        omega (arith, length-append s.sets ((a ∷ []) ∷ [])) in
      let long' : length s.sets < length cut = omega (arith, length-set grown (length s.sets) []) in
      let gone : get_or (cut ++ ((b ∷ []) ∷ [])) (length s.sets) [] ≡ [] =
        get_or-append_left cut ((b ∷ []) ∷ []) (length s.sets) [] long'
        ∙ get_or-set_self grown (length s.sets) [] [] long in
      let after : List (List Listener) =
        (unsubscribe_at (record { key = key; ref = length s.sets; listener = a })
          (record {
            entries = assign key (length cut) s.tag_listeners;
            sets = cut ++ ((b ∷ []) ∷ []);
          })).sets in
      (
        ap (λ p. notify_tag job_id tag p.0) (replaced-eq s unused)
            ∙ ap (λ o. members o (cut ++ ((b ∷ []) ∷ [])))
                (lookup-assign_self key (length cut) s.tag_listeners)
            ∙ get_or-append_last cut (b ∷ []) [],
        ap (λ p. notify_tag job_id tag (unsubscribe_tag p.1 p.0)) (replaced-eq s unused)
            ∙ ap (λ m. members (lookup key m) after)
                (unsubscribe_at-again key a (length s.sets) (length cut) s.tag_listeners
                  (cut ++ ((b ∷ []) ∷ [])) unused gone)
            ∙ ap (λ o. members o after) unused,
      )

-- The set of a key is in the heap.
abbrev pub InHeap : List (List Listener) → Option SetRef → Type 0
InHeap sets none = Unit
InHeap sets (some ref) = ref < length sets

members-subscribe_at :
    (key : String) (l : Listener) (g : Registry) (o : Option SetRef)
    → lookup key g.entries ≡ o
    → InHeap g.sets o
    → members (lookup key (subscribe_at key l g o).0.entries) (subscribe_at key l g o).0.sets
      ≡ add l (members o g.sets)
unfolding subscribe_at
members-subscribe_at key l g none e h =
    ap (λ o. members o (g.sets ++ ((l ∷ []) ∷ [])))
      (lookup-assign_self key (length g.sets) g.entries)
    ∙ get_or-append_last g.sets (l ∷ []) []
members-subscribe_at key l g (some ref) e h =
    ap (λ o. members o (set g.sets ref (add l (get_or g.sets ref [])))) e
    ∙ get_or-set_self g.sets ref (add l (get_or g.sets ref [])) [] h

-- Once a listener has subscribed to a tag, a notification of the tag calls the listeners that it
-- called before, in the same order, and the new one last, if it was not one of them already.
pub subscribe_tag-notify_tag :
    (job_id : JobId) (tag : CanonicalTag) (l : Listener) (s : TelemetryStore)
    → InHeap s.sets (lookup (tag_key job_id tag) s.tag_listeners)
    → notify_tag job_id tag (subscribe_tag job_id tag l s).0 ≡ add l (notify_tag job_id tag s)
unfolding subscribe_tag notify_tag
subscribe_tag-notify_tag job_id tag l s h =
    members-subscribe_at (tag_key job_id tag) l (tags s)
      (lookup (tag_key job_id tag) s.tag_listeners) refl h
