-- ===== src/Telemetry/Resolver.antt =====
-- apps/backend/src/telemetry/canonical-tag-resolver.ts and the rows of `canonical_tags`.
use rvf_malinois.Prelude.{
  ℕ, ◌==◌, Uuid, String, str_eq, Bool, true, false, not, ◌||◌, if◌then◌else◌, is_some, ok, ◌>>=◌,
  Option, none, some, List, find_by, Result, err, or_throw,
}

pub data HttpError : Type 0 where
  bad_request not_found internal : HttpError

pub record CanonicalTagRow : Type 0 where
  pub id : Uuid
  pub name : String
  pub display_name : String
  pub canonical_unit : String
  pub category : String
  pub precision : ℕ

-- `Boolean(text)`: the empty text is falsy.
abbrev pub is_given : Option String → Bool
is_given none = false
is_given (some text) = not (str_eq text "")

-- The branches on `lookup.name`, where there is no id.
unfoldable pub resolve_name :
    List CanonicalTagRow → Option String → Result HttpError CanonicalTagRow
resolve_name tags none = err bad_request
resolve_name tags (some name) = elim (str_eq name "") [
  | true ↦ err bad_request
  | false ↦ or_throw (find_by (λ t. str_eq t.name name) tags) not_found
]

unfoldable pub resolve :
    List CanonicalTagRow → Option Uuid → Option String → Result HttpError CanonicalTagRow
unfolding resolve_name
resolve tags none name = resolve_name tags name
resolve tags (some id) name = elim (is_given name) [
  | true ↦ err bad_request
  | false ↦ or_throw (find_by (λ t. t.id == id) tags) not_found
]

-- The id of the tag that a read names, none if it names none: the reads resolve an optional tag first.
unfoldable pub resolve_tag :
    List CanonicalTagRow → Option Uuid → Option String → Result HttpError (Option Uuid)
unfolding resolve
resolve_tag tags id name =
    if is_some id || is_some name
    then resolve tags id name >>= (λ tag. ok (some tag.id))
    else ok none
