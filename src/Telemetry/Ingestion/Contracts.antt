-- ===== src/Telemetry/Ingestion/Contracts.antt =====
-- apps/backend/src/telemetry/ingestion/contracts/ingestion.ts: the validated request and the result.
-- `rawPayload`, `metadata` and the free text `reasonDetail` are left out.
use rvf_malinois.Store.Rows.{Quality, QuarantineReason}
use Prim.Native.Char.{code}
use rvf_malinois.Prelude.{
  ◌==◌, ◌&&◌, ◌||◌, if◌then◌else◌, Bool, false, none, some, leb, str_eq, ℕ, ◌*◌, Uuid, String,
  Option, List,
}

abbrev pub ingestion_max_future_skew_ms : ℕ
ingestion_max_future_skew_ms = 5 * 60 * 1000

abbrev pub ingestion_max_late_window_ms : ℕ
ingestion_max_late_window_ms = 7 * 24 * 60 * 60 * 1000

-- A number, by the text that `String(value)` gives, or a text.
pub data SampleValue : Type 0 where
  number : String → SampleValue
  text : String → SampleValue

-- `typeof sample.value === 'number' ? String(sample.value) : sample.value`
abbrev pub value_str : SampleValue → String
value_str (number s) = s
value_str (text s) = s

abbrev pub bind_text : Option String → (String → Option String) → Option String
bind_text none f = none
bind_text (some s) f = f s

-- `\d`, and what follows as many of them as there are.
abbrev pub is_digit : ℕ → Bool
is_digit c = leb b'0' c && leb c b'9'

abbrev pub skip_digits : String → String
skip_digits String.[] = String.[]
skip_digits (String.◌∷◌ c s) =
    let rest = skip_digits s in if is_digit (code c) then rest else String.◌∷◌ c s

-- What follows `\d+`.
abbrev pub after_digits : String → Option String
after_digits String.[] = none
after_digits (String.◌∷◌ c s) = if is_digit (code c) then some (skip_digits s) else none

-- What follows `-?`.
abbrev pub after_minus : String → String
after_minus String.[] = String.[]
after_minus (String.◌∷◌ c s) = if code c == b'-' then s else String.◌∷◌ c s

-- What follows `(\.\d+)?`, where a point without digits is the end of a match that `$` refuses.
abbrev pub after_fraction : String → Option String
after_fraction String.[] = some String.[]
after_fraction (String.◌∷◌ c s) = if code c == b'.' then after_digits s else some (String.◌∷◌ c s)

abbrev pub after_sign : String → Option String
after_sign String.[] = none
after_sign (String.◌∷◌ c s) = if code c == b'-' || code c == b'+' then some s else none

-- What follows the exponent that `String(value)` may write.
abbrev pub after_exponent : String → Option String
after_exponent String.[] = some String.[]
after_exponent (String.◌∷◌ c s) =
    if code c == b'e' then bind_text (after_sign s) after_digits else some (String.◌∷◌ c s)

abbrev pub is_end_of_text : Option String → Bool
is_end_of_text none = false
is_end_of_text (some s) = str_eq s ""

-- `/^-?\d+(\.\d+)?$/`
unfoldable pub is_decimal_text : String → Bool
is_decimal_text s = is_end_of_text (bind_text (after_digits (after_minus s)) after_fraction)

-- The texts that `String(value)` gives of a finite number.
unfoldable pub is_number_text : String → Bool
is_number_text s =
    is_end_of_text
      (bind_text (bind_text (after_digits (after_minus s)) after_fraction) after_exponent)

-- `ValueSchema`
unfoldable pub value_schema : SampleValue → Bool
unfolding is_decimal_text is_number_text
value_schema (number s) = is_number_text s
value_schema (text s) = is_decimal_text s

-- `sequence` is the integer that `BigInt(sample.sequence)` gives for either form of it.
pub record Sample : Type 0 where
  pub external_identifier : String
  pub timestamp : String
  pub value : SampleValue
  pub engineering_unit : String
  pub quality : Quality
  pub sequence : Option ℕ

pub record BatchInput : Type 0 where
  pub integration_source_id : Uuid
  pub correlation_id : Option String
  pub samples : List Sample

-- One constructor for each outcome, with the ids and the reason that the outcome carries.
pub data Outcome : Type 0 where
  accepted : Uuid → Outcome
  duplicate : Outcome
  conflict_quarantined : Uuid → QuarantineReason → Outcome
  rejected_quarantined : Uuid → QuarantineReason → Outcome
  rejected_request : Outcome

pub record SampleResult : Type 0 where
  pub sample_index : ℕ
  pub outcome : Outcome

pub record BatchResult : Type 0 where
  pub correlation_id : Option String
  pub accepted_count : ℕ
  pub duplicate_count : ℕ
  pub conflict_quarantined_count : ℕ
  pub rejected_quarantined_count : ℕ
  pub rejected_request_count : ℕ
  pub results : List SampleResult
