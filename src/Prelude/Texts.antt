-- ===== src/Prelude/Texts.antt =====
-- Lengths of texts: in characters, as PostgreSQL counts, and in UTF-16 units, as JavaScript does.
use Prim.Native.Nat.{ℕ, ◌+◌, ◌≤◌}
use Prim.Native.Char.{code}
use Prim.Native.String.{String}
use mathlib.Core.Path.{◌≡◌}
use mathlib.Core.Bool.{Bool, true, false, ◌&&◌}
use mathlib.Core.Option.{Option, none, some}
use native.Mathlib.Omega.{arith}
use rvf_malinois.Prelude.Tests.{leb, ltb, if◌then◌else◌}
use text.Mathlib.Text.{◌==◌ as str_eq}

-- `char_length(text)`
unfoldable pub char_length : String → ℕ
char_length String.[] = 0
char_length (String.◌∷◌ c s) = char_length s + 1

-- A character beyond the basic plane takes two units.
abbrev pub units : ℕ → ℕ
units c = if ltb c 65536 then 1 else 2

-- `text.length`
unfoldable pub utf16_length : String → ℕ
utf16_length String.[] = 0
utf16_length (String.◌∷◌ c s) = utf16_length s + units (code c)

-- `column IS NULL OR char_length(column) BETWEEN 1 AND max`
abbrev pub length_chk : ℕ → Option String → Bool
length_chk max none = true
length_chk max (some s) = leb 1 (char_length s) && leb (char_length s) max

-- `z.string().min(1).max(max).optional()`
abbrev pub text_schema : ℕ → Option String → Bool
text_schema max none = true
text_schema max (some s) = leb 1 (utf16_length s) && leb (utf16_length s) max

pub utf16_length-bounds :
    (s : String) → (char_length s ≤ utf16_length s) × (1 ≤ utf16_length s → 1 ≤ char_length s)
unfolding char_length utf16_length
utf16_length-bounds String.[] = (omega arith, λ h. h)
utf16_length-bounds (String.◌∷◌ c s) =
    let rest = utf16_length-bounds s in (ground arith, λ h. omega arith)

-- A text that the schema takes passes the constraint of the same bound.
pub text_schema-length_chk :
    (max : ℕ) (o : Option String) → text_schema max o ≡ true → length_chk max o ≡ true
text_schema-length_chk max none h = h
text_schema-length_chk max (some s) h =
    let bounds = utf16_length-bounds s in ground (arith, bounds.0, bounds.1)

pub utf16_length_pos : (s : String) → str_eq s "" ≡ false → 1 ≤ utf16_length s
unfolding utf16_length
utf16_length_pos String.[] h = cc
utf16_length_pos (String.◌∷◌ c s) h = ground arith
