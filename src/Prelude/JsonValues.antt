-- ===== src/Prelude/JsonValues.antt =====
-- The values of JSON, as requests and messages carry them.
use Prim.Native.Nat.{ℕ}
use Prim.Native.String.{String}
use mathlib.Core.Bool.{Bool}
use mathlib.Core.Option.{Option, none, some}
use text.Mathlib.Text.{◌==◌ as str_eq}
use rvf_malinois.Prelude.Tests.{if◌then◌else◌}

mutual
  -- A JavaScript value as `JSON.parse` makes it, or `undefined`.
  pub data Json : Type 0 where
    undefined null : Json
    bool : Bool → Json
    -- a number is its 64-bit pattern
    num : ℕ → Json
    str : String → Json
    arr : Jsons → Json
    obj : Fields → Json

  pub data Jsons : Type 0 where
    nil : Jsons
    cons : Json → Jsons → Jsons

  pub data Fields : Type 0 where
    end : Fields
    field : String → Json → Fields → Fields

-- `x.key`
abbrev pub get : String → Fields → Json
get key end = undefined
get key (field k v rest) = if str_eq k key then v else get key rest

abbrev pub as_text : Json → Option String
as_text (str s) = some s
as_text undefined = none
as_text null = none
as_text (bool b) = none
as_text (num n) = none
as_text (arr xs) = none
as_text (obj fields) = none

abbrev pub as_array : Json → Option Jsons
as_array (arr xs) = some xs
as_array undefined = none
as_array null = none
as_array (bool b) = none
as_array (num n) = none
as_array (str s) = none
as_array (obj fields) = none
