-- ===== src/Tests/Codec.antt =====
-- A small codec for the tests: the Go types `int`, of one digit, and `string`, with no quotation
-- mark inside.
use go_persist.Base.{
  ℕ, ◌+◌, ◌-◌, Bool, true, false, ◌&&◌, Option, none, some, [], ◌∷◌, ◌++◌, Bytes, ◌≡◌, refl, arith,
  leb, ltb, ◌==◌, if◌then◌else◌,
}
use go_persist.Env.Json.{Json}

pub data GoType : Type 0 where
  int string : GoType

pub data Value : Type 0 where
  number : ℕ → Value
  text : Bytes → Value

abbrev pub has_type : GoType → Value → Bool
has_type int (number n) = true
has_type string (text s) = true
has_type _ _ = false

abbrev pub zero_value : GoType → Value
zero_value int = number 0
zero_value string = text []

abbrev pub as_string : Value → Option Bytes
as_string (text s) = some s
as_string (number n) = none

abbrev pub marshal : Value → Option Bytes
marshal (number n) = if ltb n 10 then some ((b'0' + n) ∷ []) else none
marshal (text s) = some (b'"' ∷ (s ++ b'"' ∷ []))

abbrev unquoted : Bytes → Option Bytes
unquoted [] = none
unquoted (c ∷ []) = if c == b'"' then some [] else none
unquoted (c ∷ d ∷ cs) = elim (unquoted (d ∷ cs)) [
  | none ↦ none
  | some s ↦ if c == b'"' then none else some (c ∷ s)
]

abbrev as_text : Option Bytes → Option Value
as_text none = none
as_text (some s) = some (text s)

abbrev pub unmarshal : GoType → Bytes → Option Value
unmarshal int (c ∷ []) = if leb b'0' c && leb c b'9' then some (number (c - b'0')) else none
unmarshal string (c ∷ cs) = if c == b'"' then as_text (unquoted cs) else none
unmarshal _ _ = none

as_text-has_type : (o : Option Bytes) (v : Value) → as_text o ≡ some v → has_type string v ≡ true
as_text-has_type o v h = ground arith

pub unmarshal-has_type :
    (t : GoType) (b : Bytes) (v : Value) → unmarshal t b ≡ some v → has_type t v ≡ true
unmarshal-has_type int (c ∷ []) v h = ground arith
unmarshal-has_type string (c ∷ cs) v h = ground (arith, as_text-has_type (unquoted cs) v)
unmarshal-has_type _ _ v h = cc

instance abbrev pub codec : Json
codec = record {
  GoType = GoType;
  Value = Value;
  has_type = has_type;
  zero_value = zero_value;
  string_value = text;
  as_string = as_string;
  marshal = marshal;
  unmarshal = unmarshal;
  as_string-string_value = λ s. refl;
  unmarshal-has_type = unmarshal-has_type;
}
