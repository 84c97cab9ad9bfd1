-- ===== src/Env/Json.antt =====
-- Go's dynamic values (`interface{}`), their type assertions, and github.com/goccy/go-json.
use go_persist.Base.{Bool, true, Option, some, Bytes, ◌≡◌}

pub record Json : Type 1 where
  -- The types that are not interface types and that a map can be instantiated with, and the values of
  -- all of them. An interface type is out of scope: `null` decodes to nil, which fails the assertion.
  pub GoType : Type 0
  pub Value : Type 0
  -- `_, ok := v.(T)`
  pub has_type : GoType → Value → Bool
  -- `var zero T`
  pub zero_value : GoType → Value
  -- The Go type `string`: its values, and `s, ok := v.(string)`.
  pub string_value : Bytes → Value
  pub as_string : Value → Option Bytes
  -- `json.Marshal(v)` and `json.Unmarshal(data, &v)` at a variable of type T; `none` is an error.
  pub marshal : Value → Option Bytes
  pub unmarshal : GoType → Bytes → Option Value
  pub as_string-string_value : (s : Bytes) → as_string (string_value s) ≡ some s
  pub unmarshal-has_type :
      (t : GoType) (b : Bytes) (v : Value) → unmarshal t b ≡ some v → has_type t v ≡ true
