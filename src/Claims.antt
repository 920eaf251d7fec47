-- ===== src/Claims.antt =====
-- JSON values as Go decodes them into interface{}, and the claims of a JWT.
use project_starfly_fabrics.Prelude.{
  ℕ, ◌+◌, String, ◌==◌, Bool, true, false, Option, none, some, List, [], ◌∷◌,
}
use project_starfly_fabrics.Prelude.Int.{ℤ}
use project_starfly_fabrics.Dict.{Dict, lookup}

-- A number stands for its truncation, int(f): nothing else of a number is read.
mutual
  pub data Value : Type 0 where
    null : Value
    boolean : Bool → Value
    number : ℤ → Value
    text : String → Value
    array : Values → Value
    object : Fields → Value

  pub data Values : Type 0 where
    nil : Values
    cons : Value → Values → Values

  pub data Fields : Type 0 where
    end : Fields
    field : String → Value → Fields → Fields

abbrev pub Claims : Type 0
Claims = Dict Value

-- `v.(string)`, `v.([]interface{})`, `v.(map[string]interface{})`
unfoldable pub as_text : Value → Option String
as_text (text s) = some s
as_text _ = none

unfoldable pub as_array : Value → Option Values
as_array (array vs) = some vs
as_array _ = none

unfoldable pub as_number : Value → Option ℤ
as_number (number z) = some z
as_number _ = none

unfoldable pub as_object : Value → Option Fields
as_object (object fs) = some fs
as_object _ = none

abbrev pub and_then {ℓ κ} : {A : Type ℓ} {B : Type κ} → Option A → (A → Option B) → Option B
and_then none f = none
and_then (some a) f = f a

-- Reading a claim into a typed variable fails when it is absent or of another type.
unfoldable pub get_text : String → Claims → Option String
unfolding lookup as_text
get_text k c = and_then (lookup k c) as_text

unfoldable pub get_array : String → Claims → Option Values
unfolding lookup as_array
get_array k c = and_then (lookup k c) as_array

unfoldable pub get_number : String → Claims → Option ℤ
unfolding lookup as_number
get_number k c = and_then (lookup k c) as_number

abbrev add_text : Option String → List String → List String
add_text none rest = rest
add_text (some s) rest = s ∷ rest

-- `for _, c := range vs { if s, ok := c.(string); ok { out = append(out, s) } }`
unfoldable pub texts : Values → List String
unfolding as_text
texts nil = []
texts (cons v vs) = add_text (as_text v) (texts vs)

abbrev pub texts_or_none : Option Values → List String
texts_or_none none = []
texts_or_none (some vs) = texts vs

-- `append(a, b...)`
unfoldable pub append_values : Values → Values → Values
append_values nil ws = ws
append_values (cons v vs) ws = cons v (append_values vs ws)

abbrev field_or : Bool → Value → Option Value → Option Value
field_or true v rest = some v
field_or false v rest = rest

-- Indexing a map[string]interface{}.
unfoldable pub get_field : String → Fields → Option Value
get_field k end = none
get_field k (field j v fs) = field_or (j == k) v (get_field k fs)

-- `len(vs)`
unfoldable pub count_values : Values → ℕ
count_values nil = 0
count_values (cons v vs) = count_values vs + 1
