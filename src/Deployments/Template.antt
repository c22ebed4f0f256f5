-- ===== src/Deployments/Template.antt =====
-- internal/services/deployments/template.go: the parameters of a template, and the expressions
-- `[parameters('x')]` and `[variables('x')]` in it. A map is its list of fields.
pub mod Laws
use Prim.Native.Char.{code}
use Prim.Native.String.{[] as nil_text, ◌∷◌ as cons}
use miniblue.Prelude.{
  String, Option, none, some, ◌++◌, ◌==◌, ◌||◌, eqb, not, ◌&&◌, has_prefix, if◌then◌else◌,
}
use miniblue.StorageAuth.Text.{drop_prefix}
use miniblue.Value.{
  Value, Fields, Items, str, array, obj, no_items, item, no_fields, field, lookup_field, set_field,
}
use miniblue.Arm.{object_or}

-- `if val, ok := entry[k]; ok { out[name] = val }`
set_if_there : (name : String) → Option Value → Fields → Fields
unfolding set_field
set_if_there name none out = out
set_if_there name (some v) out = set_field name v out

-- the loops over a map of maps: the field `k` of each, under the name of the map
collect : (k : String) → (m out : Fields) → Fields
unfolding set_if_there lookup_field
collect k no_fields out = out
collect k (field name (obj entry) rest) out =
    collect k rest (set_if_there name (lookup_field k entry) out)
collect k (field name v rest) out = collect k rest out

unfoldable pub flatten_parameters : (raw : Option Value) → Fields
unfolding collect object_or
flatten_parameters raw = collect "value" (object_or no_fields raw) no_fields

-- `for k, v := range supplied { out[k] = v }`
set_all : (supplied out : Fields) → Fields
unfolding set_field
set_all no_fields out = out
set_all (field k v rest) out = set_all rest (set_field k v out)

unfoldable pub merge_parameter_defaults : (tpl_params supplied : Fields) → Fields
unfolding collect set_all
merge_parameter_defaults tpl_params supplied =
    set_all supplied (collect "defaultValue" tpl_params no_fields)

-- what stands before the first quote, and from it on
until_quote : String → String × String
until_quote nil_text = ("", "")
until_quote (cons c s) =
    let (name, rest) = until_quote s in
    if eqb (code c) b'\'' then ("", cons c s) else (cons c name, rest)

-- wholeParam and wholeVar: the name in `[function('name')]`, a text that is not empty and has no
-- quote
unfoldable pub whole_reference : (function s : String) → Option String
unfolding has_prefix drop_prefix until_quote ◌++◌
whole_reference function s =
    let opening = "[" ++ function ++ "('" in
    let (name, rest) = until_quote (drop_prefix opening s) in
    if has_prefix s opening && (not (name == "") && rest == "')]") then some name else none

-- the value, or the text itself
pub value_or_text : (s : String) → Option Value → Value
value_or_text s (some v) = v
value_or_text s none = str s

resolve_variable : (s : String) → (vars : Fields) → Option String → Value
unfolding value_or_text lookup_field
resolve_variable s vars none = str s
resolve_variable s vars (some name) = value_or_text s (lookup_field name vars)

resolve_parameter : (s : String) → (params vars : Fields) → Option String → Value
unfolding value_or_text lookup_field resolve_variable
resolve_parameter s params vars (some name) = value_or_text s (lookup_field name params)
resolve_parameter s params vars none = resolve_variable s vars (whole_reference "variables" s)

unfoldable pub resolve_string : (s : String) → (params vars : Fields) → Value
unfolding resolve_parameter
resolve_string s params vars = resolve_parameter s params vars (whole_reference "parameters" s)

-- resolveExpressions, on a value, a slice and a map
module _ (params vars : Fields) where
  unfoldable mutual
    unfolding resolve_string

    pub resolve : Value → Value
    resolve (str s) = resolve_string s params vars
    resolve (obj fs) = obj (resolve_fields fs)
    resolve (array vs) = array (resolve_items vs)
    resolve v = v

    pub resolve_items : Items → Items
    resolve_items no_items = no_items
    resolve_items (item v vs) = item (resolve v) (resolve_items vs)

    pub resolve_fields : Fields → Fields
    resolve_fields no_fields = no_fields
    resolve_fields (field k v rest) = field k (resolve v) (resolve_fields rest)
