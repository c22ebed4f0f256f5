-- ===== src/Deployments/Template/Laws.antt =====
-- internal/services/deployments/template.go: which value a reference to a parameter stands for.
use Prim.Native.String.{[] as nil_text, ◌∷◌ as cons}
use miniblue.Prelude.{
  String, ◌≡◌, refl, ap, ◌∙◌, sym, false, Option, none, some, ◌++◌, ◌==◌, arith, eq_iff,
  if◌then◌else◌,
}
use miniblue.Prelude.Text.{has_prefix-append_self, append_assoc}
use miniblue.Prelude.Split.Laws.{IsWithout}
use miniblue.StorageAuth.Text.{drop_prefix}
use miniblue.Value.{Value, Fields, no_fields, field, str, obj, lookup_field, set_field}
use miniblue.Arm.Properties.{lookup-set_field}
use miniblue.Deployments.Template.{
  set_if_there, collect, set_all, merge_parameter_defaults, until_quote, whole_reference,
  value_or_text, resolve_string, resolve, resolve_parameter,
}

-- no name twice, as in every Go map
abbrev pub IsMap : Fields → Type 0
IsMap no_fields = Unit
IsMap (field k v rest) = (lookup_field k rest ≡ none) × IsMap rest

-- the first, or else the second
unfoldable pub or_else : Option Value → Option Value → Option Value
or_else (some v) o = some v
or_else none o = o

or_else-none : (o : Option Value) → or_else o none ≡ o
unfolding or_else
or_else-none none = refl
or_else-none (some v) = refl

-- the field of a map, none for what is not a map
unfoldable pub field_of : (k : String) → Option Value → Option Value
unfolding lookup_field
field_of k (some (obj entry)) = lookup_field k entry
field_of k (some v) = none
field_of k none = none

lookup-set_all :
    (j : String) (supplied out : Fields)
    → IsMap supplied
    → lookup_field j (set_all supplied out) ≡ or_else (lookup_field j supplied) (lookup_field j out)
unfolding set_all or_else lookup_field
lookup-set_all j no_fields out n = refl
lookup-set_all j (field k v rest) out n = ground (
  arith,
  lookup-set_all j rest (set_field k v out) n.1,
  lookup-set_field k j v out,
  n.0,
  eq_iff k j,
)

lookup-set_if_there :
    (name j : String) (o : Option Value) (out : Fields)
    → lookup_field j (set_if_there name o out)
      ≡ (if name == j then or_else o (lookup_field j out) else lookup_field j out)
unfolding set_if_there or_else
lookup-set_if_there name j none out = ground arith
lookup-set_if_there name j (some v) out = lookup-set_field name j v out

lookup-collect :
    (k j : String) (m out : Fields)
    → IsMap m
    → lookup_field j (collect k m out)
      ≡ or_else (field_of k (lookup_field j m)) (lookup_field j out)
unfolding collect or_else field_of lookup_field
lookup-collect k j no_fields out n = refl
lookup-collect k j (field name (obj entry) rest) out n = ground (
  arith,
  lookup-collect k j rest (set_if_there name (lookup_field k entry) out) n.1,
  lookup-set_if_there name j (lookup_field k entry) out,
  n.0,
  eq_iff name j,
)
lookup-collect k j (field name v rest) out n =
    ground (arith, lookup-collect k j rest out n.1, n.0, eq_iff name j)

-- what a parameter stands for: the value that the deployment gives it, or else its default
unfoldable pub meaning : (tpl_params supplied : Fields) → (name : String) → Option Value
unfolding or_else field_of lookup_field
meaning tpl_params supplied name =
    or_else (lookup_field name supplied) (field_of "defaultValue" (lookup_field name tpl_params))

lookup-merge_parameter_defaults :
    (tpl_params supplied : Fields) (name : String)
    → IsMap tpl_params
    → IsMap supplied
    → lookup_field name (merge_parameter_defaults tpl_params supplied)
      ≡ meaning tpl_params supplied name
unfolding merge_parameter_defaults meaning lookup_field
lookup-merge_parameter_defaults tpl_params supplied name n n' =
    lookup-set_all name supplied (collect "defaultValue" tpl_params no_fields) n'
    ∙ ap (or_else (lookup_field name supplied))
        (lookup-collect "defaultValue" name tpl_params no_fields n ∙ or_else-none _)

until_quote-name :
    (name rest : String)
    → IsWithout b'\'' name
    → until_quote (name ++ "'" ++ rest) ≡ (name, "'" ++ rest)
unfolding until_quote ◌++◌
until_quote-name nil_text rest n = refl
until_quote-name (cons c name) rest n = ground (arith, until_quote-name name rest n.1, n.0)

drop_prefix-append : (p s : String) → drop_prefix p (p ++ s) ≡ s
unfolding drop_prefix ◌++◌
drop_prefix-append nil_text s = refl
drop_prefix-append (cons c p) s = drop_prefix-append p s

whole_reference-reference :
    (function name : String)
    → IsWithout b'\'' name
    → (name == "") ≡ false
    → whole_reference function ("[" ++ function ++ "('" ++ name ++ "')]") ≡ some name
unfolding whole_reference
whole_reference-reference function name n named =
    let opening = "[" ++ function ++ "('" in
    let text : "[" ++ function ++ "('" ++ name ++ "')]" ≡ opening ++ name ++ "')]" =
      ap (λ t. "[" ++ t) (sym (append_assoc function "('" (name ++ "')]"))) in
    ap (whole_reference function) text
    ∙ rw
        (
          drop_prefix-append opening (name ++ "')]"),
          has_prefix-append_self opening (name ++ "')]"),
          until_quote-name name ")]" n,
          named,
        )
        refl

-- A text `[parameters('name')]` resolves to the value that the deployment gives the parameter, or
-- else to its default; it stays as it is where there is neither. A name is not empty and has no
-- quote, and no map has a name twice.
pub resolve_parameter-meaning :
    (tpl_params supplied vars : Fields) (name : String)
    → IsMap tpl_params
    → IsMap supplied
    → IsWithout b'\'' name
    → (name == "") ≡ false
    → resolve
        (merge_parameter_defaults tpl_params supplied)
        vars
        (str ("[parameters('" ++ name ++ "')]"))
      ≡ value_or_text ("[parameters('" ++ name ++ "')]") (meaning tpl_params supplied name)
unfolding resolve resolve_string resolve_parameter value_or_text whole_reference meaning
resolve_parameter-meaning tpl_params supplied vars name m m' n named =
    rw
      (
        whole_reference-reference "parameters" name n named,
        lookup-merge_parameter_defaults tpl_params supplied name m m',
      )
      refl
