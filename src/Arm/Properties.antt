-- ===== src/Arm/Properties.antt =====
-- Reading what a handler wrote: a field of a map, and a field of a response.
use miniblue.Prelude.{
  String, Bool, true, ◌≡◌, refl, ap, ◌∙◌, false, Option, none, some, ◌==◌, arith, eq_iff, eq_refl,
  if◌then◌else◌,
}
use miniblue.Value.{Value, Fields, no_fields, field, obj, lookup_field, set_field}
use miniblue.Http.{Body, Response, created_or_updated, json}
use miniblue.Arm.{set_property, property_set}

pub lookup-set_field :
    (k j : String) (v : Value) (fs : Fields)
    → lookup_field j (set_field k v fs) ≡ (if k == j then some v else lookup_field j fs)
unfolding lookup_field set_field
lookup-set_field k j v no_fields = refl
lookup-set_field k j v (field i w rest) =
    ground (arith, lookup-set_field k j v rest, eq_iff i k, eq_iff i j, eq_iff k j)

-- `m["properties"].(map[string]interface{})[k]`, none where one of the two is missing
property_of : String → Option Value → Option Value
property_of k (some (obj props)) = lookup_field k props
property_of k (some v) = none
property_of k none = none

unfoldable pub property : String → Value → Option Value
unfolding property_of lookup_field
property k (obj m) = property_of k (lookup_field "properties" m)
property k v = none

pub lookup-set_same :
    (k : String) (v : Value) (fs : Fields) → lookup_field k (set_field k v fs) ≡ some v
lookup-set_same k v fs = ground (arith, lookup-set_field k k v fs, eq_refl k)

-- A property that was set is there.
pub property-set_property :
    (k : String) (v : Value) (m props : Fields)
    → lookup_field "properties" m ≡ some (obj props)
    → property k (obj (set_property k v m)) ≡ some v
unfolding property set_property property_set property_of
property-set_property k v m props h =
    ap (λ o. property_of k (lookup_field "properties" (property_set k v m o))) h
    ∙ ap (λ o. property_of k o) (lookup-set_same "properties" (obj (set_field k v props)) m)
    ∙ lookup-set_same k v props

property_of_body : String → Body → Option Value
unfolding property
property_of_body k (json v) = property k v
property_of_body k _ = none

-- the property of the resource that a response shows
unfoldable pub shown : String → Response → Option Value
unfolding property_of_body
shown k r = property_of_body k r.body

listed_in : Body → Option Value
unfolding lookup_field
listed_in (json (obj m)) = lookup_field "value" m
listed_in _ = none

-- the resources that a response lists
unfoldable pub listed : Response → Option Value
unfolding listed_in
listed r = listed_in r.body

pub body-created_or_updated :
    (found : Bool) (v : Value) → (created_or_updated found v).body ≡ json v
body-created_or_updated true v = refl
body-created_or_updated false v = refl

pub shown-created_or_updated :
    (k : String) (found : Bool) (v : Value) → shown k (created_or_updated found v) ≡ property k v
unfolding shown property_of_body
shown-created_or_updated k found v = ap (property_of_body k) (body-created_or_updated found v)
