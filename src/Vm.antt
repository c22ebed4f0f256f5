-- ===== src/Vm.antt =====
-- internal/services/vm/model.go: the keys, the names and the records of virtual machines.
pub mod Identity
pub mod Laws
use miniblue.Prelude.{
  String, Option, none, some, ◌++◌, List, [], ◌∷◌, ◌==◌, has_prefix, if◌then◌else◌,
}
use miniblue.Value.{
  Value, Fields, Items, nil, str, array, obj, no_fields, field, no_items, item, fields, dict,
  lookup_field, set_field, string_or_empty,
}
use miniblue.Arm.{array_or_empty, object_or, string_or, properties_of, location_of, resource_id}

unfoldable pub vm_key : (sub rg name : String) → String
unfolding ◌++◌
vm_key sub rg name = "vm:" ++ sub ++ ":" ++ rg ++ ":" ++ name

unfoldable pub svc_key : (sub rg vm_name svc : String) → String
unfolding ◌++◌
svc_key sub rg vm_name svc = "vmsvc:" ++ sub ++ ":" ++ rg ++ ":" ++ vm_name ++ ":" ++ svc

unfoldable pub vm_container_name : (rg name : String) → String
unfolding ◌++◌
vm_container_name rg name = "miniblue-vm-" ++ rg ++ "-" ++ name

unfoldable pub vm_network_name : (rg name : String) → String
unfolding ◌++◌
vm_network_name rg name = "miniblue-vmnet-" ++ rg ++ "-" ++ name

unfoldable pub svc_container_name : (rg vm_name svc : String) → String
unfolding ◌++◌
svc_container_name rg vm_name svc = "miniblue-vmsvc-" ++ rg ++ "-" ++ vm_name ++ "-" ++ svc

unfoldable pub vm_arm_id : (sub rg name : String) → String
vm_arm_id sub rg name = resource_id sub rg "Microsoft.Compute/virtualMachines" name

-- `env`: the variable PORT
unfoldable pub identity_env : (env secret : String) → List String
unfolding ◌++◌
identity_env env secret =
    let port = if env == "" then "4566" else env in
    let endpoint = "http://host.docker.internal:" ++ port ++ "/metadata/identity/oauth2/token" in
    ("IDENTITY_ENDPOINT=" ++ endpoint)
    ∷ ("IDENTITY_HEADER=" ++ secret)
    ∷ ("MSI_ENDPOINT=" ++ endpoint)
    ∷ ("MSI_SECRET=" ++ secret)
    ∷ []

-- append(events, line)
unfoldable pub append_item : Items → Value → Items
append_item no_items v = item v no_items
append_item (item w ws) v = item w (append_item ws v)

-- `now` is the time in RFC 3339, `text` the formatted event.
unfoldable pub append_provision_event : (now text : String) → Fields → Fields
unfolding append_item array_or_empty lookup_field set_field ◌++◌
append_provision_event now text rec =
    set_field "_provisionLog"
      (array (
        append_item (array_or_empty (lookup_field "_provisionLog" rec)) (str (now ++ " " ++ text))))
      rec

unfoldable pub texts_of : Items → List String
texts_of no_items = []
texts_of (item (str s) rest) = s ∷ texts_of rest
texts_of (item v rest) = texts_of rest

unfoldable pub provision_events : Fields → List String
unfolding texts_of array_or_empty lookup_field
provision_events rec = texts_of (array_or_empty (lookup_field "_provisionLog" rec))

unfoldable pub public_view : Fields → Fields
unfolding has_prefix
public_view no_fields = no_fields
public_view (field k v rest) =
    let out = public_view rest in if has_prefix k "_" then out else field k v out

-- The properties, and the record, where a missing map is added.
unfoldable pub get_props : Fields → Fields × Fields
unfolding properties_of set_field
get_props rec = let props = properties_of rec in (props, set_field "properties" (obj props) rec)

unfoldable pub get_miniblu_props : Fields → Fields × Fields
unfolding get_props object_or lookup_field set_field
get_miniblu_props rec =
    let (props, rec') = get_props rec in
    let mb = object_or no_fields (lookup_field "miniblue" props) in
    (mb, set_field "properties" (obj (set_field "miniblue" (obj mb) props)) rec')

unfoldable pub power_state : Fields → String
unfolding get_miniblu_props string_or_empty lookup_field
power_state rec = string_or_empty (lookup_field "powerState" (get_miniblu_props rec).0)

copied : (k : String) → Option Value → Fields → Fields
unfolding set_field
copied k none props = props
copied k (some v) props = set_field k v props

unfoldable pub copy_property : (k : String) → (from : Fields) → Fields → Fields
unfolding copied lookup_field
copy_property k from props = copied k (lookup_field k from) props

with_profile : Option Value → Fields → Fields
unfolding set_field
with_profile none props =
    set_field "hardwareProfile" (dict (("vmSize", str "Standard_B1s") ∷ [])) props
with_profile (some nil) props =
    set_field "hardwareProfile" (dict (("vmSize", str "Standard_B1s") ∷ [])) props
with_profile (some v) props = props

unfoldable pub build_vm_record : (sub rg name : String) → Fields → (image : String) → Fields
unfolding with_profile copy_property vm_container_name lookup_field
build_vm_record sub rg name input image =
    let given = properties_of input in
    let base = fields (
      ("provisioningState", str "Succeeded")
      ∷ (
        "miniblue",
        dict (
            ("image", str image)
            ∷ ("powerState", str "running")
            ∷ ("containerName", str (vm_container_name rg name))
            ∷ []),
      )
      ∷ []) in
    let props =
      copy_property "osProfile" given
        (copy_property "storageProfile" given (copy_property "hardwareProfile" given base)) in
    fields (
      ("id", str (vm_arm_id sub rg name))
      ∷ ("name", str name)
      ∷ ("type", str "Microsoft.Compute/virtualMachines")
      ∷ ("location", str (location_of input))
      ∷ ("properties", obj (with_profile (lookup_field "hardwareProfile" props) props))
      ∷ [])
