-- ===== src/PublicIp.antt =====
-- internal/services/publicip/handler.go: public IP addresses. `counter` is the package's ipCounter,
-- a uint32 that atomic.AddUint32 advances, so that it wraps around.
pub mod Addresses
use miniblue.Prelude.{
  ℕ, ◌+◌, ◌/◌, ◌%◌, ◌^◌, String, Option, none, some, ◌++◌, [], ◌∷◌, ◌==◌, if◌then◌else◌,
}
use miniblue.Prelude.Decimal.{decimal}
use miniblue.Store
use miniblue.Store.{Store}
use miniblue.Value.{
  Value, Fields, nil, str, number, obj, dict, fields, lookup_field, as_object, string_or_empty,
}
use miniblue.Http.{Response, not_found}
use miniblue.Arm.{
  object_or, string_or, any_of, location_of, tags_of, properties_of, resource_id, put_resource,
  get_resource, delete_resource, list_resources,
}

abbrev type : String
type = "Microsoft.Network/publicIPAddresses"

unfoldable pub key : (sub rg name : String) → String
unfolding ◌++◌
key sub rg name = "publicip:" ++ sub ++ ":" ++ rg ++ ":" ++ name

-- fmt.Sprintf("20.0.%d.%d", (n/256)%256, n%256)
unfoldable pub ip_text : ℕ → String
unfolding ◌++◌ decimal
ip_text n = "20.0." ++ decimal (n / 256 % 256) ++ "." ++ decimal (n % 256)

-- the new counter, and the address
unfoldable pub next_ip : (counter : ℕ) → ℕ × String
unfolding ip_text
next_ip counter = let n = (counter + 1) % 2 ^ 32 in (n, ip_text n)

-- `if v, ok := props["idleTimeoutInMinutes"].(float64); ok`
idle_timeout : Option Value → Value
idle_timeout (some (number n)) = number n
idle_timeout (some v) = number "4"
idle_timeout none = number "4"

-- `ipAddress := existingIP; if ipAddress == "" { ipAddress = nextIP() }`
unfoldable pub choose_ip : (counter : ℕ) (existing_ip : String) → ℕ × String
unfolding next_ip
choose_ip counter existing_ip =
    if existing_ip == "" then next_ip counter else (counter, existing_ip)

unfoldable pub build_response : (sub rg name : String) → Fields → (ip : String) → Value
unfolding object_or string_or any_of location_of tags_of properties_of lookup_field idle_timeout
build_response sub rg name input ip =
    let props = properties_of input in
    dict (
      ("id", str (resource_id sub rg type name))
      ∷ ("name", str name)
      ∷ ("type", str type)
      ∷ ("location", str (location_of input))
      ∷ ("tags", obj (tags_of input))
      ∷ (
        "sku",
        obj (
            object_or (fields (("name", str "Standard") ∷ ("tier", str "Regional") ∷ []))
              (lookup_field "sku" input)),
      )
      ∷ (
        "properties",
        dict (
            ("provisioningState", str "Succeeded")
            ∷ (
              "publicIPAllocationMethod",
              str (string_or "Static" (lookup_field "publicIPAllocationMethod" props)),
            )
            ∷ (
              "publicIPAddressVersion",
              str (string_or "IPv4" (lookup_field "publicIPAddressVersion" props)),
            )
            ∷ ("ipAddress", str ip)
            ∷ ("idleTimeoutInMinutes", idle_timeout (lookup_field "idleTimeoutInMinutes" props))
            ∷ ("ipConfiguration", nil)
            ∷ ("dnsSettings", any_of (lookup_field "dnsSettings" props))
            ∷ []),
      )
      ∷ [])

ip_of_properties : Option Value → String
unfolding lookup_field string_or_empty
ip_of_properties (some (obj p)) = string_or_empty (lookup_field "ipAddress" p)
ip_of_properties (some v) = ""
ip_of_properties none = ""

-- the address of what the store has under the key, if any
unfoldable pub existing_ip : Option Value → String
unfolding ip_of_properties lookup_field
existing_ip (some (obj m)) = ip_of_properties (lookup_field "properties" m)
existing_ip (some v) = ""
existing_ip none = ""

-- the new counter, the store and the response
unfoldable pub create_or_update :
    (counter : ℕ) → Store Value → (sub rg name : String) → Fields → ℕ × Store Value × Response
unfolding put_resource
create_or_update counter s sub rg name input =
    let k = key sub rg name in
    let (counter', ip) = choose_ip counter (existing_ip (Store.get s k)) in
    let (s', response) = put_resource s k (build_response sub rg name input ip) in
    (counter', s', response)

unfoldable pub get : Store Value → (sub rg name : String) → Response
unfolding get_resource
get s sub rg name = get_resource s (key sub rg name) (not_found type name)

unfoldable pub delete : Store Value → (sub rg name : String) → Store Value × Response
unfolding delete_resource
delete s sub rg name = delete_resource s (key sub rg name) (not_found type name) 202

unfoldable pub list : Store Value → (sub rg : String) → Response
unfolding ◌++◌ list_resources
list s sub rg = list_resources s ("publicip:" ++ sub ++ ":" ++ rg ++ ":")

unfoldable pub list_in_subscription : Store Value → (sub : String) → Response
unfolding ◌++◌ list_resources
list_in_subscription s sub = list_resources s ("publicip:" ++ sub ++ ":")
