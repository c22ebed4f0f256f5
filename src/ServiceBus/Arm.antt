-- ===== src/ServiceBus/Arm.antt =====
-- internal/services/servicebus/handler.go: namespaces, queues and topics as ARM resources.
use miniblue.Prelude.{String, false, ◌++◌, [], ◌∷◌, is_some, if◌then◌else◌}
use miniblue.Store
use miniblue.Store.{Store}
use miniblue.Value.{Value, str, int, bool, dict}
use miniblue.Http.{Response, status_only, list_response, not_found, found_or, created_or_updated}

abbrev namespace_type : String
namespace_type = "Microsoft.ServiceBus/namespaces"

abbrev queue_type : String
queue_type = "Microsoft.ServiceBus/namespaces/queues"

abbrev topic_type : String
topic_type = "Microsoft.ServiceBus/namespaces/topics"

unfoldable pub namespace_key : (sub rg name : String) → String
unfolding ◌++◌
namespace_key sub rg name = "sb:namespace:" ++ sub ++ ":" ++ rg ++ ":" ++ name

-- the ARM id of a namespace
abbrev namespace_id : (sub rg name : String) → String
unfolding ◌++◌
namespace_id sub rg name =
    "/subscriptions/" ++ sub ++ "/resourceGroups/" ++ rg
    ++ "/providers/Microsoft.ServiceBus/namespaces/" ++ name

unfoldable pub build_namespace_response : (sub rg name : String) → Value
unfolding ◌++◌
build_namespace_response sub rg name = dict (
    ("id", str (namespace_id sub rg name))
    ∷ ("name", str name)
    ∷ ("type", str namespace_type)
    ∷ ("location", str "eastus")
    ∷ ("sku", dict (("name", str "Standard") ∷ ("tier", str "Standard") ∷ []))
    ∷ (
      "properties",
      dict (
          ("provisioningState", str "Succeeded")
          ∷ ("status", str "Active")
          ∷ ("serviceBusEndpoint", str ("https://" ++ name ++ ".servicebus.windows.net:443/"))
          ∷ ("metricId", str (sub ++ ":" ++ name))
          ∷ ("createdAt", str "2026-01-01T00:00:00Z")
          ∷ ("updatedAt", str "2026-01-01T00:00:00Z")
          ∷ ("disableLocalAuth", bool false)
          ∷ ("zoneRedundant", bool false)
          ∷ []),
    )
    ∷ [])

unfoldable pub create_or_update_namespace :
    Store Value → (sub rg name : String) → Store Value × Response
create_or_update_namespace s sub rg name =
    let k = namespace_key sub rg name in
    let ns = build_namespace_response sub rg name in
    (Store.set s k ns, created_or_updated (is_some (Store.get s k)) ns)

unfoldable pub get_namespace : Store Value → (sub rg name : String) → Response
get_namespace s sub rg name =
    found_or (not_found namespace_type name) (Store.get s (namespace_key sub rg name))

-- the data-plane queues and topics of the namespace go with it
unfoldable pub delete_namespace : Store Value → (sub rg name : String) → Store Value × Response
unfolding ◌++◌
delete_namespace s sub rg name =
    let (s₁, found) = Store.delete s (namespace_key sub rg name) in
    if found
    then (let s₂ = (Store.delete_by_prefix s₁ ("sb:queue:" ++ name ++ ":")).0 in
        ((Store.delete_by_prefix s₂ ("sb:topic:" ++ name ++ ":")).0, status_only 202))
    else (s₁, not_found namespace_type name)

unfoldable pub list_namespaces : Store Value → (sub rg : String) → Response
unfolding ◌++◌
list_namespaces s sub rg =
    list_response "value" (Store.list_by_prefix s ("sb:namespace:" ++ sub ++ ":" ++ rg ++ ":"))

unfoldable pub arm_queue_key : (sub rg ns name : String) → String
unfolding ◌++◌
arm_queue_key sub rg ns name = "sb:armqueue:" ++ sub ++ ":" ++ rg ++ ":" ++ ns ++ ":" ++ name

unfoldable pub build_arm_queue_response : (sub rg ns name : String) → Value
unfolding ◌++◌
build_arm_queue_response sub rg ns name = dict (
    ("id", str (namespace_id sub rg ns ++ "/queues/" ++ name))
    ∷ ("name", str name)
    ∷ ("type", str queue_type)
    ∷ (
      "properties",
      dict (
          ("status", str "Active")
          ∷ ("messageCount", int 0)
          ∷ ("maxDeliveryCount", int 10)
          ∷ ("defaultMessageTimeToLive", str "P14D")
          ∷ ("lockDuration", str "PT1M")
          ∷ ("createdAt", str "2026-01-01T00:00:00Z")
          ∷ []),
    )
    ∷ [])

unfoldable pub create_queue_arm : Store Value → (sub rg ns name : String) → Store Value × Response
create_queue_arm s sub rg ns name =
    let k = arm_queue_key sub rg ns name in
    let q = build_arm_queue_response sub rg ns name in
    (Store.set s k q, created_or_updated (is_some (Store.get s k)) q)

unfoldable pub get_queue_arm : Store Value → (sub rg ns name : String) → Response
get_queue_arm s sub rg ns name =
    found_or (not_found queue_type name) (Store.get s (arm_queue_key sub rg ns name))

unfoldable pub delete_queue_arm : Store Value → (sub rg ns name : String) → Store Value × Response
delete_queue_arm s sub rg ns name =
    let (s', found) = Store.delete s (arm_queue_key sub rg ns name) in
    if found then (s', status_only 200) else (s', not_found queue_type name)

unfoldable pub list_queues_arm : Store Value → (sub rg ns : String) → Response
unfolding ◌++◌
list_queues_arm s sub rg ns =
    list_response "value"
      (Store.list_by_prefix s ("sb:armqueue:" ++ sub ++ ":" ++ rg ++ ":" ++ ns ++ ":"))

unfoldable pub arm_topic_key : (sub rg ns name : String) → String
unfolding ◌++◌
arm_topic_key sub rg ns name = "sb:armtopic:" ++ sub ++ ":" ++ rg ++ ":" ++ ns ++ ":" ++ name

unfoldable pub arm_topic : (sub rg ns name : String) → Value
unfolding ◌++◌
arm_topic sub rg ns name = dict (
    ("id", str (namespace_id sub rg ns ++ "/topics/" ++ name))
    ∷ ("name", str name)
    ∷ ("type", str topic_type)
    ∷ (
      "properties",
      dict (
          ("status", str "Active")
          ∷ ("defaultMessageTimeToLive", str "P14D")
          ∷ ("createdAt", str "2026-01-01T00:00:00Z")
          ∷ []),
    )
    ∷ [])

unfoldable pub create_topic_arm : Store Value → (sub rg ns name : String) → Store Value × Response
create_topic_arm s sub rg ns name =
    let k = arm_topic_key sub rg ns name in
    let t = arm_topic sub rg ns name in
    (Store.set s k t, created_or_updated (is_some (Store.get s k)) t)

unfoldable pub get_topic_arm : Store Value → (sub rg ns name : String) → Response
get_topic_arm s sub rg ns name =
    found_or (not_found topic_type name) (Store.get s (arm_topic_key sub rg ns name))

unfoldable pub delete_topic_arm : Store Value → (sub rg ns name : String) → Store Value × Response
delete_topic_arm s sub rg ns name =
    let (s', found) = Store.delete s (arm_topic_key sub rg ns name) in
    if found then (s', status_only 200) else (s', not_found topic_type name)

unfoldable pub list_topics_arm : Store Value → (sub rg ns : String) → Response
unfolding ◌++◌
list_topics_arm s sub rg ns =
    list_response "value"
      (Store.list_by_prefix s ("sb:armtopic:" ++ sub ++ ":" ++ rg ++ ":" ++ ns ++ ":"))
