-- ===== src/ServiceBus.antt =====
-- internal/services/servicebus/handler.go: the data plane. The ARM resources are in `Arm`.
pub mod Arm
pub mod Fifo
pub mod Namespace
use miniblue.Prelude.{ℕ, ◌+◌, String, Option, none, some, ◌++◌, List, [], ◌∷◌, if◌then◌else◌}
use miniblue.Prelude.Decimal.{decimal, decimal_010}
use miniblue.Prelude.Sort.{sort_strings}
use miniblue.Store
use miniblue.Store.{Store}
use miniblue.Value.{Value, BusQueue, BusMessage, bus_queue, bus_message, str, dict}
use miniblue.Http.{
  Response, Decoded, failed, decoded, json_response, status_only, list_response, not_found,
  bad_request, conflict, found_or,
}

-- `Handler`: the shared store, and the counter of messages
pub record Handler : Type 0 where
  pub store : Store Value
  pub msg_id : ℕ

abbrev pub queue_type : String
queue_type = "Microsoft.ServiceBus/namespaces/queues"

unfoldable pub queue_key : (ns name : String) → String
unfolding ◌++◌
queue_key ns name = "sb:queue:" ++ ns ++ ":" ++ name

unfoldable pub msg_prefix : (ns name : String) → String
unfolding ◌++◌
msg_prefix ns name = "sb:msg:" ++ ns ++ ":" ++ name ++ ":"

unfoldable pub new_queue : (name now : String) → BusQueue
new_queue name now = record {
  name = name;
  properties = record {
    status = "Active";
    message_count = 0;
    max_delivery_count = 10;
    default_message_ttl = "P14D";
    lock_duration = "PT1M";
    created_at = now;
  };
}

unfoldable pub create_queue : Handler → (ns name now : String) → Handler × Response
create_queue h ns name now =
    let k = queue_key ns name in
    let q = bus_queue (new_queue name now) in
    if Store.exists h.store k
    then (h, conflict queue_type name)
    else (record h { store = Store.set h.store k q }, json_response 201 q)

unfoldable pub get_queue : Handler → (ns name : String) → Response
get_queue h ns name = found_or (not_found queue_type name) (Store.get h.store (queue_key ns name))

unfoldable pub delete_queue : Handler → (ns name : String) → Handler × Response
delete_queue h ns name =
    let (s, found) = Store.delete h.store (queue_key ns name) in
    if found
    then (record h { store = (Store.delete_by_prefix s (msg_prefix ns name)).0 }, status_only 200)
    else (record h { store = s }, not_found queue_type name)

unfoldable pub list_queues : Handler → (ns : String) → Response
unfolding ◌++◌
list_queues h ns = list_response "value" (Store.list_by_prefix h.store ("sb:queue:" ++ ns ++ ":"))

unfoldable pub new_message : (id body now : String) → BusMessage
new_message id body now = record { message_id = id; body = body; enqueued_time = now }

-- the key of the message with this number: zero-padded, so that keys sort by number
unfoldable pub msg_key : (ns name : String) → ℕ → String
msg_key ns name id = msg_prefix ns name ++ decimal_010 id

unfoldable pub send_message :
    Handler → (ns queue : String) → Decoded String → (now : String) → Handler × Response
send_message h ns queue (failed error) now =
    if Store.exists h.store (queue_key ns queue)
    then (h, bad_request ("Invalid message body: " ++ error))
    else (h, not_found queue_type queue)
send_message h ns queue (decoded body) now =
    if Store.exists h.store (queue_key ns queue)
    then (let id = h.msg_id + 1 in
        let msg = bus_message (new_message (decimal_010 id) body now) in
        (
          record { store = Store.set h.store (msg_key ns queue id) msg; msg_id = id },
          json_response 201 msg,
        ))
    else (h, not_found queue_type queue)

-- `if len(keys) > 0 { sort.Strings(keys); if v, ok := h.store.Get(keys[0]); ok { … } }`
first_message : Store Value → List String → Response
first_message s [] = status_only 204
first_message s (k ∷ ks) = found_or (status_only 204) (Store.get s k)

unfoldable pub receive_message : Handler → (ns queue : String) → Response
unfolding first_message
receive_message h ns queue =
    if Store.exists h.store (queue_key ns queue)
    then first_message h.store
        (sort_strings (Store.list_keys_by_prefix h.store (msg_prefix ns queue)))
    else not_found queue_type queue

unfoldable pub create_topic : (name : String) → Response
create_topic name =
    json_response 201
      (dict (("name", str name) ∷ ("properties", dict (("status", str "Active") ∷ [])) ∷ []))

unfoldable pub delete_topic : Response
delete_topic = status_only 200

-- `body`: what Decode leaves in the message; here the number is not padded
unfoldable pub publish_message : Handler → (ns topic body now : String) → Handler × Response
unfolding ◌++◌
publish_message h ns topic body now =
    let id = h.msg_id + 1 in
    let msg = bus_message (new_message (decimal id) body now) in
    (
      record {
        store = Store.set h.store ("sb:topic:" ++ ns ++ ":" ++ topic ++ ":" ++ decimal id) msg;
        msg_id = id;
      },
      json_response 201 msg,
    )
