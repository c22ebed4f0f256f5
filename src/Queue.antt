-- ===== src/Queue.antt =====
-- internal/services/queue/handler.go
use miniblue.Prelude.{ℕ, ◌+◌, String, ◌++◌, [], ◌∷◌, if◌then◌else◌}
use miniblue.Prelude.Decimal.{decimal}
use miniblue.Store
use miniblue.Store.{Store}
use miniblue.Value.{Value, QueueMessage, queue_message, str, int, dict}
use miniblue.Http.{Response, json_response, status_only, list_response, not_found, conflict}

-- `Handler`: the shared store, and the counter of messages
pub record Handler : Type 0 where
  pub store : Store Value
  pub msg_id : ℕ

unfoldable pub queue_key : (account name : String) → String
unfolding ◌++◌
queue_key account name = "queue:meta:" ++ account ++ ":" ++ name

unfoldable pub msg_prefix : (account name : String) → String
unfolding ◌++◌
msg_prefix account name = "queue:msg:" ++ account ++ ":" ++ name ++ ":"

unfoldable pub create_queue : Handler → (account name now : String) → Handler × Response
create_queue h account name now =
    let k = queue_key account name in
    if Store.exists h.store k then (h, conflict "StorageQueue" name) else (
      record h {
        store = Store.set h.store k (dict (("name", str name) ∷ ("created", str now) ∷ []));
      },
      status_only 201,
    )

unfoldable pub get_queue : Handler → (account name : String) → Response
get_queue h account name =
    if Store.exists h.store (queue_key account name)
    then json_response 200 (
        dict (
          ("name", str name)
          ∷ (
            "approximateMessageCount",
            int (Store.count_by_prefix h.store (msg_prefix account name)),
          )
          ∷ []))
    else not_found "StorageQueue" name

unfoldable pub list_queues : Handler → (account : String) → Response
list_queues h account =
    list_response "queueUrls" (Store.list_by_prefix h.store (queue_key account ""))

unfoldable pub delete_queue : Handler → (account name : String) → Handler × Response
delete_queue h account name =
    let (s, found) = Store.delete h.store (queue_key account name) in
    if found
    then (
      record h { store = (Store.delete_by_prefix s (msg_prefix account name)).0 },
      status_only 204,
    )
    else (record h { store = s }, not_found "StorageQueue" name)

-- `text`: what Decode leaves in the body; `now` and `expires` are the formatted times
unfoldable pub new_message : (id : ℕ) (text now expires : String) → QueueMessage
unfolding ◌++◌
new_message id text now expires = record {
  message_id = decimal id;
  message_text = text;
  insertion_time = now;
  expiration_time = expires;
  pop_receipt = "pop-" ++ decimal id;
  dequeue_count = 0;
}

unfoldable pub send_message :
    Handler → (account name text now expires : String) → Handler × Response
send_message h account name text now expires =
    if Store.exists h.store (queue_key account name)
    then (let id = h.msg_id + 1 in
        let msg = queue_message (new_message id text now expires) in
        (
          record {
            store = Store.set h.store (msg_prefix account name ++ decimal id) msg;
            msg_id = id;
          },
          json_response 201 msg,
        ))
    else (h, not_found "StorageQueue" name)

unfoldable pub receive_messages : Handler → (account name : String) → Response
receive_messages h account name =
    if Store.exists h.store (queue_key account name)
    then list_response "messages" (Store.list_by_prefix h.store (msg_prefix account name))
    else not_found "StorageQueue" name

unfoldable pub clear_messages : Handler → (account name : String) → Handler × Response
clear_messages h account name =
    if Store.exists h.store (queue_key account name)
    then (
      record h { store = (Store.delete_by_prefix h.store (msg_prefix account name)).0 },
      status_only 204,
    )
    else (h, not_found "StorageQueue" name)
