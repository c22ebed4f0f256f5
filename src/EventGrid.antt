-- ===== src/EventGrid.antt =====
-- internal/services/eventgrid/handler.go
use miniblue.Prelude.{String, ◌++◌, [], ◌∷◌, is_some, if◌then◌else◌}
use miniblue.Store
use miniblue.Store.{Store}
use miniblue.Value.{Value, Topic, topic, str, dict}
use miniblue.Http.{
  Response, Decoded, failed, decoded, json_response, status_only, list_response, not_found,
  bad_request, found_or, created_or_updated,
}

unfoldable pub topic_key : (sub rg name : String) → String
unfolding ◌++◌
topic_key sub rg name = "eg:topic:" ++ sub ++ ":" ++ rg ++ ":" ++ name

-- `input`: what Decode leaves in the topic
unfoldable pub completed_topic : (sub rg name : String) → Topic → Topic
unfolding ◌++◌
completed_topic sub rg name input = record input {
  id =
      "/subscriptions/" ++ sub ++ "/resourceGroups/" ++ rg
      ++ "/providers/Microsoft.EventGrid/topics/" ++ name;
  name = name;
  type = "Microsoft.EventGrid/topics";
  provisioning_state = "Succeeded";
  endpoint = "https://" ++ name ++ ".eastus-1.eventgrid.azure.net/api/events";
}

unfoldable pub create_or_update_topic :
    Store Value → (sub rg name : String) → Topic → Store Value × Response
create_or_update_topic s sub rg name input =
    let made = topic (completed_topic sub rg name input) in
    let k = topic_key sub rg name in
    (Store.set s k made, created_or_updated (is_some (Store.get s k)) made)

unfoldable pub get_topic : Store Value → (sub rg name : String) → Response
get_topic s sub rg name =
    found_or (not_found "Microsoft.EventGrid/topics" name) (Store.get s (topic_key sub rg name))

unfoldable pub delete_topic : Store Value → (sub rg name : String) → Store Value × Response
delete_topic s sub rg name =
    let (s', found) = Store.delete s (topic_key sub rg name) in
    if found then (s', status_only 202) else (s', not_found "Microsoft.EventGrid/topics" name)

unfoldable pub list_topics : Store Value → (sub rg : String) → Response
unfolding ◌++◌
list_topics s sub rg =
    list_response "value" (Store.list_by_prefix s ("eg:topic:" ++ sub ++ ":" ++ rg ++ ":"))

unfoldable pub list_keys : Store Value → (sub rg name : String) → Response
list_keys s sub rg name =
    if Store.exists s (topic_key sub rg name)
    then json_response 200 (
        dict
          (("key1", str "miniblue-eventgrid-key1") ∷ ("key2", str "miniblue-eventgrid-key2") ∷ []))
    else not_found "Microsoft.EventGrid/topics" name

unfoldable pub publish_events {ℓ} : {A : Type ℓ} → Decoded A → Response
unfolding ◌++◌
publish_events (failed error) = bad_request ("Invalid event payload: " ++ error)
publish_events (decoded events) = status_only 200
