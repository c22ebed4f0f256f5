-- ===== src/CosmosDb.antt =====
-- internal/services/cosmosdb/handler.go: documents. The ARM resources are in `Arm`.
pub mod Arm
pub mod Documents
use miniblue.Prelude.{String, Option, none, some, ◌++◌, [], ◌∷◌, ◌==◌, if◌then◌else◌}
use miniblue.Prelude.Lists.{length}
use miniblue.Store
use miniblue.Store.{Store}
use miniblue.Value.{
  Value, Fields, int, str, obj, no_fields, dict, slice, lookup_field, set_field, string_or_empty,
}
use miniblue.Http.{Response, json_response, status_only, not_found, bad_request, conflict, found_or}

abbrev document_type : String
document_type = "Microsoft.DocumentDB/documents"

unfoldable pub key : (account db coll id : String) → String
unfolding ◌++◌
key account db coll id = "cosmos:" ++ account ++ ":" ++ db ++ ":" ++ coll ++ ":" ++ id

-- doc["id"], of a map that may be nil
pub document_id : Option Fields → String
unfolding lookup_field string_or_empty
document_id none = ""
document_id (some doc) = string_or_empty (lookup_field "id" doc)

-- a map that may be nil, as a value: a nil map has no id, and is never stored
pub document_value : Option Fields → Value
document_value none = obj no_fields
document_value (some doc) = obj doc

-- `doc`: what Decode leaves in the map, `none` for a nil map
unfoldable pub create_document :
    Store Value → (account db coll : String) → (doc : Option Fields) → Store Value × Response
unfolding document_id document_value
create_document s account db coll doc =
    let id = document_id doc in
    let k = key account db coll id in
    if id == ""
    then (s, bad_request "Document must contain an id property.")
    else if Store.exists s k
    then (s, conflict document_type id)
    else (Store.set s k (document_value doc), json_response 201 (document_value doc))

unfoldable pub get_document : Store Value → (account db coll id : String) → Response
get_document s account db coll id =
    found_or (not_found document_type id) (Store.get s (key account db coll id))

-- `doc["id"] = docId` panics, `none`, at a nil map
unfoldable pub replace_document :
    Store Value
    → (account db coll id : String) → (doc : Option Fields) → Store Value × Option Response
unfolding set_field
replace_document s account db coll id none = (s, none)
replace_document s account db coll id (some doc) =
    let replaced = obj (set_field "id" (str id) doc) in
    (Store.set s (key account db coll id) replaced, some (json_response 200 replaced))

unfoldable pub delete_document :
    Store Value → (account db coll id : String) → Store Value × Response
delete_document s account db coll id =
    ((Store.delete s (key account db coll id)).0, status_only 204)

unfoldable pub query_documents : Store Value → (account db coll : String) → Response
unfolding ◌++◌
query_documents s account db coll =
    let found = Store.list_by_prefix s ("cosmos:" ++ account ++ ":" ++ db ++ ":" ++ coll ++ ":") in
    json_response 200 (dict (("Documents", slice found) ∷ ("_count", int (length found)) ∷ []))
