-- ===== src/CosmosDb/Documents.antt =====
-- internal/services/cosmosdb/handler.go: what the handlers of documents leave in the store.
use miniblue.Prelude.{String, ◌≡◌, refl, ap, ◌∙◌, true, false, none, some, ◌==◌, eq_refl, is_some}
use miniblue.Store
use miniblue.Store.{Store}
use miniblue.Store.Laws.{get-set, exists-get}
use miniblue.Value.{Value, Fields, obj, str, lookup_field, set_field, string_or_empty}
use miniblue.Http.{json_response, conflict, write_error}
use miniblue.Arm.Properties.{lookup-set_field}
use miniblue.CosmosDb.{
  key, get_document, create_document, replace_document, document_id, document_value,
}

-- A replaced document is answered by a GET, and has the id of the URL whatever id its body has; a body
-- that decodes to a nil map makes the handler panic, and changes nothing.
pub get_document-replace_document :
    (s : Store Value) (account db coll id : String) (doc : Fields)
    → (get_document (replace_document s account db coll id (some doc)).0 account db coll id
        ≡ json_response 200 (obj (set_field "id" (str id) doc)))
      × (lookup_field "id" (set_field "id" (str id) doc) ≡ some (str id))
      × (replace_document s account db coll id none ≡ (s, none))
unfolding replace_document get_document
get_document-replace_document s account db coll id doc =
    let k = key account db coll id in
    let v = obj (set_field "id" (str id) doc) in
    (rw (get-set s k k v, eq_refl k) refl, lookup-set_field "id" "id" (str id) doc, refl)

-- A document that was created is there under its id, and a second POST with this id gets a 409 and
-- leaves the store as it is, where the id is not empty and was free.
pub create_document-conflict :
    (s : Store Value) (account db coll id : String) (doc doc' : Fields)
    → lookup_field "id" doc ≡ some (str id)
    → lookup_field "id" doc' ≡ some (str id)
    → (id == "") ≡ false
    → Store.exists s (key account db coll id) ≡ false
    → (get_document (create_document s account db coll (some doc)).0 account db coll id
        ≡ json_response 200 (obj doc))
      × ((create_document
            (create_document s account db coll (some doc)).0
            account
            db
            coll
            (some doc')).0
          ≡ (create_document s account db coll (some doc)).0)
      × ((create_document
            (create_document s account db coll (some doc)).0
            account
            db
            coll
            (some doc')).1.status
          ≡ 409)
unfolding create_document get_document document_id document_value conflict write_error
    string_or_empty
create_document-conflict s account db coll id doc doc' h h' named fresh =
    let k = key account db coll id in
    let held : Store.get (Store.set s k (obj doc)) k ≡ some (obj doc) =
      rw (get-set s k k (obj doc), eq_refl k) refl in
    let there : Store.exists (Store.set s k (obj doc)) k ≡ true =
      exists-get (Store.set s k (obj doc)) k ∙ ap is_some held in
    rw (h, h', named, fresh, held, there) (refl, refl, refl)
