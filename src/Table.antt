-- ===== src/Table.antt =====
-- internal/services/table/handler.go
use miniblue.Prelude.{String, ◌++◌}
use miniblue.Store
use miniblue.Store.{Store}
use miniblue.Value.{Value, Fields, entity}
use miniblue.Http.{Response, status_only, list_response, not_found, found_or}

unfoldable pub key : (account table pk rk : String) → String
unfolding ◌++◌
key account table pk rk = "table:" ++ account ++ ":" ++ table ++ ":" ++ pk ++ ":" ++ rk

unfoldable pub create_table : Response
create_table = status_only 201

unfoldable pub delete_table : Store Value → (account table : String) → Store Value × Response
delete_table s account table = (s, status_only 204)

-- `properties`: what Decode leaves in the entity; its two keys are overwritten
unfoldable pub upsert_entity :
    Store Value → (account table pk rk : String) (properties : Fields) → Store Value × Response
upsert_entity s account table pk rk properties =
    (Store.set s (key account table pk rk) (entity pk rk properties), status_only 204)

unfoldable pub get_entity : Store Value → (account table pk rk : String) → Response
get_entity s account table pk rk =
    found_or (not_found "TableStorage/entity" rk) (Store.get s (key account table pk rk))

unfoldable pub delete_entity : Store Value → (account table pk rk : String) → Store Value × Response
delete_entity s account table pk rk =
    ((Store.delete s (key account table pk rk)).0, status_only 204)

unfoldable pub query_entities : Store Value → (account table : String) → Response
unfolding ◌++◌
query_entities s account table =
    list_response "value" (Store.list_by_prefix s ("table:" ++ account ++ ":" ++ table ++ ":"))
