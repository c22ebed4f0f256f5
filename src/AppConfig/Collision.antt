-- ===== src/AppConfig/Collision.antt =====
-- The keys of key-values and of ARM resources in internal/services/appconfig/handler.go.
use miniblue.Prelude.{String, ◌≡◌, refl, ◌++◌, eq_refl}
use miniblue.Store.{Store}
use miniblue.Store.Laws.{get-set}
use miniblue.Value.{Value, KeyValue, key_value}
use miniblue.Http.{json_response}
use miniblue.AppConfig.{
  kv_key, completed, set_key_value, get_key_value, store_arm_key, build_store_response,
  create_or_update_store, get_store,
}

same_key :
    (sub rg name : String)
    → kv_key "store" (sub ++ ":" ++ rg ++ ":" ++ name) ≡ store_arm_key sub rg name
unfolding kv_key store_arm_key
same_key sub rg name = refl

module _ (s : Store Value) (sub rg name : String) where
  -- A PUT of the key `sub:rg:name` into the configuration store named `store` replaces the ARM
  -- resource of the store `name`: a GET of that resource answers the key-value. And a GET of that
  -- key after a PUT of the resource answers the resource.
  pub arm_store_collides :
      (now : String) (input : KeyValue)
      → let key = sub ++ ":" ++ rg ++ ":" ++ name in
        (get_store (set_key_value s "store" key now input).0 sub rg name
          ≡ json_response 200 (key_value (completed key now input)))
        × (get_key_value (create_or_update_store s sub rg name).0 "store" key
            ≡ json_response 200 (build_store_response sub rg name))
  unfolding get_store set_key_value get_key_value create_or_update_store
  arm_store_collides now input =
      let k = store_arm_key sub rg name in
      (
        rw (
          same_key sub rg name,
          get-set s k k (key_value (completed (sub ++ ":" ++ rg ++ ":" ++ name) now input)),
          eq_refl k,
        ),
        rw (same_key sub rg name, get-set s k k (build_store_response sub rg name), eq_refl k),
      )
