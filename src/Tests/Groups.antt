-- ===== src/Tests/Groups.antt =====
-- A store with two resource groups, and the ARM resources of App Configuration.
use miniblue.Prelude.{◌≡◌, refl, arith, true, false, none, some, [], ◌∷◌, ◌++◌}
use miniblue.Prelude.Text.{NoColon}
use miniblue.Store
use miniblue.Store.{Store}
use miniblue.Store.File.{Codec, Disk}
use miniblue.Value.{Value, KeyValue, str, key_value, resource_group}
use miniblue.Http.{json_response}
use miniblue.Http.Recover.{safe_recover}
use miniblue.ResourceGroups.{Connection, Input, key, new_group, delete, update}
use miniblue.ResourceGroups.Deletion.{resource_key, delete_removes, delete_keeps_others}
use miniblue.ResourceGroups.Lifecycle.{restarted, update_after_restart}
use miniblue.AppConfig.{
  completed, set_key_value, get_key_value, build_store_response, create_or_update_store, get_store,
}
use miniblue.AppConfig.Collision.{arm_store_collides}
use miniblue.Tests.{store_of, apart}

abbrev eastus : Input
eastus = record { location = "eastus"; tags = none }

abbrev local : Connection
local = record { tls = false; host = "localhost:4566" }

abbrev groups : Store Value
groups = store_of (
    ("rg:s1:g1", resource_group (new_group "s1" "g1" eastus))
    ∷ ("rg:s1:g2", resource_group (new_group "s1" "g2" eastus))
    ∷ ("vnet:s1:g1:net", str "net")
    ∷ ("vnet:s1:g2:net", str "net")
    ∷ ("containerapp:s1:g1:web", str "web")
    ∷ [])

group_there : Store.exists groups (key "s1" "g1") ≡ true
unfolding Store.exists key
group_there = refl

s1-NoColon : NoColon "s1"
s1-NoColon = (omega arith, (omega arith, tt))

g1-NoColon : NoColon "g1"
g1-NoColon = (omega arith, (omega arith, tt))

g2-NoColon : NoColon "g2"
g2-NoColon = (omega arith, (omega arith, tt))

delete_removes_example :
    Store.get
      (delete true local groups "s1" "g1").0
      ("vnet:" ++ ("s1" ++ ":" ++ "g1" ++ ":") ++ "net")
    ≡ none
delete_removes_example = delete_removes true local groups "s1" "g1" "vnet:" "net" refl group_there

delete_keeps_others_example :
    Store.get (delete true local groups "s1" "g1").0 (resource_key "vnet:" "s1" "g2" "net")
    ≡ Store.get groups (resource_key "vnet:" "s1" "g2" "net")
delete_keeps_others_example =
    delete_keeps_others true local groups "s1" "g1" "vnet:" "s1" "g2" "net" refl s1-NoColon
      g1-NoColon s1-NoColon g2-NoColon (λ p. apart "g2" "g1" refl p.1)

-- a codec that reads one group, as a text
abbrev one_group : Codec Value
one_group = record {
  marshal = λ m. none;
  unmarshal = λ bytes. some (("rg:s1:g1", bytes) ∷ []);
  decode = λ raw. str raw;
}

abbrev saved : Disk
saved path = some "{}"

restored_there : Store.exists (restarted one_group saved "state.json") (key "s1" "g1") ≡ true
unfolding Store.exists key miniblue.Store.File.new_file miniblue.Store.Memory.set
    miniblue.Store.Memory.new
restored_there = refl

update_after_restart_example :
    (safe_recover (update (restarted one_group saved "state.json") "s1" "g1" none).1).status ≡ 500
update_after_restart_example =
    update_after_restart one_group saved "state.json" "s1" "g1" none (λ raw. tt) restored_there

abbrev setting : KeyValue
setting = record {
  key = "";
  value = "on";
  label = "";
  content_type = "";
  last_modified = "";
  etag = "";
}

arm_store_collides_example :
    (get_store
        (set_key_value groups "store" ("s1" ++ ":" ++ "g1" ++ ":" ++ "cfg") "now" setting).0
        "s1"
        "g1"
        "cfg"
      ≡ json_response 200
          (key_value (completed ("s1" ++ ":" ++ "g1" ++ ":" ++ "cfg") "now" setting)))
    × (get_key_value
          (create_or_update_store groups "s1" "g1" "cfg").0
          "store"
          ("s1" ++ ":" ++ "g1" ++ ":" ++ "cfg")
        ≡ json_response 200 (build_store_response "s1" "g1" "cfg"))
arm_store_collides_example = arm_store_collides groups "s1" "g1" "cfg" "now" setting
