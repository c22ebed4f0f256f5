-- ===== src/Tests/Secrets.antt =====
-- A vault with two secrets, and a namespace with its queues.
use miniblue.Prelude.{◌≡◌, refl, true, [], ◌∷◌, ◌++◌}
use miniblue.Store
use miniblue.Store.{Store}
use miniblue.Value.{Value, secret, str}
use miniblue.KeyVault.{new_secret}
use miniblue.ServiceBus.Arm.{namespace_key, delete_namespace, get_queue_arm, get_topic_arm}
use miniblue.ServiceBus.Namespace.{delete_namespace_leaves_children}
use miniblue.Tests.{store_of}

abbrev vault : Store Value
vault = store_of (
    ("kv:v:a", secret (new_secret "v" "a" "hunter2" "t0" "t0"))
    ∷ ("kv:v:b", secret (new_secret "v" "b" "swordfish" "t0" "t0"))
    ∷ [])

abbrev bus : Store Value
bus = store_of (
    ("sb:namespace:s1:g1:n", str "namespace")
    ∷ ("sb:queue:n:q", str "queue")
    ∷ ("sb:armqueue:s1:g1:n:q", str "queue")
    ∷ ("sb:msg:n:q:0000000001", str "message")
    ∷ [])

namespace_there : Store.exists bus (namespace_key "s1" "g1" "n") ≡ true
unfolding Store.exists namespace_key
namespace_there = refl

delete_namespace_leaves_children_example :
    (get_queue_arm (delete_namespace bus "s1" "g1" "n").0 "s1" "g1" "n" "q"
      ≡ get_queue_arm bus "s1" "g1" "n" "q")
    × (get_topic_arm (delete_namespace bus "s1" "g1" "n").0 "s1" "g1" "n" "q"
        ≡ get_topic_arm bus "s1" "g1" "n" "q")
    × (Store.get (delete_namespace bus "s1" "g1" "n").0 ("sb:msg:" ++ "n:q:0000000001")
        ≡ Store.get bus ("sb:msg:" ++ "n:q:0000000001"))
delete_namespace_leaves_children_example =
    delete_namespace_leaves_children bus "s1" "g1" "n" "q" "n:q:0000000001"
