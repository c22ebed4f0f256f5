-- ===== src/Redis.antt =====
-- internal/services/redis/handler.go: caches. The URL in REDIS_URL, its parts as package net/url
-- finds them, and the answer of the TCP connection are arguments.
use miniblue.Prelude.{
  ℕ, String, Bool, true, Option, none, some, ◌++◌, [], ◌∷◌, ◌==◌, not, ◌&&◌, if◌then◌else◌,
}
use miniblue.Store
use miniblue.Store.{Store}
use miniblue.Value.{Value, bool, int, str, dict}
use miniblue.Http.{Response, write_error, json_response, not_found}
use miniblue.Arm.{resource_id, put_resource, get_resource, delete_resource, list_resources}

abbrev type : String
type = "Microsoft.Cache/redis"

unfoldable pub cache_key : (sub rg name : String) → String
unfolding ◌++◌
cache_key sub rg name = "redis:" ++ sub ++ ":" ++ rg ++ ":" ++ name

-- `redis_url`: REDIS_URL; `parsed`: the host name and the port that url.Parse finds, if it parses
pub record Environment : Type 0 where
  pub redis_url : String
  pub parsed : Option (String × String)
  pub reachable : Bool
  -- strconv.Atoi, and net.JoinHostPort
  pub atoi : String → Option ℕ
  pub join_host_port : String → String → String

or_default : (d s : String) → String
or_default d s = if s == "" then d else s

host_port_of : Option (String × String) → String × String
unfolding or_default
host_port_of none = ("localhost", "6379")
host_port_of (some (host, port)) = (or_default "localhost" host, or_default "6379" port)

unfoldable pub redis_host_port : Environment → String × String
unfolding host_port_of
redis_host_port env = if env.redis_url == "" then ("localhost", "6379") else host_port_of env.parsed

port_number : Option ℕ → ℕ
port_number none = 6379
port_number (some n) = n

unfoldable pub build_cache_response : Environment → (sub rg name host port : String) → Value
unfolding port_number
build_cache_response env sub rg name host port = dict (
    ("id", str (resource_id sub rg type name))
    ∷ ("name", str name)
    ∷ ("type", str type)
    ∷ ("location", str "eastus")
    ∷ (
      "properties",
      dict (
          ("provisioningState", str "Succeeded")
          ∷ ("hostName", str host)
          ∷ ("port", int (if port == "" then 6379 else port_number (env.atoi port)))
          ∷ ("sslPort", int 6380)
          ∷ ("redisVersion", str "7.2")
          ∷ ("sku", dict (("name", str "Basic") ∷ ("family", str "C") ∷ ("capacity", int 1) ∷ []))
          ∷ ("enableNonSslPort", bool true)
          ∷ ("publicNetworkAccess", str "Enabled")
          ∷ []),
    )
    ∷ [])

unfoldable pub create_or_update_cache :
    Environment → Store Value → (sub rg name : String) → Store Value × Response
unfolding put_resource redis_host_port ◌++◌
create_or_update_cache env s sub rg name =
    let (host, port) = redis_host_port env in
    if not (env.redis_url == "") && not env.reachable
    then (
      s,
      write_error 503 "RedisUnreachable"
          ("Cannot connect to Redis at " ++ env.join_host_port host port),
    )
    else put_resource s (cache_key sub rg name) (build_cache_response env sub rg name host port)

unfoldable pub get_cache : Store Value → (sub rg name : String) → Response
unfolding get_resource
get_cache s sub rg name = get_resource s (cache_key sub rg name) (not_found type name)

unfoldable pub delete_cache : Store Value → (sub rg name : String) → Store Value × Response
unfolding delete_resource
delete_cache s sub rg name = delete_resource s (cache_key sub rg name) (not_found type name) 200

unfoldable pub list_caches : Store Value → (sub rg : String) → Response
unfolding ◌++◌ list_resources
list_caches s sub rg = list_resources s ("redis:" ++ sub ++ ":" ++ rg ++ ":")

unfoldable pub list_keys : Store Value → (sub rg name : String) → Response
list_keys s sub rg name =
    if Store.exists s (cache_key sub rg name)
    then json_response 200 (
        dict (
          ("primaryKey", str "miniblue-redis-key")
          ∷ ("secondaryKey", str "miniblue-redis-key-2")
          ∷ []))
    else not_found type name
