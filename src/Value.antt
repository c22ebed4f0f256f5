-- ===== src/Value.antt =====
-- What the handlers keep in the store and send to clients: Go's `interface{}`, at the types that
-- this program puts into it. A Go map is its list of fields, a nil map is `none`. A float64 is
-- `number`, at the text that encoding/json writes for it, a []map[string]interface{} is `maps`, and a
-- json.RawMessage is the value that it encodes.
use miniblue.Prelude.{ℕ, String, Bool, Option, none, some, List, [], ◌∷◌, ◌==◌, if◌then◌else◌}
use miniblue.Prelude.Assoc.{Assoc}

-- map[string]string; `none` is the nil map
abbrev pub Tags : Type 0
Tags = Option (Assoc String)

-- services/resourcegroups
pub record ResourceGroup : Type 0 where
  pub id : String
  pub name : String
  pub type : String
  pub location : String
  pub tags : Tags
  pub provisioning_state : String

-- services/keyvault
pub record Secret : Type 0 where
  pub id : String
  pub value : String
  pub attributes : Assoc String

-- services/queue
pub record QueueMessage : Type 0 where
  pub message_id : String
  pub message_text : String
  pub insertion_time : String
  pub expiration_time : String
  pub pop_receipt : String
  pub dequeue_count : ℕ

-- services/servicebus
pub record QueueProps : Type 0 where
  pub status : String
  pub message_count : ℕ
  pub max_delivery_count : ℕ
  pub default_message_ttl : String
  pub lock_duration : String
  pub created_at : String

pub record BusQueue : Type 0 where
  pub name : String
  pub properties : QueueProps

pub record BusMessage : Type 0 where
  pub message_id : String
  pub body : String
  pub enqueued_time : String

-- services/eventgrid
pub record Topic : Type 0 where
  pub id : String
  pub name : String
  pub type : String
  pub location : String
  pub provisioning_state : String
  pub endpoint : String

-- services/functions
pub record FunctionApp : Type 0 where
  pub id : String
  pub name : String
  pub type : String
  pub location : String
  pub kind : String
  pub provisioning_state : String
  pub default_host_name : String
  pub state : String
  pub enabled : Bool

-- services/appconfig
pub record KeyValue : Type 0 where
  pub key : String
  pub value : String
  pub label : String
  pub content_type : String
  pub last_modified : String
  pub etag : String

-- services/blob
pub record Container : Type 0 where
  pub name : String
  pub properties : Assoc String

pub record Blob : Type 0 where
  pub name : String
  pub properties : Assoc String
  pub content : List ℕ

-- services/acr; the fields of its two inner structs stand in it
pub record Registry : Type 0 where
  pub id : String
  pub name : String
  pub type : String
  pub location : String
  pub sku_name : String
  pub sku_tier : String
  pub login_server : String
  pub provisioning_state : String
  pub admin_user_enabled : Bool
  pub creation_date : String

-- services/dbpostgres; the fields of the inner structs stand in it
pub record FlexibleServer : Type 0 where
  pub id : String
  pub name : String
  pub type : String
  pub location : String
  pub fqdn : String
  pub state : String
  pub version : String
  pub administrator_login : String
  pub storage_size_gb : ℕ
  pub backup_retention_days : ℕ
  pub public_network_access : String
  pub high_availability_mode : String
  pub sku_name : String
  pub sku_tier : String

pub record Database : Type 0 where
  pub id : String
  pub name : String
  pub type : String
  pub charset : String
  pub collation : String

-- azerr
pub record AzureErrorDetail : Type 0 where
  pub code : String
  pub message : String

mutual
  pub data Value : Type 0 where
    nil : Value
    bool : Bool → Value
    int : ℕ → Value
    number : String → Value
    str : String → Value
    array : Items → Value
    maps : Items → Value
    obj : Fields → Value
    resource_group : ResourceGroup → Value
    secret : Secret → Value
    queue_message : QueueMessage → Value
    bus_queue : BusQueue → Value
    bus_message : BusMessage → Value
    topic : Topic → Value
    function_app : FunctionApp → Value
    key_value : KeyValue → Value
    entity : (partition_key row_key : String) → Fields → Value
    container : Container → Value
    blob : Blob → Value
    azure_error : AzureErrorDetail → Value
    registry : Registry → Value
    flexible_server : FlexibleServer → Value
    database : Database → Value
    zone :
        (id name location : String) (tags : Fields) (number_of_record_sets : ℕ)
        (name_servers : Items)
        → Value
    record_set : (id name type : String) (properties : Value) → Value

  pub data Items : Type 0 where
    no_items : Items
    item : Value → Items → Items

  pub data Fields : Type 0 where
    no_fields : Fields
    field : String → Value → Fields → Fields

abbrev pub items : List Value → Items
items [] = no_items
items (v ∷ vs) = item v (items vs)

abbrev pub fields : List (String × Value) → Fields
fields [] = no_fields
fields ((k, v) ∷ kvs) = field k v (fields kvs)

-- []interface{}{ … } and map[string]interface{}{ … }
abbrev pub slice : List Value → Value
slice vs = array (items vs)

abbrev pub dict : List (String × Value) → Value
dict kvs = obj (fields kvs)

-- m[k] on a map[string]interface{}
unfoldable pub lookup_field : String → Fields → Option Value
lookup_field k no_fields = none
lookup_field k (field j v rest) = if j == k then some v else lookup_field k rest

-- v.(map[string]interface{})
unfoldable pub as_object : Value → Option Fields
as_object (obj fs) = some fs
as_object _ = none

-- `s, _ := v.(string)`: the zero value if the type is another
unfoldable pub string_or_empty : Option Value → String
string_or_empty (some (str s)) = s
string_or_empty (some v) = ""
string_or_empty none = ""

-- m[k] = v on a map[string]interface{}
unfoldable pub set_field : String → Value → Fields → Fields
set_field k v no_fields = field k v no_fields
set_field k v (field j w rest) = if j == k then field k v rest else field j w (set_field k v rest)
