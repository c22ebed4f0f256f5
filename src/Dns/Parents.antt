-- ===== src/Dns/Parents.antt =====
-- Runs of the handlers of internal/services/dns/handler.go: no record set without its zone.
use miniblue.Prelude.{String, ◌≡◌, refl, true, is_some, ◌++◌, arith, eq_refl, Bool-cases, inl, inr}
use miniblue.Prelude.Text.{NoColon}
use miniblue.Store
use miniblue.Store.{Store}
use miniblue.Store.Laws.{get-set}
use miniblue.Value.{Value, Fields}
use miniblue.Arm.Family
use miniblue.Dns.{
  zone_key, record_prefix, record_key, create_or_update_zone, delete_zone, add_default_records,
  create_or_update_record_set, delete_record_set,
}

-- What is stored under the records of a zone has that zone in the store.
abbrev HasZone : Store Value → Type 0
HasZone = Family.HasParents "dns:zone:" "dns:record:" refl refl

-- One request that changes the store; names in URLs have no colon.
pub data Step : Store Value → Store Value → Type 0 where
  put_zone :
      (s : Store Value) (sub rg name : String) (tags : Fields)
      → NoColon sub
      → NoColon rg
      → NoColon name
      → Step s (create_or_update_zone s sub rg name tags).0
  remove_zone :
      (s : Store Value) (sub rg name : String)
      → NoColon sub
      → NoColon rg
      → Step s (delete_zone s sub rg name).0
  put_record_set :
      (s : Store Value) (sub rg zone record_type name : String) (raw : Fields)
      → NoColon sub
      → NoColon rg
      → NoColon zone
      → Step s (create_or_update_record_set s sub rg zone record_type name raw).0
  remove_record_set :
      (s : Store Value) (sub rg zone record_type name : String)
      → Step s (delete_record_set s sub rg zone record_type name).0

pub data Reach (s : Store Value) : Store Value → Type 0 where
  here : Reach s s
  next : {t u : Store Value} → Reach s t → Step t u → Reach s u

set_zone :
    (s : Store Value) (sub rg name : String) (v : Value)
    → HasZone s
    → HasZone (Store.set s (zone_key sub rg name) v)
unfolding zone_key
set_zone s sub rg name v h =
    Family.set_parent-HasParents "dns:zone:" "dns:record:" refl refl s sub rg name v h

set_record :
    (s : Store Value) (sub rg zone type name : String) (v : Value)
    → NoColon sub
    → NoColon rg
    → NoColon zone
    → is_some (Store.get s (zone_key sub rg zone)) ≡ true
    → HasZone s
    → HasZone (Store.set s (record_key sub rg zone type name) v)
unfolding zone_key record_key
set_record s sub rg zone type name v ns nr nz there h =
    Family.set_child-HasParents "dns:zone:" "dns:record:" refl refl s sub rg zone
      (type ++ ":" ++ name) v ns nr nz there h

-- a zone stays when another key is set
zone_there :
    (s : Store Value) (k j : String) (v : Value)
    → is_some (Store.get s j) ≡ true
    → is_some (Store.get (Store.set s k v) j) ≡ true
zone_there s k j v h = ground (arith, get-set s k j v, h)

put_zone-HasZone :
    (s : Store Value) (sub rg name : String) (tags : Fields)
    → NoColon sub
    → NoColon rg
    → NoColon name
    → HasZone s
    → HasZone (create_or_update_zone s sub rg name tags).0
unfolding create_or_update_zone add_default_records
put_zone-HasZone s sub rg name tags ns nr nn h =
    let k = zone_key sub rg name in
    let with_zone = set_zone s sub rg name _ h in
    let there : is_some (Store.get (Store.set s k _) k) ≡ true =
      rw (get-set s k k _, eq_refl k) refl in
    elim (Bool-cases (is_some (Store.get s k))) [
      | inl e ↦ rw e with_zone
      | inr e ↦ rw e (
          set_zone _ sub rg name _ (
            set_record _ sub rg name "NS" "@" _ ns nr nn (zone_there _ _ k _ there)
              (set_record _ sub rg name "SOA" "@" _ ns nr nn there with_zone)))
    ]

Step-HasZone : {s t : Store Value} → Step s t → HasZone s → HasZone t
unfolding create_or_update_record_set delete_record_set delete_zone zone_key record_key
    record_prefix ◌++◌
Step-HasZone (put_zone s sub rg name tags ns nr nn) h =
    put_zone-HasZone s sub rg name tags ns nr nn h
Step-HasZone (remove_zone s sub rg name ns nr) h =
    Family.remove_family-HasParents "dns:zone:" "dns:record:" refl refl s sub rg name _ _ ns nr h
Step-HasZone (put_record_set s sub rg zone type name raw ns nr nz) h =
    Family.put_child-HasParents "dns:zone:" "dns:record:" refl refl s sub rg zone
      (type ++ ":" ++ name) _ _ ns nr nz h
Step-HasZone (remove_record_set s sub rg zone type name) h =
    Family.remove_child-HasParents "dns:zone:" "dns:record:" refl refl s sub rg zone
      (type ++ ":" ++ name) _ _ h

Reach-HasZone : {s t : Store Value} → Reach s t → HasZone s → HasZone t
Reach-HasZone here h = h
Reach-HasZone (next r st) h = Step-HasZone st (Reach-HasZone r h)

-- After any requests to the handlers of DNS, from an empty store on, a record set that is there has
-- its zone there, if the names in the URLs have no colon.
pub record_has_zone :
    (s : Store Value) (sub rg zone record_type name : String)
    → Reach Store.new s
    → NoColon sub
    → NoColon rg
    → NoColon zone
    → is_some (Store.get s (record_key sub rg zone record_type name)) ≡ true
    → is_some (Store.get s (zone_key sub rg zone)) ≡ true
unfolding zone_key record_key
record_has_zone s sub rg zone type name r ns nr nz there =
    Reach-HasZone r (Family.new-HasParents "dns:zone:" "dns:record:" refl refl) sub rg zone
      (type ++ ":" ++ name) ns nr nz there
