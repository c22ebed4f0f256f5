-- ===== src/PublicIp/Addresses.antt =====
-- internal/services/publicip/handler.go: which address a public IP has.
use miniblue.Prelude.{ℕ, String, ◌≡◌, refl, false, some, ◌==◌}
use miniblue.Store
use miniblue.Store.{Store}
use miniblue.Value.{Value, Fields, str, lookup_field, string_or_empty}
use miniblue.Arm.{put_resource}
use miniblue.Arm.Properties.{shown, property}
use miniblue.PublicIp.{key, choose_ip, existing_ip, build_response, create_or_update}

existing-build_response :
    (sub rg name : String) (input : Fields) (ip : String)
    → existing_ip (some (build_response sub rg name input ip)) ≡ ip
unfolding existing_ip build_response lookup_field string_or_empty
existing-build_response sub rg name input ip = refl

-- A second PUT of a public IP that has an address keeps the address, and takes none from the counter,
-- whatever its body is.
pub create_or_update-keeps_ip :
    (n : ℕ) (s : Store Value) (sub rg name ip : String) (given input : Fields)
    → Store.get s (key sub rg name) ≡ some (build_response sub rg name given ip)
    → (ip == "") ≡ false
    → ((create_or_update n s sub rg name input).0 ≡ n)
      × (shown "ipAddress" (create_or_update n s sub rg name input).2 ≡ some (str ip))
unfolding create_or_update choose_ip put_resource shown property build_response lookup_field
create_or_update-keeps_ip n s sub rg name ip given input held named =
    rw (held, existing-build_response sub rg name given ip, named) (refl, refl)
