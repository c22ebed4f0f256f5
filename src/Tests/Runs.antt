-- ===== src/Tests/Runs.antt =====
-- A run of the store's methods, and the services that a value of SERVICES leaves on.
use miniblue.Prelude.{String, ◌≡◌, refl, true, false, List, [], ◌∷◌, ◌==◌, ◌||◌}
use miniblue.Prelude.Lists.{contains}
use miniblue.Prelude.Split.{split}
use miniblue.Store.{Store}
use miniblue.Store.Contract.{
  Command, set_command, get_command, delete_by_prefix_command, set_if_not_exists_command,
  list_keys_by_prefix_command, count_by_prefix_command, Accepts,
}
use miniblue.Store.Refinement.{run, contents, filters, HasMap, run-refines, memory-HasMap}
use miniblue.Value.{Value, str}
use miniblue.Server.{setup_routes}
use miniblue.Server.Filter.{names_service, setup_routes-enabled}
use miniblue.Tests.{store_of}

abbrev commands : List (Command Value)
commands =
    set_command "rg:s:g" (str "g")
    ∷ set_if_not_exists_command "rg:s:g" (str "h")
    ∷ list_keys_by_prefix_command "rg:"
    ∷ count_by_prefix_command "vnet:"
    ∷ delete_by_prefix_command "rg:"
    ∷ get_command "rg:s:g"
    ∷ []

abbrev start : Store Value
start = store_of (("vnet:s:g:n", str "n") ∷ [])

start-HasMap : HasMap start
unfolding miniblue.Prelude.Assoc.lookup
start-HasMap = memory-HasMap _ (refl, tt)

run-refines_example :
    Accepts
      (filters start.backend)
      commands
      (contents start)
      (run commands start).1
      (contents (run commands start).0)
run-refines_example = run-refines commands start start-HasMap

setup_routes-enabled_example :
    (contains "network" (setup_routes "dns, network").services
      ≡ ("dns, network" == "" || names_service "network" (split b',' "dns, network")))
    × (contains "network" (setup_routes "dns, network").registered
        ≡ ("dns, network" == "" || names_service "network" (split b',' "dns, network")))
setup_routes-enabled_example = setup_routes-enabled "dns, network" "network" refl
