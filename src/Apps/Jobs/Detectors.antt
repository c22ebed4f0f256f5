-- ===== src/Apps/Jobs/Detectors.antt =====
-- internal/services/apps/jobs.go: the detectors of a job
use miniblue.Prelude.{String, ◌++◌, [], ◌∷◌}
use miniblue.Value.{int, str, maps, items, dict}
use miniblue.Http.{Response, json_response}
use miniblue.Arm.{resource_id}
use miniblue.Apps.Jobs.{type}

unfoldable pub get_detector : (sub rg name detector_name : String) → Response
unfolding ◌++◌
get_detector sub rg name detector_name = json_response 200 (
    dict (
      ("id", str (resource_id sub rg type (name ++ "/detectors/" ++ detector_name)))
      ∷ ("name", str detector_name)
      ∷ ("type", str "Microsoft.App/jobs/detectors")
      ∷ (
        "properties",
        dict (
            (
              "metadata",
              dict (
                  ("id", str detector_name)
                  ∷ ("name", str detector_name)
                  ∷ ("description", str "Detector data for Container App Job")
                  ∷ ("author", str "")
                  ∷ ("category", str "Availability and Performance")
                  ∷ ("type", str "Detector")
                  ∷ ("score", int 0)
                  ∷ []),
            )
            ∷ ("status", dict (("statusId", int 3) ∷ []))
            ∷ []),
      )
      ∷ []))

unfoldable pub list_detectors : (sub rg name : String) → Response
unfolding ◌++◌
list_detectors sub rg name = json_response 200 (
    dict (
      (
        "value",
        maps (
            items (
              dict (
                (
                  "id",
                  str (resource_id sub rg type (name ++ "/detectors/containerappjobnetworkIO")),
                )
                ∷ ("name", str "containerappjobnetworkIO")
                ∷ ("type", str "Microsoft.App/jobs/detectors")
                ∷ [])
              ∷ [])),
      )
      ∷ []))
