-- ===== src/Config/Export.antt =====
-- src/whz_config.cpp: `createJSON_config`.
use work_horz.Base.{
  Bool, true, false, List, [], ◌∷◌, Option, none, some, ◌≡◌, refl, if◌then◌else◌, Bytes, map, arith,
}
use work_horz.Config.{Config, initial, get_config_value}
use work_horz.Config.Store.{uint64_or}
use work_horz.Config.Parameter.{ConfigParameter, server_http_port, keys}
use work_horz.Config.Read.{Loaded, Loaded-induction}
use work_horz.Config.Lookup.{converted}
use work_horz.Config.Values.{Json, cast_string}

-- `returned` has the file that was written, if one could be opened.
pub data ExportResult : Type 0 where
  returned : Bool → Option Bytes → ExportResult
  bad_any_cast : ExportResult

-- The enumerators from `SERVER_HTTP_PORT` to `LOG_PATH`, in their order, which is that of the keys.
abbrev parameters : List ConfigParameter
parameters = map (λ (k : Bytes × ConfigParameter). k.1) keys

-- The loop: each value is cast to a std::string; the lookup that follows changes nothing.
cast_all : Config → List ConfigParameter → Option (Unit {0})
cast_all c [] = some tt
cast_all c (p ∷ ps) = elim (cast_string (get_config_value c p)) [
  | none ↦ none
  | some name ↦ cast_all c ps
]

-- `can_open` says whether the output file can be opened; `text` is what the JSON library prints.
pub create_json_config : (Bytes → Bool) → Bytes → Config → Bytes → ExportResult
unfolding cast_all
create_json_config can_open text c output_filepath = elim (cast_all c parameters) [
  | none ↦ bad_any_cast
  | some done ↦ if can_open output_filepath then returned true (some text) else returned false none
]

module _ (json : Json) where
  port-not-string :
      {c : Config} → Loaded json c → cast_string (get_config_value c server_http_port) ≡ none
  unfolding cast_string
  port-not-string =
      Loaded-induction json (λ v. cast_string v ≡ none) server_http_port
        (unfold get_config_value initial in refl)
        (λ value. unfold converted uint64_or in ground arith)

  -- On a configuration that comes from the initial one by reading any files, the export ends
  -- with bad_any_cast, whatever the output file.
  create_json_config-throws :
      {c : Config} (can_open : Bytes → Bool) (text output_filepath : Bytes)
      → Loaded json c
      → create_json_config can_open text c output_filepath ≡ bad_any_cast
  unfolding create_json_config
  create_json_config-throws can_open text output_filepath v =
      rw (port-not-string v, create_json_config)
