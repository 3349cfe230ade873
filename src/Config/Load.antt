-- ===== src/Config/Load.antt =====
-- internal/config/config.go: LoadWithProfile.
use mathlib.Core.List.{reverse}
use soroprobe.Prelude.{
  Bool, true, false, ◌||◌, Option, none, some, List, [], ◌∷◌, if◌then◌else◌, Text, text, text_eq,
  is_empty, ◌==◌, Result, ok, err,
}
use soroprobe.Prelude.Outcome.{◌>>=◌}
use soroprobe.Prelude.Strings.{to_lower}
use soroprobe.Config.{
  Config, default_config, FileValues, FileConfig, file_config, Profiles, no_profiles, profile,
  null_profile, ConfigError, parse_file, no_file_for_profile, file_not_found, unknown_profile,
  not_exist, cannot_read, DecodeFailure, end_of_file, malformed, Surroundings,
}
use soroprobe.Config.Apply.{apply_values, apply_env}
use soroprobe.Probe.Spread.{sort_strings}

abbrev pub candidate_files : List Text
candidate_files = text "soroprobe.json" ∷ text "soroprobe.yaml" ∷ text "soroprobe.yml" ∷ []

-- filepath.Ext, on the name read backwards: what stands behind the last dot of the last element
unfoldable pub ext_from : Text → Text → Text
ext_from found [] = []
ext_from found (c ∷ s) =
    let rest = ext_from (c ∷ found) s in
    if c == b'/' then [] else if c == b'.' then c ∷ found else rest

unfoldable pub ext : Text → Text
unfolding ext_from
ext path = ext_from [] (reverse path)

unfoldable pub find_profile : Text → Profiles → Option FileValues
find_profile name no_profiles = none
find_profile name (profile n (file_config v inner) ps) =
    if text_eq n name then some v else find_profile name ps
find_profile name (null_profile n ps) = if text_eq n name then none else find_profile name ps

unfoldable pub profile_names : Profiles → List Text
profile_names no_profiles = []
profile_names (profile n f ps) = n ∷ profile_names ps
profile_names (null_profile n ps) = n ∷ profile_names ps

unfoldable pub first_existing : (Text → Bool) → List Text → Option Text
first_existing exists [] = none
first_existing exists (c ∷ cs) = if exists c then some c else first_existing exists cs

-- os.Getenv
unfoldable pub getenv_or_empty : Option Text → Text
getenv_or_empty none = []
getenv_or_empty (some v) = v

module _ (u : Surroundings) where
  unfoldable pub decoded : Text → FileConfig × Option DecodeFailure → Result ConfigError FileConfig
  decoded path (f, none) = ok f
  decoded path (f, some end_of_file) = ok f
  decoded path (f, some (malformed e)) = err (parse_file path e)

  -- unmarshalConfigFile
  unfoldable pub unmarshal_config_file : Text → Text → Result ConfigError FileConfig
  unmarshal_config_file path raw =
      let e = to_lower (ext path) in
      if text_eq e (text ".yaml") || text_eq e (text ".yml")
      then decoded path (u.decode_yaml raw)
      else decoded path (u.decode_json raw)

  -- the second part of applyFileWithProfile
  unfoldable pub apply_profile : Text → Text → Profiles → Config → Result ConfigError Config
  apply_profile path name ps c = if is_empty name then ok c else elim (find_profile name ps) [
    | none ↦ err (unknown_profile name path (sort_strings (profile_names ps)))
    | some v ↦ apply_values u.parsers c path v
  ]

  unfoldable pub apply_file : Text → Text → Config → FileConfig → Result ConfigError Config
  apply_file path name c (file_config v ps) =
      apply_values u.parsers c path v >>= apply_profile path name ps

  -- applyFileWithProfile
  unfoldable pub apply_file_with_profile : Config → Text → Bool → Text → Result ConfigError Config
  apply_file_with_profile c path required name = elim (u.read path) [
    | err (not_exist e) ↦
        if required
        then err (ConfigError.read_file path e)
        else if is_empty name
        then ok c
        else err (file_not_found name path e)
    | err (cannot_read e) ↦ err (ConfigError.read_file path e)
    | ok raw ↦ unmarshal_config_file path raw >>= apply_file path name c
  ]

  -- LoadWithProfile after the search: a path, and whether it was asked for
  unfoldable pub load_from : Text → Option (Text × Bool) → Result ConfigError Config
  load_from name none =
      if is_empty name
      then apply_env u.parsers u.getenv (default_config u.test_network)
      else err (no_file_for_profile name)
  load_from name (some (path, explicit)) =
      apply_file_with_profile (default_config u.test_network) path explicit name
      >>= apply_env u.parsers u.getenv

  unfoldable pub implicit_path : Option Text → Option (Text × Bool)
  implicit_path none = none
  implicit_path (some path) = some (path, false)

  unfoldable pub find_path : Text → Option (Text × Bool)
  find_path path =
      let from_env = getenv_or_empty (u.getenv (text "SOROPROBE_CONFIG")) in
      if is_empty path
      then if is_empty from_env
        then implicit_path (first_existing u.exists candidate_files)
        else some (from_env, true)
      else some (path, true)

  unfoldable pub profile_name : Text → Text
  profile_name name =
      if is_empty name then getenv_or_empty (u.getenv (text "SOROPROBE_PROFILE")) else name

  unfoldable pub load_with_profile : Text → Text → Result ConfigError Config
  load_with_profile path name = load_from (profile_name name) (find_path path)
