-- ===== src/Tests/Config.antt =====
-- A configuration that a file and the environment give.
use soroprobe.Prelude.{
  ◌≡◌, ◌↔◌, refl, true, Option, none, some, [], if◌then◌else◌, Text, text, text_eq, ok, err,
}
use soroprobe.Prelude.Int.{pos}
use soroprobe.Config.{
  Config, FileValues, file_config, no_profiles, Surroundings, default_config, end_of_file,
  lookup_env, set_value, set_parsed,
}
use soroprobe.Config.Load.{
  load_from, find_path, getenv_or_empty, implicit_path, first_existing, apply_file_with_profile,
  unmarshal_config_file, ext, ext_from, decoded, apply_file, apply_profile, profile_name,
  load_with_profile, find_profile,
}
use soroprobe.Config.Apply.{
  apply_values, apply_env, apply_override_fields, apply_plain, apply_threshold_override_env,
  env_addresses, env_durations, env_limits, env_texts, env_thresholds, from_env, made,
  override_step, set_origins, set_override, set_side,
}
use soroprobe.Prelude.Strings.{to_lower}
use soroprobe.Config.Validate.{validate}
use soroprobe.Config.Sources.{nothing_set, file_settings, Loaded}
use soroprobe.Config.Precedence.{load_with_profile-precedence}
use soroprobe.Config.Usable.{IsUsable, validate_iff}

abbrev variables : Text → Option Text
variables k =
    if text_eq k (text "RPC_URL")
    then some (text "https://env")
    else if text_eq k (text "DATA_WARN_LEDGERS")
    then some (text "9")
    else none

abbrev file_values : FileValues
file_values = record nothing_set {
  rpc_url = some (text "https://file");
  log_level = some (text "debug");
}

abbrev surroundings : Surroundings
surroundings = record {
  parsers = record {
    parse_duration = λ t. err (text "invalid duration");
    parse_uint32 = λ t. ok 9;
    parse_int64 = λ t. ok (pos 9);
    parse_boolean = λ t. ok true;
  };
  test_network = text "Test";
  getenv = variables;
  exists = λ f. text_eq f (text "soroprobe.yml");
  read = λ f. ok (text "rpc_url: https://file");
  decode_json = λ t. (file_config nothing_set no_profiles, some end_of_file);
  decode_yaml = λ t. (file_config file_values no_profiles, none);
  is_public_key = λ t. true;
}

abbrev loaded : Config
loaded = record (default_config (text "Test")) {
  rpc_url = text "https://env";
  log_level = text "debug";
  threshold_overrides = record {
    for_instance = none;
    for_code = none;
    for_data = some (record { warn = some 9; crit = none });
  };
}

loads : load_with_profile surroundings [] [] ≡ ok loaded
unfolding load_from find_path getenv_or_empty implicit_path first_existing apply_file_with_profile
    unmarshal_config_file ext ext_from decoded apply_file apply_profile profile_name
    load_with_profile find_profile apply_values apply_env apply_override_fields apply_plain
    apply_threshold_override_env env_addresses env_durations env_limits env_texts env_thresholds
    from_env made override_step set_origins set_override set_side default_config lookup_env
    set_value set_parsed to_lower text_eq
loads = refl

load_with_profile-precedence_example :
    (v : FileValues) × (file_settings surroundings
        (profile_name surroundings [])
        (find_path surroundings [])
      ≡ some v)
    × Loaded surroundings v loaded
load_with_profile-precedence_example = load_with_profile-precedence surroundings [] [] loads

validate_iff_example : (validate (λ t. true) loaded ≡ none) ↔ IsUsable (λ t. true) loaded
validate_iff_example = validate_iff (λ t. true) loaded
