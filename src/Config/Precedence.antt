-- ===== src/Config/Precedence.antt =====
-- Where each setting of a loaded configuration comes from.
use mathlib.Core.Path.{subst}
use soroprobe.Prelude.{
  ◌≡◌, refl, Bool, true, false, Option, none, some, [], ◌∷◌, if◌then◌else◌, Text, is_empty, Result,
  ok, err, bind-eq-ok,
}
use soroprobe.Prelude.Outcome.{◌>>=◌}
use soroprobe.Config.{
  Config, default_config, FileValues, FileConfig, file_config, Profiles, ConfigError,
  file_not_found, ReadFailure, not_exist, cannot_read, Surroundings,
}
use soroprobe.Config.Apply.{apply_values, apply_env}
use soroprobe.Config.Load.{
  find_profile, unmarshal_config_file, apply_profile, apply_file, apply_file_with_profile,
  load_from, find_path, profile_name, load_with_profile,
}
use soroprobe.Config.Layers.{Gives, FileSet, apply_values-FileSet, ok-inj, err-ne-ok}
use soroprobe.Config.Environment.{apply_env-EnvSet}
use soroprobe.Config.Sources.{
  over, nothing_set, with_profile, decoded_settings, file_settings, Loaded,
}
use soroprobe.Config.Sources.Together.{FileSet-over, FileSet-nothing, EnvSet-Loaded}

-- The configuration before the environment is read, and the settings that made it.
abbrev Base : Surroundings → Option FileValues → Config → Type 0
Base u s mid =
    (v : FileValues) × (s ≡ some v) × FileSet u.parsers v (default_config u.test_network) mid

no_base : {e : ConfigError} {A : Type 0} {c : Config} → Gives (err e) c → A
no_base h = absurd (err-ne-ok h)

module _ (u : Surroundings) where
  found-Base :
      (path : Text) (v : FileValues) (o : Option FileValues) (e : ConfigError) {mid c : Config}
      → FileSet u.parsers v (default_config u.test_network) mid
      → Gives (elim o [ none ↦ err e | some p ↦ apply_values u.parsers mid path p ]) c
      → Base u (elim o [ none ↦ none | some p ↦ some (over p v) ]) c
  found-Base path v none e h k = no_base k
  found-Base path v (some p) e h k =
      (over p v, refl, FileSet-over u.parsers p v h (apply_values-FileSet u.parsers _ path p k))

  apply_profile-Base :
      (path name : Text) (v : FileValues) (ps : Profiles) {mid c : Config}
      → FileSet u.parsers v (default_config u.test_network) mid
      → Gives (apply_profile u path name ps mid) c
      → Base u (with_profile name (file_config v ps)) c
  unfolding apply_profile
  apply_profile-Base path [] v ps h k =
      (v, refl, subst (λ n. FileSet u.parsers v (default_config u.test_network) n) (ok-inj k) h)
  apply_profile-Base path (c ∷ name) v ps h k = found-Base path v (find_profile (c ∷ name) ps) _ h k

  apply_file-Base :
      (path name : Text) (f : FileConfig) {c : Config}
      → Gives (apply_file u path name (default_config u.test_network) f) c
      → Base u (with_profile name f) c
  unfolding apply_file
  apply_file-Base path name (file_config v ps) h =
      let (mid, first, second) = bind-eq-ok (apply_values u.parsers _ path v) _ h in
      apply_profile-Base path name v ps (apply_values-FileSet u.parsers _ path v first) second

  unmarshal-Base :
      (path name : Text) (r : Result ConfigError FileConfig) {c : Config}
      → Gives (r >>= apply_file u path name (default_config u.test_network)) c
      → Base u (decoded_settings name r) c
  unmarshal-Base path name (ok f) h = apply_file-Base path name f h
  unmarshal-Base path name (err e) h = no_base h

  read-Base :
      (path name : Text) (required : Bool) (r : Result ReadFailure Text) {c : Config}
      → Gives
          (elim r [
            | err (not_exist e) ↦
                if required
                then err (ConfigError.read_file path e)
                else if is_empty name
                then ok (default_config u.test_network)
                else err (file_not_found name path e)
            | err (cannot_read e) ↦ err (ConfigError.read_file path e)
            | ok raw ↦
                unmarshal_config_file u path raw
                >>= apply_file u path name (default_config u.test_network)
          ])
          c
      → Base u
          (elim r [
            | ok raw ↦ decoded_settings name (unmarshal_config_file u path raw)
            | err e ↦ some nothing_set
          ])
          c
  read-Base path name required (ok raw) h =
      unmarshal-Base path name (unmarshal_config_file u path raw) h
  read-Base path name required (err (cannot_read e)) h = no_base h
  read-Base path name true (err (not_exist e)) h = no_base h
  read-Base path (d ∷ name) false (err (not_exist e)) h = no_base h
  read-Base path [] false (err (not_exist e)) h = (
    nothing_set,
    refl,
    subst (λ n. FileSet u.parsers nothing_set (default_config u.test_network) n) (ok-inj h)
        (FileSet-nothing u.parsers _),
  )

  loaded :
      {s : Option FileValues} {mid c : Config}
      → Base u s mid
      → Gives (apply_env u.parsers u.getenv mid) c
      → (v : FileValues) × (s ≡ some v) × Loaded u v c
  loaded (v, e, h) k = (v, e, EnvSet-Loaded u v h (apply_env-EnvSet u.parsers u.getenv _ k))

  load_from-Loaded :
      (name : Text) (at : Option (Text × Bool)) {c : Config}
      → Gives (load_from u name at) c
      → (v : FileValues) × (file_settings u name at ≡ some v) × Loaded u v c
  unfolding load_from apply_file_with_profile
  load_from-Loaded [] none h = loaded (nothing_set, refl, FileSet-nothing u.parsers _) h
  load_from-Loaded (d ∷ name) none h = no_base h
  load_from-Loaded name (some (path, required)) h =
      let (mid, file, env) = bind-eq-ok (apply_file_with_profile u _ path required name) _ h in
      loaded (read-Base path name required (u.read path) file) env

module _ (u : Surroundings) (path name : Text) {c : Config} where
  -- A configuration that loads has every setting from the environment, where a variable that is
  -- not empty gives it, else from the file's settings, those of the profile before those of the
  -- file, and else from the defaults; what is given as a text was parsed. The origins and the
  -- token come from the environment alone, and each threshold override from its variable before
  -- the file's overrides.
  pub load_with_profile-precedence :
      load_with_profile u path name ≡ ok c
      → (v : FileValues) × (file_settings u (profile_name u name) (find_path u path) ≡ some v)
        × Loaded u v c
  unfolding load_with_profile
  load_with_profile-precedence h = load_from-Loaded u _ _ h
