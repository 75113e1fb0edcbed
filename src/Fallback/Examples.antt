-- ===== src/Fallback/Examples.antt =====
-- Tests of the fallback modes, and their theorems at concrete inputs.
use ampa.Prelude.{true, false, none, some, ◌≡◌, refl}
use ampa.Value.{Fields, str, dict, end, field, null, get_default}
use ampa.Fallback.{load_config, save_config, config_value, mode_for, resolve_mode, overrides_of}
use ampa.Fallback.Saved.{mode_for-saved}

-- A configuration with a legacy entry, and one with an override.
abbrev config : Fields
config = field "default" (str " Accept ") (
    field "projects"
      (dict (
        field "A" (str "decline") (
          field "B"
            (dict (
              field "mode" null (
                field "default" (str "queue")
                  (field "overrides" (dict (field "merge" (str "recommend") end)) end))))
            end)))
      end)

override_test :
    resolve_mode true false none true (some (dict config)) (some "B") none (some "merge")
    ≡ "accept-recommendation"
unfolding resolve_mode load_config overrides_of get_default
override_test = refl

missing_test : resolve_mode true true (some "") false none (some "A") none none ≡ "auto-accept"
unfolding resolve_mode
missing_test = refl

mode_for-saved_example :
    mode_for (some "B") none (some "merge") (load_config (some (config_value (save_config config))))
    ≡ mode_for (some "B") none (some "merge") (load_config (some (dict config)))
mode_for-saved_example = mode_for-saved (some "merge") config (some "B") none
