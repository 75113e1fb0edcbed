-- ===== src/Fallback/Saved.antt =====
-- A configuration that is saved and loaded again.
use Prim.Native.String.{String}
use ampa.Prelude.{
  Bool, true, false, [], ◌∷◌, Option, none, some, if◌then◌else◌, Dict, lookup, ◌≡◌, refl, sym, ap,
  arith, ◌∙◌, nonempty, Bool-cases, inl, inr, str_eq, some_inj,
}
use ampa.Value.{
  Value, Fields, null, bool, int, number, str, list, dict, end, field, get, get_default, ◌or◌,
}
use ampa.Fallback.{
  Project, plain, detailed, Config, normalize_mode, overrides_of, overrides_in, mode_of, loaded,
  saved, if_overridden, projects_of, projects_in, load_config, save_config, modes_value,
  project_value, projects_value, config_value, mode_in, override, override_or, project_entry,
  mode_or_default, public_of, mode_for,
}
use ampa.Fallback.Modes.{normalize_mode_twice}

overrides_again : (fs : Fields) → overrides_of (modes_value (overrides_of fs)) ≡ overrides_of fs
unfolding overrides_of modes_value
overrides_again end = refl
overrides_again (field k v fs) = elim (Bool-cases (nonempty k)) [
  | inl named ↦ rw (named, normalize_mode_twice v, overrides_again fs) (rw named refl)
  | inr unnamed ↦ rw unnamed (overrides_again fs)
]

overrides_in_again : (v : Value) → overrides_of (modes_value (overrides_in v)) ≡ overrides_in v
unfolding overrides_of modes_value
overrides_in_again v =
    elim v as (λ w. overrides_of (modes_value (overrides_in w)) ≡ overrides_in w) [
      | dict fs ↦ overrides_again fs
      | _ ↦ refl
    ]

or_null : (mode : String) → normalize_mode (str mode or null) ≡ normalize_mode (str mode)
unfolding normalize_mode
or_null String.[] = refl
or_null (String.◌∷◌ c s) = refl

no_override : (decision : Option String) → override decision [] ≡ none
unfolding lookup
no_override none = refl
no_override (some d) = ground arith

module _ (decision : Option String) where
  saved_entry :
      (mode : String) (overrides : Dict String)
      → normalize_mode (str mode) ≡ mode
      → overrides_of (modes_value overrides) ≡ overrides
      → mode_in decision (loaded (project_value (if_overridden mode overrides)))
        ≡ mode_in decision (detailed mode overrides)
  unfolding get_default
  saved_entry mode [] h again = rw (h, h, no_override decision) (sym h)
  saved_entry mode (o ∷ os) h again =
      ap (λ (m : String). override_or m (override decision (overrides_of (modes_value (o ∷ os)))))
        (or_null mode ∙ h)
      ∙ ap (λ (ov : Dict String). override_or mode (override decision ov)) again

  saved_dict :
      (fs : Fields) (v : Value)
      → mode_in decision (loaded (project_value (if_overridden (mode_of fs) (overrides_in v))))
        ≡ mode_in decision (detailed (mode_of fs) (overrides_in v))
  saved_dict fs v =
      saved_entry (mode_of fs) (overrides_in v)
        (normalize_mode_twice (get fs "mode" or get fs "default")) (overrides_in_again v)

  plain_entry :
      (v : Value)
      → mode_in decision (loaded (str (normalize_mode v)))
        ≡ mode_in decision (plain (normalize_mode v))
  plain_entry v = ap (λ (m : String). normalize_mode (str m)) (normalize_mode_twice v)

  -- An entry gives the same mode after it was saved and loaded.
  loaded-saved :
      (v : Value)
      → mode_in decision (loaded (project_value (saved v))) ≡ mode_in decision (loaded v)
  loaded-saved null = plain_entry null
  loaded-saved (bool b) = plain_entry (bool b)
  loaded-saved (int n) = plain_entry (int n)
  loaded-saved (number t) = plain_entry (number t)
  loaded-saved (str s) = plain_entry (str s)
  loaded-saved (list xs) = plain_entry (list xs)
  loaded-saved (dict fs) = saved_dict fs (get fs "overrides")

  abbrev modes : Option Project → Option String
  modes none = none
  modes (some p) = some (mode_in decision p)

  -- What a project gives after the entries were saved and loaded.
  project_kept :
      (fs : Fields) (id : String)
      → modes (lookup id (projects_of loaded (projects_value (projects_of saved fs))))
        ≡ modes (lookup id (projects_of loaded fs))
  unfolding projects_of projects_value lookup
  project_kept end id = refl
  project_kept (field k v fs) id = elim (Bool-cases (nonempty k)) [
    | inr unnamed ↦ rw unnamed (project_kept fs id)
    | inl named ↦ rw named (rw named (go (str_eq k id) _ _ (project_kept fs id)))
  ]
    where
      go :
          (here : Bool) (a b : Option Project)
          → modes a ≡ modes b
          → modes (if here then some (loaded (project_value (saved v))) else a)
            ≡ modes (if here then some (loaded v) else b)
      go true a b e = ap some (loaded-saved v)
      go false a b e = e

  projects_kept :
      (v : Value) (id : String)
      → modes (lookup id (projects_of loaded (projects_value (projects_in saved v))))
        ≡ modes (lookup id (projects_in loaded v))
  unfolding projects_of projects_value lookup
  projects_kept v id =
      elim v
        as (λ w.
          modes (lookup id (projects_of loaded (projects_value (projects_in saved w))))
          ≡ modes (lookup id (projects_in loaded w))) [ dict fs ↦ project_kept fs id | _ ↦ refl ]

  agree :
      (is_public : Bool) (c d : Config) (a b : Option Project)
      → normalize_mode (str c.default) ≡ normalize_mode (str d.default)
      → normalize_mode (str c.public_default) ≡ normalize_mode (str d.public_default)
      → modes a ≡ modes b
      → mode_or_default decision is_public c a ≡ mode_or_default decision is_public d b
  agree true c d none none e p same = p
  agree false c d none none e p same = e
  agree is_public c d (some a) (some b) e p same = some_inj same
  agree is_public c d none (some b) e p same = absurd (cc)
  agree is_public c d (some a) none e p same = absurd (cc)

  entry_agrees :
      (project_id : Option String) (c d : Config)
      → ((id : String) → modes (lookup id c.projects) ≡ modes (lookup id d.projects))
      → modes (project_entry project_id c) ≡ modes (project_entry project_id d)
  entry_agrees none c d h = refl
  entry_agrees (some id) c d h = elim (Bool-cases (nonempty id)) [
    | inl named ↦ rw named (h id)
    | inr unnamed ↦ rw unnamed refl
  ]

  -- A configuration that is saved and loaded gives every project, decision and visibility the mode
  -- that it gives when it is loaded as it is.
  pub mode_for-saved :
      (config : Fields) (project_id : Option String) (is_public : Option Bool)
      → mode_for project_id is_public decision
          (load_config (some (config_value (save_config config))))
        ≡ mode_for project_id is_public decision (load_config (some (dict config)))
  unfolding mode_for load_config save_config config_value get_default
  mode_for-saved config project_id is_public =
      agree (public_of is_public project_id)
        (load_config (some (config_value (save_config config)))) (load_config (some (dict config)))
        _ _
        (ap (λ (m : String). normalize_mode (str m)) (normalize_mode_twice (get config "default")))
        (ap (λ (m : String). normalize_mode (str m))
          (normalize_mode_twice (get config "public_default")))
        (entry_agrees project_id (load_config (some (config_value (save_config config))))
          (load_config (some (dict config))) (projects_kept (get config "projects")))
