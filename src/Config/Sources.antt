-- ===== src/Config/Sources.antt =====
-- Which source a field of the Config has its value from.
use mathlib.Core.Path.{subst}
use stellar_stellar_rpc.Base.{
  ◌≡◌, ◌≢◌, refl, sym, ap, ◌∙◌, Option, none, some, Bool, true, false, if◌then◌else◌, ok, >>=-eq-ok,
  ok-injective, arith,
}
use stellar_stellar_rpc.Config.Parse.{Texts, Raw}
use stellar_stellar_rpc.Config.{
  ConfigOption, Config, get_env_key, get_toml_key, load, default_source, env_value, env_source,
  flag_source, Tree, tree_value, toml_source, config_path, strict, check_keys, parse_toml, is_empty,
  load_defaults, load_env, load_flags, load_config_path, Surroundings, load_env_and_flags,
  load_without_file, load_with_file, set_values,
}
use stellar_stellar_rpc.Config.SetBy.{
  or_else, AllSetBy, AllSetBy-trans, AllSetBy-ext, load-AllSetBy, loader-AllSetBy,
}

abbrev pub given_flag : ConfigOption → Option Raw
given_flag o = elim o.flag [ none ↦ none | some f ↦ if f.changed then f.get_flag else none ]

abbrev pub given_env : Texts → Surroundings → ConfigOption → Option Raw
given_env t w o = env_value w.lookup_env (get_env_key t o)

abbrev pub given_toml : Texts → Option Tree → ConfigOption → Option Raw
given_toml t none o = none
given_toml t (some tree) o = tree_value tree (get_toml_key t o)

-- A flag that was changed comes first, then the environment, the file, and the default.
abbrev pub chosen : Texts → Surroundings → Option Tree → ConfigOption → Option Raw
chosen t w tree o =
    or_else (given_flag o)
      (or_else (given_env t w o) (or_else (given_toml t tree o) o.default_value))

or_else_assoc : (a b c : Option Raw) → or_else (or_else a b) c ≡ or_else a (or_else b c)
or_else_assoc none b c = refl
or_else_assoc (some x) b c = refl

-- A second pass of the flags and the environment finds what the first one found.
or_else_twice :
    (a b c d : Option Raw)
    → or_else (or_else a b) (or_else c (or_else a (or_else b d)))
      ≡ or_else a (or_else b (or_else c d))
or_else_twice none none none d = refl
or_else_twice none none (some x) d = refl
or_else_twice none (some x) c d = refl
or_else_twice (some x) b c d = refl

module _ (t : Texts) where
  given_flag_lem : (o : ConfigOption) (r : Option Raw) → flag_source o ≡ ok r → r ≡ given_flag o
  unfolding flag_source
  given_flag_lem o r h = ground arith

  check_keys-ok :
      (tree : Tree) (b : Bool) (c : Config) {d : Config} → check_keys t tree b c ≡ ok d → c ≡ d
  unfolding check_keys
  check_keys-ok tree b c h = ground arith

  module _ (w : Surroundings) (cfg : Config) {cfg' : Config} where
    load_defaults-AllSetBy :
        load_defaults t w.version cfg ≡ ok cfg'
        → AllSetBy t (λ o. o.default_value) cfg.fields cfg'.fields
    unfolding load_defaults
    load_defaults-AllSetBy h =
        loader-AllSetBy t default_source _ (λ o r e. sym (ok-injective e)) _ (λ fs. refl) cfg.fields
          h

    load_env-AllSetBy :
        load_env t w.lookup_env cfg ≡ ok cfg' → AllSetBy t (given_env t w) cfg.fields cfg'.fields
    unfolding load_env env_source
    load_env-AllSetBy h =
        loader-AllSetBy t (env_source t w.lookup_env) _ (λ o r e. sym (ok-injective e)) _
          (λ fs. refl) cfg.fields h

    load_flags-AllSetBy : load_flags t cfg ≡ ok cfg' → AllSetBy t given_flag cfg.fields cfg'.fields
    unfolding load_flags
    load_flags-AllSetBy h =
        loader-AllSetBy t flag_source _ given_flag_lem _ (λ fs. refl) cfg.fields h

    parse_toml-AllSetBy :
        (tree : Tree) (b : Bool)
        → parse_toml t tree b cfg ≡ ok cfg'
        → AllSetBy t (given_toml t (some tree)) cfg.fields cfg'.fields
    unfolding parse_toml toml_source
    parse_toml-AllSetBy tree b h =
        let (gs, e, k) = >>=-eq-ok (load t (toml_source t tree) cfg.fields) _ h in
        subst (AllSetBy t (given_toml t (some tree)) cfg.fields)
          (ap (λ (c : Config). c.fields) (check_keys-ok tree b _ k))
          (load-AllSetBy t (toml_source t tree) _ (λ o r e. sym (ok-injective e)) cfg.fields e)

  -- the tree of the file that the path of the first part names, if there is one
  abbrev pub file_tree : Surroundings → Config → Option Tree
  file_tree w first = if is_empty (config_path first) then none else w.open_toml (config_path first)

  module _ (w : Surroundings) where
    load_env_and_flags-AllSetBy :
        (cfg : Config) {cfg' : Config}
        → load_env_and_flags t w cfg ≡ ok cfg'
        → AllSetBy t (λ o. or_else (given_flag o) (given_env t w o)) cfg.fields cfg'.fields
    unfolding load_env_and_flags
    load_env_and_flags-AllSetBy cfg h =
        let (c, e, k) = >>=-eq-ok (load_env t w.lookup_env cfg) _ h in
        AllSetBy-trans t _ _ _ _ _ (load_env-AllSetBy w cfg e) (load_flags-AllSetBy w c k)

    load_without_file-AllSetBy :
        (cfg : Config) {cfg' : Config}
        → load_without_file t w cfg ≡ ok cfg'
        → AllSetBy t (chosen t w none) cfg.fields cfg'.fields
    unfolding load_without_file
    load_without_file-AllSetBy cfg h =
        let (c, e, k) = >>=-eq-ok (load_defaults t w.version cfg) _ h in
        AllSetBy-ext t _ _ (λ o. or_else_assoc (given_flag o) (given_env t w o) o.default_value) _ _
          (AllSetBy-trans t _ _ _ _ _ (load_defaults-AllSetBy w cfg e)
            (load_env_and_flags-AllSetBy c k))

    loaded :
        (first : Config) (tree : Tree)
        → w.open_toml (config_path first) ≡ some tree
        → load_config_path t w.open_toml first ≡ parse_toml t tree (strict first) first
    unfolding load_config_path
    loaded first tree e = rw (load_config_path, e) refl

    not_loaded :
        (first : Config) {cfg : Config}
        → w.open_toml (config_path first) ≡ none
        → load_with_file t w first ≢ ok cfg
    unfolding load_with_file load_config_path
    not_loaded first e h = ground arith

    load_with_file-AllSetBy :
        (cfg first : Config) (tree : Tree) {cfg' : Config}
        → AllSetBy t (chosen t w none) cfg.fields first.fields
        → w.open_toml (config_path first) ≡ some tree
        → load_with_file t w first ≡ ok cfg'
        → AllSetBy t (chosen t w (some tree)) cfg.fields cfg'.fields
    unfolding load_with_file
    load_with_file-AllSetBy cfg first tree before e h =
        let (c, e', k) = >>=-eq-ok (load_config_path t w.open_toml first) _ h in
        AllSetBy-ext t _ _
          (λ o.
            or_else_twice (given_flag o) (given_env t w o) (given_toml t (some tree) o)
              o.default_value)
          _ _
          (AllSetBy-trans t _ _ _ _ _
            (AllSetBy-trans t _ _ _ _ _ before
              (parse_toml-AllSetBy w first tree (strict first) (sym (loaded first tree e) ∙ e')))
            (load_env_and_flags-AllSetBy c k))

    by_path :
        (cfg first : Config) {cfg' : Config}
        → AllSetBy t (chosen t w none) cfg.fields first.fields
        → (b : Bool) (o : Option Tree) → w.open_toml (config_path first) ≡ o
        → (if b then ok first else load_with_file t w first) ≡ ok cfg'
        → AllSetBy t (chosen t w (if b then none else o)) cfg.fields cfg'.fields
    by_path cfg first before true o e h =
        subst (λ (c : Config). AllSetBy t (chosen t w none) cfg.fields c.fields) (ok-injective h)
          before
    by_path cfg first before false none e h = absurd (not_loaded first e h)
    by_path cfg first before false (some tree) e h =
        load_with_file-AllSetBy cfg first tree before e h

    -- What SetValues leaves, when it gives no error: each field has the value that the parser of its
    -- option reads of the first source that gives one, of the flags that were changed, the environment,
    -- the configuration file and the defaults; a field that none gives is as it was. The file is the
    -- one at the path that the flags, the environment and the defaults give, and is not read when that
    -- path is empty.
    pub set_values_lem :
        (cfg : Config) {cfg' : Config}
        → set_values t w cfg ≡ ok cfg'
        → (first : Config) × (load_without_file t w cfg ≡ ok first)
          × AllSetBy t (chosen t w none) cfg.fields first.fields
          × AllSetBy t (chosen t w (file_tree w first)) cfg.fields cfg'.fields
    unfolding set_values
    set_values_lem cfg {cfg'} h =
        let (first, e, k) = >>=-eq-ok (load_without_file t w cfg) _ h in
        let before = load_without_file-AllSetBy cfg e in
        (first, e, before, by_path cfg first before (is_empty (config_path first)) _ refl k)
