-- ===== src/Config/Load.antt =====
-- pkg/config/config.go: LoadConfig and LoadFromFile. Reading a file and yaml.Unmarshal are parameters.
use zstack_ovn_kubernetes.Base.{
  ◌≡◌, ◌≢◌, refl, ◌↔◌, ◌⊎◌, inl, inr, [], ◌∷◌, Text, codes, Option, none, some, if◌then◌else◌,
  is_empty, arith, Option-cases, ap, sym, subst, ◌∙◌,
}
use zstack_ovn_kubernetes.Config.{Config, default_config}
use zstack_ovn_kubernetes.Config.Env.{Getenv, apply_env_overrides}
use zstack_ovn_kubernetes.Config.Validate.{validate}
use zstack_ovn_kubernetes.Config.Accepted.{Valid, validate-Valid}

-- os.ReadFile, and yaml.Unmarshal into a configuration that already has values.
pub record Files : Type 0 where
  pub read_file : Text → Option Text
  pub unmarshal : Text → Config → Option Config

pub data LoadError : Type 0 where
  unreadable : Text → LoadError
  malformed : Text → LoadError
  rejected : Text → LoadError

pub data Loaded : Type 0 where
  loaded : Config → Loaded
  refused : LoadError → Loaded

abbrev config_file : Text
config_file = codes "ZSTACK_OVN_CONFIG_FILE"

module _ (files : Files) where
  abbrev pub parse_file : Text → Config → Option Text → Loaded
  parse_file path c none = refused (unreadable path)
  parse_file path c (some text) = elim (files.unmarshal text c) [
    | none ↦ refused (malformed path)
    | some d ↦ loaded d
  ]

  unfoldable pub load_from_file : Text → Config → Loaded
  load_from_file path c = parse_file path c (files.read_file path)

  abbrev pub checked : Config → Option Text → Loaded
  checked c none = loaded c
  checked c (some text) = refused (rejected text)

  abbrev pub finish : Getenv → Loaded → Loaded
  finish env (refused e) = refused e
  finish env (loaded c) = let d = apply_env_overrides env c in checked d (validate d)

  -- The file is read only if it is named.
  abbrev pub started : Text → Config → Loaded
  started path c = if is_empty path then loaded c else load_from_file path c

  unfoldable pub load_config : Getenv → Loaded
  unfolding load_from_file
  load_config env = finish env (started (env config_file) default_config)

  -- A file that is named was read on top of the configuration; else nothing changed.
  abbrev pub Started : Text → Config → Config → Type 0
  Started path c d =
      ((path ≡ []) × (d ≡ c))
      ⊎ ((path ≢ [])
          × (text : Text) × (files.read_file path ≡ some text)
          × (files.unmarshal text c ≡ some d))

  checked-loaded :
      (c d : Config) → (checked c (validate c) ≡ loaded d) ↔ ((d ≡ c) × (validate c ≡ none))
  checked-loaded c d = elim (Option-cases (validate c)) [
    | inl e ↦ (λ h. ground arith, λ h. ground arith)
    | inr (t, e) ↦ (λ h. ground arith, λ h. ground arith)
  ]

  parsed :
      (path : Text) (c d : Config)
      → (load_from_file path c ≡ loaded d)
        ↔ ((text : Text) × (files.read_file path ≡ some text) × (files.unmarshal text c ≡ some d))
  unfolding load_from_file
  parsed path c d = elim (Option-cases (files.read_file path)) [
    | inl e ↦ (λ h. absurd (ground arith), λ h. absurd (ground arith))
    | inr (text, e) ↦ (λ h. (text, e, ground arith), λ h. ground arith)
  ]

  started-loaded : (path : Text) (c d : Config) → (started path c ≡ loaded d) ↔ Started path c d
  started-loaded [] c d = (
    λ h. inl (refl, by_loaded h),
    λ s. elim s [
      | inl e ↦ ap loaded (sym e.1)
      | inr (named, text, found, meant) ↦ absurd (named refl)
    ],
  )
    where
      by_loaded : loaded c ≡ loaded d → d ≡ c
      by_loaded h = cc
  started-loaded (x ∷ xs) c d =
      let read = parsed (x ∷ xs) c d in
      (
        λ h. let (text, found, meant) = read.0 h in inr ((λ e. cc), text, found, meant),
        λ s. elim s [
          | inl e ↦ absurd (cc (e.0))
          | inr (named, text, found, meant) ↦ read.1 (text, found, meant)
        ],
      )

  finish-loaded :
      (env : Getenv) (first : Loaded) (d : Config)
      → (finish env first ≡ loaded d)
        ↔ ((c : Config) × (first ≡ loaded c) × (d ≡ apply_env_overrides env c) × Valid d)
  finish-loaded env (refused e) d = (λ h. absurd cc, λ (c, h, r, v). absurd cc)
  finish-loaded env (loaded c) d =
      let final = apply_env_overrides env c in
      let check = checked-loaded final d in
      (
        λ h.
            let (same, passed) = check.0 h in
            (c, refl, same, subst Valid (sym same) ((validate-Valid final).0 passed)),
        λ (first, q, r, v).
            let same = r ∙ ap (apply_env_overrides env) (loaded_inj first c (sym q)) in
            check.1 (same, (validate-Valid final).1 (subst Valid same v)),
      )
    where
      loaded_inj : (a b : Config) → loaded a ≡ loaded b → a ≡ b
      loaded_inj a b h = cc

  -- LoadConfig returns a configuration exactly when it is valid and is what the environment's overrides
  -- make of the defaults or, where ZSTACK_OVN_CONFIG_FILE names a file, of that file read without an
  -- error on top of the defaults.
  pub load_config-Valid :
      (env : Getenv) (d : Config)
      → (load_config env ≡ loaded d) ↔ (
          (c : Config) × Started (env config_file) default_config c
          × (d ≡ apply_env_overrides env c)
          × Valid d)
  unfolding load_config
  load_config-Valid env d =
      let whole = finish-loaded env (started (env config_file) default_config) d in
      (
        λ h.
            let (c, first, made, valid) = whole.0 h in
            (c, (started-loaded (env config_file) default_config c).0 first, made, valid),
        λ (c, first, made, valid).
            whole.1 (c, (started-loaded (env config_file) default_config c).1 first, made, valid),
      )
