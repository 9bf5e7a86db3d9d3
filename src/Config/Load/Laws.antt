-- ===== src/Config/Load/Laws.antt =====
-- internal/config/config.go: what `Load` reads a setting from.
use mathlib.Core.Path.{subst}
use cloud_sre_agent.Prelude.{
  ◌≡◌, refl, sym, ap, ◌∙◌, List, [], ◌∷◌, Option, none, some, Result, ok, err, ◌>>=◌, Text, text_eq,
  is_empty, if◌then◌else◌, All,
}
use cloud_sre_agent.Config.{Config, default_config}
use cloud_sre_agent.Config.Validate.{validate}
use cloud_sre_agent.Config.Load.{
  Koanf, env_prefix, env_key, seed, wrap, load_path, load_record, load_variables, load, seed_failed,
  env_failed, unmarshal_failed, invalid,
}
use cloud_sre_agent.Config.Load.Layers.{
  text_settings, over, value_at, env_value, env_keys, IsApart, AreApart, IsStacked, layered,
  over-some,
}

-- A chain of results that succeeds.
module _ {E A B : Type 0} where
  bind-ok :
      (m : Result E A) (f : A → Result E B) (b : B)
      → (m >>= f) ≡ ok b
      → (a : A) × (m ≡ ok a) × (f a ≡ ok b)
  bind-ok (ok a) f b h = (a, refl, h)
  bind-ok (err e) f b h = absurd (cc h)

  wrap-ok : (f : E → B) (r : Result E A) (a : A) → wrap f r ≡ ok a → r ≡ ok a
  unfolding wrap
  wrap-ok f (ok x) a h = cc h
  wrap-ok f (err e) a h = absurd (cc h)

All-zip :
    {A : Type 0} (P Q R : A → Type 0) (xs : List A)
    → ((x : A) → P x → Q x → R x)
    → All P xs
    → All Q xs
    → All R xs
All-zip P Q R [] f _ _ = tt
All-zip P Q R (x ∷ xs) f (p, ps) (q, qs) = (f x p q, All-zip P Q R xs f ps qs)

abbrev value_of : {E A : Type 0} → A → Result E A → A
value_of a (ok b) = b
value_of a (err e) = a

abbrev Setting : Type 0
Setting = Text × (Config → Text)

abbrev IsDefault : Setting → Type 0
IsDefault x = value_at x.0 (seed default_config) ≡ some (x.1 default_config)

-- Each setting finds its default in the map of the defaults.
seed-value :
    (d : Config)
    → All (λ (x : Text × (Config → Text)). value_at x.0 (seed d) ≡ some (x.1 d)) text_settings
unfolding seed value_at text_eq
seed-value d = (
  refl,
  (
    refl,
    (refl, (refl, (refl, (refl, (refl, (refl, (refl, (refl, (refl, (refl, (refl, tt))))))))))),
  ),
)

module _ {S : Type 0} (k : Koanf S) (getenv : Text → Text) where
  record_loaded :
      (s : S) (c : Config)
      → load_record k getenv s ≡ ok c
      → (k.unmarshal s ≡ ok c) × (validate getenv c ≡ ok tt)
  unfolding load_record
  record_loaded s c h =
      let (c', decoded, h) =
        bind-ok (wrap unmarshal_failed (k.unmarshal s))
          (λ c. wrap invalid (validate getenv c) >>= λ _. ok c) c h in
      let (_, valid, h) = bind-ok (wrap invalid (validate getenv c')) (λ _. ok c') c h in
      let same : c' ≡ c = cc h in
      (
        wrap-ok unmarshal_failed (k.unmarshal s) c' decoded ∙ ap ok same,
        subst (λ x. validate getenv x ≡ ok tt) same (wrap-ok invalid (validate getenv c') tt valid),
      )

  -- The first three steps, and the store that they leave.
  load-steps :
      (path : Text) (c : Config)
      → load k getenv path ≡ ok c
      → (s1 s2 s3 : S) × (wrap seed_failed (k.load_map (seed default_config) k.fresh) ≡ ok s1)
        × (load_path k getenv path s1 ≡ ok s2)
        × (wrap env_failed (k.load_env env_prefix env_key s2) ≡ ok s3)
        × (load_record k getenv s3 ≡ ok c)
  unfolding load load_variables
  load-steps path c h =
      let (s1, seeded, h1) =
        bind-ok (wrap seed_failed (k.load_map (seed default_config) k.fresh))
          (λ s. load_path k getenv path s >>= load_variables k getenv) c h in
      let (s2, filed, h2) = bind-ok (load_path k getenv path s1) (load_variables k getenv) c h1 in
      let (s3, exported, h3) =
        bind-ok (wrap env_failed (k.load_env env_prefix env_key s2)) (load_record k getenv) c h2 in
      (s1, s2, s3, seeded, filed, exported, h3)

  pub load-valid :
      (path : Text) (c : Config) → load k getenv path ≡ ok c → validate getenv c ≡ ok tt
  load-valid path c h =
      let (_, _, s3, _, _, _, read) = load-steps path c h in (record_loaded s3 c read).1

module _ {S : Type 0} (k : Koanf S) (path : Text) (file_keys : List Text)
    (file_value : Text → Option Text) (vars : List (Text × Text)) (getenv : Text → Text)
    (stacked : IsStacked k path file_keys file_value vars) where
  file_layer : Text → Text → Option Text
  file_layer given key = if is_empty given then none else file_value key

  find-load_path :
      (given : Text) (s s' : S) (key : Text)
      → given ≡ path
      → IsApart file_keys key
      → load_path k getenv given s ≡ ok s'
      → stacked.find s' key ≡ over (file_layer given key) (stacked.find s key)
  unfolding load_path file_layer
  find-load_path [] s s' key same apart h = ap (λ r. stacked.find (value_of s r) key) (sym h)
  find-load_path (a ∷ given) s s' key same apart h =
      stacked.find-load_file s s' key apart
        (subst (λ p. k.load_file p s ≡ ok s') same (wrap-ok _ (k.load_file (a ∷ given) s) s' h))

  abbrev layers : Text → Text → Option Text
  layers key default = over (env_value key vars) (over (file_layer path key) (some default))

  -- A setting whose key holds its default at first, and from which the layers are apart.
  abbrev IsPlain : Setting → Type 0
  IsPlain x = IsDefault x × IsApart file_keys x.0 × IsApart (env_keys vars) x.0

  -- What the store finds after the three loads.
  layers_found :
      (s1 s2 s3 : S) (x : Setting)
      → IsPlain x
      → k.load_map (seed default_config) k.fresh ≡ ok s1
      → load_path k getenv path s1 ≡ ok s2
      → wrap env_failed (k.load_env env_prefix env_key s2) ≡ ok s3
      → stacked.find s3 x.0 ≡ layers x.0 (x.1 default_config)
  layers_found s1 s2 s3 (key, get) (default, file_apart, env_apart) seeded filed exported =
      stacked.find-load_env s2 s3 key env_apart
        (wrap-ok env_failed (k.load_env env_prefix env_key s2) s3 exported)
      ∙ ap (over (env_value key vars)) (
          find-load_path path s1 s2 key refl file_apart filed
          ∙ ap (over (file_layer path key)) (stacked.find-seed s1 key seeded ∙ default))

  stacked_layers :
      (c : Config)
      → AreApart file_keys
      → AreApart (env_keys vars)
      → load k getenv path ≡ ok c
      → (validate getenv c ≡ ok tt)
        × All (λ (x : Text × (Config → Text)). x.1 c ≡ layered file_value vars path x) text_settings
  unfolding file_layer
  stacked_layers c file_apart env_apart h =
      let (s1, s2, s3, seeded, filed, exported, read) = load-steps k getenv path c h in
      let (decoded, valid) = record_loaded k getenv s3 c read in
      let mapped = wrap-ok seed_failed (k.load_map (seed default_config) k.fresh) s1 seeded in
      let apart =
        All-zip (λ x. IsApart file_keys x.0) (λ x. IsApart (env_keys vars) x.0)
          (λ x. IsApart file_keys x.0 × IsApart (env_keys vars) x.0) text_settings (λ x f e. (f, e))
          file_apart env_apart in
      let plain =
        All-zip IsDefault (λ x. IsApart file_keys x.0 × IsApart (env_keys vars) x.0) IsPlain
          text_settings (λ x d a. (d, a.0, a.1)) (seed-value default_config) apart in
      (
        valid,
        All-zip (λ x. (v : Text) → stacked.find s3 x.0 ≡ some v → x.1 c ≡ v) IsPlain
            (λ x. x.1 c ≡ layered file_value vars path x) text_settings
            (λ x value p. value _ (
              layers_found s1 s2 s3 x p mapped filed exported
              ∙ over-some (env_value x.0 vars) (file_layer path x.0) (x.1 default_config)))
            (stacked.unmarshal-find s3 c decoded) plain,
      )

-- A successful `Load` gives a configuration that `Validate` accepts, of which every text setting that
-- has a default has the value of the environment, or else of the file if a path is given, or else the
-- default. This holds when koanf merges its layers as documented, and when neither the file nor the
-- environment has a key that is a section of such a setting or is in a section of its name.
pub load-layered :
    {S : Type 0} (k : Koanf S) (path : Text) (file_keys : List Text)
    (file_value : Text → Option Text) (vars : List (Text × Text)) (getenv : Text → Text)
    (c : Config)
    → IsStacked k path file_keys file_value vars
    → AreApart file_keys
    → AreApart (env_keys vars)
    → load k getenv path ≡ ok c
    → (validate getenv c ≡ ok tt)
      × All (λ (x : Text × (Config → Text)). x.1 c ≡ layered file_value vars path x) text_settings
load-layered k path file_keys file_value vars getenv c stacked file_apart env_apart h =
    stacked_layers k path file_keys file_value vars getenv stacked c file_apart env_apart h
