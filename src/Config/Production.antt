-- ===== src/Config/Production.antt =====
-- When the server starts in production.
use attendance_tracker.Prelude.{
  ◌≤◌, ◌≡◌, ◌↔◌, refl, ap, subst, ◌∙◌, Text, Option, some, true, false, List, [], ◌∷◌, any, length,
  codes, text_eq, text_eq_iff, All, Bool-cases, Option-cases, inl, inr, arith,
}
use attendance_tracker.Platform.{Platform}
use attendance_tracker.Config
use attendance_tracker.Config.{Environment, Env, production}

star_not_web : (o : Text) → Config.is_web o ≡ true → Config.is_star o ≡ false
unfolding Config.is_web text_eq Config.starts_with
star_not_web [] h = refl
star_not_web (c ∷ cs) h = ground (arith, h)

origins_web :
    (os : List Text)
    → any Config.is_bad os ≡ false
    → any Config.is_star os ≡ false
    → All (λ o. Config.is_web o ≡ true) os
origins_web [] h k = tt
origins_web (o ∷ os) h k =
    (ground (arith, h, k), origins_web os (ground (arith, h)) (ground (arith, k)))

web_origins :
    (os : List Text)
    → All (λ o. Config.is_web o ≡ true) os
    → (any Config.is_bad os ≡ false) × (any Config.is_star os ≡ false)
web_origins [] h = (refl, refl)
web_origins (o ∷ os) (w, h) = ground (arith, w, star_not_web o w, web_origins os h)

module _ (p : Platform) (upper : Text → Text) (loads : Text → Option (List Text))
    (e : Environment) where
  -- the secret is set, is none of the known ones, and has at least 32 characters; no debug mode
  abbrev pub IsSafe : Type 0
  IsSafe =
      (e.jwt_secret_explicitly_set ≡ true)
      × (Config.is_insecure e.jwt_secret ≡ false)
      × (32 ≤ length e.jwt_secret)
      × (e.debug ≡ false)

  -- the origins that `CORS_ORIGINS` names, without blank ones
  abbrev pub Names : List Text → Type 0
  Names origins =
      (items : List Text) × (Config.origin_items p loads e.cors_origins ≡ some items)
      × (Config.strip_all p items ≡ origins)

  origins_of :
      (origins : List Text)
      → Config.split_origins p loads e.cors_origins ≡ some origins
      → Names origins × (any Config.is_bad origins ≡ false)
  unfolding Config.split_origins
  origins_of origins h = elim (Option-cases (Config.origin_items p loads e.cors_origins)) [
    | inl f ↦ absurd (ground (arith, f, h))
    | inr (items, f) ↦ elim (Bool-cases (any Config.is_bad (Config.strip_all p items))) [
      | inl g ↦ absurd (ground (arith, f, g, h))
      | inr g ↦ ((items, f, ground (arith, f, g, h)), ground (arith, f, g, h))
    ]
  ]

  env_of :
      Config.validate_env p e.env ≡ some production
      → text_eq (p.lower e.env) (codes "production") ≡ true
  unfolding Config.validate_env
  env_of h = ground (arith, h)

  -- the device and the level of the log are known ones
  abbrev pub IsNamed : Type 0
  IsNamed =
      (any (text_eq e.device) (codes "cpu" ∷ codes "cuda" ∷ codes "mps" ∷ []) ≡ true)
      × (any (text_eq (upper e.log_level))
            (codes "DEBUG" ∷ codes "INFO" ∷ codes "WARNING" ∷ codes "ERROR" ∷ codes "CRITICAL" ∷ [])
          ≡ true)

  checked_of :
      (origins : List Text)
      → Config.load_settings p upper loads e ≡ some (production, origins)
      → IsNamed × (Config.load_checked p loads e ≡ some (production, origins))
  unfolding Config.load_settings Config.validate_device Config.validate_level
  checked_of origins h = elim (Option-cases (Config.validate_device e.device)) [
    | inl f ↦ absurd (ground (arith, f, h))
    | inr (device, f) ↦ elim (Option-cases (Config.validate_level upper e.log_level)) [
      | inl g ↦ absurd (ground (arith, f, g, h))
      | inr (level, g) ↦ ((ground (arith, f), ground (arith, g)), ground (arith, f, g, h))
    ]
  ]

  device_named :
      any (text_eq e.device) (codes "cpu" ∷ codes "cuda" ∷ codes "mps" ∷ []) ≡ true
      → Config.validate_device e.device ≡ some e.device
  unfolding Config.validate_device
  device_named h = ground (arith, h)

  load_settings-IsNamed :
      IsNamed → Config.load_settings p upper loads e ≡ Config.load_checked p loads e
  unfolding Config.load_settings Config.validate_level
  load_settings-IsNamed (device, level) = ground (arith, device_named device, level)

  starts :
      (origins : List Text)
      → Config.load_checked p loads e ≡ some (production, origins)
      → (Config.validate_env p e.env ≡ some production)
        × (Config.split_origins p loads e.cors_origins ≡ some origins)
        × (Config.validate_production_safety production e origins ≡ true)
  unfolding Config.load_checked
  starts origins h = elim (Option-cases (Config.validate_env p e.env)) [
    | inl f ↦ absurd (ground (arith, f, h))
    | inr (env, f) ↦ elim (Option-cases (Config.split_origins p loads e.cors_origins)) [
      | inl g ↦ absurd (ground (arith, f, g, h))
      | inr (os, g) ↦ elim (Bool-cases (Config.validate_production_safety env e os)) [
        | inl k ↦
            let loaded : Env × List Text = (env, os) in
            let expected : Env × List Text = (production, origins) in
            let same : loaded ≡ expected = ground (arith, f, g, k, h) in
            let first : env ≡ production = ap (λ x. x.0) same in
            let second : os ≡ origins = ap (λ x. x.1) same in
            (
              f ∙ ap some first,
              g ∙ ap some second,
              subst (λ x. Config.validate_production_safety x.0 e x.1 ≡ true) same k,
            )
        | inr k ↦ absurd (ground (arith, f, g, k, h))
      ]
    ]
  ]

  safe :
      (origins : List Text)
      → Config.validate_production_safety production e origins ≡ true
      → IsSafe × (any Config.is_star origins ≡ false)
  unfolding Config.validate_production_safety
  safe origins h = (
    (ground (arith, h), ground (arith, h), ground (arith, h), ground (arith, h)),
    ground (arith, h),
  )

  env_named : p.lower e.env ≡ codes "production" → Config.validate_env p e.env ≡ some production
  unfolding Config.validate_env text_eq
  env_named h = rw h refl

  cors_named :
      (items origins : List Text)
      → Config.origin_items p loads e.cors_origins ≡ some items
      → Config.strip_all p items ≡ origins
      → any Config.is_bad origins ≡ false
      → Config.split_origins p loads e.cors_origins ≡ some origins
  unfolding Config.split_origins
  cors_named items origins found stripped fine = ground (arith, found, stripped, fine)

  allowed_of :
      (origins : List Text)
      → IsSafe
      → any Config.is_star origins ≡ false
      → Config.validate_production_safety production e origins ≡ true
  unfolding Config.validate_production_safety
  allowed_of origins (set, known, long, plain) starless =
      ground (arith, set, known, long, plain, starless)

  served :
      (origins : List Text)
      → text_eq (p.lower e.env) (codes "production") ≡ true
      → Names origins
      → All (λ o. Config.is_web o ≡ true) origins
      → IsSafe
      → Config.load_checked p loads e ≡ some (production, origins)
  unfolding Config.load_checked
  served origins name (items, found, stripped) web ok =
      let (fine, starless) = web_origins origins web in
      let production_name = (text_eq_iff (p.lower e.env) (codes "production")).0 name in
      let env : Config.validate_env p e.env ≡ some production = env_named production_name in
      let cors : Config.split_origins p loads e.cors_origins ≡ some origins =
        cors_named items origins found stripped fine in
      let allowed : Config.validate_production_safety production e origins ≡ true =
        allowed_of origins ok starless in
      ground (arith, env, cors, allowed)

  -- The validators accept the settings of a production server exactly if the secret of the tokens
  -- was set explicitly, is none of the known ones and has at least 32 characters, debug mode is off,
  -- every origin of `CORS_ORIGINS` is an http or https address (a wildcard is not accepted), the
  -- device is one of three, and the level of the log, in upper case, one of five. The origins are
  -- then those named, stripped, without blank ones.
  pub load_settings_production :
      (origins : List Text)
      → (Config.load_settings p upper loads e ≡ some (production, origins)) ↔ (
          (text_eq (p.lower e.env) (codes "production") ≡ true)
          × Names origins
          × All (λ o. Config.is_web o ≡ true) origins
          × IsSafe
          × IsNamed)
  load_settings_production origins = (
    λ h.
        let (known, checked) = checked_of origins h in
        let (env, cors, ok) = starts origins checked in
        let (named, fine) = origins_of origins cors in
        let (safe_, starless) = safe origins ok in
        (env_of env, named, origins_web origins fine starless, safe_, known),
    λ (name, named, web, ok, known). load_settings-IsNamed known ∙ served origins name named web ok,
  )
