-- ===== src/Config.antt =====
-- The validators of src/config.py. `str.upper` and the JSON parser (the items of a list as texts,
-- or the one value) are parameters, as `str.strip` and `str.lower` are of the platform.
pub mod Production
use attendance_tracker.Prelude.{
  ℕ, Text, Option, none, some, Bool, true, false, not, ◌&&◌, ◌||◌, List, [], ◌∷◌, ltb, ◌==◌, any,
  length, select_where, codes, text_eq, if◌then◌else◌,
}
use attendance_tracker.Platform.{Platform}

pub data Env : Type 0 where
  development staging production : Env

-- A validator answers none where it raises ValueError.
unfoldable pub validate_device : Text → Option Text
validate_device v =
    if text_eq v (codes "cpu") || text_eq v (codes "cuda") || text_eq v (codes "mps")
    then some v
    else none

unfoldable pub validate_level : (Text → Text) → Text → Option Text
validate_level upper v =
    if any (text_eq (upper v))
      (codes "DEBUG" ∷ codes "INFO" ∷ codes "WARNING" ∷ codes "ERROR" ∷ codes "CRITICAL" ∷ [])
    then some (upper v)
    else none

unfoldable pub validate_env : Platform → Text → Option Env
validate_env p v =
    if text_eq (p.lower v) (codes "development")
    then some development
    else if text_eq (p.lower v) (codes "staging")
    then some staging
    else if text_eq (p.lower v) (codes "production")
    then some production
    else none

-- `text.startswith(prefix)`
pub starts_with : Text → Text → Bool
starts_with [] s = true
starts_with (c ∷ cs) [] = false
starts_with (c ∷ cs) (x ∷ xs) = let rest = starts_with cs xs in c == x && rest

abbrev pub push : ℕ → List Text → List Text
push c [] = (c ∷ []) ∷ []
push c (part ∷ parts) = (c ∷ part) ∷ parts

-- `raw.split(",")`
pub split_comma : Text → List Text
split_comma [] = [] ∷ []
split_comma (c ∷ cs) = let parts = split_comma cs in if c == b',' then [] ∷ parts else push c parts

abbrev pub is_star : Text → Bool
is_star o = text_eq o (codes "*")

unfoldable pub is_web : Text → Bool
unfolding starts_with
is_web o = starts_with (codes "http://") o || starts_with (codes "https://") o

abbrev pub is_blank : Text → Bool
is_blank [] = true
is_blank (c ∷ cs) = false

pub strip_all : Platform → List Text → List Text
strip_all p [] = []
strip_all p (o ∷ os) =
    let rest = strip_all p os in if is_blank (p.strip o) then rest else p.strip o ∷ rest

-- the items of `CORS_ORIGINS`; none is invalid JSON
abbrev pub origin_items : Platform → (Text → Option (List Text)) → Text → Option (List Text)
origin_items p loads origins_raw =
    let raw = p.strip origins_raw in
    if starts_with (codes "[") raw then loads raw else some (split_comma raw)

abbrev pub is_bad : Text → Bool
is_bad o = not (is_star o) && not (is_web o)

unfoldable pub split_origins : Platform → (Text → Option (List Text)) → Text → Option (List Text)
unfolding starts_with split_comma is_web strip_all
split_origins p loads origins_raw = elim (origin_items p loads origins_raw) [
  | none ↦ none
  | some items ↦
      let origins = strip_all p items in if any is_bad origins then none else some origins
]

-- what the validators read, and `_JWT_SECRET_EXPLICITLY_SET`
pub record Environment : Type 0 where
  pub env : Text
  pub debug : Bool
  pub jwt_secret : Text
  pub jwt_secret_explicitly_set : Bool
  pub cors_origins : Text
  pub device : Text
  pub log_level : Text

abbrev pub insecure_jwt_secrets : List Text
insecure_jwt_secrets =
    codes "change-this-in-production"
    ∷ codes "your-super-secret-jwt-key-change-this-in-production"
    ∷ codes "secret"
    ∷ codes "changeme"
    ∷ []

abbrev pub is_insecure : Text → Bool
is_insecure secret = any (text_eq secret) insecure_jwt_secrets

abbrev pub is_production : Env → Bool
is_production production = true
is_production _ = false

-- whether the settings are accepted
unfoldable pub validate_production_safety : Env → Environment → List Text → Bool
validate_production_safety env e origins =
    let weak_secret =
      not e.jwt_secret_explicitly_set || is_insecure e.jwt_secret || ltb (length e.jwt_secret) 32 in
    not (is_production env && (weak_secret || e.debug || any is_star origins))

-- the environment, the origins, and the test that reads both
unfoldable pub load_checked :
    Platform → (Text → Option (List Text)) → Environment → Option (Env × List Text)
unfolding validate_env split_origins validate_production_safety
load_checked p loads e = elim (validate_env p e.env) [
  | none ↦ none
  | some env ↦ elim (split_origins p loads e.cors_origins) [
    | none ↦ none
    | some origins ↦ if validate_production_safety env e origins then some (env, origins) else none
  ]
]

-- `Settings()`, as far as these validators go: the environment, and the origins. What pydantic
-- itself checks (types, and defaults of what is not set) comes before.
unfoldable pub load_settings :
    Platform → (Text → Text) → (Text → Option (List Text)) → Environment → Option (Env × List Text)
unfolding validate_env split_origins validate_production_safety load_checked validate_device
    validate_level
load_settings p upper loads e = elim (validate_device e.device) [
  | none ↦ none
  | some device ↦ elim (validate_level upper e.log_level) [
    | none ↦ none
    | some level ↦ load_checked p loads e
  ]
]
