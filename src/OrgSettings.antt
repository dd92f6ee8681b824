-- ===== src/OrgSettings.antt =====
-- The settings of an organization, a JSON object in its row: src/services/org_settings.py, which
-- recognition reads, and the two routes of src/api/routes/dashboard.py that show and change them.
pub mod Floor
pub mod Updates
use attendance_tracker.Prelude.{
  ℕ, String, Text, Option, none, some, Bool, true, false, not, ◌&&◌, ◌||◌, List, [], ◌∷◌, ◌++◌, ⊤,
  ◌==◌, if◌then◌else◌, find, any, is_some, text_eq, codes, update_where, map, length,
}
use attendance_tracker.Database.Rows.{
  Db, User, Organization, Json, JsonObject, null, boolean, number, string, texts,
}
use attendance_tracker.Database.Session.{
  Failure, http, internal, Result, ok, err, Handler, pure, raise, gets, or_raise, raise_if, modify,
  commit, ◌>>=◌, ◌>>◌,
}
use attendance_tracker.Numerics.{Numerics, max_float}
use attendance_tracker.Audit.{entry, record_audit}

-- `d.get(key)`
unfoldable pub lookup : Text → JsonObject → Option Json
unfolding text_eq
lookup key [] = none
lookup key ((k, j) ∷ rest) = let later = lookup key rest in if text_eq k key then some j else later

-- `d[key] = value`
unfoldable pub assign : Text → Json → JsonObject → JsonObject
unfolding text_eq
assign key j [] = (key, j) ∷ []
assign key j ((k, i) ∷ rest) =
    let later = assign key j rest in if text_eq k key then (k, j) ∷ rest else (k, i) ∷ later

-- `d.update(changes)`
unfoldable pub update : JsonObject → JsonObject → JsonObject
unfolding assign
update d [] = d
update d ((k, j) ∷ rest) = update (assign k j d) rest

-- a value that is there and not None
abbrev pub given : Option Json → Option Json
given none = none
given (some null) = none
given (some j) = some j

abbrev pub bad_float : Failure
bad_float = internal "could not convert to float"

-- `float(j)`
abbrev pub to_float : (v : Numerics) → Json → Result v.Float
to_float v null = err bad_float
to_float v (boolean true) = ok (v.decimal 1 0)
to_float v (boolean false) = ok (v.decimal 0 0)
to_float v (number s) = elim (v.parse s) [ none ↦ err bad_float | some x ↦ ok x ]
to_float v (string s) = elim (v.parse s) [ none ↦ err bad_float | some x ↦ ok x ]

-- `bool(j)`
abbrev pub truthy : (v : Numerics) → Json → Bool
truthy v null = false
truthy v (boolean b) = b
truthy v (string []) = false
truthy v (string (c ∷ cs)) = true
truthy v (number s) = elim (v.parse s) [
  | none ↦ true
  | some x ↦ v.less x (v.decimal 0 0) || v.less (v.decimal 0 0) x
]

-- the global settings that are merged in
pub record ModelSettings (v : Numerics) : Type 0 where
  pub match_threshold_default : v.Float
  pub intra_org_threshold_floor : v.Float
  pub liveness_threshold : v.Float

abbrev pub float_setting : (v : Numerics) → v.Float → Option Json → Result v.Float
float_setting v default none = ok default
float_setting v default (some j) = to_float v j

abbrev pub bool_setting : (v : Numerics) → Bool → Option Json → Bool
bool_setting v default none = default
bool_setting v default (some j) = truthy v j

abbrev pub raise_threshold : (v : Numerics) → ModelSettings v → Result v.Float → Result v.Float
raise_threshold v g (ok x) = ok (max_float v x g.intra_org_threshold_floor)
raise_threshold v g (err e) = err e

-- the entries of the merged dict that are read; `liveness` is `float(...)` of its entry
pub record LoadedSettings (v : Numerics) : Type 0 where
  pub require_liveness_check : Bool
  pub recognition_threshold : v.Float
  pub liveness : Result v.Float

abbrev pub stored_settings : ℕ → Db → JsonObject
stored_settings organization_id db =
    elim (find (λ (o : Organization). o.id == organization_id) db.organizations) [
      | none ↦ []
      | some o ↦ o.settings
    ]

abbrev pub loaded :
    (v : Numerics) → ModelSettings v → JsonObject → Result v.Float → Result (LoadedSettings v)
loaded v g stored (err e) = err e
loaded v g stored (ok threshold) = ok (record {
  require_liveness_check =
      bool_setting v true (given (lookup (codes "require_liveness_check") stored));
  recognition_threshold = threshold;
  liveness =
      float_setting v g.liveness_threshold (given (lookup (codes "liveness_threshold") stored));
})

-- `load_org_settings`
unfoldable pub load_org_settings :
    (v : Numerics) → ModelSettings v → ℕ → Db → Result (LoadedSettings v)
unfolding lookup
load_org_settings v g organization_id db =
    let stored = stored_settings organization_id db in
    loaded v g stored (
      raise_threshold v g (
        float_setting v g.match_threshold_default
          (given (lookup (codes "recognition_threshold") stored))))

abbrev pub organization_not_found : Failure
organization_not_found = http 404 "Organization not found"

-- `DEFAULT_ORG_SETTINGS_RESPONSE`
abbrev pub default_org_settings_response : JsonObject
default_org_settings_response =
    (codes "working_hours_start", string (codes "09:00"))
    ∷ (codes "working_hours_end", string (codes "17:00"))
    ∷ (codes "allow_late_checkin", boolean true)
    ∷ (codes "recognition_threshold", number (codes "0.55"))
    ∷ (codes "require_liveness_check", boolean true)
    ∷ (codes "liveness_threshold", number (codes "0.67"))
    ∷ []

-- `_settings_response`: the merged object, and `max_users`
abbrev pub settings_response : Organization → JsonObject × ℕ
settings_response org = (update default_org_settings_response org.settings, org.max_users)

abbrev pub org_by_id : ℕ → Db → Option Organization
org_by_id id db = find (λ o. o.id == id) db.organizations

unfoldable pub get_organization_settings : User → Handler (JsonObject × ℕ)
unfolding update
get_organization_settings current_user = do
  org ← or_raise (← gets (org_by_id current_user.organization_id)) organization_not_found
  pure (settings_response org)

-- The two library calls of the update: `datetime.strptime(text, "%H:%M")` without an exception,
-- and what a flush stores where a JSON attribute is set to the very object that was loaded, changed
-- in place: from the loaded and the changed value.
pub record SettingsLibrary : Type 0 where
  pub is_hour_minute : Text → Bool
  pub flush_same_object : JsonObject → JsonObject → JsonObject

-- the check of one key, where the request sets it
abbrev pub check_hours : SettingsLibrary → Failure → Option Json → Handler ⊤
check_hours l failure none = pure tt
check_hours l failure (some (string s)) = raise_if (not (l.is_hour_minute s)) failure
check_hours l failure (some j) = raise (internal "strptime() argument 1 must be str")

-- `current_settings = org.settings or {}`, the update and the assignment, as they are stored
abbrev pub stored_update : SettingsLibrary → JsonObject → JsonObject → JsonObject
stored_update l [] updates = update [] updates
stored_update l (x ∷ xs) updates = l.flush_same_object (x ∷ xs) (update (x ∷ xs) updates)

abbrev pub put_settings : ℕ → JsonObject → Db → Db
put_settings id settings db = record db {
  organizations =
      update_where (λ o. o.id == id) (λ o. record o { settings = settings }) db.organizations;
}

abbrev pub keys : JsonObject → List Text
keys = map (λ (k, j). k)

-- `updates` are the fields that the request sets; `sorted` sorts the keys for the audit row
unfoldable pub update_organization_settings :
    SettingsLibrary → (List Text → List Text) → User → JsonObject → Handler (JsonObject × ℕ)
unfolding update lookup
update_organization_settings l sorted current_user updates = do
  org ← or_raise (← gets (org_by_id current_user.organization_id)) organization_not_found
  check_hours l (http 400 "working_hours_start must be HH:MM")
      (lookup (codes "working_hours_start") updates)
  check_hours l (http 400 "working_hours_end must be HH:MM")
      (lookup (codes "working_hours_end") updates)
  modify (put_settings org.id (stored_update l org.settings updates))
  commit
  record_audit (
      entry "org.settings_updated" (some org.id) (some current_user.id) none
        (("keys", texts (sorted (keys updates))) ∷ []) none)
  pure (settings_response (record org { settings = stored_update l org.settings updates }))
