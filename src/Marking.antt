-- ===== src/Marking.antt =====
-- src/services/attendance_service.py and the marking routes of src/api/routes/attendance.py.
-- The columns `confidence` and `metadata` are stored and never read, and are left out; counters
-- of metrics and log lines too. `Method` is `VALID_METHODS`, so its check never fails.
pub mod Dedupe
pub mod Spacing
use attendance_tracker.Prelude.{
  ℕ, suc, ◌+◌, String, Text, Option, none, some, Bool, true, false, not, ◌&&◌, ◌||◌, List, [], ◌∷◌,
  ◌++◌, ⊤, ltb, leb, ◌==◌, if◌then◌else◌, is_some, find, length, codes,
}
use attendance_tracker.Database.Rows.{Db, User, ApiKey, Attendance, Method, Value, num}
use attendance_tracker.Database.Session.{
  Failure, http, Handler, pure, raise, gets, or_raise, raise_if, modify, commit, emit,
  publish_attendance, ◌>>=◌, ◌>>◌,
}
use attendance_tracker.Platform.{Settings, minutes}
use attendance_tracker.Audit.{entry, record_audit}
use attendance_tracker.Identity.{require_api_key_scope, get_org_admin_user}

-- the conditions of `find_recent_attendance`; `t >= now - w` is written without the subtraction
abbrev pub is_recent : ℕ → ℕ → ℕ → Attendance → Bool
is_recent user_id now window a =
    a.user_id == user_id && not a.is_spoof && leb now (a.timestamp + window)

abbrev pub newer : Option Attendance → Attendance → Attendance
newer none a = a
newer (some b) a = if ltb a.timestamp b.timestamp then b else a

-- the newest row that meets the condition: `order_by(timestamp.desc()).limit(1)`
pub latest : (Attendance → Bool) → List Attendance → Option Attendance
latest q [] = none
latest q (a ∷ rest) = let best = latest q rest in if q a then some (newer best a) else best

unfoldable pub find_recent_attendance : ℕ → ℕ → ℕ → Db → Option Attendance
unfolding latest
find_recent_attendance user_id now window db = latest (is_recent user_id now window) db.attendance

-- the keyword arguments of `mark_attendance`
pub record Mark : Type 0 where
  pub organization_id : ℕ
  pub user_id : ℕ
  pub method : Method
  pub device_id : Option Text
  pub timestamp : Option ℕ
  pub is_spoof : Bool
  pub dedupe_window_minutes : Option ℕ

abbrev pub window_minutes : Settings → Mark → ℕ
window_minutes st m = elim m.dedupe_window_minutes [
  | some w ↦ w
  | none ↦ st.attendance_dedupe_window_minutes
]

-- `timestamp or now`
abbrev pub mark_time : ℕ → Mark → ℕ
mark_time now m = elim m.timestamp [ some t ↦ t | none ↦ now ]

abbrev pub new_row : ℕ → Mark → Attendance
new_row now m = record {
  organization_id = m.organization_id;
  user_id = m.user_id;
  timestamp = mark_time now m;
  method = m.method;
  is_spoof = m.is_spoof;
  device_id = m.device_id;
}

-- whether the dedupe window applies, and what it then finds
abbrev pub recent_mark : Settings → ℕ → Mark → Db → Option Attendance
recent_mark st now m db =
    if not m.is_spoof && ltb 0 (window_minutes st m)
    then find_recent_attendance m.user_id now (minutes (window_minutes st m)) db
    else none

abbrev pub add_attendance : Attendance → Db → Db
add_attendance a db = record db { attendance = db.attendance ++ a ∷ [] }

-- the row, and whether it was created
unfoldable pub mark_attendance : Settings → ℕ → Mark → Handler (Attendance × Bool)
unfolding find_recent_attendance
mark_attendance st now m = do
  recent ← gets (recent_mark st now m)
  elim recent [
    | some row ↦ pure (row, false)
    | none ↦ do
      modify (add_attendance (new_row now m))
      commit
      emit (publish_attendance m.organization_id m.user_id (mark_time now m))
      pure (new_row now m, true)
  ]

abbrev pub user_by_id : ℕ → Db → Option User
user_by_id id db = find (λ u. u.id == id) db.users

pub record MarkAttendanceRequest : Type 0 where
  pub user_id : ℕ
  pub device_id : Option Text
  pub method : Method
  pub is_spoof : Bool

abbrev pub not_in_organization : Failure
not_in_organization = http 404 "User not found in this organization"

-- `mark_attendance_endpoint`, with the dependency on the scope
unfoldable pub mark_attendance_endpoint :
    Settings → ℕ → MarkAttendanceRequest → ApiKey → Handler (Attendance × Bool)
unfolding mark_attendance require_api_key_scope
mark_attendance_endpoint st now request presented = do
  key ← require_api_key_scope (codes "attendance:write" ∷ []) presented
  user ← or_raise (← gets (user_by_id request.user_id)) not_in_organization
  raise_if (not user.is_active || not (user.organization_id == key.organization_id))
      not_in_organization
  mark_attendance st now (record {
    organization_id = key.organization_id;
    user_id = user.id;
    method = request.method;
    device_id = request.device_id;
    timestamp = none;
    is_spoof = request.is_spoof;
    dedupe_window_minutes = none;
  })

pub record ManualMarkRequest : Type 0 where
  pub user_ids : List ℕ
  pub timestamp : Option ℕ
  pub device_id : Option Text
  pub method : Method

-- the ids that were marked, counted, and the ids that were not found
abbrev pub Tally : Type 0
Tally = ℕ × List ℕ

abbrev manual_mark : ℕ → ManualMarkRequest → User → User → Mark
manual_mark now request current_user user = record {
  organization_id = current_user.organization_id;
  user_id = user.id;
  method = request.method;
  device_id = request.device_id;
  timestamp = some (elim request.timestamp [ some t ↦ t | none ↦ now ]);
  is_spoof = false;
  dedupe_window_minutes = none;
}

abbrev pub member_by_id : ℕ → ℕ → Db → Option User
member_by_id id organization_id db =
    find (λ u. u.id == id && u.organization_id == organization_id) db.users

-- the body of the loop, for one `user_id`
pub mark_one : Settings → ℕ → ManualMarkRequest → User → ℕ → Tally → Handler Tally
unfolding mark_attendance
mark_one st now request current_user user_id (marked, errors) = do
  found ← gets (member_by_id user_id current_user.organization_id)
  elim found [
    | none ↦ pure (marked, errors ++ user_id ∷ [])
    | some user ↦
        if user.is_active
        then (do
          (row, created) ← mark_attendance st now (manual_mark now request current_user user)
          pure ((if created then marked + 1 else marked), errors))
        else pure (marked, errors ++ user_id ∷ [])
  ]

pub mark_all : Settings → ℕ → ManualMarkRequest → User → List ℕ → Tally → Handler Tally
unfolding mark_one
mark_all st now request current_user [] t = pure t
mark_all st now request current_user (id ∷ ids) t = do
  t' ← mark_one st now request current_user id t
  mark_all st now request current_user ids t'

unfoldable pub manual_mark_attendance : Settings → ℕ → ManualMarkRequest → User → Handler Tally
unfolding mark_all get_org_admin_user
manual_mark_attendance st now request requester = do
  current_user ← get_org_admin_user requester
  (marked, errors) ← mark_all st now request current_user request.user_ids (0, [])
  record_audit (
      entry "attendance.manual_mark" (some current_user.organization_id) (some current_user.id) none
        (("marked", num marked) ∷ ("requested", num (length request.user_ids)) ∷ []) none)
  pure (marked, errors)
