-- ===== src/Organizations.antt =====
-- The organizations of src/api/routes/admin.py. Creation times are left out: `newest_first` is the
-- order of `created_at`.
pub mod Slugs
pub mod Stored
use attendance_tracker.Prelude.{
  ℕ, ◌+◌, ◌-◌, ◌*◌, Text, Option, none, some, Bool, true, false, not, ◌&&◌, ◌||◌, List, [], ◌∷◌,
  ◌++◌, map, leb, ◌==◌, find, count, take, drop, length, update_where, is_some, text_eq, codes,
}
use attendance_tracker.Database.Rows.{Db, User, Organization, JsonObject, text, bool}
use attendance_tracker.Database.Session.{
  Failure, http, Handler, pure, gets, or_raise, raise_if, modify, commit, ◌>>=◌, ◌>>◌,
}
use attendance_tracker.Platform.{Platform}
use attendance_tracker.Audit.{entry, record_audit}
use attendance_tracker.Identity.{get_superadmin_user}
use attendance_tracker.OrgSettings.{update}

abbrev pub is_alnum : ℕ → Bool
is_alnum c = (leb b'a' c && leb c b'z') || (leb b'0' c && leb c b'9')

abbrev pub slug_rest : Text → Bool
slug_rest [] = false
slug_rest (c ∷ []) = is_alnum c
slug_rest (c ∷ d ∷ cs) = (is_alnum c || c == b'-') && slug_rest (d ∷ cs)

-- `SLUG_PATTERN.match(slug)`, on a text that ends in no line break
unfoldable pub is_slug : Text → Bool
is_slug [] = false
is_slug (c ∷ cs) = is_alnum c && slug_rest cs

-- a row, and the number of its users: `_org_response`
abbrev pub OrganizationResponse : Type 0
OrganizationResponse = Organization × ℕ

abbrev pub users_in : ℕ → Db → ℕ
users_in id db = count (λ u. u.organization_id == id) db.users

unfoldable pub list_organizations :
    (List Organization → List Organization) → ℕ → ℕ → User → Handler (List OrganizationResponse × ℕ)
unfolding get_superadmin_user
list_organizations newest_first page page_size requester = do
  current_user ← get_superadmin_user requester
  total ← gets (λ db. length db.organizations)
  orgs ← gets (λ db. take page_size (drop ((page - 1) * page_size) (newest_first db.organizations)))
  responses ← gets (λ db. map (λ (o : Organization). (o, users_in o.id db)) orgs)
  pure (responses, total)

pub record OrganizationCreate : Type 0 where
  pub name : Text
  pub slug : Text
  pub max_users : ℕ
  pub settings : JsonObject

abbrev pub has_slug : Text → Organization → Bool
has_slug slug o = text_eq o.slug slug

abbrev pub new_organization : Platform → ℕ → OrganizationCreate → Organization
new_organization p new_id body = record {
  id = new_id;
  name = p.strip body.name;
  slug = p.lower (p.strip body.slug);
  settings = body.settings;
  max_users = body.max_users;
  is_active = true;
}

abbrev pub bad_slug : Failure
bad_slug = http 400 "Slug must be lowercase alphanumeric with inner hyphens"

abbrev pub slug_exists : Failure
slug_exists = http 409 "Organization slug already exists"

abbrev pub add_organization : Organization → Db → Db
add_organization o db = record db { organizations = db.organizations ++ o ∷ [] }

unfoldable pub create_organization :
    Platform → ℕ → User → OrganizationCreate → Handler OrganizationResponse
unfolding is_slug get_superadmin_user text_eq
create_organization p new_id requester body = do
  current_user ← get_superadmin_user requester
  raise_if (not (is_slug (p.lower (p.strip body.slug)))) bad_slug
  existing ← gets (λ db. find (has_slug (p.lower (p.strip body.slug))) db.organizations)
  raise_if (is_some existing) slug_exists
  modify (add_organization (new_organization p new_id body))
  commit
  record_audit (
      entry "organization.created" (some new_id) (some current_user.id) (some new_id)
        (("slug", text (p.lower (p.strip body.slug))) ∷ []) none)
  pure (new_organization p new_id body, 0)

abbrev pub with_id : ℕ → Organization → Bool
with_id id o = o.id == id

abbrev pub org_not_found : Failure
org_not_found = http 404 "Organization not found"

unfoldable pub get_organization : ℕ → User → Handler OrganizationResponse
unfolding get_superadmin_user
get_organization id requester = do
  current_user ← get_superadmin_user requester
  org ← or_raise (← gets (λ db. find (with_id id) db.organizations)) org_not_found
  n ← gets (users_in id)
  pure (org, n)

pub record OrganizationUpdate : Type 0 where
  pub name : Option Text
  pub max_users : Option ℕ
  pub is_active : Option Bool
  pub settings : Option JsonObject

abbrev pub or_keep : {A : Type 0} → Option A → A → A
or_keep none old = old
or_keep (some new) old = new

abbrev pub stripped : Platform → Option Text → Option Text
stripped p none = none
stripped p (some s) = some (p.strip s)

abbrev pub merged : JsonObject → Option JsonObject → JsonObject
merged old none = old
merged old (some changes) = update old changes

-- the row after the assignments
unfoldable pub changed_organization : Platform → OrganizationUpdate → Organization → Organization
unfolding update
changed_organization p body org = record {
  id = org.id;
  name = or_keep (stripped p body.name) org.name;
  slug = org.slug;
  settings = merged org.settings body.settings;
  max_users = or_keep body.max_users org.max_users;
  is_active = or_keep body.is_active org.is_active;
}

abbrev pub put_organization : Organization → Db → Db
put_organization o db = record db {
  organizations = update_where (with_id o.id) (λ old. o) db.organizations;
}

unfoldable pub update_organization :
    Platform → ℕ → User → OrganizationUpdate → Handler OrganizationResponse
unfolding changed_organization get_superadmin_user
update_organization p id requester body = do
  current_user ← get_superadmin_user requester
  old ← or_raise (← gets (λ db. find (with_id id) db.organizations)) org_not_found
  modify (put_organization (changed_organization p body old))
  commit
  record_audit (
      entry "organization.updated" (some old.id) (some current_user.id) (some old.id)
        (("is_active", bool (changed_organization p body old).is_active) ∷ []) none)
  n ← gets (users_in id)
  pure (changed_organization p body old, n)
