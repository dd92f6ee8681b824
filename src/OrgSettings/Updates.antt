-- ===== src/OrgSettings/Updates.antt =====
-- What an update of the settings stores.
use attendance_tracker.Prelude.{
  ◌≡◌, ◌≢◌, refl, sym, ap, ◌∙◌, Text, Option, none, some, true, List, [], ◌∷◌, ◌⊎◌, inl, inr, ◌==◌,
  find_holds, find-update_where, arith, codes, ==_iff,
}
use attendance_tracker.Database.Rows.{Db, User, Organization, Json, JsonObject, string}
use attendance_tracker.Database.Session.{Failure, Session, http, ok, request, begin}
use attendance_tracker.OrgSettings

abbrev pub IsHour : OrgSettings.SettingsLibrary → Option Json → Type 0
IsHour l o = (o ≡ none) ⊎ ((s : Text) × (o ≡ some (string s)) × (l.is_hour_minute s ≡ true))

hours_pass :
    (l : OrgSettings.SettingsLibrary) (o : Option Json) (f : Failure) (s : Session)
    → IsHour l o
    → OrgSettings.check_hours l f o s ≡ (ok tt, s)
hours_pass l o f s (inl e) = ap (λ x. OrgSettings.check_hours l f x s) e
hours_pass l o f s (inr (t, e, good)) =
    ap (λ x. OrgSettings.check_hours l f x s) e ∙ ground (arith, good)

module _ (l : OrgSettings.SettingsLibrary) (sorted : List Text → List Text) (current_user : User)
    (updates : JsonObject) (db : Db) (org : Organization)
    (known : OrgSettings.org_by_id current_user.organization_id db ≡ some org)
    (start : IsHour l (OrgSettings.lookup (codes "working_hours_start") updates))
    (end_ : IsHour l (OrgSettings.lookup (codes "working_hours_end") updates)) where
  abbrev pub after : Organization
  after = record org { settings = OrgSettings.stored_update l org.settings updates }

  -- An update with valid hours by an organization's admin answers the merge of the defaults and of
  -- the settings that are stored then: from no settings, those are the update's; from some, they
  -- are what a flush stores of a loaded object that was changed in place.
  pub update_organization_settings_lem :
      let out =
        request (OrgSettings.update_organization_settings l sorted current_user updates) db in
      (out.0 ≡ ok (OrgSettings.settings_response after))
      × (OrgSettings.org_by_id current_user.organization_id out.1 ≡ some after)
  unfolding OrgSettings.update_organization_settings request
  update_organization_settings_lem =
      let p = λ (o : Organization). o.id == current_user.organization_id in
      let own : org.id ≡ current_user.organization_id =
        (==_iff org.id current_user.organization_id).0 (find_holds p db.organizations org known) in
      let f = λ (o : Organization). record o {
        settings = OrgSettings.stored_update l org.settings updates;
      } in
      let s1 = λ (e : Failure).
        hours_pass l (OrgSettings.lookup (codes "working_hours_start") updates) e (begin db)
          start in
      let s2 = λ (e : Failure).
        hours_pass l (OrgSettings.lookup (codes "working_hours_end") updates) e (begin db) end_ in
      let found =
        find-update_where p (λ (o : Organization). o.id == org.id) f db.organizations (λ o. refl) in
      (
        ground (
          arith,
          known,
          s1 (http 400 "working_hours_start must be HH:MM"),
          s2 (http 400 "working_hours_end must be HH:MM"),
        ),
        ground (
          arith,
          known,
          found,
          own,
          s1 (http 400 "working_hours_start must be HH:MM"),
          s2 (http 400 "working_hours_end must be HH:MM"),
          (==_iff org.id org.id).1 refl,
        ),
      )

  unchanged :
      (d : JsonObject)
      → org.settings ≡ d
      → d ≢ []
      → ((old new : JsonObject) → l.flush_same_object old new ≡ old)
      → after ≡ org
  unchanged [] e h kept = absurd (h refl)
  unchanged (x ∷ xs) e h kept =
      ap (λ (t : JsonObject). record org { settings = t })
        (ap (λ t. OrgSettings.stored_update l t updates) e
          ∙ kept (x ∷ xs) (OrgSettings.update (x ∷ xs) updates)
          ∙ sym e)

  -- Where a flush stores the loaded object for one that was changed in place, an update with valid
  -- hours by an organization's admin, of settings that are not empty, answers success with the old
  -- settings and changes nothing of the organization.
  pub update_organization_settings_lost :
      ((old new : JsonObject) → l.flush_same_object old new ≡ old)
      → org.settings ≢ []
      → let out =
          request (OrgSettings.update_organization_settings l sorted current_user updates) db in
        (out.0 ≡ ok (OrgSettings.settings_response org))
        × (OrgSettings.org_by_id current_user.organization_id out.1 ≡ some org)
  update_organization_settings_lost kept some_settings =
      let same : after ≡ org = unchanged org.settings refl some_settings kept in
      let (answer, row) = update_organization_settings_lem in
      (answer ∙ ap (λ o. ok (OrgSettings.settings_response o)) same, row ∙ ap some same)
