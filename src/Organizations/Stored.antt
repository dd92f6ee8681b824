-- ===== src/Organizations/Stored.antt =====
-- What later requests read of an organization that was updated.
use attendance_tracker.Prelude.{
  ℕ, ◌≡◌, sym, subst, some, true, ==_iff, find, find_holds, find_replaced, find-none, update_where,
  arith,
}
use attendance_tracker.Database.Rows.{Db, User, Organization, is_superadmin}
use attendance_tracker.Database.Session.{request, ok}
use attendance_tracker.Platform.{Platform}
use attendance_tracker.Identity.{get_superadmin_user}
use attendance_tracker.OrgSettings.{stored_settings}
use attendance_tracker.Organizations
use attendance_tracker.Organizations.{with_id, changed_organization}

module _ (p : Platform) (id : ℕ) (user : User) (body : Organizations.OrganizationUpdate) (db : Db)
    (old : Organization) where
  abbrev pub after : Db
  after = (request (Organizations.update_organization p id user body) db).1

  found_after :
      find (with_id id) db.organizations ≡ some old
      → find
          (with_id id)
          (update_where (with_id old.id) (λ x. changed_organization p body old) db.organizations)
        ≡ some (changed_organization p body old)
  unfolding changed_organization
  found_after h =
      let own : old.id ≡ id =
        (==_iff old.id id).0 (find_holds (with_id id) db.organizations old h) in
      subst
        (λ k.
          find (with_id id)
            (update_where (with_id k) (λ x. changed_organization p body old) db.organizations)
          ≡ some (changed_organization p body old))
        (sym own)
        (find_replaced (with_id id) (changed_organization p body old) db.organizations
          ((==_iff old.id id).1 own)
          (λ z. absurd (ground (arith, h, find-none (with_id id) db.organizations z))))

  -- An update of a known organization by a superadmin answers the changed row, and it is stored: a
  -- later request for the organization answers it, and recognition and the settings read its
  -- settings, which are the old ones with those of the request over them.
  pub update_organization-get_organization :
      is_superadmin user ≡ true
      → find (with_id id) db.organizations ≡ some old
      → let new = changed_organization p body old in
        let n = Organizations.users_in id db in
        ((request (Organizations.update_organization p id user body) db).0 ≡ ok (new, n))
        × ((request (Organizations.get_organization id user) after).0 ≡ ok (new, n))
        × (stored_settings id after ≡ Organizations.merged old.settings body.settings)
  unfolding Organizations.update_organization Organizations.get_organization get_superadmin_user
      request changed_organization
  update_organization-get_organization super known = (
    ground (arith, super, known),
    ground (arith, super, known, found_after known),
    ground (arith, super, known, found_after known),
  )
