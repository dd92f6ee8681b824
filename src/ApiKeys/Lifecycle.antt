-- ===== src/ApiKeys/Lifecycle.antt =====
-- An API key between its creation and its revocation, against the dependency that reads it.
use attendance_tracker.Prelude.{
  ℕ, ◌≡◌, refl, Option, none, some, false, List, [], ◌∷◌, ⊤, ◌==◌, find, find-append,
  find-update_where, map_option, updated, arith, Option-cases, inl, inr, subst, sym,
}
use attendance_tracker.Database.Rows.{Db, User, ApiKey}
use attendance_tracker.Database.Session.{Result, Effect, ok, err, http, request}
use attendance_tracker.Platform.{Platform}
use attendance_tracker.Identity.{load_active_api_key, touch, key_expired}
use attendance_tracker.Audit.{entry, add_entry}
use attendance_tracker.ApiKeys

abbrev pub key_of_hash : ℕ → Db → Option ApiKey
key_of_hash h db = find (λ k. k.key_hash == h) db.api_keys

-- A new key authenticates by its plaintext, with its scopes and in its organization, until it
-- expires, if its digest was free before.
pub create_api_key-load :
    (p : Platform) (now later new_id plaintext : ℕ) (user : User) (body : ApiKeys.ApiKeyCreate)
    (db : Db)
    → key_of_hash (p.hash_api_key plaintext) db ≡ none
    → key_expired later (ApiKeys.new_key p now new_id plaintext user body) ≡ false
    → let after = (request (ApiKeys.create_api_key p now new_id plaintext user body) db).1 in
      (request (load_active_api_key p later plaintext) after).0
      ≡ ok (touch later (ApiKeys.new_key p now new_id plaintext user body))
unfolding ApiKeys.create_api_key load_active_api_key request
create_api_key-load p now later new_id plaintext user body db free fresh =
    let new = ApiKeys.new_key p now new_id plaintext user body in
    ground (
      arith,
      free,
      fresh,
      find-append (λ (k : ApiKey). k.key_hash == p.hash_api_key plaintext) db.api_keys (new ∷ []),
    )

-- A key that its organization revoked is refused at every instant: the key is the one that is found
-- under the digest of its plaintext.
pub revoke_api_key-load :
    (p : Platform) (now plaintext : ℕ) (user : User) (key : ApiKey) (db : Db)
    → ApiKeys.scoped_key key.id user.organization_id db ≡ some key
    → key_of_hash (p.hash_api_key plaintext) db ≡ some key
    → let after = (request (ApiKeys.revoke_api_key user key.id) db).1 in
      (request (load_active_api_key p now plaintext) after).0
      ≡ err (http 401 "Invalid or inactive API key")
unfolding ApiKeys.revoke_api_key load_active_api_key request
revoke_api_key-load p now plaintext user key db scoped found = ground (
  arith,
  scoped,
  found,
  find-update_where (λ (k : ApiKey). k.key_hash == p.hash_api_key plaintext) (λ k. k.id == key.id)
      ApiKeys.deactivate db.api_keys (λ k. refl),
)

abbrev pub RevokeOutcome : User → ℕ → Db → Result ⊤ × Db × List Effect → Type 0
RevokeOutcome user id db (err f, db', es) =
    (f ≡ ApiKeys.key_not_found)
    × (ApiKeys.scoped_key id user.organization_id db ≡ none)
    × (db' ≡ db)
RevokeOutcome user id db (ok done, db', es) =
    (key : ApiKey) × (ApiKeys.scoped_key id user.organization_id db ≡ some key)
    × ((h : ℕ)
        → key_of_hash h db'
          ≡ map_option (updated (λ k. k.id == key.id) ApiKeys.deactivate) (key_of_hash h db))
    × (es ≡ [])

module _ (user : User) (id : ℕ) (db : Db) where
  revoked : Result ⊤ × Db × List Effect
  revoked = request (ApiKeys.revoke_api_key user id) db

  revoke_missing :
      ApiKeys.scoped_key id user.organization_id db ≡ none
      → revoked ≡ (err ApiKeys.key_not_found, db, [])
  unfolding ApiKeys.revoke_api_key request revoked
  revoke_missing e = ground (arith, e)

  revoke_found :
      (key : ApiKey)
      → ApiKeys.scoped_key id user.organization_id db ≡ some key
      → revoked ≡ (
        ok tt,
        add_entry
            (entry "api_key.revoked"
              (some user.organization_id)
              (some user.id)
              (some key.id)
              []
              none)
            (ApiKeys.put_inactive key.id db),
        [],
      )
  unfolding ApiKeys.revoke_api_key request revoked
  revoke_found key e = ground (arith, e)

  -- A revocation is refused, and changes nothing, only if the requester's organization has no such
  -- key. Else it deactivates that key and leaves all others as they are.
  pub revoke_api_key_cases : RevokeOutcome user id db (request (ApiKeys.revoke_api_key user id) db)
  unfolding revoked
  revoke_api_key_cases = elim (Option-cases (ApiKeys.scoped_key id user.organization_id db)) [
    | inl e ↦ subst (RevokeOutcome user id db) (sym (revoke_missing e)) (refl, e, refl)
    | inr (key, e) ↦ subst (RevokeOutcome user id db) (sym (revoke_found key e)) (
      key,
      e,
      λ h.
          find-update_where (λ (k : ApiKey). k.key_hash == h) (λ k. k.id == key.id)
            ApiKeys.deactivate db.api_keys (λ k. refl),
      refl,
    )
  ]
