-- ===== src/Maintenance/Cleanup.antt =====
-- What sign-in and reset see of a cleanup.
use attendance_tracker.Prelude.{
  ℕ, ◌+◌, ◌-◌, ◌≡◌, ◌≤◌, refl, sym, ap, ◌∙◌, Option, none, some, Bool, true, false, not, ◌&&◌, List,
  [], ◌∷◌, inl, inr, ltb, ◌==◌, if◌then◌else◌, find, count, delete_where, length, is_some, Keyed,
  find-none, arith, Option-cases, Bool-cases, ==_iff,
}
use attendance_tracker.Database.Rows.{Db, User, RefreshTokenRecord, PasswordResetToken, is_usable}
use attendance_tracker.Database.Session.{request, ok}
use attendance_tracker.Platform.{Platform}
use attendance_tracker.Reset
use attendance_tracker.Maintenance

module _ {A : Type 0} where
  -- what no condition of the deletion meets stays
  find-delete_where :
      (p q : A → Bool) (xs : List A)
      → ((x : A) → q x ≡ true → p x ≡ false)
      → find p (delete_where q xs) ≡ find p xs
  find-delete_where p q [] apart = refl
  find-delete_where p q (x ∷ xs) apart = elim (Bool-cases (q x)) [
    | inl e ↦ ground (arith, e, apart x e, find-delete_where p q xs apart)
    | inr e ↦ ground (arith, e, find-delete_where p q xs apart)
  ]

  length-delete_where :
      (q : A → Bool) (xs : List A) → length (delete_where q xs) + count q xs ≡ length xs
  length-delete_where q [] = refl
  length-delete_where q (x ∷ xs) = ground (arith, length-delete_where q xs)

  count-delete_where : (p q : A → Bool) (xs : List A) → count p (delete_where q xs) ≤ count p xs
  count-delete_where p q [] = omega arith
  count-delete_where p q (x ∷ xs) = ground (arith, count-delete_where p q xs)

  abbrev kept : (A → Bool) → Option A → Option A
  kept q none = none
  kept q (some x) = if q x then none else some x

  -- a row that is found by its key, after a deletion
  find_key-delete_where :
      (key : A → ℕ) (k : ℕ) (q : A → Bool) (xs : List A)
      → Keyed key xs
      → find (λ x. key x == k) (delete_where q xs) ≡ kept q (find (λ x. key x == k) xs)
  find_key-delete_where key k q [] keyed = refl
  find_key-delete_where key k q (x ∷ xs) keyed = elim (Bool-cases (key x == k)) [
    | inr e ↦ ground (arith, e, find_key-delete_where key k q xs keyed.1)
    | inl e ↦ elim (Bool-cases (q x)) [
      | inr f ↦ ground (arith, e, f)
      | inl f ↦
          let gone : count (λ y. key y == k) xs ≡ 0 =
            ap (λ i. count (λ y. key y == i) xs) (sym ((==_iff (key x) k).0 e)) ∙ keyed.0 in
          let fewer = count-delete_where (λ y. key y == k) q xs in
          ground (
            arith,
            e,
            f,
            find-none (λ y. key y == k) (delete_where q xs) (omega (arith, gone, fewer)),
          )
    ]
  ]

-- a refresh token that is neither revoked nor expired
abbrev pub live_refresh : ℕ → ℕ → Db → Option RefreshTokenRecord
live_refresh now jti db =
    find (λ t. (t.jti == jti && not (is_some t.revoked_at)) && ltb now t.expires_at)
      db.refresh_tokens

-- the tables after a cleanup
abbrev pub cleaned_at : ℕ → ℕ → Db → Db
cleaned_at now retention_days db =
    (request (Maintenance.cleanup_expired_tokens_task now retention_days) db).1

module _ (p : Platform) (now later retention_days : ℕ) (db : Db) (in_order : now ≤ later) where
  old_refresh :
      (jti : ℕ) (t : RefreshTokenRecord)
      → Maintenance.is_old_refresh (Maintenance.cutoff now retention_days) t ≡ true
      → ((t.jti == jti && not (is_some t.revoked_at)) && ltb later t.expires_at) ≡ false
  old_refresh jti t h = elim (Option-cases t.revoked_at) [
    | inl e ↦ ground (arith, e, h, in_order)
    | inr (r, e) ↦ ground (arith, e)
  ]

  old_reset :
      (t : PasswordResetToken)
      → Maintenance.is_old_reset (Maintenance.cutoff now retention_days) t ≡ true
      → is_usable later t ≡ false
  old_reset t h = elim (Option-cases t.used_at) [
    | inl e ↦ ground (arith, e, h, in_order)
    | inr (r, e) ↦ ground (arith, e)
  ]

  consume_same :
      Keyed (λ (t : PasswordResetToken). t.token_hash) db.reset_tokens
      → (raw new_hash : ℕ)
      → (request
          (Reset.consume_reset_token p later raw new_hash)
          (cleaned_at now retention_days db)).0
        ≡ (request (Reset.consume_reset_token p later raw new_hash) db).0
  unfolding request Maintenance.cleanup_expired_tokens_task Reset.consume_reset_token
  consume_same keyed raw new_hash =
      let q = Maintenance.is_old_reset (Maintenance.cutoff now retention_days) in
      let after =
        find_key-delete_where (λ (t : PasswordResetToken). t.token_hash) (p.hash_reset_token raw) q
          db.reset_tokens keyed in
      elim (Option-cases (Reset.reset_row (p.hash_reset_token raw) db)) [
        | inl e ↦ ground (arith, e, after)
        | inr (row, e) ↦ elim (Bool-cases (q row)) [
          | inl old ↦ ground (arith, e, old, after, old_reset row old)
          | inr young ↦ elim (Bool-cases (is_usable later row)) [
            | inr f ↦ ground (arith, e, young, after, f)
            | inl f ↦ elim (Option-cases (find (λ (u : User). u.id == row.user_id) db.users)) [
              | inl g ↦ ground (arith, e, young, after, f, g)
              | inr (user, g) ↦ ground (arith, e, young, after, f, g)
            ]
          ]
        ]
      ]

  -- A cleanup answers how many tokens it deletes. Afterwards, at any later instant, every attempt
  -- to reset a password is answered as it would have been without the cleanup, and the live refresh
  -- tokens are the same.
  pub cleanup_invisible :
      Keyed (λ (t : PasswordResetToken). t.token_hash) db.reset_tokens
      → (raw new_hash jti : ℕ)
      → ((request
            (Reset.consume_reset_token p later raw new_hash)
            (cleaned_at now retention_days db)).0
          ≡ (request (Reset.consume_reset_token p later raw new_hash) db).0)
        × (live_refresh later jti (cleaned_at now retention_days db) ≡ live_refresh later jti db)
        × ((request (Maintenance.cleanup_expired_tokens_task now retention_days) db).0
            ≡ ok (
              length db.reset_tokens - length (cleaned_at now retention_days db).reset_tokens,
              length db.refresh_tokens - length (cleaned_at now retention_days db).refresh_tokens,
            ))
  unfolding request Maintenance.cleanup_expired_tokens_task
  cleanup_invisible keyed raw new_hash jti =
      let limit = Maintenance.cutoff now retention_days in
      let resets = length-delete_where (Maintenance.is_old_reset limit) db.reset_tokens in
      let refreshes = length-delete_where (Maintenance.is_old_refresh limit) db.refresh_tokens in
      (
        consume_same keyed raw new_hash,
        find-delete_where
            (λ (t : RefreshTokenRecord).
              (t.jti == jti && not (is_some t.revoked_at)) && ltb later t.expires_at)
            (Maintenance.is_old_refresh limit) db.refresh_tokens (old_refresh jti),
        ground (arith, resets, refreshes),
      )
