-- ===== src/Maintenance.antt =====
-- src/workers/tasks/maintenance_tasks.py: the periodic removal of old tokens and spoof attempts, as
-- handlers in their own session. The `except` around a task, which reports a failure of the
-- database, and the log lines are left out.
pub mod Cleanup
use attendance_tracker.Prelude.{
  ℕ, ◌-◌, Option, none, some, Bool, false, ◌||◌, ltb, count, delete_where,
}
use attendance_tracker.Database.Rows.{Db, RefreshTokenRecord, PasswordResetToken, SpoofAttempt}
use attendance_tracker.Database.Session.{Handler, pure, gets, modify, commit, ◌>>=◌, ◌>>◌}
use attendance_tracker.Platform.{days}

-- `now - timedelta(days=retention_days)`
abbrev pub cutoff : ℕ → ℕ → ℕ
cutoff now retention_days = now - days retention_days

-- a column that is not null and before an instant
abbrev pub before : ℕ → Option ℕ → Bool
before limit none = false
before limit (some t) = ltb t limit

abbrev pub is_old_reset : ℕ → PasswordResetToken → Bool
is_old_reset limit t = ltb t.expires_at limit || before limit t.used_at

abbrev pub is_old_refresh : ℕ → RefreshTokenRecord → Bool
is_old_refresh limit t = ltb t.expires_at limit || before limit t.revoked_at

abbrev pub without_old_tokens : ℕ → Db → Db
without_old_tokens limit db = record db {
  reset_tokens = delete_where (is_old_reset limit) db.reset_tokens;
  refresh_tokens = delete_where (is_old_refresh limit) db.refresh_tokens;
}

-- `cleanup_expired_tokens_task`: how many tokens of each table were deleted
unfoldable pub cleanup_expired_tokens_task : ℕ → ℕ → Handler (ℕ × ℕ)
cleanup_expired_tokens_task now retention_days = do
  resets ← gets (λ db. count (is_old_reset (cutoff now retention_days)) db.reset_tokens)
  refreshes ← gets (λ db. count (is_old_refresh (cutoff now retention_days)) db.refresh_tokens)
  modify (without_old_tokens (cutoff now retention_days))
  commit
  pure (resets, refreshes)

abbrev pub is_old_attempt : ℕ → SpoofAttempt → Bool
is_old_attempt limit a = ltb a.timestamp limit

abbrev pub without_old_attempts : ℕ → Db → Db
without_old_attempts limit db = record db {
  spoof_attempts = delete_where (is_old_attempt limit) db.spoof_attempts;
}

-- `purge_old_spoof_attempts_task`: how many attempts were deleted
unfoldable pub purge_old_spoof_attempts_task : ℕ → ℕ → Handler ℕ
purge_old_spoof_attempts_task now retention_days = do
  attempts ← gets (λ db. count (is_old_attempt (cutoff now retention_days)) db.spoof_attempts)
  modify (without_old_attempts (cutoff now retention_days))
  commit
  pure attempts
