-- ===== src/Tests/Marks.antt =====
-- Witnesses for the theorems on marks and on the cleanup of tokens.
use attendance_tracker.Prelude.{◌≡◌, refl, none, false, [], ◌∷◌, arith}
use attendance_tracker.Database.Rows.{Db, auto}
use attendance_tracker.Database.Session.{request, ok}
use attendance_tracker.Platform.{minutes}
use attendance_tracker.Marking
use attendance_tracker.Marking.Dedupe.{MarkOutcome, mark_attendance_cases}
use attendance_tracker.Marking.Spacing.{Spaced, serve_marks, serve_marks-Spaced}
use attendance_tracker.Reset.{consume_reset_token}
use attendance_tracker.Maintenance
use attendance_tracker.Maintenance.Cleanup.{cleaned_at, live_refresh, cleanup_invisible}
use attendance_tracker.Tests.{demo, settings, tables, ticket}

abbrev mark : Marking.Mark
mark = record {
  organization_id = 1;
  user_id = 10;
  method = auto;
  device_id = none;
  timestamp = none;
  is_spoof = false;
  dedupe_window_minutes = none;
}

-- Ann was marked at minute 100.
abbrev marked : Db
marked = record tables { attendance = Marking.new_row (minutes 100) mark ∷ [] }

-- A second mark five minutes later is suppressed.
mark_attendance_cases_example :
    MarkOutcome settings
      (minutes 105)
      mark
      marked
      (request (Marking.mark_attendance settings (minutes 105) mark) marked)
mark_attendance_cases_example = mark_attendance_cases settings (minutes 105) mark marked

serve_marks-Spaced_example :
    Spaced
      (minutes 10)
      (serve_marks settings ((minutes 105, mark) ∷ (minutes 111, mark) ∷ []) marked).attendance
serve_marks-Spaced_example =
    serve_marks-Spaced settings ((minutes 105, mark) ∷ (minutes 111, mark) ∷ []) marked
      (omega arith) ((refl, refl), ((refl, refl), tt)) (tt, tt)

-- thirty days and some after the reset token expired
abbrev old_ticket : Db
old_ticket = record tables { reset_tokens = ticket ∷ [] }

cleanup_invisible_example :
    ((request
        (consume_reset_token demo 3000000000001 77 5)
        (cleaned_at 3000000000000 30 old_ticket)).0
      ≡ (request (consume_reset_token demo 3000000000001 77 5) old_ticket).0)
    × (live_refresh 3000000000001 500 (cleaned_at 3000000000000 30 old_ticket)
        ≡ live_refresh 3000000000001 500 old_ticket)
    × ((request (Maintenance.cleanup_expired_tokens_task 3000000000000 30) old_ticket).0
        ≡ ok (1, 1))
unfolding Maintenance.cleanup_expired_tokens_task request
cleanup_invisible_example =
    cleanup_invisible demo 3000000000000 3000000000001 30 old_ticket (omega arith) (refl, tt) 77 5
      500
