-- ===== src/Audit.antt =====
-- src/services/audit.py, `record_audit`: one more row in the audit table, committed with the
-- caller's work or, with `commit=True`, at once. A failure of the database itself is not modelled.
use attendance_tracker.Prelude.{ℕ, String, Text, Option, List, [], ◌∷◌, ◌++◌, ⊤}
use attendance_tracker.Database.Rows.{Db, AuditLog, Value}
use attendance_tracker.Database.Session.{Handler, modify, commit, ◌>>◌}

abbrev pub add_entry : AuditLog → Db → Db
add_entry e db = record db { audit_log = db.audit_log ++ e ∷ [] }

abbrev pub entry :
    String → Option ℕ → Option ℕ → Option ℕ → List (String × Value) → Option Text → AuditLog
entry action organization_id actor_id target_id details ip_address = record {
  organization_id = organization_id;
  actor_id = actor_id;
  action = action;
  target_id = target_id;
  details = details;
  ip_address = ip_address;
}

-- with `commit=False`
abbrev pub record_audit : AuditLog → Handler ⊤
record_audit e = modify (add_entry e)

-- with `commit=True`
abbrev pub record_audit_now : AuditLog → Handler ⊤
record_audit_now e = do modify (add_entry e); commit
