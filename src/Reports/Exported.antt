-- ===== src/Reports/Exported.antt =====
-- What an export holds, and when it is refused.
use attendance_tracker.Prelude.{
  ℕ, ◌+◌, ◌≤◌, ◌≡◌, ◌↔◌, refl, sym, ap, Text, some, true, List, [], ◌∷◌, map, length, select_where,
  All, arith,
}
use attendance_tracker.Database.Rows.{Db, User, is_org_admin}
use attendance_tracker.Database.Session.{request, ok, err, begin}
use attendance_tracker.Database.Refuse.{past_check, IsCheck, check_rules, Answer}
use attendance_tracker.Export.Safety.{IsSafe, sanitize_cell-IsSafe}
use attendance_tracker.Identity.{get_org_admin_user}
use attendance_tracker.Users.Exactly.{Returned}
use attendance_tracker.Reports
use attendance_tracker.Reports.{Joined}
use attendance_tracker.Reports.Sheet
use attendance_tracker.Reports.Sheet.{ExportRow, AttendanceExportRequest}

-- no cell of free text starts a formula or holds a control character
abbrev pub IsSafeRow : ExportRow → Type 0
IsSafeRow r = IsSafe r.user × IsSafe r.external_id × IsSafe r.department × IsSafe r.device

map_rows-IsSafe :
    (names : Reports.Names) (rows : List Joined) → All IsSafeRow (map (Sheet.export_row names) rows)
unfolding Sheet.export_row
map_rows-IsSafe names [] = tt
map_rows-IsSafe names ((att, user) ∷ rows) = (
  (
    sanitize_cell-IsSafe (some (Reports.name_of user)),
    sanitize_cell-IsSafe (Reports.external_id_of user),
    sanitize_cell-IsSafe (Sheet.name_or_empty names (Reports.department_of user)),
    sanitize_cell-IsSafe att.device_id,
  ),
  map_rows-IsSafe names rows,
)

module _ (newest_first : List Joined → List Joined) (day_text : ℕ → Text)
    (body : AttendanceExportRequest) (user : User) (db : Db) where
  -- the rows of the requester's organization that the request names, as the table has them
  abbrev pub named : List Joined
  named = select_where (Sheet.is_exported user body) (Reports.joined db)

  abbrev pub answered : Answer (List ExportRow)
  answered = request (Sheet.export_attendance newest_first day_text body user) db

  -- what an export needs
  abbrev pub MayExport : Type 0
  MayExport =
      (is_org_admin user ≡ true)
      × (body.date_to + 1 ≤ body.date_from + 366)
      × (length (newest_first named) ≤ 50000)

  abbrev pub ExportOutcome : Answer (List ExportRow) → Type 0
  ExportOutcome (err f, db', es) = (db' ≡ db) × (es ≡ [])
  ExportOutcome (ok sheet, db', es) =
      MayExport
      × All IsSafeRow sheet
      × (sheet
          ≡ map (Sheet.export_row (Sheet.departments_of (newest_first named) db))
              (newest_first named))
      × (db'.attendance ≡ db.attendance)
      × (es ≡ [])

  IsCheck-read_rows : IsCheck (Sheet.read_rows newest_first day_text body user)
  unfolding Sheet.read_rows get_org_admin_user
  IsCheck-read_rows = search check_rules depth 12

  rows_passed :
      (u : User) (rows : List Joined)
      → (Sheet.read_rows newest_first day_text body user (begin db)).0 ≡ ok (u, rows)
      → MayExport × (newest_first named ≡ rows)
  unfolding Sheet.read_rows get_org_admin_user
  rows_passed u rows h =
      ((ground (arith, h), ground (arith, h), ground (arith, h)), ground (arith, h))

  written :
      (u : User) (rows : List Joined)
      → (Sheet.read_rows newest_first day_text body user (begin db)).0 ≡ ok (u, rows)
      → ExportOutcome (request (Sheet.write_sheet newest_first day_text body (u, rows)) db)
  unfolding Sheet.write_sheet request
  written u rows h =
      let (may, same) = rows_passed u rows h in
      (
        may,
        map_rows-IsSafe _ _,
        ap (λ xs. map (Sheet.export_row (Sheet.departments_of xs db)) xs) (sym same),
        refl,
        refl,
      )

  export_attendance_cases : ExportOutcome answered
  unfolding Sheet.export_attendance
  export_attendance_cases =
      past_check ExportOutcome db (Sheet.read_rows newest_first day_text body user)
        (Sheet.write_sheet newest_first day_text body) IsCheck-read_rows (λ f. (refl, refl))
        λ (u, rows) h. written u rows h

  export_needs : (out : Answer (List ExportRow)) → ExportOutcome out → Returned out.0 → MayExport
  export_needs (err f, db', es) h (a, e) = absurd (ground (arith, e))
  export_needs (ok sheet, db', es) (may, safe, rows, kept, quiet) e = may

  pub export_answer :
      MayExport
      → answered.0
        ≡ ok (
            map
              (Sheet.export_row (Sheet.departments_of (newest_first named) db))
              (newest_first named))
  unfolding Sheet.export_attendance Sheet.read_rows Sheet.write_sheet get_org_admin_user request
  export_answer (admin, short, few) = ground (arith, admin, short, few)

  export_served : MayExport → Returned answered.0
  export_served may = (_, export_answer may)

  -- An export succeeds exactly for an administrator, on at most 366 days and at most 50000 rows. It
  -- then holds the rows of the requester's organization that the request names, in the order of the
  -- query; no cell of free text starts a formula or holds a control character; attendance is
  -- unchanged. Else nothing changes.
  pub export_attendance_exactly : ExportOutcome answered × (Returned answered.0 ↔ MayExport)
  export_attendance_exactly =
      (export_attendance_cases, (export_needs answered export_attendance_cases, export_served))
