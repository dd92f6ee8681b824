-- ===== src/Marking/Dedupe.antt =====
-- One call of `mark_attendance`: what it stores, and when it does not.
use attendance_tracker.Prelude.{
  ℕ, ◌≤◌, ◌<◌, ◌≡◌, refl, none, some, Bool, true, false, List, [], ◌∷◌, arith, All, All-map, any,
  Bool-cases, Option-cases, inl, inr,
}
use attendance_tracker.Database.Rows.{Db, Attendance}
use attendance_tracker.Database.Session.{Result, Effect, ok, err, publish_attendance, request}
use attendance_tracker.Platform.{Settings, minutes}
use attendance_tracker.Marking

-- `latest` finds nothing exactly where no row meets the condition.
pub latest-none :
    (q : Attendance → Bool) (rows : List Attendance)
    → Marking.latest q rows ≡ none
    → All (λ a. q a ≡ false) rows
unfolding Marking.latest
latest-none q [] h = tt
latest-none q (a ∷ rows) h = elim (Bool-cases (q a)) [
  | inl e ↦ absurd (ground (arith, e, h))
  | inr e ↦ (e, latest-none q rows (ground (arith, e, h)))
]

pub latest_meets :
    (q : Attendance → Bool) (rows : List Attendance) (a : Attendance)
    → Marking.latest q rows ≡ some a
    → q a ≡ true
unfolding Marking.latest
latest_meets q [] a h = ground arith
latest_meets q (b ∷ rows) a h = ground (arith, latest_meets q rows a)

pub latest_any :
    (q : Attendance → Bool) (rows : List Attendance) (a : Attendance)
    → Marking.latest q rows ≡ some a
    → any q rows ≡ true
unfolding Marking.latest
latest_any q [] a h = absurd (ground (arith, h))
latest_any q (x ∷ rows) a h = elim (Bool-cases (q x)) [
  | inl e ↦ ground (arith, e)
  | inr e ↦ ground (arith, e, latest_any q rows a (ground (arith, e, h)))
]

pub none_any :
    (q : Attendance → Bool) (rows : List Attendance)
    → All (λ a. q a ≡ false) rows
    → any q rows ≡ false
none_any q [] h = refl
none_any q (x ∷ rows) h = ground (arith, h.0, none_any q rows h.1)

pub latest_newest :
    (q : Attendance → Bool) (rows : List Attendance) (a : Attendance)
    → Marking.latest q rows ≡ some a
    → All (λ b. q b ≡ true → b.timestamp ≤ a.timestamp) rows
unfolding Marking.latest
latest_newest q [] a h = tt
latest_newest q (b ∷ rows) a h = elim (Option-cases (Marking.latest q rows)) [
  | inl e ↦ (
    λ v. ground arith,
    All-map (λ x. q x ≡ false) _ rows (λ x f v. absurd (ground arith)) (latest-none q rows e),
  )
  | inr (c, e) ↦ (
    λ v. ground arith,
    All-map (λ x. q x ≡ true → x.timestamp ≤ c.timestamp) _ rows (λ x le v. ground (arith, le v))
        (latest_newest q rows c e),
  )
]

module _ (st : Settings) (now : ℕ) (m : Marking.Mark) where
  abbrev recent : Attendance → Bool
  recent = Marking.is_recent m.user_id now (minutes (Marking.window_minutes st m))

  -- What a call leaves, by its answer.
  abbrev pub MarkOutcome : Db → Result (Attendance × Bool) × Db × List Effect → Type 0
  MarkOutcome db (err f, db', es) = ⊥
  MarkOutcome db (ok (row, false), db', es) =
      (db' ≡ db)
      × (es ≡ [])
      × (m.is_spoof ≡ false)
      × (recent row ≡ true)
      × All (λ b. recent b ≡ true → b.timestamp ≤ row.timestamp) db.attendance
  MarkOutcome db (ok (row, true), db', es) =
      (row ≡ Marking.new_row now m)
      × (db' ≡ Marking.add_attendance row db)
      × (es ≡ publish_attendance m.organization_id m.user_id row.timestamp ∷ [])
      × (m.is_spoof ≡ false
          → 0 < Marking.window_minutes st m
          → All (λ a. recent a ≡ false) db.attendance)

  pub stores :
      (db : Db)
      → Marking.recent_mark st now m db ≡ none
      → request (Marking.mark_attendance st now m) db ≡ (
        ok (Marking.new_row now m, true),
        Marking.add_attendance (Marking.new_row now m) db,
        publish_attendance m.organization_id m.user_id (Marking.mark_time now m) ∷ [],
      )
  unfolding Marking.mark_attendance request
  stores db e = ground (arith, e)

  pub suppresses :
      (db : Db) (row : Attendance)
      → Marking.recent_mark st now m db ≡ some row
      → request (Marking.mark_attendance st now m) db ≡ (ok (row, false), db, [])
  unfolding Marking.mark_attendance request
  suppresses db row e = ground (arith, e)

  pub recent_found :
      (db : Db) (row : Attendance)
      → Marking.recent_mark st now m db ≡ some row
      → (m.is_spoof ≡ false) × (Marking.latest recent db.attendance ≡ some row)
  unfolding Marking.find_recent_attendance
  recent_found db row e = ground (arith, e)

  pub nothing_recent :
      (db : Db)
      → Marking.recent_mark st now m db ≡ none
      → m.is_spoof ≡ false
      → 0 < Marking.window_minutes st m
      → All (λ a. recent a ≡ false) db.attendance
  unfolding Marking.find_recent_attendance
  nothing_recent db e real wide = latest-none recent db.attendance (ground (arith, e, real, wide))

  -- A call never fails. Where it answers with an earlier row, that is the newest real row of the
  -- user inside the window, and nothing is stored or published. Else one row is appended and one
  -- event published, and a real mark then had no real row of the user inside the window.
  pub mark_attendance_cases :
      (db : Db) → MarkOutcome db (request (Marking.mark_attendance st now m) db)
  unfolding Marking.mark_attendance request
  mark_attendance_cases db = elim (Option-cases (Marking.recent_mark st now m db)) [
    | inl e ↦ rw (stores db e) (refl, refl, refl, λ real wide. nothing_recent db e real wide)
    | inr (row, e) ↦
        let (real, found) = recent_found db row e in
        rw (suppresses db row e) (
          refl,
          refl,
          real,
          latest_meets recent db.attendance row found,
          latest_newest recent db.attendance row found,
        )
  ]
