-- ===== src/Marking/Spacing.antt =====
-- The rows that marks at the present leave: one real row for each user and window.
use attendance_tracker.Prelude.{
  ℕ, ◌+◌, ◌<◌, ◌≡◌, none, some, Bool, true, false, not, ◌&&◌, List, [], ◌∷◌, ◌++◌, ⊤, arith, ◌==◌,
  All, All-map, All-every, ◌⊎◌, subst, Bool-cases, Option-cases, inl, inr,
}
use attendance_tracker.Database.Rows.{Db, Attendance}
use attendance_tracker.Database.Session.{Result, Effect, request}
use attendance_tracker.Platform.{Settings, minutes}
use attendance_tracker.Marking
use attendance_tracker.Marking.Dedupe.{stores, suppresses, nothing_recent, latest_meets}

abbrev pub same_real : Attendance → Attendance → Bool
same_real x y = x.user_id == y.user_id && not x.is_spoof && not y.is_spoof

-- of two real rows of one user, the later stored one lies more than `w` after the other
abbrev pub Apart : ℕ → Attendance → Attendance → Type 0
Apart w x y = same_real x y ≡ true → x.timestamp + w < y.timestamp

abbrev pub Spaced : ℕ → List Attendance → Type 0
Spaced w [] = ⊤
Spaced w (x ∷ rows) = All (Apart w x) rows × Spaced w rows

module _ (w : ℕ) (y : Attendance) where
  All-snoc :
      (x : Attendance) (rows : List Attendance)
      → All (Apart w x) rows
      → Apart w x y
      → All (Apart w x) (rows ++ y ∷ [])
  All-snoc x [] h a = (a, tt)
  All-snoc x (z ∷ rows) h a = (h.0, All-snoc x rows h.1 a)

  Spaced-snoc :
      (rows : List Attendance)
      → Spaced w rows
      → All (λ x. Apart w x y) rows
      → Spaced w (rows ++ y ∷ [])
  Spaced-snoc [] h a = (tt, tt)
  Spaced-snoc (x ∷ rows) h a = (All-snoc x rows h.0 a.0, Spaced-snoc rows h.1 a.1)

  All-of_snoc :
      (x : Attendance) (rows : List Attendance) → All (Apart w x) (rows ++ y ∷ []) → Apart w x y
  All-of_snoc x [] h = h.0
  All-of_snoc x (z ∷ rows) h = All-of_snoc x rows h.1

  Spaced-of_snoc :
      (rows : List Attendance) → Spaced w (rows ++ y ∷ []) → All (λ x. Apart w x y) rows
  Spaced-of_snoc [] h = tt
  Spaced-of_snoc (x ∷ rows) h = (All-of_snoc x rows h.0, Spaced-of_snoc rows h.1)

latest_cons :
    (q : Attendance → Bool) (b : Attendance) (rows : List Attendance) (a : Attendance)
    → Marking.latest q (b ∷ rows) ≡ some a
    → (b ≡ a) ⊎ (Marking.latest q rows ≡ some a)
unfolding Marking.latest
latest_cons q b rows a h = ground arith

All_latest {ℓ} :
    (P : Attendance → Type ℓ) (q : Attendance → Bool) (rows : List Attendance) (a : Attendance)
    → All P rows
    → Marking.latest q rows ≡ some a
    → P a
unfolding Marking.latest
All_latest P q [] a all h = absurd (ground (arith, h))
All_latest P q (b ∷ rows) a all h = elim (latest_cons q b rows a h) [
  | inl e ↦ subst P e all.0
  | inr e ↦ All_latest P q rows a all.1 e
]

module _ (st : Settings) where
  abbrev pub window : ℕ
  window = minutes st.attendance_dedupe_window_minutes

  pub serve_marks : List (ℕ × Marking.Mark) → Db → Db
  serve_marks [] db = db
  serve_marks ((now, m) ∷ marks) db =
      serve_marks marks (request (Marking.mark_attendance st now m) db).1

  -- marks as the recognition and the machine route make them: now, with the configured window
  abbrev pub IsPresent : ℕ × Marking.Mark → Type 0
  IsPresent (now, m) = (m.timestamp ≡ none) × (m.dedupe_window_minutes ≡ none)

  new-Apart :
      (now : ℕ) (m : Marking.Mark) (db : Db)
      → 0 < st.attendance_dedupe_window_minutes
      → m.timestamp ≡ none
      → m.dedupe_window_minutes ≡ none
      → Marking.recent_mark st now m db ≡ none
      → All (λ x. Apart window x (Marking.new_row now m)) db.attendance
  new-Apart now m db wide present usual e = elim (Bool-cases m.is_spoof) [
    | inl spoof ↦ All-every _ db.attendance (λ x same. absurd (ground arith))
    | inr real ↦
        All-map
          (λ x. Marking.is_recent m.user_id now (minutes (Marking.window_minutes st m)) x ≡ false) _
          db.attendance (λ x old same. ground (arith, present, usual, real, old, same))
          (nothing_recent st now m db e real (ground (arith, usual, wide)))
  ]

  mark-Spaced :
      (now : ℕ) (m : Marking.Mark) (db : Db)
      → 0 < st.attendance_dedupe_window_minutes
      → m.timestamp ≡ none
      → m.dedupe_window_minutes ≡ none
      → Spaced window db.attendance
      → Spaced window (request (Marking.mark_attendance st now m) db).1.attendance
  mark-Spaced now m db wide present usual h =
      elim (Option-cases (Marking.recent_mark st now m db)) [
        | inr (row, e) ↦ rw (suppresses st now m db row e) h
        | inl e ↦ rw (stores st now m db e) (
            Spaced-snoc window (Marking.new_row now m) db.attendance h
              (new-Apart now m db wide present usual e))
      ]

  -- However many marks are made at the present, by whoever and at whatever instants: a later
  -- real row of a user lies more than the dedupe window after each earlier one.
  pub serve_marks-Spaced :
      (marks : List (ℕ × Marking.Mark)) (db : Db)
      → 0 < st.attendance_dedupe_window_minutes
      → All IsPresent marks
      → Spaced window db.attendance
      → Spaced window (serve_marks marks db).attendance
  unfolding serve_marks
  serve_marks-Spaced [] db wide present h = h
  serve_marks-Spaced ((now, m) ∷ marks) db wide present h =
      serve_marks-Spaced marks (request (Marking.mark_attendance st now m) db).1 wide present.1
        (mark-Spaced now m db wide present.0.0 present.0.1 h)

  -- A mark at a given past instant is compared with the window before the present instead. Where
  -- the user has no real row in that window, a second real row is stored at the very instant of
  -- one that is there.
  pub backdated_mark_duplicates :
      (now t : ℕ) (m : Marking.Mark) (db : Db) (x : Attendance)
      → Marking.recent_mark st now m db ≡ none
      → m.is_spoof ≡ false
      → m.timestamp ≡ some t
      → Marking.latest
          (λ a. a.user_id == m.user_id && not a.is_spoof && a.timestamp == t)
          db.attendance
        ≡ some x
      → ¬ Spaced window (request (Marking.mark_attendance st now m) db).1.attendance
  backdated_mark_duplicates now t m db x e real given there spaced =
      let after =
        subst (λ (r : Result (Attendance × Bool) × Db × List Effect). Spaced window r.1.attendance)
          (stores st now m db e) spaced in
      let apart = Spaced-of_snoc window (Marking.new_row now m) db.attendance after in
      let far =
        All_latest (λ y. Apart window y (Marking.new_row now m))
          (λ a. a.user_id == m.user_id && not a.is_spoof && a.timestamp == t) db.attendance x apart
          there in
      let met =
        latest_meets (λ a. a.user_id == m.user_id && not a.is_spoof && a.timestamp == t)
          db.attendance x there in
      ground (arith, far (ground (arith, met, real)), met, given)
