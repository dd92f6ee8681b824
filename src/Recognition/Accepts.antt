-- ===== src/Recognition/Accepts.antt =====
-- What `recognize` answers and marks where its steps go through.
use attendance_tracker.Prelude.{
  ℕ, ◌≡◌, ◌<◌, ◌+◌, refl, sym, ap, ◌∙◌, subst, none, some, Bool, true, false, not, ◌&&◌, [], ◌∷◌,
  ◌++◌, ◌⊎◌, inl, inr, ==_iff, ◌==◌, leb, any, Bool-cases, Option-cases, arith,
}
use attendance_tracker.Database.Rows.{User, Attendance, auto}
use attendance_tracker.Database.Session.{ok, Session}
use attendance_tracker.Numerics.{Numerics}
use attendance_tracker.Liveness
use attendance_tracker.OrgSettings
use attendance_tracker.Registry
use attendance_tracker.Recognition
use attendance_tracker.Platform.{minutes}
use attendance_tracker.Marking
use attendance_tracker.Marking.Dedupe.{nothing_recent, recent_found, latest_any, none_any}
use attendance_tracker.Recognition.Steps.{past, if_true, in_session_lem}
use attendance_tracker.Recognition.Steps
use attendance_tracker.Recognition.Outcome.{Match, HasFace, IsVerdict, settings_of, marked}

module _ (v : Numerics) (c : Recognition.RecognitionConfig v) (now org : ℕ)
    (request : Recognition.RecognizeRequest v) (w : Recognition.World v) where
  own_user_same :
      (user : User) (score : v.Float)
      → user.organization_id ≡ org
      → Recognition.own_user v c org (some user) score ≡ some (user, score)
  own_user_same user score e = ground (arith, (==_iff user.organization_id org).1 e)

  -- the answer of a match
  abbrev Answers : User → v.Float → Liveness.Verdict v → Type 0
  Answers user score live =
      ((Recognition.recognize v c now org request w).0
        ≡ ok (Recognition.match_response v user score live))
      × ((Recognition.recognize v c now org request w).1.session
          ≡ marked v c now org request w user)

  identify_accepts :
      (s : OrgSettings.LoadedSettings v) (face : v.Image) (live : Liveness.Verdict v) (user : User)
      (score : v.Float) (w1 : Recognition.World v)
      → w1.session ≡ w.session
      → w1.registry ≡ w.registry
      → Match v c now org request w s face user score
      → ((Recognition.identify v c now org request s face live w1).0
          ≡ ok (Recognition.match_response v user score live))
        × ((Recognition.identify v c now org request s face live w1).1.session
            ≡ marked v c now org request w user)
  unfolding Recognition.identify
  identify_accepts s face live user score w1 same reg m =
      let w2 : Recognition.World v = record {
        session = w1.session;
        registry = (Registry.get_matcher v c.index org w.session.saved w.registry).1;
        detector = w1.detector;
      } in
      let b = request.auto_mark_attendance in
      let finished = Steps.mark_if_ok v c now org b user w2 in
      let kept = Steps.mark_if_session v c now org b user w w2 same in
      let own = own_user_same user score m.own in
      (
        ground (arith, same, reg, m.known, m.best, m.found, own, finished),
        ground (arith, same, reg, m.known, m.best, m.found, own, finished, kept),
      )

  recognize_accepts :
      (s : OrgSettings.LoadedSettings v) (face : v.Image) (live : Liveness.Verdict v) (user : User)
      (score : v.Float)
      → settings_of v c now org request w ≡ ok s
      → HasFace v c now org request w face
      → IsVerdict v c now org request w s face live
      → live.is_live ≡ true
      → Match v c now org request w s face user score
      → Answers user score live
  unfolding Recognition.recognize Recognition.run_liveness
  recognize_accepts s face live user score loaded (image, decodes, detects) (inl (on, (t, h, same)))
        l m =
      let checked_w =
        (Recognition.run_liveness v now
          (face ∷ Recognition.extra_frames v c request.liveness_frames_base64) t w).1 in
      let (a, b) = identify_accepts s face live user score checked_w refl refl m in
      (
        ground (arith, loaded, decodes, detects, on, h, l, same, a),
        ground (arith, loaded, decodes, detects, on, h, l, same, b),
      )
  recognize_accepts s face live user score loaded (image, decodes, detects) (inr (off, same)) l m =
      let (a, b) = identify_accepts s face live user score w refl refl m in
      (
        ground (arith, loaded, decodes, detects, off, same, a),
        ground (arith, loaded, decodes, detects, off, same, b),
      )

  -- the row of a genuine automatic check-in of the user at this instant
  abbrev pub check_in : User → Attendance
  check_in user = record {
    organization_id = org;
    user_id = user.id;
    timestamp = now;
    method = auto;
    is_spoof = false;
    device_id = none;
  }

  -- a genuine row of the user inside the dedupe window
  abbrev pub has_recent : User → Bool
  has_recent user =
      any
        (λ (a : Attendance).
          a.user_id == user.id
          && not a.is_spoof
          && leb now (a.timestamp + minutes c.marking.attendance_dedupe_window_minutes))
        w.session.working.attendance

  -- what the request leaves in the session
  abbrev pub Attends : User → Session → Type 0
  Attends user s =
      ((request.auto_mark_attendance ≡ false) × (s ≡ w.session))
      ⊎ (((request.auto_mark_attendance ≡ true) × (has_recent user ≡ true) × (s ≡ w.session))
          ⊎ ((request.auto_mark_attendance ≡ true)
              × (0 < c.marking.attendance_dedupe_window_minutes → has_recent user ≡ false)
              × (s.saved.attendance ≡ w.session.working.attendance ++ check_in user ∷ [])))

  mark-Attends :
      (user : User)
      → request.auto_mark_attendance ≡ true
      → Attends user
          (Marking.mark_attendance c.marking now (Recognition.auto_mark v c org user) w.session).1
  unfolding Marking.mark_attendance
  mark-Attends user on =
      let mark = Recognition.auto_mark v c org user in
      let db = w.session.working in
      elim (Option-cases (Marking.recent_mark c.marking now mark db)) [
        | inl e ↦ inr (
            inr (
              on,
              λ wide. none_any _ db.attendance (nothing_recent c.marking now mark db e refl wide),
              ground (arith, e),
            ))
        | inr (row, e) ↦
            let found = recent_found c.marking now mark db row e in
            inr (inl (on, latest_any _ db.attendance row found.1, ground (arith, e)))
      ]

  marked-Attends : (user : User) → Attends user (marked v c now org request w user)
  marked-Attends user = elim (Bool-cases request.auto_mark_attendance) [
    | inl e ↦
        let mark = Marking.mark_attendance c.marking now (Recognition.auto_mark v c org user) in
        let same : marked v c now org request w user ≡ (mark w.session).1 =
          ap (λ b. (Recognition.mark_if v c b now org user w).1.session) e
          ∙ in_session_lem mark w in
        subst (Attends user) (sym same) (mark-Attends user e)
    | inr e ↦ inl (e, ap (λ b. (Recognition.mark_if v c b now org user w).1.session) e)
  ]

  -- Where the image decodes and shows a face, the settings load, the liveness check passes or is
  -- not asked for, and the organization's matcher finds an active user of the organization: the
  -- answer names that user, with the rounded score. If the request does not ask for a mark, or a
  -- genuine row of the user lies inside the dedupe window, the session is as it was. Else (a window
  -- of more than 0 minutes then holds no such row) one row is appended to the saved attendance: a
  -- genuine automatic one of the user in the requester's organization at this instant.
  pub recognize_marks :
      (s : OrgSettings.LoadedSettings v) (face : v.Image) (live : Liveness.Verdict v) (user : User)
      (score : v.Float)
      → settings_of v c now org request w ≡ ok s
      → HasFace v c now org request w face
      → IsVerdict v c now org request w s face live
      → live.is_live ≡ true
      → Match v c now org request w s face user score
      → (r : Recognition.RecognizeResponse v) × ((Recognition.recognize v c now org request w).0
          ≡ ok r)
        × (r.matched ≡ true)
        × (r.user_id ≡ some user.id)
        × (r.confidence ≡ v.round 4 score)
        × Attends user (Recognition.recognize v c now org request w).1.session
  recognize_marks s face live user score loaded shown verdict passed m =
      let (answer, left) = recognize_accepts s face live user score loaded shown verdict passed m in
      (
        Recognition.match_response v user score live,
        answer,
        refl,
        refl,
        refl,
        subst (Attends user) (sym left) (marked-Attends user),
      )
