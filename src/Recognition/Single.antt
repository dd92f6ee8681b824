-- ===== src/Recognition/Single.antt =====
-- What `recognize` answers and writes, on every path.
use attendance_tracker.Prelude.{
  ℕ, ◌≡◌, refl, sym, ap, ◌∙◌, subst, Option, none, some, true, ◌∷◌, inl, inr, arith, Option-cases,
  Bool-cases, codes,
}
use attendance_tracker.Database.Rows.{User}
use attendance_tracker.Database.Session.{Failure, Result, ok, err, Session}
use attendance_tracker.Numerics.{Numerics}
use attendance_tracker.Matcher
use attendance_tracker.Registry
use attendance_tracker.Liveness
use attendance_tracker.OrgSettings
use attendance_tracker.Images
use attendance_tracker.Marking
use attendance_tracker.Recognition
use attendance_tracker.Recognition.Steps.{Result-cases, past, stops, if_true}
use attendance_tracker.Recognition.Steps
use attendance_tracker.Recognition.Outcome.{
  settings_of, HasFace, is_checked, checked, IsVerdict, Match, Outcome, failed, unmatched, blocked,
  matched,
}

module _ (v : Numerics) (c : Recognition.RecognitionConfig v) (now org : ℕ) where
  module _ (request : Recognition.RecognizeRequest v) (w : Recognition.World v) where
    go_on :
        {A : Type 0} (m : Recognition.Task v A)
        (k : A → Recognition.Task v (Recognition.RecognizeResponse v)) (w1 w2 : Recognition.World v)
        (a : A)
        → m w1 ≡ (ok a, w2)
        → Outcome v c now org request w (k a w2)
        → Outcome v c now org request w (Recognition.◌>>=◌ m k w1)
    go_on m k w1 w2 a e o = subst (Outcome v c now org request w) (sym (past m k w1 w2 a e)) o

    give_up :
        {A : Type 0} (m : Recognition.Task v A)
        (k : A → Recognition.Task v (Recognition.RecognizeResponse v)) (w1 w2 : Recognition.World v)
        (e : Failure)
        → m w1 ≡ (err e, w2)
        → w2.session ≡ w.session
        → Outcome v c now org request w (Recognition.◌>>=◌ m k w1)
    give_up m k w1 w2 f e same =
        subst (Outcome v c now org request w) (sym (stops m k w1 w2 f e)) (failed f w2 same)

    -- the same session and registry as at the start
    abbrev Same : Recognition.World v → Type 0
    Same w' = (w'.session ≡ w.session) × (w'.registry ≡ w.registry)

    module _ (s : OrgSettings.LoadedSettings v) (face : v.Image)
        (loaded : settings_of v c now org request w ≡ ok s)
        (has : HasFace v c now org request w face) where
      answered :
          (live : Liveness.Verdict v) (w1 : Recognition.World v) (found : Option (User × v.Float))
          → IsVerdict v c now org request w s face live
          → live.is_live ≡ true
          → w1.session ≡ w.session
          → ((user : User) (score : v.Float)
              → found ≡ some (user, score)
              → Match v c now org request w s face user score)
          → Outcome v c now org request w
              (Recognition.answer_match v c now org request.auto_mark_attendance live found w1)
      unfolding Recognition.identify Marking.mark_attendance
      answered live w1 none verdict l same m = unmatched live.score live.detail w1 same
      answered live w1 (some (user, score)) verdict l same m =
          go_on (Recognition.mark_if v c request.auto_mark_attendance now org user)
            (λ _. Recognition.done (Recognition.match_response v user score live)) w1
            (Recognition.mark_if v c request.auto_mark_attendance now org user w1).1 tt
            (Steps.mark_if_ok v c now org request.auto_mark_attendance user w1)
            (matched s face live user score _ loaded has verdict l (m user score refl)
              (Steps.mark_if_session v c now org request.auto_mark_attendance user w w1 same))

      -- the match of a matcher
      abbrev hit : Matcher.Matcher v → Result (Option (ℕ × v.Float))
      hit m =
          Matcher.match_user v (v.embed face) (Recognition.threshold_for v c request.threshold s) 1
            m

      -- after the match
      looked_up :
          (live : Liveness.Verdict v) (w1 : Recognition.World v) (result : Option (ℕ × v.Float))
          (m : Matcher.Matcher v)
          → IsVerdict v c now org request w s face live
          → live.is_live ≡ true
          → w1.session ≡ w.session
          → (Registry.get_matcher v c.index org w.session.saved w.registry).0 ≡ ok (some m)
          → Matcher.match_user v
              (v.embed face)
              (Recognition.threshold_for v c request.threshold s)
              1
              m
            ≡ ok result
          → Outcome v c now org request w
              (Recognition.after_result v c now org request live result w1)
      looked_up live w1 none m verdict l same known best =
          answered live w1 none verdict l same (λ u x h. absurd (ground (arith, h)))
      looked_up live w1 (some (uid, score)) m verdict l same known best =
          answered live w1
            (Recognition.own_user v c org (Recognition.active_user_by_id v c uid w1.session.working)
              score)
            verdict l same
            (λ u x h.
              let (f, o, xs) =
                Steps.own_user_lem v c now org
                  (Recognition.active_user_by_id v c uid w1.session.working) score u x h in
              record {
                matcher = m;
                known = known;
                user_id = uid;
                best = best ∙ ap (λ y. ok (some (uid, y))) (sym xs);
                found =
                    subst
                      (λ (t : Session). Recognition.active_user_by_id v c uid t.working ≡ some u)
                      same f;
                own = o;
              })

      -- after the registry
      searched :
          (live : Liveness.Verdict v) (w1 : Recognition.World v)
          (matcher : Option (Matcher.Matcher v))
          → IsVerdict v c now org request w s face live
          → live.is_live ≡ true
          → w1.session ≡ w.session
          → (Registry.get_matcher v c.index org w.session.saved w.registry).0 ≡ ok matcher
          → Outcome v c now org request w
              (Recognition.after_matcher v c now org request s face live matcher w1)
      searched live w1 none verdict l same known = unmatched live.score live.detail w1 same
      searched live w1 (some m) verdict l same known = elim (Result-cases (hit m)) [
        | inl (e, h) ↦
            give_up (Recognition.of_result (hit m))
              (Recognition.after_result v c now org request live) w1 w1 e (ap (λ r. (r, w1)) h) same
        | inr (result, h) ↦
            go_on (Recognition.of_result (hit m))
              (Recognition.after_result v c now org request live) w1 w1 result (ap (λ r. (r, w1)) h)
              (looked_up live w1 result m verdict l same known h)
      ]

      identified :
          (live : Liveness.Verdict v) (w1 : Recognition.World v)
          → IsVerdict v c now org request w s face live
          → live.is_live ≡ true
          → Same w1
          → Outcome v c now org request w (Recognition.identify v c now org request s face live w1)
      unfolding Recognition.identify
      identified live w1 verdict l (same, reg) =
          let got = Registry.get_matcher v c.index org w.session.saved w.registry in
          let w2 : Recognition.World v = record {
            session = w1.session;
            registry = got.1;
            detector = w1.detector;
          } in
          elim (Result-cases got.0) [
            | inl (e, h) ↦
                give_up (Recognition.registry_matcher v c org)
                  (Recognition.after_matcher v c now org request s face live) w1 w2 e
                  (ground (arith, h, same, reg)) same
            | inr (m, h) ↦
                go_on (Recognition.registry_matcher v c org)
                  (Recognition.after_matcher v c now org request s face live) w1 w2 m
                  (ground (arith, h, same, reg)) (searched live w2 m verdict l same h)
          ]

      -- after the check
      decided :
          (live : Liveness.Verdict v) (w1 : Recognition.World v)
          → is_checked v c now org request w s ≡ true
          → IsVerdict v c now org request w s face live
          → Same w1
          → Outcome v c now org request w (Recognition.if_live v c now org request s face live w1)
      unfolding Recognition.spoof_blocked Recognition.record_spoof_attempt
      decided live w1 on verdict (same, reg) = elim (Bool-cases live.is_live) [
        | inl l ↦
            subst (λ t. Outcome v c now org request w (t w1))
              (if_true live.is_live (Recognition.identify v c now org request s face live)
                (Recognition.spoof_blocked v c now org live) l)
              (identified live w1 verdict l (same, reg))
        | inr l ↦
            let w2 = (Recognition.record_spoof_attempt v now org live.detail w1).1 in
            subst (Outcome v c now org request w) (ground (arith, l, same, reg))
              (blocked s face live w2 loaded has on verdict l (ground (arith, same)) reg)
      ]

      seen_face :
          Outcome v c now org request w (Recognition.with_face v c now org request s (some face) w)
      unfolding Recognition.run_liveness
      seen_face = elim (Bool-cases (is_checked v c now org request w s)) [
        | inr off ↦
            rw off (identified (Recognition.unchecked v) w (inr (off, refl)) refl (refl, refl))
        | inl on ↦ rw on (elim (Result-cases s.liveness) [
          | inl (e, h) ↦
              give_up (Recognition.of_result s.liveness)
                (Recognition.after_threshold v c now org request s face) w w e (ap (λ r. (r, w)) h)
                refl
          | inr (t, h) ↦
              let w2 : Recognition.World v =
                (Recognition.run_liveness v now
                  (face ∷ Recognition.extra_frames v c request.liveness_frames_base64) t w).1 in
              go_on (Recognition.of_result s.liveness)
                (Recognition.after_threshold v c now org request s face) w w t (ap (λ r. (r, w)) h)
                (decided (checked v c now org request w face t) w2 on (inl (on, (t, h, refl)))
                  (refl, refl))
        ])
      ]

    loaded_lem :
        (image : v.Image) (s : OrgSettings.LoadedSettings v)
        → settings_of v c now org request w ≡ ok s
        → Images.decode_base64_image v c.max_upload_size request.image_base64 ≡ ok image
        → Outcome v c now org request w (Recognition.after_settings v c now org request image s w)
    loaded_lem image s loaded d = elim (Option-cases (v.detect_face image)) [
      | inl e ↦ rw e (unmatched (v.decimal 10 1) (codes "no_face_detected") w refl)
      | inr (face, e) ↦ rw e (seen_face s face loaded (image, d, e))
    ]

    -- `recognize` fails, with nothing written; or it finds no match, with nothing written; or the
    -- liveness check, which the request and the organization ask for, fails, and a spoof attempt is
    -- all that is written; or it answers an active user of the requester's organization whom the
    -- organization's matcher finds at the request's threshold, not below the floor, after a
    -- liveness check that passed where the two ask for one, and then all that is written is the
    -- mark that the request asks for.
    pub recognize_cases :
        Outcome v c now org request w (Recognition.recognize v c now org request w)
    unfolding Recognition.recognize
    recognize_cases =
        elim (Result-cases (Images.decode_base64_image v c.max_upload_size request.image_base64)) [
          | inl (e, h) ↦
              give_up
                (Recognition.of_result
                  (Images.decode_base64_image v c.max_upload_size request.image_base64))
                (Recognition.after_image v c now org request) w w e (ap (λ r. (r, w)) h) refl
          | inr (image, h) ↦
              go_on
                (Recognition.of_result
                  (Images.decode_base64_image v c.max_upload_size request.image_base64))
                (Recognition.after_image v c now org request) w w image (ap (λ r. (r, w)) h)
                (elim (Result-cases (settings_of v c now org request w)) [
                  | inl (e, l) ↦
                      give_up
                        (Recognition.◌>>=◌
                          (Recognition.reads (OrgSettings.load_org_settings v c.model org))
                          Recognition.of_result)
                        (Recognition.after_settings v c now org request image) w w e
                        (ap (λ r. (r, w)) l) refl
                  | inr (s, l) ↦
                      go_on
                        (Recognition.◌>>=◌
                          (Recognition.reads (OrgSettings.load_org_settings v c.model org))
                          Recognition.of_result)
                        (Recognition.after_settings v c now org request image) w w s
                        (ap (λ r. (r, w)) l) (loaded_lem image s l h)
                ])
        ]
