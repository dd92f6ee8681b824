-- ===== src/Recognition/Outcome.antt =====
-- What `recognize` may answer and write.
use attendance_tracker.Prelude.{ℕ, ◌≡◌, Text, some, Bool, true, false, ◌&&◌, ◌∷◌, ◌⊎◌}
use attendance_tracker.Database.Rows.{User}
use attendance_tracker.Database.Session.{Failure, Result, ok, err, Session}
use attendance_tracker.Numerics.{Numerics}
use attendance_tracker.Matcher
use attendance_tracker.Registry
use attendance_tracker.Liveness
use attendance_tracker.OrgSettings
use attendance_tracker.Images
use attendance_tracker.Recognition

module _ (v : Numerics) (c : Recognition.RecognitionConfig v) (now org : ℕ) where
  module _ (request : Recognition.RecognizeRequest v) (w : Recognition.World v) where
    abbrev pub settings_of : Result (OrgSettings.LoadedSettings v)
    settings_of = OrgSettings.load_org_settings v c.model org w.session.working

    -- the face of the request's image
    abbrev pub HasFace : v.Image → Type 0
    HasFace face =
        (image : v.Image) × (Images.decode_base64_image v c.max_upload_size request.image_base64
          ≡ ok image)
        × (v.detect_face image ≡ some face)

    abbrev pub is_checked : OrgSettings.LoadedSettings v → Bool
    is_checked s = request.check_liveness && s.require_liveness_check

    -- the detector's answer on the face and the extra frames
    abbrev pub checked : v.Image → v.Float → Liveness.Verdict v
    checked face threshold =
        (Liveness.check v now (face ∷ Recognition.extra_frames v c request.liveness_frames_base64)
          (some threshold) (Liveness.reset v w.detector)).0

    -- `live` is the detector's answer where the check is on, and else that of no check
    abbrev pub IsVerdict : OrgSettings.LoadedSettings v → v.Image → Liveness.Verdict v → Type 0
    IsVerdict s face live =
        ((is_checked s ≡ true) × ((t : v.Float) × (s.liveness ≡ ok t) × (live ≡ checked face t)))
        ⊎ ((is_checked s ≡ false) × (live ≡ Recognition.unchecked v))

    -- the organization's matcher finds `score` for an active user of the organization
    pub record Match (s : OrgSettings.LoadedSettings v) (face : v.Image) (user : User)
        (score : v.Float) : Type 0 where
      pub matcher : Matcher.Matcher v
      pub known :
          (Registry.get_matcher v c.index org w.session.saved w.registry).0 ≡ ok (some matcher)
      pub user_id : ℕ
      pub best :
          Matcher.match_user v
            (v.embed face)
            (Recognition.threshold_for v c request.threshold s)
            1
            matcher
          ≡ ok (some (user_id, score))
      pub found : Recognition.active_user_by_id v c user_id w.session.working ≡ some user
      pub own : user.organization_id ≡ org

    abbrev pub marked : User → Session
    marked user = (Recognition.mark_if v c request.auto_mark_attendance now org user w).1.session

    pub data Outcome : Result (Recognition.RecognizeResponse v) × Recognition.World v → Type 0 where
      failed :
          (e : Failure) (w' : Recognition.World v) → w'.session ≡ w.session → Outcome (err e, w')
      unmatched :
          (score : v.Float) (detail : Text) (w' : Recognition.World v)
          → w'.session ≡ w.session
          → Outcome (ok (Recognition.no_match_response v true score detail), w')
      blocked :
          (s : OrgSettings.LoadedSettings v) (face : v.Image) (live : Liveness.Verdict v)
          (w' : Recognition.World v)
          → settings_of ≡ ok s
          → HasFace face
          → is_checked s ≡ true
          → IsVerdict s face live
          → live.is_live ≡ false
          → w'.session ≡ (Recognition.record_spoof_attempt v now org live.detail w).1.session
          → w'.registry ≡ w.registry
          → Outcome (
            ok (
                Recognition.no_match_response v false live.score
                  (Recognition.or_failed v live.detail)),
            w',
          )
      matched :
          (s : OrgSettings.LoadedSettings v) (face : v.Image) (live : Liveness.Verdict v)
          (user : User) (score : v.Float) (w' : Recognition.World v)
          → settings_of ≡ ok s
          → HasFace face
          → IsVerdict s face live
          → live.is_live ≡ true
          → Match s face user score
          → w'.session ≡ marked user
          → Outcome (ok (Recognition.match_response v user score live), w')
