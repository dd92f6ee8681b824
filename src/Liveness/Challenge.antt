-- ===== src/Liveness/Challenge.antt =====
-- src/anti_spoofing/liveness.py, `check_challenge_response`, with the kinds of challenge that
-- src/anti_spoofing/challenge_response.py asks for. The expected value is not read.
use attendance_tracker.Prelude.{ℕ, Option, none, some, Bool, false}
use attendance_tracker.Database.Session.{Result, ok, err}
use attendance_tracker.Numerics.{Numerics}
use attendance_tracker.Liveness.{LivenessDetector, Landmarks, average_ear}

pub data ChallengeType : Type 0 where
  blink head_left head_right head_up head_down look_at_dot smile : ChallengeType

-- the reason of an answer
pub data Detail (v : Numerics) : Type 0 where
  no_face_detected unknown_challenge : Detail v
  -- the number that is formatted into the text
  measured : v.Float → Detail v

-- the branches on the kind, for a frame of width `w` and height `h`
unfoldable pub respond :
    (v : Numerics) → LivenessDetector v → ChallengeType → Landmarks v → ℕ → ℕ → Bool × Detail v
respond v d blink lm w h =
    let ear = average_ear v lm w h in (v.less ear d.config.ear_closed, measured ear)
respond v d head_left lm w h = let (x, y) = lm 1 in (v.less x (v.decimal 4 1), measured x)
respond v d head_right lm w h = let (x, y) = lm 1 in (v.less (v.decimal 6 1) x, measured x)
respond v d head_up lm w h = let (x, y) = lm 1 in (v.less y (v.decimal 3 1), measured y)
respond v d head_down lm w h = let (x, y) = lm 1 in (v.less (v.decimal 7 1) y, measured y)
respond v d look_at_dot lm w h = (false, unknown_challenge)
respond v d smile lm w h = (false, unknown_challenge)

abbrev pub respond_to :
    (v : Numerics)
    → LivenessDetector v
    → ChallengeType
    → v.Image
    → Option (Landmarks v)
    → Bool × Detail v
respond_to v d kind image none = (false, no_face_detected)
respond_to v d kind image (some lm) = respond v d kind lm (v.width image) (v.height image)

abbrev pub responded :
    (v : Numerics)
    → LivenessDetector v
    → ChallengeType
    → v.Image
    → Result (Option (Landmarks v)) × v.Mesh
    → Result (Bool × Detail v) × LivenessDetector v
responded v d kind image (err e, m) = (err e, record d { face_mesh = m })
responded v d kind image (ok face, m) =
    (ok (respond_to v d kind image face), record d { face_mesh = m })

unfoldable pub check_challenge_response :
    (v : Numerics)
    → ChallengeType
    → v.Image
    → LivenessDetector v
    → Result (Bool × Detail v) × LivenessDetector v
unfolding respond
check_challenge_response v kind image d =
    responded v d kind image (v.mesh (v.bgr_to_rgb image) d.face_mesh)
