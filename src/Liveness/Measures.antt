-- ===== src/Liveness/Measures.antt =====
-- The state of the liveness detector of src/anti_spoofing/liveness.py, and what it measures.
use attendance_tracker.Prelude.{
  ℕ, ◌-◌, Option, none, some, Bool, false, List, [], ◌∷◌, if◌then◌else◌, length, any, drop,
}
use attendance_tracker.Database.Session.{Result, ok, err}
use attendance_tracker.Numerics.{Numerics}

-- `settings.anti_spoof`; the window is a number of microseconds
pub record LivenessConfig (v : Numerics) : Type 0 where
  pub ear_closed : v.Float
  pub ear_open : v.Float
  pub nose_movement_px : v.Float
  pub texture_variance_min : v.Float
  pub liveness_threshold : v.Float
  pub blink_required_window : ℕ
  pub require_sequence : Bool

pub record LivenessDetector (v : Numerics) : Type 0 where
  pub config : LivenessConfig v
  pub face_mesh : v.Mesh
  pub ear_history : List v.Float
  pub nose_history : List (v.Float × v.Float)
  pub texture_history : List v.Float
  pub last_blink_time : ℕ
  pub blink_detected : Bool
  pub movement_detected : Bool
  pub texture_detected : Bool

-- `reset`
abbrev pub reset : (v : Numerics) → LivenessDetector v → LivenessDetector v
reset v d = record d {
  ear_history = [];
  nose_history = [];
  texture_history = [];
  last_blink_time = 0;
  blink_detected = false;
  movement_detected = false;
  texture_detected = false;
}

-- the last `n` entries: `deque(maxlen=n)`
abbrev pub bounded : {A : Type 0} → ℕ → List A → List A
bounded n xs = drop (length xs - n) xs

abbrev pub Landmarks : Numerics → Type 0
Landmarks v = ℕ → v.Float × v.Float

-- the pixel of a landmark
abbrev pub pixel : (v : Numerics) → Landmarks v → ℕ → ℕ → ℕ → v.Float × v.Float
pixel v lm w h i =
    let (x, y) = lm i in
    (v.truncate (v.times x (v.decimal w 0)), v.truncate (v.times y (v.decimal h 0)))

-- the length of `a - b`
abbrev pub distance : (v : Numerics) → v.Float × v.Float → v.Float × v.Float → v.Float
distance v (x, y) (x', y') = v.hypot (v.minus x x') (v.minus y y')

-- the six indices of an eye, in their order
pub record EyeIndices : Type 0 where
  pub i0 : ℕ
  pub i1 : ℕ
  pub i2 : ℕ
  pub i3 : ℕ
  pub i4 : ℕ
  pub i5 : ℕ

abbrev pub left_eye_idxs : EyeIndices
left_eye_idxs = record { i0 = 33; i1 = 160; i2 = 158; i3 = 133; i4 = 153; i5 = 144 }

abbrev pub right_eye_idxs : EyeIndices
right_eye_idxs = record { i0 = 362; i1 = 385; i2 = 387; i3 = 263; i4 = 373; i5 = 380 }

-- `_compute_ear`
unfoldable pub compute_ear : (v : Numerics) → Landmarks v → EyeIndices → ℕ → ℕ → v.Float
compute_ear v lm e w h =
    let vertical1 = distance v (pixel v lm w h e.i1) (pixel v lm w h e.i5) in
    let vertical2 = distance v (pixel v lm w h e.i2) (pixel v lm w h e.i4) in
    let horizontal = distance v (pixel v lm w h e.i0) (pixel v lm w h e.i3) in
    v.over (v.plus vertical1 vertical2)
      (v.plus (v.times (v.decimal 2 0) horizontal) (v.decimal 1 6))

abbrev pub average_ear : (v : Numerics) → Landmarks v → ℕ → ℕ → v.Float
average_ear v lm w h =
    v.over (v.plus (compute_ear v lm left_eye_idxs w h) (compute_ear v lm right_eye_idxs w h))
      (v.decimal 2 0)

-- the three lists that the loop of `_evaluate` fills
pub record Series (v : Numerics) : Type 0 where
  pub ears : List v.Float
  pub noses : List (v.Float × v.Float)
  pub textures : List v.Float

abbrev pub no_series : (v : Numerics) → Series v
no_series v = record { ears = []; noses = []; textures = [] }

abbrev pub add_frame : (v : Numerics) → v.Image → Landmarks v → Series v → Series v
add_frame v frame lm s = record {
  ears = average_ear v lm (v.width frame) (v.height frame) ∷ s.ears;
  noses = pixel v lm (v.width frame) (v.height frame) 1 ∷ s.noses;
  textures = v.texture frame ∷ s.textures;
}

-- the rest of the loop, after what the mesh saw on a frame; an exception ends it
abbrev pub with_face :
    (v : Numerics) → v.Image → Option (Landmarks v) → Result (Series v) → Result (Series v)
with_face v frame none rest = rest
with_face v frame (some lm) (ok s) = ok (add_frame v frame lm s)
with_face v frame (some lm) (err e) = err e

-- after the mesh has seen a frame, with what the rest of the loop gives
abbrev pub after_mesh :
    (v : Numerics)
    → v.Image
    → Result (Option (Landmarks v)) × v.Mesh
    → Result (Series v) × v.Mesh
    → Result (Series v) × v.Mesh
after_mesh v frame (err e, m) rest = (err e, m)
after_mesh v frame (ok face, m) (rest, m') = (with_face v frame face rest, m')

-- the loop of `_evaluate` over the frames
unfoldable pub measure : (v : Numerics) → List v.Image → v.Mesh → Result (Series v) × v.Mesh
measure v [] m = (ok (no_series v), m)
measure v (frame ∷ frames) m =
    let rest = measure v frames (v.mesh frame m).1 in after_mesh v frame (v.mesh frame m) rest

-- below `ear_closed` first, and later above `ear_open`
unfoldable pub reopened : (v : Numerics) → LivenessConfig v → List v.Float → Bool
reopened v c [] = false
reopened v c (ear ∷ ears) =
    let later = reopened v c ears in
    if v.less ear c.ear_closed then any (λ x. v.less c.ear_open x) ears else later

-- the cumulative displacement, from the sum so far
unfoldable pub movement : (v : Numerics) → v.Float → List (v.Float × v.Float) → v.Float
movement v total [] = total
movement v total (a ∷ []) = total
movement v total (a ∷ b ∷ rest) = movement v (v.plus total (distance v b a)) (b ∷ rest)
