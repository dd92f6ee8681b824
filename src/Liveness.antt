-- ===== src/Liveness.antt =====
-- src/anti_spoofing/liveness.py: the liveness detector. Its lock is left out; `now` is
-- `time.time()`. The coercion of a crop to bytes is part of `mesh`.
pub mod Challenge
pub mod Outcome
mod Measures
unfoldable pub use Measures.*
use attendance_tracker.Prelude.{
  ℕ, ◌+◌, ◌-◌, ◌*◌, ◌/◌, Text, Option, none, some, Bool, true, false, not, ◌&&◌, List, [], ◌∷◌,
  ◌++◌, leb, ltb, if◌then◌else◌, length, any, drop, codes, ◌==◌,
}
use attendance_tracker.Database.Session.{Result, ok, err}
use attendance_tracker.Numerics.{Numerics}

-- one check: whether it is available, whether it passes, its reason if not
pub record Check : Type 0 where
  pub available : Bool
  pub passes : Bool
  pub reason : Text

abbrev pub texture_check : (v : Numerics) → LivenessConfig v → Series v → Check
texture_check v c s = record {
  available = true;
  passes = v.at_least (v.mean s.textures) c.texture_variance_min;
  reason = codes "low_texture";
}

abbrev pub blink_check : (v : Numerics) → LivenessConfig v → Series v → Check
blink_check v c s = record {
  available = leb 3 (length s.ears);
  passes = reopened v c s.ears;
  reason = codes "no_blink";
}

abbrev pub movement_check : (v : Numerics) → LivenessConfig v → Series v → Check
movement_check v c s = record {
  available = leb 5 (length s.noses);
  passes = v.at_least (movement v (v.decimal 0 0) s.noses) c.nose_movement_px;
  reason = codes "no_movement";
}

abbrev pub checks : (v : Numerics) → LivenessConfig v → Series v → List Check
checks v c s = texture_check v c s ∷ blink_check v c s ∷ movement_check v c s ∷ []

-- `available`, `passed` and `reasons`
unfoldable pub available_of : List Check → ℕ
available_of [] = 0
available_of (c ∷ cs) = (if c.available then 1 else 0) + available_of cs

unfoldable pub passed_of : List Check → ℕ
passed_of [] = 0
passed_of (c ∷ cs) = (if c.available && c.passes then 1 else 0) + passed_of cs

unfoldable pub reasons_of : List Check → List Text
reasons_of [] = []
reasons_of (c ∷ cs) =
    let rest = reasons_of cs in if c.available && not c.passes then c.reason ∷ rest else rest

-- `",".join(parts)`
abbrev pub join : List Text → Text
join [] = []
join (s ∷ []) = s
join (s ∷ t ∷ rest) = s ++ (44 ∷ join (t ∷ rest))

-- `detail`, with its mark where only the texture was available
abbrev pub detail_of : ℕ → List Text → Text
detail_of (ℕ.suc ℕ.zero) [] = codes "static_only"
detail_of (ℕ.suc ℕ.zero) (r ∷ rs) = codes "static_only," ++ join (r ∷ rs)
detail_of n [] = codes "live"
detail_of n (r ∷ rs) = join (r ∷ rs)

-- `(is_live, reason, score)`
pub record Verdict (v : Numerics) : Type 0 where
  pub is_live : Bool
  pub detail : Text
  pub score : v.Float

abbrev pub refuse : (v : Numerics) → Text → Verdict v
refuse v detail = record { is_live = false; detail = detail; score = v.decimal 0 0 }

abbrev pub threshold_of : (v : Numerics) → LivenessConfig v → Option v.Float → v.Float
threshold_of v c none = c.liveness_threshold
threshold_of v c (some t) = t

abbrev pub score_of : (v : Numerics) → List Check → v.Float
score_of v cs = v.over (v.decimal (passed_of cs) 0) (v.decimal (available_of cs) 0)

abbrev pub verdict_of : (v : Numerics) → LivenessConfig v → Option v.Float → List Check → Verdict v
verdict_of v c threshold cs = record {
  is_live = v.at_least (score_of v cs) (threshold_of v c threshold);
  detail = detail_of (available_of cs) (reasons_of cs);
  score = score_of v cs;
}

-- a flag keeps its value where its check is not available
abbrev pub flag : Check → Bool → Bool
flag c old = if c.available then c.passes else old

abbrev pub remember : (v : Numerics) → ℕ → Series v → LivenessDetector v → LivenessDetector v
remember v now s d = record d {
  ear_history = bounded 90 (d.ear_history ++ s.ears);
  nose_history = bounded 30 (d.nose_history ++ s.noses);
  texture_history = bounded 10 (d.texture_history ++ bounded 10 s.textures);
  texture_detected = (texture_check v d.config s).passes;
  blink_detected = flag (blink_check v d.config s) d.blink_detected;
  movement_detected = flag (movement_check v d.config s) d.movement_detected;
  last_blink_time =
      if (blink_check v d.config s).available && (blink_check v d.config s).passes
      then now
      else d.last_blink_time;
}

-- `_evaluate` after its loop
abbrev pub judge :
    (v : Numerics)
    → ℕ
    → Option v.Float
    → Series v
    → LivenessDetector v
    → Verdict v × LivenessDetector v
judge v now threshold s d = elim s.ears [
  | [] ↦ (refuse v (codes "no_face"), d)
  | ◌∷◌ e es ↦ (verdict_of v d.config threshold (checks v d.config s), remember v now s d)
]

-- `_evaluate`, and the `except` of `check` around it
abbrev pub evaluate :
    (v : Numerics)
    → ℕ
    → Option v.Float
    → Result (Series v)
    → LivenessDetector v
    → Verdict v × LivenessDetector v
evaluate v now threshold (err e) d = (refuse v (codes "error"), d)
evaluate v now threshold (ok s) d = judge v now threshold s d

-- `check`; a single image is a list of one frame
unfoldable pub check :
    (v : Numerics)
    → ℕ
    → List v.Image
    → Option v.Float
    → LivenessDetector v
    → Verdict v × LivenessDetector v
unfolding measure available_of passed_of reasons_of reopened movement compute_ear
check v now frames threshold d =
    let (seen, m) = measure v frames d.face_mesh in
    if length frames == 0
    then (refuse v (codes "no_frames"), d)
    else if d.config.require_sequence && ltb (length frames) 2
    then (refuse v (codes "sequence_required"), d)
    else evaluate v now threshold seen (record d { face_mesh = m })

pub record DetectorStatus (v : Numerics) : Type 0 where
  pub blink_detected : Bool
  pub movement_detected : Bool
  pub texture_detected : Bool
  pub current_ear : v.Float
  pub frames_since_blink : ℕ

abbrev last_or : {A : Type 0} → A → List A → A
last_or a [] = a
last_or a (x ∷ xs) = last_or x xs

-- `get_status`
abbrev pub get_status : (v : Numerics) → ℕ → LivenessDetector v → DetectorStatus v
get_status v now d = record {
  blink_detected = ltb (now - d.last_blink_time) d.config.blink_required_window;
  movement_detected = d.movement_detected;
  texture_detected = d.texture_detected;
  current_ear = last_or (v.decimal 0 0) d.ear_history;
  frames_since_blink = (now - d.last_blink_time) * 30 / 1000000;
}
