-- ===== src/Challenge.antt =====
-- src/anti_spoofing/challenge_response.py: challenges, their verifier, and the checker that adds
-- passive checks. The verifier and the checker share one detector, so it is passed to both.
-- Descriptions are left out; `now` is `time.time()`, random choices are arguments.
pub mod Verifier
pub mod Factors
use attendance_tracker.Prelude.{
  ℕ, ◌+◌, ◌-◌, Text, Option, none, some, Bool, true, false, not, ◌&&◌, List, [], ◌∷◌, ◌++◌, ltb,
  ◌==◌, if◌then◌else◌, length, take, map, min,
}
use attendance_tracker.Database.Session.{Result, ok, err}
use attendance_tracker.Numerics.{Numerics}
use attendance_tracker.Platform.{seconds}
use attendance_tracker.Liveness.{LivenessDetector, Verdict, bounded, check}
use attendance_tracker.Liveness.Challenge.{
  ChallengeType, blink, head_left, head_right, head_up, head_down, look_at_dot, smile, Detail,
  check_challenge_response,
}

pub data Expected : Type 0 where
  closed left right up down smiling : Expected
  dot : ℕ → ℕ → Expected

pub record Challenge : Type 0 where
  pub kind : ChallengeType
  pub expected_value : Expected
  pub timeout : ℕ
  pub created_at : ℕ

-- `ChallengeGenerator.challenges`
abbrev pub challenges : List ChallengeType
challenges = blink ∷ head_left ∷ head_right ∷ head_up ∷ head_down ∷ look_at_dot ∷ smile ∷ []

-- the value for a kind, with the drawn position of the dot
abbrev pub expected_of : ℕ × ℕ → ChallengeType → Expected
expected_of spot blink = closed
expected_of spot head_left = left
expected_of spot head_right = right
expected_of spot head_up = up
expected_of spot head_down = down
expected_of (x, y) look_at_dot = dot x y
expected_of spot smile = smiling

-- `ChallengeGenerator._generate`; `generate_random` calls it on a random member of `challenges`
abbrev pub generate : ℕ → ℕ × ℕ → ChallengeType → Challenge
generate now spot kind = record {
  kind = kind;
  expected_value = expected_of spot kind;
  timeout = seconds 10;
  created_at = now;
}

-- `generate_sequence`, on the shuffled copy of `challenges`
abbrev pub generate_sequence : ℕ → ℕ × ℕ → List ChallengeType → ℕ → List Challenge
generate_sequence now spot shuffled count =
    map (generate now spot) (take (min count (length shuffled)) shuffled)

pub record ChallengeResponseVerifier (v : Numerics) : Type 0 where
  pub current_challenge : Option Challenge
  pub response_frames : List v.Image
  pub responses_received : ℕ

abbrev pub new_verifier : (v : Numerics) → ChallengeResponseVerifier v
new_verifier v = record { current_challenge = none; response_frames = []; responses_received = 0 }

abbrev pub set_challenge :
    (v : Numerics) → Challenge → ChallengeResponseVerifier v → ChallengeResponseVerifier v
set_challenge v c r = record {
  current_challenge = some c;
  response_frames = [];
  responses_received = 0;
}

unfoldable pub add_frame :
    (v : Numerics) → v.Image → ChallengeResponseVerifier v → ChallengeResponseVerifier v
add_frame v frame r = elim r.current_challenge [
  | none ↦ r
  | some c ↦ record r { response_frames = bounded 30 (r.response_frames ++ frame ∷ []) }
]

pub data Answer (v : Numerics) : Type 0 where
  no_challenge_active no_frames_received : Answer v
  timeout_expired : ℕ → Answer v
  challenge_passed challenge_failed : Detail v → Answer v

abbrev pub last : {A : Type 0} → List A → Option A
last [] = none
last (x ∷ []) = some x
last (x ∷ y ∷ ys) = last (y ∷ ys)

abbrev pub answer_of : (v : Numerics) → Bool × Detail v → Bool × Answer v
answer_of v (true, detail) = (true, challenge_passed detail)
answer_of v (false, detail) = (false, challenge_failed detail)

abbrev pub verified :
    (v : Numerics)
    → Result (Bool × Detail v) × LivenessDetector v
    → Result (Bool × Answer v) × LivenessDetector v
verified v (err e, d) = (err e, d)
verified v (ok a, d) = (ok (answer_of v a), d)

-- `verify`; an exception of the face mesh passes through
unfoldable pub verify :
    (v : Numerics)
    → ℕ
    → ChallengeResponseVerifier v
    → LivenessDetector v
    → Result (Bool × Answer v) × LivenessDetector v
unfolding check_challenge_response
verify v now r d = elim r.current_challenge [
  | none ↦ (ok (false, no_challenge_active), d)
  | some c ↦ elim (last r.response_frames) [
    | none ↦ (ok (false, no_frames_received), d)
    | some frame ↦
        if ltb c.timeout (now - c.created_at)
        then (ok (false, timeout_expired (now - c.created_at)), d)
        else verified v (check_challenge_response v c.kind frame d)
  ]
]

pub record RandomDigitChallenge : Type 0 where
  pub current_digit : Option ℕ
  pub display_start_time : ℕ

abbrev pub display_duration : ℕ
display_duration = seconds 3

-- `generate`
abbrev pub show_digit : ℕ → ℕ → RandomDigitChallenge
show_digit now digit = record { current_digit = some digit; display_start_time = now }

pub data Spoken : Type 0 where
  no_digit response_timeout correct : Spoken
  wrong_digit : ℕ → ℕ → Spoken

unfoldable pub verify_spoken : ℕ → ℕ → ℕ → RandomDigitChallenge → Bool × Spoken
verify_spoken now spoken max_response_time r = elim r.current_digit [
  | none ↦ (false, no_digit)
  | some digit ↦
      if ltb (display_duration + max_response_time) (now - r.display_start_time)
      then (false, response_timeout)
      else if spoken == digit
      then (true, correct)
      else (false, wrong_digit digit spoken)
]

abbrev pub is_display_active : ℕ → RandomDigitChallenge → Bool
is_display_active now r = elim r.current_digit [
  | none ↦ false
  | some digit ↦ ltb (now - r.display_start_time) display_duration
]

pub record MultiFactorLivenessChecker (v : Numerics) : Type 0 where
  pub detector : LivenessDetector v
  pub challenge_verifier : ChallengeResponseVerifier v
  pub checks_performed : ℕ
  pub checks_passed : ℕ
  pub challenges_passed : ℕ
  pub challenges_required : ℕ

abbrev pub new_checker : (v : Numerics) → LivenessDetector v → MultiFactorLivenessChecker v
new_checker v d = record {
  detector = d;
  challenge_verifier = new_verifier v;
  checks_performed = 0;
  checks_passed = 0;
  challenges_passed = 0;
  challenges_required = 1;
}

-- `reset`
abbrev pub reset_checker :
    (v : Numerics) → MultiFactorLivenessChecker v → MultiFactorLivenessChecker v
reset_checker v m = record m {
  challenge_verifier = new_verifier v;
  checks_performed = 0;
  checks_passed = 0;
  challenges_passed = 0;
}

-- `check_passive`
unfoldable pub check_passive :
    (v : Numerics)
    → ℕ
    → v.Image
    → MultiFactorLivenessChecker v
    → Verdict v × MultiFactorLivenessChecker v
check_passive v now image m =
    let (verdict, d) = check v now (image ∷ []) none m.detector in
    (
      verdict,
      record m {
        detector = d;
        checks_performed = m.checks_performed + 1;
        checks_passed = if verdict.is_live then m.checks_passed + 1 else m.checks_passed;
      },
    )

-- `verify_challenge`, which does not read the challenge
unfoldable pub verify_challenge :
    (v : Numerics)
    → ℕ
    → Challenge
    → MultiFactorLivenessChecker v
    → Result (Bool × Answer v) × MultiFactorLivenessChecker v
unfolding verify
verify_challenge v now c m =
    let (answer, d) = verify v now m.challenge_verifier m.detector in
    (answer, record m { detector = d })

-- `passed / total if total > 0 else 0`
abbrev pub ratio : (v : Numerics) → ℕ → ℕ → v.Float
ratio v passed total =
    if ltb 0 total then v.over (v.decimal passed 0) (v.decimal total 0) else v.decimal 0 0

-- `final_assessment`: whether the user is verified, and the overall score
unfoldable pub final_assessment : (v : Numerics) → MultiFactorLivenessChecker v → Bool × v.Float
final_assessment v m =
    let score =
      v.plus (v.times (ratio v m.checks_passed m.checks_performed) (v.decimal 5 1))
        (v.times (ratio v m.challenges_passed m.challenges_required) (v.decimal 5 1)) in
    (v.at_least score (v.decimal 67 2), score)
