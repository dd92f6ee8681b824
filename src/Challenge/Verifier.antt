-- ===== src/Challenge/Verifier.antt =====
-- When a challenge is passed.
use attendance_tracker.Prelude.{
  ℕ, ◌-◌, ◌≤◌, ◌≡◌, ◌≢◌, refl, some, Bool, true, false, Option-cases, arith, inl, inr,
}
use attendance_tracker.Database.Session.{Result, ok, err}
use attendance_tracker.Numerics.{Numerics}
use attendance_tracker.Liveness.{LivenessDetector}
use attendance_tracker.Liveness.Challenge.{
  ChallengeType, look_at_dot, smile, Detail, check_challenge_response, respond,
}
use attendance_tracker.Challenge

-- what a passed challenge is: active, in time, and the detector agrees on the latest frame
pub record IsPassed (v : Numerics) (now : ℕ) (r : Challenge.ChallengeResponseVerifier v)
    (d : LivenessDetector v) : Type 0 where
  pub challenge : Challenge.Challenge
  pub frame : v.Image
  pub detail : Detail v
  pub active : r.current_challenge ≡ some challenge
  pub latest : Challenge.last r.response_frames ≡ some frame
  pub in_time : now - challenge.created_at ≤ challenge.timeout
  pub agreed : (check_challenge_response v challenge.kind frame d).0 ≡ ok (true, detail)
  pub seen : (challenge.kind ≢ look_at_dot) × (challenge.kind ≢ smile)

module _ (v : Numerics) (now : ℕ) (r : Challenge.ChallengeResponseVerifier v)
    (d : LivenessDetector v) where
  verified-true :
      (x : Result (Bool × Detail v) × LivenessDetector v) (a : Challenge.Answer v)
      → (Challenge.verified v x).0 ≡ ok (true, a)
      → (detail : Detail v) × (x.0 ≡ ok (true, detail)) × (a ≡ Challenge.challenge_passed detail)
  verified-true (err e, m) a h = absurd (ground (arith, h))
  verified-true (ok (true, detail), m) a h = (detail, refl, ground (arith, h))
  verified-true (ok (false, detail), m) a h = absurd (ground (arith, h))

  -- a kind that the detector does not know is never agreed on
  unknown :
      (kind : ChallengeType) (frame : v.Image) (detail : Detail v)
      → (check_challenge_response v kind frame d).0 ≡ ok (true, detail)
      → (kind ≢ look_at_dot) × (kind ≢ smile)
  unfolding check_challenge_response respond
  unknown kind frame detail h = (λ e. ground (arith, h, e), λ e. ground (arith, h, e))

  timed :
      (c : Challenge.Challenge) (frame : v.Image) (a : Challenge.Answer v)
      → r.current_challenge ≡ some c
      → Challenge.last r.response_frames ≡ some frame
      → (Challenge.verify v now r d).0 ≡ ok (true, a)
      → (now - c.created_at ≤ c.timeout)
        × ((Challenge.verified v (check_challenge_response v c.kind frame d)).0 ≡ ok (true, a))
  unfolding Challenge.verify
  timed c frame a e f h = (ground (arith, e, f, h), ground (arith, e, f, h))

  verify_sound :
      (a : Challenge.Answer v) → (Challenge.verify v now r d).0 ≡ ok (true, a) → IsPassed v now r d
  unfolding Challenge.verify
  verify_sound a h = elim (Option-cases r.current_challenge) [
    | inl e ↦ absurd (ground (arith, e, h))
    | inr (c, e) ↦ elim (Option-cases (Challenge.last r.response_frames)) [
      | inl f ↦ absurd (ground (arith, e, f, h))
      | inr (frame, f) ↦
          let (early, agreed) = timed c frame a e f h in
          let (detail, yes_, same) =
            verified-true (check_challenge_response v c.kind frame d) a agreed in
          record {
            challenge = c;
            frame = frame;
            detail = detail;
            active = e;
            latest = f;
            in_time = early;
            agreed = yes_;
            seen = unknown c.kind frame detail yes_;
          }
    ]
  ]

  verified_ok :
      (x : Result (Bool × Detail v) × LivenessDetector v) (detail : Detail v)
      → x.0 ≡ ok (true, detail)
      → (Challenge.verified v x).0 ≡ ok (true, Challenge.challenge_passed detail)
  verified_ok (ok (b, t), m) detail h = ground (arith, h)
  verified_ok (err e, m) detail h = absurd (ground (arith, h))

  verify_complete :
      (h : IsPassed v now r d)
      → (Challenge.verify v now r d).0 ≡ ok (true, Challenge.challenge_passed h.detail)
  unfolding Challenge.verify
  verify_complete h = ground (
    arith,
    h.active,
    h.latest,
    h.in_time,
    verified_ok (check_challenge_response v h.challenge.kind h.frame d) h.detail h.agreed,
  )

  -- A challenge is passed exactly if one is active, a frame was received, the time is not over, and
  -- the detector agrees on the latest frame. A challenge to look at the dot or to smile is never
  -- passed.
  pub verify_lem :
      ((a : Challenge.Answer v)
        → (Challenge.verify v now r d).0 ≡ ok (true, a)
        → IsPassed v now r d)
      × ((h : IsPassed v now r d)
          → (Challenge.verify v now r d).0 ≡ ok (true, Challenge.challenge_passed h.detail))
  verify_lem = (verify_sound, verify_complete)
