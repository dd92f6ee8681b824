-- ===== src/Challenge/Factors.antt =====
-- What the checker can reach by its own operations.
use attendance_tracker.Prelude.{ℕ, ◌≤◌, ◌≡◌, refl, none, false, arith}
use attendance_tracker.Database.Session.{ok}
use attendance_tracker.Numerics.{Numerics}
use attendance_tracker.Liveness.{LivenessDetector}
use attendance_tracker.Challenge

module _ (v : Numerics) where
  -- one call of a method, at some instant; `generate_challenge` changes nothing
  pub data Step (m n : Challenge.MultiFactorLivenessChecker v) : Type 0 where
    reset : n ≡ Challenge.reset_checker v m → Step m n
    passive : (now : ℕ) (image : v.Image) → n ≡ (Challenge.check_passive v now image m).1 → Step m n
    challenge :
        (now : ℕ) (c : Challenge.Challenge)
        → n ≡ (Challenge.verify_challenge v now c m).1
        → Step m n

  pub data Reach (d : LivenessDetector v) : Challenge.MultiFactorLivenessChecker v → Type 0 where
    here : Reach d (Challenge.new_checker v d)
    next : {m n : Challenge.MultiFactorLivenessChecker v} → Reach d m → Step m n → Reach d n

  pub record IsStuck (m : Challenge.MultiFactorLivenessChecker v) : Type 0 where
    pub idle : m.challenge_verifier.current_challenge ≡ none
    pub none_passed : m.challenges_passed ≡ 0
    pub one_required : m.challenges_required ≡ 1
    pub counted : m.checks_passed ≤ m.checks_performed

  Step-IsStuck : (m n : Challenge.MultiFactorLivenessChecker v) → Step m n → IsStuck m → IsStuck n
  unfolding Challenge.check_passive Challenge.verify_challenge
  Step-IsStuck m n (reset e) h = record {
    idle = ground (arith, e);
    none_passed = ground (arith, e);
    one_required = ground (arith, e, h.one_required);
    counted = ground (arith, e);
  }
  Step-IsStuck m n (passive now image e) h = record {
    idle = ground (arith, e, h.idle);
    none_passed = ground (arith, e, h.none_passed);
    one_required = ground (arith, e, h.one_required);
    counted = ground (arith, e, h.counted);
  }
  Step-IsStuck m n (challenge now c e) h = record {
    idle = ground (arith, e, h.idle);
    none_passed = ground (arith, e, h.none_passed);
    one_required = ground (arith, e, h.one_required);
    counted = ground (arith, e, h.counted);
  }

  Reach-IsStuck :
      {d : LivenessDetector v} {m : Challenge.MultiFactorLivenessChecker v} → Reach d m → IsStuck m
  Reach-IsStuck here = record {
    idle = refl;
    none_passed = refl;
    one_required = refl;
    counted = omega arith;
  }
  Reach-IsStuck (next {m = k} {n = m} r s) = Step-IsStuck k m s (Reach-IsStuck r)

  -- Whatever is called on the checker: no challenge is ever passed, since none is ever active in
  -- its verifier, and the score of an assessment counts the passive checks alone.
  pub checker_never_challenged :
      (d : LivenessDetector v) (m : Challenge.MultiFactorLivenessChecker v) (now : ℕ)
      (c : Challenge.Challenge)
      → Reach d m
      → ((Challenge.verify_challenge v now c m).0 ≡ ok (false, Challenge.no_challenge_active))
        × (m.checks_passed ≤ m.checks_performed)
        × ((Challenge.final_assessment v m).1
            ≡ v.plus
                (v.times (Challenge.ratio v m.checks_passed m.checks_performed) (v.decimal 5 1))
                (v.times (v.over (v.decimal 0 0) (v.decimal 1 0)) (v.decimal 5 1)))
  unfolding Challenge.verify_challenge Challenge.verify Challenge.final_assessment
  checker_never_challenged d m now c r =
      let h = Reach-IsStuck r in
      (ground (arith, h.idle), h.counted, rw (h.none_passed, h.one_required) refl)
