-- ===== src/Liveness/Outcome.antt =====
-- What the detector answers, on every path.
use attendance_tracker.Prelude.{
  ℕ, ◌+◌, ◌≡◌, ◌≤◌, ◌<◌, refl, Option, none, some, true, false, ◌&&◌, List, [], ◌∷◌, ltb, ◌⊎◌, inl,
  inr, length, arith, ◌==◌, Bool-cases, subst, ==_iff, leb, if◌then◌else◌,
}
use attendance_tracker.Database.Session.{Result, ok, err, Failure}
use attendance_tracker.Numerics.{Numerics}
use attendance_tracker.Liveness

passed_and_reasons :
    (cs : List Liveness.Check)
    → Liveness.passed_of cs + length (Liveness.reasons_of cs) ≡ Liveness.available_of cs
unfolding Liveness.passed_of Liveness.reasons_of Liveness.available_of
passed_and_reasons [] = refl
passed_and_reasons (c ∷ cs) = ground (arith, passed_and_reasons cs)

-- the three lists are of one length, that of the frames at most
pub record Measured (v : Numerics) (frames : List v.Image) (s : Liveness.Series v) : Type 0 where
  pub noses : length s.noses ≡ length s.ears
  pub textures : length s.textures ≡ length s.ears
  pub few : length s.ears ≤ length frames

no_items : {A : Type 0} (xs : List A) → length xs ≡ 0 → xs ≡ []
no_items [] h = refl
no_items (x ∷ xs) h = absurd (omega (arith, h))

module _ (v : Numerics) where
  abbrev pub seen_of : List v.Image → v.Mesh → Result (Liveness.Series v)
  seen_of frames m = (Liveness.measure v frames m).0

  abbrev IsFine : List v.Image → Result (Liveness.Series v) → Type 0
  IsFine frames (err e) = Unit
  IsFine frames (ok s) = Measured v frames s

  with_face-IsFine :
      (f : v.Image) (fs : List v.Image) (face : Option (Liveness.Landmarks v))
      (rest : Result (Liveness.Series v))
      → IsFine fs rest
      → IsFine (f ∷ fs) (Liveness.with_face v f face rest)
  with_face-IsFine f fs none (err e) h = tt
  with_face-IsFine f fs none (ok s) h = record {
    noses = h.noses;
    textures = h.textures;
    few = omega (arith, h.few);
  }
  with_face-IsFine f fs (some lm) (err e) h = tt
  with_face-IsFine f fs (some lm) (ok s) h = record {
    noses = omega (arith, h.noses);
    textures = omega (arith, h.textures);
    few = omega (arith, h.few);
  }

  after_mesh-IsFine :
      (f : v.Image) (fs : List v.Image) (seen : Result (Option (Liveness.Landmarks v)) × v.Mesh)
      (rest : Result (Liveness.Series v) × v.Mesh)
      → IsFine fs rest.0
      → IsFine (f ∷ fs) (Liveness.after_mesh v f seen rest).0
  after_mesh-IsFine f fs (err e, m) rest h = tt
  after_mesh-IsFine f fs (ok face, m) (rest, m') h = with_face-IsFine f fs face rest h

  measure-IsFine : (frames : List v.Image) (m : v.Mesh) → IsFine frames (seen_of frames m)
  unfolding Liveness.measure
  measure-IsFine [] m = record { noses = refl; textures = refl; few = omega arith }
  measure-IsFine (f ∷ fs) m =
      after_mesh-IsFine f fs (v.mesh f m) (Liveness.measure v fs (v.mesh f m).1)
        (measure-IsFine fs (v.mesh f m).1)

  -- an answer without a measurement: not live, and of score 0
  pub record Unmeasured (c : Liveness.LivenessConfig v) (frames : List v.Image) (m : v.Mesh)
      (a : Liveness.Verdict v) : Type 0 where
    pub not_live : a.is_live ≡ false
    pub zero_score : a.score ≡ v.decimal 0 0
    pub cause :
        (frames ≡ [])
        ⊎ (((c.require_sequence ≡ true) × (length frames < 2))
            ⊎ (((e : Failure) × (seen_of frames m ≡ err e))
                ⊎ ((s : Liveness.Series v) × (seen_of frames m ≡ ok s) × (s.ears ≡ []))))

  -- an answer from `passed` of `available` checks
  pub record Scored (c : Liveness.LivenessConfig v) (threshold : Option v.Float)
      (frames : List v.Image) (m : v.Mesh) (a : Liveness.Verdict v) : Type 0 where
    pub series : Liveness.Series v
    pub seen : seen_of frames m ≡ ok series
    pub measured : Measured v frames series
    pub passed : ℕ
    pub available : ℕ
    pub passed_checks :
        passed
        ≡ (if v.at_least (v.mean series.textures) c.texture_variance_min then 1 else 0)
          + ((if leb 3 (length series.ears) && Liveness.reopened v c series.ears then 1 else 0)
              + (if leb 5 (length series.noses)
                    && v.at_least
                        (Liveness.movement v (v.decimal 0 0) series.noses)
                        c.nose_movement_px
                  then 1
                  else 0))
    pub available_checks :
        available
        ≡ 1
          + ((if leb 3 (length series.ears) then 1 else 0)
              + (if leb 5 (length series.noses) then 1 else 0))
    pub some_available : 0 < available
    pub three_at_most : available ≤ 3
    pub passed_le : passed ≤ available
    pub score : a.score ≡ v.over (v.decimal passed 0) (v.decimal available 0)
    pub decided : a.is_live ≡ v.at_least a.score (Liveness.threshold_of v c threshold)
    pub static : length series.ears < 3 → available ≡ 1
    pub all_passed : passed ≡ available → Liveness.reasons_of (Liveness.checks v c series) ≡ []

  module _ (now : ℕ) (frames : List v.Image) (threshold : Option v.Float)
      (d : Liveness.LivenessDetector v) where
    abbrev pub answer : Liveness.Verdict v
    answer = (Liveness.check v now frames threshold d).0

    scored :
        (e : v.Float) (es : List v.Float) (s : Liveness.Series v)
        → seen_of frames d.face_mesh ≡ ok s
        → s.ears ≡ e ∷ es
        → answer ≡ Liveness.verdict_of v d.config threshold (Liveness.checks v d.config s)
        → Scored d.config threshold frames d.face_mesh answer
    unfolding Liveness.available_of Liveness.passed_of
    scored e es s seen ears same =
        let cs = Liveness.checks v d.config s in
        let fine : Measured v frames s =
          subst (IsFine frames) seen (measure-IsFine frames d.face_mesh) in
        record {
          series = s;
          seen = seen;
          measured = fine;
          passed = Liveness.passed_of cs;
          available = Liveness.available_of cs;
          passed_checks = ground arith;
          available_checks = ground arith;
          some_available = ground arith;
          three_at_most = ground arith;
          passed_le = ground (arith, passed_and_reasons cs);
          score = ground (arith, same);
          decided = ground (arith, same);
          static = λ short. ground (arith, short, fine.noses);
          all_passed = λ all. no_items _ (ground (arith, all, passed_and_reasons cs));
        }

    judged :
        (s : Liveness.Series v) (ears : List v.Float)
        → s.ears ≡ ears
        → seen_of frames d.face_mesh ≡ ok s
        → answer
          ≡ (Liveness.evaluate v now threshold
              (ok s)
              (record d { face_mesh = (Liveness.measure v frames d.face_mesh).1 })).0
        → Unmeasured d.config frames d.face_mesh answer
          ⊎ Scored d.config threshold frames d.face_mesh answer
    judged s [] e seen same = inl (record {
      not_live = ground (arith, e, same);
      zero_score = ground (arith, e, same);
      cause = inr (inr (inr (s, seen, e)));
    })
    judged s (x ∷ xs) e seen same = inr (scored x xs s seen e (ground (arith, e, same)))

    evaluated :
        (r : Result (Liveness.Series v))
        → seen_of frames d.face_mesh ≡ r
        → answer
          ≡ (Liveness.evaluate v now threshold
              (seen_of frames d.face_mesh)
              (record d { face_mesh = (Liveness.measure v frames d.face_mesh).1 })).0
        → Unmeasured d.config frames d.face_mesh answer
          ⊎ Scored d.config threshold frames d.face_mesh answer
    evaluated (err e) seen same = inl (record {
      not_live = ground (arith, seen, same);
      zero_score = ground (arith, seen, same);
      cause = inr (inr (inl (e, seen)));
    })
    evaluated (ok s) seen same = judged s s.ears refl seen (ground (arith, seen, same))

    pub check_cases :
        Unmeasured d.config frames d.face_mesh answer
        ⊎ Scored d.config threshold frames d.face_mesh answer
    unfolding Liveness.check
    check_cases = elim (Bool-cases (length frames == 0)) [
      | inl e ↦ inl (record {
        not_live = ground (arith, e);
        zero_score = ground (arith, e);
        cause = inl (no_items frames ((==_iff (length frames) 0).0 e));
      })
      | inr e ↦ elim (Bool-cases (d.config.require_sequence && ltb (length frames) 2)) [
        | inl f ↦ inl (record {
          not_live = ground (arith, e, f);
          zero_score = ground (arith, e, f);
          cause = inr (inl (ground (arith, f), ground (arith, f)));
        })
        | inr f ↦ evaluated (Liveness.measure v frames d.face_mesh).0 refl (ground (arith, e, f))
      ]
    ]
