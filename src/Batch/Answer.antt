-- ===== src/Batch/Answer.antt =====
-- What `batch_recognize` answers, and that it answers.
use attendance_tracker.Prelude.{ℕ, ◌≡◌, refl, Option, not, ◌&&◌, [], length, count, All, arith}
use attendance_tracker.Database.Session.{Result, ok}
use attendance_tracker.Numerics.{Numerics}
use attendance_tracker.Matcher
use attendance_tracker.OrgSettings
use attendance_tracker.Registry
use attendance_tracker.Recognition
use attendance_tracker.Batch
use attendance_tracker.Batch.Counts

module _ (v : Numerics) (c : Recognition.RecognitionConfig v) (now org : ℕ)
    (request : Batch.BatchRecognizeRequest v) (w : Recognition.World v)
    (m : Option (Matcher.Matcher v)) (s : OrgSettings.LoadedSettings v) where
  abbrev pub batch : Batch.Batch v
  batch = record {
    organization_id = org;
    matcher = m;
    settings = s;
    checks = request.check_liveness && s.require_liveness_check;
    threshold = Recognition.threshold_for v c request.threshold s;
  }

  -- an answer, with a result for each image, the counts of the results with and without a match,
  -- every match of an active user of the organization, and no mark written
  pub record Answered (out : Result (Batch.BatchRecognizeResponse v) × Recognition.World v)
      : Type 0 where
    pub response : Batch.BatchRecognizeResponse v
    pub returns : out.0 ≡ ok response
    pub one_each : length response.results ≡ length request.images_base64
    pub total : response.total_images ≡ length request.images_base64
    pub matched : response.matched ≡ Counts.matched_count response.results
    pub unmatched :
        response.unmatched
        ≡ count (λ (r : Recognition.RecognizeResponse v). not r.matched) response.results
    pub own :
        All
          (Counts.IsOwnResult v w.session.working.users w.session.working.attendance c now batch)
          response.results
    pub no_mark : out.1.session.working.attendance ≡ w.session.working.attendance

  -- Where the registry answers, the settings load, their liveness threshold is a number and the
  -- matcher raises for no vector, the batch answers. It has a result for each image, its counts are
  -- those of the results with and without a match, every match is of an active user of the
  -- requester's organization, and it marks nobody.
  pub batch_recognize_answers :
      (Registry.get_matcher v c.index org w.session.saved w.registry).0 ≡ ok m
      → OrgSettings.load_org_settings v c.model org w.session.working ≡ ok s
      → (t : v.Float) × (s.liveness ≡ ok t)
      → ((e : v.Embedding)
          → (r : Option (ℕ × v.Float)) × (Recognition.match_in v c e
                (Recognition.threshold_for v c request.threshold s)
                m
              ≡ ok r))
      → Answered (Batch.batch_recognize v c now org request w)
  unfolding Batch.batch_recognize
  batch_recognize_answers known loaded liveness hits =
      let w1 : Recognition.World v = (Recognition.registry_matcher v c org w).1 in
      let r =
        Counts.recognize_all-Tallies v w.session.working.users w.session.working.attendance c now
          batch hits liveness 0 request.images_base64 ([], 0)
          (record { one_each = refl; counted = refl; own = tt }) w1
          (record { users_kept = refl; attendance_kept = refl }) in
      let same : Batch.batch_recognize v c now org request w
          ≡ (ok (Batch.batch_response v c (length request.images_base64) r.answer), r.world) =
        ground (arith, known, loaded, r.returns) in
      record {
        response = Batch.batch_response v c (length request.images_base64) r.answer;
        returns = ground (arith, same);
        one_each = omega (arith, r.holds.one_each);
        total = refl;
        matched = r.holds.counted;
        unmatched = omega (
          arith,
          r.holds.one_each,
          r.holds.counted,
          Counts.count-not (λ (x : Recognition.RecognizeResponse v). x.matched) r.answer.0,
        );
        own = r.holds.own;
        no_mark = ground (arith, same, r.keeps.attendance_kept);
      }
