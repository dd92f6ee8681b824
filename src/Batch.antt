-- ===== src/Batch.antt =====
-- `batch_recognize` of src/api/routes/recognition.py: one request with many images.
pub mod Answer
pub mod Counts
pub mod Returns
use attendance_tracker.Prelude.{
  ℕ, ◌+◌, ◌-◌, Text, Option, none, some, Bool, true, false, ◌&&◌, List, [], ◌∷◌, ◌++◌, length,
  if◌then◌else◌, codes,
}
use attendance_tracker.Database.Rows.{User}
use attendance_tracker.Database.Session.{Failure, Result, ok, err}
use attendance_tracker.Numerics.{Numerics}
use attendance_tracker.Matcher.{Matcher, match_user}
use attendance_tracker.Liveness.{Verdict}
use attendance_tracker.OrgSettings.{LoadedSettings, load_org_settings}
use attendance_tracker.Images.{decode_base64_image}
use attendance_tracker.Recognition.{
  RecognitionConfig, RecognizeResponse, Task, World, done, of_result, reads, no_match_response,
  match_response, unchecked, run_liveness, record_spoof_attempt, or_failed, registry_matcher,
  match_in, matched_user, threshold_for, ◌>>=◌, ◌>>◌,
}

pub record BatchRecognizeRequest (v : Numerics) : Type 0 where
  pub images_base64 : List Text
  pub threshold : Option v.Float
  pub check_liveness : Bool

pub record BatchRecognizeResponse (v : Numerics) : Type 0 where
  pub results : List (RecognizeResponse v)
  pub total_images : ℕ
  pub matched : ℕ
  pub unmatched : ℕ

-- what the loop reads, the same for every image
pub record Batch (v : Numerics) : Type 0 where
  pub organization_id : ℕ
  pub matcher : Option (Matcher v)
  pub settings : LoadedSettings v
  pub checks : Bool
  pub threshold : v.Float

-- `results` and `matched_count`
abbrev pub Tally : Numerics → Type 0
Tally v = List (RecognizeResponse v) × ℕ

module _ (v : Numerics) (c : RecognitionConfig v) (now : ℕ) (b : Batch v) where
  -- one more result without a match
  abbrev pub missed : Tally v → RecognizeResponse v → Tally v
  missed (results, n) r = (results ++ r ∷ [], n)

  abbrev pub tally_match : Tally v → Verdict v → Option (User × v.Float) → Tally v
  tally_match t live none = missed t (no_match_response v true live.score (codes "no_match"))
  tally_match (results, n) live (some (user, confidence)) =
      (results ++ match_response v user confidence live ∷ [], n + 1)

  abbrev pub tally_result : Tally v → Verdict v → Option (ℕ × v.Float) → Task v (Tally v)
  tally_result t live result =
      matched_user v c b.organization_id result >>= λ found. done (tally_match t live found)

  abbrev pub tally_live : Tally v → v.Image → Verdict v → Task v (Tally v)
  tally_live t face live =
      of_result (match_in v c (v.embed face) b.threshold b.matcher) >>= tally_result t live

  abbrev pub tally_spoof : Tally v → Verdict v → Task v (Tally v)
  tally_spoof t live =
      record_spoof_attempt v now b.organization_id live.detail
      >> done (missed t (no_match_response v false live.score (or_failed v live.detail)))

  abbrev pub tally_verdict : Tally v → v.Image → Verdict v → Task v (Tally v)
  tally_verdict t face live = if live.is_live then tally_live t face live else tally_spoof t live

  abbrev pub tally_threshold : Tally v → v.Image → v.Float → Task v (Tally v)
  tally_threshold t face threshold =
      run_liveness v now (face ∷ []) threshold >>= tally_verdict t face

  abbrev pub tally_face : Tally v → Option v.Image → Task v (Tally v)
  tally_face t none =
      done (missed t (no_match_response v true (v.decimal 10 1) (codes "no_face_detected")))
  tally_face t (some face) =
      if b.checks
      then (of_result b.settings.liveness >>= tally_threshold t face)
      else tally_live t face (unchecked v)

  abbrev pub tally_image : Tally v → Result v.Image → Task v (Tally v)
  tally_image t (err e) =
      done (missed t (no_match_response v true (v.decimal 10 1) (codes "invalid_image")))
  tally_image t (ok image) = tally_face t (v.detect_face image)

  -- the loop
  unfoldable pub recognize_all : List Text → Tally v → Task v (Tally v)
  unfolding decode_base64_image match_user record_spoof_attempt run_liveness
  recognize_all [] t = done t
  recognize_all (text ∷ texts) t =
      tally_image t (decode_base64_image v c.max_upload_size text) >>= recognize_all texts

module _ (v : Numerics) (c : RecognitionConfig v) where
  abbrev pub batch_response : ℕ → Tally v → BatchRecognizeResponse v
  batch_response total (results, n) = record {
    results = results;
    total_images = total;
    matched = n;
    unmatched = total - n;
  }

  abbrev pub after_settings :
      ℕ
      → ℕ
      → BatchRecognizeRequest v
      → Option (Matcher v)
      → LoadedSettings v
      → Task v (BatchRecognizeResponse v)
  after_settings now organization_id request matcher settings =
      recognize_all v c now
        (record {
          organization_id = organization_id;
          matcher = matcher;
          settings = settings;
          checks = request.check_liveness && settings.require_liveness_check;
          threshold = threshold_for v c request.threshold settings;
        })
        request.images_base64 ([], 0)
      >>= λ t. done (batch_response (length request.images_base64) t)

  abbrev pub after_matcher :
      ℕ → ℕ → BatchRecognizeRequest v → Option (Matcher v) → Task v (BatchRecognizeResponse v)
  after_matcher now organization_id request matcher =
      (reads (load_org_settings v c.model organization_id) >>= of_result)
      >>= after_settings now organization_id request matcher

  unfoldable pub batch_recognize :
      ℕ → ℕ → BatchRecognizeRequest v → Task v (BatchRecognizeResponse v)
  unfolding recognize_all load_org_settings
  batch_recognize now organization_id request =
      registry_matcher v c organization_id >>= after_matcher now organization_id request
