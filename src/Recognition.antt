-- ===== src/Recognition.antt =====
-- src/api/routes/recognition.py: the two recognition routes. A request has a database session, the
-- registry of matchers and the liveness detector; the other services are functions. Timings,
-- metrics and log lines, and the columns of a spoof attempt that no code reads, are left out.
pub mod Accepts
pub mod Outcome
pub mod Single
pub mod Steps
pub mod Stored
mod Tasks
unfoldable pub use Tasks.*
use attendance_tracker.Prelude.{
  ℕ, suc, ◌+◌, ◌-◌, Text, Option, none, some, Bool, true, false, not, ◌&&◌, List, [], ◌∷◌, ◌++◌, ⊤,
  length, take, find, if◌then◌else◌, ◌==◌, codes,
}
use attendance_tracker.Database.Rows.{Db, User, SpoofAttempt, auto}
use attendance_tracker.Database.Session.{
  Failure, http, internal, Result, ok, err, Session, Handler, modify, commit,
}
use attendance_tracker.Database.Session
use attendance_tracker.Platform.{Settings}
use attendance_tracker.Numerics.{Numerics, max_float}
use attendance_tracker.Matcher.{Matcher, match_user}
use attendance_tracker.Registry.{Registry, IndexConfig, get_matcher}
use attendance_tracker.Liveness.{LivenessDetector, Verdict, check, reset}
use attendance_tracker.OrgSettings.{ModelSettings, LoadedSettings, load_org_settings}
use attendance_tracker.Images.{decode_base64_image}
use attendance_tracker.Marking.{Mark, mark_attendance}

pub record RecognitionConfig (v : Numerics) : Type 0 where
  pub max_upload_size : ℕ
  pub index : IndexConfig
  pub model : ModelSettings v
  pub marking : Settings

module _ (v : Numerics) (c : RecognitionConfig v) where
  abbrev pub frame_of : Result v.Image → Option v.Image
  frame_of (err e) = none
  frame_of (ok image) = v.detect_face image

  abbrev pub face_in : Text → Option v.Image
  face_in text = frame_of (decode_base64_image v c.max_upload_size text)

  -- the extra frames that show a face; a failed decoding is skipped
  abbrev pub extra_frames : List Text → List v.Image
  extra_frames [] = []
  extra_frames (text ∷ texts) =
      let rest = extra_frames texts in elim (face_in text) [ none ↦ rest | some face ↦ face ∷ rest ]

  -- `max(requested_threshold, settings.model.intra_org_threshold_floor)`
  abbrev pub threshold_for : Option v.Float → LoadedSettings v → v.Float
  threshold_for none org_settings =
      max_float v org_settings.recognition_threshold c.model.intra_org_threshold_floor
  threshold_for (some t) org_settings = max_float v t c.model.intra_org_threshold_floor

  abbrev pub registry_matcher : ℕ → Task v (Option (Matcher v))
  registry_matcher organization_id w =
      let (r, reg) = get_matcher v c.index organization_id w.session.saved w.registry in
      (r, record { session = w.session; registry = reg; detector = w.detector })

  -- `matcher.match(embedding, threshold=threshold) if matcher else None`
  abbrev pub match_in : v.Embedding → v.Float → Option (Matcher v) → Result (Option (ℕ × v.Float))
  match_in embedding threshold none = ok none
  match_in embedding threshold (some m) = match_user v embedding threshold 1 m

  abbrev pub active_user_by_id : ℕ → Db → Option User
  active_user_by_id id db = find (λ u. u.id == id && u.is_active) db.users

  -- the user of the match, where it is an active one of the organization
  abbrev pub own_user : ℕ → Option User → v.Float → Option (User × v.Float)
  own_user organization_id none confidence = none
  own_user organization_id (some user) confidence =
      if user.organization_id == organization_id then some (user, confidence) else none

  abbrev pub matched_user : ℕ → Option (ℕ × v.Float) → Task v (Option (User × v.Float))
  matched_user organization_id none = done none
  matched_user organization_id (some (user_id, confidence)) =
      reads (active_user_by_id user_id) >>= λ found.
      done (own_user organization_id found confidence)

  -- the mark of a match
  abbrev pub auto_mark : ℕ → User → Mark
  auto_mark organization_id user = record {
    organization_id = organization_id;
    user_id = user.id;
    method = auto;
    device_id = none;
    timestamp = none;
    is_spoof = false;
    dedupe_window_minutes = none;
  }

  abbrev pub mark_if : Bool → ℕ → ℕ → User → Task v ⊤
  mark_if false now organization_id user = done tt
  mark_if true now organization_id user =
      in_session (mark_attendance c.marking now (auto_mark organization_id user)) >> done tt

  -- the answer of `recognize` after the match
  abbrev pub answer_match :
      ℕ → ℕ → Bool → Verdict v → Option (User × v.Float) → Task v (RecognizeResponse v)
  answer_match now organization_id mark live none =
      done (no_match_response v true live.score live.detail)
  answer_match now organization_id mark live (some (user, confidence)) =
      mark_if mark now organization_id user >> done (match_response v user confidence live)

  -- `recognize` after the match
  abbrev pub after_result :
      ℕ → ℕ → RecognizeRequest v → Verdict v → Option (ℕ × v.Float) → Task v (RecognizeResponse v)
  after_result now organization_id request live result =
      matched_user organization_id result
      >>= answer_match now organization_id request.auto_mark_attendance live

  abbrev pub after_matcher :
      ℕ
      → ℕ
      → RecognizeRequest v
      → LoadedSettings v
      → v.Image
      → Verdict v
      → Option (Matcher v)
      → Task v (RecognizeResponse v)
  after_matcher now organization_id request org_settings face live matcher =
      of_result (match_in (v.embed face) (threshold_for request.threshold org_settings) matcher)
      >>= after_result now organization_id request live

  -- `recognize` after the liveness check
  unfoldable pub identify :
      ℕ
      → ℕ
      → RecognizeRequest v
      → LoadedSettings v
      → v.Image
      → Verdict v
      → Task v (RecognizeResponse v)
  unfolding match_user get_matcher mark_attendance
  identify now organization_id request org_settings face live =
      registry_matcher organization_id
      >>= after_matcher now organization_id request org_settings face live

  -- the answer to a failed check
  unfoldable pub spoof_blocked : ℕ → ℕ → Verdict v → Task v (RecognizeResponse v)
  unfolding record_spoof_attempt
  spoof_blocked now organization_id live =
      record_spoof_attempt v now organization_id live.detail
      >> done (no_match_response v false live.score (or_failed v live.detail))

  abbrev pub if_live :
      ℕ
      → ℕ
      → RecognizeRequest v
      → LoadedSettings v
      → v.Image
      → Verdict v
      → Task v (RecognizeResponse v)
  if_live now organization_id request org_settings face live =
      if live.is_live
      then identify now organization_id request org_settings face live
      else spoof_blocked now organization_id live

  -- the check, with its threshold
  abbrev pub after_threshold :
      ℕ
      → ℕ
      → RecognizeRequest v
      → LoadedSettings v
      → v.Image
      → v.Float
      → Task v (RecognizeResponse v)
  after_threshold now organization_id request org_settings face threshold =
      run_liveness v now (face ∷ extra_frames request.liveness_frames_base64) threshold
      >>= if_live now organization_id request org_settings face

  -- `recognize` after the detection of the face
  abbrev pub with_face :
      ℕ → ℕ → RecognizeRequest v → LoadedSettings v → Option v.Image → Task v (RecognizeResponse v)
  with_face now organization_id request org_settings none =
      done (no_match_response v true (v.decimal 10 1) (codes "no_face_detected"))
  with_face now organization_id request org_settings (some face) =
      if request.check_liveness && org_settings.require_liveness_check
      then (of_result org_settings.liveness
          >>= after_threshold now organization_id request org_settings face)
      else identify now organization_id request org_settings face (unchecked v)

  abbrev pub after_settings :
      ℕ → ℕ → RecognizeRequest v → v.Image → LoadedSettings v → Task v (RecognizeResponse v)
  after_settings now organization_id request image org_settings =
      with_face now organization_id request org_settings (v.detect_face image)

  abbrev pub after_image : ℕ → ℕ → RecognizeRequest v → v.Image → Task v (RecognizeResponse v)
  after_image now organization_id request image =
      (reads (load_org_settings v c.model organization_id) >>= of_result)
      >>= after_settings now organization_id request image

  unfoldable pub recognize : ℕ → ℕ → RecognizeRequest v → Task v (RecognizeResponse v)
  unfolding decode_base64_image load_org_settings run_liveness identify spoof_blocked
  recognize now organization_id request =
      of_result (decode_base64_image v c.max_upload_size request.image_base64)
      >>= after_image now organization_id request
