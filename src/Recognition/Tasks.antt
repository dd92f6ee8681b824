-- ===== src/Recognition/Tasks.antt =====
-- The state of a recognition request and its steps, and the answers and the liveness step that the
-- routes of src/api/routes/recognition.py share.
use attendance_tracker.Prelude.{
  ℕ, Text, Option, none, some, Bool, true, false, List, [], ◌∷◌, ◌++◌, ⊤, take, codes,
}
use attendance_tracker.Database.Rows.{Db, User, SpoofAttempt}
use attendance_tracker.Database.Session.{
  Failure, http, internal, Result, ok, err, Session, Handler, modify, commit,
}
use attendance_tracker.Database.Session
use attendance_tracker.Numerics.{Numerics}
use attendance_tracker.Registry.{Registry}
use attendance_tracker.Liveness.{LivenessDetector, Verdict, check, reset}

pub record World (v : Numerics) : Type 0 where
  pub session : Session
  pub registry : Registry v
  pub detector : LivenessDetector v

abbrev pub Task : Numerics → Type 0 → Type 0
Task v A = World v → Result A × World v

module _ {v : Numerics} where
  abbrev pub done : {A : Type 0} → A → Task v A
  done a w = (ok a, w)

  abbrev pub of_result : {A : Type 0} → Result A → Task v A
  of_result r w = (r, w)

  -- a read of the session's tables
  abbrev pub reads : {A : Type 0} → (Db → A) → Task v A
  reads f w = (ok (f w.session.working), w)

  abbrev pub in_session : {A : Type 0} → Handler A → Task v A
  in_session m w =
      let (r, s) = m w.session in
      (r, record { session = s; registry = w.registry; detector = w.detector })

  infixl 5 ◌>>=◌ ◌>>◌
  abbrev pub ◌>>=◌ : {A B : Type 0} → Task v A → (A → Task v B) → Task v B
  ◌>>=◌ m f w = let (r, w') = m w in elim r [ ok a ↦ f a w' | err e ↦ (err e, w') ]

  abbrev pub ◌>>◌ : {A B : Type 0} → Task v A → Task v B → Task v B
  m >> k = m >>= λ _. k

pub record RecognizeRequest (v : Numerics) : Type 0 where
  pub image_base64 : Text
  pub liveness_frames_base64 : List Text
  pub threshold : Option v.Float
  pub check_liveness : Bool
  pub auto_mark_attendance : Bool

pub record RecognizeResponse (v : Numerics) : Type 0 where
  pub matched : Bool
  pub user_id : Option ℕ
  pub name : Option Text
  pub external_id : Option Text
  pub confidence : v.Float
  pub is_live : Bool
  pub liveness_score : v.Float
  pub liveness_details : Text

module _ (v : Numerics) where
  -- `_no_match_response`
  abbrev pub no_match_response : Bool → v.Float → Text → RecognizeResponse v
  no_match_response is_live liveness_score liveness_details = record {
    matched = false;
    user_id = none;
    name = none;
    external_id = none;
    confidence = v.decimal 0 1;
    is_live = is_live;
    liveness_score = liveness_score;
    liveness_details = liveness_details;
  }

  abbrev pub match_response : User → v.Float → Verdict v → RecognizeResponse v
  match_response user confidence live = record {
    matched = true;
    user_id = some user.id;
    name = some user.name;
    external_id = user.external_id;
    confidence = v.round 4 confidence;
    is_live = live.is_live;
    liveness_score = live.score;
    liveness_details = live.detail;
  }

  -- the values before a check, and without one
  abbrev pub unchecked : Verdict v
  unchecked = record { is_live = true; detail = codes "live"; score = v.decimal 10 1 }

  -- `_run_liveness`
  unfoldable pub run_liveness : ℕ → List v.Image → v.Float → Task v (Verdict v)
  run_liveness now frames threshold w =
      let (verdict, d) = check v now frames (some threshold) (reset v w.detector) in
      (ok verdict, record { session = w.session; registry = w.registry; detector = d })

  abbrev pub add_spoof_attempt : SpoofAttempt → Db → Db
  add_spoof_attempt a db = record db { spoof_attempts = db.spoof_attempts ++ a ∷ [] }

  -- `_record_spoof_attempt`
  unfoldable pub record_spoof_attempt : ℕ → ℕ → Text → Task v ⊤
  record_spoof_attempt now organization_id reason = in_session (
      Session.◌>>◌
        (modify (
          add_spoof_attempt (record {
            organization_id = organization_id;
            timestamp = now;
            reason = take 50 reason;
          })))
        commit)

  -- `liveness_details or "liveness_failed"`
  abbrev pub or_failed : Text → Text
  or_failed [] = codes "liveness_failed"
  or_failed (c ∷ cs) = c ∷ cs
