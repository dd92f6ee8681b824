-- ===== src/Tests/Vision.antt =====
-- Witnesses for the theorems on the registry, recognition and organization settings.
use attendance_tracker.Prelude.{
  ℕ, ◌≡◌, ◌⊎◌, inl, inr, refl, ◌*◌, leb, Bool-cases, Option, none, some, true, false, [], ◌∷◌,
  codes, arith, is_some,
}
use attendance_tracker.Database.Rows.{Db}
use attendance_tracker.Database.Session.{ok, begin}
use attendance_tracker.Matcher
use attendance_tracker.Registry
use attendance_tracker.Registry.Loaded
use attendance_tracker.Registry.Steps.{start, next, load, reach_isolated}
use attendance_tracker.Registry.Refresh.{active_user, if_of, refresh_all_lem}
use attendance_tracker.Registry.Updates.{held, removal_during_load}
use attendance_tracker.Liveness
use attendance_tracker.Liveness.Outcome.{Unmeasured, Scored, check_cases}
use attendance_tracker.OrgSettings
use attendance_tracker.OrgSettings.Floor.{load_org_settings_floor}
use attendance_tracker.Recognition
use attendance_tracker.Recognition.Outcome.{Outcome}
use attendance_tracker.Recognition.Single.{recognize_cases}
use attendance_tracker.Recognition.Accepts.{Attends, recognize_marks}
use attendance_tracker.Recognition.Stored.{recognized_by_template}
use attendance_tracker.Batch
use attendance_tracker.Batch.Answer.{Answered, batch_recognize_answers}
use attendance_tracker.Tests.{bob, numbers, settings, tables}

abbrev pub faces : Db
faces = record tables {
  embeddings =
      record { user_id = 11; vector = 9 ∷ 0 ∷ 0 ∷ 0 ∷ []; num_samples = 3; version = 1 } ∷ [];
}

abbrev pub camera : Liveness.LivenessDetector numbers
camera = record {
  config = record {
    ear_closed = 1;
    ear_open = 2;
    nose_movement_px = 3;
    texture_variance_min = 4;
    liveness_threshold = 1;
    blink_required_window = 5;
    require_sequence = false;
  };
  face_mesh = 0;
  ear_history = [];
  nose_history = [];
  texture_history = [];
  last_blink_time = 0;
  blink_detected = false;
  movement_detected = false;
  texture_detected = false;
}

abbrev pub config : Recognition.RecognitionConfig numbers
config = record {
  max_upload_size = 100;
  index = record { embedding_dim = 1; use_faiss = false };
  model = record {
    match_threshold_default = 5;
    intra_org_threshold_floor = 3;
    liveness_threshold = 1;
  };
  marking = settings;
}

abbrev pub world : Recognition.World numbers
world = record { session = begin faces; registry = []; detector = camera }

abbrev photo : Recognition.RecognizeRequest numbers
photo = record {
  image_base64 = codes "abc";
  liveness_frames_base64 = [];
  threshold = none;
  check_liveness = false;
  auto_mark_attendance = true;
}

abbrev loaded_settings : OrgSettings.LoadedSettings numbers
loaded_settings = record {
  require_liveness_check = true;
  recognition_threshold = 5;
  liveness = ok 1;
}

abbrev acme_matcher : Matcher.Matcher numbers
acme_matcher = record {
  use_faiss = false;
  embeddings = some (9 ∷ []);
  user_ids = 11 ∷ [];
  faiss_index = none;
}

recognize_cases_example :
    Outcome numbers config 100 1 photo world
      (Recognition.recognize numbers config 100 1 photo world)
recognize_cases_example = recognize_cases numbers config 100 1 photo world

recognize_marks_example :
    let out = Recognition.recognize numbers config 100 1 photo world in
    (r : Recognition.RecognizeResponse numbers) × (out.0 ≡ ok r)
    × (r.matched ≡ true)
    × (r.user_id ≡ some 11)
    × (r.confidence ≡ 27)
    × Attends numbers config 100 1 photo world bob out.1.session
unfolding Recognition.recognize Matcher.build
recognize_marks_example =
    recognize_marks numbers config 100 1 photo world loaded_settings 3
      (Recognition.unchecked numbers) bob 27 refl (3, refl, refl) (inr (refl, refl)) refl
      (record {
        matcher = acme_matcher;
        known = refl;
        user_id = 11;
        best = refl;
        found = refl;
        own = refl;
      })

recognized_by_template_example :
    (x : ℕ) × (Loaded.template numbers config.index 1 11 faces ≡ some x)
    × (27 ≡ x * 3)
    × (leb 5 27 ≡ true)
unfolding Recognition.recognize Matcher.build
recognized_by_template_example =
    recognized_by_template numbers config 100 1 photo world loaded_settings 3 bob 27
      (record {
        matcher = acme_matcher;
        known = refl;
        user_id = 11;
        best = refl;
        found = refl;
        own = refl;
      })
      (λ u. ground arith) (λ org m e. absurd (ground (arith, e))) refl

abbrev photos : Batch.BatchRecognizeRequest numbers
photos = record {
  images_base64 = codes "abc" ∷ codes "ab" ∷ [];
  threshold = none;
  check_liveness = true;
}

every_match :
    (e : ℕ)
    → (r : Option (ℕ × ℕ)) × (Recognition.match_in numbers config e 5 (some acme_matcher) ≡ ok r)
unfolding Matcher.match_user
every_match e = elim (Bool-cases (leb 5 (9 * e))) [
  | inl h ↦ (some (11, 9 * e), ground (arith, h))
  | inr h ↦ (none, ground (arith, h))
]

batch_recognize_answers_example :
    Answered numbers config 100 1 photos world
      (some acme_matcher)
      loaded_settings
      (Batch.batch_recognize numbers config 100 1 photos world)
unfolding Batch.batch_recognize Registry.get_matcher Matcher.build
batch_recognize_answers_example =
    batch_recognize_answers numbers config 100 1 photos world (some acme_matcher) loaded_settings
      refl refl (1, refl) every_match

abbrev loaded_registry : Registry.Registry numbers
loaded_registry = (1, acme_matcher) ∷ []

reach_isolated_example :
    (is_some (Registry.owner numbers config.index 1 11 faces) ≡ true)
    × (Loaded.first_vector numbers config.index 11 faces.embeddings ≡ some 9)
unfolding Registry.get_matcher Matcher.build
reach_isolated_example =
    reach_isolated numbers config.index faces faces loaded_registry (λ u. ground arith)
      (next start (load 1)) 1 11 acme_matcher 9 refl refl

refresh_all_lem_example :
    (reg : Registry.Registry numbers) × (Registry.refresh_all numbers config.index faces ≡ ok reg)
    × ((o w : ℕ)
        → held numbers config.index o w reg
          ≡ if_of numbers config.index o
              (active_user numbers config.index w faces)
              (Loaded.first_vector numbers config.index w faces.embeddings))
refresh_all_lem_example = refresh_all_lem numbers config.index faces

removal_during_load_example :
    (Registry.remove_from numbers config.index 1 11 [] ≡ [])
    × (held numbers config.index 1 11
          (Registry.store_loaded numbers config.index 1
            (Registry.load_org numbers config.index 1 faces)
            (Registry.remove_from numbers config.index 1 11 [])).1
        ≡ some 9)
unfolding Registry.decode_vector
removal_during_load_example = removal_during_load numbers config.index 1 11 9 faces [] refl refl

check_cases_example :
    Unmeasured numbers camera.config (9 ∷ []) 0 (Liveness.check numbers 50 (9 ∷ []) none camera).0
    ⊎ Scored numbers camera.config none
        (9 ∷ [])
        0
        (Liveness.check numbers 50 (9 ∷ []) none camera).0
check_cases_example = check_cases numbers 50 (9 ∷ []) none camera

load_org_settings_floor_example :
    (s : OrgSettings.LoadedSettings numbers) × (OrgSettings.load_org_settings numbers config.model 1
        faces
      ≡ ok s)
    × (s.recognition_threshold ≡ 5)
    × (numbers.less s.recognition_threshold 3 ≡ false)
unfolding OrgSettings.lookup
load_org_settings_floor_example = load_org_settings_floor numbers config.model 1 faces 5 refl refl
