-- ===== src/Feed/Stream.antt =====
-- What a client of the event stream sees of an idle feed.
use attendance_tracker.Prelude.{ℕ, ◌≡◌, refl, ap, ◌∙◌, Text, Option, false, List, [], ◌∷◌, ◌++◌}
use attendance_tracker.Database.Rows.{Db}
use attendance_tracker.Feed

-- the frames of events, of a feed that is never idle
abbrev events_of : (Text → Option ℕ) → Db → List Text → List Feed.Frame
events_of loads db [] = []
events_of loads db (raw ∷ raws) =
    Feed.frames (Feed.enrich_live_event loads db raw) ++ events_of loads db raws

abbrev waits_of : List Text → List Feed.Wait → List Feed.Wait
waits_of [] rest = rest
waits_of (raw ∷ raws) rest = Feed.event raw ∷ waits_of raws rest

assoc : {A : Type 0} (xs ys zs : List A) → xs ++ (ys ++ zs) ≡ (xs ++ ys) ++ zs
assoc [] ys zs = refl
assoc (x ∷ xs) ys zs = ap (λ t. x ∷ t) (assoc xs ys zs)

-- Where a cancelled generator does not go on, the stream ends with the first heartbeat: whatever
-- is published afterwards, the client sees the events up to then, one ping, and nothing more.
pub generate_frames_end :
    (loads : Text → Option ℕ) (db : Db) (raws : List Text) (later : List Feed.Wait)
    → Feed.generate_frames loads db false (waits_of raws (Feed.timeout ∷ later))
      ≡ events_of loads db raws ++ Feed.ping ∷ []
unfolding Feed.generate_frames
generate_frames_end loads db [] later = refl
generate_frames_end loads db (raw ∷ raws) later =
    ap (λ t. Feed.frames (Feed.enrich_live_event loads db raw) ++ t)
      (generate_frames_end loads db raws later)
    ∙ assoc (Feed.frames (Feed.enrich_live_event loads db raw)) (events_of loads db raws)
        (Feed.ping ∷ [])
