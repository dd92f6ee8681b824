-- ===== src/Feed.antt =====
-- src/services/events.py without Redis: the subscribers of one process and their bounded queues.
-- Also the event stream of src/api/routes/dashboard.py. The dict of sets is one list of
-- subscribers, in which an organization without subscribers has no entry.
pub mod Order
pub mod Stream
use attendance_tracker.Prelude.{
  ℕ, Text, Option, none, some, Bool, List, [], ◌∷◌, ◌++◌, leb, ◌==◌, if◌then◌else◌, find, length,
  update_where, delete_where,
}
use attendance_tracker.Database.Rows.{Db}
use attendance_tracker.Reports.{get_name, department_of, external_id_of}
use attendance_tracker.Dashboard.{shown_name}

-- `LOCAL_QUEUE_LIMIT`
abbrev pub local_queue_limit : ℕ
local_queue_limit = 200

-- a queue, its organization, and what its generator has yielded so far
pub record Subscriber : Type 0 where
  pub id : ℕ
  pub organization_id : ℕ
  pub queue : List Text
  pub yielded : List Text

abbrev pub Bus : Type 0
Bus = List Subscriber

-- `queue.put_nowait(data)`, which raises QueueFull on a full queue
unfoldable pub put_nowait : Text → Subscriber → Subscriber
put_nowait data_ s =
    if leb local_queue_limit (length s.queue) then s else record s { queue = s.queue ++ data_ ∷ [] }

-- the local branch of `publish_attendance_event`
unfoldable pub publish_attendance_event : ℕ → Text → Bus → Bus
unfolding put_nowait
publish_attendance_event organization_id data_ bus =
    update_where (λ s. s.organization_id == organization_id) (put_nowait data_) bus

-- the local branch of `subscribe_attendance_events`, up to its loop
abbrev pub subscribe : ℕ → ℕ → Bus → Bus
subscribe id organization_id bus =
    bus ++ record { id = id; organization_id = organization_id; queue = []; yielded = [] } ∷ []

-- one turn of the loop, `yield await queue.get()`; an empty queue waits
abbrev pub take_next : Subscriber → Subscriber
take_next s = elim s.queue [
  | [] ↦ s
  | data_ ∷ rest ↦ record s { queue = rest; yielded = s.yielded ++ data_ ∷ [] }
]

unfoldable pub receive : ℕ → Bus → Bus
receive id bus = update_where (λ s. s.id == id) take_next bus

-- the `finally` of the generator
unfoldable pub unsubscribe : ℕ → Bus → Bus
unsubscribe id bus = delete_where (λ s. s.id == id) bus

-- the payload, and the fields that `_enrich_live_event` adds
pub record LiveEvent : Type 0 where
  pub raw : Text
  pub user_name : Text
  pub user_external_id : Option Text
  pub department_name : Option Text

-- `_enrich_live_event`; `loads` is the JSON parser, as far as the user's id in its result
unfoldable pub enrich_live_event : (Text → Option ℕ) → Db → Text → Option LiveEvent
enrich_live_event loads db raw = elim (loads raw) [
  | none ↦ none
  | some id ↦
      let user = find (λ u. u.id == id) db.users in
      some (record {
        raw = raw;
        user_name = shown_name user;
        user_external_id = external_id_of user;
        department_name = elim (department_of user) [
          | none ↦ none
          | some d ↦ get_name db.departments d
        ];
      })
]

-- what a wait of at most SSE_HEARTBEAT_SECONDS ends with, while the generator is open
pub data Wait : Type 0 where
  event : Text → Wait
  timeout : Wait

pub data Frame : Type 0 where
  ping : Frame
  data_frame : LiveEvent → Frame

abbrev pub frames : Option LiveEvent → List Frame
frames none = []
frames (some e) = data_frame e ∷ []

-- The loop of `generate` in `stream_attendance_events`. A wait that times out cancels the
-- generator's `__anext__`; `survives` is whether the generator can go on after that. A generator
-- that cannot raises StopAsyncIteration at the next turn, which ends the loop.
unfoldable pub generate_frames : (Text → Option ℕ) → Db → Bool → List Wait → List Frame
unfolding enrich_live_event
generate_frames loads db survives [] = []
generate_frames loads db survives (event raw ∷ waits) =
    frames (enrich_live_event loads db raw) ++ generate_frames loads db survives waits
generate_frames loads db survives (timeout ∷ waits) =
    let rest = generate_frames loads db survives waits in ping ∷ (if survives then rest else [])
