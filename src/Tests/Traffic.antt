-- ===== src/Tests/Traffic.antt =====
-- Witnesses for the theorems on API keys, the live feed and the rate limit.
use attendance_tracker.Prelude.{
  ◌≡◌, ◌≤◌, ◌+◌, refl, max, none, some, true, false, [], ◌∷◌, codes, arith,
}
use attendance_tracker.Database.Rows.{Db, ApiKey}
use attendance_tracker.Database.Session.{ok, err, http, request}
use attendance_tracker.Identity.{load_active_api_key, touch}
use attendance_tracker.ApiKeys
use attendance_tracker.ApiKeys.Lifecycle.{create_api_key-load, revoke_api_key-load}
use attendance_tracker.Feed
use attendance_tracker.Feed.Order.{
  AreFed, subscribed, published, received, here, next, reach-AreFed,
}
use attendance_tracker.RateLimit
use attendance_tracker.RateLimit.Window.{let_through, dispatch-limit}
use attendance_tracker.Tests.{demo, ann, tables}

abbrev kiosk_key : ApiKeys.ApiKeyCreate
kiosk_key = record {
  name = codes "Kiosk";
  scopes = codes "attendance:write" ∷ [];
  expires_in_days = some 30;
}

create_api_key-load_example :
    (request
      (load_active_api_key demo 500 70)
      (request (ApiKeys.create_api_key demo 100 40 70 ann kiosk_key) tables).1).0
    ≡ ok (touch 500 (ApiKeys.new_key demo 100 40 70 ann kiosk_key))
create_api_key-load_example = create_api_key-load demo 100 500 40 70 ann kiosk_key tables refl refl

abbrev kiosk : ApiKey
kiosk = ApiKeys.new_key demo 100 40 70 ann kiosk_key

abbrev keyed : Db
keyed = record tables { api_keys = kiosk ∷ [] }

revoke_api_key-load_example :
    (request (load_active_api_key demo 500 70) (request (ApiKeys.revoke_api_key ann 40) keyed).1).0
    ≡ err (http 401 "Invalid or inactive API key")
revoke_api_key-load_example = revoke_api_key-load demo 500 70 ann kiosk keyed refl refl

abbrev rates : RateLimit.RateSettings
rates = record {
  auth_requests_per_minute = 1;
  recognition_requests_per_minute = 60;
  requests_per_minute = 100;
  enabled = true;
  enabled_in_production_only = false;
  is_production = false;
}

abbrev sign_in : RateLimit.HttpRequest
sign_in = record {
  path = codes "/api/auth/login";
  headers = record { forwarded = none; real_ip = none; host = some (codes "h") };
}

abbrev sign_in_key : RateLimit.Key
sign_in_key = record { scope = RateLimit.auth; client_ip = codes "h"; window_epoch = 0 }

abbrev idle : RateLimit.MemoryCounter
idle = record { counters = []; window_started_at = 0 }

dispatch-limit_example :
    let_through demo rates sign_in_key ((1, sign_in) ∷ (2, sign_in) ∷ []) idle
      + RateLimit.count_of sign_in_key []
    ≤ max 1 (RateLimit.count_of sign_in_key [])
dispatch-limit_example =
    dispatch-limit demo rates sign_in_key ((1, sign_in) ∷ (2, sign_in) ∷ []) idle refl
      (omega arith, (omega arith, tt))

-- one client of organization 1
abbrev listening : Feed.Bus
listening = Feed.subscribe 7 1 []

abbrev pushed : Feed.Bus
pushed = Feed.publish_attendance_event 1 (codes "mark") listening

reach-AreFed_example : AreFed (Feed.receive 7 pushed, (1, codes "mark") ∷ [])
reach-AreFed_example =
    reach-AreFed
      (next (next (next here (subscribed 7 1 [] [])) (published 1 (codes "mark") listening []))
        (received 7 pushed ((1, codes "mark") ∷ [])))
      tt
