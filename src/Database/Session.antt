-- ===== src/Database/Session.antt =====
-- src/database/session.py: a handler runs in one session. What it has written and not committed
-- is in `working`; `commit` makes it `saved`. The session is made with `autoflush=False`, so a
-- query does not see objects that were changed and not flushed: where a handler queries after a
-- change, the query stands before the change here. Calls that leave the process's database
-- session (mail, live feed, match index) are recorded in `effects`, in the order of the calls.
use attendance_tracker.Prelude.{
  ℕ, String, Option, none, some, Bool, List, [], ◌∷◌, ◌++◌, ⊤, if◌then◌else◌,
}
use attendance_tracker.Database.Rows.{Db}

-- `HTTPException(status, detail)`; a number or text that the source formats into the detail is
-- left out of it. `internal` is any other exception, which the server answers by 500.
pub data Failure : Type 0 where
  http : ℕ → String → Failure
  internal : String → Failure

pub data Result (A : Type 0) : Type 0 where
  ok : A → Result A
  err : Failure → Result A

pub data Effect : Type 0 where
  -- a reset mail to a user, with the raw token
  send_reset_email : ℕ → ℕ → Effect
  -- an invitation to a user, and whether the account has a password
  send_invite_email : ℕ → Bool → Effect
  -- `matcher_registry.remove_user(organization_id, user_id)`
  index_remove : ℕ → ℕ → Effect
  -- `publish_attendance_event(organization_id, {user_id, timestamp, ...})`
  publish_attendance : ℕ → ℕ → ℕ → Effect

pub record Session : Type 0 where
  pub saved : Db
  pub working : Db
  pub effects : List Effect

abbrev pub Handler : Type 0 → Type 0
Handler A = Session → Result A × Session

module _ {A : Type 0} where
  abbrev pub pure : A → Handler A
  pure a s = (ok a, s)

  abbrev pub raise : Failure → Handler A
  raise e s = (err e, s)

  abbrev pub gets : (Db → A) → Handler A
  gets f s = (ok (f s.working), s)

  abbrev pub or_raise : Option A → Failure → Handler A
  or_raise none e s = (err e, s)
  or_raise (some a) e s = (ok a, s)

infixl 5 ◌>>=◌ ◌>>◌
abbrev pub ◌>>=◌ : {A B : Type 0} → Handler A → (A → Handler B) → Handler B
◌>>=◌ m f s = let (r, s') = m s in elim r [ ok a ↦ f a s' | err e ↦ (err e, s') ]

abbrev pub ◌>>◌ : {A B : Type 0} → Handler A → Handler B → Handler B
m >> k = m >>= λ _. k

abbrev pub raise_if : Bool → Failure → Handler ⊤
raise_if b e s = (if b then err e else ok tt, s)

abbrev pub modify : (Db → Db) → Handler ⊤
modify f s = (ok tt, record s { working = f s.working })

abbrev pub commit : Handler ⊤
commit s = (ok tt, record s { saved = s.working })

abbrev pub emit : Effect → Handler ⊤
emit e s = (ok tt, record s { effects = s.effects ++ e ∷ [] })

abbrev pub finish : {A : Type 0} → Result A × Session → Result A × Session
finish (ok a, s) = (ok a, record s { saved = s.working })
finish (err e, s) = (err e, record s { working = s.saved })

-- `get_db` around a handler: commits when it returns, rolls back when it raises.
unfoldable pub get_db : {A : Type 0} → Handler A → Handler A
get_db m s = finish (m s)

abbrev pub begin : Db → Session
begin db = record { saved = db; working = db; effects = [] }

-- A request on the stored tables: the answer, and the tables and calls that it leaves.
unfoldable pub request : {A : Type 0} → Handler A → Db → Result A × Db × List Effect
unfolding get_db
request m db = let (r, s) = get_db m (begin db) in (r, s.saved, s.effects)
