-- ===== src/Database/Refuse.antt =====
-- Handlers that only test: they write nothing, so a request that they refuse changes nothing. The
-- rules below take a request past each test, to a property of its answer, tables and calls.
use attendance_tracker.Prelude.{
  ◌≡◌, refl, sym, subst, Option, none, some, Bool, true, false, List, [], ◌∙◌, arith,
}
use attendance_tracker.Database.Rows.{Db}
use attendance_tracker.Database.Session.{
  Session, Handler, Failure, Effect, pure, gets, or_raise, raise_if, ◌>>=◌, ◌>>◌, ok, err, Result,
  request, begin, get_db,
}

-- `m` writes nothing
pub record IsCheck {A : Type 0} (m : Handler A) : Type 0 where
  pub at : (s : Session) → (m s).1 ≡ s

pub IsCheck-pure : {A : Type 0} (a : A) → IsCheck (pure a)
IsCheck-pure a = record { at = λ s. refl }

pub IsCheck-gets : {A : Type 0} (f : Db → A) → IsCheck (gets f)
IsCheck-gets f = record { at = λ s. refl }

pub IsCheck-or_raise : {A : Type 0} (o : Option A) (e : Failure) → IsCheck (or_raise o e)
IsCheck-or_raise none e = record { at = λ s. refl }
IsCheck-or_raise (some a) e = record { at = λ s. refl }

pub IsCheck-raise_if : (b : Bool) (e : Failure) → IsCheck (raise_if b e)
IsCheck-raise_if b e = record { at = λ s. refl }

check_step :
    {A B : Type 0} (r : Result A) (s t : Session) (f : A → Handler B)
    → s ≡ t
    → ((a : A) → IsCheck (f a))
    → (◌>>=◌ (λ (u : Session). (r, s)) f t).1 ≡ t
check_step (ok a) s t f e kf = (kf a).at s ∙ e
check_step (err g) s t f e kf = e

pub IsCheck-bind :
    {A B : Type 0} (m : Handler A) (f : A → Handler B)
    → IsCheck m
    → ((a : A) → IsCheck (f a))
    → IsCheck (m >>= f)
IsCheck-bind m f km kf = record { at = λ s. check_step (m s).0 (m s).1 s f (km.at s) kf }

ok_step :
    {A B : Type 0} (r : Result A) (t s : Session) (k : A → Handler B) (b : B)
    → t ≡ s
    → (◌>>=◌ (λ (u : Session). (r, t)) k s).0 ≡ ok b
    → (a : A) × (r ≡ ok a) × ((k a s).0 ≡ ok b)
ok_step (ok a) t s k b e h = (a, refl, subst (λ u. (k a u).0 ≡ ok b) e h)
ok_step (err f) t s k b e h = absurd (ground (arith, h))

-- a step of a handler that returned
pub ok_bind :
    {A B : Type 0} (m : Handler A) (k : A → Handler B) (s : Session) (b : B)
    → IsCheck m
    → ((m >>= k) s).0 ≡ ok b
    → (a : A) × ((m s).0 ≡ ok a) × ((k a s).0 ≡ ok b)
ok_bind m k s b c h = ok_step (m s).0 (m s).1 s k b (c.at s) h

pub ruleset check_rules =
    (IsCheck-pure, IsCheck-gets, IsCheck-or_raise, IsCheck-raise_if, IsCheck-bind)

abbrev pub Answer : Type 0 → Type 0
Answer B = Result B × Db × List Effect

module _ {B : Type 0} (Q : Answer B → Type 0) (db : Db) where
  -- A refusal satisfies `Q`.
  abbrev pub Refusable : Type 0
  Refusable = (f : Failure) → Q (err f, db, [])

  pub past_raise_if :
      (b : Bool) (e : Failure) (k : Handler B)
      → Refusable
      → (b ≡ false → Q (request k db))
      → Q (request (raise_if b e >> k) db)
  unfolding request
  past_raise_if true e k refused next = refused e
  past_raise_if false e k refused next = next refl

  pub past_gets :
      {A : Type 0} (f : Db → A) (k : A → Handler B)
      → Q (request (k (f db)) db)
      → Q (request (gets f >>= k) db)
  unfolding request
  past_gets f k next = next

  pub past_or_raise :
      {A : Type 0} (o : Option A) (e : Failure) (k : A → Handler B)
      → Refusable
      → ((a : A) → o ≡ some a → Q (request (k a) db))
      → Q (request (or_raise o e >>= k) db)
  unfolding request
  past_or_raise none e k refused next = refused e
  past_or_raise (some a) e k refused next = next a refl

  past_step :
      {A : Type 0} (r : Result A) (s : Session) (k : A → Handler B)
      → s ≡ begin db
      → Refusable
      → ((a : A) → r ≡ ok a → Q (request (k a) db))
      → Q (request (◌>>=◌ (λ (u : Session). (r, s)) k) db)
  unfolding request
  past_step (ok a) s k e refused next =
      subst (λ t. let (r, u) = get_db (λ v. k a t) (begin db) in Q (r, u.saved, u.effects)) (sym e)
        (next a refl)
  past_step (err f) s k e refused next =
      subst (λ (t : Session). Q (err f, t.saved, t.effects)) (sym e) (refused f)

  -- `m` may be any handler that only tests; what it answered is known afterwards.
  pub past_check :
      {A : Type 0} (m : Handler A) (k : A → Handler B)
      → IsCheck m
      → Refusable
      → ((a : A) → (m (begin db)).0 ≡ ok a → Q (request (k a) db))
      → Q (request (m >>= k) db)
  unfolding request
  past_check m k c refused next =
      past_step (m (begin db)).0 (m (begin db)).1 k (c.at (begin db)) refused next

-- A request goes past a test that lets it through.
pub request_past :
    {A B : Type 0} (m : Handler A) (k : A → Handler B) (a : A) (db : Db)
    → m (begin db) ≡ (ok a, begin db)
    → request (m >>= k) db ≡ request (k a) db
unfolding request
request_past m k a db e =
    subst (λ r. request (◌>>=◌ (λ (u : Session). r) k) db ≡ request (k a) db) (sym e) refl
