-- ===== src/Database/Keeps.antt =====
-- A relation between the tables at the start of a request and the tables that a handler leaves,
-- with one rule for each way to build a handler.
use attendance_tracker.Prelude.{Option, none, some, Bool, true, false, if◌then◌else◌}
use attendance_tracker.Database.Rows.{Db}
use attendance_tracker.Database.Session.{
  Session, Handler, Failure, Effect, pure, raise, gets, or_raise, raise_if, modify, commit, emit,
  ◌>>=◌, ok, err, Result, request, begin, finish,
}

-- both views of the tables satisfy `P`
pub record Both (P : Db → Type 0) (s : Session) : Type 0 where
  pub on_saved : P s.saved
  pub on_working : P s.working

-- `m` keeps `P`, whether it returns or raises
pub record Keeps {A : Type 0} (P : Db → Type 0) (m : Handler A) : Type 0 where
  pub at : (s : Session) → Both P s → Both P (m s).1

module _ {P : Db → Type 0} where
  pub Keeps-pure : {A : Type 0} (a : A) → Keeps P (pure a)
  Keeps-pure a = record { at = λ s h. h }

  pub Keeps-raise : {A : Type 0} (e : Failure) → Keeps P (raise {A = A} e)
  Keeps-raise e = record { at = λ s h. h }

  pub Keeps-gets : {A : Type 0} (f : Db → A) → Keeps P (gets f)
  Keeps-gets f = record { at = λ s h. h }

  pub Keeps-or_raise : {A : Type 0} (o : Option A) (e : Failure) → Keeps P (or_raise o e)
  Keeps-or_raise none e = record { at = λ s h. h }
  Keeps-or_raise (some a) e = record { at = λ s h. h }

  pub Keeps-raise_if : (b : Bool) (e : Failure) → Keeps P (raise_if b e)
  Keeps-raise_if b e = record { at = λ s h. h }

  pub Keeps-commit : Keeps P commit
  Keeps-commit = record {
    at = λ s h. record { on_saved = h.on_working; on_working = h.on_working };
  }

  pub Keeps-emit : (e : Effect) → Keeps P (emit e)
  Keeps-emit e = record { at = λ s h. record { on_saved = h.on_saved; on_working = h.on_working } }

  pub Keeps-modify : (f : Db → Db) → ((db : Db) → P db → P (f db)) → Keeps P (modify f)
  Keeps-modify f step = record {
    at = λ s h. record { on_saved = h.on_saved; on_working = step s.working h.on_working };
  }

  pub Keeps-if :
      {A : Type 0} (b : Bool) (m n : Handler A)
      → Keeps P m
      → Keeps P n
      → Keeps P (if b then m else n)
  Keeps-if true m n km kn = km
  Keeps-if false m n km kn = kn

  pub Keeps-elim :
      {A B : Type 0} (o : Option A) (m : Handler B) (k : A → Handler B)
      → Keeps P m
      → ((a : A) → Keeps P (k a))
      → Keeps P (elim o [ none ↦ m | some a ↦ k a ])
  Keeps-elim none m k km kk = km
  Keeps-elim (some a) m k km kk = kk a

  Both-step :
      {A B : Type 0} (r : Result A) (s : Session) (f : A → Handler B)
      → Both P s
      → ((a : A) → Keeps P (f a))
      → Both P (◌>>=◌ (λ (t : Session). (r, t)) f s).1
  Both-step (ok a) s f h kf = (kf a).at s h
  Both-step (err e) s f h kf = h

  pub Keeps-bind :
      {A B : Type 0} (m : Handler A) (f : A → Handler B)
      → Keeps P m
      → ((a : A) → Keeps P (f a))
      → Keeps P (m >>= f)
  Keeps-bind m f km kf = record { at = λ s h. Both-step (m s).0 (m s).1 f (km.at s h) kf }

  -- a query for one row, and a branch for each answer
  pub Keeps-find :
      {A B : Type 0} (f : Db → Option A) (m : Handler B) (k : A → Handler B)
      → Keeps P m
      → ((a : A) → Keeps P (k a))
      → Keeps P (gets f >>= λ found. elim found [ none ↦ m | some a ↦ k a ])
  Keeps-find f m k km kk =
      Keeps-bind (gets f) (λ found. elim found [ none ↦ m | some a ↦ k a ]) (Keeps-gets f)
        (λ found. Keeps-elim found m k km kk)

  Both-finish : {A : Type 0} (r : Result A) (s : Session) → Both P s → P (finish (r, s)).1.saved
  Both-finish (ok a) s h = h.on_working
  Both-finish (err e) s h = h.on_saved

  -- A request whose handler keeps `P` leaves tables that satisfy it.
  pub Keeps-request : {A : Type 0} (m : Handler A) (db : Db) → Keeps P m → P db → P (request m db).1
  unfolding request
  Keeps-request m db k h =
      let (r, s) = m (begin db) in
      Both-finish r s (k.at (begin db) (record { on_saved = h; on_working = h }))

pub ruleset keeps_rules = (
  Keeps-pure, Keeps-raise, Keeps-gets, Keeps-or_raise, Keeps-raise_if, Keeps-commit, Keeps-emit,
  Keeps-modify, Keeps-if, Keeps-bind, Keeps-elim, Keeps-find,
)
