-- ===== src/Batch/Returns.antt =====
-- Tasks that return, and that keep the tables of users and of attendance.
use attendance_tracker.Prelude.{◌≡◌, refl, ap, ◌∙◌, Bool, true, false, List, if◌then◌else◌}
use attendance_tracker.Database.Rows.{User, Attendance}
use attendance_tracker.Database.Session.{Result, ok}
use attendance_tracker.Numerics.{Numerics}
use attendance_tracker.Recognition
use attendance_tracker.Recognition.Steps.{past}

module _ (v : Numerics) (users : List User) (attendance : List Attendance) where
  -- the tables of users and of attendance are these
  pub record Keeps (w : Recognition.World v) : Type 0 where
    pub users_kept : w.session.working.users ≡ users
    pub attendance_kept : w.session.working.attendance ≡ attendance

  -- the task returns, with the tables kept, an answer that satisfies `P`
  pub record Returned {A : Type 0} (P : A → Type 0) (out : Result A × Recognition.World v)
      : Type 0 where
    pub answer : A
    pub world : Recognition.World v
    pub returns : out ≡ (ok answer, world)
    pub holds : P answer
    pub keeps : Keeps world

  abbrev pub Returns : {A : Type 0} → (A → Type 0) → Recognition.Task v A → Type 0
  Returns P m = (w : Recognition.World v) → Keeps w → Returned P (m w)

  module _ {A : Type 0} {P : A → Type 0} where
    pub Returns-done : (a : A) → P a → Returns P (Recognition.done a)
    Returns-done a p w k = record { answer = a; world = w; returns = refl; holds = p; keeps = k }

    pub Returns-of_result :
        (r : Result A) (a : A) → r ≡ ok a → P a → Returns P (Recognition.of_result r)
    Returns-of_result r a e p w k = record {
      answer = a;
      world = w;
      returns = ap (λ x. (x, w)) e;
      holds = p;
      keeps = k;
    }

    pub Returns-bind :
        {B : Type 0} {Q : B → Type 0} (m : Recognition.Task v A) (k : A → Recognition.Task v B)
        → Returns P m
        → ((a : A) → P a → Returns Q (k a))
        → Returns Q (Recognition.◌>>=◌ m k)
    Returns-bind m k rm rk w h =
        let r = rm w h in
        let q = rk r.answer r.holds r.world r.keeps in
        record {
          answer = q.answer;
          world = q.world;
          returns = past m k w r.world r.answer r.returns ∙ q.returns;
          holds = q.holds;
          keeps = q.keeps;
        }

    pub Returns-if :
        (b : Bool) (m n : Recognition.Task v A)
        → Returns P m
        → Returns P n
        → Returns P (if b then m else n)
    Returns-if true m n rm rn = rm
    Returns-if false m n rm rn = rn
