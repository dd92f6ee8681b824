-- ===== src/Recognition/Steps.antt =====
-- The steps of a recognition request: a request past a step, and the mark of a match.
use attendance_tracker.Prelude.{
  ℕ, ◌≡◌, refl, sym, ap, ◌∙◌, subst, Option, none, some, Bool, true, false, ◌⊎◌, inl, inr,
  if◌then◌else◌, ◌==◌, ==_iff, arith, Option-cases, Bool-cases,
}
use attendance_tracker.Database.Rows.{User}
use attendance_tracker.Database.Session.{Failure, Result, ok, err, Session, Handler}
use attendance_tracker.Numerics.{Numerics}
use attendance_tracker.Marking
use attendance_tracker.Recognition

pub Result-cases :
    {A : Type 0} (r : Result A) → ((e : Failure) × (r ≡ err e)) ⊎ ((a : A) × (r ≡ ok a))
Result-cases (err e) = inl (e, refl)
Result-cases (ok a) = inr (a, refl)

-- a task goes on after a step that returned
pub past :
    {v : Numerics} {A B : Type 0} (m : Recognition.Task v A) (k : A → Recognition.Task v B)
    (w w' : Recognition.World v) (a : A)
    → m w ≡ (ok a, w')
    → Recognition.◌>>=◌ m k w ≡ k a w'
past {v} {A} m k w w' a e =
    subst (λ x. Recognition.◌>>=◌ (λ (u : Recognition.World v). x) k w ≡ k a w') (sym e) refl

pub stops :
    {v : Numerics} {A B : Type 0} (m : Recognition.Task v A) (k : A → Recognition.Task v B)
    (w w' : Recognition.World v) (e : Failure)
    → m w ≡ (err e, w')
    → Recognition.◌>>=◌ m k w ≡ (err e, w')
stops {v} m k w w' e h =
    subst (λ x. Recognition.◌>>=◌ (λ (u : Recognition.World v). x) k w ≡ (err e, w')) (sym h) refl

in_session_step :
    {v : Numerics} {A : Type 0} (x : Result A × Session) (w : Recognition.World v)
    → (Recognition.◌>>◌ (Recognition.in_session (λ s. x)) (Recognition.done tt) w).1.session ≡ x.1
in_session_step (ok a, s) w = refl
in_session_step (err e, s) w = refl

pub in_session_lem :
    {v : Numerics} {A : Type 0} (m : Handler A) (w : Recognition.World v)
    → (Recognition.◌>>◌ (Recognition.in_session m) (Recognition.done tt) w).1.session
      ≡ (m w.session).1
in_session_lem m w = in_session_step (m w.session) w

pub if_true : {A : Type 0} (b : Bool) (x y : A) → b ≡ true → x ≡ (if b then x else y)
if_true true x y h = refl
if_true false x y h = absurd (ground (arith, h))

module _ (v : Numerics) (c : Recognition.RecognitionConfig v) (now org : ℕ) where
  pub mark_if_ok :
      (b : Bool) (user : User) (w : Recognition.World v)
      → Recognition.mark_if v c b now org user w
        ≡ (ok tt, (Recognition.mark_if v c b now org user w).1)
  unfolding Marking.mark_attendance
  mark_if_ok false user w = refl
  mark_if_ok true user w =
      elim (Option-cases (
        Marking.recent_mark c.marking now (Recognition.auto_mark v c org user) w.session.working)) [
          | inl e ↦ ground (arith, e)
          | inr (a, e) ↦ ground (arith, e)
        ]

  pub mark_if_session :
      (b : Bool) (user : User) (w w' : Recognition.World v)
      → w'.session ≡ w.session
      → (Recognition.mark_if v c b now org user w').1.session
        ≡ (Recognition.mark_if v c b now org user w).1.session
  mark_if_session false user w w' e = e
  mark_if_session true user w w' e =
      let mark = Marking.mark_attendance c.marking now (Recognition.auto_mark v c org user) in
      in_session_lem mark w' ∙ ap (λ s. (mark s).1) e ∙ sym (in_session_lem mark w)

  pub own_user_lem :
      (o : Option User) (score : v.Float) (u : User) (x : v.Float)
      → Recognition.own_user v c org o score ≡ some (u, x)
      → (o ≡ some u) × (u.organization_id ≡ org) × (x ≡ score)
  own_user_lem none score u x h = absurd (ground (arith, h))
  own_user_lem (some y) score u x h = elim (Bool-cases (y.organization_id == org)) [
    | inl e ↦
        let same : y ≡ u = ground (arith, e, h) in
        (
          ap some same,
          ap (λ (z : User). z.organization_id) (sym same) ∙ (==_iff y.organization_id org).0 e,
          ground (arith, e, h),
        )
    | inr e ↦ absurd (ground (arith, e, h))
  ]
