-- ===== src/Registry/Steps.antt =====
-- The steps of the registry beside the tables: loads, registrations and removals in any order.
use attendance_tracker.Prelude.{ℕ, ◌≡◌, refl, Option, none, some, true, [], arith, is_some}
use attendance_tracker.Database.Rows.{Db, User}
use attendance_tracker.Numerics.{Numerics}
use attendance_tracker.Matcher
use attendance_tracker.Matcher.Aligned
use attendance_tracker.Registry
use attendance_tracker.Registry.Loaded
use attendance_tracker.Registry.Isolated.{IsSound, UniqueRows, SameButFor}
use attendance_tracker.Registry.Kept

module _ (v : Numerics) (c : Registry.IndexConfig) where
  abbrev pub State : Type 0
  State = Db × Registry.Registry v

  -- the tables gain templates and lose none
  abbrev pub Gains : Db → Db → Type 0
  Gains db db' =
      (o w : ℕ) (x : v.Embedding)
      → Loaded.template v c o w db ≡ some x
      → Loaded.template v c o w db' ≡ some x

  -- A step of the tables and the registry. A write of the tables that takes a template away or
  -- changes one is followed by the registry's call for that user.
  pub data Step : State → State → Type 0 where
    load :
        {db : Db} {reg : Registry.Registry v} (org : ℕ)
        → Step (db, reg) (db, (Registry.get_matcher v c org db reg).1)
    register :
        {db db' : Db} {reg : Registry.Registry v} (org u : ℕ) (x : v.Embedding)
        → UniqueRows db'
        → SameButFor v c org u db db'
        → Loaded.template v c org u db' ≡ some x
        → Step (db, reg) (db', (Registry.upsert_user v c org u x db' reg).1)
    remove :
        {db db' : Db} {reg : Registry.Registry v} (org u : ℕ)
        → UniqueRows db'
        → SameButFor v c org u db db'
        → Step (db, reg) (db', Registry.remove_from v c org u reg)
    write :
        {db db' : Db} {reg : Registry.Registry v}
        → UniqueRows db'
        → Gains db db'
        → Step (db, reg) (db', reg)
    invalidate :
        {db : Db} {reg : Registry.Registry v} (org : ℕ)
        → Step (db, reg) (db, Registry.invalidate_org v c org reg)
    stop : {db : Db} {reg : Registry.Registry v} → Step (db, reg) (db, Registry.shutdown v c reg)

  pub data Reach (s : State) : State → Type 0 where
    start : Reach s s
    next : {t u : State} → Reach s t → Step t u → Reach s u

  owned_template :
      (o : Option User) (y : Option v.Embedding) (x : v.Embedding)
      → Loaded.if_owned v c o y ≡ some x
      → (is_some o ≡ true) × (y ≡ some x)
  owned_template none y x h = absurd (ground (arith, h))
  owned_template (some w) y x h = (refl, h)

  abbrev IsGood : State → Type 0
  IsGood (db, reg) = UniqueRows db × IsSound v c db reg

  step-IsGood : {s t : State} → Step s t → IsGood s → IsGood t
  step-IsGood (load {db} {reg} org) (q, s) = (q, Kept.get_matcher-IsSound v c org db reg q s)
  step-IsGood (register {db} {db'} {reg} org u x q' same own) (q, s) =
      (q', Kept.upsert-IsSound v c org u x db db' reg q' same own s)
  step-IsGood (remove {db} {db'} {reg} org u q' same) (q, s) =
      (q', Kept.remove-IsSound v c org u db db' reg same s)
  step-IsGood (write {db} {db'} {reg} q' gains) (q, s) = (
    q',
    λ o n h. record { fine = (s o n h).fine; held = λ w x g. gains o w x ((s o n h).held w x g) },
  )
  step-IsGood (invalidate {db} {reg} org) (q, s) = (q, Kept.pop-IsSound v c org db reg s)
  step-IsGood (stop {db} {reg}) (q, s) = (q, λ o n h. absurd (ground (arith, h)))

  reach-IsGood : {s t : State} → Reach s t → IsGood s → IsGood t
  reach-IsGood start g = g
  reach-IsGood (next r st) g = step-IsGood st (reach-IsGood r g)

  -- From an empty registry, with one row of embeddings for a user at most, after any sequence of
  -- loads, registrations, removals, invalidations, a stop, and other writes that take no template
  -- away, the matcher of an organization has a vector for a user only if the user is an active one
  -- of that organization and the vector is the first of the right size in its rows.
  pub reach_isolated :
      (db db' : Db) (reg : Registry.Registry v)
      → UniqueRows db
      → Reach (db, []) (db', reg)
      → (org u : ℕ) (m : Matcher.Matcher v) (x : v.Embedding) → Registry.get org reg ≡ some m
      → Aligned.vector_of v u m ≡ some x
      → (is_some (Registry.owner v c org u db') ≡ true)
        × (Loaded.first_vector v c u db'.embeddings ≡ some x)
  reach_isolated db db' reg unique r org u m x known held =
      let (q, s) = reach-IsGood r (unique, λ o n h. absurd (ground (arith, h))) in
      owned_template (Registry.owner v c org u db') (Loaded.first_vector v c u db'.embeddings) x
        ((s org m known).held u x held)
