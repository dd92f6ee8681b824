-- ===== src/Feed/Order.antt =====
-- What subscribers receive, whatever the order of events, reads and disconnections.
use attendance_tracker.Prelude.{
  ℕ, ◌≤◌, ◌≡◌, refl, ap, Text, true, false, List, [], ◌∷◌, ◌++◌, leb, ◌==◌, length, length-snoc,
  All, All-append, All-update_where, All-delete_where, updated, Bool-cases, inl, inr, arith,
  if◌then◌else◌,
}
use attendance_tracker.Feed
use attendance_tracker.Feed.{Bus, Subscriber, put_nowait, take_next}

-- the first list with some elements left out of the second
pub data Subseq : List Text → List Text → Type 0 where
  end : Subseq [] []
  skip : {y : Text} {xs ys : List Text} → Subseq xs ys → Subseq xs (y ∷ ys)
  keep : {x : Text} {xs ys : List Text} → Subseq xs ys → Subseq (x ∷ xs) (x ∷ ys)

Subseq-nil : (ys : List Text) → Subseq [] ys
Subseq-nil [] = end
Subseq-nil (y ∷ ys) = skip (Subseq-nil ys)

skip_last : {xs ys : List Text} (y : Text) → Subseq xs ys → Subseq xs (ys ++ y ∷ [])
skip_last y end = skip end
skip_last y (skip s) = skip (skip_last y s)
skip_last y (keep s) = keep (skip_last y s)

keep_last : {xs ys : List Text} (y : Text) → Subseq xs ys → Subseq (xs ++ y ∷ []) (ys ++ y ∷ [])
keep_last y end = keep end
keep_last y (skip s) = skip (keep_last y s)
keep_last y (keep s) = keep (keep_last y s)

snoc_assoc : (xs ys : List Text) (y : Text) → xs ++ (ys ++ y ∷ []) ≡ (xs ++ ys) ++ y ∷ []
snoc_assoc [] ys y = refl
snoc_assoc (x ∷ xs) ys y = ap (λ t. x ∷ t) (snoc_assoc xs ys y)

cons_assoc : (xs ys : List Text) (y : Text) → (xs ++ y ∷ []) ++ ys ≡ xs ++ (y ∷ ys)
cons_assoc [] ys y = refl
cons_assoc (x ∷ xs) ys y = ap (λ t. x ∷ t) (cons_assoc xs ys y)

-- all that was published, oldest first, with its organization
abbrev pub Log : Type 0
Log = List (ℕ × Text)

abbrev pub events_for : ℕ → Log → List Text
events_for id [] = []
events_for id ((org, data_) ∷ log) =
    let rest = events_for id log in if org == id then data_ ∷ rest else rest

-- what a subscriber was given and what still waits: events of its organization in the order in
-- which they were published, none of them twice, and no more than the limit of them waiting
abbrev pub IsFed : Log → Subscriber → Type 0
IsFed log s =
    Subseq (s.yielded ++ s.queue) (events_for s.organization_id log)
    × (length s.queue ≤ Feed.local_queue_limit)

-- one action on the bus
pub data Step : Bus × Log → Bus × Log → Type 0 where
  subscribed :
      (id org : ℕ) (bus : Bus) (log : Log) → Step (bus, log) (Feed.subscribe id org bus, log)
  published :
      (org : ℕ) (data_ : Text) (bus : Bus) (log : Log)
      → Step (bus, log) (Feed.publish_attendance_event org data_ bus, log ++ (org, data_) ∷ [])
  received : (id : ℕ) (bus : Bus) (log : Log) → Step (bus, log) (Feed.receive id bus, log)
  left : (id : ℕ) (bus : Bus) (log : Log) → Step (bus, log) (Feed.unsubscribe id bus, log)

pub data Reach (start : Bus × Log) : Bus × Log → Type 0 where
  here : Reach start start
  next : {a b : Bus × Log} → Reach start a → Step a b → Reach start b

events_for-own :
    (id org : ℕ) (data_ : Text) (log : Log)
    → (id == org) ≡ true
    → events_for id (log ++ (org, data_) ∷ []) ≡ events_for id log ++ data_ ∷ []
events_for-own id org data_ [] e = ground (arith, e)
events_for-own id org data_ ((o, d) ∷ log) e = ground (arith, events_for-own id org data_ log e)

events_for-other :
    (id org : ℕ) (data_ : Text) (log : Log)
    → (id == org) ≡ false
    → events_for id (log ++ (org, data_) ∷ []) ≡ events_for id log
events_for-other id org data_ [] e = ground (arith, e)
events_for-other id org data_ ((o, d) ∷ log) e = ground (arith, events_for-other id org data_ log e)

put_nowait-IsFed :
    (org : ℕ) (data_ : Text) (log : Log) (s : Subscriber)
    → IsFed log s
    → IsFed
        (log ++ (org, data_) ∷ [])
        (updated (λ t. t.organization_id == org) (put_nowait data_) s)
unfolding put_nowait
put_nowait-IsFed org data_ log s (fed, room) = elim (Bool-cases (s.organization_id == org)) [
  | inr e ↦ rw e (rw (events_for-other s.organization_id org data_ log e) fed, room)
  | inl e ↦ elim (Bool-cases (leb Feed.local_queue_limit (length s.queue))) [
    | inl full ↦
        rw (e, full)
          (rw (events_for-own s.organization_id org data_ log e) (skip_last data_ fed), room)
    | inr free ↦
        rw (e, free)
          (
            rw
                (
                  events_for-own s.organization_id org data_ log e,
                  snoc_assoc s.yielded s.queue data_,
                )
                (keep_last data_ fed),
            rw (length-snoc s.queue data_) (ground (arith, free)),
          )
  ]
]

taken-IsFed :
    (id org : ℕ) (waiting given : List Text) (log : Log)
    → IsFed log (record { id = id; organization_id = org; queue = waiting; yielded = given })
    → IsFed log
        (take_next (record { id = id; organization_id = org; queue = waiting; yielded = given }))
taken-IsFed id org [] given log h = h
taken-IsFed id org (d ∷ waiting) given log (fed, room) =
    (rw (cons_assoc given waiting d) fed, ground (arith, room))

take_next-IsFed :
    (id : ℕ) (log : Log) (s : Subscriber)
    → IsFed log s
    → IsFed log (updated (λ t. t.id == id) take_next s)
take_next-IsFed id log s h = elim (Bool-cases (s.id == id)) [
  | inl e ↦ rw e (taken-IsFed s.id s.organization_id s.queue s.yielded log h)
  | inr e ↦ rw e h
]

-- every subscriber is fed
abbrev pub AreFed : Bus × Log → Type 0
AreFed (bus, log) = All (IsFed log) bus

step-AreFed : {a b : Bus × Log} → Step a b → AreFed a → AreFed b
unfolding Feed.publish_attendance_event Feed.receive Feed.unsubscribe
step-AreFed (subscribed id org bus log) h =
    All-append (IsFed log) bus _ h ((Subseq-nil (events_for org log), omega arith), tt)
step-AreFed (published org data_ bus log) h =
    All-update_where (IsFed log) (IsFed (log ++ (org, data_) ∷ [])) (λ t. t.organization_id == org)
      (put_nowait data_) bus (put_nowait-IsFed org data_ log) h
step-AreFed (received id bus log) h =
    All-update_where (IsFed log) (IsFed log) (λ t. t.id == id) take_next bus
      (take_next-IsFed id log) h
step-AreFed (left id bus log) h = All-delete_where (IsFed log) (λ t. t.id == id) bus h

-- However events, reads, subscriptions and disconnections follow one another: what a subscriber was
-- given and what waits for it are events of its own organization, in the order in which they
-- were published and none of them twice, and at most 200 of them wait.
pub reach-AreFed : {a b : Bus × Log} → Reach a b → AreFed a → AreFed b
reach-AreFed here h = h
reach-AreFed (next r st) h = step-AreFed st (reach-AreFed r h)
