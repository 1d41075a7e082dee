-- ===== src/Scheduler/Spacing/Lane.antt =====
-- `laneQueue`: a queue that a lane's goroutines share. Each method holds the lock, so it is one
-- step; `pop` on an open, empty queue waits, and is tried again after a later step.
use marauder.Prelude.{
  ◌≡◌, refl, sym, ap, ◌∙◌, inl, inr, Bool, true, false, List, [], ◌∷◌, ◌++◌, if◌then◌else◌,
  Bool-cases,
}
use mathlib.Core.List.{append_assoc, append-nil}

pub record Lane {ℓ} (A : Type ℓ) : Type ℓ where
  pub items : List A
  pub closed : Bool

pub data Popped {ℓ} (A : Type ℓ) : Type ℓ where
  waiting : Popped A
  refused : Popped A
  got : A → Popped A

module _ {ℓ} {A : Type ℓ} where
  -- `newLaneQueue()`.
  abbrev pub new_lane : Lane A
  new_lane = record { items = []; closed = false }

  unfoldable pub push : A → Lane A → Lane A
  push t q = record q { items = q.items ++ t ∷ [] }

  unfoldable pub pop_items : List A → Lane A → Popped A × Lane A
  pop_items [] q = (waiting, q)
  pop_items (t ∷ ts) q = (got t, record q { items = ts })

  -- `pop`: once closed it takes nothing, even with topics left.
  unfoldable pub pop : Lane A → Popped A × Lane A
  unfolding pop_items
  pop q = if q.closed then (refused, q) else pop_items q.items q

  unfoldable pub close : Lane A → Lane A
  close q = record q { closed = true }

pub data LaneCall {ℓ} (A : Type ℓ) : Type ℓ where
  pushes : A → LaneCall A
  pops closes : LaneCall A

module _ {ℓ} {A : Type ℓ} where
  unfoldable pub step : LaneCall A → Lane A → Lane A
  step (pushes t) q = push t q
  step pops q = (pop q).1
  step closes q = close q

  abbrev pub taken_by : Popped A → List A
  taken_by (got t) = t ∷ []
  taken_by waiting = []
  taken_by refused = []

  unfoldable pub run : List (LaneCall A) → Lane A → Lane A
  run [] q = q
  run (call ∷ calls) q = run calls (step call q)

  -- What was pushed and what was taken in a run, in order.
  unfoldable pub pushed : List (LaneCall A) → List A
  pushed [] = []
  pushed (pushes t ∷ calls) = t ∷ pushed calls
  pushed (pops ∷ calls) = pushed calls
  pushed (closes ∷ calls) = pushed calls

  unfoldable pub taken : List (LaneCall A) → Lane A → List A
  taken [] q = []
  taken (pops ∷ calls) q = taken_by (pop q).0 ++ taken calls (step pops q)
  taken (pushes t ∷ calls) q = taken calls (step (pushes t) q)
  taken (closes ∷ calls) q = taken calls (step closes q)

  pop_lem : (q : Lane A) → q.items ≡ taken_by (pop q).0 ++ (pop q).1.items
  unfolding pop
  pop_lem q = elim (Bool-cases q.closed) [
    | inl e ↦ simp e refl
    | inr e ↦ simp e (by_items q.items q refl)
  ]
    where
      by_items :
          (ts : List A) (q : Lane A)
          → q.items ≡ ts
          → ts ≡ taken_by (pop_items ts q).0 ++ (pop_items ts q).1.items
      by_items [] q e = sym e
      by_items (t ∷ ts) q e = refl

  fifo :
      (calls : List (LaneCall A)) (q : Lane A)
      → q.items ++ pushed calls ≡ taken calls q ++ (run calls q).items
  unfolding pushed taken run step push close
  fifo [] q = append-nil q.items
  fifo (pushes t ∷ calls) q =
      sym (append_assoc q.items (t ∷ []) (pushed calls)) ∙ fifo calls (push t q)
  fifo (pops ∷ calls) q =
      ap (λ r. r ++ pushed calls) (pop_lem q)
      ∙ append_assoc (taken_by (pop q).0) (pop q).1.items (pushed calls)
      ∙ ap (λ r. taken_by (pop q).0 ++ r) (fifo calls (pop q).1)
      ∙ sym (append_assoc (taken_by (pop q).0) (taken calls (pop q).1) (run calls (pop q).1).items)
  fifo (closes ∷ calls) q = fifo calls (close q)

  -- In every run of a new lane, what was pushed is what was taken followed by what is still queued,
  -- in order: nothing is lost, doubled or overtaken.
  lane_fifo :
      (calls : List (LaneCall A))
      → pushed calls ≡ taken calls new_lane ++ (run calls new_lane).items
  lane_fifo calls = fifo calls new_lane

  pop_closed : (q : Lane A) → q.closed ≡ true → pop q ≡ (refused, q)
  unfolding pop
  pop_closed q h = simp h refl

  taken_shut : (calls : List (LaneCall A)) (q : Lane A) → q.closed ≡ true → taken calls q ≡ []
  unfolding taken step push close
  taken_shut [] q h = refl
  taken_shut (pushes t ∷ calls) q h = taken_shut calls (push t q) h
  taken_shut (pops ∷ calls) q h =
      ap (λ r. taken_by r.0 ++ taken calls r.1) (pop_closed q h) ∙ taken_shut calls q h
  taken_shut (closes ∷ calls) q h = taken_shut calls (close q) refl

  -- After a close nothing is taken, whatever is still queued or pushed later.
  pub taken_closed : (calls : List (LaneCall A)) (q : Lane A) → taken calls (close q) ≡ []
  unfolding close
  taken_closed calls q = taken_shut calls (close q) refl
