-- ===== src/Scheduler/Dispatch.antt =====
-- The dispatch of due topics of backend/internal/scheduler/scheduler.go (`dispatchOnce`, `worker`)
-- and spacing.go (`laneFor`): the in-flight set, the shared job queue and the lanes.
-- The goroutines' interleaving is a step relation.
pub mod Exclusive
use marauder.Prelude.{
  ℕ, ◌≡◌, Bool, true, false, ◌&&◌, Option, none, some, List, [], ◌∷◌, ◌++◌, ltb, ◌==◌,
  if◌then◌else◌, ◌>>=◌, length, Text, text_eq,
}

-- What dispatch reads of a topic.
pub record Due : Type 0 where
  pub id : ℕ
  pub tracker : Text

-- One lane: its tracker's name and its queue.
pub record LaneState : Type 0 where
  pub name : Text
  pub queue : List Due

-- The scheduler's shared state. `running` holds the topics that a worker or a lane's goroutine has
-- taken and not finished.
pub record Dispatch : Type 0 where
  pub inflight : ℕ → Bool
  pub jobs : List Due
  pub lanes : List LaneState
  pub running : List Due

abbrev pub idle : Dispatch
idle = record { inflight = λ _. false; jobs = []; lanes = []; running = [] }

unfoldable pub mark : ℕ → (ℕ → Bool) → ℕ → Bool
mark id s x = if x == id then true else s x

unfoldable pub unmark : ℕ → (ℕ → Bool) → ℕ → Bool
unmark id s x = if x == id then false else s x

-- `laneFor` then `lane.push`: a lane is started on its first use.
unfoldable pub push_lane : Text → Due → List LaneState → List LaneState
push_lane name t [] = record { name = name; queue = t ∷ [] } ∷ []
push_lane name t (l ∷ ls) =
    let rest = push_lane name t ls in
    if text_eq l.name name then record l { queue = l.queue ++ t ∷ [] } ∷ ls else l ∷ rest

-- The send on the job queue: `sends` says that the `select` takes that case.
unfoldable pub offer : ℕ → Bool → Due → Dispatch → Bool × Dispatch
unfolding mark unmark
offer capacity sends t s =
    if sends && ltb (length s.jobs) capacity
    then (true, record s { jobs = s.jobs ++ t ∷ [] })
    else (false, record s { inflight = unmark t.id s.inflight })

-- The loop's body for one due topic: whether the loop goes on, and the state after.
unfoldable pub dispatch_topic : (Text → ℕ) → ℕ → Due → Bool → Dispatch → Bool × Dispatch
unfolding mark push_lane offer
dispatch_topic spacing_of capacity t sends s =
    let marked = record s { inflight = mark t.id s.inflight } in
    let laned = record marked { lanes = push_lane t.tracker t marked.lanes } in
    if s.inflight t.id
    then (true, s)
    else if ltb 0 (spacing_of t.tracker)
    then (true, laned)
    else offer capacity sends t marked

module _ (spacing_of : Text → ℕ) (capacity : ℕ) where
  -- The loop of `dispatchOnce` over the due topics. The flag beside a topic says whether the `select`
  -- takes the send where it can; where it does not, the context has ended and the loop returns, as
  -- it does when the queue is full.
  unfoldable pub dispatch_once : List (Due × Bool) → Dispatch → Dispatch
  unfolding mark push_lane offer dispatch_topic
  dispatch_once [] s = s
  dispatch_once ((t, sends) ∷ due) s =
      let next = dispatch_topic spacing_of capacity t sends s in
      let rest = dispatch_once due next.1 in if next.0 then rest else next.1

-- `pop` of the lane of a tracker: the oldest topic queued there.
unfoldable pub pop_queue : LaneState → List Due → List LaneState → Option (Due × List LaneState)
pop_queue l [] ls = none
pop_queue l (t ∷ ts) ls = some (t, record l { queue = ts } ∷ ls)

unfoldable pub pop_lane : Text → List LaneState → Option (Due × List LaneState)
unfolding pop_queue
pop_lane name [] = none
pop_lane name (l ∷ ls) =
    let rest = pop_lane name ls in
    if text_eq l.name name then pop_queue l l.queue ls else (rest >>= λ r. some (r.0, l ∷ r.1))

-- One step of the scheduler: a tick over whatever rows the database returned, one round of a tick's
-- loop with other goroutines' steps between the rounds, a goroutine that takes a topic, or the end of
-- a check, after which the worker clears the topic's mark.
pub data Step (spacing_of : Text → ℕ) (capacity : ℕ) : Dispatch → Dispatch → Type 0 where
  tick :
      (due : List (Due × Bool)) (s : Dispatch)
      → Step spacing_of capacity s (dispatch_once spacing_of capacity due s)
  round :
      (t : Due) (sends : Bool) (s : Dispatch)
      → Step spacing_of capacity s (dispatch_topic spacing_of capacity t sends s).1
  take_job :
      (t : Due) (ts : List Due) (s : Dispatch)
      → s.jobs ≡ t ∷ ts
      → Step spacing_of capacity s (record s { jobs = ts; running = t ∷ s.running })
  take_lane :
      (name : Text) (t : Due) (ls : List LaneState) (s : Dispatch)
      → pop_lane name s.lanes ≡ some (t, ls)
      → Step spacing_of capacity s (record s { lanes = ls; running = t ∷ s.running })
  finish :
      (before after : List Due) (t : Due) (s : Dispatch)
      → s.running ≡ before ++ t ∷ after
      → Step spacing_of capacity s
          (record s { running = before ++ after; inflight = unmark t.id s.inflight })

pub data Reach (spacing_of : Text → ℕ) (capacity : ℕ) : Dispatch → Type 0 where
  at_start : Reach spacing_of capacity idle
  next :
      {s t : Dispatch}
      → Reach spacing_of capacity s
      → Step spacing_of capacity s t
      → Reach spacing_of capacity t
