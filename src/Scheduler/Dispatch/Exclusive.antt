-- ===== src/Scheduler/Dispatch/Exclusive.antt =====
-- The holders of a topic: the job queue, the lanes and the checks under way, against the in-flight set
-- of backend/internal/scheduler/scheduler.go.
use marauder.Prelude.{
  ℕ, ◌+◌, ◌≡◌, refl, ap, inl, inr, Bool, false, ◌&&◌, some, List, [], ◌∷◌, ◌++◌, arith, ltb, ◌==◌,
  if◌then◌else◌, >>=-eq-some, Bool-cases, length, Text, text_eq,
}
use marauder.Scheduler.Dispatch.{
  Due, LaneState, Dispatch, mark, unmark, push_lane, offer, dispatch_topic, dispatch_once,
  pop_queue, pop_lane, Step, tick, round, take_job, take_lane, finish, Reach, at_start, next,
}

-- How often a topic stands in a queue, in the lanes, and anywhere.
unfoldable pub count_id : ℕ → List Due → ℕ
count_id id [] = 0
count_id id (t ∷ ts) = (if id == t.id then 1 else 0) + count_id id ts

unfoldable pub count_lanes : ℕ → List LaneState → ℕ
count_lanes id [] = 0
count_lanes id (l ∷ ls) = count_id id l.queue + count_lanes id ls

unfoldable pub holders : ℕ → Dispatch → ℕ
holders id s = count_id id s.jobs + count_lanes id s.lanes + count_id id s.running

-- A marked topic has one holder, another none.
pub record Exclusive (s : Dispatch) : Type 0 where
  pub one : (id : ℕ) → holders id s ≡ (if s.inflight id then 1 else 0)

count_id-append :
    (id : ℕ) (xs ys : List Due) → count_id id (xs ++ ys) ≡ count_id id xs + count_id id ys
unfolding count_id
count_id-append id [] ys = omega arith
count_id-append id (x ∷ xs) ys = omega (arith, count_id-append id xs ys)

count-push_lane :
    (id : ℕ) (name : Text) (t : Due) (ls : List LaneState)
    → count_lanes id (push_lane name t ls) ≡ count_lanes id ls + (if id == t.id then 1 else 0)
unfolding push_lane count_lanes count_id
count-push_lane id name t [] = omega arith
count-push_lane id name t (l ∷ ls) = elim (Bool-cases (text_eq l.name name)) [
  | inl e ↦ rw e (omega (arith, count_id-append id l.queue (t ∷ [])))
  | inr e ↦ rw e (omega (arith, count-push_lane id name t ls))
]

count-pop_lane :
    (id : ℕ) (name : Text) (ls : List LaneState) {t : Due} {ls' : List LaneState}
    → pop_lane name ls ≡ some (t, ls')
    → count_lanes id ls ≡ count_lanes id ls' + (if id == t.id then 1 else 0)
unfolding pop_lane count_lanes count_id
count-pop_lane id name [] h = cc
count-pop_lane id name (l ∷ ls) {t} {ls'} h = elim (Bool-cases (text_eq l.name name)) [
  | inl e ↦ by_queue l.queue l refl (rw e at h)
  | inr e ↦
      let (r, er, el) = >>=-eq-some (pop_lane name ls) (λ r. some (r.0, l ∷ r.1)) (rw e at h) in
      let same_t : r.0 ≡ t = cc in
      let same_ls : l ∷ r.1 ≡ ls' = cc in
      let ih = count-pop_lane id name ls er in rw (← same_ls, ← same_t) (omega (arith, ih))
]
  where
    by_queue :
        (q : List Due) (l : LaneState)
        → l.queue ≡ q
        → pop_queue l q ls ≡ some (t, ls')
        → count_id id l.queue + count_lanes id ls
          ≡ count_lanes id ls' + (if id == t.id then 1 else 0)
    by_queue [] l eq k = cc
    by_queue (u ∷ us) l eq k =
        let same_t : u ≡ t = cc in
        let same_ls : record l { queue = us } ∷ ls ≡ ls' = cc in
        rw (← same_ls, ← same_t, eq) (omega arith)

marked-Exclusive :
    (spacing_of : Text → ℕ) (capacity : ℕ) (t : Due) (sends : Bool) (s : Dispatch)
    → s.inflight t.id ≡ false
    → Exclusive s
    → Exclusive (offer capacity sends t (record s { inflight = mark t.id s.inflight })).1
unfolding offer holders count_id mark unmark
marked-Exclusive spacing_of capacity t sends s e h =
    elim (Bool-cases (sends && ltb (length s.jobs) capacity)) [
      | inl b ↦ rw b (record {
        one = λ id. ground (arith, h.one id, h.one t.id, e, count_id-append id s.jobs (t ∷ []));
      })
      | inr b ↦ rw b (record { one = λ id. ground (arith, h.one id, h.one t.id, e) })
    ]

laned-Exclusive :
    (t : Due) (s : Dispatch)
    → s.inflight t.id ≡ false
    → Exclusive s
    → Exclusive
        (record s { inflight = mark t.id s.inflight; lanes = push_lane t.tracker t s.lanes })
unfolding holders mark
laned-Exclusive t s e h = record {
  one = λ id. ground (arith, h.one id, h.one t.id, e, count-push_lane id t.tracker t s.lanes);
}

topic-Exclusive :
    (spacing_of : Text → ℕ) (capacity : ℕ) (t : Due) (sends : Bool) (s : Dispatch)
    → Exclusive s
    → Exclusive (dispatch_topic spacing_of capacity t sends s).1
unfolding dispatch_topic
topic-Exclusive spacing_of capacity t sends s h = elim (Bool-cases (s.inflight t.id)) [
  | inl e ↦ rw e h
  | inr e ↦ rw e (elim (Bool-cases (ltb 0 (spacing_of t.tracker))) [
    | inl z ↦ rw z (laned-Exclusive t s e h)
    | inr z ↦ rw z (marked-Exclusive spacing_of capacity t sends s e h)
  ])
]

module _ (spacing_of : Text → ℕ) (capacity : ℕ) where
  dispatch-Exclusive :
      (due : List (Due × Bool)) (s : Dispatch)
      → Exclusive s
      → Exclusive (dispatch_once spacing_of capacity due s)
  unfolding dispatch_once
  dispatch-Exclusive [] s h = h
  dispatch-Exclusive ((t, sends) ∷ due) s h =
      let next = dispatch_topic spacing_of capacity t sends s in
      let kept = topic-Exclusive spacing_of capacity t sends s h in
      elim (Bool-cases next.0) [
        | inl e ↦ rw e (dispatch-Exclusive due next.1 kept)
        | inr e ↦ rw e kept
      ]

  Step-Exclusive : {s t : Dispatch} → Step spacing_of capacity s t → Exclusive s → Exclusive t
  unfolding holders count_id unmark
  Step-Exclusive (tick due s) h = dispatch-Exclusive due s h
  Step-Exclusive (round t sends s) h = topic-Exclusive spacing_of capacity t sends s h
  Step-Exclusive (take_job t ts s e) h = record {
    one = λ id. omega (arith, h.one id, ap (count_id id) e);
  }
  Step-Exclusive (take_lane name t ls s e) h = record {
    one = λ id. omega (arith, h.one id, count-pop_lane id name s.lanes e);
  }
  Step-Exclusive (finish before after t s e) h = record {
    one = λ id. ground (
      arith,
      h.one id,
      ap (count_id id) e,
      count_id-append id before (t ∷ after),
      count_id-append id before after,
    );
  }

  -- In every state the scheduler reaches, a topic marked in flight stands exactly once among the job
  -- queue, the lanes and the checks under way, and a topic without the mark stands in none of them.
  pub one_holder :
      {s : Dispatch}
      → Reach spacing_of capacity s
      → (id : ℕ)
      → count_id id s.jobs + count_lanes id s.lanes + count_id id s.running
        ≡ (if s.inflight id then 1 else 0)
  unfolding holders count_id count_lanes
  one_holder r id = (Reach-Exclusive r).one id
    where
      Reach-Exclusive : {s : Dispatch} → Reach spacing_of capacity s → Exclusive s
      Reach-Exclusive at_start = record { one = λ _. refl }
      Reach-Exclusive (next r k) = Step-Exclusive k (Reach-Exclusive r)
