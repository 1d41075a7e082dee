-- ===== src/Scheduler/Check/Kinds.antt =====
-- What kinds of calls a part of a check makes.
use marauder.Prelude.{
  ℕ, ◌+◌, ◌≡◌, refl, inl, inr, Bool, true, false, not, ◌&&◌, ◌||◌, Option, none, some, [], ◌∷◌,
  arith, if◌then◌else◌, is_some, Bool-cases, Text,
}
use marauder.Scheduler.Classify.{Failure, ErrorCode}
use marauder.Scheduler.Check.{
  Call, published, title_written, verified, downloaded, added, delivery_recorded, finished,
  marked_one, marked_all, removed, failure_reported, result_recorded, counted, Calls, Notice, World,
  publish, is_stale,
}

-- The second list of calls goes on from the first with calls only that `p` allows behind those made
-- before.
pub data Within (p : Call → Calls → Bool) (tr : Calls) : Calls → Type 0 where
  same : Within p tr tr
  next : {tr' : Calls} (c : Call) → p c tr' ≡ true → Within p tr tr' → Within p tr (c ∷ tr')

pub Within-trans :
    {p : Call → Calls → Bool} {a b c : Calls} → Within p a b → Within p b c → Within p a c
Within-trans w same = w
Within-trans w (next c e v) = next c e (Within-trans w v)

pub Within-weaken :
    {p q : Call → Calls → Bool} {a b : Calls}
    → ((c : Call) (tr : Calls) → p c tr ≡ true → q c tr ≡ true)
    → Within p a b
    → Within q a b
Within-weaken f same = same
Within-weaken f (next {tr'} c e w) = next c (f c tr' e) (Within-weaken f w)

-- How many calls of a kind were made.
unfoldable pub count : (Call → Bool) → Calls → ℕ
count q [] = 0
count q (c ∷ tr) = let rest = count q tr in if q c then 1 + rest else rest

pub count-Within :
    {p : Call → Calls → Bool} {q : Call → Bool} {a b : Calls}
    → ((c : Call) (tr : Calls) → p c tr ≡ true → q c ≡ false)
    → Within p a b
    → count q b ≡ count q a
unfolding count
count-Within f same = refl
count-Within f (next {tr'} c e w) = rw (f c tr' e) (count-Within f w)

-- The latest call is the check of the topic's state, and it did not find the state stale.
unfoldable pub is_current : Calls → Bool
unfolding is_stale
is_current (verified v ∷ tr) = not (is_stale v)
is_current tr = false

unfoldable pub is_add : Call → Bool
is_add (added p b e) = true
is_add c = false

-- Whether a call may follow those made before: a payload is added right behind the check of the
-- topic's state.
unfoldable pub may_follow : Call → Calls → Bool
unfolding is_add is_current
may_follow c tr = not (is_add c) || is_current tr

unfoldable pub guarded : Calls → Bool
unfolding may_follow
guarded [] = true
guarded (c ∷ tr) = let rest = guarded tr in may_follow c tr && rest

pub Within-guarded : {a b : Calls} → guarded a ≡ true → Within may_follow a b → guarded b ≡ true
unfolding guarded
Within-guarded g same = g
Within-guarded g (next c e w) = rw e (Within-guarded g w)

-- The calls of `sendViaClient`.
unfoldable pub is_send : Call → Bool
is_send (verified e) = true
is_send (added p b e) = true
is_send (delivery_recorded h l f) = true
is_send (finished tr) = true
is_send c = false

unfoldable pub sends : Call → Calls → Bool
unfolding is_send may_follow
sends c tr = is_send c && may_follow c tr

-- The hash and the error code of the result that a call records.
unfoldable pub result_of : Call → Option (Text × Option ErrorCode)
result_of (result_recorded h u d m e) = some (h, e)
result_of c = none

abbrev pub is_result : Call → Bool
is_result c = is_some (result_of c)

unfoldable pub is_download : Call → Bool
is_download downloaded = true
is_download c = false

-- The mark of one episode, and its answer.
unfoldable pub mark_of : Call → Option (Text × Option Failure)
mark_of (marked_one p e) = some (p, e)
mark_of c = none

abbrev pub is_mark : Call → Bool
is_mark c = is_some (mark_of c)

-- The calls by which one payload is handed to a client and its episode marked.
unfoldable pub is_submission : Call → Calls → Bool
unfolding is_send mark_of may_follow
is_submission c tr = (is_send c || is_mark c) && may_follow c tr

-- The calls of `downloadAllPending`.
unfoldable pub drains : Call → Calls → Bool
unfolding is_submission is_download
drains c tr = is_submission c tr || is_download c

-- A call that neither records a result nor downloads, delivers or marks an episode.
unfoldable pub is_minor : Call → Calls → Bool
unfolding result_of is_add is_download mark_of
is_minor c tr = not (is_result c) && not (is_add c) && not (is_download c) && not (is_mark c)

-- A call of `sendViaClient` is of no other kind.
pub send_alone :
    (c : Call)
    → is_send c ≡ true
    → (mark_of c ≡ none) × (is_download c ≡ false) × (is_result c ≡ false)
unfolding is_send mark_of is_download result_of
send_alone (published n) e = ground arith
send_alone (title_written n) e = ground arith
send_alone (verified v) e = (refl, refl, refl)
send_alone downloaded e = ground arith
send_alone (added p b v) e = (refl, refl, refl)
send_alone (delivery_recorded h l f) e = (refl, refl, refl)
send_alone (finished fs) e = (refl, refl, refl)
send_alone (marked_one p v) e = ground arith
send_alone (marked_all ps v) e = ground arith
send_alone (removed rs hs) e = ground arith
send_alone failure_reported e = ground arith
send_alone (result_recorded h u d m v) e = ground arith
send_alone (counted u v) e = ground arith

pub sends-is_send : (c : Call) (tr : Calls) → sends c tr ≡ true → is_send c ≡ true
unfolding sends
sends-is_send c tr e = ground arith

pub sends-is_submission : (c : Call) (tr : Calls) → sends c tr ≡ true → is_submission c tr ≡ true
unfolding is_submission sends
sends-is_submission c tr e = ground arith

-- A call by which an episode is marked, or by which nothing is delivered, is of no other kind.
rest_alone :
    (c : Call)
    → is_send c ≡ false
    → (is_add c ≡ false)
      × ((is_mark c || is_download c) && is_result c ≡ false)
      × (is_mark c && is_download c ≡ false)
unfolding is_send mark_of is_download result_of is_add
rest_alone (published n) e = (refl, refl, refl)
rest_alone (title_written n) e = (refl, refl, refl)
rest_alone (verified v) e = ground arith
rest_alone downloaded e = (refl, refl, refl)
rest_alone (added p b v) e = ground arith
rest_alone (delivery_recorded h l f) e = ground arith
rest_alone (finished fs) e = ground arith
rest_alone (marked_one p v) e = (refl, refl, refl)
rest_alone (marked_all ps v) e = (refl, refl, refl)
rest_alone (removed rs hs) e = (refl, refl, refl)
rest_alone failure_reported e = (refl, refl, refl)
rest_alone (result_recorded h u d m v) e = (refl, refl, refl)
rest_alone (counted u v) e = (refl, refl, refl)

pub is_submission-undownloaded :
    (c : Call) (tr : Calls) → is_submission c tr ≡ true → is_download c ≡ false
unfolding is_submission
is_submission-undownloaded c tr e = elim (Bool-cases (is_send c)) [
  | inl s ↦ (send_alone c s).1
  | inr s ↦ ground (arith, rest_alone c s)
]

pub drains-may_follow : (c : Call) (tr : Calls) → drains c tr ≡ true → may_follow c tr ≡ true
unfolding drains is_submission may_follow
drains-may_follow c tr e = elim (Bool-cases (is_send c)) [
  | inl s ↦ ground (arith, send_alone c s)
  | inr s ↦ ground (arith, rest_alone c s)
]

pub drains-unrecorded : (c : Call) (tr : Calls) → drains c tr ≡ true → is_result c ≡ false
unfolding drains is_submission
drains-unrecorded c tr e = elim (Bool-cases (is_send c)) [
  | inl s ↦ (send_alone c s).2
  | inr s ↦ ground (arith, rest_alone c s)
]

pub publish-Within : (w : World) (n : Notice) (tr : Calls) → Within is_minor tr (publish w n tr)
unfolding publish is_minor result_of is_add is_download mark_of
publish-Within w n tr = elim (Bool-cases w.has_emitter) [
  | inl e ↦ rw e (next (published n) refl same)
  | inr e ↦ rw e same
]
