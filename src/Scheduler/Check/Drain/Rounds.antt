-- ===== src/Scheduler/Check/Drain/Rounds.antt =====
-- The calls that `downloadAllPending` makes.
use marauder.Prelude.{
  ℕ, zero, suc, ◌+◌, ◌≤◌, ◌≡◌, refl, inl, inr, Bool, true, false, Option, none, some, List, [], ◌∷◌,
  arith, if◌then◌else◌, Bool-cases, Option-cases, Text,
}
use marauder.Scheduler.Delivery.Plan.{Payload}
use marauder.Scheduler.Classify.{Failure}
use marauder.Scheduler.Check.{
  Watched, Answer, got, broke, Call, downloaded, marked_one, Calls, World,
}
use marauder.Scheduler.Check.Send.{Sent, sent, refused, crashed, submit_to_client}
use marauder.Scheduler.Check.Send.Guards.{submit_to_client-Within}
use marauder.Scheduler.Check.Drain.{
  Drained, head_or_empty, rest_of, count_delivery, mark_delivered, after_submit, drain_round, drain,
}
use marauder.Scheduler.Check.Kinds.{
  Within, same, next, Within-trans, Within-weaken, is_send, mark_of, is_download, drains,
  sends-is_submission, is_submission-undownloaded, count, count-Within, is_submission,
}

module _ (w : World) where
  mark_delivered-Within :
      (pending : List Text) (d : Drained) (old : Calls)
      → Within is_submission old (mark_delivered w pending d old).2
  unfolding mark_delivered is_submission is_send mark_of
  mark_delivered-Within [] d old = same
  mark_delivered-Within (p ∷ ps) d old = elim (Bool-cases d.is_crashed) [
    | inl c ↦ simp (c, mark_delivered) same
    | inr c ↦ elim (Option-cases (w.mark_one old p)) [
      | inl f ↦ simp (c, f, mark_delivered) (marked none)
      | inr (x, f) ↦ elim (Bool-cases x.stale_check_result) [
        | inl g ↦ simp (c, f, g, mark_delivered) (marked (some x))
        | inr g ↦ simp (c, f, g, mark_delivered) (marked (some x))
      ]
    ]
  ]
    where
      marked : (e : Option Failure) → Within is_submission old (marked_one p e ∷ old)
      marked e = next (marked_one p e) refl same

  after_submit-Within :
      (pending : List Text) (label : Text) (payload : Payload) (d : Drained) (old : Calls)
      (s : Sent × Watched × Calls)
      → Within is_submission old s.2
      → Within is_submission old (after_submit w pending label payload d s).3
  unfolding after_submit
  after_submit-Within pending label payload d old (refused e, t, new) v =
      elim (Bool-cases e.stale_check_result) [
        | inl g ↦ simp (g, after_submit) v
        | inr g ↦ simp (g, after_submit) v
      ]
  after_submit-Within pending label payload d old (crashed, t, new) v = v
  after_submit-Within pending label payload d old (sent note, t, new) v =
      Within-trans v (mark_delivered-Within pending (count_delivery w t label payload note d) new)

  -- A round downloads one payload, and then makes the calls of a submission.
  drain_round-Within :
      (pending : List Text) (label : Text) (d : Drained) (t : Watched) (old : Calls)
      → Within is_submission (downloaded ∷ old) (drain_round w pending label d t old).3
  unfolding drain_round
  drain_round-Within pending label d t old = answer (w.download old pending)
    where
      answer :
          (a : Answer Payload)
          → Within is_submission
              (downloaded ∷ old)
              (elim a as (λ _. Bool × Drained × Watched × Calls) [
                | broke e ↦
                    if e.no_pending_episodes
                    then (false, d, t, downloaded ∷ old)
                    else (false, record d { error = some e }, t, downloaded ∷ old)
                | got payload ↦
                    after_submit w pending label payload d
                      (submit_to_client w t payload label (downloaded ∷ old))
              ]).3
      answer (broke e) = elim (Bool-cases e.no_pending_episodes) [
        | inl g ↦ rw g same
        | inr g ↦ rw g same
      ]
      answer (got payload) = after_submit-Within pending label payload d (downloaded ∷ old) _ (
          Within-weaken sends-is_submission
            (submit_to_client-Within w t payload label (downloaded ∷ old)))

  submission-drains : (c : Call) (tr : Calls) → is_submission c tr ≡ true → drains c tr ≡ true
  unfolding drains
  submission-drains c tr e = rw e refl

  drain_round-drains :
      (pending : List Text) (label : Text) (d : Drained) (t : Watched) (old : Calls)
      → Within drains old (drain_round w pending label d t old).3
  unfolding drains is_download is_submission is_send mark_of
  drain_round-drains pending label d t old =
      Within-trans (next downloaded refl same)
        (Within-weaken submission-drains (drain_round-Within pending label d t old))

  drain_round-count :
      (pending : List Text) (label : Text) (d : Drained) (t : Watched) (old : Calls)
      → count is_download (drain_round w pending label d t old).3 ≡ 1 + count is_download old
  unfolding count is_download
  drain_round-count pending label d t old =
      count-Within is_submission-undownloaded (drain_round-Within pending label d t old)

  pub drain-Within :
      (n : ℕ) (pending human : List Text) (d : Drained) (t : Watched) (old : Calls)
      → Within drains old (drain w n pending human d t old).2
  unfolding drain
  drain-Within zero pending human d t old = same
  drain-Within (suc n) pending human d t old =
      let r = drain_round w pending (head_or_empty human) d t old in
      let first = drain_round-drains pending (head_or_empty human) d t old in
      let rest = drain-Within n (rest_of pending) (rest_of human) r.1 r.2 r.3 in
      elim (Bool-cases r.0) [ inl e ↦ rw e (Within-trans first rest) | inr e ↦ rw e first ]

  pub drain-count :
      (n : ℕ) (pending human : List Text) (d : Drained) (t : Watched) (old : Calls)
      → count is_download (drain w n pending human d t old).2 ≤ n + count is_download old
  unfolding drain
  drain-count zero pending human d t old = omega arith
  drain-count (suc n) pending human d t old =
      let r = drain_round w pending (head_or_empty human) d t old in
      let first = drain_round-count pending (head_or_empty human) d t old in
      let rest = drain-count n (rest_of pending) (rest_of human) r.1 r.2 r.3 in
      elim (Bool-cases r.0) [ inl e ↦ rw e (omega arith) | inr e ↦ rw e (omega arith) ]
