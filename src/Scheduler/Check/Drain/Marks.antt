-- ===== src/Scheduler/Check/Drain/Marks.antt =====
-- How far `downloadAllPending` gets in one tick.
use marauder.Prelude.{
  ℕ, zero, suc, ◌+◌, ◌≤◌, ◌≡◌, refl, sym, ap, ◌∙◌, inl, inr, Bool, true, false, Option, none, some,
  List, [], ◌∷◌, ◌++◌, arith, if◌then◌else◌, Bool-cases, Option-cases, length, take, length-append,
  Text, text_eq,
}
use mathlib.Core.List.{append-nil, append_assoc}
use marauder.Infohash.{Scan, ok, fail, panicked, out_of_fuel, from_payload}
use marauder.Scheduler.Delivery.Plan.{Payload}
use marauder.Scheduler.Classify.{Failure}
use marauder.Scheduler.Check.{Watched, Found, Answer, got, broke, downloaded, Calls, World}
use marauder.Scheduler.Check.Send.{Sent, sent, refused, crashed, submit_to_client}
use marauder.Scheduler.Check.Send.Guards.{submit_to_client-Within}
use marauder.Scheduler.Check.Drain.{
  Drained, nothing_yet, max_per_tick, head_or_empty, rest_of, add_hash_of, count_delivery,
  mark_delivered, after_submit, drain_round, drain, download_all_pending,
}
use marauder.Scheduler.Check.Kinds.{Within, same, next, sends, mark_of, send_alone, sends-is_send}

unfoldable add_mark : List Text → Option (Text × Option Failure) → List Text
add_mark ms none = ms
add_mark ms (some (p, none)) = ms ++ p ∷ []
add_mark ms (some (p, some e)) = ms

-- The episodes whose mark succeeded, in the order of the marks.
unfoldable pub marks : Calls → List Text
unfolding add_mark mark_of
marks [] = []
marks (c ∷ tr) = add_mark (marks tr) (mark_of c)

marks-Within : {a b : Calls} → Within sends a b → marks b ≡ marks a
unfolding marks add_mark
marks-Within same = refl
marks-Within (next {tr'} c e w) = rw ((send_alone c (sends-is_send c tr' e)).0) (marks-Within w)

-- What a round does to the marks and to the payloads delivered.
data Round (d : Drained) (old : Calls) : List Text → Bool → Drained → Calls → Type 0 where
  unmarked :
      {ps : List Text} {d' : Drained} {new : Calls}
      → marks new ≡ marks old
      → length d.delivered ≤ length d'.delivered
      → length d'.delivered ≤ 1 + length d.delivered
      → Round d old ps false d' new
  marked :
      {p : Text} {ps : List Text} {b : Bool} {d' : Drained} {new : Calls}
      → marks new ≡ marks old ++ p ∷ []
      → length d'.delivered ≡ 1 + length d.delivered
      → Round d old (p ∷ ps) b d' new

module _ (w : World) where
  add_hash_of-delivered : (h : Scan Text) (d : Drained) → (add_hash_of h d).delivered ≡ d.delivered
  unfolding add_hash_of
  add_hash_of-delivered (ok h) d = elim (Bool-cases (text_eq h [])) [
    | inl e ↦ rw e refl
    | inr e ↦ rw e refl
  ]
  add_hash_of-delivered (fail e) d = refl
  add_hash_of-delivered panicked d = refl
  add_hash_of-delivered out_of_fuel d = refl

  count_delivery-delivered :
      (t : Watched) (label : Text) (payload : Payload) (note : Text) (d : Drained)
      → length (count_delivery w t label payload note d).delivered ≡ 1 + length d.delivered
  unfolding count_delivery
  count_delivery-delivered t label payload note d =
      rw (add_hash_of-delivered (from_payload w.packages payload.magnet_uri payload.torrent_file) _)
        (length-append d.delivered _ ∙ omega arith)

  mark_delivered-Round :
      (pending : List Text) (d d' : Drained) (old old' : Calls)
      → marks old' ≡ marks old
      → length d'.delivered ≡ 1 + length d.delivered
      → Round d old pending
          (mark_delivered w pending d' old').0
          (mark_delivered w pending d' old').1
          (mark_delivered w pending d' old').2
  unfolding mark_delivered marks add_mark mark_of
  mark_delivered-Round [] d d' old old' m e = unmarked m (omega arith) (omega arith)
  mark_delivered-Round (p ∷ ps) d d' old old' m e = elim (Bool-cases d'.is_crashed) [
    | inl c ↦ simp (c, mark_delivered) (unmarked m (omega arith) (omega arith))
    | inr c ↦ elim (Option-cases (w.mark_one old' p)) [
      | inl f ↦ simp (c, f, mark_delivered) (marked (ap (λ ms. ms ++ p ∷ []) m) e)
      | inr (x, f) ↦ elim (Bool-cases x.stale_check_result) [
        | inl g ↦ simp (c, f, g, mark_delivered) (unmarked m (omega arith) (omega arith))
        | inr g ↦ simp (c, f, g, mark_delivered) (unmarked m (omega arith) (omega arith))
      ]
    ]
  ]

  after_submit-Round :
      (pending : List Text) (label : Text) (payload : Payload) (d : Drained) (old : Calls)
      (s : Sent × Watched × Calls)
      → marks s.2 ≡ marks old
      → Round d old pending
          (after_submit w pending label payload d s).0
          (after_submit w pending label payload d s).1
          (after_submit w pending label payload d s).3
  unfolding after_submit
  after_submit-Round pending label payload d old (refused e, t, new) m =
      elim (Bool-cases e.stale_check_result) [
        | inl g ↦ simp (g, after_submit) (unmarked m (omega arith) (omega arith))
        | inr g ↦ simp (g, after_submit) (unmarked m (omega arith) (omega arith))
      ]
  after_submit-Round pending label payload d old (crashed, t, new) m =
      unmarked m (omega arith) (omega arith)
  after_submit-Round pending label payload d old (sent note, t, new) m =
      mark_delivered-Round pending d (count_delivery w t label payload note d) old new m
        (count_delivery-delivered t label payload note d)

  drain_round-Round :
      (pending : List Text) (label : Text) (d : Drained) (t : Watched) (old : Calls)
      → Round d old pending
          (drain_round w pending label d t old).0
          (drain_round w pending label d t old).1
          (drain_round w pending label d t old).3
  unfolding drain_round marks add_mark mark_of
  drain_round-Round pending label d t old = answer (w.download old pending)
    where
      answer :
          (a : Answer Payload)
          → let r = elim a as (λ _. Bool × Drained × Watched × Calls) [
            | broke e ↦
                if e.no_pending_episodes
                then (false, d, t, downloaded ∷ old)
                else (false, record d { error = some e }, t, downloaded ∷ old)
            | got payload ↦
                after_submit w pending label payload d
                  (submit_to_client w t payload label (downloaded ∷ old))
          ] in
            Round d old pending r.0 r.1 r.3
      answer (broke e) = elim (Bool-cases e.no_pending_episodes) [
        | inl g ↦ rw g (unmarked refl (omega arith) (omega arith))
        | inr g ↦ rw g (unmarked refl (omega arith) (omega arith))
      ]
      answer (got payload) =
          after_submit-Round pending label payload d old
            (submit_to_client w t payload label (downloaded ∷ old))
            (marks-Within (submit_to_client-Within w t payload label (downloaded ∷ old)))

  -- How far a loop of at most `n` rounds gets.
  abbrev Progress : ℕ → List Text → Drained → Calls → Drained × Watched × Calls → Type 0
  Progress n pending d old r =
      (k : ℕ) × (k ≤ n)
      × (marks r.2 ≡ marks old ++ take k pending)
      × (length d.delivered + k ≤ length r.0.delivered)
      × (length r.0.delivered ≤ length d.delivered + k + 1)

  Round-Progress :
      {n : ℕ} {pending : List Text} {goes : Bool} {d d' : Drained} {old new : Calls} (t : Watched)
      (rest : Drained × Watched × Calls)
      → Round d old pending goes d' new
      → Progress n (rest_of pending) d' new rest
      → Progress (suc n) pending d old (if goes then rest else (d', t, new))
  unfolding rest_of
  Round-Progress t rest (unmarked m a b) ih =
      (0, omega arith, m ∙ sym (append-nil _), omega arith, omega arith)
  Round-Progress {pending = p ∷ ps} {goes = false} t rest (marked m a) ih =
      (1, omega arith, m, omega arith, omega arith)
  Round-Progress {pending = p ∷ ps} {goes = true} {old = old} t rest (marked m a) (k, b, f, g, h) =
      (
        suc k,
        omega arith,
        f ∙ ap (λ ms. ms ++ take k ps) m ∙ append_assoc (marks old) (p ∷ []) (take k ps),
        omega arith,
        omega arith,
      )

  drain-Progress :
      (n : ℕ) (pending human : List Text) (d : Drained) (t : Watched) (old : Calls)
      → Progress n pending d old (drain w n pending human d t old)
  unfolding drain
  drain-Progress zero pending human d t old =
      (0, omega arith, sym (append-nil (marks old)), omega arith, omega arith)
  drain-Progress (suc n) pending human d t old =
      let r = drain_round w pending (head_or_empty human) d t old in
      Round-Progress r.2 _ (drain_round-Round pending (head_or_empty human) d t old)
        (drain-Progress n (rest_of pending) (rest_of human) r.1 r.2 r.3)

-- In one tick the episodes marked as downloaded are the first `k` of those that the tracker's answer
-- lists as pending, in that order, and `k` is at most the configured number of episodes (25 if that is
-- not positive). The payloads delivered are as many, or one more.
pub download_all_pending-marks :
    (w : World) (found : Found) (t : Watched) (old : Calls)
    → let r = download_all_pending w found t old in
      (k : ℕ) × (k ≤ max_per_tick w.max_episodes)
      × (marks r.2 ≡ marks old ++ take k found.pending)
      × (k ≤ length r.0.delivered)
      × (length r.0.delivered ≤ k + 1)
unfolding download_all_pending
download_all_pending-marks w found t old =
    let (k, a, m, b, c) =
      drain-Progress w (max_per_tick w.max_episodes) found.pending found.human nothing_yet t old in
    (k, a, m, omega arith, omega arith)
