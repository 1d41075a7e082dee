-- ===== src/Scheduler/Check/Notices.antt =====
-- The notices of a check and the record of its result: `notifyUpdated`, `notifyOnlyBody`,
-- `notifyOnlyRelease`, `notifyError` and `recordResult` of backend/internal/scheduler/scheduler.go.
-- A notice is its kind with its text; the release author's comment is left out.
use marauder.Prelude.{
  ◌-◌, Bool, true, false, not, ◌&&◌, ◌||◌, Option, none, some, List, [], ◌∷◌, ◌++◌, ltb, ◌==◌,
  if◌then◌else◌, length, take, Text, codes, text_eq,
}
use marauder.Prelude.Decimal.{itoa}
use marauder.Prelude.Int.{ℤ, pos, ltb_ℤ}
use marauder.Scheduler.Backoff.{backoff_delay}
use marauder.Scheduler.Classify.{Failure, classify_cause, rotates, wrap_persist, is_transient_error}
use marauder.Scheduler.Check.{
  Watched, Found, release_found, download_submitted, check_failed, verified, marked_all,
  failure_reported, result_recorded, counted, Calls, World, is_stale, publish,
}

-- `strings.Join(labels, ", ")`.
unfoldable pub join_labels : List Text → Text
join_labels [] = []
join_labels (l ∷ []) = l
join_labels (l ∷ m ∷ ls) = l ++ b',' ∷ b' ' ∷ join_labels (m ∷ ls)

-- At most ten labels, and how many more there are.
unfoldable pub shown_labels : List Text → Text
unfolding join_labels
shown_labels labels =
    if ltb 10 (length labels)
    then join_labels (take 10 labels) ++ codes " (+" ++ itoa (length labels - 10) ++ codes " more)"
    else join_labels labels

-- `len(labels) == 1 && labels[0] == t.DisplayName`.
unfoldable pub is_only : Text → List Text → Bool
is_only name (l ∷ []) = text_eq l name
is_only name ls = false

-- The body of `notifyUpdated`.
unfoldable pub updated_body : (name : Text) → List Text → (note : Text) → Text
unfolding shown_labels is_only
updated_body name labels note =
    let body =
      if is_only name labels
      then codes "Sent to client"
      else codes "Sent to client: " ++ shown_labels labels in
    if text_eq note [] then body else body ++ b'\n' ∷ note

-- `notifyOnlyBody(labels)`; the dash is the three bytes of its encoding.
unfoldable pub notify_only_body : List Text → Text
unfolding shown_labels
notify_only_body [] =
    codes "New release available " ++ 226 ∷ 128 ∷ 148 ∷ codes " not downloaded (notify-only topic)"
notify_only_body (l ∷ ls) =
    codes "New episodes available "
    ++ 226 ∷ 128 ∷ 148 ∷ codes " not downloaded: "
    ++ shown_labels (l ∷ ls)

module _ (w : World) where
  -- `notifyUpdated`.
  unfoldable pub notify_updated : Watched → List Text → (note : Text) → Calls → Calls
  unfolding publish updated_body
  notify_updated t [] note tr = tr
  notify_updated t (l ∷ ls) note tr =
      publish w (download_submitted (updated_body t.display_name (l ∷ ls) note)) tr

  -- `notifyError`.
  unfoldable pub notify_error : Watched → (message : Text) → Calls → Calls
  unfolding publish
  notify_error t message tr =
      if ltb_ℤ (pos 0) t.consecutive_errors then tr else publish w (check_failed message) tr

  -- `backoff`, as the delay behind now.
  unfoldable pub next_delay : Watched → (failure : Bool) → Option Failure → ℤ
  next_delay t failure cause =
      backoff_delay t.check_interval t.consecutive_errors w.max_backoff failure
        (is_transient_error w.patterns cause)

  -- `recordResult`.
  unfoldable pub record_result :
      (hash : Text)
      → (updated : Bool) → (delay : ℤ) → (message : Text) → Option Failure
      → Calls
      → Calls
  record_result hash updated delay message cause tr =
      let code = classify_cause w.patterns message cause in
      if text_eq message []
      then result_recorded hash updated delay message none ∷ tr
      else if w.has_domains && rotates code
      then result_recorded hash updated delay message (some code) ∷ failure_reported ∷ tr
      else result_recorded hash updated delay message (some code) ∷ tr

  -- The three calls that end a failed check.
  unfoldable pub fail_check :
      Watched
      → (hash : Text) → (updated counts_updated : Bool) → (message : Text) → Option Failure
      → Calls
      → Calls
  unfolding notify_error next_delay record_result
  fail_check t hash updated counts_updated message cause tr =
      counted counts_updated true
      ∷ notify_error t message
          (record_result hash updated (next_delay t true cause) message cause tr)

  -- Whether a notify-only topic has something to announce.
  unfoldable pub announces : Watched → Found → Bool
  announces t found =
      if text_eq t.topic.last_hash [] && not t.announce_current
      then false
      else not w.is_episodic || not (length found.pending == 0)

  -- `notifyOnlyRelease` behind the check of the topic's state: whether the tick carried a release, or
  -- the error of the mark.
  unfoldable pub mark_and_announce : Watched → Found → Calls → (Bool × Option Failure) × Calls
  unfolding announces publish notify_only_body
  mark_and_announce t found tr =
      let e = w.mark_all tr found.pending in
      let tr' = marked_all found.pending e ∷ tr in
      elim e [
        | some e ↦
            if e.stale_check_result
            then ((false, none), tr')
            else ((false, some (wrap_persist e)), tr')
        | none ↦
            if announces t found
            then ((true, none), publish w (release_found (notify_only_body found.human)) tr')
            else ((false, none), tr')
      ]

  -- `notifyOnlyRelease`.
  unfoldable pub notify_only_release : Watched → Found → Calls → (Bool × Option Failure) × Calls
  unfolding mark_and_announce is_stale
  notify_only_release t found tr =
      let v = w.verify tr in
      let rest = mark_and_announce t found (verified v ∷ tr) in
      if is_stale v then ((false, none), verified v ∷ tr) else rest
