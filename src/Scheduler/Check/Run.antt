-- ===== src/Scheduler/Check/Run.antt =====
-- `runCheck` and `loadCredentials` of backend/internal/scheduler/scheduler.go.
pub mod Parts
pub mod Ends
pub mod Results
use marauder.Prelude.{
  Bool, true, false, not, ◌&&◌, ◌||◌, Option, none, some, List, [], ◌∷◌, ◌++◌, ◌==◌, if◌then◌else◌,
  is_some, length, Text, codes, text_eq,
}
use marauder.Prelude.Int.{pos, eq_ℤ}
use marauder.Scheduler.Replace.{Delivered, replace_previous}
use marauder.Scheduler.Classify.{Failure}
use marauder.Scheduler.Check.Drain.{Drained, download_all_pending}
use marauder.Scheduler.Check.Notices.{
  next_delay, record_result, fail_check, notify_updated, notify_only_release,
}
use marauder.Scheduler.Check.{
  Watched, Found, got, broke, check_started, check_completed, session_expired, release_found,
  title_written, removed, counted, Calls, no_credential, stored, World, publish,
}

-- How a check ends: a topic that lost its turn, a panic, or a check that ran to its end.
pub data Ended : Type 0 where
  skipped aborted complete : Ended

module _ (w : World) where
  -- The step of `loadCredentials` at a login that fails: the mark and its notice.
  unfoldable pub report_session : (is_marked : Bool) → Failure → Calls → Calls
  unfolding publish
  report_session is_marked e tr =
      if e.session_expired && not is_marked && w.mark_expired tr
      then publish w session_expired tr
      else tr

  -- `loadCredentials`: whether the check goes on.
  unfoldable pub load_credentials : Watched → Calls → Bool × Calls
  unfolding report_session next_delay record_result
  load_credentials t tr = elim (w.credential tr) [
    | no_credential ↦ (true, tr)
    | stored is_marked ↦ elim (w.session tr) [
      | none ↦ (true, tr)
      | some e ↦ (
        false,
        counted false true
            ∷ record_result w [] false (next_delay w t true (some e))
                (codes "auth failed: " ++ e.text) (some e) (report_session is_marked e tr),
      )
    ]
  ]

  -- The step that takes the tracker's title.
  unfoldable pub accept_title : Watched → Found → Calls → Watched × Calls
  accept_title t found tr =
      let writes =
        not w.has_feed_titles
        && not (text_eq found.display_name [])
        && not (text_eq found.display_name t.display_name)
        && (t.name_is_placeholder || t.follow_tracker_title) in
      let tr' = title_written found.display_name ∷ tr in
      if not writes
      then (t, tr)
      else if w.write_title tr found.display_name
      then (record t { display_name = found.display_name; name_is_placeholder = false }, tr')
      else (t, tr')

  -- The end of a check that found no error.
  unfoldable pub complete_check : Watched → Found → (updated : Bool) → Calls → Calls
  unfolding publish next_delay record_result
  complete_check t found updated tr =
      counted updated false
      ∷ record_result w found.hash updated (next_delay w t false none) [] none
          (publish w check_completed tr)

  -- The branch of a notify-only topic, with the rest of the check.
  unfoldable pub run_notify_only : Watched → Found → Calls → Calls
  unfolding notify_only_release fail_check complete_check
  run_notify_only t found tr =
      let ((updated, mark_error), tr') = notify_only_release w t found tr in
      elim mark_error [
        | some e ↦ fail_check w t t.topic.last_hash false true e.text (some e) tr'
        | none ↦ complete_check t found updated tr'
      ]

  -- The removal of the previous versions.
  unfoldable pub replace_prior : Watched → List Delivered → List Text → Calls → Calls
  unfolding replace_previous
  replace_prior t [] hashes tr = tr
  replace_prior t (d ∷ ds) hashes tr =
      let r = replace_previous w.to_lower w.removers t.replace_delete_data (d ∷ ds) hashes in
      removed r.0 r.1 ∷ tr

  -- The deliveries that the policy "replace previous version" may remove.
  unfoldable pub prior_deliveries : Watched → Calls → List Delivered
  prior_deliveries t tr =
      if t.replace_on_update && is_some w.latest && not w.is_episodic then w.prior tr else []

  -- What follows a delivery without an error.
  unfoldable pub after_delivery : Watched → List Delivered → Drained → Calls → Calls
  unfolding replace_prior notify_updated
  after_delivery t prior d tr =
      let tr' = notify_updated w t d.delivered d.note (replace_prior t prior d.hashes tr) in
      if length d.delivered == 0 then tr else tr'

  -- The rest of a check whose release was drained.
  unfoldable pub finish_download :
      Found → List Delivered → Drained → Watched → Calls → Ended × Calls
  unfolding fail_check complete_check after_delivery
  finish_download found prior d t tr = if d.is_crashed then (aborted, tr) else elim d.error [
    | some e ↦ (
      complete,
      fail_check w t t.topic.last_hash (not (length d.delivered == 0)) true e.text (some e) tr,
    )
    | none ↦ (complete, complete_check t found true (after_delivery t prior d tr))
  ]

  -- The branch of a release that is to be delivered, with the rest of the check.
  unfoldable pub run_download : Watched → Found → Calls → Ended × Calls
  unfolding publish prior_deliveries finish_download download_all_pending
  run_download t found tr =
      let tr1 =
        if eq_ℤ t.consecutive_errors (pos 0)
        then publish w (release_found (codes "New release detected")) tr
        else tr in
      let prior = prior_deliveries t tr1 in
      let (d, t', tr2) = download_all_pending w found t tr1 in finish_download found prior d t' tr2

  -- `runCheck` from the hash on.
  unfoldable pub run_found : Found → Watched → Calls → Ended × Calls
  unfolding run_notify_only run_download complete_check
  run_found found t tr =
      if not (not (text_eq found.hash []) && not (text_eq found.hash t.topic.last_hash))
      then (complete, complete_check t found false tr)
      else if t.topic.notify_only
      then (complete, run_notify_only t found tr)
      else run_download t found tr

  -- `runCheck` from the tracker's `Check` on.
  unfoldable pub run_checked : Watched → Calls → Ended × Calls
  unfolding run_found accept_title fail_check
  run_checked t tr = elim (w.check tr) [
    | broke e ↦ (complete, fail_check w t [] false false e.text (some e) tr)
    | got found ↦ let r = accept_title t found tr in run_found found r.0 r.1
  ]

  -- `runCheck`; `fresh` is the answer of `awaitCheckTurn`, `none` for a topic that is skipped.
  unfoldable pub run_check : Watched → (fresh : Option Watched) → Ended × Calls
  unfolding run_checked load_credentials fail_check publish
  run_check t fresh =
      if not w.has_tracker
      then (complete, fail_check w t [] false false (codes "tracker plugin not installed") none [])
      else elim fresh [
        | none ↦ (skipped, [])
        | some t' ↦
            let r = load_credentials t' (publish w check_started []) in
            if r.0 then run_checked t' r.1 else (complete, r.1)
      ]
