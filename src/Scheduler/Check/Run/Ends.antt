-- ===== src/Scheduler/Check/Run/Ends.antt =====
-- What the calls of one check are.
use marauder.Prelude.{
  ◌≡◌, refl, sym, subst, ◌⊎◌, inl, inr, true, false, not, ◌&&◌, none, some, List, [], if◌then◌else◌,
  Bool-cases, Option-cases, Text, codes, text_eq,
}
use marauder.Prelude.Int.{pos, eq_ℤ}
use marauder.Scheduler.Replace.{Delivered}
use marauder.Scheduler.Check.Drain.{Drained, nothing_yet, max_per_tick, drain, download_all_pending}
use marauder.Scheduler.Check.Drain.Rounds.{drain-Within, drain-count}
use marauder.Scheduler.Check.Drain.Keeps.{drain-SameHash}
use marauder.Scheduler.Check.Run.{
  aborted, complete, accept_title, prior_deliveries, finish_download, run_download, run_found,
  run_checked, run_check,
}
use marauder.Scheduler.Check.{
  Watched, Found, Answer, got, broke, check_started, release_found, Calls, World, publish,
}
use marauder.Scheduler.Check.Kinds.{Within, same, Within-trans, is_minor, publish-Within}
use marauder.Scheduler.Check.Records.{Records, Records-before, fail_check-Records}
use marauder.Scheduler.Check.Run.Parts.{
  Allowed, Whole, Whole-before, load_credentials-ends, accept_title-keeps, complete_check-Records,
  run_notify_only-Records, after_delivery-Within, quiet, broken, full,
}

module _ (w : World) where
  -- The rest behind a delivery ends with one result, or the delivery panicked.
  finish_download-ends :
      {last : Text} (found : Found) (prior : List Delivered) (d : Drained) (t : Watched)
      (old asked : Calls)
      → w.check asked ≡ got found
      → t.topic.last_hash ≡ last
      → let r = finish_download w found prior d t old in
        (r ≡ (aborted, old)) ⊎ ((r.0 ≡ complete) × Records (Allowed w last) old r.1)
  unfolding finish_download
  finish_download-ends {last} found prior d t old asked e k = elim (Bool-cases d.is_crashed) [
    | inl c ↦ simp c (inl refl)
    | inr c ↦ elim (Option-cases d.error) [
      | inl f ↦
          simp (c, f)
            (inr (
              refl,
              Records-before (after_delivery-Within w t prior d old)
                  (complete_check-Records w t found true _ asked e),
            ))
      | inr (x, f) ↦
          simp (c, f)
            (inr (
              refl,
              fail_check-Records w t t.topic.last_hash _ true x.text (some x) old
                  (λ _. inr (inl k)),
            ))
    ]
  ]

  run_download-Whole :
      (t : Watched) (found : Found) (old asked : Calls)
      → w.check asked ≡ got found
      → Whole w t.topic.last_hash false
          (max_per_tick w.max_episodes)
          old
          (run_download w t found old)
  unfolding run_download download_all_pending
  run_download-Whole t found old asked e =
      let r =
        drain w (max_per_tick w.max_episodes) found.pending found.human nothing_yet t before in
      let drained =
        drain-Within w (max_per_tick w.max_episodes) found.pending found.human nothing_yet t
          before in
      let few =
        drain-count w (max_per_tick w.max_episodes) found.pending found.human nothing_yet t
          before in
      let k =
        drain-SameHash w (max_per_tick w.max_episodes) found.pending found.human nothing_yet t
          before in
      elim (finish_download-ends found (prior_deliveries w t before) r.0 r.1 r.2 asked e k) [
        | inl f ↦
            subst (Whole w t.topic.last_hash false (max_per_tick w.max_episodes) old) (sym f)
              (broken refl announced drained few)
        | inr (c, rs) ↦
            subst
              (λ s.
                Whole w t.topic.last_hash false (max_per_tick w.max_episodes) old
                  (s, (run_download w t found old).1))
              (sym c) (full refl announced drained few rs)
      ]
    where
      before : Calls
      before =
          if eq_ℤ t.consecutive_errors (pos 0)
          then publish w (release_found (codes "New release detected")) old
          else old

      announced : Within is_minor old before
      announced = elim (Bool-cases (eq_ℤ t.consecutive_errors (pos 0))) [
        | inl f ↦ simp f (publish-Within w (release_found (codes "New release detected")) old)
        | inr f ↦ simp f same
      ]

  run_found-Whole :
      (t : Watched) (found : Found) (old asked : Calls)
      → w.check asked ≡ got found
      → Whole w t.topic.last_hash t.topic.notify_only
          (max_per_tick w.max_episodes)
          old
          (run_found w found t old)
  unfolding run_found
  run_found-Whole t found old asked e =
      elim (Bool-cases
        (not (not (text_eq found.hash []) && not (text_eq found.hash t.topic.last_hash)))) [
          | inl f ↦ simp f (quiet (complete_check-Records w t found false old asked e))
          | inr f ↦ elim (Bool-cases t.topic.notify_only) [
            | inl g ↦ simp (f, g) (quiet (run_notify_only-Records w t found old asked e))
            | inr g ↦ simp (f, g) (run_download-Whole t found old asked e)
          ]
        ]

  run_checked-Whole :
      (t : Watched) (old : Calls)
      → Whole w t.topic.last_hash t.topic.notify_only
          (max_per_tick w.max_episodes)
          old
          (run_checked w t old)
  unfolding run_checked
  run_checked-Whole t old = by_answer (w.check old) refl
    where
      by_answer :
          (a : Answer Found)
          → w.check old ≡ a
          → Whole w t.topic.last_hash t.topic.notify_only
              (max_per_tick w.max_episodes)
              old
              (run_checked w t old)
      by_answer (broke e) f =
          simp (f, run_checked)
            (quiet (fail_check-Records w t [] false false e.text (some e) old (λ _. inl refl)))
      by_answer (got found) f =
          let (v, k) = (accept_title-keeps w) t found old in
          simp (f, run_checked)
            (Whole-before v (
              subst
                (λ u.
                  Whole w u.last_hash u.notify_only (max_per_tick w.max_episodes)
                    (accept_title w t found old).1
                    (run_found w found (accept_title w t found old).0
                      (accept_title w t found old).1))
                k
                (run_found-Whole (accept_title w t found old).0 found (accept_title w t found old).1
                  old f)))

  pub run_check-Whole :
      (t fresh : Watched)
      → Whole w fresh.topic.last_hash fresh.topic.notify_only
          (max_per_tick w.max_episodes)
          []
          (run_check w t (some fresh))
  unfolding run_check
  run_check-Whole t fresh = elim (Bool-cases w.has_tracker) [
    | inl e ↦
        elim (load_credentials-ends w {last = fresh.topic.last_hash} fresh
          (publish w check_started [])) [
            | inl (c, v) ↦
                simp (e, c)
                  (Whole-before (Within-trans (publish-Within w check_started []) v)
                    (run_checked-Whole fresh _))
            | inr (c, rs) ↦
                simp (e, c) (quiet (Records-before (publish-Within w check_started []) rs))
          ]
    | inr e ↦ simp e (
        quiet (
          fail_check-Records w t [] false false (codes "tracker plugin not installed") none []
            (λ _. inl refl)))
  ]
