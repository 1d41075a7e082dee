-- ===== src/Scheduler/Check/Run/Parts.antt =====
-- What the parts of `runCheck` that precede a delivery record.
use marauder.Prelude.{
  ℕ, ◌+◌, ◌≤◌, ◌≡◌, refl, ◌⊎◌, inl, inr, Bool, true, false, not, ◌&&◌, ◌||◌, Option, none, some,
  List, [], ◌∷◌, ◌++◌, arith, ◌==◌, Bool-cases, Option-cases, length, Text, codes, text_eq,
  text_eq_refl,
}
use marauder.Scheduler.Replace.{Delivered, replace_previous}
use marauder.Scheduler.Classify.{Failure, ErrorCode}
use marauder.Scheduler.Check.Drain.{Drained}
use marauder.Scheduler.Check.Notices.{next_delay, notify_only_release}
use marauder.Scheduler.Check.Run.{
  Ended, skipped, aborted, complete, report_session, load_credentials, accept_title, complete_check,
  run_notify_only, replace_prior, after_delivery,
}
use marauder.Scheduler.Check.{
  Watched, Found, got, check_completed, session_expired, title_written, removed, counted, Calls,
  LoadedCredential, no_credential, stored, World,
}
use marauder.Scheduler.Check.Kinds.{
  Within, same, Within-trans, is_minor, result_of, is_add, is_download, mark_of, drains, count,
  publish-Within,
}
use marauder.Scheduler.Check.Records.{
  Records, Records-before, Records-after, minor, record_result-Records, fail_check-Records,
  notify_updated-Within, notify_only_release-Within,
}

-- The hash that a check may record for a topic whose hash was `last`: no hash, the old one or, where
-- no error is recorded, the one that the tracker answered.
abbrev pub Allowed : World → (last : Text) → Text → Option ErrorCode → Type 0
Allowed w last hash code =
    (hash ≡ [])
    ⊎ ((hash ≡ last)
        ⊎ ((code ≡ none)
            × ((found : Found) × (asked : Calls) × (w.check asked ≡ got found)
                × (hash ≡ found.hash))))

-- What the calls of a check are: those of the check itself, those that deliver at most `n` payloads if
-- the topic is not notify-only, and those of the end with one result, unless the delivery panics.
pub data Whole (w : World) (last : Text) (notify_only : Bool) (n : ℕ) (old : Calls)
    : Ended × Calls → Type 0 where
  passed : {new : Calls} → Within is_minor old new → Whole w last notify_only n old (skipped, new)
  quiet :
      {new : Calls}
      → Records (Allowed w last) old new
      → Whole w last notify_only n old (complete, new)
  broken :
      {before new : Calls}
      → notify_only ≡ false
      → Within is_minor old before
      → Within drains before new
      → count is_download new ≤ n + count is_download before
      → Whole w last notify_only n old (aborted, new)
  full :
      {before after new : Calls}
      → notify_only ≡ false
      → Within is_minor old before
      → Within drains before after
      → count is_download after ≤ n + count is_download before
      → Records (Allowed w last) after new
      → Whole w last notify_only n old (complete, new)

pub Whole-before :
    {w : World} {last : Text} {notify_only : Bool} {n : ℕ} {a b : Calls} {r : Ended × Calls}
    → Within is_minor a b
    → Whole w last notify_only n b r
    → Whole w last notify_only n a r
Whole-before v (passed x) = passed (Within-trans v x)
Whole-before v (quiet x) = quiet (Records-before v x)
Whole-before v (broken q x y c) = broken q (Within-trans v x) y c
Whole-before v (full q x y c z) = full q (Within-trans v x) y c z

module _ (w : World) where
  report_session-Within :
      (is_marked : Bool) (e : Failure) (old : Calls)
      → Within is_minor old (report_session w is_marked e old)
  unfolding report_session
  report_session-Within is_marked e old =
      elim (Bool-cases (e.session_expired && not is_marked && w.mark_expired old)) [
        | inl f ↦ simp (f, report_session) (publish-Within w session_expired old)
        | inr f ↦ simp (f, report_session) same
      ]

  -- The credentials are loaded without a result, or the check ends with one.
  pub load_credentials-ends :
      {last : Text} (t : Watched) (old : Calls)
      → let r = load_credentials w t old in
        ((r.0 ≡ true) × Within is_minor old r.1)
        ⊎ ((r.0 ≡ false) × Records (Allowed w last) old r.1)
  unfolding load_credentials is_minor result_of is_add is_download mark_of
  load_credentials-ends {last} t old = by_credential (w.credential old) refl
    where
      by_session :
          (b : Bool)
          → w.credential old ≡ stored b
          → (s : Option Failure) → w.session old ≡ s
          → let r = load_credentials w t old in
            ((r.0 ≡ true) × Within is_minor old r.1)
            ⊎ ((r.0 ≡ false) × Records (Allowed w last) old r.1)
      by_session b c none e = simp (c, e, load_credentials) (inl (refl, same))
      by_session b c (some f) e =
          simp (c, e, load_credentials)
            (inr (
              refl,
              Records-after
                  (Records-before (report_session-Within b f old) (
                    record_result-Records w [] false (next_delay w t true (some f))
                      (codes "auth failed: " ++ f.text) (some f) _ (λ _. inl refl) (λ _. inl refl)))
                  (minor w (counted false true) refl),
            ))

      by_credential :
          (c : LoadedCredential)
          → w.credential old ≡ c
          → let r = load_credentials w t old in
            ((r.0 ≡ true) × Within is_minor old r.1)
            ⊎ ((r.0 ≡ false) × Records (Allowed w last) old r.1)
      by_credential no_credential e = simp (e, load_credentials) (inl (refl, same))
      by_credential (stored b) e = by_session b e (w.session old) refl

  pub accept_title-keeps :
      (t : Watched) (found : Found) (old : Calls)
      → let r = accept_title w t found old in Within is_minor old r.1 × (r.0.topic ≡ t.topic)
  unfolding accept_title is_minor result_of is_add is_download mark_of
  accept_title-keeps t found old =
      let writes =
        not w.has_feed_titles
        && not (text_eq found.display_name [])
        && not (text_eq found.display_name t.display_name)
        && (t.name_is_placeholder || t.follow_tracker_title) in
      elim (Bool-cases writes) [
        | inl e ↦ elim (Bool-cases (w.write_title old found.display_name)) [
          | inl f ↦ simp (e, f) (minor w (title_written found.display_name) refl, refl)
          | inr f ↦ simp (e, f) (minor w (title_written found.display_name) refl, refl)
        ]
        | inr e ↦ simp e (same, refl)
      ]

  pub complete_check-Records :
      {last : Text} (t : Watched) (found : Found) (updated : Bool) (old : Calls)
      → (asked : Calls) → w.check asked ≡ got found
      → Records (Allowed w last) old (complete_check w t found updated old)
  unfolding complete_check is_minor result_of is_add is_download mark_of
  complete_check-Records t found updated old asked e =
      Records-after
        (Records-before (publish-Within w check_completed old) (
          record_result-Records w found.hash updated (next_delay w t false none) [] none _
            (λ _. inr (inr (refl, (found, asked, e, refl))))
            (λ f. ground (arith, text_eq_refl []))))
        (minor w (counted updated false) refl)

  pub run_notify_only-Records :
      (t : Watched) (found : Found) (old asked : Calls)
      → w.check asked ≡ got found
      → Records (Allowed w t.topic.last_hash) old (run_notify_only w t found old)
  unfolding run_notify_only
  run_notify_only-Records t found old asked e =
      elim (Option-cases (notify_only_release w t found old).0.1) [
        | inl f ↦
            simp (f, run_notify_only)
              (Records-before (notify_only_release-Within w t found old)
                (complete_check-Records t found _ _ asked e))
        | inr (x, f) ↦
            simp (f, run_notify_only)
              (Records-before (notify_only_release-Within w t found old) (
                fail_check-Records w t t.topic.last_hash false true x.text (some x) _
                  (λ _. inr (inl refl))))
      ]

  replace_prior-Within :
      (t : Watched) (prior : List Delivered) (hashes : List Text) (old : Calls)
      → Within is_minor old (replace_prior w t prior hashes old)
  unfolding replace_prior is_minor result_of is_add is_download mark_of
  replace_prior-Within t [] hashes old = same
  replace_prior-Within t (d ∷ ds) hashes old =
      let r = replace_previous w.to_lower w.removers t.replace_delete_data (d ∷ ds) hashes in
      minor w (removed r.0 r.1) refl

  pub after_delivery-Within :
      (t : Watched) (prior : List Delivered) (d : Drained) (old : Calls)
      → Within is_minor old (after_delivery w t prior d old)
  unfolding after_delivery
  after_delivery-Within t prior d old = elim (Bool-cases (length d.delivered == 0)) [
    | inl e ↦ simp e same
    | inr e ↦ simp e (
        Within-trans (replace_prior-Within t prior d.hashes old)
          (notify_updated-Within w t d.delivered d.note _))
  ]
