-- ===== src/Scheduler/Check/Records.antt =====
-- The result that a check records, among the calls of its end.
use marauder.Prelude.{
  ◌≡◌, refl, inl, inr, Bool, true, false, ◌&&◌, Option, none, some, List, [], ◌∷◌, Bool-cases,
  Option-cases, Text, text_eq,
}
use marauder.Prelude.Int.{ℤ, pos, ltb_ℤ}
use marauder.Scheduler.Classify.{Failure, ErrorCode, classify_cause, rotates}
use marauder.Scheduler.Check.{
  Watched, Found, release_found, check_failed, download_submitted, Call, verified, marked_all,
  failure_reported, result_recorded, counted, Calls, World, is_stale,
}
use marauder.Scheduler.Check.Notices.{
  notify_updated, notify_error, next_delay, record_result, fail_check, announces, mark_and_announce,
  notify_only_release, notify_only_body, updated_body,
}
use marauder.Scheduler.Check.Kinds.{
  Within, same, next, Within-trans, is_minor, result_of, is_add, is_download, mark_of,
  publish-Within,
}

-- The second list of calls goes on from the first with one recorded result that satisfies `P`, and
-- else with minor calls only.
pub data Records (P : Text → Option ErrorCode → Type 0) (old : Calls) : Calls → Type 0 where
  records :
      {before new : Calls} (hash : Text) (updated : Bool) (delay : ℤ) (message : Text)
      (code : Option ErrorCode)
      → P hash code
      → Within is_minor old before
      → Within is_minor (result_recorded hash updated delay message code ∷ before) new
      → Records P old new

pub Records-before :
    {P : Text → Option ErrorCode → Type 0} {a b c : Calls}
    → Within is_minor a b
    → Records P b c
    → Records P a c
Records-before w (records h u d m e p v x) = records h u d m e p (Within-trans w v) x

pub Records-after :
    {P : Text → Option ErrorCode → Type 0} {a b c : Calls}
    → Records P a b
    → Within is_minor b c
    → Records P a c
Records-after (records h u d m e p v x) w = records h u d m e p v (Within-trans x w)

module _ (w : World) where
  pub minor : {old : Calls} (c : Call) → is_minor c old ≡ true → Within is_minor old (c ∷ old)
  minor c e = next c e same

  pub record_result-Records :
      {P : Text → Option ErrorCode → Type 0} (hash : Text) (updated : Bool) (delay : ℤ)
      (message : Text) (cause : Option Failure) (old : Calls)
      → (text_eq message [] ≡ true → P hash none)
      → (text_eq message [] ≡ false → P hash (some (classify_cause w.patterns message cause)))
      → Records P old (record_result w hash updated delay message cause old)
  unfolding record_result is_minor result_of is_add is_download mark_of
  record_result-Records hash updated delay message cause old p q =
      elim (Bool-cases (text_eq message [])) [
        | inl e ↦ rw e (records hash updated delay message none (p e) same same)
        | inr e ↦
            elim (Bool-cases (w.has_domains && rotates (classify_cause w.patterns message cause))) [
              | inl g ↦
                  rw (e, g)
                    (records hash updated delay message
                      (some (classify_cause w.patterns message cause)) (q e)
                      (next failure_reported refl same) same)
              | inr g ↦
                  rw (e, g)
                    (records hash updated delay message
                      (some (classify_cause w.patterns message cause)) (q e) same same)
            ]
      ]

  notify_error-Within :
      (t : Watched) (message : Text) (old : Calls)
      → Within is_minor old (notify_error w t message old)
  unfolding notify_error
  notify_error-Within t message old = elim (Bool-cases (ltb_ℤ (pos 0) t.consecutive_errors)) [
    | inl e ↦ rw e same
    | inr e ↦ rw e (publish-Within w (check_failed message) old)
  ]

  pub fail_check-Records :
      {P : Text → Option ErrorCode → Type 0} (t : Watched) (hash : Text)
      (updated counts_updated : Bool) (message : Text) (cause : Option Failure) (old : Calls)
      → ((c : Option ErrorCode) → P hash c)
      → Records P old (fail_check w t hash updated counts_updated message cause old)
  unfolding fail_check is_minor result_of is_add is_download mark_of
  fail_check-Records t hash updated counts_updated message cause old p =
      Records-after
        (record_result-Records hash updated (next_delay w t true cause) message cause old
          (λ _. p none) (λ _. p _))
        (next (counted counts_updated true) refl (notify_error-Within t message _))

  pub notify_updated-Within :
      (t : Watched) (labels : List Text) (note : Text) (old : Calls)
      → Within is_minor old (notify_updated w t labels note old)
  unfolding notify_updated
  notify_updated-Within t [] note old = same
  notify_updated-Within t (l ∷ ls) note old =
      publish-Within w (download_submitted (updated_body t.display_name (l ∷ ls) note)) old

  mark_and_announce-Within :
      (t : Watched) (found : Found) (old : Calls)
      → Within is_minor old (mark_and_announce w t found old).1
  unfolding mark_and_announce is_minor result_of is_add is_download mark_of
  mark_and_announce-Within t found old = elim (Option-cases (w.mark_all old found.pending)) [
    | inl e ↦ elim (Bool-cases (announces w t found)) [
      | inl a ↦
          simp (e, a, mark_and_announce)
            (Within-trans (marked none)
              (publish-Within w (release_found (notify_only_body found.human)) _))
      | inr a ↦ simp (e, a, mark_and_announce) (marked none)
    ]
    | inr (f, e) ↦ elim (Bool-cases f.stale_check_result) [
      | inl g ↦ simp (e, g, mark_and_announce) (marked (some f))
      | inr g ↦ simp (e, g, mark_and_announce) (marked (some f))
    ]
  ]
    where
      marked : (e : Option Failure) → Within is_minor old (marked_all found.pending e ∷ old)
      marked e = next (marked_all found.pending e) refl same

  pub notify_only_release-Within :
      (t : Watched) (found : Found) (old : Calls)
      → Within is_minor old (notify_only_release w t found old).1
  unfolding notify_only_release mark_and_announce is_minor result_of is_add is_download mark_of
  notify_only_release-Within t found old = elim (Bool-cases (is_stale (w.verify old))) [
    | inl e ↦ rw (e, notify_only_release) (minor (verified (w.verify old)) refl)
    | inr e ↦
        rw (e, notify_only_release)
          (Within-trans (minor (verified (w.verify old)) refl) (mark_and_announce-Within t found _))
  ]
