-- ===== src/Scheduler/Delivery/Finish/Ends.antt =====
-- How a delivery ends: the recheck after a rename, a failed rename, and a selection that goes through.
use marauder.Prelude.{
  ℕ, zero, suc, ◌≡◌, refl, ◌∙◌, inl, inr, Bool, true, false, not, ◌||◌, Option, some, List, ◌∷◌,
  arith, ltb, ◌==◌, Bool-cases, Option-cases, length,
}
use marauder.Prelude.Int.{ℤ}
use marauder.Domain.{TorrentFile, ClientFile}
use marauder.Torrentmeta.Layout.{Mapping, map_client_files, Mapped, mapped, mismatch, skip_indices}
use marauder.Scheduler.Delivery.{
  stopped, state_read, rechecked, Trace, Answers, Topic, FileSelection, DeliveryPlan,
}
use marauder.Scheduler.Delivery.Selection.{
  Selected, skip_old, start_selected, select_mapped, select_listed, select_answer, select_new_files,
  store_selected_files, store_if, finish_update_policy,
}
use marauder.Scheduler.Delivery.Folder.{
  Applied, wait_for_running, is_running_or_failed, stop_unchecked, recheck_now, recheck_renamed,
}
use marauder.Scheduler.Delivery.Finish.{start_if_renamed, after_folder}
use marauder.Scheduler.Delivery.Finish.Rename.{starts}
use marauder.Scheduler.Delivery.Selection.{no_new_files}

-- The newest call is a recheck that the client accepted, or a stop.
abbrev pub CheckedOrStopped : Trace → Type 0
CheckedOrStopped (rechecked true ∷ tr) = Unit
CheckedOrStopped (stopped r ∷ tr) = Unit
CheckedOrStopped _ = ⊥

module _ (an : Answers) where
  now_ends : (tr : Trace) → CheckedOrStopped (recheck_now an tr).1
  unfolding recheck_now stop_unchecked
  now_ends tr = elim (Bool-cases (an.recheck tr)) [ inl e ↦ rw e tt | inr e ↦ rw e tt ]

  recheck_ends :
      (was_started : Bool) (tr : Trace)
      → CheckedOrStopped (recheck_renamed an true was_started tr).1
  unfolding recheck_renamed stop_unchecked
  recheck_ends false tr = now_ends tr
  recheck_ends true tr = elim (Bool-cases (wait_for_running an (an.polls tr) tr).0) [
    | inl e ↦ rw e (now_ends (wait_for_running an (an.polls tr) tr).1)
    | inr e ↦ rw e tt
  ]

  running_starts : (n : ℕ) (tr : Trace) → starts (wait_for_running an n tr).1 ≡ starts tr
  unfolding wait_for_running starts
  running_starts zero tr = refl
  running_starts (suc n) tr = elim (Bool-cases (is_running_or_failed (an.disk_state tr))) [
    | inl e ↦ rw e refl
    | inr e ↦ rw e (running_starts n (state_read (an.disk_state tr) ∷ tr))
  ]

  skip_goes :
      (sel : FileSelection) (m : Mapping) (tr : Trace)
      → ((is : List ℤ) → an.skip_files tr is ≡ true)
      → (skip_old an sel m tr).0 ≡ true
  unfolding skip_old
  skip_goes sel m tr skips = elim (Bool-cases (ltb 0 (length sel.skip))) [
    | inl e ↦ rw e (skips (skip_indices m sel.skip))
    | inr e ↦ rw e refl
  ]

  skip_starts :
      (sel : FileSelection) (m : Mapping) (tr : Trace) → starts (skip_old an sel m tr).1 ≡ starts tr
  unfolding skip_old starts
  skip_starts sel m tr = elim (Bool-cases (ltb 0 (length sel.skip))) [
    | inl e ↦ rw e refl
    | inr e ↦ rw e refl
  ]

  mapped_starts :
      (sel : FileSelection) (m : Mapping) (tr : Trace)
      → starts (select_mapped an sel true m tr).1 ≡ starts tr
  unfolding select_mapped
  mapped_starts sel m tr = elim (Bool-cases (skip_old an sel m tr).0) [
    | inr e ↦ rw e (skip_starts sel m tr)
    | inl e ↦ rw e (elim (Bool-cases (length sel.files == length sel.skip)) [
      | inl z ↦ rw z (skip_starts sel m tr)
      | inr z ↦ rw z (skip_starts sel m tr)
    ])
  ]

  listed_starts :
      (sel : FileSelection) (client : List ClientFile) (tr : Trace)
      → starts (select_listed an sel true client tr).1 ≡ starts tr
  unfolding select_listed
  listed_starts sel client tr = by_map (map_client_files client sel.files) refl
    where
      by_map :
          (r : Mapped)
          → map_client_files client sel.files ≡ r
          → starts (select_listed an sel true client tr).1 ≡ starts tr
      by_map (mapped m) e = rw (e, select_listed) (mapped_starts sel m tr)
      by_map (mismatch k) e = rw (e, select_listed) refl

  store_starts :
      (fs : Option (List TorrentFile)) (r : Selected × Trace)
      → starts (store_if an fs r).1 ≡ starts r.1
  unfolding store_if store_selected_files starts
  store_starts fs r = elim (Bool-cases r.0.took_effect) [
    | inr e ↦ rw e refl
    | inl e ↦ rw e (elim (Bool-cases an.has_deliveries) [ inl d ↦ rw d refl | inr d ↦ rw d refl ])
  ]

  -- Without leave to start, the update policy starts nothing.
  policy_starts :
      (t : Topic) (plan : DeliveryPlan) (client : List ClientFile) (tr : Trace)
      → starts (finish_update_policy an t plan (some client) false tr).1 ≡ starts tr
  unfolding finish_update_policy select_new_files select_answer
  policy_starts t plan client tr = elim (Option-cases plan.selection) [
    | inl e ↦ elim (Option-cases plan.fallback) [
      | inl k ↦ simp (e, k, finish_update_policy) refl
      | inr (why, k) ↦ simp (e, k, finish_update_policy) refl
    ]
    | inr (sel, e) ↦
        let stays : (t.add_paused_on_update || not false) ≡ true = ground arith in
        simp (e, finish_update_policy, select_new_files)
          (store_starts plan.files (select_new_files an t sel (some client) false tr)
            ∙ elim (Bool-cases (length sel.files == 0)) [
              | inl z ↦ rw z refl
              | inr z ↦ rw (z, stays) (listed_starts sel client tr)
            ])
  ]

  now_starts : (tr : Trace) → starts (recheck_now an tr).1 ≡ starts tr
  unfolding recheck_now stop_unchecked starts
  now_starts tr = elim (Bool-cases (an.recheck tr)) [ inl e ↦ rw e refl | inr e ↦ rw e refl ]

  recheck_starts :
      (recheck was_started : Bool) (tr : Trace)
      → starts (recheck_renamed an recheck was_started tr).1 ≡ starts tr
  unfolding recheck_renamed stop_unchecked starts
  recheck_starts false was_started tr = refl
  recheck_starts true false tr = now_starts tr
  recheck_starts true true tr = elim (Bool-cases (wait_for_running an (an.polls tr) tr).0) [
    | inl e ↦ rw e (now_starts _ ∙ running_starts (an.polls tr) tr)
    | inr e ↦ rw e (running_starts (an.polls tr) tr)
  ]

module _ (an : Answers) (t : Topic) (sel : FileSelection) (client : List ClientFile) (m : Mapping)
    (tr : Trace) (fits : map_client_files client sel.files ≡ mapped m)
    (skips : (calls : Trace) (is : List ℤ) → an.skip_files calls is ≡ true) where
  -- A selection on a client whose list pairs with the torrent, and which accepts each skip: where no
  -- file is new, the selection takes effect and the torrent is not started, whatever the topic and the
  -- folder step allow.
  pub select_new_files-nothing_new :
      (may_start : Bool)
      → length sel.skip ≡ length sel.files
      → ((select_new_files an t sel (some client) may_start tr).0 ≡ no_new_files)
        × (starts (select_new_files an t sel (some client) may_start tr).1 ≡ starts tr)
  unfolding select_new_files select_answer select_listed select_mapped start_selected starts
  select_new_files-nothing_new may_start none_new = elim (Bool-cases (length sel.files == 0)) [
    | inl z ↦ rw z (refl, refl)
    | inr z ↦
        let equal : (length sel.files == length sel.skip) ≡ true = ground arith in
        let went = skip_goes an sel m tr (skips tr) in
        rw z (rw (fits, select_listed) (rw (went, equal) (refl, skip_starts an sel m tr)))
  ]

-- After a rename step that wants the renamed folder checked, the last call of the delivery is a recheck
-- that the client accepted, or a stop.
pub after_folder-checked :
    (an : Answers) (t : Topic) (plan : DeliveryPlan) (a : Applied) (tr : Trace)
    → a.recheck ≡ true
    → CheckedOrStopped (after_folder an t plan (a, tr)).1
unfolding after_folder start_if_renamed
after_folder-checked an t plan a tr e = simp (e, after_folder) (recheck_ends an _ _)

-- After a rename step that failed, the delivery sends no start.
pub after_folder-unstarted :
    (an : Answers) (t : Topic) (plan : DeliveryPlan) (a : Applied) (tr : Trace)
    → a.ok ≡ false
    → starts (after_folder an t plan (a, tr)).1 ≡ starts tr
unfolding after_folder start_if_renamed
after_folder-unstarted an t plan a tr e =
    simp (e, after_folder, start_if_renamed)
      (recheck_starts an a.recheck _ _ ∙ policy_starts an t plan a.files tr)
