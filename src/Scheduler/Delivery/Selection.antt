-- ===== src/Scheduler/Delivery/Selection.antt =====
-- `waitForFiles`, `selectNewFiles`, `storeSelectedFiles` and `finishUpdatePolicy` of
-- backend/internal/scheduler/update_policy.go. Logs and metrics are left out.
use marauder.Prelude.{
  ℕ, zero, suc, ◌-◌, String, Bool, true, false, not, ◌||◌, Option, none, some, List, [], ◌∷◌, ◌++◌,
  ltb, ◌==◌, if◌then◌else◌, length, Text, codes,
}
use marauder.Prelude.Decimal.{itoa}
use marauder.Domain.{TorrentFile, ClientFile}
use marauder.Torrentmeta.Layout.{Mapping, map_client_files, mapped, mismatch, skip_indices}
use marauder.Scheduler.Delivery.{
  listed, skipped, started, stored, Trace, Answers, Topic, FileSelection, DeliveryPlan,
}

-- A list with a file at least: what a wait returns.
unfoldable pub non_empty : Option (List ClientFile) → Option (List ClientFile)
non_empty (some []) = none
non_empty fs = fs

-- The client answered with no file yet, which is asked again.
unfoldable pub is_pending : Option (List ClientFile) → Bool
is_pending (some []) = true
is_pending fs = false

-- What a step of the selection returns: the note, whether the selection took effect, and whether the
-- torrent was started.
pub record Selected : Type 0 where
  pub note : Text
  pub took_effect : Bool
  pub was_started : Bool

abbrev pub left_paused : Text → Selected
left_paused note = record { note = note; took_effect = true; was_started = false }

-- `fail(step, err)`.
abbrev pub failed_at : String → Selected
failed_at step = record {
  note =
      codes "Added paused: file selection did not finish ("
      ++ codes step
      ++ codes "). Check the torrent in your client.";
  took_effect = false;
  was_started = false;
}

-- `noNewFiles()`.
abbrev pub no_new_files : Selected
no_new_files =
    left_paused (codes "Added paused: this update has no new files; all its files are skipped.")

-- `newCount` and `total`; the skip set is a part of the files.
abbrev pub new_count : FileSelection → ℕ
new_count sel = length sel.files - length sel.skip

abbrev pub selected_note : FileSelection → Text
selected_note sel =
    codes "Added paused with "
    ++ itoa (new_count sel)
    ++ codes " new of "
    ++ itoa (length sel.files)
    ++ codes " files selected."

abbrev pub downloading_note : FileSelection → Text
downloading_note sel =
    codes "Downloading "
    ++ itoa (new_count sel)
    ++ codes " new of "
    ++ itoa (length sel.files)
    ++ codes " files."

module _ (an : Answers) where
  -- `waitForFiles`: asks until the list has a file, at most as often as the deadline allows.
  unfoldable pub wait_for_files : ℕ → Trace → Option (List ClientFile) × Trace
  wait_for_files zero tr = let r = an.files tr in (non_empty r, listed r ∷ tr)
  wait_for_files (suc n) tr =
      let r = an.files tr in
      let rest = wait_for_files n (listed r ∷ tr) in
      if is_pending r then rest else (non_empty r, listed r ∷ tr)

  -- `if len(sel.skip) > 0`: skips the old files, and says whether to go on.
  unfoldable pub skip_old : FileSelection → Mapping → Trace → Bool × Trace
  skip_old sel m tr =
      let indices = skip_indices m sel.skip in
      let r = an.skip_files tr indices in
      if ltb 0 (length sel.skip) then (r, skipped indices r ∷ tr) else (true, tr)

  -- The end of `selectNewFiles`.
  unfoldable pub start_selected : FileSelection → Trace → Selected × Trace
  start_selected sel tr =
      let r = an.start tr in
      (
        if r
            then record { note = downloading_note sel; took_effect = true; was_started = true }
            else failed_at "starting the torrent failed",
        started r ∷ tr,
      )

  -- `selectNewFiles` once the client's list is mapped.
  unfoldable pub select_mapped :
      FileSelection → (stays_paused : Bool) → Mapping → Trace → Selected × Trace
  unfolding skip_old start_selected
  select_mapped sel stays_paused m tr =
      let after = skip_old sel m tr in
      if not after.0
      then (failed_at "skipping the old files failed", after.1)
      else if length sel.files == length sel.skip
      then (no_new_files, after.1)
      else if stays_paused
      then (left_paused (selected_note sel), after.1)
      else start_selected sel after.1

  -- `selectNewFiles` once the client's list is read.
  unfoldable pub select_listed :
      FileSelection → (stays_paused : Bool) → List ClientFile → Trace → Selected × Trace
  unfolding select_mapped
  select_listed sel stays_paused client tr = elim (map_client_files client sel.files) [
    | mapped m ↦ select_mapped sel stays_paused m tr
    | mismatch e ↦ (failed_at "the client's file list does not match the torrent", tr)
  ]

  unfoldable pub select_answer :
      FileSelection → (stays_paused : Bool) → Option (List ClientFile) × Trace → Selected × Trace
  unfolding select_listed
  select_answer sel stays_paused (none, tr) = (failed_at "could not list the files", tr)
  select_answer sel stays_paused (some client, tr) = select_listed sel stays_paused client tr

  -- `selectNewFiles`: `clientFiles` is the list that the caller already has, if any.
  unfoldable pub select_new_files :
      Topic
      → FileSelection
      → Option (List ClientFile)
      → (may_start : Bool) → Trace
      → Selected × Trace
  unfolding wait_for_files select_answer
  select_new_files t sel client_files may_start tr =
      let answer : Option (List ClientFile) × Trace = elim client_files [
        | none ↦ wait_for_files (an.polls tr) tr
        | some client ↦ (some client, tr)
      ] in
      if length sel.files == 0
      then (no_new_files, tr)
      else select_answer sel (t.add_paused_on_update || not may_start) answer

  -- `storeSelectedFiles`.
  unfoldable pub store_selected_files : Option (List TorrentFile) → Trace → Trace
  store_selected_files fs tr = if an.has_deliveries then stored fs (an.set_files tr fs) ∷ tr else tr

  -- `if ok { s.storeSelectedFiles(...) }`.
  unfoldable pub store_if : Option (List TorrentFile) → Selected × Trace → Selected × Trace
  unfolding store_selected_files
  store_if fs r = if r.0.took_effect then (r.0, store_selected_files fs r.1) else r

  -- `finishUpdatePolicy`: the note, whether the torrent was started, and the calls.
  unfoldable pub finish_update_policy :
      Topic
      → DeliveryPlan
      → Option (List ClientFile)
      → (may_start : Bool) → Trace
      → (Text × Bool) × Trace
  unfolding select_new_files store_if
  finish_update_policy t plan client_files may_start tr = elim plan.selection [
    | some sel ↦
        let r = store_if plan.files (select_new_files t sel client_files may_start tr) in
        ((r.0.note, r.0.was_started), r.1)
    | none ↦ elim plan.fallback [
      | some why ↦ ((why.1, false), tr)
      | none ↦ ((if plan.paused then codes "Added paused." else plan.note, false), tr)
    ]
  ]
