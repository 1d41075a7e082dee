-- ===== src/Scheduler/Delivery/Finish.antt =====
-- `finishDelivery` and `startRenamed` of backend/internal/scheduler/update_policy.go.
pub mod Ready
pub mod Kept
pub mod Starts
pub mod Rename
pub mod Ends
use marauder.Prelude.{
  Bool, true, not, ◌&&◌, Option, none, some, List, [], ◌∷◌, if◌then◌else◌, Text, codes, text_eq,
}
use marauder.Domain.{TorrentFile, ClientFile}
use marauder.Scheduler.Delivery.{
  started, Trace, Answers, Topic, DeliveryPlan, rename_to, cannot_apply,
}
use marauder.Scheduler.Delivery.Selection.{wait_for_files, finish_update_policy}
use marauder.Scheduler.Delivery.Folder.{
  Applied, join_notes, folder_failed, apply_folder_name, recheck_renamed, folder_cannot_apply,
}

module _ (an : Answers) where
  -- `startRenamed`.
  unfoldable pub start_renamed : Trace → Text × Trace
  start_renamed tr =
      let r = an.start tr in
      (
        if r then [] else codes "Starting the torrent failed. Start it in your client.",
        started r ∷ tr,
      )

  -- `if ok && !plan.paused`: the note, whether the torrent runs, and the calls.
  unfoldable pub start_if_renamed : (starts was_started : Bool) → Trace → (Text × Bool) × Trace
  unfolding start_renamed
  start_if_renamed starts was_started tr =
      let r = start_renamed tr in
      if starts then ((r.0, text_eq r.0 []), r.1) else (([], was_started), tr)

  -- `finishDelivery` from the answer of `applyFolderName` on.
  unfoldable pub after_folder : Topic → DeliveryPlan → Applied × Trace → Text × Trace
  unfolding start_if_renamed
  after_folder t plan (a, tr) =
      let policy = finish_update_policy an t plan (some a.files) a.ok tr in
      let start = start_if_renamed (a.ok && not plan.paused) policy.0.1 policy.1 in
      let recheck = recheck_renamed an a.recheck start.0.1 start.1 in
      (join_notes (policy.0.0 ∷ a.note ∷ start.0.0 ∷ recheck.0 ∷ []), recheck.1)

  -- `finishDelivery` from the answer of `waitForFiles` on, where the plan renames.
  unfoldable pub finish_renaming :
      Topic
      → DeliveryPlan
      → List TorrentFile
      → (want : Text) → Option (List ClientFile) × Trace
      → Text × Trace
  unfolding after_folder
  finish_renaming t plan manifest want (none, tr) = (folder_failed "could not list the files", tr)
  finish_renaming t plan manifest want (some client, tr) =
      after_folder t plan (apply_folder_name an manifest want client tr)

  unfoldable pub finish_plain : Topic → DeliveryPlan → Trace → Text × Trace
  finish_plain t plan tr =
      let policy = finish_update_policy an t plan none true tr in
      (join_notes (policy.0.0 ∷ folder_cannot_apply plan.folder ∷ []), policy.1)

  -- `finishDelivery`.
  unfoldable pub finish_delivery : Topic → DeliveryPlan → Trace → Text × Trace
  unfolding finish_renaming finish_plain
  finish_delivery t plan tr = elim plan.folder [
    | none ↦ finish_plain t plan tr
    | some (rename_to hash manifest want) ↦
        finish_renaming t plan manifest want (wait_for_files an (an.polls tr) tr)
    | some (cannot_apply want result note) ↦ finish_plain t plan tr
  ]
