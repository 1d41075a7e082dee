-- ===== src/Scheduler/Delivery/Folder.antt =====
-- The folder rename after an add, of backend/internal/scheduler/folder_name.go: `applyFolderName`, its
-- waits, `recheckRenamed`, `stopUnchecked`, `folderCannotApply` and the notes. Logs and metrics are
-- left out.
use marauder.Prelude.{
  ℕ, zero, suc, String, Bool, true, false, not, ◌&&◌, Option, none, some, List, [], ◌∷◌, ◌++◌,
  if◌then◌else◌, Text, codes, text_eq,
}
use marauder.Prelude.Int.{pos, ltb_ℤ, eq_ℤ}
use marauder.Domain.{TorrentFile, ClientFile}
use marauder.Torrentmeta.Layout.{client_root}
use marauder.Scheduler.Delivery.{
  DiskState, listed, stopped, state_read, renamed, rechecked, Trace, Answers, FolderPlan,
  cannot_apply,
}

abbrev pub saved_note : Text → Text
saved_note name = codes "Saved in folder \"" ++ name ++ codes "\"."

abbrev pub cannot_note : Text → String → Text
cannot_note name reason =
    codes "Could not use folder name \""
    ++ name
    ++ codes "\": "
    ++ codes reason
    ++ codes ". Saved in the tracker's folder."

-- The note of `folderFailed`.
abbrev pub folder_failed : String → Text
folder_failed step =
    codes "Added paused: renaming the folder failed ("
    ++ codes step
    ++ codes "). Rename it in your client and start it."

-- `joinNotes(notes...)`.
unfoldable pub join_notes : List Text → Text
join_notes [] = []
join_notes (n ∷ ns) =
    let rest = join_notes ns in
    if text_eq n [] then rest else if text_eq rest [] then n else n ++ b' ' ∷ rest

-- What `applyFolderName` returns, with the plan's `recheck` flag.
pub record Applied : Type 0 where
  pub files : List ClientFile
  pub note : Text
  pub ok : Bool
  pub recheck : Bool

-- The folder stays as it is, or a step failed; either way no recheck follows.
abbrev pub kept : List ClientFile → Text → Bool → Applied
kept fs note ok = record { files = fs; note = note; ok = ok; recheck = false }

-- `ClientRoot(files, manifest)` gives the wanted name.
unfoldable pub shows_root : List TorrentFile → Text → List ClientFile → Bool
shows_root manifest want fs = elim (client_root fs (some manifest)) [
  | none ↦ false
  | some root ↦ text_eq root want
]

-- What one reading of `waitForRoot` says: an error, the renamed list, or neither.
pub data RootWait : Type 0 where
  read_failed : RootWait
  not_shown : RootWait
  shown : List ClientFile → RootWait

unfoldable pub root_read : List TorrentFile → Text → Option (List ClientFile) → RootWait
unfolding shows_root
root_read manifest want none = read_failed
root_read manifest want (some fs) = if shows_root manifest want fs then shown fs else not_shown

unfoldable pub is_stopped_or_failed : Option DiskState → Bool
is_stopped_or_failed none = true
is_stopped_or_failed (some s) = s.is_stopped

-- A stopped torrent with no verified data, as a retry's recheck wants it.
unfoldable pub is_unverified : Option DiskState → Bool
is_unverified none = false
is_unverified (some s) = s.is_stopped && eq_ℤ s.bytes_on_disk (pos 0)

-- What `waitForRunning` says of one reading: the read error, running, or still stopped.
unfoldable pub is_running_or_failed : Option DiskState → Bool
is_running_or_failed none = true
is_running_or_failed (some s) = not s.is_stopped

unfoldable pub is_running : Option DiskState → Bool
is_running none = false
is_running (some s) = not s.is_stopped

module _ (an : Answers) where
  -- `waitForRoot`.
  unfoldable pub wait_for_root : List TorrentFile → Text → ℕ → Trace → RootWait × Trace
  unfolding root_read
  wait_for_root manifest want zero tr =
      let r = an.files tr in (root_read manifest want r, listed r ∷ tr)
  wait_for_root manifest want (suc n) tr =
      let r = an.files tr in
      let rest = wait_for_root manifest want n (listed r ∷ tr) in
      elim (root_read manifest want r) [
        | read_failed ↦ (read_failed, listed r ∷ tr)
        | not_shown ↦ rest
        | shown fs ↦ (shown fs, listed r ∷ tr)
      ]

  -- `waitForStopped`: the last state read.
  unfoldable pub wait_for_stopped : ℕ → Trace → Option DiskState × Trace
  wait_for_stopped zero tr = let r = an.disk_state tr in (r, state_read r ∷ tr)
  wait_for_stopped (suc n) tr =
      let r = an.disk_state tr in
      let rest = wait_for_stopped n (state_read r ∷ tr) in
      if is_stopped_or_failed r then (r, state_read r ∷ tr) else rest

  -- `waitForRunning`: whether the client reported the torrent running.
  unfoldable pub wait_for_running : ℕ → Trace → Bool × Trace
  wait_for_running zero tr = let r = an.disk_state tr in (is_running r, state_read r ∷ tr)
  wait_for_running (suc n) tr =
      let r = an.disk_state tr in
      let rest = wait_for_running n (state_read r ∷ tr) in
      if is_running_or_failed r then (is_running r, state_read r ∷ tr) else rest

  -- `applyFolderName` from the answer of `waitForRoot` on.
  unfoldable pub after_rename : Text → List ClientFile → RootWait × Trace → Applied × Trace
  after_rename want fs (read_failed, tr) =
      (kept fs (folder_failed "could not list the renamed files") false, tr)
  after_rename want fs (not_shown, tr) =
      (kept fs (folder_failed "the client did not show the renamed folder") false, tr)
  after_rename want fs (shown gs, tr) =
      (record { files = gs; note = saved_note want; ok = true; recheck = true }, tr)

  -- `applyFolderName` from the call of `RenameRoot` on.
  unfoldable pub rename_root :
      List TorrentFile → (want root : Text) → List ClientFile → Trace → Applied × Trace
  unfolding wait_for_root after_rename
  rename_root manifest want root fs tr =
      let r = an.rename_root tr root want in
      let tr' = renamed root want r ∷ tr in
      let rest = after_rename want fs (wait_for_root manifest want (an.polls tr') tr') in
      if r then rest else (kept fs (folder_failed "renaming failed") false, tr')

  -- `applyFolderName` from the answer of `waitForStopped` on.
  unfoldable pub rename_stopped :
      List TorrentFile
      → (want root : Text) → List ClientFile
      → Option DiskState × Trace
      → Applied × Trace
  unfolding rename_root
  rename_stopped manifest want root fs (none, tr) =
      (kept fs (folder_failed "could not read the torrent's progress") false, tr)
  rename_stopped manifest want root fs (some s, tr) =
      if not s.is_stopped
      then (kept fs (cannot_note want "the torrent is already running") true, tr)
      else if ltb_ℤ (pos 0) s.bytes_on_disk
      then (kept fs (cannot_note want "the torrent already has data on disk") true, tr)
      else rename_root manifest want root fs tr

  -- `applyFolderName`.
  unfoldable pub apply_folder_name :
      List TorrentFile → (want : Text) → List ClientFile → Trace → Applied × Trace
  unfolding wait_for_stopped rename_stopped
  apply_folder_name manifest want fs tr = elim (client_root fs (some manifest)) [
    | none ↦
        (kept fs (cannot_note want "the client does not put this torrent in a folder") true, tr)
    | some root ↦
        let r = an.disk_state tr in
        if text_eq root want
        then (
          record { files = fs; note = saved_note want; ok = true; recheck = is_unverified r },
          state_read r ∷ tr,
        )
        else rename_stopped manifest want root fs (wait_for_stopped (an.polls tr) tr)
  ]

  -- `stopUnchecked`.
  unfoldable pub stop_unchecked : Text → Trace → Text × Trace
  stop_unchecked note tr =
      let r = an.stop tr in
      (
        if r
            then note
            else codes
                "Rechecking the torrent failed and it could not be stopped. Stop and recheck it in your client.",
        stopped r ∷ tr,
      )

  unfoldable pub recheck_now : Trace → Text × Trace
  unfolding stop_unchecked
  recheck_now tr =
      let r = an.recheck tr in
      if r
      then ([], rechecked r ∷ tr)
      else stop_unchecked
          (codes
            "Added paused: rechecking the torrent failed. Recheck it in your client and start it.")
          (rechecked r ∷ tr)

  -- `recheckRenamed`, on the plan's `recheck` flag.
  unfoldable pub recheck_renamed : (recheck was_started : Bool) → Trace → Text × Trace
  unfolding wait_for_running recheck_now stop_unchecked
  recheck_renamed recheck was_started tr =
      let running = wait_for_running (an.polls tr) tr in
      if not recheck
      then ([], tr)
      else if not was_started
      then recheck_now tr
      else if running.0
      then recheck_now running.1
      else stop_unchecked
          (codes
            "Added paused: the client did not confirm the start, so the folder was not rechecked. Recheck the torrent in your client and start it.")
          running.1

-- `folderCannotApply`.
unfoldable pub folder_cannot_apply : Option FolderPlan → Text
folder_cannot_apply (some (cannot_apply want result note)) = note
folder_cannot_apply fp = []
