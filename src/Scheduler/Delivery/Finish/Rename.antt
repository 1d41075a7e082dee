-- ===== src/Scheduler/Delivery/Finish/Rename.antt =====
-- The folder rename's order of calls, and a delivery whose rename failed.
use marauder.Prelude.{
  ℕ, zero, suc, ◌≡◌, refl, sym, subst, inl, inr, true, Option, none, some, List, [], ◌∷◌, arith,
  Bool-cases, Option-cases, Text, text_eq,
}
use marauder.Prelude.Int.{pos, ◌≤ℤ◌, ltb_ℤ}
use marauder.Domain.{TorrentFile, ClientFile}
use marauder.Torrentmeta.Layout.{client_root}
use marauder.Scheduler.Delivery.{DiskState, listed, started, state_read, renamed, Trace, Answers}
use marauder.Scheduler.Delivery.Folder.{
  RootWait, read_failed, not_shown, shown, root_read, wait_for_root, wait_for_stopped,
  is_stopped_or_failed, after_rename, rename_root, rename_stopped, apply_folder_name,
}

-- The state read just before a rename: stopped, with nothing on disk.
abbrev pub Untouched : Trace → Type 0
Untouched (state_read (some s) ∷ tr) = (s.is_stopped ≡ true) × (s.bytes_on_disk ≤ℤ pos 0)
Untouched _ = ⊥

abbrev pub EachRenameSafe : Trace → Type 0
EachRenameSafe [] = Unit
EachRenameSafe (renamed old new r ∷ tr) = Untouched tr × EachRenameSafe tr
EachRenameSafe (_ ∷ tr) = EachRenameSafe tr

-- How many starts were sent.
unfoldable pub starts : Trace → ℕ
starts [] = 0
starts (started r ∷ tr) = suc (starts tr)
starts (_ ∷ tr) = starts tr

module _ (an : Answers) where
  root_safe :
      (manifest : List TorrentFile) (want : Text) (n : ℕ) (tr : Trace)
      → EachRenameSafe tr
      → EachRenameSafe (wait_for_root an manifest want n tr).1
  unfolding wait_for_root
  root_safe manifest want zero tr h = h
  root_safe manifest want (suc n) tr h =
      by_read (root_read manifest want (an.files tr)) refl
        (root_safe manifest want n (listed (an.files tr) ∷ tr) h)
    where
      by_read :
          (r : RootWait)
          → root_read manifest want (an.files tr) ≡ r
          → EachRenameSafe (wait_for_root an manifest want n (listed (an.files tr) ∷ tr)).1
          → EachRenameSafe (wait_for_root an manifest want (suc n) tr).1
      by_read read_failed e ih = rw (e, wait_for_root) h
      by_read not_shown e ih = rw (e, wait_for_root) ih
      by_read (shown fs) e ih = rw (e, wait_for_root) h

  -- The wait for a stopped torrent ends with the state it returns as the newest call.
  stopped_newest :
      (n : ℕ) (tr : Trace)
      → EachRenameSafe tr
      → EachRenameSafe (wait_for_stopped an n tr).1
        × ((s : DiskState)
            → (wait_for_stopped an n tr).0 ≡ some s
            → s.is_stopped ≡ true
            → s.bytes_on_disk ≤ℤ pos 0
            → Untouched (wait_for_stopped an n tr).1)
  unfolding wait_for_stopped
  stopped_newest zero tr h =
      (h, λ s e k b. subst (λ r. Untouched (state_read r ∷ tr)) (sym e) (k, b))
  stopped_newest (suc n) tr h = elim (Bool-cases (is_stopped_or_failed (an.disk_state tr))) [
    | inl e ↦ rw e (h, λ s e k b. subst (λ r. Untouched (state_read r ∷ tr)) (sym e) (k, b))
    | inr e ↦ rw e (stopped_newest n (state_read (an.disk_state tr) ∷ tr) h)
  ]

  after_rename_same :
      (want : Text) (fs : List ClientFile) (r : RootWait × Trace)
      → (after_rename an want fs r).1 ≡ r.1
  unfolding after_rename
  after_rename_same want fs (read_failed, tr) = refl
  after_rename_same want fs (not_shown, tr) = refl
  after_rename_same want fs (shown gs, tr) = refl

  rename_safe :
      (manifest : List TorrentFile) (want root : Text) (fs : List ClientFile) (tr : Trace)
      → EachRenameSafe tr
      → Untouched tr
      → EachRenameSafe (rename_root an manifest want root fs tr).1
  unfolding rename_root
  rename_safe manifest want root fs tr h u = elim (Bool-cases (an.rename_root tr root want)) [
    | inr e ↦ simp (e, rename_root) (u, h)
    | inl e ↦
        let tr' = renamed root want true ∷ tr in
        simp (e, rename_root)
          (subst EachRenameSafe
            (sym (after_rename_same want fs (wait_for_root an manifest want (an.polls tr') tr')))
            (root_safe manifest want (an.polls tr') tr' (u, h)))
  ]

  rename_stopped_safe :
      (manifest : List TorrentFile) (want root : Text) (fs : List ClientFile)
      (r : Option DiskState × Trace)
      → EachRenameSafe r.1
      → ((s : DiskState)
          → r.0 ≡ some s
          → s.is_stopped ≡ true
          → s.bytes_on_disk ≤ℤ pos 0
          → Untouched r.1)
      → EachRenameSafe (rename_stopped an manifest want root fs r).1
  unfolding rename_stopped
  rename_stopped_safe manifest want root fs (none, tr) h u = h
  rename_stopped_safe manifest want root fs (some s, tr) h u = elim (Bool-cases s.is_stopped) [
    | inr e ↦ rw e h
    | inl e ↦ rw e (elim (Bool-cases (ltb_ℤ (pos 0) s.bytes_on_disk)) [
      | inl z ↦ rw z h
      | inr z ↦ rw z (rename_safe manifest want root fs tr h (u s refl e (ground arith)))
    ])
  ]

-- The rename of a just-added torrent's folder, whatever the client answers: each call that renames
-- comes at once after a reading that found the torrent stopped with nothing on disk.
pub apply_folder_name-EachRenameSafe :
    (an : Answers) (manifest : List TorrentFile) (want : Text) (fs : List ClientFile) (tr : Trace)
    → EachRenameSafe tr
    → EachRenameSafe (apply_folder_name an manifest want fs tr).1
unfolding apply_folder_name
apply_folder_name-EachRenameSafe an manifest want fs tr h =
    elim (Option-cases (client_root fs (some manifest))) [
      | inl e ↦ rw (e, apply_folder_name) h
      | inr (root, e) ↦
          rw (e, apply_folder_name)
            (elim (Bool-cases (text_eq root want)) [
              | inl k ↦ rw k h
              | inr k ↦
                  let (h', u) = stopped_newest an (an.polls tr) tr h in
                  rw k (
                    rename_stopped_safe an manifest want root fs
                      (wait_for_stopped an (an.polls tr) tr) h' u)
            ])
    ]
