-- ===== src/Scheduler/Delivery/Finish/Starts.antt =====
-- The calls of `finishDelivery` on a delivery with a selection, in every order of answers.
use marauder.Prelude.{
  ℕ, zero, suc, ◌≡◌, refl, subst, inl, inr, Bool, true, false, not, ◌&&◌, Option, none, some, List,
  ◌∷◌, arith, Bool-cases, Option-cases, Text, text_eq,
}
use marauder.Prelude.Int.{pos, ltb_ℤ}
use marauder.Domain.{TorrentFile, ClientFile}
use marauder.Torrentmeta.Layout.{client_root}
use marauder.Scheduler.Delivery.{
  DiskState, state_read, renamed, Trace, Answers, Topic, FileSelection, DeliveryPlan, FolderPlan,
  rename_to, cannot_apply,
}
use marauder.Scheduler.Delivery.Folder.{
  Applied, wait_for_root, wait_for_stopped, is_stopped_or_failed, wait_for_running,
  is_running_or_failed, rename_root, rename_stopped, apply_folder_name, stop_unchecked, recheck_now,
  recheck_renamed,
}
use marauder.Scheduler.Delivery.Finish.{
  start_if_renamed, after_folder, finish_renaming, finish_plain, finish_delivery,
}
use marauder.Scheduler.Delivery.Finish.Ready.{Listed, EachReady, wait_keeps, wait-Listed}
use marauder.Scheduler.Delivery.Finish.Kept.{
  AllListed, policy-keeps, root-RootKept, FolderKept, after_rename-FolderKept,
}

module _ (an : Answers) (sel : FileSelection) where
  rename-FolderKept :
      (manifest : List TorrentFile) (want root : Text) (fs : List ClientFile) (tr : Trace)
      → EachReady sel tr
      → Listed fs tr
      → FolderKept an sel (rename_root an manifest want root fs tr)
  unfolding rename_root
  rename-FolderKept manifest want root fs tr h l =
      let r = an.rename_root tr root want in
      let tr' = renamed root want r ∷ tr in
      let n = an.polls tr' in
      elim (Bool-cases r) [
        | inr e ↦ simp (e, rename_root) (record { ready = (tt, h); given = inr l })
        | inl e ↦
            simp (e, rename_root)
              (after_rename-FolderKept an sel want fs
                (wait_for_root an manifest want (an.polls (renamed root want true ∷ tr))
                  (renamed root want true ∷ tr))
                (root-RootKept an sel manifest want _ _ fs (tt, h) (inr l)))
      ]

  stopped_keeps :
      (n : ℕ) (tr : Trace) (fs : List ClientFile)
      → EachReady sel tr
      → Listed fs tr
      → EachReady sel (wait_for_stopped an n tr).1 × Listed fs (wait_for_stopped an n tr).1
  unfolding wait_for_stopped
  stopped_keeps zero tr fs h l = ((tt, h), inr l)
  stopped_keeps (suc n) tr fs h l = elim (Bool-cases (is_stopped_or_failed (an.disk_state tr))) [
    | inl e ↦ rw e ((tt, h), inr l)
    | inr e ↦ rw e (stopped_keeps n (state_read (an.disk_state tr) ∷ tr) fs (tt, h) (inr l))
  ]

  running_keeps :
      (n : ℕ) (tr : Trace) → EachReady sel tr → EachReady sel (wait_for_running an n tr).1
  unfolding wait_for_running
  running_keeps zero tr h = (tt, h)
  running_keeps (suc n) tr h = elim (Bool-cases (is_running_or_failed (an.disk_state tr))) [
    | inl e ↦ rw e (tt, h)
    | inr e ↦ rw e (running_keeps n (state_read (an.disk_state tr) ∷ tr) (tt, h))
  ]

  stopped-FolderKept :
      (manifest : List TorrentFile) (want root : Text) (fs : List ClientFile)
      (r : Option DiskState × Trace)
      → EachReady sel r.1
      → Listed fs r.1
      → FolderKept an sel (rename_stopped an manifest want root fs r)
  unfolding rename_stopped
  stopped-FolderKept manifest want root fs (none, tr) h l = record { ready = h; given = l }
  stopped-FolderKept manifest want root fs (some s, tr) h l = elim (Bool-cases s.is_stopped) [
    | inr e ↦ rw e (record { ready = h; given = l })
    | inl e ↦ rw e (elim (Bool-cases (ltb_ℤ (pos 0) s.bytes_on_disk)) [
      | inl z ↦ rw z (record { ready = h; given = l })
      | inr z ↦ rw z (rename-FolderKept manifest want root fs tr h l)
    ])
  ]

  apply-FolderKept :
      (manifest : List TorrentFile) (want : Text) (fs : List ClientFile) (tr : Trace)
      → EachReady sel tr
      → Listed fs tr
      → FolderKept an sel (apply_folder_name an manifest want fs tr)
  unfolding apply_folder_name
  apply-FolderKept manifest want fs tr h l = elim (Option-cases (client_root fs (some manifest))) [
    | inl e ↦ rw (e, apply_folder_name) (record { ready = h; given = l })
    | inr (root, e) ↦
        let (h', l') = stopped_keeps (an.polls tr) tr fs h l in
        rw (e, apply_folder_name)
          (elim (Bool-cases (text_eq root want)) [
            | inl k ↦ rw k (record { ready = (tt, h); given = inr l })
            | inr k ↦ rw k (
                stopped-FolderKept manifest want root fs (wait_for_stopped an (an.polls tr) tr) h'
                  l')
          ])
  ]

  recheck_now_keeps : (tr : Trace) → EachReady sel tr → EachReady sel (recheck_now an tr).1
  unfolding recheck_now stop_unchecked
  recheck_now_keeps tr h = elim (Bool-cases (an.recheck tr)) [
    | inl e ↦ rw e (tt, h)
    | inr e ↦ rw e (tt, (tt, h))
  ]

  recheck_keeps :
      (recheck was_started : Bool) (tr : Trace)
      → EachReady sel tr
      → EachReady sel (recheck_renamed an recheck was_started tr).1
  unfolding recheck_renamed stop_unchecked
  recheck_keeps false was_started tr h = h
  recheck_keeps true false tr h = recheck_now_keeps tr h
  recheck_keeps true true tr h =
      let kept = running_keeps (an.polls tr) tr h in
      elim (Bool-cases (wait_for_running an (an.polls tr) tr).0) [
        | inl e ↦ rw e (recheck_now_keeps _ kept)
        | inr e ↦ rw e (tt, kept)
      ]

  module _ (t : Topic) (plan : DeliveryPlan) (chosen : plan.selection ≡ some sel)
      (paused : plan.paused ≡ true) where
    folder_keeps :
        (r : Applied × Trace) → FolderKept an sel r → EachReady sel (after_folder an t plan r).1
    unfolding after_folder start_if_renamed
    folder_keeps (a, tr) k =
        let kept =
          (policy-keeps an sel) t plan (some a.files) a.ok tr chosen
            (λ c e. subst (λ fs. Listed fs tr) (let same : a.files ≡ c = cc in same) k.given)
            k.ready in
        let idle : (a.ok && not plan.paused) ≡ false = ground arith in
        simp (idle, after_folder, start_if_renamed) (recheck_keeps a.recheck _ _ kept)

    renaming_keeps :
        (manifest : List TorrentFile) (want : Text) (r : Option (List ClientFile) × Trace)
        → AllListed an sel r.0 r.1
        → EachReady sel r.1
        → EachReady sel (finish_renaming an t plan manifest want r).1
    unfolding finish_renaming
    renaming_keeps manifest want (none, tr) l h = h
    renaming_keeps manifest want (some c, tr) l h =
        folder_keeps _ (apply-FolderKept manifest want c tr h (l c refl))

    plain_keeps : (tr : Trace) → EachReady sel tr → EachReady sel (finish_plain an t plan tr).1
    unfolding finish_plain
    plain_keeps tr h = (policy-keeps an sel) t plan none true tr chosen (λ c e. absurd (cc e)) h

-- Whatever the client, the database and the clock answer: where a plan has a selection and adds the
-- torrent paused, each start that `finish_delivery` sends stands behind a file list of the client
-- that pairs one to one with the torrent, and behind successful skips of every index that the pairing
-- gives to a file of the skip set. The same holds for each time it stores the file list, unless the
-- torrent has no file.
pub finish_delivery-EachReady :
    (an : Answers) (sel : FileSelection) (t : Topic) (plan : DeliveryPlan) (tr : Trace)
    → plan.selection ≡ some sel
    → plan.paused ≡ true
    → EachReady sel tr
    → EachReady sel (finish_delivery an t plan tr).1
unfolding finish_delivery
finish_delivery-EachReady an sel t plan tr chosen paused h = by_folder plan.folder refl
  where
    by_folder :
        (fp : Option FolderPlan) → plan.folder ≡ fp → EachReady sel (finish_delivery an t plan tr).1
    by_folder none e = simp (e, finish_delivery) (plain_keeps an sel t plan chosen paused tr h)
    by_folder (some (cannot_apply want result note)) e =
        simp (e, finish_delivery) (plain_keeps an sel t plan chosen paused tr h)
    by_folder (some (rename_to hash manifest want)) e =
        simp (e, finish_delivery)
          (renaming_keeps an sel t plan chosen paused manifest want _
            (λ c k. wait-Listed an sel (an.polls tr) tr c k) (wait_keeps an sel (an.polls tr) tr h))
