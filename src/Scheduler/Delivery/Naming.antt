-- ===== src/Scheduler/Delivery/Naming.antt =====
-- `planFolderName`, `keepFolderName` and `rememberFolderName` of
-- backend/internal/scheduler/folder_name.go.
pub mod Seen
use marauder.Prelude.{
  ◌≡◌, refl, inl, inr, Bool, true, false, not, ◌&&◌, ◌||◌, Option, none, some, List, [], arith,
  ◌==◌, Bool-cases, length, Text, text_eq,
}
use marauder.Domain.{TorrentFile}
use marauder.Torrentmeta.Decode.{files, root_name}
use marauder.Torrentmeta.Decoder.{Decoded, done, bad, ran_out}
use marauder.Scheduler.Delivery.{Topic, custom_name, FolderPlan, unreadable, renames}
use marauder.Scheduler.Delivery.Plan.{Payload}
use marauder.Scheduler.Delivery.FolderName.{
  Sources, wanted_name, cannot, plan_rename, plan_manifest, plan_named, plan_wanted,
}

-- A plan that renames, for a topic that names the folder itself, wants exactly the topic's name, which
-- is not empty and not the torrent's own; the payload is a torrent file with a top folder, and the
-- client can rename it and list its files.
pub record Renaming (src : Sources) (t : Topic) (payload : Payload) (want : Text) : Type 0 where
  pub asked : want ≡ t.folder_name
  pub named : text_eq want [] ≡ false
  pub torrent : text_eq payload.magnet_uri [] ≡ true
  pub has_folder :
      (name : Text) × (root_name payload.torrent_file ≡ done (name, true))
      × (text_eq name want ≡ false)
  pub able : (src.can_rename && src.can_select) ≡ true

module _ (src : Sources) where
  manifest-able :
      (hash want : Text) (payload : Payload) (fs : Option (List TorrentFile))
      → renames (plan_manifest src hash want payload fs) ≡ true
      → (src.can_rename && src.can_select) ≡ true
  unfolding plan_manifest plan_rename renames
  manifest-able hash want payload (some fs) e = ground (arith, e)
  manifest-able hash want payload none e = by_files (files payload.torrent_file) e
    where
      by_files :
          (r : Decoded (List TorrentFile))
          → renames (elim r as (λ _. Option FolderPlan) [
            | done fs ↦ plan_rename src hash want fs
            | bad e ↦ cannot src want unreadable "could not read the torrent"
            | ran_out ↦ cannot src want unreadable "could not read the torrent"
          ])
            ≡ true
          → (src.can_rename && src.can_select) ≡ true
      by_files (done fs) k = ground (arith, k)
      by_files (bad b) k = cc
      by_files ran_out k = cc

  named-Renaming :
      (hash : Text) (payload : Payload) (fs : Option (List TorrentFile)) (t : Topic)
      (r : Decoded (Text × Bool))
      → root_name payload.torrent_file ≡ r
      → text_eq t.folder_name [] ≡ false
      → text_eq payload.magnet_uri [] ≡ true
      → renames (plan_named src hash t.folder_name payload fs t r).0 ≡ true
      → Renaming src t payload t.folder_name
  unfolding plan_named renames
  named-Renaming hash payload fs t (bad b) same n m e = cc
  named-Renaming hash payload fs t ran_out same n m e = cc
  named-Renaming hash payload fs t (done (name, false)) same n m e = cc
  named-Renaming hash payload fs t (done (name, true)) same n m e =
      elim (Bool-cases (text_eq name t.folder_name)) [
        | inl k ↦ absurd (let bad_ : false ≡ true = rw k at e in cc bad_)
        | inr k ↦ record {
          asked = refl;
          named = n;
          torrent = m;
          has_folder = (name, same, k);
          able = manifest-able hash t.folder_name payload fs (rw k at e);
        }
      ]

-- For a topic that names the folder itself: a folder plan that renames is made only if the name is
-- not empty, the payload is a torrent file with a top folder of another name, and the client can
-- rename folders and list files.
pub plan_wanted-Renaming :
    (src : Sources) (hash : Text) (payload : Payload) (fs : Option (List TorrentFile)) (t : Topic)
    → t.folder_mode ≡ custom_name
    → renames (plan_wanted src hash payload fs (wanted_name src hash t)).0 ≡ true
    → Renaming src t payload t.folder_name
unfolding plan_wanted wanted_name renames
plan_wanted-Renaming src hash payload fs t mode e = by_name (simp (mode, wanted_name) at e)
  where
    by_name :
        renames (plan_wanted src hash payload fs (t.folder_name, t)).0 ≡ true
        → Renaming src t payload t.folder_name
    by_name e = elim (Bool-cases (text_eq t.folder_name [])) [
      | inl n ↦ absurd (let bad_ : false ≡ true = rw n at e in cc bad_)
      | inr n ↦
          elim (Bool-cases
            (not (text_eq payload.magnet_uri []) || length payload.torrent_file == 0)) [
              | inl m ↦ absurd (let bad_ : false ≡ true = rw m at (rw n at e) in cc bad_)
              | inr m ↦
                  named-Renaming src hash payload fs t (root_name payload.torrent_file) refl n
                    (ground arith) (rw m at (rw n at e))
            ]
    ]
