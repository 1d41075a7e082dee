-- ===== src/Scheduler/Delivery/Naming/Seen.antt =====
-- What the planning of a folder name keeps of the topic.
use marauder.Prelude.{
  ◌≡◌, refl, ◌∙◌, inl, inr, Bool, not, ◌||◌, Option, List, [], ◌==◌, is_some, Bool-cases,
  Option-cases, length, Text, text_eq,
}
use marauder.Domain.{TorrentFile}
use marauder.Infohash.{Scan, ok, fail, panicked, out_of_fuel, from_payload, Packages, ◌>>>◌}
use marauder.Torrentmeta.Decode.{root_name}
use marauder.Torrentmeta.Decoder.{Decoded, done, bad, ran_out}
use marauder.Scheduler.Delivery.{
  Topic, FolderPlan, FolderMode, unset, default_name, custom_name, keep_name, other_mode,
}
use marauder.Scheduler.Delivery.Plan.{Payload}
use marauder.Scheduler.Delivery.FolderName.{
  Sources, store_seen, remember_folder_name, live_root, keep_folder_name, wanted_name, plan_named,
  plan_wanted, hash_or_empty, plan_folder_name,
}

-- The second topic has the hash of the first.
abbrev pub KeepsHash : Topic → Topic → Type 0
KeepsHash t t' = t'.last_hash ≡ t.last_hash

-- The topic that a result of the planning holds, if it holds one.
abbrev pub Planned : Topic → Scan (Option FolderPlan × Topic) → Type 0
Planned t (ok r) = KeepsHash t r.1
Planned t (fail e) = Unit
Planned t panicked = Unit
Planned t out_of_fuel = Unit

module _ (src : Sources) where
  store_seen-KeepsHash : (name : Text) (t : Topic) → KeepsHash t (store_seen src name t)
  unfolding store_seen
  store_seen-KeepsHash name t = elim (Option-cases src.set_seen) [
    | inl e ↦ simp (e, store_seen) refl
    | inr (write, e) ↦ elim (Bool-cases (write name)) [
      | inl f ↦ simp (e, f, store_seen) refl
      | inr f ↦ simp (e, f, store_seen) refl
    ]
  ]

  remember-KeepsHash : (name : Text) (t : Topic) → KeepsHash t (remember_folder_name src name t)
  unfolding remember_folder_name
  remember-KeepsHash name t = by_mode t.folder_mode refl
    where
      by_mode : (m : FolderMode) → t.folder_mode ≡ m → KeepsHash t (remember_folder_name src name t)
      by_mode keep_name e = elim (Bool-cases (text_eq name t.folder_name_seen)) [
        | inl f ↦ simp (e, f, remember_folder_name) refl
        | inr f ↦ simp (e, f, remember_folder_name) (store_seen-KeepsHash name t)
      ]
      by_mode unset e = simp (e, remember_folder_name) refl
      by_mode default_name e = simp (e, remember_folder_name) refl
      by_mode custom_name e = simp (e, remember_folder_name) refl
      by_mode other_mode e = simp (e, remember_folder_name) refl

  keep_folder_name-KeepsHash :
      (hash : Text) (t : Topic) → KeepsHash t (keep_folder_name src hash t).1
  unfolding keep_folder_name
  keep_folder_name-KeepsHash hash t =
      elim (Bool-cases (not src.can_select || not (is_some src.client_id))) [
        | inl e ↦ simp (e, keep_folder_name) refl
        | inr e ↦ elim (Option-cases (live_root src hash)) [
          | inl f ↦ simp (e, f, keep_folder_name) refl
          | inr (root, f) ↦ simp (e, f, keep_folder_name) (remember-KeepsHash root t)
        ]
      ]

  wanted_name-KeepsHash : (hash : Text) (t : Topic) → KeepsHash t (wanted_name src hash t).1
  unfolding wanted_name
  wanted_name-KeepsHash hash t = by_mode t.folder_mode refl
    where
      by_mode : (m : FolderMode) → t.folder_mode ≡ m → KeepsHash t (wanted_name src hash t).1
      by_mode keep_name e = simp (e, wanted_name) (keep_folder_name-KeepsHash hash t)
      by_mode unset e = simp (e, wanted_name) refl
      by_mode default_name e = simp (e, wanted_name) refl
      by_mode custom_name e = simp (e, wanted_name) refl
      by_mode other_mode e = simp (e, wanted_name) refl

  plan_named-KeepsHash :
      (hash want : Text) (payload : Payload) (fs : Option (List TorrentFile)) (t : Topic)
      (r : Decoded (Text × Bool))
      → KeepsHash t (plan_named src hash want payload fs t r).1
  unfolding plan_named
  plan_named-KeepsHash hash want payload fs t (bad e) = refl
  plan_named-KeepsHash hash want payload fs t ran_out = refl
  plan_named-KeepsHash hash want payload fs t (done (name, multi_file)) =
      elim (Bool-cases multi_file) [
        | inl m ↦ elim (Bool-cases (text_eq name want)) [
          | inl e ↦ simp (m, e) (remember-KeepsHash want t)
          | inr e ↦ simp (m, e) refl
        ]
        | inr m ↦ simp m refl
      ]

  plan_wanted-KeepsHash :
      (hash : Text) (payload : Payload) (fs : Option (List TorrentFile)) (t : Topic)
      (want : Text × Topic)
      → KeepsHash t want.1
      → KeepsHash t (plan_wanted src hash payload fs want).1
  unfolding plan_wanted
  plan_wanted-KeepsHash hash payload fs t (want, t') r = elim (Bool-cases (text_eq want [])) [
    | inl e ↦ simp e r
    | inr e ↦
        elim (Bool-cases
          (not (text_eq payload.magnet_uri []) || length payload.torrent_file == 0)) [
            | inl m ↦ simp (e, m) r
            | inr m ↦
                simp (e, m)
                  (plan_named-KeepsHash hash want payload fs t' (root_name payload.torrent_file)
                    ∙ r)
          ]
  ]

  -- Planning the name of the folder keeps the hash of the topic.
  pub plan_folder_name-Planned :
      (pk : Packages) (t : Topic) (episodic : Bool) (payload : Payload)
      (fs : Option (List TorrentFile))
      → Planned t (plan_folder_name src pk t episodic payload fs)
  unfolding plan_folder_name
  plan_folder_name-Planned pk t episodic payload fs =
      elim (Bool-cases (episodic || t.notify_only)) [
        | inl e ↦ simp (e, plan_folder_name) refl
        | inr e ↦
            simp (e, plan_folder_name)
              (planned
                (hash_or_empty src (from_payload pk payload.magnet_uri payload.torrent_file)))
      ]
    where
      planned :
          (h : Scan Text)
          → Planned t (h >>> λ hash. ok (plan_wanted src hash payload fs (wanted_name src hash t)))
      planned (ok hash) =
          plan_wanted-KeepsHash hash payload fs t (wanted_name src hash t)
            (wanted_name-KeepsHash hash t)
      planned (fail e) = tt
      planned panicked = tt
      planned out_of_fuel = tt
