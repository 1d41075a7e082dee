-- ===== src/Scheduler/Delivery/Plan/Decides.antt =====
-- What `planDelivery` decides, over all its branches.
use marauder.Prelude.{
  ◌≡◌, refl, subst, inl, inr, Bool, true, not, ◌&&◌, ◌||◌, Option, none, some, List, [], arith,
  Bool-cases, Option-cases, Text, text_eq,
}
use marauder.Domain.{TorrentFile}
use marauder.Infohash.{Scan, ok, fail, panicked, out_of_fuel, Packages, from_torrent}
use marauder.Torrentmeta.Skip.{skip_set}
use marauder.Scheduler.Delivery.{Topic, FileSelection, DeliveryPlan, Answers, FolderPlan}
use marauder.Scheduler.Delivery.Plan.{
  Payload, payload_files, latest_files, plain, plan_unsupported, plan_selection, with_hash,
  plan_new_files, plan_delivery,
}
use marauder.Scheduler.Delivery.Finish.{finish_delivery}
use marauder.Scheduler.Delivery.Finish.Ready.{EachReady}
use marauder.Scheduler.Delivery.Finish.Starts.{finish_delivery-EachReady}

abbrev Deliveries : Type 0
Deliveries = Option (Text → Option (Option (List TorrentFile)))

-- A selection is that of the torrent `torrent` with the files `fs`: its hash is the torrent's infohash,
-- and it skips the files of the baseline that the repository gave for that infohash.
pub record FromBaseline (pk : Packages) (deliveries : Deliveries) (torrent : Text)
    (fs : Option (List TorrentFile)) (sel : FileSelection) : Type 0 where
  pub hashed : from_torrent pk torrent ≡ ok sel.hash
  pub listed : fs ≡ some sel.files
  pub baseline : List TorrentFile
  pub found : latest_files deliveries sel.hash ≡ some baseline
  pub skips : sel.skip ≡ skip_set baseline sel.files

-- What holds of each plan: whether it is paused, and where its selection comes from.
record Decided (pk : Packages) (deliveries : Deliveries) (torrent : Text)
    (fs : Option (List TorrentFile)) (paused : Bool) (plan : DeliveryPlan) : Type 0 where
  same_paused : plan.paused ≡ paused
  from :
      (sel : FileSelection)
      → plan.selection ≡ some sel
      → (plan.paused ≡ true) × FromBaseline pk deliveries torrent fs sel

selection-Decided :
    (pk : Packages) (deliveries : Deliveries) (torrent : Text) (fs : List TorrentFile) (hash : Text)
    → from_torrent pk torrent ≡ ok hash
    → Decided pk deliveries torrent (some fs) true (plan_selection deliveries fs hash)
unfolding plan_selection
selection-Decided pk deliveries torrent fs hash h =
    elim (Option-cases (latest_files deliveries hash)) [
      | inl e ↦
          rw (e, plan_selection) (record { same_paused = refl; from = λ sel k. absurd (cc k) })
      | inr (baseline, e) ↦
          rw (e, plan_selection)
            (record {
              same_paused = refl;
              from = λ sel k.
                  let made : FileSelection = record {
                    hash = hash;
                    files = fs;
                    skip = skip_set baseline fs;
                  } in
                  let same : made ≡ sel = cc in
                  (
                    refl,
                    subst (λ s. FromBaseline pk deliveries torrent (some fs) s) same
                        (record {
                          hashed = h;
                          listed = refl;
                          baseline = baseline;
                          found = e;
                          skips = refl;
                        }),
                  );
            })
    ]

module _ (pk : Packages) (deliveries : Deliveries) (torrent : Text) where
  -- A plan with no selection.
  bare-Decided :
      (fs : Option (List TorrentFile)) (made plan : DeliveryPlan) (paused : Bool)
      → made.selection ≡ none
      → made.paused ≡ paused
      → ok made ≡ ok plan
      → Decided pk deliveries torrent fs paused plan
  bare-Decided fs made plan paused bare p e =
      let same : made ≡ plan = cc in
      subst (λ q. Decided pk deliveries torrent fs paused q) same
        (record { same_paused = p; from = λ sel k. absurd (cc (bare, k)) })

  hash-Decided :
      (fs : List TorrentFile) (r : Scan Text) (plan : DeliveryPlan)
      → from_torrent pk torrent ≡ r
      → with_hash deliveries fs r ≡ ok plan
      → Decided pk deliveries torrent (some fs) true plan
  unfolding with_hash
  hash-Decided fs (ok hash) plan h e =
      let same : plan_selection deliveries fs hash ≡ plan = cc in
      subst (λ p. Decided pk deliveries torrent (some fs) true p) same
        (selection-Decided pk deliveries torrent fs hash h)
  hash-Decided fs (fail k) plan h e = bare-Decided (some fs) _ plan true refl refl e
  hash-Decided fs panicked plan h e = absurd (cc e)
  hash-Decided fs out_of_fuel plan h e = absurd (cc e)

new_files-Decided :
    (pk : Packages) (deliveries : Deliveries) (payload : Payload) (fs : Option (List TorrentFile))
    (plan : DeliveryPlan)
    → plan_new_files pk deliveries payload fs ≡ ok plan
    → Decided pk deliveries payload.torrent_file fs true plan
unfolding plan_new_files text_eq
new_files-Decided pk deliveries payload fs plan e =
    elim (Bool-cases (text_eq payload.magnet_uri [])) [
      | inr m ↦ bare-Decided pk deliveries payload.torrent_file fs _ plan true refl refl (rw m at e)
      | inl m ↦ by_files fs (rw m at e)
    ]
  where
    by_files :
        (fs : Option (List TorrentFile))
        → plan_new_files pk deliveries (record payload { magnet_uri = [] }) fs ≡ ok plan
        → Decided pk deliveries payload.torrent_file fs true plan
    by_files none k = bare-Decided pk deliveries payload.torrent_file none _ plan true refl refl k
    by_files (some list_) k =
        hash-Decided pk deliveries payload.torrent_file list_ (from_torrent pk payload.torrent_file)
          plan refl k

-- When `planDelivery` adds an update paused.
abbrev pub pauses : Topic → (episodic can_select : Bool) → Bool
pauses t episodic can_select =
    not episodic
    && not (text_eq t.last_hash [])
    && (t.add_paused_on_update || t.only_new_files)
    && can_select

planned-Decided :
    (pk : Packages) (deliveries : Deliveries) (t : Topic) (episodic can_select : Bool)
    (payload : Payload) (plan : DeliveryPlan)
    → plan_delivery pk deliveries t episodic can_select payload ≡ ok plan
    → Decided pk deliveries payload.torrent_file
        (payload_files payload)
        (pauses t episodic can_select)
        plan
unfolding plan_delivery plan_unsupported
planned-Decided pk deliveries t episodic can_select payload plan e =
    let fs = payload_files payload in
    elim (Bool-cases
      (episodic || text_eq t.last_hash [] || not t.add_paused_on_update && not t.only_new_files)) [
        | inl a ↦
            bare-Decided pk deliveries payload.torrent_file fs (plain fs) plan _ refl (ground arith)
              (rw a at e)
        | inr a ↦ elim (Bool-cases can_select) [
          | inr c ↦ elim (Bool-cases t.only_new_files) [
            | inl o ↦
                bare-Decided pk deliveries payload.torrent_file fs _ plan _ refl (ground arith)
                  (rw o at (rw c at (rw a at e)))
            | inr o ↦
                bare-Decided pk deliveries payload.torrent_file fs _ plan _ refl (ground arith)
                  (rw o at (rw c at (rw a at e)))
          ]
          | inl c ↦ elim (Bool-cases t.only_new_files) [
            | inr o ↦
                bare-Decided pk deliveries payload.torrent_file fs _ plan _ refl (ground arith)
                  (rw o at (rw c at (rw a at e)))
            | inl o ↦
                let p : true ≡ pauses t episodic can_select = ground arith in
                subst (λ b. Decided pk deliveries payload.torrent_file fs b plan) p
                  (new_files-Decided pk deliveries payload fs plan (rw o at (rw c at (rw a at e))))
          ]
        ]
      ]

-- Where `planDelivery` returns a plan, its update policy adds the torrent paused exactly if the
-- delivery is an update of a topic that asks for paused updates or for new files only, from a
-- tracker whose releases are not single episodes, on a client that can select files.
pub plan_delivery-paused :
    (pk : Packages) (deliveries : Option (Text → Option (Option (List TorrentFile)))) (t : Topic)
    (episodic can_select : Bool) (payload : Payload) (plan : DeliveryPlan)
    → plan_delivery pk deliveries t episodic can_select payload ≡ ok plan
    → plan.paused ≡ pauses t episodic can_select
plan_delivery-paused pk deliveries t episodic can_select payload plan e =
    (planned-Decided pk deliveries t episodic can_select payload plan e).same_paused

-- Whatever the client, the database and the clock answer: where the plan of a delivery has a
-- selection, its hash is the infohash of the payload's torrent, its files are those of the payload, and
-- its skip set is that of these files against the baseline that the repository gave for that hash;
-- and in the calls of `finish_delivery` on that plan, with any folder plan, the client
-- has skipped every index of an old file before each start, and before each storing of the file
-- list if the torrent has a file.
pub planned_delivery-EachReady :
    (pk : Packages) (deliveries : Option (Text → Option (Option (List TorrentFile)))) (t : Topic)
    (episodic can_select : Bool) (payload : Payload) (plan : DeliveryPlan) (sel : FileSelection)
    (fp : Option FolderPlan) (an : Answers)
    → plan_delivery pk deliveries t episodic can_select payload ≡ ok plan
    → plan.selection ≡ some sel
    → FromBaseline pk deliveries payload.torrent_file (payload_files payload) sel
      × EachReady sel (finish_delivery an t (record plan { folder = fp }) []).1
planned_delivery-EachReady pk deliveries t episodic can_select payload plan sel fp an e chosen =
    let (paused, from) =
      (planned-Decided pk deliveries t episodic can_select payload plan e).from sel chosen in
    (from, finish_delivery-EachReady an sel t (record plan { folder = fp }) [] chosen paused tt)
