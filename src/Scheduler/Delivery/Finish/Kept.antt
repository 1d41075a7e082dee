-- ===== src/Scheduler/Delivery/Finish/Kept.antt =====
-- What the selection and the waits of backend/internal/scheduler keep of the calls made before.
use marauder.Prelude.{
  ℕ, zero, suc, ◌≡◌, refl, ap, ◌∙◌, ◌⊎◌, inl, inr, Bool, not, ◌||◌, Option, none, some, List, ◌∷◌,
  arith, ◌==◌, Bool-cases, length, Text,
}
use marauder.Domain.{TorrentFile, ClientFile}
use marauder.Scheduler.Delivery.{listed, Trace, Answers, Topic, FileSelection, DeliveryPlan}
use marauder.Scheduler.Delivery.Selection.{
  Selected, wait_for_files, select_answer, select_new_files, store_selected_files, store_if,
  finish_update_policy,
}
use marauder.Scheduler.Delivery.Folder.{
  Applied, RootWait, read_failed, not_shown, shown, root_read, shows_root, wait_for_root,
  after_rename,
}
use marauder.Scheduler.Delivery.Finish.Ready.{
  Listed, EachReady, wait_keeps, wait-Listed, Kept, answer-Kept,
}

module _ (an : Answers) (sel : FileSelection) where
  -- The lists that reach the selection were given by the client.
  abbrev pub AllListed : Option (List ClientFile) → Trace → Type 0
  AllListed fs tr = (client : List ClientFile) → fs ≡ some client → Listed client tr

  select-Kept :
      (t : Topic) (fs : Option (List ClientFile)) (may_start : Bool) (tr : Trace)
      → AllListed fs tr
      → EachReady sel tr
      → Kept an sel (select_new_files an t sel fs may_start tr)
  unfolding select_new_files
  select-Kept t fs may_start tr l h = elim (Bool-cases (length sel.files == 0)) [
    | inl e ↦ rw e (record { ready = h; effect = λ _. inl (ground (arith, e)) })
    | inr e ↦ rw e (by_list fs l)
  ]
    where
      stays : Bool
      stays = t.add_paused_on_update || not may_start

      by_list :
          (fs : Option (List ClientFile))
          → AllListed fs tr
          → Kept an sel (
              select_answer an sel stays
                (elim fs [ none ↦ wait_for_files an (an.polls tr) tr | some c ↦ (some c, tr) ]))
      by_list none l =
          answer-Kept an sel stays (wait_for_files an (an.polls tr) tr)
            (λ c e. wait-Listed an sel (an.polls tr) tr c e) (wait_keeps an sel (an.polls tr) tr h)
      by_list (some c) l = answer-Kept an sel stays (some c, tr) l h

  store-keeps :
      (fs : Option (List TorrentFile)) (r : Selected × Trace)
      → Kept an sel r
      → EachReady sel (store_if an fs r).1
  unfolding store_if store_selected_files
  store-keeps fs r k = elim (Bool-cases r.0.took_effect) [
    | inr e ↦ rw e k.ready
    | inl e ↦ rw e (elim (Bool-cases an.has_deliveries) [
      | inl d ↦ rw d (k.effect e, k.ready)
      | inr d ↦ rw d k.ready
    ])
  ]

  pub policy-keeps :
      (t : Topic) (plan : DeliveryPlan) (fs : Option (List ClientFile)) (may_start : Bool)
      (tr : Trace)
      → plan.selection ≡ some sel
      → AllListed fs tr
      → EachReady sel tr
      → EachReady sel (finish_update_policy an t plan fs may_start tr).1
  unfolding finish_update_policy
  policy-keeps t plan fs may_start tr e l h =
      simp (e, finish_update_policy)
        (store-keeps plan.files (select_new_files an t sel fs may_start tr)
          (select-Kept t fs may_start tr l h))

  root_read-shown :
      (manifest : List TorrentFile) (want : Text) (r : Option (List ClientFile))
      (fs : List ClientFile)
      → root_read manifest want r ≡ shown fs
      → r ≡ some fs
  unfolding root_read
  root_read-shown manifest want none fs e = cc
  root_read-shown manifest want (some gs) fs e = elim (Bool-cases (shows_root manifest want gs)) [
    | inl k ↦ let same : shown gs ≡ shown fs = rw k at e in cc
    | inr k ↦ let other : not_shown ≡ shown fs = rw k at e in cc
  ]

  RootWait-cases :
      (r : RootWait)
      → (r ≡ read_failed) ⊎ ((r ≡ not_shown) ⊎ ((fs : List ClientFile) × (r ≡ shown fs)))
  RootWait-cases read_failed = inl refl
  RootWait-cases not_shown = inr (inl refl)
  RootWait-cases (shown fs) = inr (inr (fs, refl))

  -- What the wait for the renamed folder leaves, with a list `fs` known before.
  pub record RootKept (fs : List ClientFile) (r : RootWait × Trace) : Type 0 where
    pub ready : EachReady sel r.1
    pub grows : Listed fs r.1
    pub given : (gs : List ClientFile) → r.0 ≡ shown gs → Listed gs r.1

  pub root-RootKept :
      (manifest : List TorrentFile) (want : Text) (n : ℕ) (tr : Trace) (fs : List ClientFile)
      → EachReady sel tr
      → Listed fs tr
      → RootKept fs (wait_for_root an manifest want n tr)
  unfolding wait_for_root
  root-RootKept manifest want zero tr fs h l = record {
    ready = (tt, h);
    grows = inr l;
    given = λ gs e. inl (ap listed (root_read-shown manifest want (an.files tr) gs e));
  }
  root-RootKept manifest want (suc n) tr fs h l =
      elim (RootWait-cases (root_read manifest want (an.files tr))) [
        | inl k ↦
            rw (k, wait_for_root)
              (record { ready = (tt, h); grows = inr l; given = λ gs e. absurd (cc e) })
        | inr (inl k) ↦
            rw (k, wait_for_root)
              (root-RootKept manifest want n (listed (an.files tr) ∷ tr) fs (tt, h) (inr l))
        | inr (inr (gs, k)) ↦
            rw (k, wait_for_root)
              (record {
                ready = (tt, h);
                grows = inr l;
                given = λ hs e.
                    inl (ap listed (root_read-shown manifest want (an.files tr) hs (k ∙ e)));
              })
      ]

  -- What the rename leaves: its calls were due, and the list it returns was given by the client.
  pub record FolderKept (r : Applied × Trace) : Type 0 where
    pub ready : EachReady sel r.1
    pub given : Listed r.0.files r.1

  pub after_rename-FolderKept :
      (want : Text) (fs : List ClientFile) (r : RootWait × Trace)
      → RootKept fs r
      → FolderKept (after_rename an want fs r)
  unfolding after_rename
  after_rename-FolderKept want fs (read_failed, tr) k = record { ready = k.ready; given = k.grows }
  after_rename-FolderKept want fs (not_shown, tr) k = record { ready = k.ready; given = k.grows }
  after_rename-FolderKept want fs (shown gs, tr) k = record {
    ready = k.ready;
    given = k.given gs refl;
  }
