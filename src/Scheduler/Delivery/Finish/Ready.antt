-- ===== src/Scheduler/Delivery/Finish/Ready.antt =====
-- Which starts and which stored lists a delivery with a selection makes.
use marauder.Prelude.{
  ℕ, zero, suc, ◌≤◌, ◌≡◌, refl, ap, ◌⊎◌, inl, inr, Bool, true, false, ◌||◌, Option, none, some,
  List, [], ◌∷◌, arith, ltb, ◌==◌, Bool-cases, length,
}
use marauder.Prelude.Int.{ℤ}
use marauder.Domain.{TorrentFile, ClientFile}
use marauder.Torrentmeta.Layout.{Mapping, map_client_files, Mapped, mapped, mismatch, skip_indices}
use marauder.Torrentmeta.Skip.{has_file}
use marauder.Torrentmeta.Layout.Indices.{count_index, count_old, skip_indices_exact}
use marauder.Scheduler.Delivery.{
  Event, listed, skipped, started, stopped, state_read, renamed, rechecked, stored, Trace, Answers,
  FileSelection,
}
use marauder.Scheduler.Delivery.Selection.{
  non_empty, is_pending, Selected, wait_for_files, skip_old, start_selected, select_mapped,
  select_listed, select_answer,
}

-- A call that skipped an index, and the indices skipped so far.
unfoldable pub event_skips : Event → ℤ → Bool
event_skips (skipped is true) i = ltb 0 (count_index i is)
event_skips e i = false

unfoldable pub skipped_in : Trace → ℤ → Bool
unfolding event_skips
skipped_in [] i = false
skipped_in (e ∷ tr) i = event_skips e i || skipped_in tr i

-- The client answered with this list.
abbrev pub Listed : List ClientFile → Trace → Type 0
Listed client [] = ⊥
Listed client (e ∷ tr) = (e ≡ listed (some client)) ⊎ Listed client tr

-- A list that the client gave pairs with the torrent, and the client has skipped every index that
-- the pairing gives to an old file.
pub record OldSkipped (sel : FileSelection) (tr : Trace) : Type 0 where
  pub client : List ClientFile
  pub mapping : Mapping
  pub was_listed : Listed client tr
  pub fits : map_client_files client sel.files ≡ mapped mapping
  pub safe : (i : ℤ) → 1 ≤ count_old i sel.skip mapping → skipped_in tr i ≡ true

-- What must hold before a call: a start needs the old files skipped, and so does storing the list as
-- the next update's baseline, unless the torrent has no file.
abbrev pub Ready : FileSelection → Event → Trace → Type 0
Ready sel (started r) tr = OldSkipped sel tr
Ready sel (stored fs r) tr = (length sel.files ≡ 0) ⊎ OldSkipped sel tr
Ready sel (listed r) tr = Unit
Ready sel (skipped is r) tr = Unit
Ready sel (stopped r) tr = Unit
Ready sel (state_read r) tr = Unit
Ready sel (renamed old new r) tr = Unit
Ready sel (rechecked r) tr = Unit

abbrev pub EachReady : FileSelection → Trace → Type 0
EachReady sel [] = Unit
EachReady sel (e ∷ tr) = Ready sel e tr × EachReady sel tr

module _ (an : Answers) (sel : FileSelection) where
  pub wait_keeps :
      (n : ℕ) (tr : Trace) → EachReady sel tr → EachReady sel (wait_for_files an n tr).1
  unfolding wait_for_files
  wait_keeps zero tr h = (tt, h)
  wait_keeps (suc n) tr h = elim (Bool-cases (is_pending (an.files tr))) [
    | inl e ↦ rw e (wait_keeps n (listed (an.files tr) ∷ tr) (tt, h))
    | inr e ↦ rw e (tt, h)
  ]

  non_empty-some :
      (r : Option (List ClientFile)) (client : List ClientFile)
      → non_empty r ≡ some client
      → r ≡ some client
  unfolding non_empty
  non_empty-some none client e = e
  non_empty-some (some []) client e = cc
  non_empty-some (some (f ∷ fs)) client e = e

  pub wait-Listed :
      (n : ℕ) (tr : Trace) (client : List ClientFile)
      → (wait_for_files an n tr).0 ≡ some client
      → Listed client (wait_for_files an n tr).1
  unfolding wait_for_files
  wait-Listed zero tr client e = inl (ap listed (non_empty-some (an.files tr) client e))
  wait-Listed (suc n) tr client e = elim (Bool-cases (is_pending (an.files tr))) [
    | inl p ↦ rw p (wait-Listed n (listed (an.files tr) ∷ tr) client (rw p at e))
    | inr p ↦ rw p (inl (ap listed (non_empty-some (an.files tr) client (rw p at e))))
  ]

  -- Skipping the old files, where it lets the selection go on, leaves none of them wanted.
  skip_old-OldSkipped :
      (client : List ClientFile) (m : Mapping) (tr : Trace)
      → Listed client tr
      → map_client_files client sel.files ≡ mapped m
      → (skip_old an sel m tr).0 ≡ true
      → OldSkipped sel (skip_old an sel m tr).1
  unfolding skip_old skipped_in count_old has_file
  skip_old-OldSkipped client m tr l fits go = elim (Bool-cases (ltb 0 (length sel.skip))) [
    | inl e ↦
        let is = skip_indices m sel.skip in
        let taken : an.skip_files tr is ≡ true = rw e at go in
        rw (e, taken)
          (record {
            client = client;
            mapping = m;
            was_listed = inr l;
            fits = fits;
            safe = λ i old. let n = (skip_indices_exact m sel.skip).1 i in ground (arith, n, old);
          })
    | inr e ↦ rw e (record {
      client = client;
      mapping = m;
      was_listed = l;
      fits = fits;
      safe = λ i old. absurd (none_old i m sel.skip (ground arith) old);
    })
  ]
    where
      none_old :
          (i : ℤ) (m : Mapping) (skip : List TorrentFile)
          → length skip ≡ 0
          → ¬ (1 ≤ count_old i skip m)
      none_old i m (f ∷ fs) e old = omega arith
      none_old i [] [] e old = omega (arith, old)
      none_old i ((j, f) ∷ m) [] e old = none_old i m [] e (ground arith)

  skip_old-keeps :
      (m : Mapping) (tr : Trace) → EachReady sel tr → EachReady sel (skip_old an sel m tr).1
  unfolding skip_old
  skip_old-keeps m tr h = elim (Bool-cases (ltb 0 (length sel.skip))) [
    | inl e ↦ rw e (tt, h)
    | inr e ↦ rw e h
  ]

  -- What a step of the selection leaves: its calls were due, and if it took effect the old files are
  -- skipped.
  pub record Kept (r : Selected × Trace) : Type 0 where
    pub ready : EachReady sel r.1
    pub effect : r.0.took_effect ≡ true → (length sel.files ≡ 0) ⊎ OldSkipped sel r.1

  start-Kept : (tr : Trace) → EachReady sel tr → OldSkipped sel tr → Kept (start_selected an sel tr)
  unfolding start_selected skipped_in
  start-Kept tr h o = record {
    ready = (o, h);
    effect = λ _. inr (record {
      client = o.client;
      mapping = o.mapping;
      was_listed = inr o.was_listed;
      fits = o.fits;
      safe = o.safe;
    });
  }

  mapped-Kept :
      (stays_paused : Bool) (client : List ClientFile) (m : Mapping) (tr : Trace)
      → Listed client tr
      → map_client_files client sel.files ≡ mapped m
      → EachReady sel tr
      → Kept (select_mapped an sel stays_paused m tr)
  unfolding select_mapped
  mapped-Kept stays_paused client m tr l fits h =
      let kept = skip_old-keeps m tr h in
      elim (Bool-cases (skip_old an sel m tr).0) [
        | inr e ↦ rw e (record { ready = kept; effect = λ k. absurd (cc k) })
        | inl e ↦
            let o = skip_old-OldSkipped client m tr l fits e in
            rw e (elim (Bool-cases (length sel.files == length sel.skip)) [
              | inl z ↦ rw z (record { ready = kept; effect = λ _. inr o })
              | inr z ↦ rw z (elim (Bool-cases stays_paused) [
                | inl p ↦ rw p (record { ready = kept; effect = λ _. inr o })
                | inr p ↦ rw p (start-Kept (skip_old an sel m tr).1 kept o)
              ])
            ])
      ]

  pub answer-Kept :
      (stays_paused : Bool) (a : Option (List ClientFile) × Trace)
      → ((client : List ClientFile) → a.0 ≡ some client → Listed client a.1)
      → EachReady sel a.1
      → Kept (select_answer an sel stays_paused a)
  unfolding select_answer select_listed
  answer-Kept stays_paused (none, tr) l h = record { ready = h; effect = λ k. absurd (cc k) }
  answer-Kept stays_paused (some client, tr) l h = by_map (map_client_files client sel.files) refl
    where
      by_map :
          (r : Mapped)
          → map_client_files client sel.files ≡ r
          → Kept (select_answer an sel stays_paused (some client, tr))
      by_map (mapped m) e =
          rw (e, select_answer, select_listed)
            (mapped-Kept stays_paused client m tr (l client refl) e h)
      by_map (mismatch k) e =
          rw (e, select_answer, select_listed) (record { ready = h; effect = λ k. absurd (cc k) })
