-- ===== src/Sonarr/Poll/Cursor.antt =====
-- Where the cursor of an instance goes.
use marauder.Prelude.{
  ℕ, ◌≤◌, ◌≡◌, refl, sym, subst, inl, inr, true, false, not, ◌&&◌, ◌||◌, Option, some, List, [],
  ◌∷◌, arith, ltb, if◌then◌else◌, is_some, ltb→lt, Bool-cases, All,
}
use marauder.Sonarr.{HistoryRecord, max_date_from}
use marauder.Sonarr.Upsert.{Instance}
use marauder.Sonarr.Poll.{
  Processed, process_records, poll_fetched, poll_once, process_url, cursor_after, Services,
}

max_date_from-above :
    (d : ℕ) (rs : List HistoryRecord)
    → (d ≤ max_date_from d rs) × All (λ r. r.date ≤ max_date_from d rs) rs
unfolding max_date_from
max_date_from-above d [] = (omega arith, tt)
max_date_from-above d (r ∷ rs) =
    let (a, h) = max_date_from-above (if ltb d r.date then r.date else d) rs in
    (ground arith, (ground arith, h))

poll_fetched-cursor :
    (process : HistoryRecord → Processed) (last : ℕ) (records : List HistoryRecord)
    → (c : ℕ) × (cursor_after (some last) (poll_fetched process last (some records)) ≡ some c)
      × (last ≤ c)
      × All (λ r. r.date ≤ c) records
unfolding poll_fetched process_records cursor_after
poll_fetched-cursor process last records =
    let (a, h) = max_date_from-above 0 records in
    elim (Bool-cases (ltb last (max_date_from 0 records))) [
      | inl e ↦ rw e (
        max_date_from 0 records,
        refl,
        ground (arith, ltb→lt last (max_date_from 0 records) e),
        h,
      )
      | inr e ↦ rw e (last, refl, omega arith, below e records h)
    ]
  where
    below :
        ltb last (max_date_from 0 records) ≡ false
        → (rs : List HistoryRecord) → All (λ r. r.date ≤ max_date_from 0 records) rs
        → All (λ r. r.date ≤ last) rs
    below e [] h = tt
    below e (r ∷ rs) (p, h) = (ground arith, below e rs h)

-- Where a poll of a usable instance with a cursor fetched a batch, and the write of the cursor succeeds if
-- there is one, the cursor is not moved back, and no record of the batch is newer than the cursor behind
-- the poll, whatever processing the records came to, also if it failed.
pub poll_once-cursor :
    (sv : Services) (admin : Option ℕ) (now last : ℕ) (fetch : ℕ → Option (List HistoryRecord))
    (inst : Instance) (records : List HistoryRecord)
    → inst.last_seen_at ≡ some last
    → fetch last ≡ some records
    → (inst.has_address && (is_some inst.owner || is_some admin)) ≡ true
    → (c : ℕ) × (cursor_after (some last) (poll_once sv admin now fetch inst) ≡ some c)
      × (last ≤ c)
      × All (λ r. r.date ≤ c) records
unfolding poll_once
poll_once-cursor sv admin now last fetch inst records l f o =
    let guard : (not inst.has_address || not (is_some inst.owner || is_some admin)) ≡ false =
      ground arith in
    let batch : poll_once sv admin now fetch inst
        ≡ poll_fetched (process_url sv inst) last (some records) =
      simp (guard, l, f, poll_once) refl in
    subst
      (λ p.
        (c : ℕ) × (cursor_after (some last) p ≡ some c)
        × (last ≤ c)
        × All (λ r. r.date ≤ c) records)
      (sym batch) (poll_fetched-cursor (process_url sv inst) last records)
