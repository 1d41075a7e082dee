-- ===== src/Domains/Writes.antt =====
-- The persist phases of backend/internal/domains/store.go, in every interleaving.
use marauder.Prelude.{ℕ, suc, ◌≡◌, Bool, true, false, Option, none, some, List, [], ◌∷◌, Text}
use marauder.Prelude.Int.{ℤ}
use marauder.Domains.{DomainConfig, Store, new, put, load, set, report_failure}

-- Who holds `persistMu`: nobody, a `Set` whose row is written, or a rotation that has re-read the
-- cache.
pub data Holder : Type 0 where
  free : Holder
  setting : Text → DomainConfig → Holder
  persisting : Text → DomainConfig → Holder

-- The store, the table's rows, the number of cached rotations whose persist phase has not ended, and
-- the trackers for which a rotation's row could not be written.
pub record World : Type 0 where
  pub store : Store
  pub rows : Text → DomainConfig
  pub pending : Text → ℕ
  pub holder : Holder
  pub lost : Text → Bool

-- One step. A failure report rotates or not; only a rotation goes on to its persist phase, which
-- takes the mutex and re-reads the cache, and then writes the row or fails to. `Set` writes its row
-- under the mutex and then caches it; where the write fails it changes nothing.
pub data Step (plugin : Text → Option (List Text)) : World → World → Type 0 where
  quiet :
      (name : Text) (now : ℤ) (w : World) (s : Store)
      → report_failure (plugin name) name now w.store ≡ (s, none)
      → Step plugin w (record w { store = s })
  rotated :
      (name : Text) (now : ℤ) (w : World) (s : Store) (change : Text × Text)
      → report_failure (plugin name) name now w.store ≡ (s, some change)
      → Step plugin w (record w { store = s; pending = put w.pending name (suc (w.pending name)) })
  begin_persist :
      (name : Text) (n : ℕ) (w : World)
      → w.holder ≡ free
      → w.pending name ≡ suc n
      → Step plugin w (record w { holder = persisting name (w.store.cfg name) })
  end_persist :
      (name : Text) (c : DomainConfig) (n : ℕ) (w : World)
      → w.holder ≡ persisting name c
      → w.pending name ≡ suc n
      → Step plugin w
          (record w { rows = put w.rows name c; pending = put w.pending name n; holder = free })
  lose_persist :
      (name : Text) (c : DomainConfig) (n : ℕ) (w : World)
      → w.holder ≡ persisting name c
      → w.pending name ≡ suc n
      → Step plugin w
          (record w { pending = put w.pending name n; holder = free; lost = put w.lost name true })
  begin_set :
      (name : Text) (c : DomainConfig) (w : World)
      → w.holder ≡ free
      → Step plugin w (record w { rows = put w.rows name c; holder = setting name c })
  end_set :
      (name : Text) (c : DomainConfig) (w : World)
      → w.holder ≡ setting name c
      → Step plugin w (record w { store = set name c w.store; holder = free })

-- The table `tracker_settings` as a map: a tracker without a row reads as the zero configuration.
unfoldable pub table : List (Text × DomainConfig) → (Text → DomainConfig) → Text → DomainConfig
unfolding put
table [] m = m
table ((name, c) ∷ rows) m = table rows (put m name c)

abbrev pub table_of : List (Text × DomainConfig) → Text → DomainConfig
table_of rows = table rows new.cfg

-- The world behind `New` and `Load`.
abbrev pub booted : (Text → Text) → (Text → Option (List Text)) → List (Text × DomainConfig) → World
booted clean plugin rows = record {
  store = load clean plugin rows new;
  rows = table_of rows;
  pending = λ _. 0;
  holder = free;
  lost = λ _. false;
}

-- The states reached from a boot on these rows of the table.
pub data Reach (clean : Text → Text) (plugin : Text → Option (List Text))
    (rows : List (Text × DomainConfig)) : World → Type 0 where
  at_boot : Reach clean plugin rows (booted clean plugin rows)
  next : {v w : World} → Reach clean plugin rows v → Step plugin v w → Reach clean plugin rows w
