-- ===== src/Sonarr.antt =====
-- `processRecords` of backend/internal/sonarr/poller.go: which grabs of a batch are processed.
pub mod Order
pub mod Batch
pub mod Upsert
pub mod Existing
pub mod Poll
use marauder.Prelude.{
  ℕ, Bool, ◌&&◌, ◌||◌, List, [], ◌∷◌, ltb, leb, ◌==◌, if◌then◌else◌, Text, text_eq,
}

-- `HistoryRecord`, with the fields of its `Data` that the poller reads; the zero time is 0.
pub record HistoryRecord : Type 0 where
  pub id : ℕ
  pub date : ℕ
  pub url : Text
  pub infohash : Text
  pub source_title : Text

-- The record is a later grab than the one at hand.
unfoldable pub is_newer : HistoryRecord → HistoryRecord → Bool
is_newer r c = ltb c.date r.date || r.date == c.date && ltb c.id r.id

-- `latestByURL[url] = rec`, where the record is the first of its URL or newer than the one at hand.
unfoldable pub put_latest : HistoryRecord → List HistoryRecord → List HistoryRecord
unfolding is_newer
put_latest r [] = r ∷ []
put_latest r (c ∷ m) =
    let rest = put_latest r m in
    if text_eq c.url r.url then (if is_newer r c then r ∷ m else c ∷ m) else c ∷ rest

-- The first loop of `processRecords`, on the records that `latestByURL` holds so far.
unfoldable pub latest_from : List HistoryRecord → List HistoryRecord → List HistoryRecord
unfolding put_latest
latest_from m [] = m
latest_from m (r ∷ rs) =
    if text_eq r.url [] then latest_from m rs else latest_from (put_latest r m) rs

unfoldable pub max_date_from : ℕ → List HistoryRecord → ℕ
max_date_from d [] = d
max_date_from d (r ∷ rs) = max_date_from (if ltb d r.date then r.date else d) rs

-- The order of `slices.SortFunc`: by date, then by number.
unfoldable pub is_before : HistoryRecord → HistoryRecord → Bool
is_before a b = ltb a.date b.date || a.date == b.date && leb a.id b.id

unfoldable pub insert : HistoryRecord → List HistoryRecord → List HistoryRecord
unfolding is_before
insert r [] = r ∷ []
insert r (c ∷ m) = let rest = insert r m in if is_before r c then r ∷ c ∷ m else c ∷ rest

unfoldable pub sort : List HistoryRecord → List HistoryRecord
unfolding insert
sort [] = []
sort (r ∷ rs) = insert r (sort rs)

-- `processRecords`: the records that are processed, in their order.
unfoldable pub unique_records : List HistoryRecord → List HistoryRecord
unfolding sort latest_from
unique_records records = sort (latest_from [] records)

abbrev pub default_poll_interval : ℕ
default_poll_interval = 900

abbrev pub min_poll_interval : ℕ
min_poll_interval = 60
