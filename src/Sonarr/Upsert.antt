-- ===== src/Sonarr/Upsert.antt =====
-- `handleExisting` of backend/internal/sonarr/poller.go.
use marauder.Prelude.{
  ℕ, Bool, true, false, not, ◌&&◌, ◌||◌, Option, none, some, List, [], ◌∷◌, ◌==◌, if◌then◌else◌,
  Text, codes, text_eq,
}
use marauder.Prelude.Int.{ℤ}
use marauder.Topics.Create.{Value, word, number, given, Extra, put}
use marauder.Sonarr.{HistoryRecord}

-- The fields of `domain.SonarrInstance` that the poller reads, without its URL and key.
pub record Instance : Type 0 where
  pub id : ℕ
  pub has_address : Bool
  pub owner : Option ℕ
  pub last_seen_at : Option ℕ
  pub poll_interval_sec : ℤ
  pub allowed_trackers : List Text
  pub default_client_id : Option ℕ
  pub default_category : Text
  pub default_download_dir : Text
  pub update_existing : Bool
  pub default_replace_on_update : Option Bool
  pub default_replace_delete_data : Option Bool

-- The fields of a stored topic that the poller reads.
pub record Existing : Type 0 where
  pub client_id : Option ℕ
  pub category : Text
  pub download_dir : Text
  pub extra : Extra

unfoldable pub text_of : Value → Option Text
text_of (word t) = some t
text_of (number n) = none
text_of (given n) = none

-- `extra[key].(string)`.
unfoldable pub get_word : Text → Extra → Option Text
unfolding text_of
get_word key [] = none
get_word key ((k, v) ∷ extra) =
    let rest = get_word key extra in if text_eq k key then text_of v else rest

unfoldable pub is_word : Option Text → Text → Bool
is_word none t = false
is_word (some s) t = text_eq s t

abbrev pub infohash_key : Text
infohash_key = codes "sonarr_infohash"

abbrev pub source_title_key : Text
source_title_key = codes "sonarr_source_title"

-- One round of the loop of `mergeSonarrTopicExtra`; an empty value is not among the incoming ones.
unfoldable pub merge_word : Text → Text → Extra × Bool → Extra × Bool
unfolding get_word is_word
merge_word key value (extra, changed) =
    if text_eq value [] || is_word (get_word key extra) value
    then (extra, changed)
    else (put key (word value) extra, true)

-- `mergeSonarrTopicExtra`.
unfoldable pub merge_extra : Extra → HistoryRecord → Extra × Bool
unfolding merge_word
merge_extra extra r =
    merge_word source_title_key r.source_title (merge_word infohash_key r.infohash (extra, false))

-- `ptrUUIDEqual`.
unfoldable pub same_id : Option ℕ → Option ℕ → Bool
same_id none none = true
same_id none (some b) = false
same_id (some a) none = false
same_id (some a) (some b) = a == b

-- `needsRealign`.
unfoldable pub needs_realign : Existing → Instance → Bool
unfolding same_id
needs_realign t inst =
    not (same_id t.client_id inst.default_client_id)
    || not (text_eq t.category inst.default_category)
    || not (text_eq t.download_dir inst.default_download_dir)

unfoldable pub merged : Existing → HistoryRecord → Extra × Bool
unfolding merge_extra get_word is_word
merged t r =
    if is_word (get_word (codes "source") t.extra) (codes "sonarr")
    then merge_extra t.extra r
    else (t.extra, false)

-- `handleExisting`: the topic that is written back, or none where nothing changed.
unfoldable pub handle_existing : Instance → Existing → HistoryRecord → Option Existing
unfolding merged needs_realign
handle_existing inst t r =
    let (extra, changed) = merged t r in
    if not changed && not (inst.update_existing && needs_realign t inst)
    then none
    else if inst.update_existing
    then some (record {
      client_id = inst.default_client_id;
      category = inst.default_category;
      download_dir = inst.default_download_dir;
      extra = extra;
    })
    else some (record t { extra = extra })
