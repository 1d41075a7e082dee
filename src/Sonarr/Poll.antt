-- ===== src/Sonarr/Poll.antt =====
-- The poll of one Sonarr instance: backend/internal/sonarr/poller.go. The owner of the topics, metrics and
-- logs are left out.
pub mod Cursor
use marauder.Prelude.{
  ℕ, max, Bool, false, not, ◌&&◌, ◌||◌, Option, none, some, List, [], map, ltb, ◌==◌, if◌then◌else◌,
  is_some, length, Text, codes,
}
use marauder.Prelude.Int.{ℤ, pos, negsuc}
use marauder.Topics.{Strings}
use marauder.Topics.Create.{
  Urls, Extra, Tracker, CreateInput, NewTopic, Stored, Created, builtin_replace_delete_data,
  resolve, canonical_topic_url, has_text,
}
use marauder.Topics.Create.Build.{put_word, build_and_create}
use marauder.Scheduler.Delivery.{unset}
use marauder.Sonarr.{
  HistoryRecord, max_date_from, unique_records, min_poll_interval, default_poll_interval,
}
use marauder.Sonarr.Upsert.{Instance, Existing, infohash_key, source_title_key, handle_existing}

-- `pollInterval(sec)`, in seconds.
unfoldable pub poll_interval : ℤ → ℕ
poll_interval (negsuc n) = default_poll_interval
poll_interval (pos n) = if n == 0 then default_poll_interval else max n min_poll_interval

-- `sonarrTopicExtra`.
unfoldable pub sonarr_topic_extra : HistoryRecord → Extra
unfolding put_word
sonarr_topic_extra r =
    put_word source_title_key r.source_title (put_word infohash_key r.infohash [])

-- The settings that the poller reads.
pub record Defaults : Type 0 where
  pub follow : Bool
  pub replace_on_update : Bool
  pub replace_delete_data : Bool

-- `topicDefaults`; `none` for settings that cannot be read.
unfoldable pub topic_defaults : Option Defaults → Instance → Defaults
unfolding resolve
topic_defaults none inst = record {
  follow = false;
  replace_on_update = resolve inst.default_replace_on_update false;
  replace_delete_data = resolve inst.default_replace_delete_data builtin_replace_delete_data;
}
topic_defaults (some d) inst = record {
  follow = d.follow;
  replace_on_update = resolve inst.default_replace_on_update d.replace_on_update;
  replace_delete_data = resolve inst.default_replace_delete_data d.replace_delete_data;
}

-- The answer of `GetByURL`.
pub data Lookup : Type 0 where
  there : Existing → Lookup
  absent lookup_failed : Lookup

-- What processing a record comes to: nothing, an update of a topic, or an attempt to create one.
pub data Processed : Type 0 where
  unmatched disallowed lookup_error duplicate : Processed
  updated : Existing → Processed
  attempted : Created → Processed

-- The trackers and the database.
pub record Services : Type 0 where
  pub urls : Urls
  pub strings : Strings
  pub find_tracker : Text → Option Tracker
  pub get_by_url : Text → Lookup
  pub settings : Option Defaults
  pub credentials : Tracker → Option ℕ
  pub store : NewTopic → Stored

-- The `CreateInput` of a grab.
unfoldable pub input_of : Services → Instance → (url : Text) → HistoryRecord → CreateInput
unfolding topic_defaults sonarr_topic_extra
input_of sv inst url r =
    let d = topic_defaults sv.settings inst in
    record {
      url = url;
      display_name = [];
      check_interval_sec = pos 0;
      replace_on_update = d.replace_on_update;
      replace_delete_data = none;
      default_replace_delete_data = some d.replace_delete_data;
      notify_only = false;
      announce_current = false;
      add_paused_on_update = false;
      only_new_files = false;
      folder_mode = unset;
      folder_name = [];
      follow_tracker_title = d.follow;
      quality = [];
      start_season = none;
      start_episode = none;
      source = codes "sonarr";
      extra = sonarr_topic_extra r;
      credentials = some sv.credentials;
    }

-- `processURL` from the lookup on.
unfoldable pub process_found :
    Services → Instance → (url : Text) → HistoryRecord → Lookup → Processed
unfolding handle_existing input_of build_and_create
process_found sv inst url r (there t) = elim (handle_existing inst t r) [
  | none ↦ duplicate
  | some t' ↦ updated t'
]
process_found sv inst url r absent =
    attempted
      (build_and_create sv.urls sv.strings sv.find_tracker sv.store (input_of sv inst url r))
process_found sv inst url r lookup_failed = lookup_error

-- `processURL`.
unfoldable pub process_url : Services → Instance → HistoryRecord → Processed
unfolding process_found canonical_topic_url has_text
process_url sv inst r = elim (sv.find_tracker r.url) [
  | none ↦ unmatched
  | some tr ↦
      let url = canonical_topic_url sv.urls tr.domains r.url in
      if not (length inst.allowed_trackers == 0) && not (has_text tr.name inst.allowed_trackers)
      then disallowed
      else process_found sv inst url r (sv.get_by_url url)
]

-- `processRecords`: what each record comes to, and the newest date.
unfoldable pub process_records :
    (HistoryRecord → Processed) → List HistoryRecord → List Processed × ℕ
unfolding unique_records max_date_from
process_records process records = (map process (unique_records records), max_date_from 0 records)

-- What one poll does: nothing, it sets the first cursor, or it processes a batch and may move the cursor.
pub data Polled : Type 0 where
  unusable fetch_failed : Polled
  initialised : (cursor : ℕ) → Polled
  polled : List Processed → (cursor : Option ℕ) → Polled

-- `pollOnce` from the fetched history on; `none` for a fetch that fails.
unfoldable pub poll_fetched :
    (HistoryRecord → Processed) → (last : ℕ) → Option (List HistoryRecord) → Polled
unfolding process_records
poll_fetched process last none = fetch_failed
poll_fetched process last (some records) =
    let r = process_records process records in polled r.0 (if ltb last r.1 then some r.1 else none)

-- `pollOnce`; `admin` is the answer of `GetInitialAdmin`.
unfoldable pub poll_once :
    Services
    → (admin : Option ℕ) → (now : ℕ) → (fetch : ℕ → Option (List HistoryRecord)) → Instance
    → Polled
unfolding poll_fetched process_url
poll_once sv admin now fetch inst =
    let has_owner = is_some inst.owner || is_some admin in
    if not inst.has_address || not has_owner then unusable else elim inst.last_seen_at [
      | none ↦ initialised now
      | some last ↦ poll_fetched (process_url sv inst) last (fetch last)
    ]

-- The cursor behind a poll, if the write succeeds.
unfoldable pub cursor_after : Option ℕ → Polled → Option ℕ
cursor_after last unusable = last
cursor_after last fetch_failed = last
cursor_after last (initialised c) = some c
cursor_after last (polled ps none) = last
cursor_after last (polled ps (some c)) = some c
