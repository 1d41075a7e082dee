-- ===== src/Examples/Checks.antt =====
-- One check of a topic at concrete answers.
use marauder.Prelude.{
  ℕ, ◌+◌, ◌≤◌, ◌≡◌, refl, true, false, none, some, [], ◌∷◌, ◌++◌, ltb, if◌then◌else◌, length, take,
  codes, text_eq,
}
use marauder.Prelude.Int.{pos}
use marauder.Scheduler.Delivery.{Topic, unset}
use marauder.Scheduler.Classify.{Patterns, plain_failure, classify_cause, rotates}
use marauder.Scheduler.Classify.Rotation.{blames_domain, classify_cause-rotates}
use marauder.Scheduler.Check.{Watched, Found, got, ClientRow, stored, World}
use marauder.Scheduler.Check.Kinds.{count, is_add, is_download, guarded}
use marauder.Scheduler.Check.Drain.{max_per_tick, download_all_pending}
use marauder.Scheduler.Check.Drain.Marks.{marks, download_all_pending-marks}
use marauder.Scheduler.Check.Run.{complete, run_check}
use marauder.Scheduler.Check.Run.Results.{
  Recorded, results, run_check-Recorded, run_check-guarded, run_check-untouched,
}
use marauder.Examples.Hashes.{plain_packages}
use marauder.Examples.Deliveries.{willing, sources, removers}

abbrev plain_patterns : Patterns
plain_patterns = record { strip_urls = λ m. m; find_status = λ m. none; to_lower = λ m. m }

abbrev show : Topic
show = record {
  last_hash = codes "h0";
  notify_only = false;
  add_paused_on_update = false;
  only_new_files = false;
  folder_mode = unset;
  folder_name = [];
  folder_name_seen = [];
}

abbrev show_topic : Watched
show_topic = record {
  topic = show;
  display_name = codes "Show";
  name_is_placeholder = false;
  follow_tracker_title = false;
  announce_current = false;
  replace_on_update = false;
  replace_delete_data = false;
  client_id = none;
  check_interval = pos 1;
  consecutive_errors = pos 0;
}

abbrev quiet_topic : Watched
quiet_topic = record show_topic { topic = record show { notify_only = true } }

abbrev two_pending : Found
two_pending = record {
  hash = codes "h1";
  display_name = codes "Show";
  pending = codes "a" ∷ codes "b" ∷ [];
  human = codes "E1" ∷ codes "E2" ∷ [];
}

abbrev row : ClientRow
row = record {
  id = 1;
  name = codes "c";
  is_installed = true;
  decrypts = none;
  can_select = false;
  can_rename = false;
}

-- A tracker with two pending episodes, and a client that refuses the second.
abbrev world : World
world = record {
  has_tracker = true;
  is_episodic = true;
  has_feed_titles = false;
  credential = λ tr. stored false;
  session = λ tr. none;
  mark_expired = λ tr. true;
  check = λ tr. got two_pending;
  write_title = λ tr n. true;
  download = λ tr ps. got (record { magnet_uri = codes "magnet:?"; torrent_file = [] });
  verify = λ tr. none;
  mark_one = λ tr p. none;
  mark_all = λ tr ps. none;
  default_client = λ tr. some row;
  client_by_id = λ tr id. got row;
  add =
      λ tr. if ltb 1 (count is_download tr) then some (plain_failure (codes "no space")) else none;
  answers = λ tr. willing;
  latest = none;
  sources = sources;
  prior = λ tr. [];
  removers = removers;
  to_lower = λ m. m;
  patterns = plain_patterns;
  packages = plain_packages;
  has_emitter = true;
  has_domains = true;
  max_episodes = pos 0;
  max_backoff = pos 0;
}

rotates_cause_example :
    rotates (classify_cause plain_patterns (codes "dial: connection refused") none)
    ≡ blames_domain plain_patterns (codes "dial: connection refused") none
rotates_cause_example =
    classify_cause-rotates plain_patterns (codes "dial: connection refused") none

one_result_example :
    Recorded world
      (codes "h0")
      (run_check world show_topic (some show_topic)).0
      (results (run_check world show_topic (some show_topic)).1)
one_result_example = run_check-Recorded world show_topic show_topic

guarded_example : guarded (run_check world show_topic (some show_topic)).1 ≡ true
guarded_example = run_check-guarded world show_topic show_topic

untouched_example :
    (count is_download (run_check world quiet_topic (some quiet_topic)).1 ≡ 0)
    × (count is_add (run_check world quiet_topic (some quiet_topic)).1 ≡ 0)
untouched_example = run_check-untouched world quiet_topic quiet_topic refl

marks_example :
    let r = download_all_pending world two_pending show_topic [] in
    (k : ℕ) × (k ≤ max_per_tick world.max_episodes)
    × (marks r.2 ≡ marks [] ++ take k two_pending.pending)
    × (k ≤ length r.0.delivered)
    × (length r.0.delivered ≤ k + 1)
marks_example = download_all_pending-marks world two_pending show_topic []

ends_run : (run_check world show_topic (some show_topic)).0 ≡ complete
unfolding run_check text_eq max_per_tick marauder.Scheduler.Check.Send.submit_to_client
    marauder.Scheduler.Delivery.Plan.plan_delivery
    marauder.Scheduler.Delivery.FolderName.plan_folder_name count is_download
    marauder.Infohash.from_payload marauder.Infohash.from_magnet
ends_run = refl

downloads_run : count is_download (run_check world show_topic (some show_topic)).1 ≡ 2
unfolding count run_check text_eq max_per_tick marauder.Scheduler.Check.Send.submit_to_client
    marauder.Scheduler.Delivery.Plan.plan_delivery
    marauder.Scheduler.Delivery.FolderName.plan_folder_name is_download
    marauder.Infohash.from_payload marauder.Infohash.from_magnet rotates classify_cause
downloads_run = refl

marks_run : marks (run_check world show_topic (some show_topic)).1 ≡ codes "a" ∷ []
unfolding marks run_check text_eq max_per_tick marauder.Scheduler.Check.Send.submit_to_client
    marauder.Scheduler.Delivery.Plan.plan_delivery
    marauder.Scheduler.Delivery.FolderName.plan_folder_name count is_download
    marauder.Infohash.from_payload marauder.Infohash.from_magnet rotates classify_cause
marks_run = refl
