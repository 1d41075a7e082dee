-- ===== src/Scheduler/Check.antt =====
-- One check of a topic, in backend/internal/scheduler/scheduler.go: the records that `runCheck` and
-- what it calls read, and the calls they make. The clock, the metrics and the logs are left out.
pub mod Send
pub mod Drain
pub mod Notices
pub mod Run
pub mod Kinds
pub mod Records
use marauder.Prelude.{ℕ, Bool, false, Option, none, some, List, [], ◌∷◌, if◌then◌else◌, Text}
use marauder.Prelude.Int.{ℤ}
use marauder.Domain.{TorrentFile}
use marauder.Scheduler.Classify.{Failure, ErrorCode, Patterns}
use marauder.Scheduler.Delivery.{Topic, Answers}
use marauder.Scheduler.Delivery.Plan.{Payload}
use marauder.Scheduler.Delivery.FolderName.{Sources}
use marauder.Scheduler.Replace.{Delivered, Clients, Removal}

-- The fields of `domain.Topic` that a check reads; `topic` has those of a delivery.
pub record Watched : Type 0 where
  pub topic : Topic
  pub display_name : Text
  pub name_is_placeholder : Bool
  pub follow_tracker_title : Bool
  pub announce_current : Bool
  pub replace_on_update : Bool
  pub replace_delete_data : Bool
  pub client_id : Option ℕ
  pub check_interval : ℤ
  pub consecutive_errors : ℤ

-- `domain.Check`, with the two lists of `Extra` as `extra.StringSlice` reads them.
pub record Found : Type 0 where
  pub hash : Text
  pub display_name : Text
  pub pending : List Text
  pub human : List Text

pub data Answer {ℓ} (A : Type ℓ) : Type ℓ where
  got : A → Answer A
  broke : Failure → Answer A

-- A client's row, with what the plugin of its name and its decrypted configuration offer.
pub record ClientRow : Type 0 where
  pub id : ℕ
  pub name : Text
  pub is_installed : Bool
  pub decrypts : Option Failure
  pub can_select : Bool
  pub can_rename : Bool

-- What is published of a check.
pub data Notice : Type 0 where
  check_started check_completed session_expired : Notice
  release_found : Text → Notice
  download_submitted : Text → Notice
  check_failed : Text → Notice

-- One call with its answer; `none` is a call without an error.
pub data Call : Type 0 where
  published : Notice → Call
  title_written : Text → Call
  verified : Option Failure → Call
  downloaded : Call
  added : Payload → (paused : Bool) → Option Failure → Call
  delivery_recorded : (hash label : Text) → Option (List TorrentFile) → Call
  finished : marauder.Scheduler.Delivery.Trace → Call
  marked_one : Text → Option Failure → Call
  marked_all : List Text → Option Failure → Call
  removed : List Removal → List Text → Call
  failure_reported : Call
  result_recorded :
      (hash : Text) → (updated : Bool) → (delay : ℤ) → (message : Text) → Option ErrorCode → Call
  counted : (updated errored : Bool) → Call

-- The calls made so far, the newest first.
abbrev pub Calls : Type 0
Calls = List Call

-- A tracker credential: none that can be used, or one whose session may be marked expired already.
pub data LoadedCredential : Type 0 where
  no_credential : LoadedCredential
  stored : (is_marked : Bool) → LoadedCredential

-- The tracker, the database, the clients and the configuration. What answers may answer anything at
-- any time: it depends on all calls made before.
pub record World : Type 0 where
  pub has_tracker : Bool
  pub is_episodic : Bool
  pub has_feed_titles : Bool
  pub credential : Calls → LoadedCredential
  pub session : Calls → Option Failure
  pub mark_expired : Calls → Bool
  pub check : Calls → Answer Found
  pub write_title : Calls → Text → Bool
  pub download : Calls → List Text → Answer Payload
  pub verify : Calls → Option Failure
  pub mark_one : Calls → Text → Option Failure
  pub mark_all : Calls → List Text → Option Failure
  pub default_client : Calls → Option ClientRow
  pub client_by_id : Calls → ℕ → Answer ClientRow
  pub add : Calls → Option Failure
  pub answers : Calls → Answers
  pub latest : Option (Text → Option (Option (List TorrentFile)))
  pub sources : Sources
  pub prior : Calls → List Delivered
  pub removers : Clients
  pub to_lower : Text → Text
  pub patterns : Patterns
  pub packages : marauder.Infohash.Packages
  pub has_emitter : Bool
  pub has_domains : Bool
  pub max_episodes : ℤ
  pub max_backoff : ℤ

-- `errors.Is(err, repo.ErrStaleCheckResult)`, for an error that may be nil.
unfoldable pub is_stale : Option Failure → Bool
is_stale none = false
is_stale (some e) = e.stale_check_result

-- `s.emit.Emit(...)` behind `if s.emit != nil`.
unfoldable pub publish : World → Notice → Calls → Calls
publish w n tr = if w.has_emitter then published n ∷ tr else tr
