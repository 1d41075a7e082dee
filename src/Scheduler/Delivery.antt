-- ===== src/Scheduler/Delivery.antt =====
-- What a delivery does with the client and the database after the torrent is added: the calls of
-- backend/internal/scheduler/update_policy.go and folder_name.go, all for the torrent delivered.
pub mod Plan
pub mod Selection
pub mod Folder
pub mod Finish
pub mod FolderName
pub mod Naming
use marauder.Prelude.{ℕ, Bool, true, false, ◌||◌, Option, none, some, List, [], Text}
use marauder.Prelude.Int.{ℤ}
use marauder.Domain.{TorrentFile, ClientFile}

-- `registry.DiskState`.
pub record DiskState : Type 0 where
  pub is_stopped : Bool
  pub bytes_on_disk : ℤ

-- One call with its answer: `none` and `false` are a call that returned an error.
pub data Event : Type 0 where
  listed : Option (List ClientFile) → Event
  skipped : List ℤ → Bool → Event
  started : Bool → Event
  stopped : Bool → Event
  state_read : Option DiskState → Event
  renamed : Text → Text → Bool → Event
  rechecked : Bool → Event
  stored : Option (List TorrentFile) → Bool → Event

-- The calls made so far, the newest first.
abbrev pub Trace : Type 0
Trace = List Event

-- The client plugin, the delivery repository and the clock, which may answer anything at any time:
-- an answer depends on all calls made before. `polls` says how many more times a wait that begins
-- now may ask before its deadline or its context ends it. `has_deliveries` is `s.deliveries != nil`.
pub record Answers : Type 0 where
  pub files : Trace → Option (List ClientFile)
  pub skip_files : Trace → List ℤ → Bool
  pub start : Trace → Bool
  pub stop : Trace → Bool
  pub disk_state : Trace → Option DiskState
  pub rename_root : Trace → Text → Text → Bool
  pub recheck : Trace → Bool
  pub set_files : Trace → Option (List TorrentFile) → Bool
  pub polls : Trace → ℕ
  pub has_deliveries : Bool

pub data FolderMode : Type 0 where
  unset default_name custom_name keep_name other_mode : FolderMode

-- The fields of `domain.Topic` that a delivery reads.
pub record Topic : Type 0 where
  pub last_hash : Text
  pub notify_only : Bool
  pub add_paused_on_update : Bool
  pub only_new_files : Bool
  pub folder_mode : FolderMode
  pub folder_name : Text
  pub folder_name_seen : Text

-- `fileSelection`, whose `started` flag is a result of the selection here.
pub record FileSelection : Type 0 where
  pub hash : Text
  pub files : List TorrentFile
  pub skip : List TorrentFile

-- Why the selection cannot run.
pub data Fallback : Type 0 where
  unsupported paused_magnet paused_unreadable paused_no_baseline : Fallback

-- A folder plan that could not apply has its reason's name and its note.
pub data FolderResult : Type 0 where
  magnet single_file unreadable unsupported_client : FolderResult

pub data FolderPlan : Type 0 where
  rename_to : (hash : Text) (manifest : List TorrentFile) (want : Text) → FolderPlan
  cannot_apply : (want : Text) → FolderResult → (note : Text) → FolderPlan

-- `deliveryPlan`; an empty `fallbackResult` and a nil pointer are `none`.
pub record DeliveryPlan : Type 0 where
  pub paused : Bool
  pub files : Option (List TorrentFile)
  pub selection : Option FileSelection
  pub fallback : Option (Fallback × Text)
  pub note : Text
  pub folder : Option FolderPlan

-- `renames()`.
unfoldable pub renames : Option FolderPlan → Bool
renames none = false
renames (some (rename_to hash manifest want)) = true
renames (some (cannot_apply want result note)) = false

-- `addPaused()`.
unfoldable pub add_paused : DeliveryPlan → Bool
unfolding renames
add_paused p = p.paused || renames p.folder

-- `filesAtRecord()`.
unfoldable pub files_at_record : DeliveryPlan → Option (List TorrentFile)
files_at_record p = elim p.selection [ none ↦ p.files | some _ ↦ none ]
