-- ===== src/Topics/Create.antt =====
-- backend/internal/topics/create.go and defaults.go: a new topic from what its creator sends.
pub mod Build
pub mod Steps
pub mod WellFormed
use marauder.Prelude.{
  ℕ, ◌⊎◌, Bool, true, not, ◌&&◌, Option, none, some, List, [], ◌∷◌, if◌then◌else◌, ◌>>=◌, drop, any,
  Text, codes, text_eq, has_prefix,
}
use marauder.Prelude.Int.{ℤ, pos, leb_ℤ}
use marauder.Scheduler.Delivery.{FolderMode}
use marauder.Topics.{PolicyError, NameError}

abbrev pub default_check_interval_sec : ℤ
default_check_interval_sec = pos 900

abbrev pub min_check_interval_sec : ℤ
min_check_interval_sec = pos 300

abbrev pub max_check_interval_sec : ℤ
max_check_interval_sec = pos 604800

-- `ValidCheckInterval(sec)`.
unfoldable pub valid_check_interval : ℤ → Bool
valid_check_interval sec = leb_ℤ min_check_interval_sec sec && leb_ℤ sec max_check_interval_sec

-- `BuiltinReplaceDefaults.ReplaceDeleteData`.
abbrev pub builtin_replace_delete_data : Bool
builtin_replace_delete_data = true

-- `Resolve(override, fallback)`.
unfoldable pub resolve : Option Bool → (fallback : Bool) → Bool
resolve none fallback = fallback
resolve (some b) fallback = b

-- A `url.URL`; `rest` stands for the parts that the code does not look at.
pub record Url : Type 0 where
  pub scheme : Text
  pub host : Text
  pub rest : Text

-- What the code calls of `net/url` and `strings`.
pub record Urls : Type 0 where
  pub parse : Text → Option Url
  pub hostname : (host : Text) → Text
  pub print : Url → Text
  pub to_lower : Text → Text
  pub trim_space : Text → Text

-- A value of a topic's `extra`: `given` is one that the creator or the tracker brings.
pub data Value : Type 0 where
  word : Text → Value
  number : ℤ → Value
  given : ℕ → Value

abbrev pub Extra : Type 0
Extra = List (Text × Value)

-- `extra[key] = value`.
unfoldable pub put : Text → Value → Extra → Extra
put key value [] = (key, value) ∷ []
put key value ((k, v) ∷ extra) =
    let rest = put key value extra in if text_eq k key then (key, value) ∷ extra else (k, v) ∷ rest

-- The loop that lays the creator's values over the tracker's.
unfoldable pub put_all : Extra → Extra → Extra
unfolding put
put_all [] extra = extra
put_all ((k, v) ∷ others) extra = put_all others (put k v extra)

pub record Parsed : Type 0 where
  pub display_name : Text
  pub extra : Extra

pub record Metadata : Type 0 where
  pub title : Text
  pub image_url : Text

-- A tracker plugin with its capabilities; `resolve_metadata` has no answer where it fails.
pub record Tracker : Type 0 where
  pub name : Text
  pub domains : Option (List Text)
  pub parse : Text → Text ⊎ Parsed
  pub qualities : Option (List Text)
  pub resolve_metadata : Option (Text → (credential : Option ℕ) → Option Metadata)

pub record CreateInput : Type 0 where
  pub url : Text
  pub display_name : Text
  pub check_interval_sec : ℤ
  pub replace_on_update : Bool
  pub replace_delete_data : Option Bool
  pub default_replace_delete_data : Option Bool
  pub notify_only : Bool
  pub announce_current : Bool
  pub add_paused_on_update : Bool
  pub only_new_files : Bool
  pub folder_mode : FolderMode
  pub folder_name : Text
  pub follow_tracker_title : Bool
  pub quality : Text
  pub start_season : Option ℤ
  pub start_episode : Option ℤ
  pub source : Text
  pub extra : Extra
  pub credentials : Option (Tracker → Option ℕ)

-- The `domain.Topic` that is handed to the store; what is only passed on is left out.
pub record NewTopic : Type 0 where
  pub tracker_name : Text
  pub url : Text
  pub display_name : Text
  pub name_is_placeholder : Bool
  pub image_url : Text
  pub replace_on_update : Bool
  pub replace_delete_data : Bool
  pub notify_only : Bool
  pub announce_current : Bool
  pub add_paused_on_update : Bool
  pub only_new_files : Bool
  pub folder_mode : FolderMode
  pub folder_name : Text
  pub follow_tracker_title : Bool
  pub extra : Extra
  pub check_interval_sec : ℤ

pub data CreateError : Type 0 where
  check_interval_out_of_range no_tracker : CreateError
  bad_folder_name : NameError → CreateError
  parse_failed : Text → CreateError
  quality_unsupported : Text → CreateError
  bad_policy : PolicyError → CreateError
  store_failed : Text → CreateError

pub data Built : Type 0 where
  refusal : CreateError → Built
  built : NewTopic → Built

-- What the store answers: the topic's id, that the topic is there already, or another error.
pub data Stored : Type 0 where
  new_id : ℕ → Stored
  unique_violation : Stored
  broken : Text → Stored

-- `Result`, or an error.
pub data Created : Type 0 where
  created : ℕ → Created
  existed : Created
  failed : CreateError → Created

-- `strings.TrimPrefix(s, "www.")`.
unfoldable pub trim_www : Text → Text
trim_www s = if has_prefix s (codes "www.") then drop 4 s else s

-- `slices.Contains`.
unfoldable pub has_text : Text → List Text → Bool
has_text t ts = any (λ u. text_eq u t) ts

module _ (pk : Urls) where
  -- `SafeImageURL(raw)`.
  unfoldable pub safe_image_url : Text → Text
  safe_image_url raw =
      let trimmed = pk.trim_space raw in
      if text_eq trimmed [] then [] else elim (pk.parse trimmed) [
        | none ↦ []
        | some u ↦
            if text_eq u.host []
            then []
            else if not (text_eq u.scheme (codes "http")) && not (text_eq u.scheme (codes "https"))
            then []
            else trimmed
      ]

  -- The rewriting of `CanonicalTopicURL`, for a URL that is parsed.
  unfoldable pub rewrite_host : (canonical raw : Text) → Url → Text
  unfolding trim_www
  rewrite_host canonical raw u =
      let host = pk.hostname u.host in
      if text_eq host []
      then raw
      else if text_eq (trim_www (pk.to_lower host)) (trim_www (pk.to_lower canonical))
      then raw
      else pk.print (record u { scheme = codes "https"; host = canonical })

  -- `CanonicalTopicURL(tr, rawURL)`.
  unfoldable pub canonical_topic_url : Option (List Text) → Text → Text
  unfolding rewrite_host
  canonical_topic_url none raw = raw
  canonical_topic_url (some []) raw = raw
  canonical_topic_url (some (canonical ∷ ds)) raw = elim (pk.parse (pk.trim_space raw)) [
    | none ↦ raw
    | some u ↦ rewrite_host canonical raw u
  ]

  -- The end of `resolveMetadata`: the name, whether it is resolved, and the poster.
  unfoldable pub with_metadata :
      CreateInput → (name : Text) → (resolved : Bool) → Option Metadata → Text × Bool × Text
  unfolding safe_image_url
  with_metadata input name resolved none = (name, resolved, [])
  with_metadata input name resolved (some meta) =
      if text_eq input.display_name [] && not (text_eq meta.title [])
      then (meta.title, true, safe_image_url meta.image_url)
      else (name, resolved, safe_image_url meta.image_url)

  -- `resolveMetadata`.
  unfoldable pub resolve_metadata :
      Tracker → CreateInput → (url name : Text) → (resolved : Bool) → Text × Bool × Text
  unfolding with_metadata
  resolve_metadata tr input url name resolved =
      let credential = input.credentials >>= λ load. load tr in
      elim tr.resolve_metadata [
        | none ↦ (name, resolved, [])
        | some ask ↦ with_metadata input name resolved (ask url credential)
      ]
