-- ===== src/Topics/Create/Build.antt =====
-- `BuildAndCreate` of backend/internal/topics/create.go.
use marauder.Prelude.{
  ◌⊎◌, inl, inr, Bool, false, not, ◌&&◌, Option, none, some, List, [], if◌then◌else◌, Text, codes,
  text_eq,
}
use marauder.Prelude.Int.{ℤ, pos, eq_ℤ}
use marauder.Scheduler.Delivery.{
  FolderMode, unset, default_name, custom_name, keep_name, other_mode,
}
use marauder.Topics.{
  PolicyError, uses_folder_name, valid_update_policy, Strings, Normalized, stored_name, invalid,
  normalize_folder_name,
}
use marauder.Topics.Create.{
  default_check_interval_sec, valid_check_interval, builtin_replace_delete_data, resolve, Urls,
  word, number, Extra, put, put_all, Parsed, Tracker, CreateInput, NewTopic,
  check_interval_out_of_range, no_tracker, bad_folder_name, parse_failed, quality_unsupported,
  bad_policy, store_failed, Built, refusal, built, Stored, new_id, unique_violation, broken,
  Created, created, existed, failed, has_text, canonical_topic_url, resolve_metadata,
}

-- `if key != nil { extra[name] = *key }`.
unfoldable pub put_number : Text → Option ℤ → Extra → Extra
put_number key none extra = extra
put_number key (some n) extra = put key (number n) extra

unfoldable pub put_word : Text → Text → Extra → Extra
put_word key value extra = if text_eq value [] then extra else put key (word value) extra

-- The topic's `extra`, once the quality is accepted.
unfoldable pub build_extra : CreateInput → Parsed → Extra
unfolding put_number put_word put_all
build_extra input parsed = put_word (codes "source") input.source (
    put_number (codes "start_episode") input.start_episode (
      put_number (codes "start_season") input.start_season
        (put_word (codes "quality") input.quality (put_all input.extra parsed.extra))))

-- The tracker declares its qualities, and the one asked for is not among them.
unfoldable pub quality_refused : Option (List Text) → Text → Bool
unfolding has_text
quality_refused none quality = false
quality_refused (some qs) quality = not (text_eq quality []) && not (has_text quality qs)

-- `folderMode`, the default where the creator sends none.
unfoldable pub stored_mode : FolderMode → FolderMode
stored_mode unset = default_name
stored_mode default_name = default_name
stored_mode custom_name = custom_name
stored_mode keep_name = keep_name
stored_mode other_mode = other_mode

unfoldable pub stored_interval : ℤ → ℤ
stored_interval sec = if eq_ℤ sec (pos 0) then default_check_interval_sec else sec

-- Whether the old data is deleted: the explicit choice, or else the default unless a setting keeps the
-- old files.
unfoldable pub stored_delete_data : CreateInput → Bool
unfolding resolve uses_folder_name stored_mode
stored_delete_data input =
    let base = resolve input.default_replace_delete_data builtin_replace_delete_data in
    elim input.replace_delete_data [
      | none ↦
          base && not input.only_new_files && not (uses_folder_name (stored_mode input.folder_mode))
      | some b ↦ b
    ]

-- The end of `BuildAndCreate` before the store: the check on the update policy.
unfoldable pub check_policy : CreateInput → NewTopic → Option PolicyError → Built
check_policy input t none = built t
check_policy input t (some e) = refusal (bad_policy e)

unfoldable pub store_result : Stored → Created
store_result (new_id id) = created id
store_result unique_violation = existed
store_result (broken e) = failed (store_failed e)

unfoldable pub store_built : (store : NewTopic → Stored) → Built → Created
unfolding store_result
store_built store (refusal e) = failed e
store_built store (built t) = store_result (store t)

module _ (pk : Urls) where
  unfoldable pub build_parsed : Tracker → CreateInput → (url folder_name : Text) → Parsed → Built
  unfolding resolve_metadata build_extra quality_refused stored_delete_data stored_interval
      check_policy
  build_parsed tr input url folder_name parsed =
      let named = not (text_eq input.display_name []) in
      let name = if named then input.display_name else parsed.display_name in
      let (shown, resolved, image_url) = resolve_metadata pk tr input url name named in
      let deletes = stored_delete_data input in
      let mode = stored_mode input.folder_mode in
      let t : NewTopic = record {
        tracker_name = tr.name;
        url = url;
        display_name = shown;
        name_is_placeholder = not resolved;
        image_url = image_url;
        replace_on_update = input.replace_on_update;
        replace_delete_data = deletes;
        notify_only = input.notify_only;
        announce_current = input.announce_current;
        add_paused_on_update = input.add_paused_on_update;
        only_new_files = input.only_new_files;
        folder_mode = mode;
        folder_name = folder_name;
        follow_tracker_title = input.follow_tracker_title;
        extra = build_extra input parsed;
        check_interval_sec = stored_interval input.check_interval_sec;
      } in
      let checked =
        check_policy input t
          (valid_update_policy input.replace_on_update deletes input.only_new_files mode) in
      if quality_refused tr.qualities input.quality
      then refusal (quality_unsupported input.quality)
      else checked

  unfoldable pub build_answered :
      Tracker → CreateInput → (url folder_name : Text) → Text ⊎ Parsed → Built
  unfolding build_parsed
  build_answered tr input url folder_name (inl e) = refusal (parse_failed e)
  build_answered tr input url folder_name (inr parsed) =
      build_parsed tr input url folder_name parsed

  unfoldable pub build_for : Option Tracker → CreateInput → (folder_name : Text) → Built
  unfolding build_answered canonical_topic_url
  build_for none input folder_name = refusal no_tracker
  build_for (some tr) input folder_name =
      let url = canonical_topic_url pk tr.domains input.url in
      build_answered tr input url folder_name (tr.parse url)

  unfoldable pub build_named : (find : Text → Option Tracker) → CreateInput → Normalized → Built
  unfolding build_for
  build_named find input (invalid e) = refusal (bad_folder_name e)
  build_named find input (stored_name name) = build_for (find input.url) input name

  -- `BuildAndCreate` before the store; `find` is `registry.FindTrackerForURL`.
  unfoldable pub build_topic : Strings → (find : Text → Option Tracker) → CreateInput → Built
  unfolding valid_check_interval build_named
  build_topic st find input =
      if not (eq_ℤ input.check_interval_sec (pos 0))
        && not (valid_check_interval input.check_interval_sec)
      then refusal check_interval_out_of_range
      else build_named find input (normalize_folder_name st input.folder_mode input.folder_name)

  -- `BuildAndCreate`.
  unfoldable pub build_and_create :
      Strings → (find : Text → Option Tracker) → (store : NewTopic → Stored) → CreateInput → Created
  unfolding build_topic store_built
  build_and_create st find store input = store_built store (build_topic st find input)
