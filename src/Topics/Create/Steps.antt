-- ===== src/Topics/Create/Steps.antt =====
-- What `BuildAndCreate` of backend/internal/topics/create.go builds, step by step.
use marauder.Prelude.{
  ◌≡◌, refl, ◌⊎◌, inl, inr, Bool, true, false, not, ◌&&◌, ◌||◌, Option, none, some, [], arith,
  Bool-cases, Option-cases, Text, codes, text_eq,
}
use marauder.Prelude.Int.{ℤ, pos, eq_ℤ}
use marauder.Scheduler.Delivery.{
  FolderMode, unset, default_name, custom_name, keep_name, other_mode,
}
use marauder.Topics.{
  PolicyError, valid_update_policy, Strings, Normalized, stored_name, invalid,
  normalize_folder_name,
}
use marauder.Topics.Create.{
  valid_check_interval, Url, Urls, Parsed, Metadata, Tracker, CreateInput, NewTopic, Built, refusal,
  built, safe_image_url, resolve_metadata, with_metadata,
}
use marauder.Topics.Create.Build.{
  quality_refused, stored_mode, stored_interval, check_policy, build_parsed, build_answered,
  build_for, build_named, build_topic,
}

-- The mode is one that the code knows, and it is stored by its name.
unfoldable pub is_stored_mode : FolderMode → Bool
is_stored_mode unset = false
is_stored_mode default_name = true
is_stored_mode custom_name = true
is_stored_mode keep_name = true
is_stored_mode other_mode = false

-- A poster's address: none, or an http or https address with a host.
abbrev pub SafeImage : Urls → Text → Type 0
SafeImage pk s =
    (s ≡ [])
    ⊎ ((u : Url) × (pk.parse s ≡ some u)
        × (text_eq u.host [] ≡ false)
        × ((text_eq u.scheme (codes "http") || text_eq u.scheme (codes "https")) ≡ true))

-- What a stored topic keeps to: a known mode, a check interval from five minutes to seven days, settings
-- that the update policy accepts, and a poster that is safe to show.
pub record WellFormed (pk : Urls) (t : NewTopic) : Type 0 where
  pub mode : is_stored_mode t.folder_mode ≡ true
  pub interval : valid_check_interval t.check_interval_sec ≡ true
  pub policy :
      valid_update_policy t.replace_on_update t.replace_delete_data t.only_new_files t.folder_mode
      ≡ none
  pub image : SafeImage pk t.image_url

abbrev pub Fine : Urls → Built → Type 0
Fine pk (refusal e) = Unit
Fine pk (built t) = WellFormed pk t

module _ (pk : Urls) where
  safe_image_url-SafeImage : (raw : Text) → SafeImage pk (safe_image_url pk raw)
  unfolding safe_image_url
  safe_image_url-SafeImage raw = elim (Bool-cases (text_eq (pk.trim_space raw) [])) [
    | inl e ↦ simp e (inl refl)
    | inr e ↦ elim (Option-cases (pk.parse (pk.trim_space raw))) [
      | inl f ↦ simp (e, f, safe_image_url) (inl refl)
      | inr (u, f) ↦ elim (Bool-cases (text_eq u.host [])) [
        | inl g ↦ simp (e, f, g, safe_image_url) (inl refl)
        | inr g ↦ elim (Bool-cases (text_eq u.scheme (codes "http"))) [
          | inl h ↦ simp (e, f, g, h, safe_image_url) (inr (u, refl, g, rw h refl))
          | inr h ↦ elim (Bool-cases (text_eq u.scheme (codes "https"))) [
            | inl i ↦ simp (e, f, g, h, i, safe_image_url) (inr (u, refl, g, rw (h, i) refl))
            | inr i ↦ simp (e, f, g, h, i, safe_image_url) (inl refl)
          ]
        ]
      ]
    ]
  ]

  with_metadata-SafeImage :
      (input : CreateInput) (name : Text) (resolved : Bool) (m : Option Metadata)
      → SafeImage pk (with_metadata pk input name resolved m).2
  unfolding with_metadata
  with_metadata-SafeImage input name resolved none = inl refl
  with_metadata-SafeImage input name resolved (some meta) =
      elim (Bool-cases (text_eq input.display_name [] && not (text_eq meta.title []))) [
        | inl e ↦ simp e (safe_image_url-SafeImage meta.image_url)
        | inr e ↦ simp e (safe_image_url-SafeImage meta.image_url)
      ]

  resolve_metadata-SafeImage :
      (tr : Tracker) (input : CreateInput) (url name : Text) (resolved : Bool)
      → SafeImage pk (resolve_metadata pk tr input url name resolved).2
  unfolding resolve_metadata
  resolve_metadata-SafeImage tr input url name resolved = elim (Option-cases tr.resolve_metadata) [
    | inl e ↦ simp (e, resolve_metadata) (inl refl)
    | inr (ask, e) ↦ simp (e, resolve_metadata) (with_metadata-SafeImage input name resolved _)
  ]

  stored_interval_lem :
      (sec : ℤ)
      → (not (eq_ℤ sec (pos 0)) && not (valid_check_interval sec)) ≡ false
      → valid_check_interval (stored_interval sec) ≡ true
  unfolding stored_interval valid_check_interval
  stored_interval_lem sec h = elim (Bool-cases (eq_ℤ sec (pos 0))) [
    | inl e ↦ rw e refl
    | inr e ↦ rw e (ground arith)
  ]

  check_policy-Fine :
      (input : CreateInput) (t : NewTopic) (p : Option PolicyError)
      → valid_update_policy t.replace_on_update t.replace_delete_data t.only_new_files t.folder_mode
        ≡ p
      → is_stored_mode t.folder_mode ≡ true
      → valid_check_interval t.check_interval_sec ≡ true
      → SafeImage pk t.image_url
      → Fine pk (check_policy input t p)
  unfolding check_policy
  check_policy-Fine input t none e m i s = record { mode = m; interval = i; policy = e; image = s }
  check_policy-Fine input t (some x) e m i s = tt

  build_parsed-Fine :
      (tr : Tracker) (input : CreateInput) (url folder_name : Text) (parsed : Parsed)
      → is_stored_mode (stored_mode input.folder_mode) ≡ true
      → valid_check_interval (stored_interval input.check_interval_sec) ≡ true
      → Fine pk (build_parsed pk tr input url folder_name parsed)
  unfolding build_parsed
  build_parsed-Fine tr input url folder_name parsed m i =
      elim (Bool-cases (quality_refused tr.qualities input.quality)) [
        | inl e ↦ simp e tt
        | inr e ↦
            simp e
              (check_policy-Fine input _ _ refl m i (resolve_metadata-SafeImage tr input url _ _))
      ]

  build_answered-Fine :
      (tr : Tracker) (input : CreateInput) (url folder_name : Text) (r : Text ⊎ Parsed)
      → is_stored_mode (stored_mode input.folder_mode) ≡ true
      → valid_check_interval (stored_interval input.check_interval_sec) ≡ true
      → Fine pk (build_answered pk tr input url folder_name r)
  unfolding build_answered
  build_answered-Fine tr input url folder_name (inl e) m i = tt
  build_answered-Fine tr input url folder_name (inr parsed) m i =
      build_parsed-Fine tr input url folder_name parsed m i

  build_for-Fine :
      (found : Option Tracker) (input : CreateInput) (folder_name : Text)
      → is_stored_mode (stored_mode input.folder_mode) ≡ true
      → valid_check_interval (stored_interval input.check_interval_sec) ≡ true
      → Fine pk (build_for pk found input folder_name)
  unfolding build_for
  build_for-Fine none input folder_name m i = tt
  build_for-Fine (some tr) input folder_name m i = build_answered-Fine tr input _ folder_name _ m i

  accepted_mode :
      (st : Strings) (mode : FolderMode) (name stored : Text)
      → normalize_folder_name st mode name ≡ stored_name stored
      → is_stored_mode (stored_mode mode) ≡ true
  unfolding normalize_folder_name is_stored_mode stored_mode
  accepted_mode st unset name stored e = refl
  accepted_mode st default_name name stored e = refl
  accepted_mode st custom_name name stored e = refl
  accepted_mode st keep_name name stored e = refl
  accepted_mode st other_mode name stored e = ground arith

  build_named-Fine :
      (st : Strings) (find : Text → Option Tracker) (input : CreateInput) (n : Normalized)
      → normalize_folder_name st input.folder_mode input.folder_name ≡ n
      → valid_check_interval (stored_interval input.check_interval_sec) ≡ true
      → Fine pk (build_named pk find input n)
  unfolding build_named
  build_named-Fine st find input (invalid e) h i = tt
  build_named-Fine st find input (stored_name name) h i =
      build_for-Fine (find input.url) input name
        (accepted_mode st input.folder_mode input.folder_name name h) i

  pub build_topic-Fine :
      (st : Strings) (find : Text → Option Tracker) (input : CreateInput)
      → Fine pk (build_topic pk st find input)
  unfolding build_topic
  build_topic-Fine st find input =
      elim (Bool-cases (
        not (eq_ℤ input.check_interval_sec (pos 0))
        && not (valid_check_interval input.check_interval_sec))) [
          | inl e ↦ simp e tt
          | inr e ↦ simp e (
              build_named-Fine st find input _ refl
                (stored_interval_lem input.check_interval_sec e))
        ]
