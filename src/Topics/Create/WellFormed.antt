-- ===== src/Topics/Create/WellFormed.antt =====
-- What a topic that `BuildAndCreate` stores keeps to.
use marauder.Prelude.{
  ℕ, ◌≡◌, refl, sym, ap, subst, ◌⊎◌, inl, inr, Bool, true, false, not, ◌&&◌, Option, none, some,
  List, [], ◌∷◌, arith, if◌then◌else◌, Bool-cases, Option-cases, Text, codes, text_eq, text_eq_refl,
}
use marauder.Prelude.Int.{pos, eq_ℤ}
use marauder.Topics.{
  valid_update_policy, Strings, Normalized, stored_name, invalid, normalize_folder_name,
}
use marauder.Topics.Create.{
  valid_check_interval, Url, Urls, Parsed, Tracker, CreateInput, NewTopic,
  check_interval_out_of_range, no_tracker, bad_folder_name, parse_failed, quality_unsupported,
  bad_policy, store_failed, Built, refusal, built, Stored, new_id, unique_violation, broken,
  created, canonical_topic_url, rewrite_host, trim_www,
}
use marauder.Topics.Create.Build.{
  quality_refused, stored_mode, stored_delete_data, check_policy, build_parsed, build_answered,
  build_for, build_named, build_topic, store_built, store_result, build_and_create,
}
use marauder.Topics.Create.Steps.{WellFormed, Fine, build_topic-Fine}

store_result-id : (s : Stored) (id : ℕ) → store_result s ≡ created id → s ≡ new_id id
unfolding store_result
store_result-id (new_id n) id e = cc e
store_result-id unique_violation id e = ground arith
store_result-id (broken x) id e = ground arith

store_built-WellFormed :
    (pk : Urls) (store : NewTopic → Stored) (b : Built) (id : ℕ)
    → Fine pk b
    → store_built store b ≡ created id
    → (t : NewTopic) × (store t ≡ new_id id) × WellFormed pk t
unfolding store_built
store_built-WellFormed pk store (refusal x) id f e = ground arith
store_built-WellFormed pk store (built t) id f e = (t, store_result-id (store t) id e, f)

-- A topic that `BuildAndCreate` creates is one that it handed to the store with a known folder mode, a check
-- interval from five minutes to seven days, settings that the update policy accepts, and either no
-- poster or one whose address is http or https with a host.
pub build_and_create-WellFormed :
    (pk : Urls) (st : Strings) (find : Text → Option Tracker) (store : NewTopic → Stored)
    (input : CreateInput) (id : ℕ)
    → build_and_create pk st find store input ≡ created id
    → (t : NewTopic) × (store t ≡ new_id id) × WellFormed pk t
unfolding build_and_create
build_and_create-WellFormed pk st find store input id e =
    store_built-WellFormed pk store (build_topic pk st find input) id
      (build_topic-Fine pk st find input) e

-- The update policy refused the settings.
unfoldable pub is_policy_refusal : Built → Bool
is_policy_refusal (built t) = false
is_policy_refusal (refusal check_interval_out_of_range) = false
is_policy_refusal (refusal no_tracker) = false
is_policy_refusal (refusal (bad_folder_name e)) = false
is_policy_refusal (refusal (parse_failed e)) = false
is_policy_refusal (refusal (quality_unsupported q)) = false
is_policy_refusal (refusal (bad_policy e)) = true
is_policy_refusal (refusal (store_failed e)) = false

inherited_accepted :
    (input : CreateInput)
    → input.replace_delete_data ≡ none
    → valid_update_policy input.replace_on_update
        (stored_delete_data input)
        input.only_new_files
        (stored_mode input.folder_mode)
      ≡ none
unfolding valid_update_policy stored_delete_data
inherited_accepted input e = simp (e, stored_delete_data) (ground arith)

module _ (pk : Urls) where
  build_parsed-inherited :
      (tr : Tracker) (input : CreateInput) (url folder_name : Text) (parsed : Parsed)
      → input.replace_delete_data ≡ none
      → is_policy_refusal (build_parsed pk tr input url folder_name parsed) ≡ false
  unfolding build_parsed is_policy_refusal check_policy
  build_parsed-inherited tr input url folder_name parsed e =
      elim (Bool-cases (quality_refused tr.qualities input.quality)) [
        | inl q ↦ simp q refl
        | inr q ↦ simp (q, inherited_accepted input e) refl
      ]

  build_for-inherited :
      (found : Option Tracker) (input : CreateInput) (folder_name : Text)
      → input.replace_delete_data ≡ none
      → is_policy_refusal (build_for pk found input folder_name) ≡ false
  unfolding build_for build_answered is_policy_refusal
  build_for-inherited none input folder_name e = refl
  build_for-inherited (some tr) input folder_name e =
      answered (tr.parse (canonical_topic_url pk tr.domains input.url))
    where
      answered :
          (r : Text ⊎ Parsed)
          → is_policy_refusal (
              build_answered pk tr input
                (canonical_topic_url pk tr.domains input.url)
                folder_name
                r)
            ≡ false
      answered (inl x) = refl
      answered (inr parsed) = build_parsed-inherited tr input _ folder_name parsed e

  -- Where the creator makes no explicit choice about the old data, the settings are never refused by the
  -- update policy, whatever the inherited default and the other settings are.
  build_topic-inherited :
      (st : Strings) (find : Text → Option Tracker) (input : CreateInput)
      → input.replace_delete_data ≡ none
      → is_policy_refusal (build_topic pk st find input) ≡ false
  unfolding build_topic build_named is_policy_refusal
  build_topic-inherited st find input e =
      elim (Bool-cases (
        not (eq_ℤ input.check_interval_sec (pos 0))
        && not (valid_check_interval input.check_interval_sec))) [
          | inl c ↦ simp c refl
          | inr c ↦ simp c (named (normalize_folder_name st input.folder_mode input.folder_name))
        ]
    where
      named : (n : Normalized) → is_policy_refusal (build_named pk find input n) ≡ false
      named (invalid x) = refl
      named (stored_name name) = build_for-inherited (find input.url) input name e

  canonical_cases :
      (canonical raw : Text) (mirrors : List Text)
      → (canonical_topic_url pk (some (canonical ∷ mirrors)) raw ≡ raw)
        ⊎ ((u : Url) × (canonical_topic_url pk (some (canonical ∷ mirrors)) raw
              ≡ pk.print (record u { scheme = codes "https"; host = canonical })))
  unfolding canonical_topic_url rewrite_host
  canonical_cases canonical raw mirrors = elim (Option-cases (pk.parse (pk.trim_space raw))) [
    | inl e ↦ simp (e, canonical_topic_url) (inl refl)
    | inr (u, e) ↦ elim (Bool-cases (text_eq (pk.hostname u.host) [])) [
      | inl f ↦ simp (e, f, canonical_topic_url) (inl refl)
      | inr f ↦
          elim (Bool-cases (
            text_eq (trim_www (pk.to_lower (pk.hostname u.host)))
              (trim_www (pk.to_lower canonical)))) [
                | inl g ↦ simp (e, f, g, canonical_topic_url) (inl refl)
                | inr g ↦ simp (e, f, g, canonical_topic_url) (inr (u, refl))
              ]
    ]
  ]

  -- Making a URL canonical once more changes nothing, if `net/url` reads back the URL that it printed,
  -- whose host is the canonical domain.
  canonical_topic_url-canonical :
      (canonical raw : Text) (mirrors : List Text)
      → ((u : Url)
          → pk.parse
              (pk.trim_space (pk.print (record u { scheme = codes "https"; host = canonical })))
            ≡ some (record u { scheme = codes "https"; host = canonical }))
      → pk.hostname canonical ≡ canonical
      → canonical_topic_url pk
          (some (canonical ∷ mirrors))
          (canonical_topic_url pk (some (canonical ∷ mirrors)) raw)
        ≡ canonical_topic_url pk (some (canonical ∷ mirrors)) raw
  unfolding canonical_topic_url rewrite_host
  canonical_topic_url-canonical canonical raw mirrors reads own =
      elim (canonical_cases canonical raw mirrors) [
        | inl e ↦ ap (canonical_topic_url pk (some (canonical ∷ mirrors))) e
        | inr (u, e) ↦
            subst (λ s. canonical_topic_url pk (some (canonical ∷ mirrors)) s ≡ s) (sym e)
              (simp
                (reads u, own, text_eq_refl (trim_www (pk.to_lower canonical)), canonical_topic_url)
                (either canonical
                  (pk.print (record u { scheme = codes "https"; host = canonical }))))
      ]
    where
      either : (c s : Text) → (if text_eq c [] then s else s) ≡ s
      either c s = elim (Bool-cases (text_eq c [])) [ inl e ↦ rw e refl | inr e ↦ rw e refl ]
