-- ===== src/Examples/Accounts.antt =====
-- New topics and the sessions of a tracker at concrete inputs.
use marauder.Prelude.{
  ℕ, ◌≡◌, refl, inr, true, false, ◌&&◌, Option, none, some, [], ◌∷◌, arith, ltb, ◌==◌,
  if◌then◌else◌, All, Text, codes, text_eq, has_prefix,
}
use marauder.Prelude.Int.{pos}
use marauder.Scheduler.Delivery.{keep_name}
use marauder.Topics.Create.{
  Url, Urls, Tracker, CreateInput, NewTopic, new_id, created, canonical_topic_url,
}
use marauder.Topics.Create.Build.{build_and_create}
use marauder.Topics.Create.WellFormed.{build_and_create-WellFormed}
use marauder.Topics.Create.Steps.{WellFormed}
use marauder.Credentials.Fingerprint.{Credential, Bounded, fingerprint_bytes_injective}
use marauder.Credentials.Session.{
  zero_fingerprint, Held, new_slot, Attempt, ensure_session, establish, start,
}
use marauder.Credentials.Session.Owner.{ensured_account}
use marauder.Credentials.Session.Burst.{Waiting, queue, one_attempt}
use marauder.Examples.Settings.{plain_strings}

abbrev mirror_url : Url
mirror_url = record { scheme = codes "http"; host = codes "mirror"; rest = [] }

abbrev own_url : Url
own_url = record { scheme = codes "https"; host = codes "own"; rest = [] }

-- A URL package that knows one address on a mirror, and one on the tracker's own host.
abbrev pub mirror_urls : Urls
mirror_urls = record {
  parse = λ s. if text_eq s (codes "m") then some mirror_url else some own_url;
  hostname = λ h. h;
  print = λ u. codes "k";
  to_lower = λ s. s;
  trim_space = λ s. s;
}

abbrev pub forum : Tracker
forum = record {
  name = codes "forum";
  domains = some (codes "own" ∷ []);
  parse = λ u. inr (record { display_name = codes "forum topic 1"; extra = [] });
  qualities = none;
  resolve_metadata = some (λ u c. some (record { title = codes "Show"; image_url = codes "p" }));
}

abbrev wanted : CreateInput
wanted = record {
  url = codes "m";
  display_name = [];
  check_interval_sec = pos 0;
  replace_on_update = true;
  replace_delete_data = none;
  default_replace_delete_data = none;
  notify_only = false;
  announce_current = false;
  add_paused_on_update = false;
  only_new_files = true;
  folder_mode = keep_name;
  folder_name = [];
  follow_tracker_title = false;
  quality = [];
  start_season = none;
  start_episode = none;
  source = [];
  extra = [];
  credentials = none;
}

wanted_created :
    build_and_create mirror_urls plain_strings (λ u. some forum) (λ t. new_id 7) wanted ≡ created 7
unfolding build_and_create marauder.Topics.normalize_folder_name marauder.Topics.valid_update_policy
wanted_created = refl

created_example : (t : NewTopic) × (new_id 7 ≡ new_id 7) × WellFormed mirror_urls t
created_example =
    build_and_create-WellFormed mirror_urls plain_strings (λ u. some forum) (λ t. new_id 7) wanted 7
      wanted_created

-- A URL package that tells the addresses on the tracker's own host by their first byte.
abbrev read_url : Text → Option Url
read_url [] = none
read_url (c ∷ s) =
    if c == 1
    then some (record { scheme = codes "https"; host = codes "own"; rest = s })
    else some (record { scheme = codes "https"; host = codes "mirror"; rest = s })

abbrev host_urls : Urls
host_urls = record {
  parse = read_url;
  hostname = λ h. h;
  print = λ u. 1 ∷ u.rest;
  to_lower = λ s. s;
  trim_space = λ s. s;
}

canonical_run : canonical_topic_url host_urls (some (codes "own" ∷ [])) (codes "x") ≡ 1 ∷ []
unfolding canonical_topic_url text_eq has_prefix
canonical_run = refl

abbrev parts : Credential
parts = record { username = codes "u"; secret = codes "s"; session = [] }

parts-Bounded : Bounded parts
parts-Bounded = record { username = omega arith; secret = omega arith; session = omega arith }

fingerprint_example :
    (parts.username ≡ parts.username)
    × (parts.secret ≡ parts.secret)
    × (parts.session ≡ parts.session)
fingerprint_example = fingerprint_bytes_injective parts parts parts-Bounded parts-Bounded refl

abbrev login_at : ℕ → Attempt
login_at t = record {
  arrived = t;
  gave_up = none;
  verify = inr false;
  login = none;
  left_behind = none;
  now = 9;
  is_cut = false;
}

abbrev cold : Held
cold = record { slot = new_slot; account = none }

one_not_zero : text_eq (1 ∷ []) zero_fingerprint ≡ false
unfolding text_eq
one_not_zero = refl

account_example :
    ((ensure_session (1 ∷ []) (login_at 3) cold).err ≡ none
      → (ensure_session (1 ∷ []) (login_at 3) cold).held.account ≡ some (1 ∷ []))
    × ((establish (1 ∷ []) (login_at 3) cold).err ≡ none
        → (establish (1 ∷ []) (login_at 3) cold).held.account ≡ some (1 ∷ []))
account_example = ensured_account (1 ∷ []) (login_at 3) cold one_not_zero (start none)

cold_unanswered :
    (text_eq cold.slot.last.fp (1 ∷ []) && ltb (login_at 3).arrived cold.slot.last.at) ≡ false
unfolding text_eq
cold_unanswered = refl

waits : Waiting 9 (login_at 4)
waits = record { patient = refl; early = refl }

burst_example :
    All
      (λ d. (d.requests ≡ []) × (d.err ≡ (ensure_session (1 ∷ []) (login_at 3) cold).err))
      (queue (1 ∷ []) (login_at 4 ∷ []) (ensure_session (1 ∷ []) (login_at 3) cold).held)
burst_example =
    one_attempt (1 ∷ []) (login_at 3) (login_at 4 ∷ []) cold refl refl cold_unanswered (waits, tt)
