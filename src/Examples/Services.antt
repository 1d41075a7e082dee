-- ===== src/Examples/Services.antt =====
-- New topics, sessions, tickets and grabs at concrete inputs.
use marauder.Prelude.{
  ℕ, ◌≤◌, ◌≡◌, refl, true, false, none, some, List, [], ◌∷◌, arith, All, length, Text, codes,
  text_eq, has_prefix,
}
use marauder.Prelude.Int.{pos}
use marauder.Topics.Create.{word, new_id}
use marauder.Live.Tickets.{Act, issued, consumed, tickets_of, consume, unused, admitted, in_order}
use marauder.Live.Tickets.Admits.{consume-admitted}
use marauder.Sonarr.{HistoryRecord, is_newer, unique_records}
use marauder.Sonarr.Batch.{unique_records-newest}
use marauder.Sonarr.Order.{count_url, is_sorted}
use marauder.Sonarr.Upsert.{Instance, Existing, handle_existing}
use marauder.Sonarr.Poll.{absent, Services, poll_once, cursor_after}
use marauder.Sonarr.Poll.Cursor.{poll_once-cursor}
use marauder.Redaction.{Edit, Piece, kept, hidden, write_pieces, final_edits}
use marauder.Redaction.Merge.{Fits, covers}
use marauder.Redaction.Written.{kept_bytes, uncovered, write_pieces-hides}
use marauder.Examples.Settings.{plain_strings}
use marauder.Examples.Accounts.{mirror_urls, forum}

abbrev used_ticket : List Act
used_ticket = consumed (codes "a") 6 ∷ issued (codes "b") 2 5 ∷ issued (codes "a") 1 4 ∷ []

used_in_order : in_order 7 used_ticket ≡ true
unfolding in_order
used_in_order = refl

ticket_example :
    (consume (codes "b") 7 (tickets_of used_ticket)).0 ≡ admitted 7 (unused (codes "b") used_ticket)
ticket_example = consume-admitted (codes "b") 7 used_ticket used_in_order

ticket_run : (consume (codes "b") 7 (tickets_of used_ticket)).0 ≡ some 2
unfolding consume tickets_of text_eq
ticket_run = refl

used_run : (consume (codes "a") 7 (tickets_of used_ticket)).0 ≡ none
unfolding consume tickets_of text_eq
used_run = refl

abbrev grab : ℕ → ℕ → HistoryRecord
grab id date = record {
  id = id;
  date = date;
  url = codes "m";
  infohash = codes "h";
  source_title = codes "Show";
}

abbrev two_grabs : List HistoryRecord
two_grabs = grab 1 5 ∷ grab 2 8 ∷ []

batch_example :
    (is_sorted (unique_records two_grabs) ≡ true)
    × All (λ r. text_eq r.url [] ≡ false → count_url r.url (unique_records two_grabs) ≡ 1) two_grabs
    × All
        (λ c. All (λ r. text_eq r.url c.url ≡ true → is_newer r c ≡ false) two_grabs)
        (unique_records two_grabs)
batch_example = unique_records-newest two_grabs

batch_run : unique_records two_grabs ≡ grab 2 8 ∷ []
unfolding unique_records text_eq
batch_run = refl

abbrev sonarr : Instance
sonarr = record {
  id = 1;
  has_address = true;
  owner = some 3;
  last_seen_at = some 2;
  poll_interval_sec = pos 60;
  allowed_trackers = [];
  default_client_id = some 4;
  default_category = [];
  default_download_dir = [];
  update_existing = true;
  default_replace_on_update = none;
  default_replace_delete_data = none;
}

abbrev there_already : Existing
there_already = record {
  client_id = none;
  category = [];
  download_dir = [];
  extra = (codes "source", word (codes "sonarr")) ∷ [];
}

abbrev brought_up : Existing
brought_up = record {
  client_id = some 4;
  category = [];
  download_dir = [];
  extra =
      (codes "source", word (codes "sonarr"))
      ∷ (codes "sonarr_infohash", word (codes "h"))
      ∷ (codes "sonarr_source_title", word (codes "Show"))
      ∷ [];
}

existing_run : handle_existing sonarr there_already (grab 1 5) ≡ some brought_up
unfolding handle_existing text_eq marauder.Topics.Create.put
existing_run = refl

abbrev services : Services
services = record {
  urls = mirror_urls;
  strings = plain_strings;
  find_tracker = λ u. some forum;
  get_by_url = λ u. absent;
  settings = none;
  credentials = λ tr. none;
  store = λ t. new_id 7;
}

cursor_example :
    (c : ℕ) × (cursor_after (some 2) (poll_once services none 9 (λ n. some two_grabs) sonarr)
      ≡ some c)
    × (2 ≤ c)
    × All (λ r. r.date ≤ c) two_grabs
cursor_example =
    poll_once-cursor services none 9 2 (λ n. some two_grabs) sonarr two_grabs refl refl refl

abbrev secret_page : Text
secret_page = codes "user=bob pass=bob"

abbrev two_edits : List Edit
two_edits =
    record { start = 14; end = 17; is_drop = false }
    ∷ record { start = 5; end = 8; is_drop = false }
    ∷ []

two_edits-Fits : All (Fits (length secret_page)) two_edits
two_edits-Fits = (
  record { nonempty = omega arith; inside = omega arith },
  (record { nonempty = omega arith; inside = omega arith }, tt),
)

hides_example :
    (ps : List Piece) × (write_pieces secret_page 0 (final_edits secret_page two_edits) ≡ some ps)
    × (kept_bytes ps ≡ uncovered (final_edits secret_page two_edits) 0 secret_page)
    × ((i : ℕ) → covers two_edits i ≡ true → covers (final_edits secret_page two_edits) i ≡ true)
hides_example = write_pieces-hides secret_page two_edits two_edits-Fits

hides_run :
    write_pieces secret_page 0 (final_edits secret_page two_edits)
    ≡ some (kept (codes "user=") ∷ hidden ∷ kept (codes " pass=") ∷ hidden ∷ kept [] ∷ [])
unfolding write_pieces final_edits has_prefix
hides_run = refl
