-- ===== src/Examples/Series.antt =====
-- Episodes of a series, and its checks, at concrete inputs.
use marauder.Prelude.{
  ◌≡◌, refl, ◌≢◌, false, none, some, List, [], ◌∷◌, ◌++◌, arith, if◌then◌else◌, length, take, drop,
  Text, codes, text_eq,
}
use marauder.Prelude.Decimal.{itoa}
use marauder.Prelude.Int.{pos}
use marauder.Extra.{whole, texts, Extras, get_int, get_strings}
use marauder.Scheduler.Check.{Found}
use marauder.Trackers.Lostfilm.{EpisodeRef, packed_id, read_packed, Page, check_series}
use marauder.Trackers.Lostfilm.Packed.{read_packed-packed_id}
use marauder.Trackers.Lostfilm.Pending.{check_series-marked, check_series-differs}
use marauder.Trackers.Lostfilm.Collect.{Distinct}

abbrev sixth : EpisodeRef
sixth = record { show_id = codes "791"; season = 2; episode = 6 }

packed_run : packed_id sixth ≡ codes "791002006"
unfolding packed_id itoa
packed_run = refl

packed_example :
    read_packed (packed_id sixth) ≡ some (codes "791" ++ b'-' ∷ (itoa 2 ++ b'-' ∷ itoa 6), sixth)
packed_example =
    read_packed-packed_id sixth (omega arith) (omega arith) (omega arith) (omega arith)
      (omega arith)

-- Three episodes, the newest first and one of them twice, and one that is no episode.
abbrev series_page : Page
series_page = record {
  title = codes "Show";
  codes =
      (codes "7", codes "2", codes "1")
      ∷ (codes "7", codes "1", codes "2")
      ∷ (codes "7", codes "1", codes "2")
      ∷ (codes "7", codes "1", codes "0")
      ∷ (codes "7", codes "1", codes "1")
      ∷ [];
  packed = [];
  has_magnet = false;
}

-- A topic from the second episode on, with these downloaded.
abbrev topic_extra : List Text → Extras
topic_extra done key =
    if text_eq key (codes "downloaded_episodes")
    then some (texts done)
    else if text_eq key (codes "start_season")
    then some (whole (pos 1))
    else if text_eq key (codes "start_episode")
    then some (whole (pos 2))
    else none

abbrev both_pending : Found
both_pending = record {
  hash = codes "eps:3/done:0/pending:2";
  display_name = codes "Show";
  pending = codes "7001002" ∷ (codes "7002001" ∷ []);
  human = codes "s01e02" ∷ (codes "s02e01" ∷ []);
}

abbrev one_pending : Found
one_pending = record {
  hash = codes "eps:3/done:1/pending:1";
  display_name = codes "Show";
  pending = codes "7002001" ∷ [];
  human = codes "s02e01" ∷ [];
}

first_run : check_series series_page (topic_extra []) ≡ some both_pending
unfolding check_series text_eq itoa get_strings get_int
first_run = refl

second_run : check_series series_page (topic_extra (codes "7001002" ∷ [])) ≡ some one_pending
unfolding check_series text_eq itoa get_strings get_int
second_run = refl

both-Distinct : Distinct both_pending.pending
unfolding text_eq
both-Distinct = (refl, (refl, tt))

done_run :
    get_strings (topic_extra (codes "7001002" ∷ [])) (codes "downloaded_episodes")
    ≡ get_strings (topic_extra []) (codes "downloaded_episodes") ++ take 1 both_pending.pending
unfolding get_strings text_eq
done_run = refl

floor_run :
    (get_int (topic_extra (codes "7001002" ∷ [])) (codes "start_season")
      ≡ get_int (topic_extra []) (codes "start_season"))
    × (get_int (topic_extra (codes "7001002" ∷ [])) (codes "start_episode")
        ≡ get_int (topic_extra []) (codes "start_episode"))
unfolding get_int text_eq
floor_run = (refl, refl)

marked_example :
    (f' : Found) × (check_series series_page (topic_extra (codes "7001002" ∷ [])) ≡ some f')
    × (f'.pending ≡ drop 1 both_pending.pending)
    × (f'.human ≡ drop 1 both_pending.human)
marked_example =
    check_series-marked series_page (topic_extra []) (topic_extra (codes "7001002" ∷ [])) 1
      both_pending first_run both-Distinct done_run floor_run.0 floor_run.1

lengths_differ : length both_pending.pending ≢ length one_pending.pending
lengths_differ e = absurd (omega (arith, e))

differs_example : both_pending.hash ≢ one_pending.hash
differs_example =
    check_series-differs series_page series_page (topic_extra [])
      (topic_extra (codes "7001002" ∷ [])) both_pending one_pending first_run second_run
      lengths_differ
