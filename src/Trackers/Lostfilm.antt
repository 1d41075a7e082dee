-- ===== src/Trackers/Lostfilm.antt =====
-- Episodes and checks of backend/internal/plugins/trackers/lostfilm (lostfilm_parse.go, lostfilm.go).
-- The matches of the regular expressions in a page are arguments.
pub mod Packed
pub mod Collect
pub mod Pending
use marauder.Prelude.{
  ℕ, zero, suc, ◌-◌, min, Bool, ◌&&◌, ◌||◌, Option, none, some, List, [], ◌∷◌, ◌++◌, map, ltb, ◌==◌,
  if◌then◌else◌, length, take, drop, any, Text, codes, text_eq,
}
use marauder.Prelude.Decimal.{parse_uint, itoa}
use marauder.Prelude.Int.{ℤ, pos, ltb_ℤ, eq_ℤ, max_int}
use marauder.Extra.{Extras, get_int, get_strings}
use marauder.Scheduler.Check.{Found}

-- `episodeRef`.
pub record EpisodeRef : Type 0 where
  pub show_id : Text
  pub season : ℕ
  pub episode : ℕ

unfoldable pub zeros : ℕ → Text
zeros zero = []
zeros (suc n) = b'0' ∷ zeros n

-- `%0wd` of a number that is not negative.
unfoldable pub padded : (w : ℕ) → ℕ → Text
unfolding zeros
padded w n = zeros (w - length (itoa n)) ++ itoa n

-- `PackedID`.
unfoldable pub packed_id : EpisodeRef → Text
unfolding padded
packed_id e = e.show_id ++ (padded 3 e.season ++ padded 3 e.episode)

-- `SeasonEpisodeKey`.
unfoldable pub season_episode_key : EpisodeRef → Text
unfolding padded
season_episode_key e = b's' ∷ (padded 2 e.season ++ b'e' ∷ padded 2 e.episode)

-- `strconv.Atoi` of digits, without its error: a value out of range is the largest `int`.
unfoldable pub digits_value : Text → ℕ
unfolding parse_uint
digits_value s = elim (parse_uint s) [ none ↦ 0 | some n ↦ min n max_int ]

-- One match of `data-code`, with the key by which it is told from the others; `none` where it is skipped.
unfoldable pub read_code : Text × Text × Text → Option (Text × EpisodeRef)
unfolding digits_value
read_code (show, season, episode) =
    let s = digits_value season in
    let e = digits_value episode in
    if s == 0 || e == 0
    then none
    else some (
      show ++ b'-' ∷ (season ++ b'-' ∷ episode),
      record { show_id = show; season = s; episode = e },
    )

-- One match of `data-episode`.
unfoldable pub read_packed : Text → Option (Text × EpisodeRef)
unfolding digits_value
read_packed packed =
    let n = length packed in
    let e = digits_value (drop (n - 3) packed) in
    let s = digits_value (take 3 (drop (n - 6) packed)) in
    let show = take (n - 6) packed in
    if ltb n 7 || (e == 0 || s == 0 || text_eq show [])
    then none
    else some (
      show ++ b'-' ∷ (itoa s ++ b'-' ∷ itoa e),
      record { show_id = show; season = s; episode = e },
    )

-- The matches that are kept, each key once.
unfoldable pub first_of_each :
    (seen : List Text) → List (Option (Text × EpisodeRef)) → List EpisodeRef
first_of_each seen [] = []
first_of_each seen (none ∷ ms) = first_of_each seen ms
first_of_each seen (some (key, e) ∷ ms) =
    let rest = first_of_each seen ms in
    let more = e ∷ first_of_each (key ∷ seen) ms in if any (text_eq key) seen then rest else more

-- The order of `sort.Slice`.
unfoldable pub airs_before : EpisodeRef → EpisodeRef → Bool
airs_before a b = if a.season == b.season then ltb a.episode b.episode else ltb a.season b.season

unfoldable pub insert_episode : EpisodeRef → List EpisodeRef → List EpisodeRef
unfolding airs_before
insert_episode a [] = a ∷ []
insert_episode a (b ∷ es) =
    let later = insert_episode a es in if airs_before b a then b ∷ later else a ∷ (b ∷ es)

-- `sort.Slice`. Episodes of one season and number keep their order here; the library promises none.
unfoldable pub sort_episodes : List EpisodeRef → List EpisodeRef
unfolding insert_episode
sort_episodes [] = []
sort_episodes (e ∷ es) = insert_episode e (sort_episodes es)

-- A page, as the regular expressions and `cleanSeriesTitle` read it.
pub record Page : Type 0 where
  pub title : Text
  pub codes : List (Text × Text × Text)
  pub packed : List Text
  pub has_magnet : Bool

-- `parseEpisodes`.
unfoldable pub parse_episodes : Page → List EpisodeRef
unfolding first_of_each read_code read_packed sort_episodes
parse_episodes page =
    let out = first_of_each [] (map read_code page.codes) in
    let fallback = first_of_each [] (map read_packed page.packed) in
    sort_episodes (if length out == 0 then fallback else out)

-- The two tests of the floor in `Check`.
unfoldable pub is_below_floor : (start_season start_episode : ℤ) → EpisodeRef → Bool
is_below_floor ss se e =
    ltb_ℤ (pos 0) ss
    && (ltb_ℤ (pos e.season) ss
        || (eq_ℤ (pos e.season) ss && ltb_ℤ (pos 0) se && ltb_ℤ (pos e.episode) se))

-- The loop of `Check`: the packed ids and the labels of what is pending.
unfoldable pub collect_pending :
    (start_season start_episode : ℤ)
    → (downloaded : List Text) → List EpisodeRef
    → List Text × List Text
unfolding is_below_floor packed_id season_episode_key
collect_pending ss se downloaded [] = ([], [])
collect_pending ss se downloaded (e ∷ es) =
    let (ps, hs) = collect_pending ss se downloaded es in
    if is_below_floor ss se e || any (text_eq (packed_id e)) downloaded
    then (ps, hs)
    else (packed_id e ∷ ps, season_episode_key e ∷ hs)

-- The hash of `Check`.
unfoldable pub check_hash : (total downloaded pending : ℕ) → Text
check_hash n d p =
    codes "eps:" ++ (itoa n ++ (codes "/done:" ++ (itoa d ++ (codes "/pending:" ++ itoa p))))

-- `Check` behind the fetch of the page; `none` is its error.
unfoldable pub check_series : Page → Extras → Option Found
unfolding parse_episodes collect_pending check_hash
check_series page extra =
    let episodes = parse_episodes page in
    let downloaded = get_strings extra (codes "downloaded_episodes") in
    let (ps, hs) =
      collect_pending (get_int extra (codes "start_season")) (get_int extra (codes "start_episode"))
        downloaded episodes in
    if length episodes == 0
    then (if page.has_magnet
        then some (record {
          hash = codes "magnet-fallback";
          display_name = page.title;
          pending = [];
          human = [];
        })
        else none)
    else some (record {
      hash = check_hash (length episodes) (length downloaded) (length ps);
      display_name = page.title;
      pending = ps;
      human = hs;
    })
