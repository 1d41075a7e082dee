-- ===== src/Examples/Events.antt =====
-- Events, their notifiers and the watcher of downloads at concrete inputs.
use marauder.Prelude.{
  ◌≤◌, ◌<◌, ◌≡◌, refl, ◌≢◌, true, false, ◌&&◌, none, some, [], ◌∷◌, arith, ltb, if◌then◌else◌,
  lt→ltb, codes, text_eq,
}
use marauder.Prelude.Int.{pos}
use marauder.Events.{
  policy_for, subscribed, NotifierRow, BusEvent, recorded, sent, published, Sinks, emit,
}
use marauder.Events.Routing.{contacted, is_addressed, emit-contacted, subscribed-legacy}
use marauder.Progress.{
  resolved, asked, marked, completed, WatcherCalls, Outside, polls, new_watcher,
}
use marauder.Progress.Once.{count_completed, count_won, polls_once}

abbrev phone : NotifierRow
phone = record {
  id = 1;
  events = codes "updated" ∷ [];
  is_default = true;
  is_known = true;
  decrypts = true;
}

abbrev errors_only : NotifierRow
errors_only = record {
  id = 2;
  events = codes "error" ∷ [];
  is_default = true;
  is_known = true;
  decrypts = true;
}

abbrev sinks : Sinks
sinks = record {
  has_recorder = true;
  has_notifier = true;
  has_publisher = true;
  record_event = λ tr. some (pos 5);
  list_for_user = λ tr user. some (errors_only ∷ (phone ∷ []));
  accepts = λ tr id. false;
}

abbrev release : BusEvent
release = record {
  user = 3;
  topic = some 4;
  notifier = none;
  type = codes "release.found";
  severity = [];
  title = codes "t";
}

emit_run :
    emit sinks release []
    ≡ published 3 (codes "release.found") (codes "info") (pos 5)
      ∷ (sent 1 (codes "release.found") false
          ∷ (recorded 4 3 (codes "release.found") (codes "info") (codes "t") ∷ []))
unfolding emit policy_for text_eq
emit_run = refl

contacted_example : contacted 1 (emit sinks release []) ≡ (
    (policy_for (codes "release.found")).notifiable
    && is_addressed none (codes "release.found") (errors_only ∷ (phone ∷ [])) 1)
contacted_example = emit-contacted sinks release (errors_only ∷ (phone ∷ [])) 1 refl (λ tr. refl)

name_run :
    (text_eq (codes "download.progress") [] ≡ false)
    × (text_eq (codes "updated") (codes "download.progress") ≡ false)
    × (text_eq (codes "error") (codes "download.progress") ≡ false)
unfolding text_eq
name_run = (refl, refl, refl)

legacy_example :
    subscribed (codes "updated" ∷ (codes "error" ∷ [])) (codes "download.progress")
    ≡ (policy_for (codes "download.progress")).notifiable
legacy_example = subscribed-legacy (codes "download.progress") name_run.0 name_run.1 name_run.2

-- A database that completes each delivery once, and a client that has downloaded all.
abbrev seeding : Outside
seeding = record {
  list_in_flight =
      λ tr. some (record { delivery = 8; user = 3; client = some 2; infohash = codes "ab" } ∷ []);
  resolve = λ tr client user. true;
  status = λ tr client hashes.
      some (record { hash = codes "ab"; percent = 10; state = codes "seeding" } ∷ []);
  mark_completed = λ tr d. if ltb 0 (count_won d tr) then some false else some true;
  to_lower = λ s. s;
  full = 10;
}

seeding_once : (tr : WatcherCalls) → 0 < count_won 8 tr → seeding.mark_completed tr 8 ≢ some true
seeding_once tr l e = let q = lt→ltb 0 (count_won 8 tr) l in ground (arith, q, e)

polls_run :
    (polls seeding 2 new_watcher).acts
    ≡ marked 8 (some false)
      ∷ (asked 2 (codes "ab" ∷ [])
          ∷ (resolved 2 3
              ∷ (completed 8
                  ∷ (marked 8 (some true) ∷ (asked 2 (codes "ab" ∷ []) ∷ (resolved 2 3 ∷ []))))))
unfolding polls text_eq count_won
polls_run = refl

once_example :
    (count_completed 8 (polls seeding 2 new_watcher).acts ≤ 1)
    × (count_completed 8 (polls seeding 2 new_watcher).acts
        ≡ count_won 8 (polls seeding 2 new_watcher).acts)
once_example = polls_once seeding 8 2 seeding_once
