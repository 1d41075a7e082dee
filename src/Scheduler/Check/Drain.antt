-- ===== src/Scheduler/Check/Drain.antt =====
-- `downloadAllPending` of backend/internal/scheduler/scheduler.go: the payloads of one tick.
pub mod Keeps
pub mod Marks
pub mod Rounds
use marauder.Prelude.{
  ℕ, zero, suc, Bool, true, false, not, Option, none, some, List, [], ◌∷◌, ◌++◌, ◌==◌,
  if◌then◌else◌, length, Text, text_eq,
}
use marauder.Prelude.Int.{ℤ, pos, negsuc}
use marauder.Infohash.{Scan, ok, fail, panicked, out_of_fuel, from_payload}
use marauder.Scheduler.Classify.{Failure, wrap_persist}
use marauder.Scheduler.Delivery.Plan.{Payload}
use marauder.Scheduler.Check.{Watched, Found, got, broke, downloaded, marked_one, Calls, World}
use marauder.Scheduler.Check.Send.{Sent, sent, refused, crashed, submit_to_client}

-- What `downloadAllPending` has so far, and how it ended.
pub record Drained : Type 0 where
  pub delivered : List Text
  pub hashes : List Text
  pub note : Text
  pub error : Option Failure
  pub is_crashed : Bool

abbrev pub nothing_yet : Drained
nothing_yet = record { delivered = []; hashes = []; note = []; error = none; is_crashed = false }

-- `cfg.SchedulerMaxEpisodesPerTick`, or 25.
unfoldable pub max_per_tick : ℤ → ℕ
max_per_tick (pos n) = if n == 0 then 25 else n
max_per_tick (negsuc n) = 25

unfoldable pub head_or_empty : List Text → Text
head_or_empty [] = []
head_or_empty (h ∷ hs) = h

unfoldable pub rest_of : List Text → List Text
rest_of [] = []
rest_of (h ∷ hs) = hs

-- The payload's infohash beside those delivered before; a panic ends the loop.
unfoldable pub add_hash_of : Scan Text → Drained → Drained
add_hash_of (ok h) d = if text_eq h [] then d else record d { hashes = d.hashes ++ h ∷ [] }
add_hash_of (fail e) d = d
add_hash_of panicked d = record d { is_crashed = true }
add_hash_of out_of_fuel d = record d { is_crashed = true }

module _ (w : World) where
  -- What the loop has once a payload is submitted.
  unfoldable pub count_delivery :
      Watched → (label : Text) → Payload → (note : Text) → Drained → Drained
  unfolding add_hash_of
  count_delivery t label payload note d =
      add_hash_of (from_payload w.packages payload.magnet_uri payload.torrent_file) (record d {
        delivered = d.delivered ++ (if text_eq label [] then t.display_name else label) ∷ [];
        note = note;
      })

  -- The end of a round: the mark of the episode that was delivered. The Boolean says whether another
  -- round follows.
  unfoldable pub mark_delivered : List Text → Drained → Calls → Bool × Drained × Calls
  mark_delivered [] d tr = (false, d, tr)
  mark_delivered (p ∷ ps) d tr =
      let e = w.mark_one tr p in
      let tr' = marked_one p e ∷ tr in
      if d.is_crashed then (false, d, tr) else elim e [
        | none ↦ (not (length ps == 0), d, tr')
        | some e ↦
            if e.stale_check_result
            then (false, d, tr')
            else (false, record d { error = some (wrap_persist e) }, tr')
      ]

  -- The end of a round, from the answer of `submitToClient` on.
  unfoldable pub after_submit :
      List Text
      → (label : Text) → Payload
      → Drained
      → Sent × Watched × Calls
      → Bool × Drained × Watched × Calls
  unfolding count_delivery mark_delivered
  after_submit pending label payload d (refused e, t, tr) =
      if e.stale_check_result
      then (false, d, t, tr)
      else (false, record d { error = some e }, t, tr)
  after_submit pending label payload d (crashed, t, tr) =
      (false, record d { is_crashed = true }, t, tr)
  after_submit pending label payload d (sent note, t, tr) =
      let r = mark_delivered pending (count_delivery t label payload note d) tr in
      (r.0, r.1, t, r.2)

  -- One round of the loop, for the episodes that are pending.
  unfoldable pub drain_round :
      List Text → (label : Text) → Drained → Watched → Calls → Bool × Drained × Watched × Calls
  unfolding after_submit
  drain_round pending label d t tr = elim (w.download tr pending) [
    | broke e ↦
        if e.no_pending_episodes
        then (false, d, t, downloaded ∷ tr)
        else (false, record d { error = some e }, t, downloaded ∷ tr)
    | got payload ↦
        after_submit pending label payload d (submit_to_client w t payload label (downloaded ∷ tr))
  ]

  -- The loop, for at most as many rounds as the first argument says.
  unfoldable pub drain :
      ℕ → (pending human : List Text) → Drained → Watched → Calls → Drained × Watched × Calls
  unfolding drain_round
  drain zero pending human d t tr = (d, t, tr)
  drain (suc n) pending human d t tr =
      let (goes_on, d', t', tr') = drain_round pending (head_or_empty human) d t tr in
      let rest = drain n (rest_of pending) (rest_of human) d' t' tr' in
      if goes_on then rest else (d', t', tr')

  -- `downloadAllPending`.
  unfoldable pub download_all_pending : Found → Watched → Calls → Drained × Watched × Calls
  unfolding drain
  download_all_pending found t tr =
      drain (max_per_tick w.max_episodes) found.pending found.human nothing_yet t tr
