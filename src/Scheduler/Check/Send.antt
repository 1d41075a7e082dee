-- ===== src/Scheduler/Check/Send.antt =====
-- `submitToClient`, `sendViaClient` and `recordDelivery` of backend/internal/scheduler/scheduler.go: how
-- one payload is handed to a client.
pub mod Guards
use marauder.Prelude.{
  not, Option, none, some, List, [], ◌∷◌, ◌++◌, if◌then◌else◌, is_some, Text, codes, text_eq,
}
use marauder.Domain.{TorrentFile}
use marauder.Infohash.{Scan, ok, fail, panicked, out_of_fuel, from_payload}
use marauder.Scheduler.Classify.{Failure, plain_failure, wrap_delivery, wrap_persist}
use marauder.Scheduler.Delivery.{Topic, DeliveryPlan, FolderPlan, add_paused, files_at_record}
use marauder.Scheduler.Delivery.Plan.{Payload, plan_delivery}
use marauder.Scheduler.Delivery.FolderName.{plan_folder_name}
use marauder.Scheduler.Delivery.Finish.{finish_delivery}
use marauder.Scheduler.Check.{
  Watched, got, broke, ClientRow, verified, added, delivery_recorded, finished, Calls, World,
}

-- How a submission ends; `crashed` is a panic, which no caller recovers from.
pub data Sent : Type 0 where
  sent : (note : Text) → Sent
  refused : Failure → Sent
  crashed : Sent

module _ (w : World) where
  -- `recordDelivery`, once the infohash is computed; `none` is a panic.
  unfoldable pub record_delivery :
      Watched → (label : Text) → Option (List TorrentFile) → Scan Text → Calls → Option Calls
  record_delivery t label files (ok hash) tr =
      some (delivery_recorded hash (if text_eq label [] then t.display_name else label) files ∷ tr)
  record_delivery t label files (fail e) tr = some tr
  record_delivery t label files panicked tr = none
  record_delivery t label files out_of_fuel tr = none

  -- `if s.deliveries == nil`.
  unfoldable pub record_if :
      Watched → (label : Text) → Option (List TorrentFile) → Payload → Calls → Option Calls
  unfolding record_delivery
  record_if t label files payload tr =
      let recorded =
        record_delivery t label files
          (from_payload w.packages payload.magnet_uri payload.torrent_file) tr in
      if is_some w.latest then recorded else some tr

  -- `sendViaClient` behind the `Add` that succeeded.
  unfoldable pub send_added :
      Watched → DeliveryPlan → Payload → (label : Text) → Calls → Sent × Calls
  unfolding record_if
  send_added t plan payload label tr = elim (record_if t label (files_at_record plan) payload tr) [
    | none ↦ (crashed, tr)
    | some tr' ↦
        let fin = finish_delivery (w.answers tr') t.topic plan [] in
        (sent fin.0, finished fin.1 ∷ tr')
  ]

  -- `sendViaClient` from the `Add` on.
  unfoldable pub send_checked :
      Watched → DeliveryPlan → Payload → (label : Text) → Calls → Sent × Calls
  unfolding send_added
  send_checked t plan payload label tr =
      let a = w.add tr in
      let tr' = added payload (add_paused plan) a ∷ tr in
      elim a [
        | some e ↦ (refused (wrap_delivery e), tr')
        | none ↦ send_added t plan payload label tr'
      ]

  -- `sendViaClient` from the check of the topic's state on.
  unfoldable pub send_planned :
      Watched → DeliveryPlan → Payload → (label : Text) → Calls → Sent × Calls
  unfolding send_checked
  send_planned t plan payload label tr =
      let v = w.verify tr in
      let tr' = verified v ∷ tr in
      let handed = send_checked t plan payload label tr' in
      elim v [ none ↦ handed | some e ↦ if e.stale_check_result then (refused e, tr') else handed ]

  -- `planFolderName`, and the rest with the topic that it leaves.
  unfoldable pub send_named :
      Watched
      → DeliveryPlan
      → Payload
      → (label : Text) → Scan (Option FolderPlan × Topic)
      → Calls
      → Sent × Watched × Calls
  unfolding send_planned
  send_named t plan payload label (ok (fp, topic)) tr =
      let t' = record t { topic = topic } in
      let r = send_planned t' (record plan { folder = fp }) payload label tr in (r.0, t', r.1)
  send_named t plan payload label (fail e) tr = (crashed, t, tr)
  send_named t plan payload label panicked tr = (crashed, t, tr)
  send_named t plan payload label out_of_fuel tr = (crashed, t, tr)

  -- `planDelivery`, and the rest.
  unfoldable pub send_plan :
      ClientRow
      → Watched
      → Payload
      → (label : Text) → Scan DeliveryPlan
      → Calls
      → Sent × Watched × Calls
  unfolding send_named
  send_plan row t payload label (ok plan) tr =
      let src = record w.sources {
        client_id = some row.id;
        can_select = row.can_select;
        can_rename = row.can_rename;
      } in
      send_named t plan payload label
        (plan_folder_name src w.packages t.topic w.is_episodic payload plan.files) tr
  send_plan row t payload label (fail e) tr = (crashed, t, tr)
  send_plan row t payload label panicked tr = (crashed, t, tr)
  send_plan row t payload label out_of_fuel tr = (crashed, t, tr)

  -- `sendViaClient`.
  unfoldable pub send_via_client :
      ClientRow → Watched → Payload → (label : Text) → Calls → Sent × Watched × Calls
  unfolding send_plan
  send_via_client row t payload label tr =
      let missing = codes "client plugin \"" ++ row.name ++ codes "\" not installed" in
      if not row.is_installed then (refused (plain_failure missing), t, tr) else elim row.decrypts [
        | some e ↦ (refused (record e { text = codes "decrypt client config: " ++ e.text }), t, tr)
        | none ↦
            send_plan row t payload label
              (plan_delivery w.packages w.latest t.topic w.is_episodic row.can_select payload) tr
      ]

  -- `submitToClient`.
  unfoldable pub submit_to_client :
      Watched → Payload → (label : Text) → Calls → Sent × Watched × Calls
  unfolding send_via_client
  submit_to_client t payload label tr = elim t.client_id [
    | none ↦ elim (w.default_client tr) [
      | none ↦ (
        refused (plain_failure (codes "no client configured for this topic and no default client")),
        t,
        tr,
      )
      | some row ↦ send_via_client row t payload label tr
    ]
    | some id ↦ elim (w.client_by_id tr id) [
      | broke e ↦
          (refused (wrap_persist (record e { text = codes "load client: " ++ e.text })), t, tr)
      | got row ↦ send_via_client row t payload label tr
    ]
  ]
