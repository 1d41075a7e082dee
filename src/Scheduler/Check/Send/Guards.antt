-- ===== src/Scheduler/Check/Send/Guards.antt =====
-- The calls that `submitToClient` makes.
use marauder.Prelude.{
  ◌≡◌, refl, subst, inl, inr, true, Option, none, some, List, [], ◌∷◌, ◌++◌, if◌then◌else◌, is_some,
  Bool-cases, Option-cases, Text, codes, text_eq,
}
use marauder.Scheduler.Delivery.Finish.{finish_delivery}
use marauder.Infohash.{Scan, ok, fail, panicked, out_of_fuel, from_payload}
use marauder.Scheduler.Delivery.{DeliveryPlan, FolderPlan, Topic, add_paused, files_at_record}
use marauder.Scheduler.Delivery.Plan.{Payload}
use marauder.Domain.{TorrentFile}
use marauder.Scheduler.Classify.{Failure, wrap_persist}
use marauder.Scheduler.Check.Send.{
  Sent, refused, record_delivery, record_if, send_checked, send_added, send_planned, send_named,
  send_plan, send_via_client, submit_to_client,
}
use marauder.Scheduler.Check.{
  Watched, Answer, got, broke, ClientRow, verified, added, delivery_recorded, finished, Calls,
  World, is_stale,
}
use marauder.Scheduler.Check.Kinds.{
  Within, same, next, Within-trans, sends, is_send, may_follow, is_add, is_current,
}

module _ (w : World) where
  -- The calls that an option holds go on with calls of a submission, if it holds any.
  abbrev Goes : Calls → Option Calls → Type 0
  Goes old none = Unit
  Goes old (some new) = Within sends old new

  record_delivery-Goes :
      (t : Watched) (label : Text) (files : Option (List TorrentFile)) (h : Scan Text) (old : Calls)
      → Goes old (record_delivery w t label files h old)
  unfolding record_delivery sends is_send may_follow is_add
  record_delivery-Goes t label files (ok h) old =
      next (delivery_recorded h (if text_eq label [] then t.display_name else label) files) refl
        same
  record_delivery-Goes t label files (fail h) old = same
  record_delivery-Goes t label files panicked old = tt
  record_delivery-Goes t label files out_of_fuel old = tt

  record_if-Goes :
      (t : Watched) (label : Text) (files : Option (List TorrentFile)) (payload : Payload)
      (old : Calls)
      → Goes old (record_if w t label files payload old)
  unfolding record_if
  record_if-Goes t label files payload old = elim (Bool-cases (is_some w.latest)) [
    | inl e ↦ rw e (
        record_delivery-Goes t label files
          (from_payload w.packages payload.magnet_uri payload.torrent_file) old)
    | inr e ↦ rw e same
  ]

  send_added-Within :
      (t : Watched) (plan : DeliveryPlan) (payload : Payload) (label : Text) (old : Calls)
      → Within sends old (send_added w t plan payload label old).1
  unfolding send_added sends is_send may_follow is_add
  send_added-Within t plan payload label old =
      elim (Option-cases (record_if w t label (files_at_record plan) payload old)) [
        | inl e ↦ simp (e, send_added) same
        | inr (new, e) ↦
            simp (e, send_added)
              (next (finished (finish_delivery (w.answers new) t.topic plan []).1) refl
                (subst (Goes old) e (record_if-Goes t label (files_at_record plan) payload old)))
      ]

  send_checked-Within :
      (t : Watched) (plan : DeliveryPlan) (payload : Payload) (label : Text) (old : Calls)
      → is_current old ≡ true
      → Within sends old (send_checked w t plan payload label old).1
  unfolding send_checked sends is_send may_follow is_add
  send_checked-Within t plan payload label old c = elim (Option-cases (w.add old)) [
    | inl e ↦
        simp (e, send_checked)
          (Within-trans (handed none)
            (send_added-Within t plan payload label (added payload (add_paused plan) none ∷ old)))
    | inr (f, e) ↦ simp (e, send_checked) (handed (some f))
  ]
    where
      handed : (a : Option Failure) → Within sends old (added payload (add_paused plan) a ∷ old)
      handed a = next (added payload (add_paused plan) a) (rw c refl) same

  send_planned-Within :
      (t : Watched) (plan : DeliveryPlan) (payload : Payload) (label : Text) (old : Calls)
      → Within sends old (send_planned w t plan payload label old).1
  unfolding send_planned sends is_send may_follow is_add is_current is_stale
  send_planned-Within t plan payload label old = elim (Option-cases (w.verify old)) [
    | inl e ↦
        simp (e, send_planned)
          (Within-trans (asked none)
            (send_checked-Within t plan payload label (verified none ∷ old) refl))
    | inr (f, e) ↦ elim (Bool-cases f.stale_check_result) [
      | inl g ↦ simp (e, g, send_planned) (asked (some f))
      | inr g ↦
          simp (e, g, send_planned)
            (Within-trans (asked (some f))
              (send_checked-Within t plan payload label (verified (some f) ∷ old) (rw g refl)))
    ]
  ]
    where
      asked : (v : Option Failure) → Within sends old (verified v ∷ old)
      asked v = next (verified v) refl same

  send_named-Within :
      (t : Watched) (plan : DeliveryPlan) (payload : Payload) (label : Text)
      (p : Scan (Option FolderPlan × Topic)) (old : Calls)
      → Within sends old (send_named w t plan payload label p old).2
  unfolding send_named
  send_named-Within t plan payload label (ok (fp, topic)) old =
      send_planned-Within (record t { topic = topic }) (record plan { folder = fp }) payload label
        old
  send_named-Within t plan payload label (fail e) old = same
  send_named-Within t plan payload label panicked old = same
  send_named-Within t plan payload label out_of_fuel old = same

  send_plan-Within :
      (row : ClientRow) (t : Watched) (payload : Payload) (label : Text) (p : Scan DeliveryPlan)
      (old : Calls)
      → Within sends old (send_plan w row t payload label p old).2
  unfolding send_plan
  send_plan-Within row t payload label (ok plan) old = send_named-Within t plan payload label _ old
  send_plan-Within row t payload label (fail e) old = same
  send_plan-Within row t payload label panicked old = same
  send_plan-Within row t payload label out_of_fuel old = same

  send_via_client-Within :
      (row : ClientRow) (t : Watched) (payload : Payload) (label : Text) (old : Calls)
      → Within sends old (send_via_client w row t payload label old).2
  unfolding send_via_client
  send_via_client-Within row t payload label old = elim (Bool-cases row.is_installed) [
    | inl e ↦ elim (Option-cases row.decrypts) [
      | inl d ↦ rw (e, d) (send_plan-Within row t payload label _ old)
      | inr (f, d) ↦ rw (e, d) same
    ]
    | inr e ↦ rw e same
  ]

  pub submit_to_client-Within :
      (t : Watched) (payload : Payload) (label : Text) (old : Calls)
      → Within sends old (submit_to_client w t payload label old).2
  unfolding submit_to_client
  submit_to_client-Within t payload label old = elim (Option-cases t.client_id) [
    | inl e ↦ elim (Option-cases (w.default_client old)) [
      | inl d ↦ simp (e, d, submit_to_client) same
      | inr (row, d) ↦
          simp (e, d, submit_to_client) (send_via_client-Within row t payload label old)
    ]
    | inr (id, e) ↦ simp (e, submit_to_client) (answer (w.client_by_id old id))
  ]
    where
      answer :
          (a : Answer ClientRow)
          → Within sends old
              (elim a as (λ _. Sent × Watched × Calls) [
                | broke e ↦ (
                  refused (wrap_persist (record e { text = codes "load client: " ++ e.text })),
                  t,
                  old,
                )
                | got row ↦ send_via_client w row t payload label old
              ]).2
      answer (broke e) = same
      answer (got row) = send_via_client-Within row t payload label old
