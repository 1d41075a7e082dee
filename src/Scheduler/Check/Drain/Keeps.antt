-- ===== src/Scheduler/Check/Drain/Keeps.antt =====
-- The delivery of pending episodes and the hash of the topic.
use marauder.Prelude.{
  ℕ, zero, suc, ◌≡◌, refl, ◌∙◌, inl, inr, Bool, false, Option, some, List, ◌∷◌, ◌++◌, if◌then◌else◌,
  Bool-cases, Option-cases, Text, codes,
}
use marauder.Infohash.{Scan, ok, fail, panicked, out_of_fuel}
use marauder.Scheduler.Delivery.{DeliveryPlan, FolderPlan, Topic}
use marauder.Scheduler.Delivery.Plan.{Payload}
use marauder.Scheduler.Delivery.Naming.Seen.{Planned, plan_folder_name-Planned}
use marauder.Scheduler.Classify.{wrap_persist}
use marauder.Scheduler.Check.Send.{
  Sent, sent, refused, crashed, send_named, send_plan, send_via_client, submit_to_client,
}
use marauder.Scheduler.Check.Drain.{
  Drained, head_or_empty, rest_of, after_submit, drain_round, drain,
}
use marauder.Scheduler.Check.{Watched, Answer, got, broke, ClientRow, downloaded, Calls, World}

-- The second topic has the hash of the first.
abbrev pub SameHash : Watched → Watched → Type 0
SameHash t t' = t'.topic.last_hash ≡ t.topic.last_hash

module _ (w : World) where
  send_named-SameHash :
      (t : Watched) (plan : DeliveryPlan) (payload : Payload) (label : Text)
      (p : Scan (Option FolderPlan × Topic)) (old : Calls)
      → Planned t.topic p
      → SameHash t (send_named w t plan payload label p old).1
  unfolding send_named
  send_named-SameHash t plan payload label (ok r) old k = k
  send_named-SameHash t plan payload label (fail e) old k = refl
  send_named-SameHash t plan payload label panicked old k = refl
  send_named-SameHash t plan payload label out_of_fuel old k = refl

  send_plan-SameHash :
      (row : ClientRow) (t : Watched) (payload : Payload) (label : Text) (p : Scan DeliveryPlan)
      (old : Calls)
      → SameHash t (send_plan w row t payload label p old).1
  unfolding send_plan
  send_plan-SameHash row t payload label (ok plan) old =
      send_named-SameHash t plan payload label _ old (
        plan_folder_name-Planned
          (record w.sources {
            client_id = some row.id;
            can_select = row.can_select;
            can_rename = row.can_rename;
          })
          w.packages t.topic w.is_episodic payload plan.files)
  send_plan-SameHash row t payload label (fail e) old = refl
  send_plan-SameHash row t payload label panicked old = refl
  send_plan-SameHash row t payload label out_of_fuel old = refl

  send_via_client-SameHash :
      (row : ClientRow) (t : Watched) (payload : Payload) (label : Text) (old : Calls)
      → SameHash t (send_via_client w row t payload label old).1
  unfolding send_via_client
  send_via_client-SameHash row t payload label old = elim (Bool-cases row.is_installed) [
    | inl e ↦ elim (Option-cases row.decrypts) [
      | inl d ↦ rw (e, d) (send_plan-SameHash row t payload label _ old)
      | inr (f, d) ↦ rw (e, d) refl
    ]
    | inr e ↦ rw e refl
  ]

  submit_to_client-SameHash :
      (t : Watched) (payload : Payload) (label : Text) (old : Calls)
      → SameHash t (submit_to_client w t payload label old).1
  unfolding submit_to_client
  submit_to_client-SameHash t payload label old = elim (Option-cases t.client_id) [
    | inl e ↦ elim (Option-cases (w.default_client old)) [
      | inl d ↦ simp (e, d, submit_to_client) refl
      | inr (row, d) ↦
          simp (e, d, submit_to_client) (send_via_client-SameHash row t payload label old)
    ]
    | inr (id, e) ↦ simp (e, submit_to_client) (answer (w.client_by_id old id))
  ]
    where
      answer :
          (a : Answer ClientRow)
          → SameHash t
              (elim a as (λ _. Sent × Watched × Calls) [
                | broke e ↦ (
                  refused (wrap_persist (record e { text = codes "load client: " ++ e.text })),
                  t,
                  old,
                )
                | got row ↦ send_via_client w row t payload label old
              ]).1
      answer (broke e) = refl
      answer (got row) = send_via_client-SameHash row t payload label old

  after_submit-SameHash :
      (pending : List Text) (label : Text) (payload : Payload) (d : Drained) (t : Watched)
      (s : Sent × Watched × Calls)
      → SameHash t s.1
      → SameHash t (after_submit w pending label payload d s).2
  unfolding after_submit
  after_submit-SameHash pending label payload d t (refused e, t', new) k =
      elim (Bool-cases e.stale_check_result) [
        | inl g ↦ simp (g, after_submit) k
        | inr g ↦ simp (g, after_submit) k
      ]
  after_submit-SameHash pending label payload d t (crashed, t', new) k = k
  after_submit-SameHash pending label payload d t (sent note, t', new) k = k

  drain_round-SameHash :
      (pending : List Text) (label : Text) (d : Drained) (t : Watched) (old : Calls)
      → SameHash t (drain_round w pending label d t old).2
  unfolding drain_round
  drain_round-SameHash pending label d t old = answer (w.download old pending)
    where
      answer :
          (a : Answer Payload)
          → SameHash t
              (elim a as (λ _. Bool × Drained × Watched × Calls) [
                | broke e ↦
                    if e.no_pending_episodes
                    then (false, d, t, downloaded ∷ old)
                    else (false, record d { error = some e }, t, downloaded ∷ old)
                | got payload ↦
                    after_submit w pending label payload d
                      (submit_to_client w t payload label (downloaded ∷ old))
              ]).2
      answer (broke e) = elim (Bool-cases e.no_pending_episodes) [
        | inl g ↦ rw g refl
        | inr g ↦ rw g refl
      ]
      answer (got payload) =
          after_submit-SameHash pending label payload d t _
            (submit_to_client-SameHash t payload label (downloaded ∷ old))

  pub drain-SameHash :
      (n : ℕ) (pending human : List Text) (d : Drained) (t : Watched) (old : Calls)
      → SameHash t (drain w n pending human d t old).1
  unfolding drain
  drain-SameHash zero pending human d t old = refl
  drain-SameHash (suc n) pending human d t old =
      let r = drain_round w pending (head_or_empty human) d t old in
      let first = drain_round-SameHash pending (head_or_empty human) d t old in
      let rest = drain-SameHash n (rest_of pending) (rest_of human) r.1 r.2 r.3 in
      elim (Bool-cases r.0) [ inl e ↦ simp e (rest ∙ first) | inr e ↦ simp e first ]
