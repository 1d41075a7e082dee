-- ===== src/Progress/Once.antt =====
-- How often the watcher reports a finished download.
use marauder.Prelude.{
  ℕ, zero, suc, ◌+◌, ◌≤◌, ◌<◌, ◌≡◌, refl, sym, ap, ◌∙◌, ◌≢◌, inl, inr, Bool, true, false, not, ◌&&◌,
  ◌||◌, Option, none, some, List, [], ◌∷◌, map, arith, ltb, leb, ◌==◌, if◌then◌else◌, ltb→lt,
  Bool-cases, Option-cases, length, codes, text_eq,
}
use marauder.Progress.{
  InFlight, Status, WatcherCall, resolved, asked, marked, completed, WatcherCalls, Outside, Watcher,
  ClientGroup, is_same_key, complete, find_by_hash, take_status, take_statuses, check_client,
  add_delivery, group_in_flight, check_clients, poll, polls, new_watcher,
}

-- How often a delivery was reported as completed.
unfoldable pub count_completed : ℕ → WatcherCalls → ℕ
count_completed k [] = 0
count_completed k (completed d ∷ tr) = let n = count_completed k tr in if d == k then n + 1 else n
count_completed k (a ∷ tr) = count_completed k tr

is_won : Option Bool → Bool
is_won none = false
is_won (some b) = b

-- How often `MarkCompleted` answered that this call was the one that completed the delivery.
unfoldable pub count_won : ℕ → WatcherCalls → ℕ
unfolding is_won
count_won k [] = 0
count_won k (marked d won ∷ tr) =
    let n = count_won k tr in if d == k && is_won won then n + 1 else n
count_won k (a ∷ tr) = count_won k tr

-- A delivery is completed once, in the database, and reported where it is.
record Once (k : ℕ) (tr : WatcherCalls) : Type 0 where
  won_once : count_won k tr ≤ 1
  reported : count_completed k tr ≡ count_won k tr

module _ (o : Outside) (k : ℕ)
    (atomic : (tr : WatcherCalls)
      → 0 < count_won k tr
      → is_won (o.mark_completed tr k) ≡ false) where
  complete-Once : (d : InFlight) (tr : WatcherCalls) → Once k tr → Once k (complete o d tr)
  unfolding complete count_completed count_won is_won
  complete-Once d tr h = answered (o.mark_completed tr d.delivery) refl
    where
      answered :
          (m : Option Bool)
          → o.mark_completed tr d.delivery ≡ m
          → Once k (elim m as (λ _. WatcherCalls) [
            | none ↦ marked d.delivery m ∷ tr
            | some won ↦
                if won
                then completed d.delivery ∷ (marked d.delivery m ∷ tr)
                else marked d.delivery m ∷ tr
          ])
      answered none e = record {
        won_once = ground (arith, h.won_once);
        reported = ground (arith, h.reported);
      }
      answered (some false) e = record {
        won_once = ground (arith, h.won_once);
        reported = ground (arith, h.reported);
      }
      answered (some true) e = elim (Bool-cases (d.delivery == k)) [
        | inl q ↦
            let same : d.delivery ≡ k = ground (arith, q) in
            let new : ltb 0 (count_won k tr) ≡ false = elim (Bool-cases (ltb 0 (count_won k tr))) [
              | inl l ↦
                  let lost : is_won (some true) ≡ false =
                    ap is_won (sym e)
                    ∙ ap (λ x. is_won (o.mark_completed tr x)) same
                    ∙ atomic tr (ltb→lt 0 (count_won k tr) l) in
                  cc
              | inr l ↦ l
            ] in
            record { won_once = ground (arith, new); reported = ground (arith, h.reported) }
        | inr q ↦ record {
          won_once = ground (arith, h.won_once, q);
          reported = ground (arith, h.reported, q);
        }
      ]

  quiet-Once :
      (a : WatcherCall) (tr : WatcherCalls)
      → count_won k (a ∷ tr) ≡ count_won k tr
      → count_completed k (a ∷ tr) ≡ count_completed k tr
      → Once k tr
      → Once k (a ∷ tr)
  quiet-Once a tr e f h = record {
    won_once = omega (arith, h.won_once, e);
    reported = f ∙ h.reported ∙ sym e;
  }

  take_status-Once :
      (d : InFlight) (st : Status) (w : Watcher)
      → Once k w.acts
      → Once k (take_status o d st w).acts
  unfolding take_status count_won count_completed
  take_status-Once d st w h =
      elim (Bool-cases (text_eq st.state (codes "seeding") || leb o.full st.percent)) [
        | inl e ↦ rw e (complete-Once d w.acts h)
        | inr e ↦
            elim (Bool-cases
              (is_same_key (w.last_seen (o.to_lower st.hash)) (st.percent, st.state))) [
                | inl f ↦ rw (e, f) h
                | inr f ↦ rw (e, f) (quiet-Once _ w.acts refl refl h)
              ]
      ]

  take_statuses-Once :
      (ds : List InFlight) (sts : List Status) (w : Watcher)
      → Once k w.acts
      → Once k (take_statuses o ds sts w).acts
  unfolding take_statuses
  take_statuses-Once ds [] w h = h
  take_statuses-Once ds (st ∷ sts) w h =
      elim (Option-cases (find_by_hash o (o.to_lower st.hash) ds)) [
        | inl e ↦ rw (e, take_statuses) (take_statuses-Once ds sts w h)
        | inr (d, e) ↦
            rw (e, take_statuses)
              (take_statuses-Once ds sts (take_status o d st w) (take_status-Once d st w h))
      ]

  check_client-Once :
      (g : ClientGroup) (w : Watcher) → Once k w.acts → Once k (check_client o g w).acts
  unfolding check_client count_won count_completed
  check_client-Once g w h =
      elim (Option-cases (o.status w.acts g.client (map (λ d. d.infohash) g.deliveries))) [
        | inl e ↦ rw (e, check_client) (quiet-Once (asked g.client _) w.acts refl refl h)
        | inr (sts, e) ↦
            rw (e, check_client)
              (take_statuses-Once g.deliveries sts _
                (quiet-Once (asked g.client _) w.acts refl refl h))
      ]

  check_clients-Once :
      (gs : List ClientGroup) (w : Watcher) → Once k w.acts → Once k (check_clients o gs w).acts
  unfolding check_clients
  check_clients-Once [] w h = h
  check_clients-Once (g ∷ gs) w h =
      elim (Bool-cases (not g.is_resolved || length g.deliveries == 0)) [
        | inl e ↦ rw (e, check_clients) (check_clients-Once gs w h)
        | inr e ↦
            rw (e, check_clients)
              (check_clients-Once gs (check_client o g w) (check_client-Once g w h))
      ]

  add_delivery-Once :
      (c : ℕ) (d : InFlight) (gs : List ClientGroup) (tr : WatcherCalls)
      → Once k tr
      → Once k (add_delivery o c d gs tr).1
  unfolding add_delivery count_won count_completed
  add_delivery-Once c d [] tr h = quiet-Once (resolved c d.user) tr refl refl h
  add_delivery-Once c d (g ∷ gs) tr h = elim (Bool-cases (g.client == c)) [
    | inl e ↦ rw e h
    | inr e ↦ rw e (add_delivery-Once c d gs tr h)
  ]

  group_in_flight-Once :
      (ds : List InFlight) (gs : List ClientGroup) (tr : WatcherCalls)
      → Once k tr
      → Once k (group_in_flight o ds gs tr).1
  unfolding group_in_flight
  group_in_flight-Once [] gs tr h = h
  group_in_flight-Once (d ∷ ds) gs tr h =
      by_client (λ hs us g. group_in_flight-Once ds hs us g) d.client
    where
      by_client :
          ((hs : List ClientGroup) (us : WatcherCalls)
            → Once k us
            → Once k (group_in_flight o ds hs us).1)
          → (c : Option ℕ)
          → Once k
              (elim c as (λ _. List ClientGroup × WatcherCalls) [
                | none ↦ group_in_flight o ds gs tr
                | some client ↦
                    group_in_flight o ds
                      (add_delivery o client d gs tr).0
                      (add_delivery o client d gs tr).1
              ]).1
      by_client rest none = rest gs tr h
      by_client rest (some c) = rest _ _ (add_delivery-Once c d gs tr h)

  poll-Once : (w : Watcher) → Once k w.acts → Once k (poll o w).acts
  unfolding poll
  poll-Once w h = elim (Option-cases (o.list_in_flight w.acts)) [
    | inl e ↦ rw (e, poll) h
    | inr (ds, e) ↦
        rw (e, poll)
          (check_clients-Once (group_in_flight o ds [] w.acts).0
            (record w { acts = (group_in_flight o ds [] w.acts).1 })
            (group_in_flight-Once ds [] w.acts h))
  ]

  polls-Once : (n : ℕ) (w : Watcher) → Once k w.acts → Once k (polls o n w).acts
  unfolding polls
  polls-Once zero w h = h
  polls-Once (suc n) w h = polls-Once n (poll o w) (poll-Once w h)

-- However often the watcher polls, and whatever the clients answer, it reports a delivery as completed at most
-- once, and exactly where the database answered it that its call completed the delivery. The database answers
-- so to no call behind the first that it has answered so.
pub polls_once :
    (o : Outside) (k n : ℕ)
    → ((tr : WatcherCalls) → 0 < count_won k tr → o.mark_completed tr k ≢ some true)
    → (count_completed k (polls o n new_watcher).acts ≤ 1)
      × (count_completed k (polls o n new_watcher).acts ≡ count_won k (polls o n new_watcher).acts)
unfolding count_won count_completed is_won
polls_once o k n atomic =
    let h =
      polls-Once o k lost n new_watcher (record { won_once = nothing.0; reported = nothing.1 }) in
    (omega (arith, h.won_once, h.reported), h.reported)
  where
    nothing : (count_won k [] ≤ 1) × (count_completed k [] ≡ count_won k [])
    nothing = (omega arith, refl)

    lost : (tr : WatcherCalls) → 0 < count_won k tr → is_won (o.mark_completed tr k) ≡ false
    lost tr l = elim (Option-cases (o.mark_completed tr k)) [
      | inl e ↦ rw e refl
      | inr (false, e) ↦ rw e refl
      | inr (true, e) ↦ absurd (atomic tr l e)
    ]
