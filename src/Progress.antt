-- ===== src/Progress.antt =====
-- The watcher of backend/internal/progress/watcher.go. What answers may answer anything at any time: it
-- depends on all calls made before. A share of a download is a number of parts; `full` parts are all of it.
pub mod Once
use marauder.Prelude.{
  ℕ, zero, suc, Bool, not, ◌&&◌, ◌||◌, Option, none, some, List, [], ◌∷◌, ◌++◌, map, leb, ◌==◌,
  if◌then◌else◌, length, Text, codes, text_eq,
}

-- `domain.InFlightDelivery`.
pub record InFlight : Type 0 where
  pub delivery : ℕ
  pub user : ℕ
  pub client : Option ℕ
  pub infohash : Text

-- `registry.TorrentStatus`.
pub record Status : Type 0 where
  pub hash : Text
  pub percent : ℕ
  pub state : Text

-- The watcher's calls and events, the newest first; `marked` has the answer of `MarkCompleted`, and `none`
-- is an error.
pub data WatcherCall : Type 0 where
  resolved : (client user : ℕ) → WatcherCall
  asked : (client : ℕ) → List Text → WatcherCall
  marked : (delivery : ℕ) → Option Bool → WatcherCall
  completed : (delivery : ℕ) → WatcherCall
  progressed : (delivery : ℕ) → (percent : ℕ) → (state : Text) → WatcherCall

abbrev pub WatcherCalls : Type 0
WatcherCalls = List WatcherCall

-- The database and the clients; `resolve` says whether `resolveClient` returns a client.
pub record Outside : Type 0 where
  pub list_in_flight : WatcherCalls → Option (List InFlight)
  pub resolve : WatcherCalls → (client user : ℕ) → Bool
  pub status : WatcherCalls → (client : ℕ) → List Text → Option (List Status)
  pub mark_completed : WatcherCalls → ℕ → Option Bool
  pub to_lower : Text → Text
  pub full : ℕ

-- `lastSeen`.
abbrev pub LastSeen : Type 0
LastSeen = Text → Option (ℕ × Text)

-- The watcher: `lastSeen`, and what it has done.
pub record Watcher : Type 0 where
  pub last_seen : LastSeen
  pub acts : WatcherCalls

-- A resolved client, or nil, with the deliveries pushed to it.
pub record ClientGroup : Type 0 where
  pub client : ℕ
  pub is_resolved : Bool
  pub deliveries : List InFlight

unfoldable pub set_seen : Text → Option (ℕ × Text) → LastSeen → LastSeen
set_seen hash v m h = if text_eq h hash then v else m h

-- `w.lastSeen[hash] == key`: a hash without an entry reads as the zero key.
unfoldable pub is_same_key : Option (ℕ × Text) → ℕ × Text → Bool
is_same_key none (q, t) = q == 0 && text_eq t []
is_same_key (some (p, s)) (q, t) = p == q && text_eq s t

module _ (o : Outside) where
  -- `complete`.
  unfoldable pub complete : InFlight → WatcherCalls → WatcherCalls
  complete d tr =
      let tr' = marked d.delivery (o.mark_completed tr d.delivery) ∷ tr in
      elim (o.mark_completed tr d.delivery) [
        | none ↦ tr'
        | some won ↦ if won then completed d.delivery ∷ tr' else tr'
      ]

  -- `byHash`, where the last delivery of a hash stays.
  unfoldable pub find_by_hash : Text → List InFlight → Option InFlight
  find_by_hash hash [] = none
  find_by_hash hash (d ∷ ds) =
      let here = if text_eq (o.to_lower d.infohash) hash then some d else none in
      elim (find_by_hash hash ds) [ none ↦ here | some e ↦ some e ]

  -- One status of the answer, for the delivery that has its hash.
  unfoldable pub take_status : InFlight → Status → Watcher → Watcher
  unfolding complete set_seen is_same_key
  take_status d st w =
      let hash = o.to_lower st.hash in
      if text_eq st.state (codes "seeding") || leb o.full st.percent
      then record { last_seen = set_seen hash none w.last_seen; acts = complete d w.acts }
      else if is_same_key (w.last_seen hash) (st.percent, st.state)
      then w
      else record {
        last_seen = set_seen hash (some (st.percent, st.state)) w.last_seen;
        acts = progressed d.delivery st.percent st.state ∷ w.acts;
      }

  -- The loop over the statuses.
  unfoldable pub take_statuses : List InFlight → List Status → Watcher → Watcher
  unfolding find_by_hash take_status
  take_statuses ds [] w = w
  take_statuses ds (st ∷ sts) w =
      take_statuses ds sts
        (elim (find_by_hash (o.to_lower st.hash) ds) [ none ↦ w | some d ↦ take_status d st w ])

  -- `checkClient`.
  unfoldable pub check_client : ClientGroup → Watcher → Watcher
  unfolding take_statuses
  check_client g w =
      let hashes = map (λ d. d.infohash) g.deliveries in
      let w' = record w { acts = asked g.client hashes ∷ w.acts } in
      elim (o.status w.acts g.client hashes) [
        | none ↦ w'
        | some sts ↦ take_statuses g.deliveries sts w'
      ]

  -- The delivery is put to the group of its client, which is resolved once.
  unfoldable pub add_delivery :
      (client : ℕ) → InFlight → List ClientGroup → WatcherCalls → List ClientGroup × WatcherCalls
  add_delivery client d [] tr = (
    record {
      client = client;
      is_resolved = o.resolve tr client d.user;
      deliveries = if o.resolve tr client d.user then d ∷ [] else [];
    }
        ∷ [],
    resolved client d.user ∷ tr,
  )
  add_delivery client d (g ∷ gs) tr =
      let grown = record g {
        deliveries = if g.is_resolved then g.deliveries ++ d ∷ [] else g.deliveries;
      } in
      let rest = add_delivery client d gs tr in
      if g.client == client then (grown ∷ gs, tr) else (g ∷ rest.0, rest.1)

  -- The first loop of `poll`.
  unfoldable pub group_in_flight :
      List InFlight → List ClientGroup → WatcherCalls → List ClientGroup × WatcherCalls
  unfolding add_delivery
  group_in_flight [] gs tr = (gs, tr)
  group_in_flight (d ∷ ds) gs tr = elim d.client [
    | none ↦ group_in_flight ds gs tr
    | some client ↦ let r = add_delivery client d gs tr in group_in_flight ds r.0 r.1
  ]

  -- The second loop of `poll`; Go visits the clients in any order, here in that of their first delivery.
  unfoldable pub check_clients : List ClientGroup → Watcher → Watcher
  unfolding check_client
  check_clients [] w = w
  check_clients (g ∷ gs) w =
      check_clients gs
        (if not g.is_resolved || length g.deliveries == 0 then w else check_client g w)

  -- `poll`.
  unfoldable pub poll : Watcher → Watcher
  unfolding group_in_flight check_clients
  poll w = elim (o.list_in_flight w.acts) [
    | none ↦ w
    | some ds ↦ let r = group_in_flight ds [] w.acts in check_clients r.0 (record w { acts = r.1 })
  ]

  -- So many polls of a watcher.
  unfoldable pub polls : ℕ → Watcher → Watcher
  unfolding poll
  polls zero w = w
  polls (suc n) w = polls n (poll w)

abbrev pub new_watcher : Watcher
new_watcher = record { last_seen = λ h. none; acts = [] }
