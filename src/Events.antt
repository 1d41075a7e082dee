-- ===== src/Events.antt =====
-- backend/internal/events and backend/internal/notify: what becomes of an event. Link, source, comment and
-- data of an event are left out, and so are the time limits of a send.
pub mod Routing
use marauder.Prelude.{
  ℕ, ◌+◌, Bool, true, false, not, ◌&&◌, ◌||◌, Option, none, some, List, [], ◌∷◌, ◌==◌,
  if◌then◌else◌, length, any, Text, codes, text_eq,
}
use marauder.Prelude.Int.{ℤ, pos}

-- `Policy`.
pub record Policy : Type 0 where
  pub persist : Bool
  pub notifiable : Bool
  pub sse : Bool

abbrev silent : Policy
silent = record { persist = true; notifiable = false; sse = true }

abbrev passing : Policy
passing = record { persist = false; notifiable = false; sse = true }

abbrev announced : Policy
announced = record { persist = true; notifiable = true; sse = true }

-- `policies`.
unfoldable pub policies : List (Text × Policy)
policies =
    (codes "topic.added", silent)
    ∷ (codes "topic.reset", silent)
    ∷ (codes "check.started", passing)
    ∷ (codes "check.completed", passing)
    ∷ (codes "release.found", announced)
    ∷ (codes "download.submitted", announced)
    ∷ (codes "download.progress", passing)
    ∷ (codes "download.completed", announced)
    ∷ (codes "check.failed", announced)
    ∷ (codes "session.expired", announced)
    ∷ []

unfoldable pub policy_in : List (Text × Policy) → Text → Policy
policy_in [] t = record { persist = false; notifiable = false; sse = false }
policy_in ((u, p) ∷ ps) t = let rest = policy_in ps t in if text_eq t u then p else rest

-- `PolicyFor`.
unfoldable pub policy_for : Text → Policy
unfolding policies policy_in
policy_for t = policy_in policies t

-- `legacyAliases`.
unfoldable pub legacy_aliases : Text → List Text
legacy_aliases e =
    if text_eq e (codes "updated")
    then codes "release.found" ∷ (codes "download.submitted" ∷ (codes "download.completed" ∷ []))
    else if text_eq e (codes "error")
    then codes "check.failed" ∷ (codes "session.expired" ∷ [])
    else []

-- The loop of `subscribed`.
unfoldable pub is_listed : List Text → Text → Bool
unfolding legacy_aliases
is_listed [] event = false
is_listed (e ∷ es) event =
    let rest = is_listed es event in
    if text_eq e event
    then true
    else if any (λ a. text_eq a event) (legacy_aliases e)
    then true
    else rest

-- `subscribed`.
unfoldable pub subscribed : List Text → Text → Bool
unfolding is_listed
subscribed es event = if length es == 0 || text_eq event [] then true else is_listed es event

-- `domain.Notifier`, with whether its plugin is known and its configuration is decrypted.
pub record NotifierRow : Type 0 where
  pub id : ℕ
  pub events : List Text
  pub is_default : Bool
  pub is_known : Bool
  pub decrypts : Bool

-- `Event`, by what decides its way.
pub record BusEvent : Type 0 where
  pub user : ℕ
  pub topic : Option ℕ
  pub notifier : Option ℕ
  pub type : Text
  pub severity : Text
  pub title : Text

-- What was done for an event.
pub data Effect : Type 0 where
  recorded : (topic user : ℕ) → (type severity title : Text) → Effect
  sent : (notifier : ℕ) → (type : Text) → (is_ok : Bool) → Effect
  published : (user : ℕ) → (type severity : Text) → (id : ℤ) → Effect

abbrev pub Effects : Type 0
Effects = List Effect

-- The sinks of the bus that are not nil, and their answers; the newest effect stands first.
pub record Sinks : Type 0 where
  pub has_recorder : Bool
  pub has_notifier : Bool
  pub has_publisher : Bool
  pub record_event : Effects → Option ℤ
  pub list_for_user : Effects → ℕ → Option (List NotifierRow)
  pub accepts : Effects → ℕ → Bool

module _ (w : Sinks) (type : Text) where
  -- `sendOne`.
  unfoldable pub send_one : NotifierRow → Effects → Bool × Effects
  unfolding subscribed
  send_one n tr =
      let ok = w.accepts tr n.id in
      if not (subscribed n.events type)
      then (false, tr)
      else if not n.is_known
      then (false, tr)
      else if not n.decrypts
      then (false, tr)
      else (ok, sent n.id type ok ∷ tr)

  -- The loop over the default notifiers in `SendVia`.
  unfoldable pub send_defaults : List NotifierRow → ℕ → Effects → ℕ × Effects
  unfolding send_one
  send_defaults [] count tr = (count, tr)
  send_defaults (n ∷ ns) count tr =
      let r = send_one n tr in
      let tried = n.is_default && r.0 in
      send_defaults ns (if tried then count + 1 else count) (if n.is_default then r.1 else tr)

  -- The loop over all notifiers in `SendVia`, for the one with this id.
  unfoldable pub send_own : (notifier : ℕ) → List NotifierRow → Effects → ℕ × Effects
  unfolding send_one
  send_own id [] tr = (0, tr)
  send_own id (n ∷ ns) tr =
      let r = send_one n tr in
      let rest = send_own id ns tr in if n.id == id then (if r.0 then 1 else 0, r.1) else rest

  -- The loop of `Send`.
  unfoldable pub send_each : List NotifierRow → ℕ → Effects → ℕ × Effects
  unfolding send_one
  send_each [] count tr = (count, tr)
  send_each (n ∷ ns) count tr =
      let r = send_one n tr in send_each ns (if r.0 then count + 1 else count) r.1

  -- `Send`.
  unfoldable pub send_all : (user : ℕ) → Effects → ℕ × Effects
  unfolding send_each
  send_all user tr = elim (w.list_for_user tr user) [
    | none ↦ (0, tr)
    | some rows ↦ send_each rows 0 tr
  ]

  -- `SendVia`.
  unfoldable pub send_via : (user : ℕ) → (notifier : Option ℕ) → Effects → ℕ × Effects
  unfolding send_defaults send_own
  send_via user notifier tr = elim (w.list_for_user tr user) [
    | none ↦ (0, tr)
    | some rows ↦ elim notifier [ none ↦ send_defaults rows 0 tr | some id ↦ send_own id rows tr ]
  ]

module _ (w : Sinks) where
  -- The history row of `Emit`, and its id.
  unfoldable pub record_row : BusEvent → Effects → ℤ × Effects
  record_row ev tr = elim ev.topic [
    | none ↦ (pos 0, tr)
    | some topic ↦
        let tr' = recorded topic ev.user ev.type ev.severity ev.title ∷ tr in
        if not ((policy_for ev.type).persist && w.has_recorder)
        then (pos 0, tr)
        else elim (w.record_event tr) [ none ↦ (pos 0, tr') | some id ↦ (id, tr') ]
  ]

  -- The notifiers of `Emit`.
  unfoldable pub notify : BusEvent → Effects → Effects
  unfolding send_via
  notify ev tr =
      let r = send_via w ev.type ev.user ev.notifier tr in
      if (policy_for ev.type).notifiable && w.has_notifier then r.1 else tr

  -- `Emit`.
  unfoldable pub emit : BusEvent → Effects → Effects
  unfolding record_row notify
  emit e tr =
      let ev = record e { severity = if text_eq e.severity [] then codes "info" else e.severity } in
      let r = record_row ev tr in
      let tr' = notify ev r.1 in
      if (policy_for ev.type).sse && w.has_publisher
      then published ev.user ev.type ev.severity r.0 ∷ tr'
      else tr'
