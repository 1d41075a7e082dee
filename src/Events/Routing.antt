-- ===== src/Events/Routing.antt =====
-- Which notifiers an event reaches.
use marauder.Prelude.{
  ℕ, ◌≡◌, refl, sym, ◌∙◌, subst, inl, inr, Bool, true, false, ◌&&◌, ◌||◌, Option, none, some, List,
  [], ◌∷◌, arith, ◌==◌, if◌then◌else◌, Bool-cases, All, any, Text, codes, text_eq, text_eq_swap,
  text_eq→eq, text_eq_refl,
}
use marauder.Prelude.Int.{ℤ}
use marauder.Events.{
  Policy, policies, policy_in, policy_for, subscribed, NotifierRow, BusEvent, Effect, recorded,
  sent, published, Effects, Sinks, send_one, send_defaults, send_own, send_via, record_row, notify,
  emit,
}

is_sent_to : ℕ → Effect → Bool
is_sent_to id (recorded topic user type severity title) = false
is_sent_to id (sent n type is_ok) = n == id
is_sent_to id (published user type severity n) = false

-- Whether this notifier was called.
unfoldable pub contacted : ℕ → Effects → Bool
unfolding is_sent_to
contacted id tr = any (is_sent_to id) tr

-- Whether a notifier can be called for an event of this type.
unfoldable pub can_take : (type : Text) → NotifierRow → Bool
can_take type n = subscribed n.events type && (n.is_known && n.decrypts)

unfoldable pub first_can_take : (type : Text) → ℕ → List NotifierRow → Bool
unfolding can_take
first_can_take type o [] = false
first_can_take type o (n ∷ ns) =
    let rest = first_can_take type o ns in if n.id == o then can_take type n else rest

-- Who is to be called: each of the user's defaults that can take the event, or only the topic's own notifier.
unfoldable pub is_addressed : Option ℕ → (type : Text) → List NotifierRow → ℕ → Bool
unfolding can_take first_can_take
is_addressed none type rows id = any (λ n. n.id == id && (n.is_default && can_take type n)) rows
is_addressed (some o) type rows id = o == id && first_can_take type o rows

module _ (w : Sinks) (type : Text) (id : ℕ) where
  send_one-contacted :
      (n : NotifierRow) (tr : Effects)
      → contacted id (send_one w type n tr).1 ≡ ((n.id == id && can_take type n) || contacted id tr)
  unfolding send_one contacted can_take
  send_one-contacted n tr = ground arith

  send_defaults-contacted :
      (rows : List NotifierRow) (count : ℕ) (tr : Effects)
      → contacted id (send_defaults w type rows count tr).1
        ≡ (is_addressed none type rows id || contacted id tr)
  unfolding send_defaults is_addressed
  send_defaults-contacted [] count tr = refl
  send_defaults-contacted (n ∷ ns) count tr = elim (Bool-cases n.is_default) [
    | inl d ↦
        let a = send_one-contacted n tr in
        rw d (send_defaults-contacted ns _ (send_one w type n tr).1 ∙ ground (arith, a))
    | inr d ↦ rw d (send_defaults-contacted ns _ tr ∙ ground arith)
  ]

  send_own-contacted :
      (o : ℕ) (rows : List NotifierRow) (tr : Effects)
      → contacted id (send_own w type o rows tr).1
        ≡ ((o == id && first_can_take type o rows) || contacted id tr)
  unfolding send_own first_can_take
  send_own-contacted o [] tr = ground arith
  send_own-contacted o (n ∷ ns) tr =
      ground (arith, send_one-contacted n tr, send_own-contacted o ns tr)

record_row-contacted :
    (w : Sinks) (ev : BusEvent) (id : ℕ) (tr : Effects)
    → contacted id (record_row w ev tr).1 ≡ contacted id tr
unfolding record_row contacted
record_row-contacted w ev id tr = ground arith

send_via-contacted :
    (w : Sinks) (type : Text) (user : ℕ) (o : Option ℕ) (rows : List NotifierRow) (id : ℕ)
    (tr : Effects)
    → w.list_for_user tr user ≡ some rows
    → contacted id (send_via w type user o tr).1 ≡ (is_addressed o type rows id || contacted id tr)
unfolding send_via is_addressed
send_via-contacted w type user none rows id tr e =
    rw (e, send_via) (send_defaults-contacted w type id rows 0 tr)
send_via-contacted w type user (some o) rows id tr e =
    rw (e, send_via) (send_own-contacted w type id o rows tr)

notify-contacted :
    (w : Sinks) (ev : BusEvent) (rows : List NotifierRow) (id : ℕ) (tr : Effects)
    → w.has_notifier ≡ true
    → w.list_for_user tr ev.user ≡ some rows
    → contacted id (notify w ev tr) ≡ (
        ((policy_for ev.type).notifiable && is_addressed ev.notifier ev.type rows id)
        || contacted id tr)
unfolding notify
notify-contacted w ev rows id tr wired e =
    ground (arith, wired, send_via-contacted w ev.type ev.user ev.notifier rows id tr e)

published-contacted :
    (id user : ℕ) (type severity : Text) (n : ℤ) (tr : Effects)
    → contacted id (published user type severity n ∷ tr) ≡ contacted id tr
unfolding contacted
published-contacted id user type severity n tr = refl

none-contacted : (id : ℕ) → contacted id [] ≡ false
unfolding contacted
none-contacted id = refl

-- An event calls exactly the notifiers that it addresses, and none for a type that is not notifiable: without
-- an own notifier of the topic each default of the user that can take the event, whatever the others answer,
-- else only the topic's own, if it can take it. The bus has a dispatcher, and the user's notifiers are listed.
pub emit-contacted :
    (w : Sinks) (ev : BusEvent) (rows : List NotifierRow) (id : ℕ)
    → w.has_notifier ≡ true
    → ((tr : Effects) → w.list_for_user tr ev.user ≡ some rows)
    → contacted id (emit w ev [])
      ≡ ((policy_for ev.type).notifiable && is_addressed ev.notifier ev.type rows id)
unfolding emit
emit-contacted w e rows id wired lists =
    let ev = record e { severity = if text_eq e.severity [] then codes "info" else e.severity } in
    let r = record_row w ev [] in
    let a = record_row-contacted w ev id [] in
    let b = notify-contacted w ev rows id r.1 wired (lists r.1) in
    let c = published-contacted id ev.user ev.type ev.severity r.0 (notify w ev r.1) in
    ground (arith, a, b, c, none-contacted id)

abbrev legacy : List Text
legacy = codes "updated" ∷ (codes "error" ∷ [])

is_named : List (Text × Policy) → Text → Bool
is_named [] t = false
is_named ((u, p) ∷ ps) t = text_eq t u || is_named ps t

-- Where the names of a table agree, and a text that is not in it is not subscribed, all texts agree.
subscribed-table :
    (type : Text) (ps : List (Text × Policy))
    → All (λ r. subscribed legacy r.0 ≡ r.1.notifiable) ps
    → (is_named ps type ≡ false → subscribed legacy type ≡ false)
    → subscribed legacy type ≡ (policy_in ps type).notifiable
unfolding is_named policy_in
subscribed-table type [] agree other = other refl
subscribed-table type ((u, p) ∷ ps) (here, agree) other = elim (Bool-cases (text_eq type u)) [
  | inl e ↦ rw e (subst (λ t. subscribed legacy t ≡ p.notifiable) (sym (text_eq→eq type u e)) here)
  | inr e ↦ rw e (subscribed-table type ps agree (λ k. other (rw e k)))
]

names-agree : All (λ r. subscribed legacy r.0 ≡ r.1.notifiable) policies
unfolding subscribed policies text_eq
names-agree = (refl, (refl, (refl, (refl, (refl, (refl, (refl, (refl, (refl, (refl, tt))))))))))

error_is_not_updated : text_eq (codes "error") (codes "updated") ≡ false
unfolding text_eq
error_is_not_updated = refl

not_subscribed :
    (type : Text)
    → text_eq type [] ≡ false
    → text_eq (codes "updated") type ≡ false
    → text_eq (codes "error") type ≡ false
    → is_named policies type ≡ false
    → subscribed legacy type ≡ false
unfolding is_named policies subscribed
not_subscribed type named old older k =
    let a = text_eq_swap type (codes "release.found") in
    let b = text_eq_swap type (codes "download.submitted") in
    let c = text_eq_swap type (codes "download.completed") in
    let d = text_eq_swap type (codes "check.failed") in
    let f = text_eq_swap type (codes "session.expired") in
    ground (
      arith,
      a,
      b,
      c,
      d,
      f,
      text_eq_refl (codes "updated"),
      text_eq_refl (codes "error"),
      error_is_not_updated,
    )

-- The subscription of a notifier that was made before the event types, `updated` and `error`, covers exactly
-- the notifiable types, whatever the type is called but for the two words themselves and the empty one.
pub subscribed-legacy :
    (type : Text)
    → text_eq type [] ≡ false
    → text_eq (codes "updated") type ≡ false
    → text_eq (codes "error") type ≡ false
    → subscribed (codes "updated" ∷ (codes "error" ∷ [])) type ≡ (policy_for type).notifiable
unfolding policy_for
subscribed-legacy type named old older =
    subscribed-table type policies names-agree (not_subscribed type named old older)
