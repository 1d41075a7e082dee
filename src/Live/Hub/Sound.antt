-- ===== src/Live/Hub/Sound.antt =====
-- What holds of one subscriber of backend/internal/sse/hub.go, and of the machine.
use marauder.Prelude.{
  ℕ, ◌≤◌, ◌<◌, ◌≡◌, refl, sym, ap, ◌∙◌, inl, inr, Bool, true, false, [], ◌∷◌, arith, ltb, ◌==◌,
  ==_iff, Bool-cases, length, All, length-append, All-append,
}
use marauder.Live.Hub.{
  subscriber_buffer, Frame, Stage, subscribed, removed, closed_down, Subscriber, Machine, update,
  send,
}

unfoldable pub is_done : Stage → Bool
is_done subscribed = false
is_done removed = false
is_done closed_down = true

-- A subscriber's buffer is within its bound and holds frames of its user only; its flag and its channel are
-- closed together, behind the end of its `unsub`.
pub record Sound (s : Subscriber) : Type 0 where
  pub bound : length s.frames ≤ subscriber_buffer
  pub own : All (λ f. f.user ≡ s.owner) s.frames
  pub closed_both : s.is_channel_closed ≡ s.is_closed
  pub closed_last : s.is_closed ≡ is_done s.stage

pub send-Sound :
    (f : Frame) (s : Subscriber)
    → f.user ≡ s.owner
    → Sound s
    → Sound (send f s).0 × ((send f s).1 ≡ false) × ((send f s).0.owner ≡ s.owner)
unfolding send
send-Sound f s o k = elim (Bool-cases s.is_closed) [
  | inl c ↦ simp (c, send) (k, refl, refl)
  | inr c ↦
      let open_ : s.is_channel_closed ≡ false = k.closed_both ∙ c in
      elim (Bool-cases (ltb (length s.frames) subscriber_buffer)) [
        | inl b ↦
            simp (c, open_, b, send)
              (
                record {
                  bound = let l = length-append s.frames (f ∷ []) in ground (arith, k.bound);
                  own = All-append (λ g. g.user ≡ s.owner) s.frames (f ∷ []) k.own (o, tt);
                  closed_both = refl;
                  closed_last = sym c ∙ k.closed_last;
                },
                refl,
                refl,
              )
        | inr b ↦ simp (c, open_, b, send) (k, refl, refl)
      ]
]

-- Each pair that is registered or in flight is of a subscriber that exists, and of its user.
abbrev pub Owned : Machine → ℕ → ℕ → Type 0
Owned m user id = (id < m.next) × ((m.subscriber id).owner ≡ user)

abbrev pub Listed : Machine → ℕ × ℕ → Type 0
Listed m p = Owned m p.0 p.1

abbrev pub Aimed : Machine → Frame × ℕ → Type 0
Aimed m p = Owned m p.0.user p.1

pub record Safe (m : Machine) : Type 0 where
  pub sound : (id : ℕ) → Sound (m.subscriber id)
  pub quiet : m.has_panicked ≡ false
  pub listed : All (Listed m) m.registered
  pub aimed : All (Aimed m) m.in_flight

pub update_all :
    (P : Subscriber → Type 0) (id : ℕ) (s : Subscriber) (f : ℕ → Subscriber)
    → P s
    → ((k : ℕ) → P (f k))
    → (k : ℕ) → P (update id s f k)
unfolding update
update_all P id s f p h k = elim (Bool-cases (k == id)) [ inl e ↦ rw e p | inr e ↦ rw e (h k) ]

update_owner :
    (id : ℕ) (s : Subscriber) (f : ℕ → Subscriber) (k : ℕ)
    → s.owner ≡ (f id).owner
    → (update id s f k).owner ≡ (f k).owner
unfolding update
update_owner id s f k o = elim (Bool-cases (k == id)) [
  | inl e ↦ rw e (o ∙ ap (λ n. (f n).owner) (sym ((==_iff k id).0 e)))
  | inr e ↦ rw e refl
]

pub update_other :
    (id : ℕ) (s : Subscriber) (f : ℕ → Subscriber) (k : ℕ) → k < id → update id s f k ≡ f k
unfolding update
update_other id s f k l = rw ((let e : (k == id) ≡ false = ground arith in e)) refl

pub update_same : (id : ℕ) (s : Subscriber) (f : ℕ → Subscriber) → update id s f id ≡ s
unfolding update
update_same id s f = rw ((let e : (id == id) ≡ true = ground arith in e)) refl

-- One subscriber changes, and keeps its user.
pub change-Owned :
    (m : Machine) (id : ℕ) (s : Subscriber) (user k : ℕ)
    → s.owner ≡ (m.subscriber id).owner
    → Owned m user k
    → (k < m.next) × ((update id s m.subscriber k).owner ≡ user)
change-Owned m id s user k o (l, e) = (l, update_owner id s m.subscriber k o ∙ e)
