-- ===== src/Live/Tickets/Admits.antt =====
-- Whom a ticket admits.
use marauder.Prelude.{
  ℕ, ◌+◌, ◌≡◌, refl, sym, ap, ◌∙◌, subst, ◌⊎◌, inl, inr, true, false, Option, none, some, List, [],
  ◌∷◌, arith, ltb, leb, leb→le, Bool-cases, Option-cases, All, Text, text_eq, text_eq_iff,
  text_eq_refl,
}
use marauder.Live.Tickets.{
  ticket_ttl, Entry, Tickets, find, remove, prune, issue, consume, Act, issued, consumed,
  tickets_of, time_of, in_order, unused, admitted,
}

text_eq_trans : (a b c : Text) → text_eq a b ≡ true → text_eq a c ≡ text_eq b c
text_eq_trans a b c e = ap (λ t. text_eq t c) ((text_eq_iff a b).0 e)

text_eq_other : (a b : Text) → text_eq a b ≡ false → text_eq b a ≡ false
text_eq_other a b n = elim (Bool-cases (text_eq b a)) [
  | inl e ↦ absurd (cc (n, (text_eq_iff a b).1 (sym ((text_eq_iff b a).0 e))))
  | inr e ↦ e
]

-- An entry that the map holds is the ticket as its holder knows it.
abbrev Holds : List Act → Text × Entry → Type 0
Holds acts p =
    (since : ℕ) × (unused p.0 acts ≡ some (p.1.user, since)) × (p.1.expires ≡ since + ticket_ttl)

-- A token that the map does not hold admits nobody.
abbrev Covers : ℕ → List Act → Tickets → Type 0
Covers now acts m = (token : Text) → find token m ≡ none → admitted now (unused token acts) ≡ none

All-remove :
    (P Q : Text × Entry → Type 0) (token : Text) (m : Tickets)
    → ((t : Text) (e : Entry) → text_eq t token ≡ false → P (t, e) → Q (t, e))
    → All P m
    → All Q (remove token m)
unfolding remove
All-remove P Q token [] f h = tt
All-remove P Q token ((t, e) ∷ m) f (p, h) = elim (Bool-cases (text_eq t token)) [
  | inl g ↦ rw g (All-remove P Q token m f h)
  | inr g ↦ rw g (f t e g p, All-remove P Q token m f h)
]

All-prune : (P : Text × Entry → Type 0) (now : ℕ) (m : Tickets) → All P m → All P (prune now m)
unfolding prune
All-prune P now [] h = tt
All-prune P now ((t, e) ∷ m) (p, h) = elim (Bool-cases (ltb e.expires now)) [
  | inl g ↦ rw g (All-prune P now m h)
  | inr g ↦ rw g (p, All-prune P now m h)
]

find-remove :
    (token other : Text) (m : Tickets)
    → text_eq other token ≡ false
    → find token (remove other m) ≡ find token m
unfolding find remove
find-remove token other [] n = refl
find-remove token other ((t, e) ∷ m) n = elim (Bool-cases (text_eq t other)) [
  | inl f ↦ rw (f, text_eq_trans t other token f, n) (find-remove token other m n)
  | inr f ↦ elim (Bool-cases (text_eq t token)) [
    | inl g ↦ rw (f, g) refl
    | inr g ↦ rw (f, g) (find-remove token other m n)
  ]
]

find-prune :
    (token : Text) (now : ℕ) (m : Tickets)
    → find token (prune now m) ≡ none
    → (find token m ≡ none) ⊎ ((e : Entry) × (find token m ≡ some e) × (ltb e.expires now ≡ true))
unfolding find prune
find-prune token now [] h = inl refl
find-prune token now ((t, e) ∷ m) h = elim (Bool-cases (text_eq t token)) [
  | inl f ↦ elim (Bool-cases (ltb e.expires now)) [
    | inl g ↦ inr (e, rw f refl, g)
    | inr g ↦ ground (arith, h)
  ]
  | inr f ↦ rw f (find-prune token now m (rest f))
]
  where
    rest : text_eq t token ≡ false → find token (prune now m) ≡ none
    rest f = elim (Bool-cases (ltb e.expires now)) [
      | inl g ↦ ground (arith, h)
      | inr g ↦ ground (arith, h)
    ]

find-All :
    (P : Text × Entry → Type 0) (token : Text) (m : Tickets) (e : Entry)
    → All P m
    → find token m ≡ some e
    → P (token, e)
unfolding find
find-All P token [] e h f = absurd (cc f)
find-All P token ((t, x) ∷ m) e (p, h) f = elim (Bool-cases (text_eq t token)) [
  | inl g ↦ subst P ((λ i. ((text_eq_iff t token).0 g i, entry g i))) p
  | inr g ↦ find-All P token m e h (ground (arith, f))
]
  where
    entry : text_eq t token ≡ true → x ≡ e
    entry g = ground (arith, f)

later :
    (now then_ : ℕ) (o : Option (ℕ × ℕ))
    → leb then_ now ≡ true
    → admitted then_ o ≡ none
    → admitted now o ≡ none
unfolding admitted
later now then_ none l h = refl
later now then_ (some (user, since)) l h = ground (arith, leb→le then_ now l)

Holds-issue :
    (acts : List Act) (token : Text) (user now : ℕ)
    → All (Holds acts) (tickets_of acts)
    → All (Holds (issued token user now ∷ acts)) (tickets_of (issued token user now ∷ acts))
unfolding tickets_of issue unused
Holds-issue acts token user now h = (
  (now, rw (text_eq_refl token) refl, refl),
  All-remove (Holds acts) (Holds (issued token user now ∷ acts)) token (prune now (tickets_of acts))
      (λ t e n p. (p.0, rw (other t n) (p.1), p.2))
      (All-prune (Holds acts) now (tickets_of acts) h),
)
  where
    other : (t : Text) → text_eq t token ≡ false → text_eq token t ≡ false
    other t n = text_eq_other t token n

remove_absent : (token : Text) (m : Tickets) → find token m ≡ none → remove token m ≡ m
unfolding find remove
remove_absent token [] f = refl
remove_absent token ((t, e) ∷ m) f = elim (Bool-cases (text_eq t token)) [
  | inl g ↦ ground (arith, f)
  | inr g ↦ rw g (ap (λ r. (t, e) ∷ r) (remove_absent token m (ground (arith, f))))
]

consume_left : (token : Text) (now : ℕ) (m : Tickets) → (consume token now m).1 ≡ remove token m
unfolding consume
consume_left token now m = elim (Option-cases (find token m)) [
  | inl f ↦ simp (f, consume) (sym (remove_absent token m f))
  | inr (e, f) ↦ elim (Bool-cases (ltb e.expires now)) [
    | inl g ↦ simp (f, g, consume) refl
    | inr g ↦ simp (f, g, consume) refl
  ]
]

Holds-consume :
    (acts : List Act) (token : Text) (now : ℕ)
    → All (Holds acts) (tickets_of acts)
    → All (Holds (consumed token now ∷ acts)) (tickets_of (consumed token now ∷ acts))
unfolding tickets_of unused
Holds-consume acts token now h =
    subst (All (Holds (consumed token now ∷ acts))) (sym (consume_left token now (tickets_of acts)))
      (All-remove (Holds acts) (Holds (consumed token now ∷ acts)) token (tickets_of acts)
        (λ t e n p. (p.0, rw (text_eq_other t token n) (p.1), p.2)) h)

Covers-issue :
    (acts : List Act) (token : Text) (user now then_ : ℕ)
    → leb then_ now ≡ true
    → All (Holds acts) (tickets_of acts)
    → Covers then_ acts (tickets_of acts)
    → Covers now (issued token user now ∷ acts) (tickets_of (issued token user now ∷ acts))
unfolding tickets_of issue unused find admitted
Covers-issue acts token user now then_ l h c other f = elim (Bool-cases (text_eq token other)) [
  | inl g ↦ ground (arith, f)
  | inr g ↦
      let pruned : find other (prune now (tickets_of acts)) ≡ none =
        sym (find-remove other token (prune now (tickets_of acts)) g) ∙ ground (arith, f) in
      rw g (elim (find-prune other now (tickets_of acts) pruned) [
        | inl n ↦ later now then_ (unused other acts) l (c other n)
        | inr (e, n, x) ↦ expired e x (find-All (Holds acts) other (tickets_of acts) e h n)
      ])
]
  where
    expired :
        (e : Entry)
        → ltb e.expires now ≡ true
        → Holds acts (other, e)
        → admitted now (unused other acts) ≡ none
    expired e x (since, u, k) = rw (u, sym k, x) refl

Covers-consume :
    (acts : List Act) (token : Text) (now then_ : ℕ)
    → leb then_ now ≡ true
    → Covers then_ acts (tickets_of acts)
    → Covers now (consumed token now ∷ acts) (tickets_of (consumed token now ∷ acts))
unfolding tickets_of unused admitted
Covers-consume acts token now then_ l c other f = elim (Bool-cases (text_eq token other)) [
  | inl g ↦ rw g refl
  | inr g ↦ rw g (
      later now then_ (unused other acts) l (
        c other (
          sym (find-remove other token (tickets_of acts) g)
          ∙ sym (ap (find other) (consume_left token now (tickets_of acts)))
          ∙ f)))
]

-- Both hold of any history whose clock does not go back.
abbrev Exact : ℕ → List Act → Type 0
Exact now acts = All (Holds acts) (tickets_of acts) × Covers now acts (tickets_of acts)

in_order-Exact : (now : ℕ) (acts : List Act) → in_order now acts ≡ true → Exact now acts
unfolding in_order time_of tickets_of unused admitted find
in_order-Exact now [] o = (tt, λ token f. refl)
in_order-Exact now (issued token user at ∷ acts) o =
    let (h, c) = in_order-Exact at acts (ground arith) in
    (
      Holds-issue acts token user at h,
      λ other f.
          later now at _ (ground arith)
            (Covers-issue acts token user at at (ground arith) h c other f),
    )
in_order-Exact now (consumed token at ∷ acts) o =
    let (h, c) = in_order-Exact at acts (ground arith) in
    (
      Holds-consume acts token at h,
      λ other f.
          later now at _ (ground arith) (Covers-consume acts token at at (ground arith) c other f),
    )

-- Behind any history of the store whose clock does not go back, a ticket admits exactly the user to whom it was
-- issued last, and only if it was not used since and is not older than its time to live; the removal
-- of expired tickets changes nothing of that.
pub consume-admitted :
    (token : Text) (now : ℕ) (acts : List Act)
    → in_order now acts ≡ true
    → (consume token now (tickets_of acts)).0 ≡ admitted now (unused token acts)
unfolding consume admitted
consume-admitted token now acts o =
    let (h, c) = in_order-Exact now acts o in
    elim (Option-cases (find token (tickets_of acts))) [
      | inl f ↦ simp (f, consume) (sym (c token f))
      | inr (e, f) ↦ found e f (find-All (Holds acts) token (tickets_of acts) e h f)
    ]
  where
    found :
        (e : Entry)
        → find token (tickets_of acts) ≡ some e
        → Holds acts (token, e)
        → (consume token now (tickets_of acts)).0 ≡ admitted now (unused token acts)
    found e f (since, u, k) = elim (Bool-cases (ltb e.expires now)) [
      | inl g ↦ simp (f, g, u, sym k, consume) refl
      | inr g ↦ simp (f, g, u, sym k, consume) refl
    ]
