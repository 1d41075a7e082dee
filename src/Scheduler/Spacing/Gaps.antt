-- ===== src/Scheduler/Spacing/Gaps.antt =====
-- Runs of the spacer of backend/internal/scheduler/spacing.go, and the starts of one tracker in them.
use marauder.Prelude.{
  ℕ, ◌+◌, ◌≤◌, ◌≡◌, refl, sym, ap, subst, inl, inr, true, false, ◌&&◌, Option, none, some, List, [],
  ◌∷◌, arith, ltb, ◌==◌, if◌then◌else◌, Bool-cases, Option-cases, Text, text_eq, text_eq_iff,
}
use marauder.Scheduler.Spacing.{Spacer, new_spacer, set_time, record_start, claim, reserve}

-- One call of a method by some goroutine, at the clock's reading.
pub data Call : Type 0 where
  claims : Text → ℕ → ℕ → Call
  reserves : Text → ℕ → ℕ → Call

unfoldable pub step : Call → Spacer → Spacer
step (claims tracker spacing now) c = (claim tracker spacing now c).1
step (reserves tracker spacing now) c = (reserve tracker spacing now c).1

-- The starts of a tracker that a call records: none, or one at the clock's reading.
unfoldable pub start_of : Text → Call → Spacer → Option ℕ
start_of name (claims tracker spacing now) c =
    if text_eq tracker name && ((claim tracker spacing now c).0 == 0) then some now else none
start_of name (reserves tracker spacing now) c = none

-- All the starts of a tracker in a run, oldest first.
unfoldable pub starts : Text → List Call → Spacer → List ℕ
starts name [] c = []
starts name (call ∷ calls) c =
    let rest = starts name calls (step call c) in
    elim (start_of name call c) [ none ↦ rest | some now ↦ now ∷ rest ]

-- The calls of a tracker ask for its own spacing.
abbrev pub AsksFor : Text → ℕ → List Call → Type 0
AsksFor name gap [] = Unit
AsksFor name gap (claims tracker spacing now ∷ calls) =
    (text_eq tracker name ≡ true → spacing ≡ gap) × AsksFor name gap calls
AsksFor name gap (reserves tracker spacing now ∷ calls) = AsksFor name gap calls

-- Each start is at least `gap` after the one before it, the first after `last` if there is one.
abbrev pub Apart : ℕ → Option ℕ → List ℕ → Type 0
Apart gap last [] = Unit
Apart gap none (t ∷ ts) = Apart gap (some t) ts
Apart gap (some last) (t ∷ ts) = (last + gap ≤ t) × Apart gap (some t) ts

-- What one claim does for a tracker: nothing, or a start that is far enough from the last.
data Claimed (name : Text) (gap : ℕ) (call : Call) (c : Spacer) : Type 0 where
  unchanged :
      start_of name call c ≡ none
      → (step call c).started name ≡ c.started name
      → Claimed name gap call c
  begun :
      (now : ℕ)
      → start_of name call c ≡ some now
      → (step call c).started name ≡ some now
      → ((last : ℕ) → c.started name ≡ some last → last + gap ≤ now)
      → Claimed name gap call c

claim_started :
    (tracker name : Text) (spacing now : ℕ) (c : Spacer)
    → text_eq tracker name ≡ false
    → (claim tracker spacing now c).1.started name ≡ c.started name
unfolding claim record_start set_time
claim_started tracker name spacing now c other = elim (Option-cases (c.started tracker)) [
  | inl e ↦ ground (arith, e, other)
  | inr (last, e) ↦ ground (arith, e, other)
]

claim-Claimed :
    (name : Text) (gap : ℕ) (tracker : Text) (spacing now : ℕ) (c : Spacer)
    → (text_eq tracker name ≡ true → spacing ≡ gap)
    → Claimed name gap (claims tracker spacing now) c
unfolding step start_of claim record_start set_time
claim-Claimed name gap tracker spacing now c asks = elim (Bool-cases (text_eq tracker name)) [
  | inr other ↦ unchanged (rw other) (claim_started tracker name spacing now c other)
  | inl own ↦
      let same : tracker ≡ name = (text_eq_iff tracker name).0 own in
      let gap_is = asks own in
      elim (Option-cases (c.started tracker)) [
        | inl e ↦
            begun now (ground (arith, e, own)) (ground (arith, e, own))
              (λ last k. cc (ap c.started same, e, k))
        | inr (last, e) ↦
            let e' : c.started name ≡ some last = rw (← same) e in
            elim (Bool-cases (ltb now (last + spacing))) [
              | inl early ↦ unchanged (ground (arith, e, own, early)) (ground (arith, e, early))
              | inr late ↦
                  begun now (ground (arith, e, own, late)) (ground (arith, e, own, late))
                    (λ l k. let l_is : l ≡ last = cc (k, e') in ground (arith, l_is, late, gap_is))
            ]
      ]
]

Apart-start :
    (gap : ℕ) (last : Option ℕ) (now : ℕ) (ts : List ℕ)
    → ((l : ℕ) → last ≡ some l → l + gap ≤ now)
    → Apart gap (some now) ts
    → Apart gap last (now ∷ ts)
Apart-start gap none now ts h a = a
Apart-start gap (some l) now ts h a = (h l refl, a)

module _ (name : Text) (call : Call) (calls : List Call) (c : Spacer) where
  starts-none :
      start_of name call c ≡ none → starts name (call ∷ calls) c ≡ starts name calls (step call c)
  unfolding starts
  starts-none e = rw (e, starts)

  starts-some :
      (now : ℕ)
      → start_of name call c ≡ some now
      → starts name (call ∷ calls) c ≡ now ∷ starts name calls (step call c)
  unfolding starts
  starts-some now e = rw (e, starts)

starts-Apart :
    (name : Text) (gap : ℕ) (calls : List Call) (c : Spacer)
    → AsksFor name gap calls
    → Apart gap (c.started name) (starts name calls c)
unfolding starts start_of step reserve
starts-Apart name gap [] c h = tt
starts-Apart name gap (claims tracker spacing now ∷ calls) c h =
    let call = claims tracker spacing now in
    let ih = starts-Apart name gap calls (step call c) h.1 in
    elim (claim-Claimed name gap tracker spacing now c h.0) [
      | unchanged e k ↦
          subst (Apart gap (c.started name)) (sym (starts-none name call calls c e))
            (subst (λ l. Apart gap l (starts name calls (step call c))) k ih)
      | begun at e k far ↦
          subst (Apart gap (c.started name)) (sym (starts-some name call calls c at e)) (
            Apart-start gap (c.started name) at (starts name calls (step call c)) far
              (subst (λ l. Apart gap l (starts name calls (step call c))) k ih))
    ]
starts-Apart name gap (reserves tracker spacing now ∷ calls) c h =
    starts-Apart name gap calls (step (reserves tracker spacing now) c) h

-- From the zero value, in every run of calls in which the tracker asks for one spacing, two
-- consecutive starts of it are at least that spacing apart.
pub spacer_gaps :
    (name : Text) (gap : ℕ) (calls : List Call)
    → AsksFor name gap calls
    → Apart gap none (starts name calls new_spacer)
spacer_gaps name gap calls h = starts-Apart name gap calls new_spacer h
