-- ===== src/Scheduler/Spacing/Turn.antt =====
-- `awaitCheckTurn` and `sleepCtx`: one goroutine's wait for its tracker's turn. The context, the
-- timers, the clock and the database answer by arguments: whether the context has ended, whether
-- each sleep runs to its end, and the reading of the clock at each try to claim a start.
use marauder.Prelude.{
  ℕ, ◌+◌, ◌≤◌, ◌<◌, ◌≡◌, refl, subst, ◌≢◌, inl, inr, Bool, true, false, ◌||◌, Option, some, List,
  [], ◌∷◌, arith, ltb, ◌==◌, if◌then◌else◌, Bool-cases, Option-cases, Text, text_eq_refl,
}
use marauder.Scheduler.Spacing.{Spacer, claim, reserve, record_start, set_time}

-- The topic read again after the wait.
pub data Reread {ℓ} (A : Type ℓ) : Type ℓ where
  not_found read_failed : Reread A
  row : A → Bool → Reread A

-- One round of the last loop: the clock's reading, and whether the sleep behind it runs to its end.
pub record Try : Type 0 where
  pub now : ℕ
  pub slept : Bool

-- `waiting` is the model's: the rounds given are over and the goroutine still sleeps.
pub data Turn {ℓ} (A : Type ℓ) : Type ℓ where
  start : A → Turn A
  skip waiting : Turn A

-- `sleepCtx(ctx, d)`.
unfoldable pub sleep_ctx : ℕ → Bool → Bool
sleep_ctx d slept = d == 0 || slept

module _ {ℓ} {A : Type ℓ} (tracker : Text) (spacing : ℕ) where
  unfoldable pub claim_loop : A → List Try → Spacer → Turn A × Spacer
  claim_loop t [] c = (waiting, c)
  claim_loop t (r ∷ rs) c =
      let (wait, c') = claim tracker spacing r.now c in
      let later = claim_loop t rs c' in
      if wait == 0 then (start t, c') else if sleep_ctx wait r.slept then later else (skip, c')

  -- The `switch` on the row that was read again.
  unfoldable pub after_reread : A → Reread A → List Try → Spacer → Turn A × Spacer
  unfolding claim_loop
  after_reread t not_found rs c = (skip, c)
  after_reread t read_failed rs c = claim_loop t rs c
  after_reread t (row fresh paused) rs c = if paused then (skip, c) else claim_loop fresh rs c

  -- `awaitCheckTurn`.
  unfoldable pub await_check_turn :
      A → Bool → ℕ → Bool → Reread A → List Try → Spacer → Turn A × Spacer
  unfolding after_reread
  await_check_turn t ended now slept read rs c =
      let (wait, c') = reserve tracker spacing now c in
      if spacing == 0
      then (start t, c)
      else if ended
      then (skip, c)
      else if sleep_ctx wait slept
      then after_reread t read rs c'
      else (skip, c')

  -- What a turn did to the starts of the tracker: one start, at the reading of a claim that is the
  -- spacing after the start before it, or none.
  pub data Outcome (old : Option ℕ) : Turn A → Option ℕ → Type ℓ where
    began :
        (t : A) (now : ℕ) (new : Option ℕ)
        → new ≡ some now
        → ((last : ℕ) → old ≡ some last → last + spacing ≤ now)
        → Outcome old (start t) new
    left_skip : (new : Option ℕ) → new ≡ old → Outcome old skip new
    left_waiting : (new : Option ℕ) → new ≡ old → Outcome old waiting new

module _ (tracker : Text) (spacing : ℕ) where
  claim_zero :
      (now : ℕ) (c : Spacer)
      → (claim tracker spacing now c).0 ≡ 0
      → ((claim tracker spacing now c).1.started tracker ≡ some now)
        × ((last : ℕ) → c.started tracker ≡ some last → last + spacing ≤ now)
  unfolding claim record_start set_time
  claim_zero now c z = elim (Option-cases (c.started tracker)) [
    | inl e ↦ (ground (arith, e, text_eq_refl tracker), λ last k. cc (e, k))
    | inr (l, e) ↦ elim (Bool-cases (ltb now (l + spacing))) [
      | inl early ↦ absurd (ground (arith, e, early, z))
      | inr late ↦ (
        ground (arith, e, late, text_eq_refl tracker),
        λ last k. let same : last ≡ l = cc (e, k) in ground (arith, late, same),
      )
    ]
  ]

  claim_positive :
      (now : ℕ) (c : Spacer)
      → (claim tracker spacing now c).0 ≢ 0
      → (claim tracker spacing now c).1.started tracker ≡ c.started tracker
  unfolding claim
  claim_positive now c z = elim (Option-cases (c.started tracker)) [
    | inl e ↦ absurd (z (ground (arith, e)))
    | inr (l, e) ↦ ground (arith, e, z)
  ]

module _ {ℓ} {A : Type ℓ} (tracker : Text) (spacing : ℕ) where
  claim_loop-Outcome :
      (t : A) (rs : List Try) (c : Spacer)
      → Outcome {A = A} tracker spacing
          (c.started tracker)
          (claim_loop tracker spacing t rs c).0
          ((claim_loop tracker spacing t rs c).1.started tracker)
  unfolding claim_loop
  claim_loop-Outcome t [] c = left_waiting _ refl
  claim_loop-Outcome t (r ∷ rs) c =
      let later = claim_loop-Outcome t rs (claim tracker spacing r.now c).1 in
      elim (Bool-cases ((claim tracker spacing r.now c).0 == 0)) [
        | inl e ↦
            let (at, far) = claim_zero tracker spacing r.now c (ground (arith, e)) in
            rw e (began t r.now _ at far)
        | inr e ↦
            let kept = claim_positive tracker spacing r.now c (ground (arith, e)) in
            elim (Bool-cases (sleep_ctx (claim tracker spacing r.now c).0 r.slept)) [
              | inl k ↦
                  let res = claim_loop tracker spacing t rs (claim tracker spacing r.now c).1 in
                  rw (e, k)
                    (subst
                      (λ old. Outcome {A = A} tracker spacing old res.0 (res.1.started tracker))
                      kept later)
              | inr k ↦ rw (e, k) (left_skip _ kept)
            ]
      ]

  after_reread-Outcome :
      (t : A) (read : Reread A) (rs : List Try) (c : Spacer)
      → Outcome {A = A} tracker spacing
          (c.started tracker)
          (after_reread tracker spacing t read rs c).0
          ((after_reread tracker spacing t read rs c).1.started tracker)
  unfolding after_reread
  after_reread-Outcome t not_found rs c = left_skip _ refl
  after_reread-Outcome t read_failed rs c = claim_loop-Outcome t rs c
  after_reread-Outcome t (row fresh true) rs c = left_skip _ refl
  after_reread-Outcome t (row fresh false) rs c = claim_loop-Outcome fresh rs c

  -- For a tracker that asks for a spacing, a check is let through only together with a recorded
  -- start, at least the spacing after the one before it; a check that is skipped, or still waits,
  -- leaves the tracker's last start as it was.
  await_check_turn-Outcome :
      (t : A) (ended : Bool) (now : ℕ) (slept : Bool) (read : Reread A) (rs : List Try) (c : Spacer)
      → 0 < spacing
      → Outcome {A = A} tracker spacing
          (c.started tracker)
          (await_check_turn tracker spacing t ended now slept read rs c).0
          ((await_check_turn tracker spacing t ended now slept read rs c).1.started tracker)
  unfolding await_check_turn reserve
  await_check_turn-Outcome t ended now slept read rs c h =
      let c' = (reserve tracker spacing now c).1 in
      let wait = (reserve tracker spacing now c).0 in
      let spaced : (spacing == 0) ≡ false = ground arith in
      let after = after_reread-Outcome t read rs c' in
      elim (Bool-cases ended) [
        | inl e ↦ rw (spaced, e) (left_skip _ refl)
        | inr e ↦ elim (Bool-cases (sleep_ctx wait slept)) [
          | inl k ↦ rw (spaced, e, k) after
          | inr k ↦ rw (spaced, e, k) (left_skip _ refl)
        ]
      ]
