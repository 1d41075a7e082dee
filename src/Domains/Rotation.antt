-- ===== src/Domains/Rotation.antt =====
-- When a tracker's active domain rotates, and to which domain.
use marauder.Prelude.{
  ℕ, zero, suc, ◌+◌, ◌-◌, ◌%◌, ◌≤◌, ◌<◌, ◌≡◌, refl, sym, ap, ◌∙◌, subst, ◌↔◌, inl, inr, Bool, true,
  false, not, ◌&&◌, some, List, [], ◌∷◌, ◌++◌, arith, ltb, leb, if◌then◌else◌, is_some, ltb→lt,
  leb→le, Bool-cases, length, get_or, length-append, Text, text_eq, text_eq_iff, text_eq_refl,
}
use marauder.Prelude.Int.{ℤ}
use marauder.Domains.{
  Store, put, in_cooldown, window_over, counted, index_of, next_domain, from_domain, rotate,
  report_failure, rotate_failure_threshold,
}

-- No domain stands twice in a ring.
unfoldable pub has_host : Text → List Text → Bool
has_host d [] = false
has_host d (x ∷ xs) = if text_eq x d then true else has_host d xs

unfoldable pub distinct_hosts : List Text → Bool
unfolding has_host
distinct_hosts [] = true
distinct_hosts (d ∷ ds) = not (has_host d ds) && distinct_hosts ds

get_has : (ds : List Text) (i : ℕ) → i < length ds → has_host (get_or ds i []) ds ≡ true
unfolding has_host
get_has [] i h = absurd (omega arith)
get_has (d ∷ ds) zero h = ground (arith, text_eq_refl d)
get_has (d ∷ ds) (suc i) h = ground (arith, get_has ds i (omega arith))

-- In a ring without repetition the loop finds each position.
pub index_of-get :
    (ds : List Text) (i k : ℕ)
    → distinct_hosts ds ≡ true
    → i < length ds
    → index_of (get_or ds i []) ds k ≡ k + i
unfolding index_of distinct_hosts
index_of-get [] i k dist h = absurd (omega arith)
index_of-get (d ∷ ds) zero k dist h = ground (arith, text_eq_refl d)
index_of-get (d ∷ ds) (suc i) k dist h = elim (Bool-cases (text_eq d (get_or ds i []))) [
  | inl e ↦
      let has : has_host d ds ≡ true =
        subst (λ x. has_host x ds ≡ true) (sym ((text_eq_iff d (get_or ds i [])).0 e))
          (get_has ds i (omega arith)) in
      absurd (ground (arith, has, dist))
  | inr e ↦
      let rest : distinct_hosts ds ≡ true = ground arith in
      rw e (index_of-get ds i (suc k) rest (omega arith) ∙ omega arith)
]

-- The failure that rotates a tracker: none of the last ten minutes' rotations, the second failure of a
-- window, and a ring of two domains at least.
pub record Rotates (known : List Text) (name : Text) (now : ℤ) (s : Store) : Type 0 where
  pub ring : 2 ≤ length (known ++ (s.cfg name).custom)
  pub cooled : in_cooldown (s.last_rotate name) now ≡ false
  pub within : window_over (s.fail_window name) now ≡ false
  pub second : 1 ≤ s.fail_count name

-- A failure report rotates exactly if the ring has two domains at least, the last rotation is past the
-- cooldown, and it is not the first failure of its window.
pub report_failure_iff :
    (known : List Text) (name : Text) (now : ℤ) (s : Store)
    → Rotates known name now s ↔ (is_some (report_failure (some known) name now s).1 ≡ true)
unfolding report_failure rotate counted
report_failure_iff known name now s =
    elim (Bool-cases (ltb (length (known ++ (s.cfg name).custom)) 2)) [
      | inl few ↦ rw few (λ r. absurd (omega (arith, ltb→lt _ _ few, r.ring)), λ e. absurd (cc e))
      | inr many ↦ elim (Bool-cases (in_cooldown (s.last_rotate name) now)) [
        | inl hot ↦ rw (many, hot) (λ r. absurd (cc (hot, r.cooled)), λ e. absurd (cc e))
        | inr cool ↦ elim (Bool-cases (ltb (counted s name now) rotate_failure_threshold)) [
          | inl low ↦
              rw (many, cool, low)
                (
                  λ r. absurd (
                      let few : ltb (counted s name now) rotate_failure_threshold ≡ false =
                        ground (arith, r.within, r.second) in
                      cc (low, few)),
                  λ e. absurd (cc e),
                )
          | inr high ↦
              rw (many, cool, high)
                (
                  λ r. refl,
                  λ e. record {
                    ring = ground arith;
                    cooled = cool;
                    within = ground arith;
                    second = ground arith;
                  },
                )
        ]
      ]
    ]

-- A failure report that rotates leaves the ring's next domain active, keeps the custom domains, notes
-- the time of the rotation, and counts no failures.
pub report_failure-rotate :
    (known : List Text) (name : Text) (now : ℤ) (s : Store)
    → Rotates known name now s
    → ((report_failure (some known) name now s).0.cfg name ≡ record (s.cfg name) {
      active =
          next_domain
            (known ++ (s.cfg name).custom)
            (from_domain (known ++ (s.cfg name).custom) (s.cfg name));
    })
      × ((report_failure (some known) name now s).0.last_rotate name ≡ some now)
      × ((report_failure (some known) name now s).0.fail_count name ≡ 0)
unfolding report_failure rotate counted put
report_failure-rotate known name now s r =
    let many : ltb (length (known ++ (s.cfg name).custom)) 2 ≡ false = ground (arith, r.ring) in
    let few : ltb (counted s name now) rotate_failure_threshold ≡ false =
      ground (arith, r.within, r.second) in
    rw (many, r.cooled, few) (ground (arith, text_eq_refl name))

-- A number of rotations.
unfoldable pub rotations : List Text → ℕ → Text → Text
rotations ring zero d = d
rotations ring (suc k) d = rotations ring k (next_domain ring d)

module _ (ring : List Text) (dist : distinct_hosts ring ≡ true) where
  index_at : (i : ℕ) → i < length ring → index_of (get_or ring i []) ring 0 ≡ i
  index_at i h = index_of-get ring i 0 dist h ∙ omega arith

  next_up :
      (i : ℕ) → i + 1 < length ring → next_domain ring (get_or ring i []) ≡ get_or ring (i + 1) []
  unfolding next_domain
  next_up i h =
      rw (index_at i (omega arith)) (ap (λ k. get_or ring k []) (native.Mathlib.Nat.mod-eq_of_lt h))

  next_wraps :
      (i : ℕ) → i + 1 ≡ length ring → next_domain ring (get_or ring i []) ≡ get_or ring 0 []
  unfolding next_domain
  next_wraps i h = rw (index_at i (omega arith)) (
      ap (λ k. get_or ring k [])
        (ap (λ n. n % length ring) h ∙ native.Mathlib.Nat.mod_self (length ring)))

  rotations_up :
      (k i : ℕ) → i + k < length ring → rotations ring k (get_or ring i []) ≡ get_or ring (i + k) []
  unfolding rotations
  rotations_up zero i h = ap (λ n. get_or ring n []) (let e : i ≡ i + 0 = omega arith in e)
  rotations_up (suc k) i h =
      ap (rotations ring k) (next_up i (omega arith))
      ∙ rotations_up k (i + 1) (omega arith)
      ∙ ap (λ n. get_or ring n []) (let e : i + 1 + k ≡ i + suc k = omega arith in e)

  rotations-add :
      (k m : ℕ) (d : Text) → rotations ring (k + m) d ≡ rotations ring m (rotations ring k d)
  unfolding rotations
  rotations-add zero m d = ap (λ n. rotations ring n d) (let e : 0 + m ≡ m = omega arith in e)
  rotations-add (suc k) m d =
      ap (λ n. rotations ring n d) (let e : suc k + m ≡ suc (k + m) = omega arith in e)
      ∙ rotations-add k m (next_domain ring d)

  -- From any domain of a ring without repetition, each domain of the ring becomes active after
  -- some number of rotations, at most as many as the ring has domains.
  pub rotations_reach :
      (i j : ℕ)
      → i < length ring
      → j < length ring
      → (k : ℕ) × (k ≤ length ring) × (rotations ring k (get_or ring i []) ≡ get_or ring j [])
  unfolding rotations
  rotations_reach i j hi hj = elim (Bool-cases (leb i j)) [
    | inl e ↦ (
      j - i,
      omega arith,
      rotations_up (j - i) i (omega (arith, leb→le i j e))
          ∙ ap (λ n. get_or ring n []) (let s : i + (j - i) ≡ j = omega (arith, leb→le i j e) in s),
    )
    | inr e ↦
        let lt : j < i = ground arith in
        let up = length ring - 1 - i in
        (
          up + suc j,
          omega arith,
          rotations-add up (suc j) (get_or ring i [])
              ∙ ap (rotations ring (suc j)) (rotations_up up i (omega arith))
              ∙ ap (rotations ring j) (next_wraps (i + up) (omega arith))
              ∙ rotations_up j 0 (omega arith)
              ∙ ap (λ n. get_or ring n []) (let s : 0 + j ≡ j = omega arith in s),
        )
  ]

index_of-append :
    (before after : List Text) (d : Text) (k : ℕ)
    → has_host d before ≡ false
    → index_of d (before ++ d ∷ after) k ≡ k + length before
unfolding index_of has_host
index_of-append [] after d k h = ground (arith, text_eq_refl d)
index_of-append (x ∷ before) after d k h = ground (arith, index_of-append before after d (suc k))

get_behind :
    (before : List Text) (d : Text) (after : List Text)
    → get_or (before ++ d ∷ d ∷ after) (suc (length before)) [] ≡ d
get_behind [] d after = refl
get_behind (x ∷ before) d after = get_behind before d after

next_stuck :
    (before after : List Text) (d : Text)
    → has_host d before ≡ false
    → next_domain (before ++ d ∷ d ∷ after) d ≡ d
unfolding next_domain
next_stuck before after d h =
    let ring = before ++ d ∷ d ∷ after in
    let found : index_of d ring 0 ≡ length before =
      index_of-append before (d ∷ after) d 0 h ∙ omega arith in
    let small : (length before + 1) % length ring ≡ length before + 1 =
      native.Mathlib.Nat.mod-eq_of_lt (omega (arith, length-append before (d ∷ d ∷ after))) in
    let one : length before + 1 ≡ suc (length before) = omega arith in
    ap (λ i. get_or ring ((i + 1) % length ring) []) found
    ∙ ap (λ n. get_or ring n []) (small ∙ one)
    ∙ get_behind before d after

-- A domain that the ring holds twice in a row, and not before, stays the active one in every
-- number of rotations, whatever domains the ring has behind it.
pub rotations_stuck :
    (before after : List Text) (d : Text) (k : ℕ)
    → has_host d before ≡ false
    → rotations (before ++ d ∷ d ∷ after) k d ≡ d
unfolding rotations
rotations_stuck before after d zero h = refl
rotations_stuck before after d (suc k) h =
    ap (rotations (before ++ d ∷ d ∷ after) k) (next_stuck before after d h)
    ∙ rotations_stuck before after d k h
