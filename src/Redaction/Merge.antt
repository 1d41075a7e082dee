-- ===== src/Redaction/Merge.antt =====
-- The merge of the edits of a page, for backend/internal/pageredact/edits.go.
use marauder.Prelude.{
  ℕ, ◌≤◌, ◌<◌, max, ◌≡◌, refl, ◌∙◌, inl, inr, Bool, true, false, ◌&&◌, ◌||◌, List, [], ◌∷◌, arith,
  ltb, leb, Bool-cases, All,
}
use marauder.Redaction.{Edit, insert_edit, sort_edits, merge_from, merge_sorted, merge_edits}

-- The edit is a span of a page of so many bytes, and not an empty one.
pub record Fits (n : ℕ) (e : Edit) : Type 0 where
  pub nonempty : e.start < e.end
  pub inside : e.end ≤ n

-- The byte at this position belongs to an edit.
unfoldable pub covers : List Edit → ℕ → Bool
covers [] i = false
covers (e ∷ es) i = leb e.start i && ltb i e.end || covers es i

covers-insert_edit :
    (e : Edit) (es : List Edit) (i : ℕ) → covers (insert_edit e es) i ≡ covers (e ∷ es) i
unfolding covers insert_edit
covers-insert_edit e [] i = refl
covers-insert_edit e (f ∷ es) i = elim (Bool-cases (leb e.start f.start)) [
  | inl c ↦ rw c refl
  | inr c ↦ rw (c, covers-insert_edit e es i) (ground arith)
]

covers-sort_edits : (es : List Edit) (i : ℕ) → covers (sort_edits es) i ≡ covers es i
unfolding covers sort_edits
covers-sort_edits [] i = refl
covers-sort_edits (e ∷ es) i =
    covers-insert_edit e (sort_edits es) i ∙ rw (covers-sort_edits es i) refl

All-insert_edit :
    (P : Edit → Type 0) (e : Edit) (es : List Edit) → P e → All P es → All P (insert_edit e es)
unfolding insert_edit
All-insert_edit P e [] p h = (p, tt)
All-insert_edit P e (f ∷ es) p (q, h) = elim (Bool-cases (leb e.start f.start)) [
  | inl c ↦ rw c (p, (q, h))
  | inr c ↦ rw c (q, All-insert_edit P e es p h)
]

All-sort_edits : (P : Edit → Type 0) (es : List Edit) → All P es → All P (sort_edits es)
unfolding sort_edits
All-sort_edits P [] h = tt
All-sort_edits P (e ∷ es) (p, h) = All-insert_edit P e (sort_edits es) p (All-sort_edits P es h)

-- No edit starts before those in front of it, nor before `at`.
unfoldable is_ascending : ℕ → List Edit → Bool
is_ascending at [] = true
is_ascending at (e ∷ es) = leb at e.start && is_ascending e.start es

is_ascending-insert_edit :
    (at : ℕ) (e : Edit) (es : List Edit)
    → at ≤ e.start
    → is_ascending at es ≡ true
    → is_ascending at (insert_edit e es) ≡ true
unfolding is_ascending insert_edit
is_ascending-insert_edit at e [] l h = ground arith
is_ascending-insert_edit at e (f ∷ es) l h = elim (Bool-cases (leb e.start f.start)) [
  | inl c ↦ rw c (ground arith)
  | inr c ↦ rw c (ground (arith, is_ascending-insert_edit f.start e es))
]

is_ascending-sort_edits : (es : List Edit) → is_ascending 0 (sort_edits es) ≡ true
unfolding is_ascending sort_edits
is_ascending-sort_edits [] = refl
is_ascending-sort_edits (e ∷ es) =
    is_ascending-insert_edit 0 e (sort_edits es) (omega arith) (is_ascending-sort_edits es)

is_ascending_lower :
    (a b : ℕ) (es : List Edit) → a ≤ b → is_ascending b es ≡ true → is_ascending a es ≡ true
unfolding is_ascending
is_ascending_lower a b [] l h = refl
is_ascending_lower a b (e ∷ es) l h = ground arith

abbrev joined : Edit → Edit → Edit
joined cur e = record {
  start = cur.start;
  end = max cur.end e.end;
  is_drop = cur.is_drop && e.is_drop;
}

-- Edits behind one another, from `at` to the end of a page of `n` bytes.
unfoldable pub Chain : ℕ → ℕ → List Edit → Type 0
Chain at n [] = at ≤ n
Chain at n (e ∷ es) = (at ≤ e.start) × (e.start < e.end) × Chain e.end n es

merge_from-Chain :
    (at n : ℕ) (es : List Edit) (cur : Edit)
    → at ≤ cur.start
    → Fits n cur
    → All (Fits n) es
    → is_ascending cur.start es ≡ true
    → Chain at n (merge_from cur es)
unfolding Chain merge_from is_ascending
merge_from-Chain at n [] cur l f fs h = (l, f.nonempty, f.inside)
merge_from-Chain at n (e ∷ es) cur l f (g, fs) h = elim (Bool-cases (ltb e.start cur.end)) [
  | inl c ↦ rw c (
      merge_from-Chain at n es (joined cur e) l
        (record {
          nonempty = ground (arith, f.nonempty);
          inside = ground (arith, f.inside, g.inside);
        })
        fs (is_ascending_lower cur.start e.start es (ground arith) (ground arith)))
  | inr c ↦ rw c (l, f.nonempty, merge_from-Chain cur.end n es e (ground arith) g fs (ground arith))
]

merge_from-covers :
    (es : List Edit) (cur : Edit) (i : ℕ)
    → is_ascending cur.start es ≡ true
    → covers (cur ∷ es) i ≡ true
    → covers (merge_from cur es) i ≡ true
unfolding covers merge_from is_ascending
merge_from-covers [] cur i h c = c
merge_from-covers (e ∷ es) cur i h c = elim (Bool-cases (ltb e.start cur.end)) [
  | inl d ↦ rw d (
      merge_from-covers es (joined cur e) i
        (is_ascending_lower cur.start e.start es (ground arith) (ground arith)) (ground arith))
  | inr d ↦ rw d (elim (Bool-cases (leb cur.start i && ltb i cur.end)) [
    | inl k ↦ rw k refl
    | inr k ↦ ground (arith, merge_from-covers es e i)
  ])
]

pub merge_edits-Chain : (n : ℕ) (es : List Edit) → All (Fits n) es → Chain 0 n (merge_edits es)
unfolding merge_edits Chain is_ascending
merge_edits-Chain n es fs =
    merged (sort_edits es) (All-sort_edits (Fits n) es fs) (is_ascending-sort_edits es)
  where
    merged : (l : List Edit) → All (Fits n) l → is_ascending 0 l ≡ true → Chain 0 n (merge_sorted l)
    merged [] f h = omega arith
    merged (e ∷ l) (f, fs) h = merge_from-Chain 0 n l e (omega arith) f fs (ground arith)

pub merge_edits-covers :
    (es : List Edit) (i : ℕ) → covers es i ≡ true → covers (merge_edits es) i ≡ true
unfolding merge_edits is_ascending
merge_edits-covers es i c =
    merged (sort_edits es) (is_ascending-sort_edits es) (covers-sort_edits es i ∙ c)
  where
    merged :
        (l : List Edit)
        → is_ascending 0 l ≡ true
        → covers l i ≡ true
        → covers (merge_sorted l) i ≡ true
    merged [] h c = c
    merged (e ∷ l) h c = merge_from-covers l e i (ground arith) c

pub Chain-inside : (at n : ℕ) (es : List Edit) → Chain at n es → at ≤ n
unfolding Chain
Chain-inside at n [] h = h
Chain-inside at n (e ∷ es) (l, p, h) = let z = Chain-inside e.end n es h in omega arith

pub Chain-Fits : (at n : ℕ) (es : List Edit) → Chain at n es → All (Fits n) es
unfolding Chain
Chain-Fits at n [] h = tt
Chain-Fits at n (e ∷ es) (l, p, h) =
    (record { nonempty = p; inside = Chain-inside e.end n es h }, Chain-Fits e.end n es h)
