-- ===== src/Redaction/Hides.antt =====
-- What a redacted page keeps.
use marauder.Prelude.{
  ℕ, zero, suc, ◌+◌, ◌-◌, ◌≤◌, ◌<◌, ◌≡◌, refl, sym, ap, ◌∙◌, subst, inl, inr, true, ◌||◌, List, [],
  ◌∷◌, ◌++◌, arith, ltb, leb, Bool-cases, length, All, All-append, Text, has_prefix,
}
use marauder.Redaction.{
  Edit, placeholder, merge_edits, Span, placeholders, widen, pass_over, absorb, final_edits,
}
use marauder.Redaction.Merge.{
  Fits, covers, Chain, merge_edits-Chain, merge_edits-covers, Chain-Fits,
}

-- The span is one of a page of so many bytes, and not an empty one.
record SpanFits (n : ℕ) (p : Span) : Type 0 where
  nonempty : p.start < p.end
  inside : p.end ≤ n

has_prefix-length : (s q : Text) → has_prefix s q ≡ true → length q ≤ length s
unfolding has_prefix
has_prefix-length s [] h = omega arith
has_prefix-length [] (c ∷ q) h = ground arith
has_prefix-length (d ∷ s) (c ∷ q) h = let l = has_prefix-length s q (ground arith) in omega arith

placeholders-SpanFits :
    (n at wait : ℕ) (page : Text)
    → at + length page ≤ n
    → All (SpanFits n) (placeholders at wait page)
unfolding placeholders
placeholders-SpanFits n at wait [] l = tt
placeholders-SpanFits n at (suc wait) (c ∷ page) l =
    placeholders-SpanFits n (at + 1) wait page (omega arith)
placeholders-SpanFits n at zero (c ∷ page) l =
    elim (Bool-cases (has_prefix (c ∷ page) placeholder)) [
      | inl h ↦
          let fits = has_prefix-length (c ∷ page) placeholder h in
          rw h (
            record { nonempty = omega arith; inside = omega arith },
            placeholders-SpanFits n (at + 1) (length placeholder - 1) page (omega arith),
          )
      | inr h ↦ rw h (placeholders-SpanFits n (at + 1) 0 page (omega arith))
    ]

widen-Fits :
    (n : ℕ) (p : Span) (es : List Edit) → SpanFits n p → All (Fits n) es → All (Fits n) (widen p es)
unfolding widen
widen-Fits n p [] f h = tt
widen-Fits n p (e ∷ es) f (g, h) = elim (Bool-cases (ltb e.start p.end)) [
  | inl c ↦ rw c (
    record { nonempty = ground (arith, g.nonempty); inside = ground (arith, f.inside, g.inside) },
    widen-Fits n p es f h,
  )
  | inr c ↦ rw c (g, h)
]

widen-covers :
    (p : Span) (es : List Edit) (i : ℕ) → covers es i ≡ true → covers (widen p es) i ≡ true
unfolding widen covers
widen-covers p [] i h = h
widen-covers p (e ∷ es) i h = elim (Bool-cases (ltb e.start p.end)) [
  | inl c ↦ rw c (ground (arith, widen-covers p es i))
  | inr c ↦ rw c h
]

pass_over_parts : (p : Span) (es : List Edit) → (pass_over p es).0 ++ (pass_over p es).1 ≡ es
unfolding pass_over
pass_over_parts p [] = refl
pass_over_parts p (e ∷ es) = elim (Bool-cases (leb e.end p.start)) [
  | inl c ↦ rw c (ap (λ r. e ∷ r) (pass_over_parts p es))
  | inr c ↦ rw c refl
]

covers-append : (xs ys : List Edit) (i : ℕ) → covers (xs ++ ys) i ≡ (covers xs i || covers ys i)
unfolding covers
covers-append [] ys i = refl
covers-append (x ∷ xs) ys i = rw (covers-append xs ys i) (ground arith)

All-parts : (P : Edit → Type 0) (xs ys : List Edit) → All P (xs ++ ys) → All P xs × All P ys
All-parts P [] ys h = (tt, h)
All-parts P (x ∷ xs) ys (p, h) = let (a, b) = All-parts P xs ys h in ((p, a), b)

absorb-Fits :
    (n : ℕ) (ps : List Span) (es : List Edit)
    → All (SpanFits n) ps
    → All (Fits n) es
    → All (Fits n) (absorb ps es)
unfolding absorb
absorb-Fits n [] es f h = h
absorb-Fits n (p ∷ ps) es (f, fs) h =
    let parts =
      All-parts (Fits n) (pass_over p es).0 (pass_over p es).1
        (subst (All (Fits n)) (sym (pass_over_parts p es)) h) in
    All-append (Fits n) (pass_over p es).0 _ parts.0
      (absorb-Fits n ps _ fs (widen-Fits n p _ f parts.1))

absorb-covers :
    (ps : List Span) (es : List Edit) (i : ℕ) → covers es i ≡ true → covers (absorb ps es) i ≡ true
unfolding absorb
absorb-covers [] es i h = h
absorb-covers (p ∷ ps) es i h =
    let split : (covers (pass_over p es).0 i || covers (pass_over p es).1 i) ≡ true =
      sym (covers-append (pass_over p es).0 (pass_over p es).1 i)
      ∙ ap (λ l. covers l i) (pass_over_parts p es)
      ∙ h in
    covers-append (pass_over p es).0 (absorb ps (widen p (pass_over p es).1)) i
    ∙ ground (
      arith,
      widen-covers p (pass_over p es).1 i,
      absorb-covers ps (widen p (pass_over p es).1) i,
    )

pub final_edits-Chain :
    (page : Text) (es : List Edit)
    → All (Fits (length page)) es
    → Chain 0 (length page) (final_edits page es)
unfolding final_edits
final_edits-Chain page es fs = merge_edits-Chain (length page) _ (
    absorb-Fits (length page) (placeholders 0 0 page) (merge_edits es)
      (placeholders-SpanFits (length page) 0 0 page (omega arith))
      (Chain-Fits 0 (length page) (merge_edits es) (merge_edits-Chain (length page) es fs)))

pub final_edits-covers :
    (page : Text) (es : List Edit) (i : ℕ)
    → covers es i ≡ true
    → covers (final_edits page es) i ≡ true
unfolding final_edits
final_edits-covers page es i c =
    merge_edits-covers _ i
      (absorb-covers (placeholders 0 0 page) (merge_edits es) i (merge_edits-covers es i c))
