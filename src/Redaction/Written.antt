-- ===== src/Redaction/Written.antt =====
-- The bytes that a redacted page keeps.
use marauder.Prelude.{
  ℕ, ◌+◌, ◌-◌, ◌≤◌, ◌<◌, ◌≡◌, refl, sym, ap, ◌∙◌, inl, inr, true, false, ◌&&◌, some, List, [], ◌∷◌,
  ◌++◌, arith, ltb, leb, if◌then◌else◌, Bool-cases, length, take, drop, All, length-take,
  length-drop, take-append-drop, drop-drop, Text,
}
use marauder.Redaction.{Edit, Piece, kept, hidden, slice, write_pieces, final_edits}
use marauder.Redaction.Hides.{final_edits-Chain, final_edits-covers}
use marauder.Redaction.Merge.{Fits, covers, Chain, Chain-inside}

-- The bytes of the page that the pieces keep.
unfoldable pub kept_bytes : List Piece → Text
kept_bytes [] = []
kept_bytes (kept s ∷ ps) = s ++ kept_bytes ps
kept_bytes (hidden ∷ ps) = kept_bytes ps

-- The bytes of a page that no edit covers; the page starts at position `at`.
unfoldable pub uncovered : List Edit → (at : ℕ) → Text → Text
uncovered es at [] = []
uncovered es at (c ∷ page) =
    let rest = uncovered es (at + 1) page in if covers es at then rest else c ∷ rest

uncovered-append :
    (es : List Edit) (at : ℕ) (xs ys : Text)
    → uncovered es at (xs ++ ys) ≡ uncovered es at xs ++ uncovered es (at + length xs) ys
unfolding uncovered
uncovered-append es at [] ys = ap (λ k. uncovered es k ys) (omega arith)
uncovered-append es at (c ∷ xs) ys = elim (Bool-cases (covers es at)) [
  | inl e ↦ rw e (
      uncovered-append es (at + 1) xs ys
      ∙ ap (λ k. uncovered es (at + 1) xs ++ uncovered es k ys) (omega arith))
  | inr e ↦ rw e (
      ap (λ r. c ∷ r)
        (uncovered-append es (at + 1) xs ys
          ∙ ap (λ k. uncovered es (at + 1) xs ++ uncovered es k ys) (omega arith)))
]

covers_before : (b n i : ℕ) (es : List Edit) → Chain b n es → i < b → covers es i ≡ false
unfolding Chain covers
covers_before b n i [] h l = refl
covers_before b n i (e ∷ es) (x, y, h) l = ground (arith, covers_before e.end n i es h)

-- What stands before the first edit is kept, what stands in it is not.
uncovered_before :
    (b n at : ℕ) (es : List Edit) (xs : Text)
    → Chain b n es
    → at + length xs ≤ b
    → uncovered es at xs ≡ xs
unfolding uncovered
uncovered_before b n at es [] h l = refl
uncovered_before b n at es (c ∷ xs) h l =
    rw (covers_before b n at es h (omega arith))
      (ap (λ r. c ∷ r) (uncovered_before b n (at + 1) es xs h (omega arith)))

uncovered_inside :
    (e : Edit) (es : List Edit) (at : ℕ) (xs : Text)
    → e.start ≤ at
    → at + length xs ≤ e.end
    → uncovered (e ∷ es) at xs ≡ []
unfolding uncovered covers
uncovered_inside e es at [] l m = refl
uncovered_inside e es at (c ∷ xs) l m =
    let in_e : (leb e.start at && ltb at e.end) ≡ true = ground arith in
    rw in_e (uncovered_inside e es (at + 1) xs (omega arith) (omega arith))

uncovered_behind :
    (e : Edit) (es : List Edit) (at : ℕ) (xs : Text)
    → e.end ≤ at
    → uncovered (e ∷ es) at xs ≡ uncovered es at xs
unfolding uncovered covers
uncovered_behind e es at [] l = refl
uncovered_behind e es at (c ∷ xs) l =
    let off_e : (leb e.start at && ltb at e.end) ≡ false = ground arith in
    rw (off_e, uncovered_behind e es (at + 1) xs (omega arith)) refl

slice_within :
    (page : Text) (a b : ℕ)
    → a ≤ b
    → b ≤ length page
    → slice page a b ≡ some (take (b - a) (drop a page))
unfolding slice
slice_within page a b l m =
    rw ((let t : (leb a b && leb b (length page)) ≡ true = ground arith in t)) refl

-- The page behind a position, split at another.
split_at : (page : Text) (a b : ℕ) → a ≤ b → drop a page ≡ take (b - a) (drop a page) ++ drop b page
split_at page a b l =
    sym (take-append-drop (b - a) (drop a page))
    ∙ ap (λ r. take (b - a) (drop a page) ++ r)
        (drop-drop a (b - a) page ∙ ap (λ k. drop k page) (omega arith))

length-split :
    (page : Text) (a b : ℕ) → a ≤ b → b ≤ length page → length (take (b - a) (drop a page)) ≡ b - a
length-split page a b l m =
    let n = length-take (b - a) (drop a page) in let k = length-drop a page in omega arith

drop_all : (xs : Text) → drop (length xs) xs ≡ []
drop_all [] = refl
drop_all (c ∷ xs) = drop_all xs

uncovered_whole : (at : ℕ) (xs : Text) → uncovered [] at xs ≡ xs
unfolding uncovered covers
uncovered_whole at [] = refl
uncovered_whole at (c ∷ xs) = ap (λ r. c ∷ r) (uncovered_whole (at + 1) xs)

-- One edit: the bytes in front of it, and those behind it.
uncovered_edit :
    (page : Text) (at : ℕ) (e : Edit) (es : List Edit)
    → at ≤ e.start
    → e.start < e.end
    → e.end ≤ length page
    → Chain at (length page) (e ∷ es)
    → uncovered (e ∷ es) at (drop at page)
      ≡ take (e.start - at) (drop at page) ++ uncovered es e.end (drop e.end page)
unfolding Chain
uncovered_edit page at e es l m n h =
    let s = take (e.start - at) (drop at page) in
    let t = take (e.end - e.start) (drop e.start page) in
    let r = drop e.end page in
    let len_s : length s ≡ e.start - at = length-split page at e.start l (omega arith) in
    let len_t : length t ≡ e.end - e.start = length-split page e.start e.end (omega arith) n in
    let parts : drop at page ≡ s ++ (t ++ r) =
      split_at page at e.start l ∙ ap (λ x. s ++ x) (split_at page e.start e.end (omega arith)) in
    let front : uncovered (e ∷ es) at s ≡ s =
      uncovered_before e.start (length page) at (e ∷ es) s (omega arith, h.1, h.2) (omega arith) in
    let inside : uncovered (e ∷ es) e.start t ≡ [] =
      uncovered_inside e es e.start t (omega arith) (omega arith) in
    let back : uncovered (e ∷ es) e.end r ≡ uncovered es e.end r =
      uncovered_behind e es e.end r (omega arith) in
    ap (uncovered (e ∷ es) at) parts
    ∙ uncovered-append (e ∷ es) at s (t ++ r)
    ∙ ap (λ x. x ++ uncovered (e ∷ es) (at + length s) (t ++ r)) front
    ∙ ap (λ k. s ++ uncovered (e ∷ es) k (t ++ r))
        (let q : at + length s ≡ e.start = omega arith in q)
    ∙ ap (λ x. s ++ x)
        (uncovered-append (e ∷ es) e.start t r
          ∙ ap (λ x. x ++ uncovered (e ∷ es) (e.start + length t) r) inside
          ∙ ap (λ k. uncovered (e ∷ es) k r) (let q : e.start + length t ≡ e.end = omega arith in q)
          ∙ back)

abbrev Wrote : Text → ℕ → List Edit → Type 0
Wrote page at es =
    (ps : List Piece) × (write_pieces page at es ≡ some ps)
    × (kept_bytes ps ≡ uncovered es at (drop at page))

write_pieces-Wrote :
    (page : Text) (at : ℕ) (es : List Edit) → Chain at (length page) es → Wrote page at es
unfolding write_pieces kept_bytes Chain
write_pieces-Wrote page at [] h =
    let s = take (length page - at) (drop at page) in
    (
      kept s ∷ [],
      rw (slice_within page at (length page) h (omega arith)) refl,
      ap (λ x. s ++ x) (sym (drop_all page))
          ∙ sym (split_at page at (length page) h)
          ∙ sym (uncovered_whole at (drop at page)),
    )
write_pieces-Wrote page at (e ∷ es) (l, m, h) =
    let (ps, w, k) = write_pieces-Wrote page e.end es h in
    let within = Chain-inside e.end (length page) es h in
    let s = take (e.start - at) (drop at page) in
    let out = uncovered_edit page at e es l m within (l, m, h) in
    let cut_s = slice_within page at e.start l (omega arith) in
    elim (Bool-cases e.is_drop) [
      | inl d ↦ (kept s ∷ ps, simp (cut_s, w, d) refl, ap (λ x. s ++ x) k ∙ sym out)
      | inr d ↦ (kept s ∷ hidden ∷ ps, simp (cut_s, w, d) refl, ap (λ x. s ++ x) k ∙ sym out)
    ]

-- The edits of a page are written without a panic, if each is a span of the page and not empty. What the output
-- keeps of the page are exactly the bytes that the final edits do not cover, and they cover each byte
-- that one of the edits covers: no byte of a secret is kept.
pub write_pieces-hides :
    (page : Text) (es : List Edit)
    → All (Fits (length page)) es
    → (ps : List Piece) × (write_pieces page 0 (final_edits page es) ≡ some ps)
      × (kept_bytes ps ≡ uncovered (final_edits page es) 0 page)
      × ((i : ℕ) → covers es i ≡ true → covers (final_edits page es) i ≡ true)
write_pieces-hides page es fs =
    let (ps, w, k) =
      write_pieces-Wrote page 0 (final_edits page es) (final_edits-Chain page es fs) in
    (ps, w, k, final_edits-covers page es)
