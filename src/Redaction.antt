-- ===== src/Redaction.antt =====
-- backend/internal/pageredact/edits.go: how the secrets of a page are hidden.
pub mod Merge
pub mod Hides
pub mod Written
use marauder.Prelude.{
  ℕ, zero, suc, ◌+◌, ◌-◌, min, max, Bool, false, ◌&&◌, Option, none, some, List, [], ◌∷◌, ◌++◌, ltb,
  leb, if◌then◌else◌, ◌>>=◌, length, take, drop, Text, codes, has_prefix,
}

-- `edit`, with its span.
pub record Edit : Type 0 where
  pub start : ℕ
  pub end : ℕ
  pub is_drop : Bool

-- `Placeholder`.
abbrev pub placeholder : Text
placeholder = codes "MARAUDER-REDACTED"

-- `sort.Slice` by the start.
unfoldable pub insert_edit : Edit → List Edit → List Edit
insert_edit e [] = e ∷ []
insert_edit e (f ∷ es) =
    let rest = insert_edit e es in if leb e.start f.start then e ∷ f ∷ es else f ∷ rest

unfoldable pub sort_edits : List Edit → List Edit
unfolding insert_edit
sort_edits [] = []
sort_edits (e ∷ es) = insert_edit e (sort_edits es)

-- The loop of `mergeEdits`, from the edit at hand on.
unfoldable pub merge_from : Edit → List Edit → List Edit
merge_from cur [] = cur ∷ []
merge_from cur (e ∷ es) =
    let joined =
      merge_from
        (record { start = cur.start; end = max cur.end e.end; is_drop = cur.is_drop && e.is_drop })
        es in
    let apart = merge_from e es in if ltb e.start cur.end then joined else cur ∷ apart

unfoldable pub merge_sorted : List Edit → List Edit
unfolding merge_from
merge_sorted [] = []
merge_sorted (e ∷ es) = merge_from e es

-- `mergeEdits(es)`.
unfoldable pub merge_edits : List Edit → List Edit
unfolding sort_edits merge_sorted
merge_edits es = merge_sorted (sort_edits es)

pub record Span : Type 0 where
  pub start : ℕ
  pub end : ℕ

-- Where the placeholder stands in the page, from the left and without overlaps: what the calls of
-- `bytes.Index` find. `wait` bytes belong to the placeholder found last.
unfoldable pub placeholders : (at wait : ℕ) → Text → List Span
placeholders at wait [] = []
placeholders at (suc wait) (c ∷ page) = placeholders (at + 1) wait page
placeholders at zero (c ∷ page) =
    let found = placeholders (at + 1) (length placeholder - 1) page in
    let rest = placeholders (at + 1) 0 page in
    if has_prefix (c ∷ page) placeholder
    then record { start = at; end = at + length placeholder } ∷ found
    else rest

-- The inner loop of `absorbPlaceholders`, from the edit that may still overlap on.
unfoldable pub widen : Span → List Edit → List Edit
widen p [] = []
widen p (e ∷ es) =
    let rest = widen p es in
    if ltb e.start p.end
    then record { start = min e.start p.start; end = max e.end p.end; is_drop = false } ∷ rest
    else e ∷ es

-- The loop that passes over the edits that end before the placeholder: those passed, and the others.
unfoldable pub pass_over : Span → List Edit → List Edit × List Edit
pass_over p [] = ([], [])
pass_over p (e ∷ es) =
    let (passed, rest) = pass_over p es in
    if leb e.end p.start then (e ∷ passed, rest) else ([], e ∷ es)

-- `absorbPlaceholders`, for the placeholders of the page.
unfoldable pub absorb : List Span → List Edit → List Edit
unfolding widen pass_over
absorb [] es = es
absorb (p ∷ ps) es = let (passed, rest) = pass_over p es in passed ++ absorb ps (widen p rest)

-- A piece of the output.
pub data Piece : Type 0 where
  kept : Text → Piece
  hidden : Piece

-- `page[a:b]`; `none` is a panic.
unfoldable pub slice : Text → ℕ → ℕ → Option Text
slice page a b = if leb a b && leb b (length page) then some (take (b - a) (drop a page)) else none

-- The loop of `apply`, and the write behind it.
unfoldable pub write_pieces : Text → (at : ℕ) → List Edit → Option (List Piece)
unfolding slice
write_pieces page at [] = slice page at (length page) >>= λ s. some (kept s ∷ [])
write_pieces page at (e ∷ es) =
    let rest = write_pieces page e.end es in
    slice page at e.start >>= λ s.
    rest >>= λ ps. some (if e.is_drop then kept s ∷ ps else kept s ∷ hidden ∷ ps)

-- The edits that `apply` writes.
unfoldable pub final_edits : Text → List Edit → List Edit
unfolding merge_edits absorb placeholders
final_edits page es = merge_edits (absorb (placeholders 0 0 page) (merge_edits es))

unfoldable pub flatten : List Piece → Text
flatten [] = []
flatten (kept s ∷ ps) = s ++ flatten ps
flatten (hidden ∷ ps) = placeholder ++ flatten ps

-- `editList.apply`; `none` is a panic.
unfoldable pub apply : List Edit → Text → Option Text
unfolding final_edits write_pieces flatten
apply [] page = some page
apply (e ∷ es) page = write_pieces page 0 (final_edits page (e ∷ es)) >>= λ ps. some (flatten ps)
