-- ===== src/Sonarr/Order.antt =====
-- The order of the records of one poll, for backend/internal/sonarr/poller.go.
use marauder.Prelude.{
  ℕ, ◌+◌, max, ◌≡◌, refl, sym, ap, ◌∙◌, inl, inr, Bool, true, false, ◌&&◌, List, [], ◌∷◌, arith,
  if◌then◌else◌, Bool-cases, All, Text, text_eq, text_eq_iff,
}
use marauder.Sonarr.{HistoryRecord, is_newer, put_latest, is_before, insert, sort}

-- How many records have this URL.
unfoldable pub count_url : Text → List HistoryRecord → ℕ
count_url u [] = 0
count_url u (c ∷ m) = let rest = count_url u m in if text_eq c.url u then 1 + rest else rest

same_url : (a b u : Text) → text_eq a b ≡ true → text_eq a u ≡ text_eq b u
same_url a b u e = ap (λ t. text_eq t u) ((text_eq_iff a b).0 e)

pub same_urls : (a b u : Text) → text_eq a b ≡ false → text_eq a u ≡ true → text_eq b u ≡ true → ⊥
same_urls a b u n p q =
    cc (n, (text_eq_iff a b).1 ((text_eq_iff a u).0 p ∙ sym ((text_eq_iff b u).0 q)))

pub count_url-put_latest :
    (u : Text) (r : HistoryRecord) (m : List HistoryRecord)
    → count_url u (put_latest r m)
      ≡ (if text_eq r.url u then max 1 (count_url u m) else count_url u m)
unfolding count_url put_latest
count_url-put_latest u r [] = ground arith
count_url-put_latest u r (c ∷ m) = elim (Bool-cases (text_eq c.url r.url)) [
  | inl e ↦ rw e (ground (arith, same_url c.url r.url u e))
  | inr e ↦ rw e (ground (arith, same_urls c.url r.url u e, count_url-put_latest u r m))
]

count_url-insert :
    (u : Text) (r : HistoryRecord) (m : List HistoryRecord)
    → count_url u (insert r m) ≡ count_url u (r ∷ m)
unfolding count_url insert
count_url-insert u r [] = refl
count_url-insert u r (c ∷ m) = ground (arith, count_url-insert u r m)

pub count_url-sort : (u : Text) (m : List HistoryRecord) → count_url u (sort m) ≡ count_url u m
unfolding count_url sort
count_url-sort u [] = refl
count_url-sort u (r ∷ m) = ground (arith, count_url-insert u r (sort m), count_url-sort u m)

All-insert :
    (P : HistoryRecord → Type 0) (r : HistoryRecord) (m : List HistoryRecord)
    → P r
    → All P m
    → All P (insert r m)
unfolding insert
All-insert P r [] p h = (p, tt)
All-insert P r (c ∷ m) p (q, h) = elim (Bool-cases (is_before r c)) [
  | inl e ↦ rw e (p, (q, h))
  | inr e ↦ rw e (q, All-insert P r m p h)
]

pub All-sort : (P : HistoryRecord → Type 0) (m : List HistoryRecord) → All P m → All P (sort m)
unfolding sort
All-sort P [] h = tt
All-sort P (r ∷ m) (p, h) = All-insert P r (sort m) p (All-sort P m h)

-- Each record is not behind those that follow it.
unfoldable pub is_sorted : List HistoryRecord → Bool
is_sorted [] = true
is_sorted (r ∷ []) = true
is_sorted (r ∷ c ∷ m) = let rest = is_sorted (c ∷ m) in is_before r c && rest

is_sorted-insert :
    (r : HistoryRecord) (m : List HistoryRecord)
    → is_sorted m ≡ true
    → is_sorted (insert r m) ≡ true
unfolding is_sorted insert is_before
is_sorted-insert r [] h = refl
is_sorted-insert r (c ∷ []) h = ground arith
is_sorted-insert r (c ∷ d ∷ m) h = ground (arith, is_sorted-insert r (d ∷ m))

pub is_sorted-sort : (m : List HistoryRecord) → is_sorted (sort m) ≡ true
unfolding is_sorted sort
is_sorted-sort [] = refl
is_sorted-sort (r ∷ m) = is_sorted-insert r (sort m) (is_sorted-sort m)

pub not_newer : (r : HistoryRecord) → is_newer r r ≡ false
unfolding is_newer
not_newer r = ground arith

pub beaten :
    (a b c : HistoryRecord) → is_newer b c ≡ true → is_newer a c ≡ false → is_newer a b ≡ false
unfolding is_newer
beaten a b c n m = ground arith

pub text_eq_sym : (a b : Text) → text_eq a b ≡ true → text_eq b a ≡ true
text_eq_sym a b e = (text_eq_iff b a).1 (sym ((text_eq_iff a b).0 e))
