-- ===== src/Sonarr/Batch.antt =====
-- What a batch is reduced to.
use marauder.Prelude.{
  All-map, ◌≤◌, ◌≡◌, refl, sym, ap, ◌∙◌, inl, inr, true, false, List, [], ◌∷◌, arith, Bool-cases,
  All, Text, text_eq, text_eq_iff, text_eq_refl,
}
use marauder.Sonarr.{HistoryRecord, is_newer, put_latest, latest_from, unique_records}
use marauder.Sonarr.Order.{
  count_url, same_urls, count_url-put_latest, count_url-sort, All-sort, is_sorted, is_sorted-sort,
  not_newer, beaten, text_eq_sym,
}

-- No record of the batch is a later grab of the same URL.
abbrev Newest : List HistoryRecord → HistoryRecord → Type 0
Newest seen c = All (λ r. text_eq r.url c.url ≡ true → is_newer r c ≡ false) seen

count_none :
    (c : HistoryRecord) (m : List HistoryRecord)
    → count_url c.url m ≡ 0
    → All (λ d. text_eq d.url c.url ≡ false) m
unfolding count_url
count_none c [] h = tt
count_none c (d ∷ m) h = (ground arith, count_none c m (ground arith))

count_tail :
    (u : Text) (c : HistoryRecord) (m : List HistoryRecord)
    → count_url u (c ∷ m) ≤ 1
    → count_url u m ≤ 1
unfolding count_url
count_tail u c m l = elim (Bool-cases (text_eq c.url u)) [
  | inl e ↦ ground arith
  | inr e ↦ ground arith
]

count_alone :
    (c : HistoryRecord) (m : List HistoryRecord)
    → count_url c.url (c ∷ m) ≤ 1
    → count_url c.url m ≡ 0
unfolding count_url
count_alone c m l = ground (arith, text_eq_refl c.url)

-- A record of one URL leaves those of others as they are.
beside :
    (seen : List HistoryRecord) (r c : HistoryRecord) (n : List HistoryRecord)
    → text_eq c.url r.url ≡ true
    → All (λ d. text_eq d.url c.url ≡ false) n
    → All (Newest seen) n
    → All (Newest (r ∷ seen)) n
beside seen r c [] e o q = tt
beside seen r c (d ∷ n) e (x, o) (y, q) = (
  (
    (λ g. absurd (
        same_urls d.url c.url d.url x (text_eq_refl d.url) (
          (text_eq_iff c.url d.url).1
            ((text_eq_iff c.url r.url).0 e ∙ (text_eq_iff r.url d.url).0 g)))),
    y,
  ),
  beside seen r c n e o q,
)

same_as : (a b c : Text) → text_eq c b ≡ true → text_eq a b ≡ true → text_eq a c ≡ true
same_as a b c e g = (text_eq_iff a c).1 ((text_eq_iff a b).0 g ∙ sym ((text_eq_iff c b).0 e))

Newest-put_latest :
    (seen : List HistoryRecord) (r : HistoryRecord) (m : List HistoryRecord)
    → ((u : Text) → count_url u m ≤ 1)
    → All (Newest seen) m
    → All (λ r'. text_eq r'.url r.url ≡ true → count_url r.url m ≡ 0 → ⊥) seen
    → All (Newest (r ∷ seen)) (put_latest r m)
unfolding put_latest count_url
Newest-put_latest seen r [] once h fresh =
    (((λ e. not_newer r), All-map _ _ seen (λ r' f e. absurd (f e refl)) fresh), tt)
Newest-put_latest seen r (c ∷ m) once (p, h) fresh = elim (Bool-cases (text_eq c.url r.url)) [
  | inl e ↦
      let others = count_none c m (count_alone c m (once c.url)) in
      let rest = beside seen r c m e others h in
      elim (Bool-cases (is_newer r c)) [
        | inl n ↦
            rw (e, n)
              (
                (
                  (λ _. not_newer r),
                  All-map _ _ seen (λ r' f g. beaten r' r c n (f (same_as r'.url r.url c.url e g)))
                      p,
                ),
                rest,
              )
        | inr n ↦ rw (e, n) (((λ _. n), p), rest)
      ]
  | inr e ↦ rw e (
    ((λ g. absurd (cc (e, text_eq_sym r.url c.url g))), p),
    Newest-put_latest seen r m (λ u. count_tail u c m (once u)) h
        (All-map _ _ seen (λ r' f g z. f g (rw e z)) fresh),
  )
]

All-put_latest :
    (P : HistoryRecord → Type 0) (r : HistoryRecord) (m : List HistoryRecord)
    → P r
    → All P m
    → All P (put_latest r m)
unfolding put_latest
All-put_latest P r [] p h = (p, tt)
All-put_latest P r (c ∷ m) p (q, h) = elim (Bool-cases (text_eq c.url r.url)) [
  | inl e ↦ elim (Bool-cases (is_newer r c)) [ inl n ↦ rw (e, n) (p, h) | inr n ↦ rw (e, n) (q, h) ]
  | inr e ↦ rw e (q, All-put_latest P r m p h)
]

-- What holds of the records kept so far: at most one for each URL, the newest of those seen, and one for each
-- URL seen.
record Kept (seen m : List HistoryRecord) : Type 0 where
  named : All (λ c. text_eq c.url [] ≡ false) m
  once : (u : Text) → count_url u m ≤ 1
  newest : All (Newest seen) m
  each : All (λ r. text_eq r.url [] ≡ false → count_url r.url m ≡ 1) seen

Kept-put_latest :
    (seen : List HistoryRecord) (r : HistoryRecord) (m : List HistoryRecord)
    → text_eq r.url [] ≡ false
    → Kept seen m
    → Kept (r ∷ seen) (put_latest r m)
Kept-put_latest seen r m n k = record {
  named = All-put_latest _ r m n k.named;
  once = λ u. ground (arith, count_url-put_latest u r m, k.once u);
  newest =
      Newest-put_latest seen r m k.once k.newest
        (All-map _ _ seen (λ r' f g z. clash r' ((text_eq_iff r'.url r.url).0 g) f z) k.each);
  each = (
    (λ _. ground (arith, count_url-put_latest r.url r m, k.once r.url, text_eq_refl r.url)),
    All-map _ _ seen (λ r' f x. ground (arith, count_url-put_latest r'.url r m, f x)) k.each,
  );
}
  where
    clash :
        (r' : HistoryRecord)
        → r'.url ≡ r.url
        → (text_eq r'.url [] ≡ false → count_url r'.url m ≡ 1)
        → count_url r.url m ≡ 0
        → ⊥
    clash r' q f z =
        let one = f (ap (λ t. text_eq t []) q ∙ n) in
        let none_left = ap (λ t. count_url t m) q ∙ z in omega arith

Kept-skip :
    (seen : List HistoryRecord) (r : HistoryRecord) (m : List HistoryRecord)
    → text_eq r.url [] ≡ true
    → Kept seen m
    → Kept (r ∷ seen) m
Kept-skip seen r m n k = record {
  named = k.named;
  once = k.once;
  newest = apart m k.named k.newest;
  each = ((λ x. absurd (cc (n, x))), k.each);
}
  where
    apart :
        (m' : List HistoryRecord)
        → All (λ c. text_eq c.url [] ≡ false) m'
        → All (Newest seen) m'
        → All (Newest (r ∷ seen)) m'
    apart [] a b = tt
    apart (c ∷ m') (a, as_) (b, bs) = (
      ((λ g. absurd (cc (a, ap (λ t. text_eq t []) (sym ((text_eq_iff r.url c.url).0 g)) ∙ n))), b),
      apart m' as_ bs,
    )

unfoldable rev_onto : List HistoryRecord → List HistoryRecord → List HistoryRecord
rev_onto [] s = s
rev_onto (r ∷ rs) s = rev_onto rs (r ∷ s)

Kept-latest_from :
    (seen m rs : List HistoryRecord) → Kept seen m → Kept (rev_onto rs seen) (latest_from m rs)
unfolding latest_from rev_onto
Kept-latest_from seen m [] k = k
Kept-latest_from seen m (r ∷ rs) k = elim (Bool-cases (text_eq r.url [])) [
  | inl e ↦ rw e (Kept-latest_from (r ∷ seen) m rs (Kept-skip seen r m e k))
  | inr e ↦ rw e (Kept-latest_from (r ∷ seen) (put_latest r m) rs (Kept-put_latest seen r m e k))
]

All-rev_onto :
    (P : HistoryRecord → Type 0) (rs s : List HistoryRecord)
    → All P (rev_onto rs s)
    → All P rs × All P s
unfolding rev_onto
All-rev_onto P [] s h = (tt, h)
All-rev_onto P (r ∷ rs) s h = let (a, (b, c)) = All-rev_onto P rs (r ∷ s) h in ((b, a), c)

-- The records of a batch that are processed stand in the order of their dates, and of their numbers where the
-- dates agree. Each URL of the batch that is not empty has exactly one, and no record of the batch is
-- a later grab of the same URL.
pub unique_records-newest :
    (records : List HistoryRecord)
    → (is_sorted (unique_records records) ≡ true)
      × All (λ r. text_eq r.url [] ≡ false → count_url r.url (unique_records records) ≡ 1) records
      × All
          (λ c. All (λ r. text_eq r.url c.url ≡ true → is_newer r c ≡ false) records)
          (unique_records records)
unfolding unique_records count_url
unique_records-newest records =
    let m = latest_from [] records in
    let k =
      Kept-latest_from [] [] records
        (record { named = tt; once = λ u. omega arith; newest = tt; each = tt }) in
    (
      is_sorted-sort m,
      All-map _ _ records (λ r f x. count_url-sort r.url m ∙ f x)
          (All-rev_onto _ records [] k.each).0,
      All-sort _ m (All-map _ _ m (λ c h. (All-rev_onto _ records [] h).0) k.newest),
    )
