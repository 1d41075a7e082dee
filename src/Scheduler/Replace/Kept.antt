-- ===== src/Scheduler/Replace/Kept.antt =====
-- Which torrents a replacement removes, and which rows it prunes.
use marauder.Prelude.{
  ℕ, ◌≡◌, refl, sym, ◌∙◌, inl, inr, Bool, false, none, some, List, [], ◌∷◌, ◌++◌, arith, ◌==◌,
  if◌then◌else◌, Bool-cases, Option-cases, All, All-append, Text, ◌≢◌, true, text_eq, text_eq_iff,
}
use marauder.Scheduler.Replace.{
  Delivered, Groups, add_hash, group_from, group_by_client, Removal, Clients, remove_one, remove,
  is_kept, candidates, removed_hashes, replace_previous,
}

-- The hashes of a client in the buckets, and among the deliveries.
unfoldable pub hashes_for : ℕ → Groups → List Text
hashes_for id [] = []
hashes_for id ((k, hs) ∷ groups) = if k == id then hs else hashes_for id groups

unfoldable pub hashes_of : ℕ → List Delivered → List Text
hashes_of id [] = []
hashes_of id (d ∷ ds) = elim d.client_id [
  | none ↦ hashes_of id ds
  | some k ↦ if k == id then d.infohash ∷ hashes_of id ds else hashes_of id ds
]

for-add_hash :
    (id k : ℕ) (h : Text) (groups : Groups)
    → hashes_for id (add_hash k h groups)
      ≡ (if k == id then hashes_for id groups ++ h ∷ [] else hashes_for id groups)
unfolding hashes_for add_hash
for-add_hash id k h [] = ground arith
for-add_hash id k h ((j, hs) ∷ groups) = ground (arith, for-add_hash id k h groups)

for-group_from :
    (id : ℕ) (ds : List Delivered) (groups : Groups)
    → hashes_for id (group_from ds groups) ≡ hashes_for id groups ++ hashes_of id ds
unfolding group_from hashes_of
for-group_from id [] groups = sym (mathlib.Core.List.append-nil (hashes_for id groups))
for-group_from id (d ∷ ds) groups = elim (Option-cases d.client_id) [
  | inl e ↦ rw (e, group_from, hashes_of) (for-group_from id ds groups)
  | inr (k, e) ↦
      rw (e, group_from, hashes_of)
        (for-group_from id ds (add_hash k d.infohash groups) ∙ one_more k)
]
  where
    one_more :
        (k : ℕ)
        → hashes_for id (add_hash k d.infohash groups) ++ hashes_of id ds
          ≡ hashes_for id groups
            ++ (if k == id then d.infohash ∷ hashes_of id ds else hashes_of id ds)
    one_more k = elim (Bool-cases (k == id)) [
      | inl e ↦
          rw (for-add_hash id k d.infohash groups, e)
            (mathlib.Core.List.append_assoc (hashes_for id groups) (d.infohash ∷ [])
              (hashes_of id ds))
      | inr e ↦ rw (for-add_hash id k d.infohash groups, e) refl
    ]

-- The bucket of a client holds exactly the torrents delivered to it, in the order of their
-- deliveries, each as often as it was delivered; deliveries without a client are in no bucket.
pub group_by_client_exact :
    (id : ℕ) (ds : List Delivered) → hashes_for id (group_by_client ds) ≡ hashes_of id ds
unfolding hashes_for
group_by_client_exact id ds = for-group_from id ds []

-- All hashes of all buckets.
abbrev AllIn : (Text → Type 0) → Groups → Type 0
AllIn P = All (λ g. All P g.1)

module _ (P : Text → Type 0) where
  add_hash-AllIn :
      (k : ℕ) (h : Text) (groups : Groups) → P h → AllIn P groups → AllIn P (add_hash k h groups)
  unfolding add_hash
  add_hash-AllIn k h [] p a = ((p, tt), tt)
  add_hash-AllIn k h ((j, hs) ∷ groups) p (b, a) = elim (Bool-cases (j == k)) [
    | inl e ↦ rw e (All-append P hs (h ∷ []) b (p, tt), a)
    | inr e ↦ rw e (b, add_hash-AllIn k h groups p a)
  ]

  group_from-AllIn :
      (ds : List Delivered) (groups : Groups)
      → All (λ d. P d.infohash) ds
      → AllIn P groups
      → AllIn P (group_from ds groups)
  unfolding group_from
  group_from-AllIn [] groups q a = a
  group_from-AllIn (d ∷ ds) groups (p, q) a = elim (Option-cases d.client_id) [
    | inl e ↦ rw (e, group_from) (group_from-AllIn ds groups q a)
    | inr (k, e) ↦
        rw (e, group_from)
          (group_from-AllIn ds (add_hash k d.infohash groups) q
            (add_hash-AllIn k d.infohash groups p a))
  ]

  remove_one-All :
      (cl : Clients) (b : Bool) (g : ℕ × List Text) → All P g.1 → All P (remove_one cl b g).hashes
  unfolding remove_one
  remove_one-All cl b (id, hs) a = elim (Option-cases (cl.name_of id)) [
    | inl e ↦ rw (e, remove_one) a
    | inr (name, e) ↦ rw (e, remove_one) a
  ]

  remove-All :
      (cl : Clients) (b : Bool) (groups : Groups)
      → AllIn P groups
      → All (λ r. All P r.hashes) (remove cl b groups)
  unfolding remove
  remove-All cl b [] a = tt
  remove-All cl b (g ∷ groups) (p, a) = (remove_one-All cl b g p, remove-All cl b groups a)

  removed-All : (rs : List Removal) → All (λ r. All P r.hashes) rs → All P (removed_hashes rs)
  unfolding removed_hashes
  removed-All [] a = tt
  removed-All (r ∷ rs) (p, a) = elim (Option-cases r.reason) [
    | inl e ↦
        rw (e, removed_hashes) (All-append P r.hashes (removed_hashes rs) p (removed-All rs a))
    | inr (why, e) ↦ rw (e, removed_hashes) (removed-All rs a)
  ]

-- No hash of `keep` is this one, whatever the case of their letters.
abbrev pub Elsewhere : (Text → Text) → (keep : List Text) → Text → Type 0
Elsewhere to_lower keep h = All (λ k. to_lower k ≢ to_lower h) keep

not_kept-Elsewhere :
    (to_lower : Text → Text) (keep : List Text) (h : Text)
    → is_kept to_lower keep h ≡ false
    → Elsewhere to_lower keep h
unfolding is_kept
not_kept-Elsewhere to_lower [] h e = tt
not_kept-Elsewhere to_lower (k ∷ keep) h e = elim (Bool-cases (text_eq (to_lower k) (to_lower h))) [
  | inl here ↦ let lost : true ≡ false = rw here at e in cc
  | inr other ↦ (
    λ same. cc (other, (text_eq_iff _ _).1 same),
    not_kept-Elsewhere to_lower keep h (rw other at e),
  )
]

candidates-All :
    (to_lower : Text → Text) (keep : List Text) (ds : List Delivered)
    → All (λ d. Elsewhere to_lower keep d.infohash) (candidates to_lower keep ds)
unfolding candidates
candidates-All to_lower keep [] = tt
candidates-All to_lower keep (d ∷ ds) = elim (Bool-cases (is_kept to_lower keep d.infohash)) [
  | inl e ↦ rw e (candidates-All to_lower keep ds)
  | inr e ↦ rw e (not_kept-Elsewhere to_lower keep d.infohash e, candidates-All to_lower keep ds)
]

-- Whatever list `keep` of infohashes a replacement is given, and whatever the clients answer, it asks no
-- client to remove a torrent whose infohash is one of `keep` up to the case of the letters, and prunes no
-- row of such a torrent.
pub replace_previous_keeps :
    (to_lower : Text → Text) (cl : Clients) (deletes_data : Bool) (prior : List Delivered)
    (keep : List Text)
    → All
        (λ r. All (Elsewhere to_lower keep) r.hashes)
        (replace_previous to_lower cl deletes_data prior keep).0
      × All (Elsewhere to_lower keep) (replace_previous to_lower cl deletes_data prior keep).1
unfolding replace_previous
replace_previous_keeps to_lower cl deletes_data prior keep =
    let P : Text → Type 0 = Elsewhere to_lower keep in
    let called =
      remove-All P cl deletes_data _
        (group_from-AllIn P _ [] (candidates-All to_lower keep prior) tt) in
    (called, removed-All P _ called)
