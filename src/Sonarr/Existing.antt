-- ===== src/Sonarr/Existing.antt =====
-- `handleExisting` and what it calls, in backend/internal/sonarr/poller.go: a grab of a release whose topic
-- is there already.
use marauder.Prelude.{
  ℕ, ◌≡◌, refl, sym, ap, ◌∙◌, subst, inl, inr, Bool, true, false, not, ◌&&◌, ◌||◌, Option, none,
  some, [], ◌∷◌, arith, Bool-cases, Text, codes, text_eq, text_eq_iff, text_eq_refl,
}
use marauder.Topics.Create.{word, Extra, put}
use marauder.Sonarr.{HistoryRecord}
use marauder.Sonarr.Upsert.{
  Instance, Existing, text_of, get_word, is_word, infohash_key, source_title_key, merge_word,
  merge_extra, same_id, needs_realign, merged, handle_existing,
}

get_word-put : (key t : Text) (extra : Extra) → get_word key (put key (word t) extra) ≡ some t
unfolding get_word put text_of
get_word-put key t [] = rw (text_eq_refl key) refl
get_word-put key t ((k, v) ∷ extra) = elim (Bool-cases (text_eq k key)) [
  | inl e ↦ rw (e, text_eq_refl key) refl
  | inr e ↦ simp (e, get_word) (get_word-put key t extra)
]

get_word-put_other :
    (key other t : Text) (extra : Extra)
    → text_eq other key ≡ false
    → get_word key (put other (word t) extra) ≡ get_word key extra
unfolding get_word put
get_word-put_other key other t [] n = rw n refl
get_word-put_other key other t ((k, v) ∷ extra) n = elim (Bool-cases (text_eq k other)) [
  | inl e ↦ rw (e, n, ap (λ s. text_eq s key) ((text_eq_iff k other).0 e) ∙ n) refl
  | inr e ↦ elim (Bool-cases (text_eq k key)) [
    | inl f ↦ rw (e, f) refl
    | inr f ↦ rw (e, f) (get_word-put_other key other t extra n)
  ]
]

-- The value is there, or it is empty and asks for nothing.
abbrev Has : Text → Text → Extra → Type 0
Has key value extra = (text_eq value [] || is_word (get_word key extra) value) ≡ true

merge_word-Has : (key value : Text) (s : Extra × Bool) → Has key value (merge_word key value s).0
unfolding merge_word is_word
merge_word-Has key value (extra, changed) =
    elim (Bool-cases (text_eq value [] || is_word (get_word key extra) value)) [
      | inl e ↦ rw e e
      | inr e ↦ rw (e, get_word-put key value extra) (ground (arith, text_eq_refl value))
    ]

merge_word_again :
    (key value : Text) (extra : Extra) (changed : Bool)
    → Has key value extra
    → merge_word key value (extra, changed) ≡ (extra, changed)
unfolding merge_word
merge_word_again key value extra changed h = rw h refl

merge_word-get :
    (key other value : Text) (s : Extra × Bool)
    → text_eq key other ≡ false
    → get_word other (merge_word key value s).0 ≡ get_word other s.0
unfolding merge_word
merge_word-get key other value (extra, changed) n =
    elim (Bool-cases (text_eq value [] || is_word (get_word key extra) value)) [
      | inl e ↦ rw e refl
      | inr e ↦ rw e (get_word-put_other other key value extra n)
    ]

keys_differ : text_eq source_title_key infohash_key ≡ false
unfolding text_eq
keys_differ = refl

infohash_other : text_eq infohash_key (codes "source") ≡ false
unfolding text_eq
infohash_other = refl

title_other : text_eq source_title_key (codes "source") ≡ false
unfolding text_eq
title_other = refl

merge_extra_again :
    (extra : Extra) (r : HistoryRecord)
    → merge_extra (merge_extra extra r).0 r ≡ ((merge_extra extra r).0, false)
unfolding merge_extra
merge_extra_again extra r =
    let first = merge_word infohash_key r.infohash (extra, false) in
    let both = merge_word source_title_key r.source_title first in
    let has : Has infohash_key r.infohash both.0 =
      subst (λ o. (text_eq r.infohash [] || is_word o r.infohash) ≡ true)
        (sym (merge_word-get source_title_key infohash_key r.source_title first keys_differ))
        (merge_word-Has infohash_key r.infohash (extra, false)) in
    ap (merge_word source_title_key r.source_title)
      (merge_word_again infohash_key r.infohash both.0 false has)
    ∙ merge_word_again source_title_key r.source_title both.0 false
        (merge_word-Has source_title_key r.source_title first)

merge_extra-source :
    (extra : Extra) (r : HistoryRecord)
    → get_word (codes "source") (merge_extra extra r).0 ≡ get_word (codes "source") extra
unfolding merge_extra
merge_extra-source extra r =
    merge_word-get source_title_key (codes "source") r.source_title _ title_other
    ∙ merge_word-get infohash_key (codes "source") r.infohash (extra, false) infohash_other

merged_again :
    (t t' : Existing) (r : HistoryRecord)
    → t'.extra ≡ (merged t r).0
    → merged t' r ≡ ((merged t r).0, false)
unfolding merged
merged_again t t' r e =
    elim (Bool-cases (is_word (get_word (codes "source") t.extra) (codes "sonarr"))) [
      | inl s ↦
          let first : merged t r ≡ merge_extra t.extra r = simp (s, merged) refl in
          let e' : t'.extra ≡ (merge_extra t.extra r).0 = e ∙ ap (λ m. m.0) first in
          let own : is_word (get_word (codes "source") t'.extra) (codes "sonarr") ≡ true =
            ap (λ x. is_word (get_word (codes "source") x) (codes "sonarr")) e'
            ∙ ap (λ o. is_word o (codes "sonarr")) (merge_extra-source t.extra r)
            ∙ s in
          let second : merged t' r ≡ merge_extra t'.extra r = simp (own, merged) refl in
          second
          ∙ ap (λ x. merge_extra x r) e'
          ∙ merge_extra_again t.extra r
          ∙ ap (λ m. (m.0, false)) (sym first)
      | inr s ↦
          let first : merged t r ≡ (t.extra, false) = simp (s, merged) refl in
          let e' : t'.extra ≡ t.extra = e ∙ ap (λ m. m.0) first in
          let other : is_word (get_word (codes "source") t'.extra) (codes "sonarr") ≡ false =
            ap (λ x. is_word (get_word (codes "source") x) (codes "sonarr")) e' ∙ s in
          let second : merged t' r ≡ (t'.extra, false) = simp (other, merged) refl in
          second ∙ ap (λ x. (x, false)) e' ∙ ap (λ m. (m.0, false)) (sym first)
    ]

same_id_refl : (a : Option ℕ) → same_id a a ≡ true
unfolding same_id
same_id_refl none = refl
same_id_refl (some a) = ground arith

quiet :
    (inst : Instance) (t : Existing) (r : HistoryRecord)
    → (merged t r).1 ≡ false
    → (inst.update_existing && needs_realign t inst) ≡ false
    → handle_existing inst t r ≡ none
unfolding handle_existing
quiet inst t r m n = simp (m, n, handle_existing) refl

-- A grab that was written back to an existing topic is not written again: the topic as it was written is up to
-- date for the same grab and the same instance.
handle_existing_again :
    (inst : Instance) (t t' : Existing) (r : HistoryRecord)
    → handle_existing inst t r ≡ some t'
    → handle_existing inst t' r ≡ none
unfolding handle_existing needs_realign
handle_existing_again inst t t' r e =
    elim (Bool-cases (not (merged t r).1 && not (inst.update_existing && needs_realign t inst))) [
      | inl c ↦
          let n : handle_existing inst t r ≡ none = simp (c, handle_existing) refl in
          absurd (cc (n, e))
      | inr c ↦ elim (Bool-cases inst.update_existing) [
        | inl u ↦
            let w : handle_existing inst t r ≡ some written = rw (c, u) refl in
            let same : written ≡ t' = cc (w, e) in
            subst (λ x. handle_existing inst x r ≡ none) same
              (quiet inst written r (ap (λ m. m.1) (merged_again t written r refl)) (
                rw
                  (
                    u,
                    same_id_refl inst.default_client_id,
                    text_eq_refl inst.default_category,
                    text_eq_refl inst.default_download_dir,
                  )
                  refl))
        | inr u ↦
            let w : handle_existing inst t r ≡ some kept = rw (c, u) refl in
            let same : kept ≡ t' = cc (w, e) in
            subst (λ x. handle_existing inst x r ≡ none) same
              (quiet inst kept r (ap (λ m. m.1) (merged_again t kept r refl)) (rw u refl))
      ]
    ]
  where
    written : Existing
    written = record {
      client_id = inst.default_client_id;
      category = inst.default_category;
      download_dir = inst.default_download_dir;
      extra = (merged t r).0;
    }

    kept : Existing
    kept = record t { extra = (merged t r).0 }
