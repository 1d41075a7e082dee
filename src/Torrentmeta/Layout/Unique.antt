-- ===== src/Torrentmeta/Layout/Unique.antt =====
-- The two layouts of `MapClientFiles` in backend/internal/torrentmeta/torrentmeta.go, together.
use marauder.Prelude.{
  ℕ, ◌+◌, ◌≤◌, ◌≡◌, refl, sym, ap, ◌∙◌, subst, ◌≢◌, ◌⊎◌, inl, inr, true, false, none, some, List,
  [], ◌∷◌, ◌++◌, arith, ◌==◌, Bool-cases, Option-cases, length, any, length-append, length-map,
  Text, codes, text_eq, text_eq_iff, has_prefix, cut,
}
use marauder.Prelude.Int.{ℤ}
use marauder.Domain.{TorrentFile, ClientFile, file_eq, file_eq_iff}
use marauder.Torrentmeta.Skip.{count_file, SameFiles}
use marauder.Torrentmeta.Layout.{
  Mapping, is_padding_path, strip_root, root_of, root_stripper, bijection, mapped, mismatch,
  slashed, map_client_files, pick_layout, not_paired,
}
use marauder.Torrentmeta.Layout.Bijection.{placed-cons, bijection_exact, same_length}
use marauder.Torrentmeta.Layout.Pairs.{files_of, placed, distinct, erase_file, count-erase}

-- The total length of the paths.
path_bytes : List TorrentFile → ℕ
path_bytes [] = 0
path_bytes (f ∷ fs) = length f.path + path_bytes fs

path_bytes-erase :
    (f : TorrentFile) (ys : List TorrentFile)
    → 1 ≤ count_file f ys
    → path_bytes ys ≡ length f.path + path_bytes (erase_file f ys)
unfolding path_bytes erase_file count_file
path_bytes-erase f [] h = absurd (omega arith)
path_bytes-erase f (y ∷ ys) h = elim (Bool-cases (file_eq f y)) [
  | inl e ↦ rw e (rw ((file_eq_iff f y).0 e))
  | inr e ↦ rw e (omega (arith, path_bytes-erase f ys (ground (arith, e))))
]

path_bytes_same : (xs ys : List TorrentFile) → SameFiles xs ys → path_bytes xs ≡ path_bytes ys
unfolding path_bytes count_file
path_bytes_same [] [] h = refl
path_bytes_same [] (y ∷ ys) h = absurd (ground (arith, h y, file_eq_iff y y))
path_bytes_same (x ∷ xs) ys h =
    let at_x : 1 ≤ count_file x ys = ground (arith, h x, file_eq_iff x x) in
    let ih =
      path_bytes_same xs (erase_file x ys)
        (λ g. ground (arith, h g, count-erase x g ys, file_eq_iff g x)) in
    omega (arith, ih, path_bytes-erase x ys at_x)

cut_lem : (sep : ℕ) (p : Text) → (cut sep p).2 ≡ true → p ≡ (cut sep p).0 ++ sep ∷ (cut sep p).1
unfolding cut
cut_lem sep [] h = cc
cut_lem sep (c ∷ p) h = elim (Bool-cases (c == sep)) [
  | inl e ↦ rw e (ground arith)
  | inr e ↦ rw e (ap (λ r. c ∷ r) (cut_lem sep p (rw e at h)))
]

-- Before the separator there is none.
cut_before : (sep : ℕ) (p : Text) → any (λ c. c == sep) (cut sep p).0 ≡ false
unfolding cut
cut_before sep [] = refl
cut_before sep (c ∷ p) = elim (Bool-cases (c == sep)) [
  | inl e ↦ rw e refl
  | inr e ↦ rw e (rw e (cut_before sep p))
]

pub record Stripped (root p rest : Text) : Type 0 where
  pub whole : p ≡ root ++ b'/' ∷ rest
  pub one_component : any (λ c. c == b'/') root ≡ false

pub strip_root_lem :
    (root p : Text) {rest : Text} → strip_root root p ≡ some rest → Stripped root p rest
unfolding strip_root
strip_root_lem root p {rest} h =
    let first_is : (cut b'/' p).0 ≡ root = (text_eq_iff _ root).0 (ground arith) in
    let rest_is : (cut b'/' p).1 ≡ rest = ground arith in
    let found : (cut b'/' p).2 ≡ true = ground arith in
    record {
      whole = cut_lem b'/' p found ∙ (rw (first_is, rest_is));
      one_component = rw first_is at (cut_before b'/' p);
    }

-- The verbatim reading of a rooted path is padding exactly if the root is `.pad`.
padding_root :
    (root rest : Text)
    → any (λ c. c == b'/') root ≡ false
    → is_padding_path (root ++ b'/' ∷ rest) ≡ text_eq root (codes ".pad")
unfolding is_padding_path has_prefix text_eq
padding_root [] rest h = refl
padding_root (a ∷ []) rest h = ground arith
padding_root (a ∷ b ∷ []) rest h = ground arith
padding_root (a ∷ b ∷ c ∷ []) rest h = ground arith
padding_root (a ∷ b ∷ c ∷ d ∷ []) rest h = ground arith
padding_root (a ∷ b ∷ c ∷ d ∷ e ∷ root) rest h = ground arith

-- What the rooted layout reads, the verbatim one reads as padding or as a longer path.
module _ (root : Text) where
  pad_layout :
      (cs : List ClientFile) {v r : Mapping}
      → text_eq root (codes ".pad") ≡ true
      → placed some cs ≡ some v
      → placed (strip_root root) cs ≡ some r
      → v ≡ []
  unfolding placed
  pad_layout [] is_pad hv hr = cc
  pad_layout (c ∷ cs) {v} is_pad hv hr =
      let (p, pe, vcase) = placed-cons some c cs hv in
      let (rest, re, rcase) = placed-cons (strip_root root) c cs hr in
      let st = strip_root_lem root c.path re in
      let padded : is_padding_path p ≡ true =
        cc (st.whole, padding_root root rest st.one_component, pe) in
      let (r', hr') : (r' : Mapping) × (placed (strip_root root) cs ≡ some r') = elim rcase [
        | inl h ↦ (_, h.1)
        | inr h ↦ (h.1.0, h.1.1)
      ] in
      elim vcase [ inl h ↦ pad_layout cs is_pad h.1 hr' | inr h ↦ cc (h.0, padded) ]

  real_layout :
      (cs : List ClientFile) {v r : Mapping}
      → text_eq root (codes ".pad") ≡ false
      → placed some cs ≡ some v
      → placed (strip_root root) cs ≡ some r
      → path_bytes (files_of r) + length v ≤ path_bytes (files_of v)
  unfolding placed path_bytes
  real_layout [] not_pad hv hr = ground arith
  real_layout (c ∷ cs) {v} {r} not_pad hv hr =
      let (p, pe, vcase) = placed-cons some c cs hv in
      let (rest, re, rcase) = placed-cons (strip_root root) c cs hr in
      let st = strip_root_lem root c.path re in
      let padded : is_padding_path p ≡ false =
        cc (st.whole, padding_root root rest st.one_component, pe) in
      let longer : length rest + 1 ≤ length p =
        subst (λ q. length rest + 1 ≤ length q) (sym st.whole ∙ cc pe)
          (omega (arith, length-append root (b'/' ∷ rest))) in
      elim vcase [
        | inl h ↦ cc (h.0, padded)
        | inr h ↦
            let (qs, hq, ve) = h.1 in
            rw ve (elim rcase [
              | inl k ↦ omega (arith, real_layout cs not_pad hq k.1)
              | inr k ↦ rw (k.1.2) (omega (arith, real_layout cs not_pad hq k.1.1))
            ])
      ]

SameFiles-trans :
    (xs ys zs : List TorrentFile) → SameFiles xs zs → SameFiles ys zs → SameFiles xs ys
SameFiles-trans xs ys zs h k f = h f ∙ sym (k f)

-- If the verbatim layout and the rooted layout both fit the torrent, the torrent has no content
-- file.
pub both_layouts_nil :
    (files : List ClientFile) (manifest : List TorrentFile) {v r : Mapping}
    → bijection files manifest some ≡ some v
    → bijection files manifest (root_stripper files) ≡ some r
    → manifest ≡ []
unfolding root_stripper path_bytes
both_layouts_nil files manifest {v} {r} hv hr =
    let (pv, sv, _) = (bijection_exact files manifest some v).0 hv in
    let (pr, sr, _) = (bijection_exact files manifest (root_stripper files) r).0 hr in
    let same_bytes =
      path_bytes_same (files_of r) (files_of v) (SameFiles-trans _ _ manifest sr sv) in
    let count = same_length (files_of v) manifest sv in
    nil_of_length manifest (elim (Bool-cases (text_eq (root_of files) (codes ".pad"))) [
      | inl pad ↦ rw (← count, pad_layout (root_of files) files pad pv pr)
      | inr real ↦ omega (
        arith,
        real_layout (root_of files) files real pv pr,
        same_bytes,
        count,
        length-map (λ (e : ℤ × TorrentFile). e.1) v,
      )
    ])
  where
    nil_of_length : (m : List TorrentFile) → length m ≡ 0 → m ≡ []
    nil_of_length [] h = refl
    nil_of_length (x ∷ m) h = absurd (omega arith)

-- What a mapping that `map_client_files` returns is worth: one layout, of the two, reads every
-- client path, gives no index twice, and names the torrent's files, each as often.
pub record FitsTorrent (client : List ClientFile) (manifest : List TorrentFile) (m : Mapping)
    : Type 0 where
  pub layout :
      (placed some (slashed client) ≡ some m)
      ⊎ (placed (root_stripper (slashed client)) (slashed client) ≡ some m)
  pub one_to_one : SameFiles (files_of m) manifest
  pub unique : distinct m ≡ true

-- A mapping is returned only if it pairs the client's files with the torrent's one to one.
pub map_client_files_sound :
    (client : List ClientFile) (manifest : List TorrentFile) (m : Mapping)
    → map_client_files client manifest ≡ mapped m
    → FitsTorrent client manifest m
unfolding map_client_files pick_layout
map_client_files_sound client manifest m h =
    let files = slashed client in
    elim (Option-cases (bijection files manifest some)) [
      | inl nov ↦ elim (Option-cases (bijection files manifest (root_stripper files))) [
        | inl nor ↦ cc (nov, nor)
        | inr (r, er) ↦
            let same : r ≡ m = cc (nov, er) in
            let (p, q, d) = (bijection_exact files manifest _ r).0 er in
            record {
              layout = inr (p ∙ ap some same);
              one_to_one = rw (← same) q;
              unique = rw (← same) d;
            }
      ]
      | inr (v, ev) ↦
          let same : v ≡ m = ground arith in
          let (p, q, d) = (bijection_exact files manifest _ v).0 ev in
          record {
            layout = inl (p ∙ ap some same);
            one_to_one = rw (← same) q;
            unique = rw (← same) d;
          }
    ]

-- For a torrent with a content file, the mapping is that of the verbatim layout where it fits,
-- else that of the rooted layout where it fits, and is refused as unpaired exactly where neither
-- fits; the ambiguity error never occurs.
pub map_client_files_complete :
    (client : List ClientFile) (manifest : List TorrentFile)
    → manifest ≢ []
    → let files = slashed client in
      map_client_files client manifest ≡ (elim (bijection files manifest some) [
        | some v ↦ mapped v
        | none ↦ elim (bijection files manifest (root_stripper files)) [
          | some r ↦ mapped r
          | none ↦ mismatch (not_paired (length files) (length manifest))
        ]
      ])
unfolding map_client_files pick_layout
map_client_files_complete client manifest h =
    let files = slashed client in
    elim (Option-cases (bijection files manifest some)) [
      | inl nov ↦ ground (arith, nov)
      | inr (v, ev) ↦ elim (Option-cases (bijection files manifest (root_stripper files))) [
        | inl nor ↦ ground (arith, ev, nor)
        | inr (r, er) ↦ absurd (h (both_layouts_nil files manifest ev er))
      ]
    ]
