-- ===== src/Torrentmeta/Layout/Root.antt =====
-- `ClientRoot` of backend/internal/torrentmeta/root.go: the folder that a client shows a torrent under.
use marauder.Prelude.{
  ◌≡◌, ap, inl, inr, true, ◌&&◌, some, List, [], ◌∷◌, arith, is_some, Option-cases, All, Text,
}
use marauder.Domain.{TorrentFile, ClientFile}
use marauder.Torrentmeta.Layout.{
  Mapping, strip_root, root_of, root_stripper, bijection, all_under, client_root,
}
use marauder.Torrentmeta.Layout.Unique.{Stripped, strip_root_lem}

-- Every client path is a path inside one folder.
abbrev pub AllUnder : Text → List ClientFile → Type 0
AllUnder root = All (λ f. (rest : Text) × Stripped root f.path rest)

all_under_lem :
    (root : Text) (files : List ClientFile)
    → all_under (strip_root root) files ≡ true
    → AllUnder root files
unfolding all_under
all_under_lem root [] h = tt
all_under_lem root (f ∷ fs) h = elim (Option-cases (strip_root root f.path)) [
  | inl e ↦ cc (ap (λ o. is_some o && all_under (strip_root root) fs) e, h)
  | inr (rest, e) ↦
      ((rest, strip_root_lem root f.path e), all_under_lem root fs (ground (arith, e)))
]

-- A root is reported only if every client path is a path inside a folder of that name, and the
-- rooted layout pairs the client's files with the manifest.
pub client_root_sound :
    (files : List ClientFile) (manifest : List TorrentFile) (root : Text)
    → client_root files (some manifest) ≡ some root
    → AllUnder root files × ((m : Mapping) × (bijection files manifest (strip_root root) ≡ some m))
unfolding client_root root_stripper
client_root_sound [] manifest root h = cc
client_root_sound (f ∷ fs) manifest root h =
    let files = f ∷ fs in
    let root_is : root_of files ≡ root = ground arith in
    let under : all_under (strip_root root) files ≡ true = rw (← root_is) (ground arith) in
    elim (Option-cases (bijection files manifest (strip_root root))) [
      | inl e ↦ cc (root_is, e, h)
      | inr (m, e) ↦ (all_under_lem root files under, (m, e))
    ]
