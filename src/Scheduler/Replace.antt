-- ===== src/Scheduler/Replace.antt =====
-- The removal of a previous version: `replacePrevious` of backend/internal/scheduler/scheduler.go with
-- backend/internal/clientremove/clientremove.go. The clients' rows, plugins and answers are
-- arguments; Go visits the clients in any order, and the model in that of their first delivery.
pub mod Kept
use marauder.Prelude.{
  ℕ, Bool, not, Option, none, some, List, [], ◌∷◌, ◌++◌, map, ◌==◌, if◌then◌else◌, filter, any,
  Text, text_eq,
}

-- A delivery's row: the client it went to, if known, and the torrent.
pub record Delivered : Type 0 where
  pub client_id : Option ℕ
  pub infohash : Text

-- The buckets of `GroupByClient`.
abbrev pub Groups : Type 0
Groups = List (ℕ × List Text)

unfoldable pub add_hash : ℕ → Text → Groups → Groups
add_hash id h [] = (id, h ∷ []) ∷ []
add_hash id h ((k, hs) ∷ groups) =
    let rest = add_hash id h groups in
    if k == id then (k, hs ++ h ∷ []) ∷ groups else (k, hs) ∷ rest

-- `GroupByClient(deliveries)`, from buckets that are filled already.
unfoldable pub group_from : List Delivered → Groups → Groups
unfolding add_hash
group_from [] groups = groups
group_from (d ∷ ds) groups = elim d.client_id [
  | none ↦ group_from ds groups
  | some id ↦ group_from ds (add_hash id d.infohash groups)
]

abbrev pub group_by_client : List Delivered → Groups
group_by_client ds = group_from ds []

pub data Reason : Type 0 where
  lookup_failed no_plugin not_supported not_decrypted failed : Reason

-- `Result`; `reason` is `none` where the client confirmed the removal.
pub record Removal : Type 0 where
  pub client_id : ℕ
  pub client_name : Text
  pub hashes : List Text
  pub reason : Option Reason

-- What answers: the client's row, whether a plugin of that name is there and can remove, the
-- decryption of the row's configuration, and the removal.
pub record Clients : Type 0 where
  pub name_of : ℕ → Option Text
  pub removal_of : Text → Option Bool
  pub decrypts : ℕ → Bool
  pub removes : ℕ → List Text → Bool → Bool

-- `removeOne`, once the client's row is read.
unfoldable pub remove_named : Clients → (deletes_data : Bool) → ℕ → List Text → Text → Option Reason
remove_named cl deletes_data id hashes name = elim (cl.removal_of name) [
  | none ↦ some no_plugin
  | some can ↦
      if not can
      then some not_supported
      else if not (cl.decrypts id)
      then some not_decrypted
      else if cl.removes id hashes deletes_data
      then none
      else some failed
]

-- `removeOne`.
unfoldable pub remove_one : Clients → (deletes_data : Bool) → ℕ × List Text → Removal
unfolding remove_named
remove_one cl deletes_data (id, hashes) = elim (cl.name_of id) [
  | none ↦ record { client_id = id; client_name = []; hashes = hashes; reason = some lookup_failed }
  | some name ↦ record {
    client_id = id;
    client_name = name;
    hashes = hashes;
    reason = remove_named cl deletes_data id hashes name;
  }
]

-- `Remove`.
unfoldable pub remove : Clients → (deletes_data : Bool) → Groups → List Removal
unfolding remove_one
remove cl deletes_data = map (remove_one cl deletes_data)

-- `_, ok := keep[strings.ToLower(hash)]`.
unfoldable pub is_kept : (Text → Text) → List Text → Text → Bool
is_kept to_lower keep h = any (λ k. text_eq (to_lower k) (to_lower h)) keep

-- The candidates: the deliveries that are not current.
unfoldable pub candidates : (Text → Text) → List Text → List Delivered → List Delivered
unfolding is_kept
candidates to_lower keep = filter (λ d. not (is_kept to_lower keep d.infohash))

-- The hashes whose rows are pruned: those of the removals that a client confirmed.
unfoldable pub removed_hashes : List Removal → List Text
removed_hashes [] = []
removed_hashes (r ∷ rs) = elim r.reason [
  | none ↦ r.hashes ++ removed_hashes rs
  | some _ ↦ removed_hashes rs
]

-- `replacePrevious`: the results, and the hashes whose rows are pruned.
unfoldable pub replace_previous :
    (Text → Text)
    → Clients
    → (deletes_data : Bool) → List Delivered
    → List Text
    → List Removal × List Text
unfolding candidates remove removed_hashes
replace_previous to_lower cl deletes_data prior keep =
    let results = remove cl deletes_data (group_by_client (candidates to_lower keep prior)) in
    (results, removed_hashes results)
