-- ===== src/Domains.antt =====
-- backend/internal/domains/store.go: each tracker's domain configuration and its rotation after
-- network failures. A time is a number of nanoseconds; a tracker without an entry in a map reads as
-- Go's zero value. The plugins' domain lists are arguments.
pub mod Rotation
pub mod Writes
pub mod Persist
use marauder.Prelude.{
  ℕ, suc, ◌+◌, ◌*◌, ◌%◌, Bool, true, false, not, ◌&&◌, ◌||◌, Option, none, some, List, [], ◌∷◌,
  ◌++◌, ltb, if◌then◌else◌, length, get_or, drop, any, Text, codes, text_eq, has_prefix,
}
use marauder.Prelude.Int.{ℤ, pos, ◌-ℤ◌, ltb_ℤ}

abbrev pub minute : ℕ
minute = 60 * 1000000000

abbrev pub rotate_cooldown : ℤ
rotate_cooldown = pos (10 * minute)

abbrev pub rotate_failure_threshold : ℕ
rotate_failure_threshold = 2

abbrev pub rotate_failure_window : ℤ
rotate_failure_window = pos (5 * minute)

-- `registry.DomainConfig`.
pub record DomainConfig : Type 0 where
  pub active : Text
  pub custom : List Text

-- The maps of `Store`.
pub record Store : Type 0 where
  pub cfg : Text → DomainConfig
  pub last_rotate : Text → Option ℤ
  pub fail_count : Text → ℕ
  pub fail_window : Text → Option ℤ

abbrev pub new : Store
new = record {
  cfg = λ _. record { active = []; custom = [] };
  last_rotate = λ _. none;
  fail_count = λ _. 0;
  fail_window = λ _. none;
}

-- An assignment to one key of a map.
unfoldable pub put {ℓ} : {A : Type ℓ} → (Text → A) → Text → A → Text → A
put m k v x = if text_eq x k then v else m x

-- `normaliseHost(h)`, where `clean` is `strings.ToLower(strings.TrimSpace(h))`.
unfoldable pub normalise_host : (Text → Text) → Text → Text
normalise_host clean h =
    let host = clean h in if has_prefix host (codes "www.") then drop 4 host else host

-- `domainInList(host, list)`.
unfoldable pub domain_in_list : (Text → Text) → Text → List Text → Bool
unfolding normalise_host
domain_in_list clean host list =
    any (λ d. text_eq (normalise_host clean d) (normalise_host clean host)) list

-- `domainStillKnown`; `none` is a tracker with no plugin or no `WithDomains`.
unfoldable pub domain_still_known : (Text → Text) → Option (List Text) → Text → List Text → Bool
unfolding domain_in_list
domain_still_known clean none host custom = true
domain_still_known clean (some known) host custom =
    domain_in_list clean host known || domain_in_list clean host custom

-- What `Load` caches of a row: an active domain that is no longer known is dropped.
unfoldable pub revalidated : (Text → Text) → Option (List Text) → DomainConfig → DomainConfig
unfolding domain_still_known
revalidated clean known c =
    let is_known = domain_still_known clean known c.active c.custom in
    if not (text_eq c.active []) && not is_known then record c { active = [] } else c

-- The loop of `Load` over the rows of the table.
unfoldable pub load :
    (Text → Text) → (Text → Option (List Text)) → List (Text × DomainConfig) → Store → Store
unfolding put revalidated
load clean plugin [] s = s
load clean plugin ((name, c) ∷ rows) s =
    load clean plugin rows (record s { cfg = put s.cfg name (revalidated clean (plugin name) c) })

-- `Set`, once the row is written.
unfoldable pub set : Text → DomainConfig → Store → Store
unfolding put
set name c s = record s { cfg = put s.cfg name c }

-- `ok && now.Sub(last) < RotateCooldown`.
unfoldable pub in_cooldown : Option ℤ → ℤ → Bool
in_cooldown none now = false
in_cooldown (some last) now = ltb_ℤ (now -ℤ last) rotate_cooldown

-- `!ok || now.Sub(start) > RotateFailureWindow`.
unfoldable pub window_over : Option ℤ → ℤ → Bool
window_over none now = true
window_over (some start) now = ltb_ℤ rotate_failure_window (now -ℤ start)

-- The failures counted after this one.
unfoldable pub counted : Store → Text → ℤ → ℕ
unfolding window_over
counted s name now = if window_over (s.fail_window name) now then 1 else suc (s.fail_count name)

-- The loop that looks for the active domain in the ring, from position `i` on; 0 if it is not there.
unfoldable pub index_of : Text → List Text → ℕ → ℕ
index_of host [] i = 0
index_of host (d ∷ ds) i = let rest = index_of host ds (suc i) in if text_eq d host then i else rest

-- The domain after `from`, of a ring that is not empty.
unfoldable pub next_domain : List Text → Text → Text
unfolding index_of
next_domain ring from = get_or ring ((index_of from ring 0 + 1) % length ring) []

-- `from`: the active domain, or the first of the ring.
unfoldable pub from_domain : List Text → DomainConfig → Text
from_domain ring c = if text_eq c.active [] then get_or ring 0 [] else c.active

-- The rotation: the domain left, the domain taken, and the store.
unfoldable pub rotate : List Text → Text → ℤ → Store → Store × Option (Text × Text)
unfolding put next_domain from_domain
rotate ring name now s =
    let from = from_domain ring (s.cfg name) in
    let to = next_domain ring from in
    (
      record {
        cfg = put s.cfg name (record (s.cfg name) { active = to });
        last_rotate = put s.last_rotate name (some now);
        fail_count = put s.fail_count name 0;
        fail_window = put s.fail_window name none;
      },
      some (from, to),
    )

-- A failure below the threshold is counted.
unfoldable pub count_failure : Text → ℤ → Store → Store
unfolding put counted window_over
count_failure name now s = record s {
  fail_count = put s.fail_count name (counted s name now);
  fail_window =
      if window_over (s.fail_window name) now
      then put s.fail_window name (some now)
      else s.fail_window;
}

-- `ReportFailure` up to its persist phase, for a plugin with these domains.
unfoldable pub report_failure : Option (List Text) → Text → ℤ → Store → Store × Option (Text × Text)
unfolding in_cooldown counted rotate count_failure
report_failure none name now s = (s, none)
report_failure (some known) name now s =
    let ring = known ++ (s.cfg name).custom in
    if ltb (length ring) 2
    then (s, none)
    else if in_cooldown (s.last_rotate name) now
    then (s, none)
    else if ltb (counted s name now) rotate_failure_threshold
    then (count_failure name now s, none)
    else rotate ring name now s
