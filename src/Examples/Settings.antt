-- ===== src/Examples/Settings.antt =====
-- Domain rotation and topic settings: backend/internal/domains and backend/internal/topics.
use marauder.Prelude.{
  ℕ, suc, ◌≤◌, ◌≡◌, refl, true, false, Option, none, some, List, [], ◌∷◌, arith, length, Text,
  codes, text_eq, cut, has_prefix,
}
use marauder.Prelude.Int.{ℤ, pos, ◌-ℤ◌}
use marauder.Domains.{DomainConfig, Store, new, put, load, report_failure}
use marauder.Domains.Rotation.{
  Rotates, has_host, distinct_hosts, rotations, rotations_reach, rotations_stuck,
}
use marauder.Domains.Persist.{Settled, cache_written}
use marauder.Domains.Writes.{
  World, free, quiet, table_of, booted, rotated, begin_persist, end_persist, Reach, at_boot, next,
  persisting,
}
use marauder.Topics.{Strings, check_folder_name}

abbrev kinozal : Text
kinozal = codes "kinozal"

abbrev mirrors : List Text
mirrors = codes "kinozal.tv" ∷ codes "kinozal.me" ∷ codes "kinozal.guru" ∷ []

-- One failure has been counted a second ago.
abbrev failed_once : Store
failed_once = record new { fail_count = λ _. 1; fail_window = λ _. some (pos 1000000000) }

abbrev now : ℤ
now = pos 2000000000

failed_once-Rotates : Rotates mirrors kinozal now failed_once
unfolding marauder.Domains.in_cooldown marauder.Domains.window_over ◌-ℤ◌
failed_once-Rotates = record {
  ring = omega arith;
  cooled = refl;
  within = refl;
  second = omega arith;
}

rotated_run :
    ((report_failure (some mirrors) kinozal now failed_once).0.cfg kinozal).active
    ≡ codes "kinozal.me"
unfolding report_failure ◌-ℤ◌ text_eq
rotated_run = refl

mirrors_distinct : distinct_hosts mirrors ≡ true
unfolding distinct_hosts text_eq
mirrors_distinct = refl

reach_example :
    (k : ℕ) × (k ≤ length mirrors)
    × (rotations mirrors k (codes "kinozal.guru") ≡ codes "kinozal.me")
reach_example = rotations_reach mirrors mirrors_distinct 2 1 (omega arith) (omega arith)

no_host : has_host (codes "b") (codes "a" ∷ []) ≡ false
unfolding has_host text_eq
no_host = refl

stuck_example :
    rotations (codes "a" ∷ codes "b" ∷ codes "b" ∷ codes "c" ∷ []) 9 (codes "b") ≡ codes "b"
stuck_example = rotations_stuck (codes "a" ∷ []) (codes "c" ∷ []) (codes "b") 9 no_host

-- A boot on a row whose active domain is no longer known, two failures, and the rotation's persist phase.
abbrev old_rows : List (Text × DomainConfig)
old_rows = (kinozal, record { active = codes "kinozal.old"; custom = [] }) ∷ []

abbrev plugins : Text → Option (List Text)
plugins _ = some mirrors

abbrev boot : World
boot = booted (λ s. s) plugins old_rows

abbrev failed_store : Store
failed_store = (report_failure (some mirrors) kinozal (pos 1000000000) boot.store).0

first_failure :
    report_failure (plugins kinozal) kinozal (pos 1000000000) boot.store ≡ (failed_store, none)
unfolding report_failure load ◌-ℤ◌ text_eq has_prefix
first_failure = refl

abbrev rotated_store : Store
rotated_store = (report_failure (some mirrors) kinozal now failed_store).0

rotation :
    report_failure (plugins kinozal) kinozal now failed_store
    ≡ (rotated_store, some (codes "kinozal.tv", codes "kinozal.me"))
unfolding report_failure load ◌-ℤ◌ text_eq has_prefix
rotation = refl

abbrev failed : World
failed = record boot { store = failed_store }

abbrev cached : World
cached = record failed {
  store = rotated_store;
  pending = put failed.pending kinozal (suc (failed.pending kinozal));
}

abbrev writing : World
writing = record cached { holder = persisting kinozal (cached.store.cfg kinozal) }

abbrev written : World
written = record writing {
  rows = put writing.rows kinozal (writing.store.cfg kinozal);
  pending = put writing.pending kinozal 0;
  holder = free;
}

one_waits : cached.pending kinozal ≡ suc 0
unfolding put text_eq
one_waits = refl

none_waits : written.pending kinozal ≡ 0
unfolding put text_eq
none_waits = refl

written-Reach : Reach (λ s. s) plugins old_rows written
written-Reach =
    next
      (next
        (next (next at_boot (quiet kinozal (pos 1000000000) boot failed_store first_failure)) (
          rotated kinozal now failed rotated_store (codes "kinozal.tv", codes "kinozal.me")
            rotation))
        (begin_persist kinozal 0 cached refl one_waits))
      (end_persist kinozal (cached.store.cfg kinozal) 0 writing refl one_waits)

agrees_example :
    Settled
      (λ s. s)
      (plugins kinozal)
      (table_of old_rows kinozal)
      (written.rows kinozal)
      (written.store.cfg kinozal)
agrees_example = cache_written (λ s. s) plugins old_rows written-Reach kinozal refl none_waits refl

-- The boot drops the active domain that is no longer known.
dropped_run : (boot.store.cfg kinozal).active ≡ []
unfolding load text_eq has_prefix
dropped_run = refl

abbrev pub plain_strings : Strings
plain_strings = record { trim_space = λ s. s; to_upper = λ s. s; has_control = λ s. false }

name_accepted : check_folder_name plain_strings (codes ".padded") ≡ none
unfolding check_folder_name text_eq cut
name_accepted = refl

not_empty : text_eq (codes "x") [] ≡ false
unfolding text_eq
not_empty = refl
