-- ===== src/Scheduler/Spacing.antt =====
-- `checkSpacer`, `laneQueue` and `awaitCheckTurn` of backend/internal/scheduler/spacing.go. A
-- `time.Time` is its number of nanoseconds, and a spacing a number, since `spacingOf` cuts it off at
-- 0. Each method holds its lock throughout, so it is one step; the clock's reading is an argument.
pub mod Gaps
pub mod Lane
pub mod Turn
use marauder.Prelude.{ℕ, ◌+◌, ◌-◌, Option, none, some, [], ltb, if◌then◌else◌, Text, text_eq}
use marauder.Prelude.Int.{ℤ, pos_part}

-- Maps keyed by a tracker's name.
abbrev pub Times : Type 0
Times = Text → Option ℕ

abbrev pub no_times : Times
no_times _ = none

unfoldable pub set_time : Text → ℕ → Times → Times
set_time tracker at m name = if text_eq tracker name then some at else m name

pub record Spacer : Type 0 where
  pub next : Times
  pub started : Times

-- The zero value.
abbrev pub new_spacer : Spacer
new_spacer = record { next = no_times; started = no_times }

-- `claim`: how long is left, and 0 once the start is recorded.
unfoldable pub record_start : Text → ℕ → Spacer → Spacer
unfolding set_time
record_start tracker now c = record c { started = set_time tracker now c.started }

unfoldable pub claim : Text → ℕ → ℕ → Spacer → ℕ × Spacer
claim tracker spacing now c = elim (c.started tracker) [
  | none ↦ (0, record_start tracker now c)
  | some last ↦
      if ltb now (last + spacing)
      then (last + spacing - now, c)
      else (0, record_start tracker now c)
]

-- The slot that `reserve` hands out.
unfoldable pub slot_of : Text → ℕ → Spacer → ℕ
slot_of tracker now c = elim (c.next tracker) [ none ↦ now | some n ↦ if ltb now n then n else now ]

-- `reserve`: how long to wait for the slot.
unfoldable pub reserve : Text → ℕ → ℕ → Spacer → ℕ × Spacer
reserve tracker spacing now c =
    let slot = slot_of tracker now c in
    (slot - now, record c { next = set_time tracker (slot + spacing) c.next })

-- `spacingOf`: 0 for a tracker that asks for no spacing, or for a negative one.
unfoldable pub spacing_of : Option ℤ → ℕ
spacing_of none = 0
spacing_of (some d) = pos_part d
