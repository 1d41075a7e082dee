-- ===== src/Scheduler/History.antt =====
-- The run history of backend/internal/scheduler/scheduler.go. `endRun` takes its two locks one behind the other;
-- only the goroutine that dispatches calls `beginRun` and `endRun`, so it is one step here. Times are numbers.
pub mod Newest
use marauder.Prelude.{
  ℕ, ◌+◌, ◌-◌, Bool, Option, none, some, List, [], ◌∷◌, ◌++◌, ltb, if◌then◌else◌, length, drop,
}

pub record RunSummary : Type 0 where
  pub started_at : ℕ
  pub ended_at : ℕ
  pub checked : ℕ
  pub updated : ℕ
  pub errors : ℕ

-- The fields `history` and `current` of the scheduler.
pub record History : Type 0 where
  pub history : List RunSummary
  pub current : Option RunSummary

abbrev pub max_history : ℕ
max_history = 50

abbrev pub no_runs : History
no_runs = record { history = []; current = none }

unfoldable pub begin_run : (now : ℕ) → History → History
begin_run now h = record h {
  current = some (record { started_at = now; ended_at = 0; checked = 0; updated = 0; errors = 0 });
}

unfoldable pub append_run : RunSummary → List RunSummary → List RunSummary
append_run finished hs =
    let all = hs ++ finished ∷ [] in
    if ltb max_history (length all) then drop (length all - max_history) all else all

unfoldable pub end_run : (now : ℕ) → History → History
unfolding append_run
end_run now h = elim h.current [
  | none ↦ h
  | some r ↦ record { history = append_run (record r { ended_at = now }) h.history; current = none }
]

-- `if b { n++ }`.
unfoldable pub add_if : Bool → ℕ → ℕ
add_if b n = if b then n + 1 else n

unfoldable pub record_checked : (updated errored : Bool) → History → History
unfolding add_if
record_checked u e h = elim h.current [
  | none ↦ h
  | some r ↦ record h {
    current = some (record r {
      checked = r.checked + 1;
      updated = add_if u r.updated;
      errors = add_if e r.errors;
    });
  }
]

-- The calls that the goroutines make, in the order in which they hold the locks.
pub data RunCall : Type 0 where
  begins : (now : ℕ) → RunCall
  checks : (updated errored : Bool) → RunCall
  ends : (now : ℕ) → RunCall

unfoldable pub make_call : RunCall → History → History
unfolding begin_run end_run record_checked
make_call (begins now) h = begin_run now h
make_call (checks u e) h = record_checked u e h
make_call (ends now) h = end_run now h

unfoldable pub history_of : List RunCall → History → History
unfolding make_call
history_of [] h = h
history_of (a ∷ calls) h = history_of calls (make_call a h)
