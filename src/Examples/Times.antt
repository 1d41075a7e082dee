-- ===== src/Examples/Times.antt =====
-- Spacing, lanes, dispatch and backoff: backend/internal/scheduler/spacing.go and scheduler.go.
use marauder.Prelude.{
  ℕ, ◌+◌, ◌≡◌, refl, Bool, true, false, none, List, [], ◌∷◌, ◌++◌, if◌then◌else◌, Text, codes,
  text_eq,
}
use marauder.Scheduler.Spacing.{new_spacer}
use marauder.Scheduler.Spacing.Gaps.{Call, claims, starts, AsksFor, Apart, spacer_gaps}
use marauder.Scheduler.Spacing.Lane.{LaneCall, pushes, pops, closes}
use marauder.Scheduler.Dispatch.{Due, Dispatch, idle, dispatch_once, tick, at_start, next}
use marauder.Scheduler.History.{
  no_runs, max_history, RunCall, begins, checks, ends, make_call, history_of,
}
use marauder.Scheduler.History.Newest.{all_runs, newest, history_of-newest}
use marauder.Scheduler.Dispatch.Exclusive.{count_id, count_lanes, one_holder}

abbrev kinozal : Text
kinozal = codes "kinozal"

-- Two goroutines of one tracker claim, and one of another tracker.
abbrev claims_made : List Call
claims_made =
    claims kinozal 5 10
    ∷ claims kinozal 5 12
    ∷ claims (codes "rutor") 9 13
    ∷ claims kinozal 5 15
    ∷ []

AsksFor-five : AsksFor kinozal 5 claims_made
unfolding text_eq
AsksFor-five = (λ _. refl, (λ _. refl, (λ e. absurd (cc e), (λ _. refl, tt))))

gaps_example : Apart 5 none (starts kinozal claims_made new_spacer)
gaps_example = spacer_gaps kinozal 5 claims_made AsksFor-five

starts_run : starts kinozal claims_made new_spacer ≡ 10 ∷ 15 ∷ []
unfolding starts marauder.Scheduler.Spacing.Gaps.start_of text_eq marauder.Scheduler.Spacing.claim
    marauder.Scheduler.Spacing.Gaps.step marauder.Scheduler.Spacing.record_start
starts_run = refl

abbrev lane_calls : List (LaneCall ℕ)
lane_calls = pushes 1 ∷ pushes 2 ∷ pops ∷ closes ∷ pushes 3 ∷ pops ∷ []

-- Two due topics, one with spacing and one without.
abbrev spaced : Text → ℕ
spaced name = if text_eq name kinozal then 5 else 0

abbrev due : List (Due × Bool)
due =
    (record { id = 1; tracker = kinozal }, true)
    ∷ (record { id = 2; tracker = codes "rutor" }, true)
    ∷ (record { id = 1; tracker = kinozal }, true)
    ∷ []

abbrev after_tick : Dispatch
after_tick = dispatch_once spaced 4 due idle

exclusive_example :
    count_id 1 after_tick.jobs + count_lanes 1 after_tick.lanes + count_id 1 after_tick.running
    ≡ (if after_tick.inflight 1 then 1 else 0)
exclusive_example = one_holder spaced 4 (next at_start (tick due idle)) 1

inflight_run : after_tick.inflight 1 ≡ true
unfolding dispatch_once text_eq
inflight_run = refl

-- Two runs that check two topics each, behind calls for which no run is open.
abbrev one_run : (errored : Bool) → ℕ → List RunCall
one_run e t = begins t ∷ checks true e ∷ checks false false ∷ ends (t + 1) ∷ []

abbrev two_runs : List RunCall
two_runs = ends 1 ∷ checks true true ∷ one_run false 2 ++ one_run true 4

history_example :
    (history_of two_runs no_runs).history ≡ newest max_history (all_runs none two_runs)
history_example = history_of-newest two_runs

-- What was checked while no run was open is not counted.
history_run :
    (history_of two_runs no_runs).history
    ≡ record { started_at = 2; ended_at = 3; checked = 2; updated = 1; errors = 0 }
      ∷ record { started_at = 4; ended_at = 5; checked = 2; updated = 1; errors = 1 }
      ∷ []
unfolding history_of make_call
history_run = refl
