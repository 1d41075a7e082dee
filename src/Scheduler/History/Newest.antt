-- ===== src/Scheduler/History/Newest.antt =====
-- The run history against the list of all runs.
use marauder.Prelude.{
  ℕ, zero, suc, ◌+◌, ◌-◌, ◌≤◌, ◌≡◌, refl, sym, ap, ◌∙◌, inl, inr, Bool, true, false, Option, none,
  some, List, [], ◌∷◌, ◌++◌, arith, ltb, if◌then◌else◌, Bool-cases, length, drop, filter,
  length-append, length-drop, drop-drop,
}
use mathlib.Core.List.{append-nil, append_assoc}
use marauder.Scheduler.History.{
  RunSummary, History, max_history, no_runs, append_run, add_if, record_checked, RunCall, begins,
  checks, ends, make_call, history_of,
}

-- The summary of a run, from its start, its end and the two flags of each topic that was checked.
unfoldable pub summary : (started ended : ℕ) → List (Bool × Bool) → RunSummary
summary started ended rs = record {
  started_at = started;
  ended_at = ended;
  checked = length rs;
  updated = length (filter (λ r. r.0) rs);
  errors = length (filter (λ r. r.1) rs);
}

-- Every run that the calls end, the oldest first. A run that is open comes with its start and its results.
unfoldable pub all_runs : Option (ℕ × List (Bool × Bool)) → List RunCall → List RunSummary
unfolding summary
all_runs o [] = []
all_runs o (begins now ∷ calls) = all_runs (some (now, [])) calls
all_runs none (checks u e ∷ calls) = all_runs none calls
all_runs (some (t, rs)) (checks u e ∷ calls) = all_runs (some (t, (u, e) ∷ rs)) calls
all_runs none (ends now ∷ calls) = all_runs none calls
all_runs (some (t, rs)) (ends now ∷ calls) = summary t now rs ∷ all_runs none calls

unfoldable pub newest : ℕ → List RunSummary → List RunSummary
newest n hs = drop (length hs - n) hs

open_summary : Option (ℕ × List (Bool × Bool)) → Option RunSummary
open_summary none = none
open_summary (some (t, rs)) = some (summary t 0 rs)

drop-prefix :
    (n : ℕ) (xs ys : List RunSummary) → n ≤ length xs → drop n xs ++ ys ≡ drop n (xs ++ ys)
drop-prefix zero xs ys h = refl
drop-prefix (suc n) [] ys h = absurd (omega (arith, h))
drop-prefix (suc n) (x ∷ xs) ys h = drop-prefix n xs ys (omega (arith, h))

append_run-newest :
    (r : RunSummary) (hs : List RunSummary) → append_run r hs ≡ newest max_history (hs ++ r ∷ [])
unfolding append_run newest
append_run-newest r hs = elim (Bool-cases (ltb max_history (length (hs ++ r ∷ [])))) [
  | inl e ↦ rw e refl
  | inr e ↦
      let none_dropped : length (hs ++ r ∷ []) - max_history ≡ 0 = ground (arith, e) in
      rw e (ap (λ n. drop n (hs ++ r ∷ [])) (sym none_dropped))
]

newest-again :
    (n : ℕ) (xs ys : List RunSummary) → newest n (newest n xs ++ ys) ≡ newest n (xs ++ ys)
unfolding newest
newest-again n xs ys =
    let p = length xs - n in
    let joined : drop p xs ++ ys ≡ drop p (xs ++ ys) = drop-prefix p xs ys (omega arith) in
    let l = length-append (drop p xs) ys in
    let d = length-drop p xs in
    let w = length-append xs ys in
    let total : p + (length (drop p xs ++ ys) - n) ≡ length (xs ++ ys) - n =
      omega (arith, l, d, w) in
    ap (drop (length (drop p xs ++ ys) - n)) joined
    ∙ drop-drop p (length (drop p xs ++ ys) - n) (xs ++ ys)
    ∙ ap (λ k. drop k (xs ++ ys)) total

counted : (b : Bool) (n : ℕ) → add_if b n ≡ (if b then suc n else n)
unfolding add_if
counted true n = omega arith
counted false n = refl

if_length :
    (b : Bool) (x : Bool × Bool) (rs : List (Bool × Bool))
    → length (if b then x ∷ rs else rs) ≡ (if b then suc (length rs) else length rs)
if_length true x rs = refl
if_length false x rs = refl

same_counts :
    (t : ℕ) (hs : List RunSummary) (c c' u u' e e' : ℕ)
    → c ≡ c'
    → u ≡ u'
    → e ≡ e'
    → (let h : History = record {
      history = hs;
      current =
          some (record { started_at = t; ended_at = 0; checked = c; updated = u; errors = e });
    } in
        h)
      ≡ record {
        history = hs;
        current =
            some (record { started_at = t; ended_at = 0; checked = c'; updated = u'; errors = e' });
      }
same_counts t hs c c' u u' e e' p q r = rw (p, q, r) refl

record_checked-summary :
    (u e : Bool) (t : ℕ) (rs : List (Bool × Bool)) (hs : List RunSummary)
    → record_checked u e (record { history = hs; current = some (summary t 0 rs) })
      ≡ record { history = hs; current = some (summary t 0 ((u, e) ∷ rs)) }
unfolding record_checked summary
record_checked-summary u e t rs hs =
    same_counts t hs _ _ _ _ _ _ (omega arith)
      (counted u _ ∙ sym (if_length u (u, e) (filter (λ r. r.0) rs)))
      (counted e _ ∙ sym (if_length e (u, e) (filter (λ r. r.1) rs)))

history-newest :
    (calls : List RunCall) (o : Option (ℕ × List (Bool × Bool))) (hs : List RunSummary)
    → (history_of calls
        (record { history = newest max_history hs; current = open_summary o })).history
      ≡ newest max_history (hs ++ all_runs o calls)
unfolding history_of make_call all_runs open_summary
history-newest [] o hs = ap (newest max_history) (sym (append-nil hs))
history-newest (begins now ∷ calls) o hs = history-newest calls (some (now, [])) hs
history-newest (checks u e ∷ calls) none hs = history-newest calls none hs
history-newest (checks u e ∷ calls) (some (t, rs)) hs =
    ap (λ h. (history_of calls h).history) (record_checked-summary u e t rs (newest max_history hs))
    ∙ history-newest calls (some (t, (u, e) ∷ rs)) hs
history-newest (ends now ∷ calls) none hs = history-newest calls none hs
history-newest (ends now ∷ calls) (some (t, rs)) hs =
    let r = summary t now rs in
    ap (λ l. (history_of calls (record { history = l; current = none })).history)
      (append_run-newest r (newest max_history hs) ∙ newest-again max_history hs (r ∷ []))
    ∙ history-newest calls none (hs ++ r ∷ [])
    ∙ ap (newest max_history) (append_assoc hs (r ∷ []) (all_runs none calls))

-- Whatever the order of the calls, the history is the newest 50 of the runs that have ended, the oldest first, and
-- each counts the topics that were checked while it was open, and those of them that were updated or failed.
pub history_of-newest :
    (calls : List RunCall)
    → (history_of calls no_runs).history ≡ newest max_history (all_runs none calls)
unfolding newest open_summary
history_of-newest calls = history-newest calls none []
