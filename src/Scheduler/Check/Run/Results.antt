-- ===== src/Scheduler/Check/Run/Results.antt =====
-- What one check records and delivers.
use marauder.Prelude.{
  ℕ, ◌≤◌, ◌≡◌, refl, ap, ◌∙◌, inl, inr, Bool, true, false, Option, none, some, List, [], ◌∷◌, arith,
  Option-cases, Text,
}
use marauder.Scheduler.Classify.{ErrorCode}
use marauder.Scheduler.Check.Drain.{max_per_tick}
use marauder.Scheduler.Check.Run.{Ended, skipped, aborted, complete, run_check}
use marauder.Scheduler.Check.Run.Ends.{run_check-Whole}
use marauder.Scheduler.Check.Run.Parts.{Whole, Allowed, passed, quiet, broken, full}
use marauder.Scheduler.Check.{Watched, Call, Calls, World}
use marauder.Scheduler.Check.Kinds.{
  Within, same, next, Within-weaken, is_minor, is_add, is_download, is_result, result_of, count,
  count-Within, guarded, may_follow, Within-guarded, drains-may_follow, drains-unrecorded,
}
use marauder.Scheduler.Check.Records.{Records, records}

unfoldable add_result :
    Option (Text × Option ErrorCode)
    → List (Text × Option ErrorCode)
    → List (Text × Option ErrorCode)
add_result none rs = rs
add_result (some r) rs = r ∷ rs

-- The results that were recorded, the newest first: their hash and error code.
unfoldable pub results : Calls → List (Text × Option ErrorCode)
unfolding add_result result_of
results [] = []
results (c ∷ tr) = add_result (result_of c) (results tr)

results-Within :
    {p : Call → Calls → Bool} {a b : Calls}
    → ((c : Call) (tr : Calls) → p c tr ≡ true → is_result c ≡ false)
    → Within p a b
    → results b ≡ results a
unfolding results add_result
results-Within f same = refl
results-Within f (next {tr'} c e w) = elim (Option-cases (result_of c)) [
  | inl g ↦ rw g (results-Within f w)
  | inr (r, g) ↦ ground (arith, f c tr' e)
]

minor-unrecorded : (c : Call) (tr : Calls) → is_minor c tr ≡ true → is_result c ≡ false
unfolding is_minor
minor-unrecorded c tr e = ground arith

minor-may_follow : (c : Call) (tr : Calls) → is_minor c tr ≡ true → may_follow c tr ≡ true
unfolding is_minor may_follow
minor-may_follow c tr e = ground arith

minor-undownloaded : (c : Call) (tr : Calls) → is_minor c tr ≡ true → is_download c ≡ false
unfolding is_minor
minor-undownloaded c tr e = ground arith

minor-unadded : (c : Call) (tr : Calls) → is_minor c tr ≡ true → is_add c ≡ false
unfolding is_minor
minor-unadded c tr e = ground arith

-- The results that a check records by its end: one that is allowed, or none if it was cut short.
abbrev pub Recorded : World → (last : Text) → Ended → List (Text × Option ErrorCode) → Type 0
Recorded w last complete rs =
    (hash : Text) × (code : Option ErrorCode) × (rs ≡ (hash, code) ∷ []) × Allowed w last hash code
Recorded w last skipped rs = rs ≡ []
Recorded w last aborted rs = rs ≡ []

Records-Recorded :
    (w : World) {last : Text} {old new : Calls}
    → results old ≡ []
    → Records (Allowed w last) old new
    → Recorded w last complete (results new)
unfolding results add_result result_of
Records-Recorded w e (records hash u d m code p before after) = (
  hash,
  code,
  results-Within minor-unrecorded after
      ∙ ap (λ rs. (hash, code) ∷ rs) (results-Within minor-unrecorded before ∙ e),
  p,
)

Whole-Recorded :
    (w : World) {last : Text} {q : Bool} {n : ℕ} {r : Ended × Calls}
    → Whole w last q n [] r
    → Recorded w last r.0 (results r.1)
unfolding results
Whole-Recorded w (passed v) = results-Within minor-unrecorded v
Whole-Recorded w (quiet rs) = Records-Recorded w refl rs
Whole-Recorded w (broken q v x c) =
    results-Within drains-unrecorded x ∙ results-Within minor-unrecorded v
Whole-Recorded w (full q v x c rs) =
    Records-Recorded w (results-Within drains-unrecorded x ∙ results-Within minor-unrecorded v) rs

-- A check that ends without a panic records exactly one result. Its hash is empty, the one that the topic had, or
-- the one that the tracker answered to this check, the last only without an error; so a failure never
-- advances the hash, and the release is found again. A check that panics records none.
pub run_check-Recorded :
    (w : World) (t fresh : Watched)
    → Recorded w fresh.topic.last_hash
        (run_check w t (some fresh)).0
        (results (run_check w t (some fresh)).1)
run_check-Recorded w t fresh = Whole-Recorded w (run_check-Whole w t fresh)

Records-guarded :
    {P : Text → Option ErrorCode → Type 0} {old new : Calls}
    → guarded old ≡ true
    → Records P old new
    → guarded new ≡ true
unfolding guarded may_follow is_add
Records-guarded g (records hash u d m code p before after) =
    Within-guarded (Within-guarded g (Within-weaken minor-may_follow before))
      (Within-weaken minor-may_follow after)

Whole-guarded :
    {w : World} {last : Text} {q : Bool} {n : ℕ} {r : Ended × Calls}
    → Whole w last q n [] r
    → guarded r.1 ≡ true
unfolding guarded
Whole-guarded (passed v) = Within-guarded refl (Within-weaken minor-may_follow v)
Whole-guarded (quiet rs) = Records-guarded refl rs
Whole-guarded (broken q v x c) =
    Within-guarded (Within-guarded refl (Within-weaken minor-may_follow v))
      (Within-weaken drains-may_follow x)
Whole-guarded (full q v x c rs) =
    Records-guarded
      (Within-guarded (Within-guarded refl (Within-weaken minor-may_follow v))
        (Within-weaken drains-may_follow x))
      rs

-- In a check each payload is handed to a client right behind a check of the topic's state, whose answer
-- was not `ErrStaleCheckResult`.
pub run_check-guarded :
    (w : World) (t fresh : Watched) → guarded (run_check w t (some fresh)).1 ≡ true
run_check-guarded w t fresh = Whole-guarded (run_check-Whole w t fresh)

Records-count :
    {P : Text → Option ErrorCode → Type 0} {old new : Calls}
    → Records P old new
    → count is_download new ≡ count is_download old
unfolding count is_download
Records-count (records hash u d m code p before after) =
    count-Within minor-undownloaded after ∙ count-Within minor-undownloaded before

Whole-count :
    {w : World} {last : Text} {q : Bool} {n : ℕ} {r : Ended × Calls}
    → Whole w last q n [] r
    → count is_download r.1 ≤ n
unfolding count
Whole-count (passed v) = let e = count-Within {q = is_download} minor-undownloaded v in omega arith
Whole-count (quiet rs) = let e = Records-count rs in omega arith
Whole-count (broken q v x c) =
    let e = count-Within {q = is_download} minor-undownloaded v in omega arith
Whole-count (full q v x c rs) =
    let e = count-Within {q = is_download} minor-undownloaded v in
    let f = Records-count rs in omega arith

-- A check downloads at most as many payloads as the configuration allows in one tick, 25 where it says
-- nothing.
pub run_check-count :
    (w : World) (t fresh : Watched)
    → count is_download (run_check w t (some fresh)).1 ≤ max_per_tick w.max_episodes
run_check-count w t fresh = Whole-count (run_check-Whole w t fresh)

Records-unadded :
    {P : Text → Option ErrorCode → Type 0} {old new : Calls}
    → Records P old new
    → count is_add new ≡ count is_add old
unfolding count is_add
Records-unadded (records hash u d m code p before after) =
    count-Within minor-unadded after ∙ count-Within minor-unadded before

Whole-untouched :
    {w : World} {last : Text} {q : Bool} {n : ℕ} {r : Ended × Calls}
    → Whole w last q n [] r
    → q ≡ true
    → (count is_download r.1 ≡ 0) × (count is_add r.1 ≡ 0)
unfolding count
Whole-untouched (passed v) e = (count-Within minor-undownloaded v, count-Within minor-unadded v)
Whole-untouched (quiet rs) e = (Records-count rs, Records-unadded rs)
Whole-untouched (broken q v x c) e = ground arith
Whole-untouched (full q v x c rs) e = ground arith

-- The check of a topic that only notifies downloads no payload and hands none to a client.
pub run_check-untouched :
    (w : World) (t fresh : Watched)
    → fresh.topic.notify_only ≡ true
    → (count is_download (run_check w t (some fresh)).1 ≡ 0)
      × (count is_add (run_check w t (some fresh)).1 ≡ 0)
run_check-untouched w t fresh e = Whole-untouched (run_check-Whole w t fresh) e
