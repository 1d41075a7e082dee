-- ===== src/Credentials/Session/Burst.antt =====
-- What callers with one credential that wait for each other send.
use marauder.Prelude.{
  ℕ, ◌≡◌, refl, sym, ap, subst, inl, inr, true, false, ◌&&◌, Option, none, List, [], ◌∷◌, ltb,
  Bool-cases, All, Text, text_eq, text_eq_refl,
}
use marauder.Credentials.Session.{
  Held, Attempt, Request, verify_request, Done, settle, sign_in, is_live, ensure_locked,
  ensure_session,
}

-- Calls with one credential, one behind the other.
unfoldable pub queue : Text → List Attempt → Held → List Done
unfolding ensure_session
queue fp [] h = []
queue fp (a ∷ rest) h = let d = ensure_session fp a h in d ∷ queue fp rest d.held

-- A call that waits for its turn, and that arrived before the attempt at hand ended.
pub record Waiting (ended : ℕ) (a : Attempt) : Type 0 where
  pub patient : a.gave_up ≡ none
  pub early : ltb a.arrived ended ≡ true

-- The latest answer is one for this credential, and it is this error.
pub record Answered (fp : Text) (ended : ℕ) (err : Option Text) (h : Held) : Type 0 where
  pub fp_same : text_eq h.slot.last.fp fp ≡ true
  pub at_same : h.slot.last.at ≡ ended
  pub err_same : h.slot.last.err ≡ err

handed_on :
    {fp : Text} {ended : ℕ} {err : Option Text} {h : Held} (a : Attempt)
    → Answered fp ended err h
    → Waiting ended a
    → ensure_session fp a h ≡ record { err = err; requests = []; held = h }
unfolding ensure_session ensure_locked
handed_on {fp} {ended} {err} {h} a ans wait =
    let early : ltb a.arrived h.slot.last.at ≡ true =
      subst (λ n. ltb a.arrived n ≡ true) (sym ans.at_same) wait.early in
    simp (wait.patient, ans.fp_same, early, ensure_session)
      (ap (λ e. record { err = e; requests = []; held = h }) ans.err_same)

queue-Answered :
    (fp : Text) (ended : ℕ) (err : Option Text) (rest : List Attempt) (h : Held)
    → Answered fp ended err h
    → All (Waiting ended) rest
    → All (λ d. (d.requests ≡ []) × (d.err ≡ err)) (queue fp rest h)
unfolding queue
queue-Answered fp ended err [] h ans ws = tt
queue-Answered fp ended err (a ∷ rest) h ans (w, ws) =
    let e = handed_on a ans w in
    (
      (ap (λ d. d.requests) e, ap (λ d. d.err) e),
      subst (λ h'. All (λ d. (d.requests ≡ []) × (d.err ≡ err)) (queue fp rest h'))
          (sym (ap (λ d. d.held) e)) (queue-Answered fp ended err rest h ans ws),
    )

sign_in-Answered :
    (fp : Text) (a : Attempt) (before : List Request) (h : Held)
    → a.is_cut ≡ false
    → Answered fp a.now (sign_in fp a before h).err (sign_in fp a before h).held
unfolding sign_in settle
sign_in-Answered fp a before h c = record {
  fp_same = rw c (text_eq_refl fp);
  at_same = rw c refl;
  err_same = rw c refl;
}

-- An attempt of its own leaves its answer behind.
attempt-Answered :
    (fp : Text) (a : Attempt) (h : Held)
    → a.gave_up ≡ none
    → a.is_cut ≡ false
    → (text_eq h.slot.last.fp fp && ltb a.arrived h.slot.last.at) ≡ false
    → Answered fp a.now (ensure_session fp a h).err (ensure_session fp a h).held
unfolding ensure_session ensure_locked settle
attempt-Answered fp a h g c e = elim (Bool-cases (text_eq h.slot.owner fp)) [
  | inl o ↦ elim (Bool-cases (is_live a.verify)) [
    | inl v ↦
        simp (g, e, o, v, ensure_session)
          (record { fp_same = rw c (text_eq_refl fp); at_same = rw c refl; err_same = rw c refl })
    | inr v ↦ simp (g, e, o, v, ensure_session) (sign_in-Answered fp a (verify_request ∷ []) h c)
  ]
  | inr o ↦ simp (g, e, o, ensure_session) (sign_in-Answered fp a [] h c)
]

-- Where a call of `EnsureSession` makes an attempt of its own that its context does not cut short, and the next
-- calls on the session's slot are all of callers with the same credential that arrived before the attempt
-- ended and wait for their turn, then these send no request, and each returns the attempt's answer. The
-- calls follow one another with no call of another credential and no `Establish` in between.
pub one_attempt :
    (fp : Text) (a : Attempt) (rest : List Attempt) (h : Held)
    → a.gave_up ≡ none
    → a.is_cut ≡ false
    → (text_eq h.slot.last.fp fp && ltb a.arrived h.slot.last.at) ≡ false
    → All (Waiting a.now) rest
    → All
        (λ d. (d.requests ≡ []) × (d.err ≡ (ensure_session fp a h).err))
        (queue fp rest (ensure_session fp a h).held)
one_attempt fp a rest h g c e ws =
    queue-Answered fp a.now (ensure_session fp a h).err rest (ensure_session fp a h).held
      (attempt-Answered fp a h g c e) ws
