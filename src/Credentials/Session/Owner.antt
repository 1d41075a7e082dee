-- ===== src/Credentials/Session/Owner.antt =====
-- Which credential the session belongs to.
use marauder.Prelude.{
  ℕ, ◌≡◌, refl, ap, ◌∙◌, inl, inr, Bool, false, ◌&&◌, Option, none, some, List, [], ◌∷◌, arith, ltb,
  Bool-cases, Option-cases, Text, text_eq, text_eq_iff, text_eq_refl,
}
use marauder.Credentials.Session.{
  zero_fingerprint, new_slot, Held, Attempt, Request, verify_request, Done, settle, account_after,
  sign_in, is_live, ensure_locked, ensure_session, establish, Reach, start, ensured, established,
}

-- What the slot says of a credential is so: the owner is signed in, and an answer without an error is one
-- of the owner.
pub record Honest (h : Held) : Type 0 where
  pub owner :
      (fp : Text) → text_eq fp zero_fingerprint ≡ false → h.slot.owner ≡ fp → h.account ≡ some fp
  pub last :
      text_eq h.slot.last.fp zero_fingerprint ≡ false
      → h.slot.last.err ≡ none
      → h.slot.owner ≡ h.slot.last.fp

zero_absurd :
    {A : Type 0} (fp : Text) → zero_fingerprint ≡ fp → text_eq fp zero_fingerprint ≡ false → A
zero_absurd fp e z =
    absurd (cc (text_eq_refl zero_fingerprint, ap (λ t. text_eq t zero_fingerprint) e, z))

start-Honest : (account : Option Text) → Honest (record { slot = new_slot; account = account })
start-Honest account = record { owner = λ fp z e. zero_absurd fp e z; last = λ z e. refl }

sign_in-Honest :
    (fp : Text) (a : Attempt) (before : List Request) (h : Held)
    → Honest (sign_in fp a before h).held
unfolding sign_in settle account_after
sign_in-Honest fp a before h = elim (Option-cases a.login) [
  | inl e ↦ elim (Bool-cases a.is_cut) [
    | inl c ↦
        simp (e, c, sign_in)
          (record {
            owner = λ fp' z k. ap some k;
            last = λ z k. zero_absurd zero_fingerprint refl z;
          })
    | inr c ↦ simp (e, c, sign_in) (record { owner = λ fp' z k. ap some k; last = λ z k. refl })
  ]
  | inr (x, e) ↦ elim (Bool-cases a.is_cut) [
    | inl c ↦
        simp (e, c, sign_in) (record { owner = λ fp' z k. zero_absurd fp' k z; last = λ z k. refl })
    | inr c ↦
        simp (e, c, sign_in)
          (record { owner = λ fp' z k. zero_absurd fp' k z; last = λ z k. ground arith })
  ]
]

-- A call that found the session live leaves the slot honest, and its account signed in.
verified-Honest :
    (fp : Text) (is_cut : Bool) (now : ℕ) (h : Held)
    → h.account ≡ some fp
    → Honest (record { slot = settle is_cut now fp none h.slot; account = h.account })
unfolding settle
verified-Honest fp is_cut now h e = elim (Bool-cases is_cut) [
  | inl c ↦ simp c (record {
    owner = λ fp' z k. e ∙ ap some k;
    last = λ z k. zero_absurd zero_fingerprint refl z;
  })
  | inr c ↦ simp c (record { owner = λ fp' z k. e ∙ ap some k; last = λ z k. refl })
]

-- The slot is honest behind the call, and a call without an error leaves its credential signed in.
abbrev Ends : Text → Done → Type 0
Ends fp d = Honest d.held × (d.err ≡ none → d.held.account ≡ some fp)

sign_in-Ends :
    (fp : Text) (a : Attempt) (before : List Request) (h : Held) → Ends fp (sign_in fp a before h)
unfolding sign_in account_after
sign_in-Ends fp a before h = (sign_in-Honest fp a before h, λ e. rw e refl)

ensure_locked-Ends :
    (fp : Text) (a : Attempt) (h : Held)
    → text_eq fp zero_fingerprint ≡ false
    → Honest h
    → Ends fp (ensure_locked fp a h)
unfolding ensure_locked
ensure_locked-Ends fp a h z ok =
    elim (Bool-cases (text_eq h.slot.last.fp fp && ltb a.arrived h.slot.last.at)) [
      | inl e ↦
          let same : h.slot.last.fp ≡ fp = (text_eq_iff h.slot.last.fp fp).0 (ground arith) in
          simp (e, ensure_locked)
            (
              ok,
              λ n. ok.owner fp z (ok.last (ap (λ t. text_eq t zero_fingerprint) same ∙ z) n ∙ same),
            )
      | inr e ↦ elim (Bool-cases (text_eq h.slot.owner fp)) [
        | inl o ↦ elim (Bool-cases (is_live a.verify)) [
          | inl v ↦
              let signed = ok.owner fp z ((text_eq_iff h.slot.owner fp).0 o) in
              simp (e, o, v, ensure_locked)
                (verified-Honest fp a.is_cut a.now h signed, λ n. signed)
          | inr v ↦ simp (e, o, v, ensure_locked) (sign_in-Ends fp a (verify_request ∷ []) h)
        ]
        | inr o ↦ simp (e, o, ensure_locked) (sign_in-Ends fp a [] h)
      ]
    ]

ensure_session-Ends :
    (fp : Text) (a : Attempt) (h : Held)
    → text_eq fp zero_fingerprint ≡ false
    → Honest h
    → Ends fp (ensure_session fp a h)
unfolding ensure_session
ensure_session-Ends fp a h z ok = elim (Option-cases a.gave_up) [
  | inl e ↦ simp (e, ensure_session) (ensure_locked-Ends fp a h z ok)
  | inr (x, e) ↦ simp (e, ensure_session) (ok, λ n. ground arith)
]

establish-Ends : (fp : Text) (a : Attempt) (h : Held) → Honest h → Ends fp (establish fp a h)
unfolding establish
establish-Ends fp a h ok = elim (Option-cases a.gave_up) [
  | inl e ↦ simp (e, establish) (sign_in-Ends fp a [] h)
  | inr (x, e) ↦ simp (e, establish) (ok, λ n. ground arith)
]

Reach-Honest : {h : Held} → Reach h → Honest h
Reach-Honest (start account) = start-Honest account
Reach-Honest (ensured {h} fp a z r) = (ensure_session-Ends fp a h z (Reach-Honest r)).0
Reach-Honest (established {h} fp a r) = (establish-Ends fp a h (Reach-Honest r)).0

-- After any calls by any callers for one tracker and one user, a call of `EnsureSession` or of `Establish` that
-- returns no error leaves the plugin's session signed in as the account of its own credential, if that
-- credential's fingerprint is not 32 zero bytes.
pub ensured_account :
    (fp : Text) (a : Attempt) (h : Held)
    → text_eq fp zero_fingerprint ≡ false
    → Reach h
    → ((ensure_session fp a h).err ≡ none → (ensure_session fp a h).held.account ≡ some fp)
      × ((establish fp a h).err ≡ none → (establish fp a h).held.account ≡ some fp)
ensured_account fp a h z r =
    ((ensure_session-Ends fp a h z (Reach-Honest r)).1, (establish-Ends fp a h (Reach-Honest r)).1)
