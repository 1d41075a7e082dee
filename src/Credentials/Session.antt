-- ===== src/Credentials/Session.antt =====
-- `EnsureSession` and `Establish` of backend/internal/trackercreds/session.go, for one tracker and one
-- user. The lock makes the calls follow one another; a time is a number, and zero is the zero time.
pub mod Owner
pub mod Burst
use marauder.Prelude.{
  ℕ, ◌≡◌, ◌⊎◌, inl, inr, Bool, false, ◌&&◌, Option, none, some, List, [], ◌∷◌, ◌++◌, ltb,
  if◌then◌else◌, Text, text_eq,
}

-- The fingerprint before any sign-in: 32 zero bytes.
abbrev pub zero_fingerprint : Text
zero_fingerprint =
    0 ∷ 0 ∷ 0 ∷ 0 ∷ 0 ∷ 0 ∷ 0 ∷ 0 ∷ 0 ∷ 0 ∷ 0 ∷ 0 ∷ 0 ∷ 0 ∷ 0 ∷ 0 ∷ 0 ∷ 0 ∷ 0 ∷ 0 ∷ 0 ∷ 0 ∷ 0 ∷ 0
    ∷ 0 ∷ 0 ∷ 0 ∷ 0 ∷ 0 ∷ 0 ∷ 0 ∷ 0 ∷ []

-- `outcome`; the error is its text.
pub record Outcome : Type 0 where
  pub fp : Text
  pub at : ℕ
  pub err : Option Text

abbrev pub no_outcome : Outcome
no_outcome = record { fp = zero_fingerprint; at = 0; err = none }

-- `sessionSlot`, without its lock: the calls below hold it from their start to their end.
pub record Slot : Type 0 where
  pub owner : Text
  pub last : Outcome

abbrev pub new_slot : Slot
new_slot = record { owner = zero_fingerprint; last = no_outcome }

-- The slot, and the account that the plugin's session is signed in as.
pub record Held : Type 0 where
  pub slot : Slot
  pub account : Option Text

-- What one call meets: when it arrived, whether its context ended before it had the lock, what the
-- plugin answers, which account a failed login leaves behind, when the attempt ended, and whether the
-- caller's context ended with it.
pub record Attempt : Type 0 where
  pub arrived : ℕ
  pub gave_up : Option Text
  pub verify : Option Text ⊎ Bool
  pub login : Option Text
  pub left_behind : Option Text
  pub now : ℕ
  pub is_cut : Bool

pub data Request : Type 0 where
  verify_request login_request : Request

-- What a call returns, the requests that it sent, and what it leaves.
pub record Done : Type 0 where
  pub err : Option Text
  pub requests : List Request
  pub held : Held

-- `settle(ctx, fp, err)`.
unfoldable pub settle : (is_cut : Bool) → (now : ℕ) → (fp : Text) → Option Text → Slot → Slot
settle is_cut now fp err s =
    let owner = elim err as (λ _. Text) [ none ↦ fp | some e ↦ zero_fingerprint ] in
    let last : Outcome = if is_cut then no_outcome else record { fp = fp; at = now; err = err } in
    record { owner = owner; last = last }

-- The account behind a login.
unfoldable pub account_after : (fp : Text) → (left_behind : Option Text) → Option Text → Option Text
account_after fp left_behind none = some fp
account_after fp left_behind (some e) = left_behind

-- A login, and what is settled behind it.
unfoldable pub sign_in : (fp : Text) → Attempt → List Request → Held → Done
unfolding settle account_after
sign_in fp a before h = record {
  err = a.login;
  requests = before ++ login_request ∷ [];
  held = record {
    slot = settle a.is_cut a.now fp a.login h.slot;
    account = account_after fp a.left_behind a.login;
  };
}

-- `err == nil && live`.
unfoldable pub is_live : Option Text ⊎ Bool → Bool
is_live (inl e) = false
is_live (inr live) = live

-- `EnsureSession` under the lock.
unfoldable pub ensure_locked : (fp : Text) → Attempt → Held → Done
unfolding sign_in settle is_live
ensure_locked fp a h =
    let verified : Done = record {
      err = none;
      requests = verify_request ∷ [];
      held = record { slot = settle a.is_cut a.now fp none h.slot; account = h.account };
    } in
    if text_eq h.slot.last.fp fp && ltb a.arrived h.slot.last.at
    then record { err = h.slot.last.err; requests = []; held = h }
    else if text_eq h.slot.owner fp
    then (if is_live a.verify then verified else sign_in fp a (verify_request ∷ []) h)
    else sign_in fp a [] h

-- `EnsureSession`, for a tracker and a user that have credentials.
unfoldable pub ensure_session : (fp : Text) → Attempt → Held → Done
unfolding ensure_locked
ensure_session fp a h = elim a.gave_up [
  | some e ↦ record { err = some e; requests = []; held = h }
  | none ↦ ensure_locked fp a h
]

-- `Establish`; `login` of the attempt is the caller's own sign-in.
unfoldable pub establish : (fp : Text) → Attempt → Held → Done
unfolding sign_in
establish fp a h = elim a.gave_up [
  | some e ↦ record { err = some e; requests = []; held = h }
  | none ↦ sign_in fp a [] h
]

-- One call after the other, by whatever caller with whatever credential.
pub data Reach : Held → Type 0 where
  start : (account : Option Text) → Reach (record { slot = new_slot; account = account })
  ensured :
      {h : Held} (fp : Text) (a : Attempt)
      → text_eq fp zero_fingerprint ≡ false
      → Reach h
      → Reach (ensure_session fp a h).held
  established : {h : Held} (fp : Text) (a : Attempt) → Reach h → Reach (establish fp a h).held
