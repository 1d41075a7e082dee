-- ===== src/Live/Tickets.antt =====
-- `TicketStore` of backend/internal/sse/ticket.go. A time is a number of nanoseconds; the lock makes the
-- calls follow one another.
pub mod Admits
use marauder.Prelude.{
  ℕ, ◌+◌, Bool, true, ◌&&◌, Option, none, some, List, [], ◌∷◌, ltb, leb, if◌then◌else◌, Text,
  text_eq,
}

-- Thirty seconds, in nanoseconds.
abbrev pub ticket_ttl : ℕ
ticket_ttl = 30000000000

-- `ticketEntry`.
pub record Entry : Type 0 where
  pub user : ℕ
  pub expires : ℕ

-- The map of `TicketStore`.
abbrev pub Tickets : Type 0
Tickets = List (Text × Entry)

unfoldable pub find : Text → Tickets → Option Entry
find token [] = none
find token ((t, e) ∷ m) = let rest = find token m in if text_eq t token then some e else rest

-- `delete(m, token)`.
unfoldable pub remove : Text → Tickets → Tickets
remove token [] = []
remove token ((t, e) ∷ m) =
    let rest = remove token m in if text_eq t token then rest else (t, e) ∷ rest

-- `pruneLocked`.
unfoldable pub prune : (now : ℕ) → Tickets → Tickets
prune now [] = []
prune now ((t, e) ∷ m) = let rest = prune now m in if ltb e.expires now then rest else (t, e) ∷ rest

-- `Issue`, for the token that the random bytes make.
unfoldable pub issue : (token : Text) → (user now : ℕ) → Tickets → Tickets
unfolding prune remove
issue token user now m =
    (token, record { user = user; expires = now + ticket_ttl }) ∷ remove token (prune now m)

-- `Consume`: the user, if the ticket is valid, and the tickets that are left.
unfoldable pub consume : (token : Text) → (now : ℕ) → Tickets → Option ℕ × Tickets
unfolding find remove
consume token now m = elim (find token m) [
  | none ↦ (none, m)
  | some e ↦ if ltb e.expires now then (none, remove token m) else (some e.user, remove token m)
]

-- What was done with the store.
pub data Act : Type 0 where
  issued : (token : Text) → (user now : ℕ) → Act
  consumed : (token : Text) → (now : ℕ) → Act

-- The tickets that a history leaves, the newest act first.
unfoldable pub tickets_of : List Act → Tickets
unfolding issue consume
tickets_of [] = []
tickets_of (issued token user now ∷ acts) = issue token user now (tickets_of acts)
tickets_of (consumed token now ∷ acts) = (consume token now (tickets_of acts)).1

unfoldable pub time_of : Act → ℕ
time_of (issued token user now) = now
time_of (consumed token now) = now

-- The clock does not go back, and the latest act is not behind `now`.
unfoldable pub in_order : (now : ℕ) → List Act → Bool
unfolding time_of
in_order now [] = true
in_order now (a ∷ acts) = let rest = in_order (time_of a) acts in leb (time_of a) now && rest

-- The ticket as its holder knows it: to whom and when it was issued, if it was not used since.
unfoldable pub unused : Text → List Act → Option (ℕ × ℕ)
unused token [] = none
unused token (issued t user now ∷ acts) =
    let rest = unused token acts in if text_eq t token then some (user, now) else rest
unused token (consumed t now ∷ acts) =
    let rest = unused token acts in if text_eq t token then none else rest

-- The user of a ticket that is not used and not older than its time to live.
unfoldable pub admitted : (now : ℕ) → Option (ℕ × ℕ) → Option ℕ
admitted now none = none
admitted now (some (user, since)) = if ltb (since + ticket_ttl) now then none else some user
