-- ===== src/Live/Hub.antt =====
-- `Hub` of backend/internal/sse/hub.go: the frames of the live connections. A `Publish` and an `unsub` are
-- several steps each, one for each time that they hold a lock. What a frame holds is not looked at.
pub mod Sound
pub mod Safe
use marauder.Prelude.{
  ℕ, ◌+◌, ◌≡◌, Bool, true, false, ◌||◌, List, [], ◌∷◌, ◌++◌, map, ltb, ◌==◌, if◌then◌else◌, length,
  drop, Text,
}

-- `subscriberBuffer`.
abbrev pub subscriber_buffer : ℕ
subscriber_buffer = 64

-- A frame, with the user whose event it carries.
pub record Frame : Type 0 where
  pub user : ℕ
  pub content : Text

-- How far the `unsub` of a subscriber is: not called, behind the removal from the hub, or done.
pub data Stage : Type 0 where
  subscribed removed closed_down : Stage

-- `subscriber`, its channel, the user who subscribed, and how far its `unsub` is.
pub record Subscriber : Type 0 where
  pub owner : ℕ
  pub frames : List Frame
  pub is_channel_closed : Bool
  pub is_closed : Bool
  pub stage : Stage

-- The hub, the subscribers by their number, the number of the next one, the sends of the calls of
-- `Publish` that are in flight, and whether a goroutine panicked.
pub record Machine : Type 0 where
  pub registered : List (ℕ × ℕ)
  pub subscriber : ℕ → Subscriber
  pub next : ℕ
  pub in_flight : List (Frame × ℕ)
  pub has_panicked : Bool

unfoldable pub update : ℕ → Subscriber → (ℕ → Subscriber) → ℕ → Subscriber
update id s f k = if k == id then s else f k

-- The send in `Publish`, which drops the frame where the buffer is full. The Boolean is a panic.
unfoldable pub send : Frame → Subscriber → Subscriber × Bool
send f s =
    if s.is_closed
    then (s, false)
    else if s.is_channel_closed
    then (s, true)
    else if ltb (length s.frames) subscriber_buffer
    then (record s { frames = s.frames ++ f ∷ [] }, false)
    else (s, false)

-- `close(s.ch)` behind `s.closed = true`. The Boolean is a panic.
unfoldable pub close_channel : Subscriber → Subscriber × Bool
close_channel s = (
  record s { is_closed = true; is_channel_closed = true; stage = closed_down },
  s.is_channel_closed,
)

unfoldable pub targets_of : ℕ → List (ℕ × ℕ) → List ℕ
targets_of user [] = []
targets_of user ((u, id) ∷ rs) =
    let rest = targets_of user rs in if u == user then id ∷ rest else rest

-- `delete(set, s)`.
unfoldable pub unregister : ℕ → List (ℕ × ℕ) → List (ℕ × ℕ)
unregister id [] = []
unregister id ((u, k) ∷ rs) = let rest = unregister id rs in if k == id then rest else (u, k) ∷ rest

abbrev pub empty_hub : Machine
empty_hub = record {
  registered = [];
  subscriber = λ id. record {
    owner = 0;
    frames = [];
    is_channel_closed = false;
    is_closed = false;
    stage = subscribed;
  };
  next = 0;
  in_flight = [];
  has_panicked = false;
}

-- `Subscribe`.
unfoldable pub subscribe : (user : ℕ) → Machine → Machine
unfolding update
subscribe user m = record m {
  registered = (user, m.next) ∷ m.registered;
  next = m.next + 1;
  subscriber =
      update m.next
        (record {
          owner = user;
          frames = [];
          is_channel_closed = false;
          is_closed = false;
          stage = subscribed;
        })
        m.subscriber;
}

-- `Publish` up to its snapshot.
unfoldable pub snapshot : Frame → Machine → Machine
unfolding targets_of
snapshot f m = record m {
  in_flight = map (λ id. (f, id)) (targets_of f.user m.registered) ++ m.in_flight;
}

-- One send of a `Publish` that is in flight; the others are left.
unfoldable pub send_to : Frame → ℕ → List (Frame × ℕ) → Machine → Machine
unfolding send update
send_to f id others m =
    let r = send f (m.subscriber id) in
    record m {
      in_flight = others;
      subscriber = update id r.0 m.subscriber;
      has_panicked = m.has_panicked || r.1;
    }

-- The first part of `unsub`, under the hub's lock.
unfoldable pub leave_hub : ℕ → Machine → Machine
unfolding unregister update
leave_hub id m = record m {
  registered = unregister id m.registered;
  subscriber = update id (record (m.subscriber id) { stage = removed }) m.subscriber;
}

-- The second part of `unsub`, under the subscriber's lock.
unfoldable pub close_subscriber : ℕ → Machine → Machine
unfolding close_channel update
close_subscriber id m =
    let r = close_channel (m.subscriber id) in
    record m { subscriber = update id r.0 m.subscriber; has_panicked = m.has_panicked || r.1 }

-- The connection takes the oldest frame.
unfoldable pub receive : ℕ → Machine → Machine
unfolding update
receive id m = record m {
  subscriber =
      update id (record (m.subscriber id) { frames = drop 1 (m.subscriber id).frames })
        m.subscriber;
}

-- The goroutines' steps in any order; `unsub` runs once.
pub data Reach : Machine → Type 0 where
  start : Reach empty_hub
  subscribes : {m : Machine} (user : ℕ) → Reach m → Reach (subscribe user m)
  publishes : {m : Machine} (f : Frame) → Reach m → Reach (snapshot f m)
  sends :
      {m : Machine} (f : Frame) (id : ℕ) (before behind : List (Frame × ℕ))
      → m.in_flight ≡ before ++ (f, id) ∷ behind
      → Reach m
      → Reach (send_to f id (before ++ behind) m)
  leaves :
      {m : Machine} (id : ℕ)
      → (m.subscriber id).stage ≡ subscribed
      → Reach m
      → Reach (leave_hub id m)
  closes :
      {m : Machine} (id : ℕ)
      → (m.subscriber id).stage ≡ removed
      → Reach m
      → Reach (close_subscriber id m)
  receives : {m : Machine} (id : ℕ) → Reach m → Reach (receive id m)
