-- ===== src/Examples/Live.antt =====
-- The hub of the live connections at a concrete run: a connection is closed while a second frame is on its way.
use marauder.Prelude.{◌≤◌, ◌≡◌, refl, false, [], ◌∷◌, All, length, codes}
use marauder.Live.Hub.{
  subscriber_buffer, Frame, Machine, update, send, close_channel, targets_of, unregister, empty_hub,
  subscribe, snapshot, send_to, leave_hub, close_subscriber, Reach, start, subscribes, publishes,
  sends, leaves, closes,
}
use marauder.Live.Hub.Safe.{hub_safe}

abbrev first_frame : Frame
first_frame = record { user = 1; content = codes "a" }

abbrev late_frame : Frame
late_frame = record { user = 1; content = codes "b" }

-- The first frame has arrived and the second is on its way.
abbrev on_its_way : Machine
on_its_way =
    snapshot late_frame (send_to first_frame 0 [] (snapshot first_frame (subscribe 1 empty_hub)))

abbrev closed_hub : Machine
closed_hub = send_to late_frame 0 [] (close_subscriber 0 (leave_hub 0 on_its_way))

closed_run : (closed_hub.subscriber 0).frames ≡ first_frame ∷ []
unfolding subscribe snapshot send_to leave_hub close_subscriber send close_channel update targets_of
    unregister
closed_run = refl

sent_run : (send_to late_frame 0 [] on_its_way).has_panicked ≡ false
unfolding subscribe snapshot send_to leave_hub close_subscriber send close_channel update targets_of
    unregister
sent_run = refl

on_its_way-Reach : Reach on_its_way
unfolding subscribe snapshot send_to leave_hub close_subscriber send close_channel update targets_of
    unregister
on_its_way-Reach =
    publishes late_frame
      (sends first_frame 0 [] [] refl (publishes first_frame (subscribes 1 start)))

closed_hub-Reach : Reach closed_hub
unfolding subscribe snapshot send_to leave_hub close_subscriber send close_channel update targets_of
    unregister
closed_hub-Reach = sends late_frame 0 [] [] refl (closes 0 refl (leaves 0 refl on_its_way-Reach))

hub_example :
    (closed_hub.has_panicked ≡ false)
    × (length (closed_hub.subscriber 0).frames ≤ subscriber_buffer)
    × All (λ f. f.user ≡ (closed_hub.subscriber 0).owner) (closed_hub.subscriber 0).frames
hub_example = hub_safe closed_hub 0 closed_hub-Reach
