-- ===== src/Live/Hub/Safe.antt =====
-- What holds of the hub whatever the order of the steps.
use marauder.Prelude.{
  All-map, ℕ, ◌≤◌, ◌≡◌, refl, sym, ap, ◌∙◌, subst, inl, inr, Bool, true, false, ◌||◌, List, [], ◌∷◌,
  ◌++◌, map, arith, ◌==◌, ==_iff, Bool-cases, length, drop, All, length-drop, All-append,
}
use marauder.Live.Hub.{
  subscriber_buffer, Frame, subscribed, removed, closed_down, Subscriber, Machine, update, send,
  close_channel, targets_of, unregister, subscribe, snapshot, send_to, leave_hub, close_subscriber,
  receive, Reach, start, subscribes, publishes, sends, leaves, closes, receives,
}
use marauder.Live.Hub.Sound.{
  is_done, Sound, send-Sound, Owned, Listed, Aimed, Safe, update_all, update_other, update_same,
  change-Owned,
}

subscribe-Safe : (user : ℕ) (m : Machine) → Safe m → Safe (subscribe user m)
unfolding subscribe is_done
subscribe-Safe user m k = record {
  sound = update_all Sound m.next _ m.subscriber fresh k.sound;
  quiet = k.quiet;
  listed = (
    (omega arith, ap (λ s. s.owner) (update_same m.next _ m.subscriber)),
    All-map _ _ m.registered (λ p o. older p.0 p.1 o) k.listed,
  );
  aimed = All-map _ _ m.in_flight (λ p o. older p.0.user p.1 o) k.aimed;
}
  where
    fresh : Sound (record {
      owner = user;
      frames = [];
      is_channel_closed = false;
      is_closed = false;
      stage = subscribed;
    })
    fresh = record { bound = omega arith; own = tt; closed_both = refl; closed_last = refl }

    older : (u id : ℕ) → Owned m u id → Owned (subscribe user m) u id
    older u id (l, e) =
        (omega arith, ap (λ s. s.owner) (update_other m.next _ m.subscriber id l) ∙ e)

targets-Owned :
    (m : Machine) (user : ℕ) (rs : List (ℕ × ℕ))
    → All (Listed m) rs
    → All (λ id. Owned m user id) (targets_of user rs)
unfolding targets_of
targets-Owned m user [] h = tt
targets-Owned m user ((u, id) ∷ rs) (o, h) = elim (Bool-cases (u == user)) [
  | inl e ↦ rw e ((o.0, o.1 ∙ (==_iff u user).0 e), targets-Owned m user rs h)
  | inr e ↦ rw e (targets-Owned m user rs h)
]

aim-All :
    (m : Machine) (f : Frame) (ids : List ℕ)
    → All (λ id. Owned m f.user id) ids
    → All (Aimed m) (map (λ id. (f, id)) ids)
aim-All m f [] h = tt
aim-All m f (id ∷ ids) (o, h) = (o, aim-All m f ids h)

snapshot-Safe : (f : Frame) (m : Machine) → Safe m → Safe (snapshot f m)
unfolding snapshot
snapshot-Safe f m k = record {
  sound = k.sound;
  quiet = k.quiet;
  listed = k.listed;
  aimed =
      All-append _ (map (λ id. (f, id)) (targets_of f.user m.registered)) m.in_flight
        (aim-All m f (targets_of f.user m.registered)
          (targets-Owned m f.user m.registered k.listed))
        k.aimed;
}

-- A step that changes one subscriber only, and takes some of the pairs away.
change-Safe :
    (m : Machine) (id : ℕ) (s : Subscriber) (registered : List (ℕ × ℕ))
    (in_flight : List (Frame × ℕ)) (b : Bool)
    → Safe m
    → Sound s
    → s.owner ≡ (m.subscriber id).owner
    → b ≡ false
    → All (Listed m) registered
    → All (Aimed m) in_flight
    → Safe (record m {
      registered = registered;
      in_flight = in_flight;
      subscriber = update id s m.subscriber;
      has_panicked = m.has_panicked || b;
    })
change-Safe m id s registered in_flight b k sound o n l a = record {
  sound = update_all Sound id s m.subscriber sound k.sound;
  quiet = ground (arith, k.quiet);
  listed = All-map _ _ registered (λ p x. change-Owned m id s p.0 p.1 o x) l;
  aimed = All-map _ _ in_flight (λ p x. change-Owned m id s p.0.user p.1 o x) a;
}

All-unregister :
    (P : ℕ × ℕ → Type 0) (id : ℕ) (rs : List (ℕ × ℕ)) → All P rs → All P (unregister id rs)
unfolding unregister
All-unregister P id [] h = tt
All-unregister P id ((u, k) ∷ rs) (p, h) = elim (Bool-cases (k == id)) [
  | inl e ↦ rw e (All-unregister P id rs h)
  | inr e ↦ rw e (p, All-unregister P id rs h)
]

-- Taking one away from a list.
All-without :
    {A : Type 0} (P : A → Type 0) (before : List A) (x : A) (behind : List A)
    → All P (before ++ x ∷ behind)
    → P x × All P (before ++ behind)
All-without P [] x behind (p, h) = (p, h)
All-without P (b ∷ before) x behind (q, h) =
    let (p, r) = All-without P before x behind h in (p, (q, r))

send_to-Safe :
    (f : Frame) (id : ℕ) (before behind : List (Frame × ℕ)) (m : Machine)
    → m.in_flight ≡ before ++ (f, id) ∷ behind
    → Safe m
    → Safe (send_to f id (before ++ behind) m)
unfolding send_to
send_to-Safe f id before behind m e k =
    let (o, rest) = All-without (Aimed m) before (f, id) behind (subst (All (Aimed m)) e k.aimed) in
    let (sound, calm, owner) = send-Sound f (m.subscriber id) (sym o.1) (k.sound id) in
    change-Safe m id (send f (m.subscriber id)).0 m.registered (before ++ behind)
      (send f (m.subscriber id)).1 k sound owner calm k.listed rest

leave_hub-Safe :
    (id : ℕ) (m : Machine) → (m.subscriber id).stage ≡ subscribed → Safe m → Safe (leave_hub id m)
unfolding leave_hub is_done
leave_hub-Safe id m e k = record {
  sound = update_all Sound id _ m.subscriber left k.sound;
  quiet = k.quiet;
  listed =
      All-map (Listed m) _ _ (λ p x. change-Owned m id _ p.0 p.1 refl x)
        (All-unregister (Listed m) id m.registered k.listed);
  aimed = All-map (Aimed m) _ m.in_flight (λ p x. change-Owned m id _ p.0.user p.1 refl x) k.aimed;
}
  where
    left : Sound (record (m.subscriber id) { stage = removed })
    left = record {
      bound = (k.sound id).bound;
      own = (k.sound id).own;
      closed_both = (k.sound id).closed_both;
      closed_last = (k.sound id).closed_last ∙ ap (λ t. is_done t) e;
    }

close_subscriber-Safe :
    (id : ℕ) (m : Machine)
    → (m.subscriber id).stage ≡ removed
    → Safe m
    → Safe (close_subscriber id m)
unfolding close_subscriber close_channel is_done
close_subscriber-Safe id m e k =
    change-Safe m id
      (record (m.subscriber id) { is_closed = true; is_channel_closed = true; stage = closed_down })
      m.registered m.in_flight (m.subscriber id).is_channel_closed k
      (record {
        bound = (k.sound id).bound;
        own = (k.sound id).own;
        closed_both = refl;
        closed_last = refl;
      })
      refl ((k.sound id).closed_both ∙ (k.sound id).closed_last ∙ ap (λ t. is_done t) e) k.listed
      k.aimed

All-rest : (P : Frame → Type 0) (fs : List Frame) → All P fs → All P (drop 1 fs)
All-rest P [] h = tt
All-rest P (f ∷ fs) (p, h) = h

receive-Safe : (id : ℕ) (m : Machine) → Safe m → Safe (receive id m)
unfolding receive
receive-Safe id m k = record {
  sound = update_all Sound id _ m.subscriber taken k.sound;
  quiet = k.quiet;
  listed = All-map (Listed m) _ m.registered (λ p x. change-Owned m id _ p.0 p.1 refl x) k.listed;
  aimed = All-map (Aimed m) _ m.in_flight (λ p x. change-Owned m id _ p.0.user p.1 refl x) k.aimed;
}
  where
    taken : Sound (record (m.subscriber id) { frames = drop 1 (m.subscriber id).frames })
    taken = record {
      bound = let l = length-drop 1 (m.subscriber id).frames in ground (arith, (k.sound id).bound);
      own = All-rest _ (m.subscriber id).frames (k.sound id).own;
      closed_both = (k.sound id).closed_both;
      closed_last = (k.sound id).closed_last;
    }

Reach-Safe : {m : Machine} → Reach m → Safe m
unfolding is_done
Reach-Safe start = record {
  sound = λ id. record { bound = omega arith; own = tt; closed_both = refl; closed_last = refl };
  quiet = refl;
  listed = tt;
  aimed = tt;
}
Reach-Safe (subscribes {m} user r) = subscribe-Safe user m (Reach-Safe r)
Reach-Safe (publishes {m} f r) = snapshot-Safe f m (Reach-Safe r)
Reach-Safe (sends {m} f id before behind e r) = send_to-Safe f id before behind m e (Reach-Safe r)
Reach-Safe (leaves {m} id e r) = leave_hub-Safe id m e (Reach-Safe r)
Reach-Safe (closes {m} id e r) = close_subscriber-Safe id m e (Reach-Safe r)
Reach-Safe (receives {m} id r) = receive-Safe id m (Reach-Safe r)

-- In whatever order the goroutines take their steps, none sends on a closed channel or closes one twice, no
-- connection has more than 64 frames waiting, and each of its frames carries an event of its own user.
pub hub_safe :
    (m : Machine) (id : ℕ)
    → Reach m
    → (m.has_panicked ≡ false)
      × (length (m.subscriber id).frames ≤ subscriber_buffer)
      × All (λ f. f.user ≡ (m.subscriber id).owner) (m.subscriber id).frames
hub_safe m id r = let k = Reach-Safe r in (k.quiet, (k.sound id).bound, (k.sound id).own)
