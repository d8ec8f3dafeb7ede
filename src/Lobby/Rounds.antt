-- ===== src/Lobby/Rounds.antt =====
-- `pingAllPeers` (server/src/rooms/Room.cpp) for every room of the lobby: the whole round.
use canchat.Base.{
  subst, ℕ, ◌+◌, ◌<◌, ◌%◌, ◌^◌, suc_uint64, Option, none, some, List, [], ◌∷◌, ◌++◌, ◌≡◌, ◌≢◌, refl,
  sym, ap, ◌∙◌, arith, All, append_assoc, append-nil, Bool-cases, inl, inr,
}
use canchat.Base.Heap.{Heap}
use canchat.Base.Heap
use canchat.Base.Map.{values}
use canchat.Base.Exec.{for_each_keeps, for_each-append, continue_cong, returns, for_each}
use canchat.World.{World, Peer, Room}
use canchat.Peer.{send_ping_async, invalidate_socket}
use canchat.Room.{ping_peer, ping_all_peers}
use canchat.Lobby.{ping_round}
use canchat.Room.Pinging.{
  is_alive, pinged, zombie, zombies, all_events, ping_events, Pingable, after_ping, ping_peer_lem,
}

abbrev dropped_count : World → ℕ
dropped_count w = w.statistics.counters.event_peer_zombie_dropped

abbrev pinged_at : Option Peer → Option Peer
pinged_at none = none
pinged_at (some peer) = some (pinged peer)

-- The round for the peers of one list.
pub record Pinged (ps : List ℕ) (u w : World) : Type 0 where
  pub peers :
      All
        (λ p.
          (peer : Peer) → u.peer_heap.cell p ≡ some peer → w.peer_heap.cell p ≡ some (pinged peer))
        ps
  pub others : (q : ℕ) → All (λ p. q ≢ p) ps → w.peer_heap.cell q ≡ u.peer_heap.cell q
  pub sent : w.sent ≡ u.sent ++ all_events u.peer_heap ps
  pub counted :
      dropped_count u < 2 ^ 64
      → dropped_count w ≡ (dropped_count u + zombies u.peer_heap ps) % 2 ^ 64
  pub rooms_same : w.room_heap ≡ u.room_heap
  pub lobby_same : w.lobby ≡ u.lobby

-- No peer is listed twice.
abbrev pub Distinct : List ℕ → Type 0
Distinct [] = Unit
Distinct (p ∷ ps) = All (λ q. p ≢ q) ps × Distinct ps

-- Two heaps with the same peers in these places.
abbrev Same : Heap Peer → Heap Peer → List ℕ → Type 0
Same g h = All (λ q. h.cell q ≡ g.cell q)

events_same : (g h : Heap Peer) (ps : List ℕ) → Same g h ps → all_events h ps ≡ all_events g ps
events_same g h [] e = refl
events_same g h (p ∷ ps) e = rw (e.0, events_same g h ps e.1) refl

zombies_same : (g h : Heap Peer) (ps : List ℕ) → Same g h ps → zombies h ps ≡ zombies g ps
zombies_same g h [] e = refl
zombies_same g h (p ∷ ps) e = rw (e.0, zombies_same g h ps e.1) refl

Pingable-same :
    (g h : Heap Peer) (ps : List ℕ) → Same g h ps → All (Pingable g) ps → All (Pingable h) ps
Pingable-same g h [] e all = tt
Pingable-same g h (p ∷ ps) e (k, all) = (
  record { peer = k.peer; peer_at = e.0 ∙ k.peer_at; counter_left = k.counter_left },
  Pingable-same g h ps e.1 all,
)

peers_same :
    (g h i : Heap Peer) (ps : List ℕ)
    → Same g h ps
    → All (λ p. (peer : Peer) → h.cell p ≡ some peer → i.cell p ≡ some (pinged peer)) ps
    → All (λ p. (peer : Peer) → g.cell p ≡ some peer → i.cell p ≡ some (pinged peer)) ps
peers_same g h i [] e all = tt
peers_same g h i (p ∷ ps) e (k, all) = (λ peer at. k peer (e.0 ∙ at), peers_same g h i ps e.1 all)

after_ping-Same :
    (p : ℕ) (peer : Peer) (w : World) (ps : List ℕ)
    → All (λ q. p ≢ q) ps
    → Same w.peer_heap (after_ping p peer w).peer_heap ps
after_ping-Same p peer w [] all = tt
after_ping-Same p peer w (q ∷ ps) (n, all) = (
  Heap.cell-write_ne p q (pinged peer) w.peer_heap (λ e. n (sym e)),
  after_ping-Same p peer w ps all,
)

dropped_one :
    (p : ℕ) (peer : Peer) (w : World)
    → dropped_count w < 2 ^ 64
    → dropped_count (after_ping p peer w) ≡ (dropped_count w + zombie peer) % 2 ^ 64
unfolding suc_uint64
dropped_one p peer w h = elim (Bool-cases (is_alive peer)) [
  | inl e ↦ rw e (omega (arith, h))
  | inr e ↦ rw e
]

module _ (p : ℕ) (ps : List ℕ) (w : World) (apart : All (λ q. p ≢ q) ps)
    (k : Pingable w.peer_heap p) (w' : World) (r : Pinged ps (after_ping p k.peer w) w') where
  abbrev same : Same w.peer_heap (after_ping p k.peer w).peer_heap ps
  same = after_ping-Same p k.peer w ps apart

  first_pinged :
      (peer : Peer) → w.peer_heap.cell p ≡ some peer → w'.peer_heap.cell p ≡ some (pinged peer)
  first_pinged peer at =
      r.others p apart
      ∙ Heap.cell-write p (pinged k.peer) w.peer_heap
      ∙ ap pinged_at (sym k.peer_at ∙ at)

  all_sent : w'.sent ≡ w.sent ++ all_events w.peer_heap (p ∷ ps)
  all_sent = rw (k.peer_at) (
      r.sent
      ∙ append_assoc w.sent (ping_events k.peer) _
      ∙ ap (λ es. w.sent ++ (ping_events k.peer ++ es))
          (events_same w.peer_heap (after_ping p k.peer w).peer_heap ps same))

  all_counted :
      dropped_count w < 2 ^ 64
      → dropped_count w' ≡ (dropped_count w + zombies w.peer_heap (p ∷ ps)) % 2 ^ 64
  all_counted h = rw (k.peer_at) (
      omega (
        arith,
        h,
        dropped_one p k.peer w h,
        zombies_same w.peer_heap (after_ping p k.peer w).peer_heap ps same,
        r.counted (omega (arith, dropped_one p k.peer w h)),
      ))

  Pinged-more : Pinged (p ∷ ps) w w'
  Pinged-more = record {
    peers = (
      first_pinged,
      peers_same w.peer_heap (after_ping p k.peer w).peer_heap w'.peer_heap ps same r.peers,
    );
    others = λ q n. r.others q n.1 ∙ Heap.cell-write_ne p q (pinged k.peer) w.peer_heap n.0;
    sent = all_sent;
    counted = all_counted;
    rooms_same = r.rooms_same;
    lobby_same = r.lobby_same;
  }

ping_each :
    (ps : List ℕ) (w : World)
    → Distinct ps
    → All (Pingable w.peer_heap) ps
    → (w' : World) × ((for_each ping_peer ps w ≡ (returns tt, w')) × Pinged ps w w')
ping_each [] w d all = (
  w,
  (
    refl,
    record {
      peers = tt;
      others = λ q n. refl;
      sent = sym (append-nil w.sent);
      counted = λ h. omega (arith, h);
      rooms_same = refl;
      lobby_same = refl;
    },
  ),
)
ping_each (p ∷ ps) w (apart, d) (k, all) =
    let u : World = after_ping p k.peer w in
    let (w', (run, r)) =
      ping_each ps u d
        (Pingable-same w.peer_heap u.peer_heap ps (after_ping-Same p k.peer w ps apart) all) in
    (w', (rw (ping_peer_lem p w k) run, Pinged-more p ps w apart k w' r))

-- The peers of the rooms, in the order of the maps.
abbrev pub room_peers : Option Room → List ℕ
room_peers none = []
room_peers (some room) = values room.peer_by_id

abbrev pub audience : Heap Room → List ℕ → List ℕ
audience h [] = []
audience h (r ∷ rs) = room_peers (h.cell r) ++ audience h rs

abbrev pub IsRoom : Heap Room → ℕ → Type 0
IsRoom h r = (room : Room) × (h.cell r ≡ some room)

ping_peer_rooms : (p : ℕ) (w : World) → (ping_peer p w).1.room_heap ≡ w.room_heap
unfolding ping_peer send_ping_async invalidate_socket
ping_peer_rooms p w = ground arith

rooms_kept :
    (ps : List ℕ) (w u : World)
    → for_each ping_peer ps w ≡ (returns tt, u)
    → u.room_heap ≡ w.room_heap
rooms_kept ps w u e =
    ap (λ x. x.1.room_heap) (sym e)
    ∙ for_each_keeps (λ v. v.room_heap) ping_peer ping_peer_rooms ps w

-- Room by room is peer by peer.
rooms_each :
    (rs : List ℕ) (w : World)
    → All (IsRoom w.room_heap) rs
    → for_each ping_all_peers rs w ≡ for_each ping_peer (audience w.room_heap rs) w
unfolding ping_all_peers
rooms_each [] w all = refl
rooms_each (r ∷ rs) w ((room, at), all) =
    rw (at, for_each-append ping_peer (values room.peer_by_id) (audience w.room_heap rs) w)
      (continue_cong (for_each ping_peer (values room.peer_by_id) w) _ _ (λ a u run.
        let same = rooms_kept (values room.peer_by_id) w u run in
        rooms_each rs u (subst (λ h. All (IsRoom h) rs) (sym same) all)
        ∙ ap (λ h. for_each ping_peer (audience h rs) u) same))

-- The round of the lobby, if its rooms are there, each peer of a room is in one room only and its
-- ping counter does not wrap. A peer with its socket whose counter is 0, that is, from which as many
-- pongs have come as pings were tried, gets one ping frame; every other peer loses its socket, whose
-- connection is invalidated, and is counted as dropped, also if it had no socket any more. The counter
-- of each peer rises by one, and no other peer, no room and no list of rooms changes.
pub ping_round-Pinged :
    (w : World)
    → All (IsRoom w.room_heap) (values w.lobby.rooms)
    → Distinct (audience w.room_heap (values w.lobby.rooms))
    → All (Pingable w.peer_heap) (audience w.room_heap (values w.lobby.rooms))
    → (w' : World) × ((ping_round w ≡ (returns tt, w'))
        × Pinged (audience w.room_heap (values w.lobby.rooms)) w w')
unfolding ping_round
ping_round-Pinged w rooms d all =
    let (w', (run, r)) = ping_each (audience w.room_heap (values w.lobby.rooms)) w d all in
    (w', (rooms_each (values w.lobby.rooms) w rooms ∙ run, r))
