-- ===== src/Room/Pinging.antt =====
-- A round of pings: `pingAllPeers` of server/src/rooms/Room.cpp for every room of the lobby.
use canchat.Base.{
  pos, ◌+ℤ◌, ◌<ℤ◌, int32_max, int_same, ℕ, ◌+◌, suc_uint64, Bool, true, false, ◌&&◌, present,
  if◌then◌else◌, Option-cases, none, some, List, [], ◌∷◌, ◌++◌, ◌≡◌, refl, ap, arith, append-nil,
  Bool-cases, inl, inr,
}
use canchat.Base.Heap.{Heap}
use canchat.Base.Heap
use canchat.Base.Exec.{returns}
use canchat.World.{World, Peer, Event, ping_frame, invalidated, emit, store_peer, count_event}
use canchat.Peer.{ping, ping_frames, invalidations, send_ping_async, invalidate_socket}
use canchat.Peer.Ping.{ping_lem}
use canchat.Room.Broadcast.{on_socket}
use canchat.Room.{ping_peer}

-- The peer has its socket, and as many pongs have come from it as pings were tried.
abbrev pub is_alive : Peer → Bool
is_alive peer = present peer.socket && int_same peer.ping_pong_counter (pos 0)

-- A peer after the round: the ping counts, and without an answer to the last one the socket is gone.
abbrev pub pinged : Peer → Peer
pinged peer = record peer {
  ping_pong_counter = peer.ping_pong_counter +ℤ pos 1;
  socket = if is_alive peer then peer.socket else none;
}

-- What is sent or closed.
abbrev pub ping_events : Peer → List Event
ping_events peer = on_socket (if is_alive peer then ping_frame else invalidated) peer.socket

ping_events-alive :
    (peer : Peer) → is_alive peer ≡ true → ping_events peer ≡ ping_frames true peer.socket
ping_events-alive peer alive =
    rw alive (elim (Option-cases peer.socket) [ inl e ↦ rw e refl | inr (s, e) ↦ rw e refl ])

ping_events-dead :
    (peer : Peer) → is_alive peer ≡ false → ping_events peer ≡ invalidations peer.socket
ping_events-dead peer dead =
    rw dead (elim (Option-cases peer.socket) [ inl e ↦ rw e refl | inr (s, e) ↦ rw e refl ])

abbrev pub zombie : Peer → ℕ
zombie peer = if is_alive peer then 0 else 1

abbrev pub all_events : Heap Peer → List ℕ → List Event
all_events h [] = []
all_events h (p ∷ ps) =
    elim (h.cell p) [ none ↦ [] | some peer ↦ ping_events peer ] ++ all_events h ps

abbrev pub zombies : Heap Peer → List ℕ → ℕ
zombies h [] = 0
zombies h (p ∷ ps) = elim (h.cell p) [ none ↦ 0 | some peer ↦ zombie peer ] + zombies h ps

-- The peer of a pointer, with a counter that does not wrap.
pub record Pingable (h : Heap Peer) (p : ℕ) : Type 0 where
  pub peer : Peer
  pub peer_at : h.cell p ≡ some peer
  pub counter_left : peer.ping_pong_counter <ℤ pos int32_max

abbrev pub dropped : World → World
dropped =
    count_event λ c. record c { event_peer_zombie_dropped = suc_uint64 c.event_peer_zombie_dropped }

abbrev drop_zombie : Peer → World → World
drop_zombie peer w = record w {
  statistics = if is_alive peer then w.statistics else (dropped w).statistics;
}

abbrev pub after_ping : ℕ → Peer → World → World
after_ping p peer w = drop_zombie peer (store_peer p (pinged peer) (emit (ping_events peer) w))

ping_alive : (peer : Peer) → peer.ping_pong_counter <ℤ pos int32_max → (ping peer).1 ≡ is_alive peer
ping_alive peer h = ground (arith, ping_lem peer h)

-- The peer after `sendPingAsync`.
abbrev counted_up : Peer → Peer
counted_up peer = record peer { ping_pong_counter = peer.ping_pong_counter +ℤ pos 1 }

module _ (p : ℕ) (w : World) (k : Pingable w.peer_heap p) where
  abbrev sent_to : World
  sent_to = store_peer p (counted_up k.peer) (emit (ping_frames (is_alive k.peer) k.peer.socket) w)

  send_ping_lem : send_ping_async p w ≡ (returns (is_alive k.peer), sent_to)
  unfolding send_ping_async
  send_ping_lem =
      rw (k.peer_at, ping_alive k.peer k.counter_left, (ping_lem k.peer k.counter_left).1) refl

  no_ping : is_alive k.peer ≡ false → sent_to ≡ store_peer p (counted_up k.peer) w
  no_ping dead =
      rw dead
        (ap (λ es. record (store_peer p (counted_up k.peer) w) { sent = es }) (append-nil w.sent))

  ping_peer_dead : is_alive k.peer ≡ false → ping_peer p w ≡ (returns tt, after_ping p k.peer w)
  unfolding ping_peer invalidate_socket
  ping_peer_dead dead =
      rw
        (
          ping_events-dead k.peer dead,
          send_ping_lem,
          no_ping dead,
          dead,
          Heap.cell-write p (counted_up k.peer) w.peer_heap,
        )
        (ap
          (λ h.
            (returns tt, dropped (record (emit (invalidations k.peer.socket) w) { peer_heap = h })))
          (Heap.write-write p (counted_up k.peer) (record (counted_up k.peer) { socket = none })
            w.peer_heap))

  pub ping_peer_lem : ping_peer p w ≡ (returns tt, after_ping p k.peer w)
  unfolding ping_peer
  ping_peer_lem = elim (Bool-cases (is_alive k.peer)) [
    | inl alive ↦ rw (ping_events-alive k.peer alive, send_ping_lem, alive) refl
    | inr dead ↦ ping_peer_dead dead
  ]
