-- ===== src/Service/Pings.antt =====
-- A round of pings (server/src/rooms/Lobby.cpp, Room.cpp) is quiet.
use canchat.Room.Pinging.{dropped}
use canchat.Base.{
  none, ℕ, int_eq, string_eq, true, false, some, List, [], ◌∷◌, ◌≡◌, refl, ◌∙◌, All, Bool-cases,
  inl, inr,
}
use canchat.Base.Heap
use canchat.Base.Map.{values}
use canchat.Base.Exec.{returns, for_each}
use canchat.World.{emit, World, Peer, Action, store_peer}
use canchat.Peer.{ping_frames, invalidations, ping, send_ping_async, invalidate_socket}
use canchat.Room.{ping_peer, ping_all_peers}
use canchat.Room.Broadcast.{IsPeer}
use canchat.Lobby.{ping_round}
use canchat.Service.Rooms.{IsLive}
use canchat.Service.Quiet.{
  Unseen, Unseen-refl, Unseen-trans, still-Unseen, face, still-store_peer, all_meet, all-IsLive,
}

-- A step that returns and is quiet.
pub record IsQuiet (step : Action Unit) (w : World) : Type 0 where
  pub after : World
  pub run : step w ≡ (returns tt, after)
  pub quiet : Unseen w after

-- A loop of them.
for_each-IsQuiet :
    {P : World → ℕ → Type 0} (body : ℕ → Action Unit)
    → ((a : ℕ) (w : World) → P w a → IsQuiet (body a) w)
    → ((xs : List ℕ) (u w : World) → Unseen u w → All (P u) xs → All (P w) xs)
    → (xs : List ℕ) (w : World) → All (P w) xs
    → IsQuiet (for_each body xs) w
for_each-IsQuiet body one keeps [] w all = record { after = w; run = refl; quiet = Unseen-refl w }
for_each-IsQuiet body one keeps (a ∷ xs) w (k, all) =
    let first = one a w k in
    let rest =
      for_each-IsQuiet body one keeps xs first.after (keeps xs w first.after first.quiet all) in
    record {
      after = rest.after;
      run = rw (first.run) (rest.run);
      quiet = Unseen-trans w first.after rest.after first.quiet rest.quiet;
    }

face-ping : (peer : Peer) → face (ping peer).0 ≡ face peer
unfolding ping
face-ping peer = refl

module _ (p : ℕ) (w : World) (peer : Peer) (at : w.peer_heap.cell p ≡ some peer) where
  abbrev counted : World
  counted = store_peer p (ping peer).0 w

  ping_sent : (ping peer).1 ≡ true → IsQuiet (ping_peer p) w
  unfolding ping_peer send_ping_async
  ping_sent sends = record {
    after = emit (ping_frames true peer.socket) counted;
    run = rw (at, sends);
    quiet =
        still-Unseen w (emit (ping_frames true peer.socket) counted)
          (still-store_peer p peer (ping peer).0 w at (face-ping peer)) refl refl;
  }

  ping_failed : (ping peer).1 ≡ false → IsQuiet (ping_peer p) w
  unfolding ping_peer send_ping_async invalidate_socket
  ping_failed fails = record {
    after = dropped (
        store_peer p (record ((ping peer).0) { socket = none })
          (emit (invalidations (ping peer).0.socket)
            (emit (ping_frames false peer.socket) counted)));
    run = rw (at, fails, Heap.cell-write p (ping peer).0 w.peer_heap);
    quiet =
        still-Unseen w _
          (still-store_peer p (ping peer).0 (record ((ping peer).0) { socket = none }) counted
              (Heap.cell-write p (ping peer).0 w.peer_heap) refl
            ∙ still-store_peer p peer (ping peer).0 w at (face-ping peer))
          refl refl;
  }

ping_peer-IsQuiet : (p : ℕ) (w : World) → IsPeer w.peer_heap p → IsQuiet (ping_peer p) w
ping_peer-IsQuiet p w (peer, at) = elim (Bool-cases (ping peer).1) [
  | inl sends ↦ ping_sent p w peer at sends
  | inr fails ↦ ping_failed p w peer at fails
]

ping_all_peers-IsQuiet : (r : ℕ) (w : World) → IsLive w r → IsQuiet (ping_all_peers r) w
unfolding ping_all_peers
ping_all_peers-IsQuiet r w l =
    let q =
      for_each-IsQuiet {P = λ u. IsPeer u.peer_heap} ping_peer ping_peer-IsQuiet
        (λ ps u v e. all_meet u v e ps) (values l.room.peer_by_id) w l.members in
    record { after = q.after; run = rw (l.room_at) (q.run); quiet = q.quiet }

pub ping_round-IsQuiet : (w : World) → All (IsLive w) (values w.lobby.rooms) → IsQuiet ping_round w
unfolding ping_round
ping_round-IsQuiet w live =
    let q =
      for_each-IsQuiet {P = IsLive} ping_all_peers ping_all_peers-IsQuiet
        (λ rs u v e. all-IsLive u v e rs) (values w.lobby.rooms) w live in
    record { after = q.after; run = q.run; quiet = q.quiet }
