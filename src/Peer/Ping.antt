-- ===== src/Peer/Ping.antt =====
-- The ping counter of server/src/rooms/Peer.cpp: `sendPingAsync` and `onPong`.
use canchat.Base.{
  pos, negsuc, ◌+ℤ◌, ◌-ℤ◌, ◌≤ℤ◌, ◌<ℤ◌, suc_int, pred_int, int32_max, int_laws, -ℤ_parts, ℕ, zero,
  suc, ◌<◌, ◌^◌, Bool, true, List, [], ◌∷◌, ◌≡◌, ◌↔◌, arith, present, All,
}
use canchat.World.{Peer}
use canchat.Peer.{ping, pong}

-- `n` pongs from the client.
unfoldable pub pongs : ℕ → Peer → Peer
pongs zero peer = peer
pongs (suc n) peer = pongs n (pong peer)

-- Rounds of the ping loop: after each ping the client answers so many times before the next.
-- The results tell which pings were sent.
unfoldable pub ping_rounds : List ℕ → Peer → List Bool
ping_rounds [] peer = []
ping_rounds (n ∷ ns) peer = (ping peer).1 ∷ ping_rounds ns (pongs n (ping peer).0)

-- A ping goes out exactly where the peer has its socket and its counter is zero; the counter
-- rises by one either way, and nothing else of the peer changes.
pub ping_lem :
    (peer : Peer)
    → peer.ping_pong_counter <ℤ pos int32_max
    → (((ping peer).1 ≡ true) ↔ ((present peer.socket ≡ true) × (peer.ping_pong_counter ≡ pos 0)))
      × ((ping peer).0 ≡ record peer { ping_pong_counter = peer.ping_pong_counter +ℤ pos 1 })
unfolding ping suc_int ◌+ℤ◌
ping_lem peer h = ground arith

-- A pong takes back what a ping added.
pub pong-ping :
    (peer : Peer)
    → negsuc int32_max <ℤ peer.ping_pong_counter
    → peer.ping_pong_counter <ℤ pos int32_max
    → pong (ping peer).0 ≡ peer
unfolding ping pong suc_int pred_int ◌+ℤ◌ ◌-ℤ◌
pong-ping peer g h = ground arith

-- The counter after some pongs, as long as it does not wrap.
pongs_lem :
    (n : ℕ) (peer : Peer)
    → negsuc int32_max ≤ℤ peer.ping_pong_counter -ℤ pos n
    → pongs n peer ≡ record peer { ping_pong_counter = peer.ping_pong_counter -ℤ pos n }
unfolding pongs pong pred_int ◌-ℤ◌
pongs_lem zero peer h = ground arith
pongs_lem (suc n) peer h = ground (arith, pongs_lem n (pong peer))

once : (peer : Peer) → peer.ping_pong_counter ≡ pos 0 → pongs 1 (ping peer).0 ≡ peer
unfolding pongs
once peer z = pong-ping peer (rw z (omega arith)) (rw z (omega arith))

-- A peer that answers each ping once is pinged in every round.
pub ping_rounds_answered :
    (peer : Peer) (ns : List ℕ)
    → present peer.socket ≡ true
    → peer.ping_pong_counter ≡ pos 0
    → All (λ n. n ≡ 1) ns
    → All (λ b. b ≡ true) (ping_rounds ns peer)
unfolding ping_rounds pongs
ping_rounds_answered peer [] s z h = tt
ping_rounds_answered peer (n ∷ ns) s z h = (
  ((ping_lem peer (rw z (omega arith))).0).1 (s, z),
  rw (h.0, once peer z) (ping_rounds_answered peer ns s z h.1),
)

after_ping :
    (peer : Peer) (n : ℕ)
    → peer.ping_pong_counter ≡ pos 0
    → n < 2 ^ 31
    → pongs n (ping peer).0 ≡ record peer { ping_pong_counter = pos 1 -ℤ pos n }
unfolding ping suc_int ◌+ℤ◌
after_ping peer n z h =
    rw z (pongs_lem n (record peer { ping_pong_counter = pos 1 }) (omega int_laws))

-- From a counter of zero a ping goes out; the next ping goes out exactly if the client sent one
-- pong in between. No pong makes the peer a zombie, and so do two or more.
pub second_ping :
    (peer : Peer) (n : ℕ)
    → present peer.socket ≡ true
    → peer.ping_pong_counter ≡ pos 0
    → n < 2 ^ 31
    → ((ping peer).1 ≡ true) × (((ping (pongs n (ping peer).0)).1 ≡ true) ↔ (n ≡ 1))
second_ping peer n s z h = (
  ((ping_lem peer (rw z (omega arith))).0).1 (s, z),
  rw (after_ping peer n z h) (
      ground (
        arith,
        ping_lem (record peer { ping_pong_counter = pos 1 -ℤ pos n }) (omega int_laws),
        -ℤ_parts (pos 1) (pos n),
        s,
      )),
)
