-- ===== src/Service/Listeners.antt =====
-- The peer behind a socket of a member (server/src/rooms/Room.cpp, `getPeerById`), and calls of members.
use canchat.Peer.Chat.{InRoom}
use canchat.Base.{
  ap, ℤ, int_eq, string_eq, String, Option, some, ◌≡◌, sym, subst, ◌∙◌, arith, Option-cases, inl,
  inr,
}
use canchat.Base.Map.{get}
use canchat.Base.Exec.{returns}
use canchat.World.{World}
use canchat.Room.{get_peer_by_id}
use canchat.Lobby.{get_room}
use canchat.Service.{View, Channel, seated, listener}
use canchat.Service.Seats.{Seats-IsPeer, Found, find}
use canchat.Service.Refines.{Listed, Matches, Refines}

-- A member of an open room, with the room and the peer that stand for it.
pub record Sitting (name : String) (id : ℤ) (v : View) (w : World) : Type 0 where
  pub channel : Channel
  pub nickname : String
  pub channel_is : v.channels name ≡ some channel
  pub member_is : get id channel.members ≡ some nickname
  pub room : Listed name channel v.next_id w
  pub found : Found w room.r id nickname room.room.peer_by_id

sitting_at :
    (name : String) (id : ℤ) (v : View) (w : World) (c : Channel) (nickname : String)
    → Refines v w
    → v.channels name ≡ some c
    → get id c.members ≡ some nickname
    → Sitting name id v w
sitting_at name id v w c nickname fine e m =
    let l : Listed name c v.next_id w =
      subst (λ o. Matches name o v.next_id w) e (fine.rooms name) in
    record {
      channel = c;
      nickname = nickname;
      channel_is = e;
      member_is = m;
      room = l;
      found = find w l.r id nickname l.seats m;
    }

seated_lem {ℓ} :
    {A : Type ℓ} (name : String) (id : ℤ) (v : View) (k : Channel → String → Option A) (c : Channel)
    (nickname : String)
    → v.channels name ≡ some c
    → get id c.members ≡ some nickname
    → seated v name id k ≡ k c nickname
seated_lem name id v k c nickname e m = rw (seated, e, m)

-- A call that the view allows only to a member comes from one.
pub seated-Sitting {ℓ} :
    {A : Type ℓ} (name : String) (id : ℤ) (v : View) (w : World) (k : Channel → String → Option A)
    (a : A)
    → Refines v w
    → seated v name id k ≡ some a
    → (s : Sitting name id v w) × (k s.channel s.nickname ≡ some a)
unfolding sitting_at
seated-Sitting name id v w k a fine e = elim (Option-cases (v.channels name)) [
  | inl n ↦ absurd (ground (arith, e, n))
  | inr (c, is_open) ↦ elim (Option-cases (get id c.members)) [
    | inl n ↦ absurd (ground (arith, e, is_open, n))
    | inr (nickname, m) ↦ (
      sitting_at name id v w c nickname fine is_open m,
      sym (seated_lem name id v k c nickname is_open m) ∙ e,
    )
  ]
]

pub listener_lem :
    (name : String) (id : ℤ) (v : View) (w : World) (s : Sitting name id v w)
    → listener name id w ≡ (returns s.found.p, w)
unfolding listener get_room get_peer_by_id
listener_lem name id v w s = ground (arith, s.room.listed, s.room.room_at, s.found.listed)

-- A member's peer in its room.
abbrev pub in_room :
    (name : String) (id : ℤ) (v : View) (w : World) (s : Sitting name id v w)
    → InRoom s.found.p w s.channel.log
in_room name id v w s = record {
  peer = s.found.seat.peer;
  room = s.room.room;
  peer_at = s.found.seat.peer_at;
  room_at = ap w.room_heap.cell s.found.seat.same_room ∙ s.room.room_at;
  members = Seats-IsPeer w s.room.r s.room.seats;
  remembered = s.room.remembered;
}
