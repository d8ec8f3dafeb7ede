-- ===== src/Service/Says.antt =====
-- A chat message, or one of typing (server/src/rooms/Peer.cpp), does what the view says of it.
use canchat.Service.Seats.{FilesThere-kept}
use canchat.Service.Unseen.{typing-Handled}
use canchat.Base.Map.{values}
use canchat.Service.Rooms.{All-IsLive}
use canchat.Base.{
  ℤ, int_eq, string_eq, String, Option, some, true, [], ◌∷◌, ◌++◌, ◌≡◌, refl, sym, ap, ap₂, subst,
  ◌∙◌, arith, Bool-cases, inl, inr,
}
use canchat.Base.Heap
use canchat.Base.Exec.{returns}
use canchat.Dto.{MessageDto, MessageCode, Envelope, History, code_peer_message, message_dto}
use canchat.World.{World, Room}
use canchat.Peer.{run_starter}
use canchat.Peer.Handlers.{Ticks, Library}
use canchat.Peer.Chat.{InRoom, after_chat, finish_message_chat}
use canchat.Room.Backlog.{backlog}
use canchat.Service.{is_typing, View, Channel, says, put, has_said, is_chat, step, handle_call}
use canchat.Service.Seats.{KeepsFiles-same, Seats-kept}
use canchat.Service.Refines.{
  Listed-IsLive, Handled, Listed, Refines, Untouched, Matches-kept, Matches-put,
}
use canchat.Service.Listeners.{in_room, Sitting, seated-Sitting, listener_lem}

is_chat_lem : (o : Option MessageCode) → is_chat o ≡ true → o ≡ some code_peer_message
is_chat_lem o e = ground (arith, e)

module _ (lib : Library) (name : String) (id : ℤ) (now : Ticks) (e : Envelope) (h : History)
    (v : View) (w : World) (fine : Refines v w) (s : Sitting name id v w)
    (chat : e.message_code ≡ some code_peer_message) where
  abbrev sitting : InRoom s.found.p w s.channel.log
  sitting = in_room name id v w s

  abbrev stamped : MessageDto
  stamped =
      message_dto
        (record e {
          peer_name = some s.found.seat.peer.nickname;
          peer_id = some s.found.seat.peer.peer_id;
          timestamp = some now.read_at;
        })
        h

  abbrev said : World
  said = after_chat sitting stamped

  stamped-eq-has_said : stamped ≡ has_said id s.nickname now.read_at e h
  stamped-eq-has_said =
      ap₂ (λ n i. has_said i n now.read_at e h) s.found.seat.same_name s.found.seat.same_id

  said_run : handle_call lib (says name id now e h) w ≡ (returns tt, said)
  unfolding handle_call run_starter
  said_run = rw (
    listener_lem name id v w s,
    finish_message_chat lib s.found.p now e h w s.channel.log sitting chat,
  )

  abbrev with_message : Channel
  with_message = record (s.channel) {
    log = s.channel.log ++ has_said id s.nickname now.read_at e h ∷ [];
  }

  said_room : Room
  said_room = record (s.room.room) { history = backlog w.config (s.channel.log ++ stamped ∷ []) }

  untouched : Untouched s.room.r w said
  untouched = record {
    rooms_same = λ q n.
        Heap.cell-write_ne s.found.seat.peer.room q _ w.room_heap
          (λ k. n (k ∙ s.found.seat.same_room));
    peers_same = λ p peer at n. refl;
    files_kept = KeepsFiles-same w said refl refl;
    config_same = refl;
  }

  said-Listed : Listed name with_message v.next_id said
  said-Listed = record {
    r = s.room.r;
    room = record (s.room.room) { history = backlog w.config (s.channel.log ++ stamped ∷ []) };
    listed = s.room.listed;
    room_at =
        ap said.room_heap.cell (sym s.found.seat.same_room)
        ∙ Heap.cell-write s.found.seat.peer.room _ w.room_heap;
    named = s.room.named;
    seats =
        Seats-kept w said s.room.r (λ p peer at in_room. refl) (KeepsFiles-same w said refl refl)
          s.room.seats;
    remembered = ap (λ m. backlog w.config (s.channel.log ++ m ∷ [])) stamped-eq-has_said;
    numbers = s.room.numbers;
    files_below = s.room.files_below;
    files_there =
        FilesThere-kept w said s.room.room.file_by_id (KeepsFiles-same w said refl refl)
          s.room.files_there;
    busy = s.room.busy;
    below = s.room.below;
  }

  said-Refines : Refines (put name (some with_message) v) said
  unfolding said-Listed
  said-Refines = record {
    rooms = Matches-put v said name (some with_message) v.next_id said-Listed (λ n other.
        Matches-kept s.room.r w said n (v.channels n) v.next_id v.next_id untouched refl
          (omega arith)
          (λ q room at named k. other (ground (arith, at, k, s.room.room_at, named, s.room.named)))
          (fine.rooms n));
    live =
        All-IsLive s.room.r w said (λ p k. k) untouched.rooms_same
          (Listed-IsLive name with_message v.next_id said said-Listed) (values w.lobby.rooms)
          fine.live;
    counter = fine.counter;
    fresh_rooms =
        λ q past. ground (arith, fine.fresh_rooms q past, s.room.room_at, s.found.seat.same_room);
    fresh_peers = fine.fresh_peers;
    fresh_files = fine.fresh_files;
  }

-- A message that the view allows.
pub says-Refines :
    (lib : Library) (name : String) (id : ℤ) (now : Ticks) (e : Envelope) (h : History)
    (v v' : View) (w : World)
    → Refines v w
    → step (says name id now e h) v ≡ some v'
    → Handled lib (says name id now e h) w v'
unfolding step
says-Refines lib name id now e h v v' w fine allowed =
    let (s, then_put) = seated-Sitting name id v w _ v' fine allowed in
    elim (Bool-cases (is_chat e.message_code)) [
      | inl chat ↦
          let is_code = is_chat_lem e.message_code chat in
          let same : put name (some (with_message lib name id now e h v w fine s is_code)) v ≡ v' =
            ground (arith, then_put, chat) in
          record {
            after = said lib name id now e h v w fine s is_code;
            run = said_run lib name id now e h v w fine s is_code;
            still =
                subst (λ u. Refines u (said lib name id now e h v w fine s is_code)) same
                  (said-Refines lib name id now e h v w fine s is_code);
          }
      | inr other ↦ elim (Bool-cases (is_typing e.message_code)) [
        | inl typing ↦
            subst (Handled lib (says name id now e h) w) (ground (arith, then_put, other, typing))
              (typing-Handled lib name id v w fine s now e h typing)
        | inr neither ↦ absurd (ground (arith, then_put, other, neither))
      ]
    ]
