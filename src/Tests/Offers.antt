-- ===== src/Tests/Offers.antt =====
-- A peer that shares two files at once, and a round of pings.
use canchat.Lobby.Rounds.{Pinged, ping_round-Pinged}
use canchat.Lobby.{ping_round}
use canchat.Base.{int_eq, pos, some, [], ◌∷◌, ◌≡◌, refl, arith, All}
use canchat.Base.Map.{get}
use canchat.Base.Exec.{returns}
use canchat.Dto.{
  MessageDto, FileDto, FilesList, empty_file, empty_envelope, message_dto, null_history,
  code_file_share,
}
use canchat.World.{World}
use canchat.Peer.{no_action}
use canchat.Peer.Handlers.{handle_files_message}
use canchat.Peer.Offers.{Complete, Sharer}
use canchat.Peer.Announcing.{Announced, handle_files_message-Announced}
use canchat.Room.Sharing.{FilesBelow}
use canchat.Base.Heap
use canchat.Tests.{owl, den, den_room, fox, fox_in_den}

abbrev photo : FileDto
photo = record empty_file {
  client_file_id = some (pos 7);
  name = some "a.jpg";
  size = some (pos 300);
}

abbrev song : FileDto
song = record empty_file {
  client_file_id = some (pos 8);
  name = some "b.ogg";
  size = some (pos 40);
}

abbrev two_files : FilesList
two_files = some photo ∷ some song ∷ []

abbrev all_complete : All Complete two_files
all_complete = (
  record {
    dto = photo;
    client_file_id = pos 7;
    name = "a.jpg";
    size = pos 300;
    given = refl;
    client_file_id_is = refl;
    name_is = refl;
    size_is = refl;
  },
  (
    record {
      dto = song;
      client_file_id = pos 8;
      name = "b.ogg";
      size = pos 40;
      given = refl;
      client_file_id_is = refl;
      name_is = refl;
      size_is = refl;
    },
    tt,
  ),
)

abbrev sharing : MessageDto
sharing =
    message_dto
      (record empty_envelope { message_code = some code_file_share; files = some two_files })
      null_history

den_room-FilesBelow : FilesBelow den_room
unfolding get
den_room-FilesBelow id f e = ground arith

fox_listed : get fox.peer_id den_room.peer_by_id ≡ some 0
unfolding get
fox_listed = refl

abbrev fox_shares : Sharer 0 den
fox_shares = record {
  peer = fox;
  room = den_room;
  peer_at = refl;
  room_at = refl;
  registered = fox_listed;
  below = den_room-FilesBelow;
}

handle_files_message-Announced_example :
    (w' : World) × ((handle_files_message 0 (pos 9) sharing den ≡ (returns no_action, w'))
      × Announced 0 (pos 9) den [] fox_shares two_files all_complete w')
unfolding canchat.Base.◌+ℤ◌
handle_files_message-Announced_example =
    handle_files_message-Announced 0 (pos 9) sharing den [] fox_shares (some photo) (some song ∷ [])
      all_complete fox_in_den.members refl refl (omega arith)

-- The owl has not answered the last ping.
abbrev sleepy_den : World
sleepy_den = record den {
  peer_heap = Heap.alloc (record owl { ping_pong_counter = pos 1 }) (Heap.alloc fox Heap.empty);
}

ping_round-Pinged_example :
    (w' : World) × ((ping_round sleepy_den ≡ (returns tt, w')) × Pinged (0 ∷ 1 ∷ []) sleepy_den w')
ping_round-Pinged_example =
    ping_round-Pinged sleepy_den ((den_room, refl), tt)
      (((λ e. absurd (omega (arith, e))), tt), (tt, tt))
      (
        record { peer = fox; peer_at = refl; counter_left = omega arith },
        (
          record {
            peer = record owl { ping_pong_counter = pos 1 };
            peer_at = refl;
            counter_left = omega arith;
          },
          tt,
        ),
      )
