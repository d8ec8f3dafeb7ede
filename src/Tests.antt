-- ===== src/Tests.antt =====
-- A small server for the tests and for the theorems at concrete inputs: one room, two peers in it,
-- a file of the first and a download of it.
mod Scenario
mod Peers
mod Files
mod Waiting
mod Leaving
mod Overlap
mod Requests
mod Startup
mod Endpoints
mod Locks
mod Late
mod Others
mod Service
mod Offers
mod Exchange
mod Limit
use canchat.Peer.Handlers.{Ticks}
use canchat.Base.{ℤ, ℤ, pos, ℕ, Option, none, some, List, [], ◌∷◌, ◌≡◌, true, false, refl}
use canchat.Base.Heap
use canchat.Config.{default_config}
use canchat.Dto.{MessageDto, Envelope, empty_envelope, message_dto, null_history, code_peer_message}
use canchat.Statistics.{default_statistics}
use canchat.World.{World, Peer, Room, SharedFile, Subscriber}
use canchat.Lobby.{new_lobby}
use canchat.Peer.Chat.{InRoom}

abbrev pub start : World
start = record {
  config = default_config;
  statistics = default_statistics;
  room_heap = Heap.empty;
  peer_heap = Heap.empty;
  file_heap = Heap.empty;
  subscriber_heap = Heap.empty;
  lobby = new_lobby;
  sent = [];
}

abbrev pub fox : Peer
fox = record {
  message_buffer = [];
  socket = some 70;
  room = 0;
  nickname = "Fox";
  peer_id = pos 1;
  ping_pong_counter = pos 0;
  files = 0 ∷ [];
}

abbrev pub owl : Peer
owl = record fox { socket = some 71; nickname = "Owl"; peer_id = pos 2; files = [] }

abbrev pub den_room : Room
den_room = record {
  room_name = "den";
  file_id_counter = pos 2;
  file_by_id = (pos 1, 0) ∷ [];
  peer_by_id = (pos 1, 0) ∷ (pos 2, 1) ∷ [];
  history = [];
}

abbrev pub notes : SharedFile
notes = record {
  host = 0;
  client_file_id = pos 5;
  server_file_id = pos 1;
  file_name = some "notes.txt";
  file_size = pos 3;
  subscriber_id_counter = pos 2;
  subscribers = (pos 1, 0) ∷ [];
}

abbrev pub download : Subscriber
download = record {
  subscriber_id = pos 1;
  file = 0;
  valid = true;
  progress = pos 0;
  chunk = none;
  waiting = true;
}

abbrev pub den : World
den = record start {
  room_heap = Heap.alloc den_room Heap.empty;
  peer_heap = Heap.alloc owl (Heap.alloc fox Heap.empty);
  file_heap = Heap.alloc notes Heap.empty;
  subscriber_heap = Heap.alloc download Heap.empty;
  lobby = record { peer_id_counter = pos 3; rooms = ("den", 0) ∷ [] };
}

abbrev pub fox_in_den : InRoom 0 den []
fox_in_den = record {
  peer = fox;
  room = den_room;
  peer_at = refl;
  room_at = refl;
  members = ((fox, refl), ((owl, refl), tt));
  remembered = refl;
}

-- What the client writes over the server's fields is not believed.
abbrev pub hello : Envelope
hello = record empty_envelope {
  message_code = some code_peer_message;
  message_text = some "hello";
  peer_name = some "Owl";
}

abbrev pub hello_message : MessageDto
hello_message = message_dto hello null_history

-- What the clock shows for a message.
abbrev pub ticks : ℤ → ℤ → Ticks
ticks first second = record { read_at = first; shared_at = second }
