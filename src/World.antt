-- ===== src/World.antt =====
-- The objects of server/src/rooms/*.hpp and what they share: the fields of `Peer`, `Room`, `Lobby`,
-- `File` and `File::Subscriber`, the stores in which they stand, and the frames sent to the sockets.
-- A `std::shared_ptr` or a raw pointer is an address in the store of its class.
use canchat.Base.{ℤ, String, ℕ, Bool, Option, List, ◌++◌}
use canchat.Base.Map.{Map}
use canchat.Base.Heap
use canchat.Base.Heap.{Heap}
use canchat.Base.Exec.{Exec, deref}
use canchat.Dto.{MessageDto}
use canchat.Config.{ConfigDto}
use canchat.Statistics.{Statistics, Counters}

abbrev pub Bytes : Type 0
Bytes = List ℕ

-- File::Subscriber. `waiting`: a coroutine stands on `m_waitList`.
pub record Subscriber : Type 0 where
  pub subscriber_id : ℤ
  pub file : ℕ
  pub valid : Bool
  pub progress : ℤ
  pub chunk : Option Bytes
  pub waiting : Bool

-- File
pub record SharedFile : Type 0 where
  pub host : ℕ
  pub client_file_id : ℤ
  pub server_file_id : ℤ
  pub file_name : Option String
  pub file_size : ℤ
  pub subscriber_id_counter : ℤ
  pub subscribers : Map ℤ ℕ

-- Peer. A socket is a number; `none` after `invalidateSocket`.
pub record Peer : Type 0 where
  pub message_buffer : Bytes
  pub socket : Option ℕ
  pub room : ℕ
  pub nickname : String
  pub peer_id : ℤ
  pub ping_pong_counter : ℤ
  pub files : List ℕ

-- Room
pub record Room : Type 0 where
  pub room_name : String
  pub file_id_counter : ℤ
  pub file_by_id : Map ℤ ℕ
  pub peer_by_id : Map ℤ ℕ
  pub history : List MessageDto

-- Lobby
pub record Lobby : Type 0 where
  pub peer_id_counter : ℤ
  pub rooms : Map String ℕ

-- What the server does to a socket. The text of a message is what the object mapper writes for it.
pub data Event : Type 0 where
  text_frame : ℕ → MessageDto → Event
  ping_frame : ℕ → Event
  pong_frame : ℕ → String → Event
  close_frame : ℕ → Event
  invalidated : ℕ → Event

pub record World : Type 0 where
  pub config : ConfigDto
  pub statistics : Statistics
  pub room_heap : Heap Room
  pub peer_heap : Heap Peer
  pub file_heap : Heap SharedFile
  pub subscriber_heap : Heap Subscriber
  pub lobby : Lobby
  pub sent : List Event

abbrev pub Action : Type 0 → Type 0
Action A = Exec World A

-- The object behind a pointer.
abbrev pub load_peer : ℕ → Action Peer
load_peer p w = deref (w.peer_heap.cell p) w

abbrev pub load_room : ℕ → Action Room
load_room r w = deref (w.room_heap.cell r) w

abbrev pub load_file : ℕ → Action SharedFile
load_file f w = deref (w.file_heap.cell f) w

abbrev pub load_subscriber : ℕ → Action Subscriber
load_subscriber s w = deref (w.subscriber_heap.cell s) w

abbrev pub store_peer : ℕ → Peer → World → World
store_peer p v w = record w { peer_heap = Heap.write p v w.peer_heap }

abbrev pub store_room : ℕ → Room → World → World
store_room r v w = record w { room_heap = Heap.write r v w.room_heap }

abbrev pub store_file : ℕ → SharedFile → World → World
store_file f v w = record w { file_heap = Heap.write f v w.file_heap }

abbrev pub store_subscriber : ℕ → Subscriber → World → World
store_subscriber s v w = record w { subscriber_heap = Heap.write s v w.subscriber_heap }

-- Events in the order in which the coroutines that send them are started.
abbrev pub emit : List Event → World → World
emit es w = record w { sent = w.sent ++ es }

-- A change of the event counters.
abbrev pub count_event : (Counters → Counters) → World → World
count_event f w = record w {
  statistics = record (w.statistics) { counters = f w.statistics.counters };
}
