-- ===== src/Service.antt =====
-- What the chat rooms promise, without addresses and locks: who is in which room, and what was said
-- there since the room was opened. The code is the life of a connection (server/src/rooms/Lobby.cpp,
-- Room.cpp and Peer.cpp).
pub mod Seats
pub mod Rooms
pub mod Refines
pub mod Listeners
pub mod Joined
pub mod Joins
pub mod Says
pub mod Leaves
pub mod Shared
pub mod Shares
pub mod Quiet
pub mod Pings
pub mod Unseen
pub mod Requests
pub mod Runs
use canchat.Peer.Offers.{skip}
use canchat.Base.{
  map, not, length, ◌+ℤ◌, Bool, true, false, ℤ, pos, int_eq, string_eq, suc_int, int64_max, ltb_ℤ,
  String, str_append, ℕ, Option, none, some, List, [], ◌∷◌, ◌++◌, ◌==◌, if◌then◌else◌,
}
use canchat.Base.Map.{Map, get, insert, erase}
use canchat.Base.Exec.{pure, deref, ◌>>=◌, ◌>>◌}
use canchat.Dto.{
  code_peer_message_file, FileDto, FilesList, empty_file, code_file_share, code_peer_is_typing,
  MessageDto, MessageCode, Envelope, History, empty_envelope, message_dto, null_history,
  code_peer_message, code_peer_joined, code_peer_left,
}
use canchat.World.{Action}
use canchat.Peer.{on_pong, run_starter}
use canchat.Peer.Handlers.{Ticks, Library, finish_message, parsed}
use canchat.Room.{get_peer_by_id, no_entries}
use canchat.FileEndpoint.{Texts, get_file}
use canchat.Lobby.{ping_round, on_after_create, on_before_destroy, get_room}

-- The members of an open room by their numbers, with their nicknames, all its messages, and the
-- number of the next file.
pub record Channel : Type 0 where
  pub members : Map ℤ String
  pub log : List MessageDto
  pub next_file : ℤ

-- The open rooms, and the next number.
pub record View : Type 0 where
  pub channels : String → Option Channel
  pub next_id : ℤ

-- A file that a browser offers, under its own number.
pub record Offer : Type 0 where
  pub client_file_id : ℤ
  pub file_name : String
  pub file_size : ℤ

pub data Call : Type 0 where
  joins : ℕ → String → String → Call
  says : String → ℤ → Ticks → Envelope → History → Call
  shares : String → ℤ → Ticks → List Offer → Call
  leaves : String → ℤ → Call
  answers : String → ℤ → Call
  pings : Call
  requests : Texts → String → String → Call

-- The messages, in the words of the log.
abbrev pub has_joined : ℤ → String → MessageDto
has_joined id nickname =
    message_dto
      (record empty_envelope {
        message_code = some code_peer_joined;
        peer_id = some id;
        peer_name = some nickname;
        message_text = some (str_append nickname " - joined room");
      })
      null_history

abbrev pub has_said : ℤ → String → ℤ → Envelope → History → MessageDto
has_said id nickname now e h =
    message_dto (record e { peer_name = some nickname; peer_id = some id; timestamp = some now }) h

abbrev pub has_left : ℤ → String → MessageDto
has_left id nickname =
    message_dto
      (record empty_envelope {
        message_code = some code_peer_left;
        peer_id = some id;
        message_text = some (str_append nickname " - left room");
      })
      null_history

-- The browser's message, and how the room shows the files.
abbrev pub offered_dto : Offer → Option FileDto
offered_dto f = some (record empty_file {
  client_file_id = some f.client_file_id;
  name = some f.file_name;
  size = some f.file_size;
})

abbrev pub share_message : List Offer → MessageDto
share_message files =
    message_dto
      (record empty_envelope {
        message_code = some code_file_share;
        files = some (map offered_dto files);
      })
      null_history

abbrev pub shown : ℤ → List Offer → FilesList
shown id [] = []
shown id (f ∷ files) =
    some (record empty_file {
      server_file_id = some id;
      name = some f.file_name;
      size = some f.file_size;
    })
    ∷ shown (suc_int int64_max id) files

abbrev pub has_shared : ℤ → String → ℤ → FilesList → MessageDto
has_shared id nickname now files =
    message_dto
      (record empty_envelope {
        message_code = some code_peer_message_file;
        peer_id = some id;
        peer_name = some nickname;
        timestamp = some now;
        files = some files;
      })
      null_history

-- There are files, and so many numbers are left.
abbrev pub can_share : ℤ → List Offer → Bool
can_share id [] = false
can_share id (f ∷ files) = not (ltb_ℤ (pos int64_max) (id +ℤ pos (length (f ∷ files))))

abbrev pub put : String → Option Channel → View → View
put name o v = record v { channels = λ n. if n == name then o else v.channels n }

abbrev pub opened : Option Channel → Channel
opened none = record { members = []; log = []; next_file = pos 1 }
opened (some c) = c

abbrev pub with_member : ℤ → String → Channel → Channel
with_member id nickname c = record c {
  members = insert id nickname c.members;
  log = c.log ++ has_joined id nickname ∷ [];
}

-- A room that its last member leaves is closed, and its log forgotten.
abbrev pub without_member : ℤ → String → Channel → Option Channel
without_member id nickname c =
    if no_entries (erase id c.members)
    then none
    else some (record c { members = erase id c.members; log = c.log ++ has_left id nickname ∷ [] })

abbrev pub is_chat : Option MessageCode → Bool
is_chat (some code_peer_message) = true
is_chat _ = false

abbrev pub is_typing : Option MessageCode → Bool
is_typing (some code_peer_is_typing) = true
is_typing _ = false

-- The member of a room, if it has one of this number.
abbrev pub seated {ℓ} : {A : Type ℓ} → View → String → ℤ → (Channel → String → Option A) → Option A
seated v name id k = elim (v.channels name) [
  | none ↦ none
  | some c ↦ elim (get id c.members) [ none ↦ none | some nickname ↦ k c nickname ]
]

-- `none`: the call cannot come, its message is one that the view leaves out (an error, a chunk of a
-- file, a list of no files), or there are no more numbers.
unfoldable pub step : Call → View → Option View
step (joins socket name nickname) v =
    if ltb_ℤ v.next_id (pos int64_max)
    then some
        (record (put name (some (with_member v.next_id nickname (opened (v.channels name)))) v) {
          next_id = suc_int int64_max v.next_id;
        })
    else none
step (says name id now e h) v = seated v name id λ c nickname.
    if is_chat e.message_code
    then some
        (put name (some (record c { log = c.log ++ has_said id nickname now.read_at e h ∷ [] })) v)
    else if is_typing e.message_code
    then some v
    else none
step (shares name id now files) v = seated v name id λ c nickname.
    if can_share c.next_file files
    then some (
        put name
          (some (record c {
            log = c.log ++ has_shared id nickname now.shared_at (shown c.next_file files) ∷ [];
            next_file = skip c.next_file (length files);
          }))
          v)
    else none
step (leaves name id) v =
    seated v name id λ c nickname. some (put name (without_member id nickname c) v)
step (answers name id) v = seated v name id λ c nickname. some v
step pings v = some v
step (requests texts name file_id) v = some v

-- The peer whose socket a frame comes from, or is closed.
unfoldable pub listener : String → ℤ → Action ℕ
listener name id = do found ← get_room name; r ← deref found; peer ← get_peer_by_id r id; deref peer

-- What the server does: the handlers of the sockets' events.
unfoldable pub handle_call : Library → Call → Action Unit
handle_call lib (joins socket name nickname) = do
  p ← on_after_create socket (some name) (some nickname)
  pure tt
handle_call lib (says name id now e h) = do
  p ← listener name id
  starter ← finish_message lib p now (parsed (some (message_dto e h)))
  run_starter starter
handle_call lib (shares name id now files) = do
  p ← listener name id
  starter ← finish_message lib p now (parsed (some (share_message files)))
  run_starter starter
handle_call lib (leaves name id) = do p ← listener name id; on_before_destroy p
handle_call lib (answers name id) = do
  p ← listener name id
  starter ← on_pong p
  run_starter starter
handle_call lib pings = ping_round
handle_call lib (requests texts name file_id) = do response ← get_file texts name file_id; pure tt

unfoldable pub run_view : List Call → View → Option View
run_view [] v = some v
run_view (call ∷ calls) v = elim (step call v) [ none ↦ none | some v' ↦ run_view calls v' ]

abbrev pub handle_calls : Library → List Call → Action Unit
handle_calls lib [] = pure tt
handle_calls lib (call ∷ calls) = handle_call lib call >> handle_calls lib calls
