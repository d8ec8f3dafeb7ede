-- ===== src/Lib.antt =====
-- canchat: a chat server with rooms, messages and files that a peer's browser serves through it.
--
-- The program, and the file that models each part (paths from the repository's root):
--
-- - server/src/dto/DTOs.hpp: Dto. A nullable field is an `Option`; `MessageDto` is a mutual pair with
--   its `history`. server/src/dto/Config.hpp: Config, with the addresses; Config/Redirect has the
--   interceptor of server/src/AppComponent.hpp.
-- - server/src/rooms/*.hpp: World. The objects that the program shares by `std::shared_ptr` stand in
--   heaps, one for each class, under an address; a World holds these heaps, the lobby, the statistics,
--   the configuration and the list of what was sent to the sockets. An `Action` is a method: it takes a
--   World, and returns, throws, or does what C++ leaves undefined, with the World that it leaves.
-- - server/src/rooms/Peer.cpp: Peer has the methods (`sendMessageAsync` is `send_message_async`, and so
--   on), Peer/Handlers the message handlers from `readMessage` down. Peer/Ping, Peer/Frames,
--   Peer/Rejects, Peer/Dropped, Peer/Chat, Peer/Uploads, Peer/Confined, Peer/Announcing with
--   Peer/Offers and Peer/Offered, and Peer/Limit with Peer/Buffers prove. Peer/Kept has what
--   Peer/Confined and Peer/Buffers share.
-- - server/src/rooms/File.cpp: File has the files and their subscribers, which are downloads.
--   File/Reads has the methods as equations; File/Stream and File/Ends prove. File/Waiting has the
--   coroutine that waits for a chunk, as a step relation.
-- - server/src/rooms/Room.cpp: Room; `Room::sendMessageAsync` is `send_to_all`. Room/Backlog,
--   Room/Broadcast, Room/Joining, Room/Sharing, Room/Pinging and Room/Leaving with its children prove.
-- - server/src/rooms/Lobby.cpp: Lobby; Lobby/Connecting proves of `onAfterCreate_NonBlocking`,
--   Lobby/Disconnecting of `onBeforeDestroy_NonBlocking`, Lobby/Overlap of both at once, and
--   Lobby/Rounds of a round of pings.
-- - The contract of lobby, rooms and peers together: Service has a view of the rooms without addresses
--   (who is where, and what was said), and calls that are the events of sockets and the rounds of
--   pings; Service/Refines says when a World stands for a view, and Service/Runs proves, from its
--   siblings for each call: Service/Joins, Says, Shares, Leaves, and Unseen and Requests with Quiet and
--   Pings. The calls leave out messages that are answered by an error, chunks of files, and the reads
--   of downloads.
-- - server/src/controller/FileController.hpp: FileEndpoint; FileEndpoint/Answers,
--   FileEndpoint/Serving, FileEndpoint/Exchange and FileEndpoint/Lifetime prove. FileEndpoint/Late
--   has a request whose host leaves while it is handled.
-- - The mutexes of server/src/rooms and server/src/utils/Statistics.cpp: Locks has threads and their
--   turns; Locks/Methods the locks of each method (`Room::shareFile` is `share_file_acts`, and so on),
--   Locks/Tasks the handlers that a thread runs. Locks/Workers proves, from Locks/Order, Locks/Ranks
--   and Locks/Progress, that threads get on, and Locks/Deadlock shows where they do not. Locks/Races
--   proves, from Locks/Guarded, Locks/Discipline and Locks/Exclusive, of accesses at once.
-- - server/src/controller/RoomsController.hpp: RoomEndpoint, with RoomEndpoint/Upgrading;
--   server/src/controller/StaticController.hpp and StatisticsController.hpp: Pages, with Pages/Cache.
-- - server/src/AppComponent.hpp and App.cpp: App has the components, the routes and the threads, and
--   Config/Startup the configuration and the connection provider; App/Start proves of the server from
--   its start.
-- - The sleeps of `runStatLoop` and `runPingLoop`: Timer, with Timer/Rounds.
-- - server/src/utils/Statistics.cpp: Statistics; Statistics/Points has the loops over the points,
--   Statistics/Sample and Statistics/Retention prove.
-- - server/src/utils/Nickname.cpp: Nickname and Nickname/Words.
-- - Base holds what they share: maps, heaps, effects, integers, lists. Tests and its children hold runs
--   on small inputs.
--
-- How the parts interact: the lobby makes rooms and peers; a WebSocket hands its frames to the
-- peer's `read_message`, which changes the peer's room and sends to the peers of the room; a download
-- asks the file's host for chunks by messages, which come back as messages to the host's peer.
--
-- Numbers. `v_int64` values are integers; the counters of peers, files, subscribers and pings wrap
-- as 64-bit and 32-bit atomics do, and the event counters modulo 2^64. Sums of times and of a
-- download's progress are unbounded. Only the sleeps of the background threads take fuel, one for each
-- sleep of a round: the first sleep in which the system clock is not set back ends the round, so
-- fuel is enough if there is such a sleep among as many. Every other loop runs over a list.
--
-- Assumptions. A method is one step, and what other threads do comes before or after, except in
-- Lobby/Overlap, in FileEndpoint/Late, in the steps of File/Waiting and in Locks, which follows the
-- mutexes of each method, and only these, one by one; oatpp's own locks are not there. Frames are
-- listed in the order in which the coroutines that write them are started. Objects are never freed.
-- A map's loops run in the order of its list of entries. Reading the number in a null DTO field, or
-- the object behind a null pointer, is undefined. The JSON reader, the Base64 decoder, the random
-- generator, the WebSocket handshake, the clock and the printing of fields are parameters.
--
-- Not modelled: what oatpp does with the executor, the router, the handlers and the object mapper that
-- server/src/AppComponent.hpp gives it, so also how a path is matched; JSON
-- texts, TLS, and the browser's code (front).
-- Methods that only return a field are reads of that field.
pub mod App
pub mod Base
pub mod Dto
pub mod Locks
pub mod Statistics
pub mod Config
pub mod World
pub mod Peer
pub mod File
pub mod Room
pub mod Lobby
pub mod FileEndpoint
mod Tests
pub mod Nickname
pub mod Timer
pub mod Pages
pub mod Service
pub mod RoomEndpoint
