-- ===== src/FileEndpoint/Late.antt =====
-- A request for a file (server/src/controller/FileController.hpp) whose host leaves the room
-- meanwhile: `getFileById` and `subscribe` of `GetFile::act` are two steps.
use canchat.Base.{
  List, pos, ◌<ℤ◌, suc_int, int64_max, ℤ, int_eq, ℕ, true, none, some, ◌≡◌, refl, sym, ap, ◌∙◌,
  arith, get_elem?, append-nil,
}
use canchat.Base.Map.{get, insert}
use canchat.Base.Heap
use canchat.Base.Options.{All-get_elem?}
use canchat.Base.Exec.{returns, pure, ◌>>=◌, ◌>>◌}
use canchat.Dto.{MessageDto}
use canchat.World.{World, Action, Peer, Room, SharedFile, Subscriber, store_file}
use canchat.File.{retry_read, new_subscriber, subscribe, read_chunk}
use canchat.File.Reads.{At, read_chunk_lem}
use canchat.Room.Leaving.{find_file as find_listed}
use canchat.File.Waiting.{wait_act, wait_list_action}
use canchat.Room.{get_file_by_id}
use canchat.Lobby.{on_before_destroy}
use canchat.Lobby.Disconnecting.{Connected, on_before_destroy-Disconnected}
use canchat.FileEndpoint.{
  Texts, Response, http_error, streaming, content_disposition, respond, read, count_served,
}

-- The part of `act` that knows the room, with what another thread does after the look-up.
unfoldable pub late_file : Texts → ℕ → ℤ → Action Unit → Action Response
late_file texts r id meanwhile = do
  found ← get_file_by_id r id
  meanwhile
  elim found [ none ↦ pure (http_error 404 "File not found") | some f ↦ respond texts f ]

-- A download that waits for a chunk which nobody is asked for.
pub record Stalled (s r : ℕ) (id : ℤ) (w : World) : Type 0 where
  pub sub : Subscriber
  pub sub_at : w.subscriber_heap.cell s ≡ some sub
  pub still_valid : sub.valid ≡ true
  pub reads : (count : ℕ) → read s count w ≡ (returns retry_read, w)
  pub waits : wait_act s w ≡ (returns wait_list_action, w)
  pub unlisted : (get_file_by_id r id w).0 ≡ returns none

-- Once the file was found, what happens meanwhile only changes the world of the response.
late_file_lem :
    (texts : Texts) (r : ℕ) (id : ℤ) (meanwhile : Action Unit) (w v : World) (room : Room) (f : ℕ)
    → w.room_heap.cell r ≡ some room
    → get id room.file_by_id ≡ some f
    → meanwhile w ≡ (returns tt, v)
    → late_file texts r id meanwhile w ≡ respond texts f v
unfolding late_file get_file_by_id
late_file_lem texts r id meanwhile w v room f at listed e = rw (at, e, listed) refl

module _ (f p : ℕ) (v : World) (file : SharedFile) (host : Peer)
    (file_at : v.file_heap.cell f ≡ some file) (host_is : file.host ≡ p)
    (host_at : v.peer_heap.cell p ≡ some (record host { socket = none }))
    (long : pos 0 <ℤ file.file_size) where
  abbrev s : ℕ
  s = v.subscriber_heap.next

  abbrev c : ℤ
  c = file.subscriber_id_counter

  abbrev next_file : SharedFile
  next_file = record file {
    subscriber_id_counter = suc_int int64_max c;
    subscribers = insert c s file.subscribers;
  }

  abbrev after : World
  after =
      store_file f next_file
        (record v { subscriber_heap = Heap.alloc (new_subscriber c f) v.subscriber_heap })

  respond_lem :
      (texts : Texts)
      → respond texts f v
        ≡ (returns (streaming (content_disposition texts file.file_name) s), after)
  unfolding respond subscribe
  respond_lem texts = ground (arith, file_at, Heap.cell-write f next_file v.file_heap)

  made : after.subscriber_heap.cell s ≡ some (new_subscriber c f)
  made = Heap.cell-alloc (new_subscriber c f) v.subscriber_heap

  stored : after.file_heap.cell f ≡ some next_file
  stored = Heap.cell-write f next_file v.file_heap

  reader : At s after
  unfolding new_subscriber
  reader = record {
    sub = new_subscriber c f;
    file = next_file;
    host = record host { socket = none };
    sub_at = made;
    file_at = stored;
    host_at = ap v.peer_heap.cell host_is ∙ host_at;
  }

  -- The host has no socket that the request could go to.
  read_chunk_after : (count : ℕ) → read_chunk s count after ≡ (returns retry_read, after)
  unfolding new_subscriber reader
  read_chunk_after count =
      read_chunk_lem s count after reader
      ∙ ground (arith, long)
      ∙ ap (λ es. (returns retry_read, record after { sent = es })) (append-nil v.sent)

  read_after : (count : ℕ) → read s count after ≡ (returns retry_read, after)
  unfolding read count_served
  read_after count = rw (read_chunk_after count) refl

  wait_after : wait_act s after ≡ (returns wait_list_action, after)
  unfolding wait_act new_subscriber
  wait_after = rw made refl

-- While a request for a file is handled, its host leaves the room: after the file was looked up and
-- before it is subscribed to. The request is answered all the same, by a stream from a new, valid
-- download of a file of some size. But each read of it waits for a chunk, nothing asks the host for
-- one, and the room does not find the file any more, for which a chunk could come.
pub late_file-Stalled :
    (texts : Texts) (p f i : ℕ) (id : ℤ) (w : World) (ms : List MessageDto) (c : Connected p w ms)
    (file : SharedFile)
    → get id c.hosted.room.file_by_id ≡ some f
    → get_elem? c.hosted.peer.files i ≡ some f
    → w.file_heap.cell f ≡ some file
    → file.server_file_id ≡ id
    → file.host ≡ p
    → pos 0 <ℤ file.file_size
    → (s : ℕ) × (w' : World) × (late_file texts c.peer.room id (on_before_destroy p) w
        ≡ (returns (streaming (content_disposition texts file.file_name) s), w'))
      × Stalled s c.peer.room id w'
unfolding new_subscriber
late_file-Stalled texts p f i id w ms c file listed shared at numbered host_is long =
    let (v, left, d) = on_before_destroy-Disconnected p w ms c in
    let (subs, at_v) = d.same_files f file at in
    let file' = record file { subscribers = subs } in
    let gone = (All-get_elem? _ c.hosted.peer.files i f shared d.files_gone file at).1 in
    (
      v.subscriber_heap.next,
      after f p v file' c.peer at_v host_is d.socket_gone long,
      late_file_lem texts c.peer.room id (on_before_destroy p) w v c.hosted.room f c.hosted.room_at
            listed left
          ∙ respond_lem f p v file' c.peer at_v host_is d.socket_gone long texts,
      record {
        sub = new_subscriber file.subscriber_id_counter f;
        sub_at = made f p v file' c.peer at_v host_is d.socket_gone long;
        still_valid = refl;
        reads = read_after f p v file' c.peer at_v host_is d.socket_gone long;
        waits = wait_after f p v file' c.peer at_v host_is d.socket_gone long;
        unlisted =
            find_listed c.peer.room id (after f p v file' c.peer at_v host_is d.socket_gone long)
              d.next_room d.room_at
            ∙ sym (find_listed c.peer.room id v d.next_room d.room_at)
            ∙ rw (← numbered) gone;
      },
    )
