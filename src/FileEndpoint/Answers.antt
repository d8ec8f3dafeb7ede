-- ===== src/FileEndpoint/Answers.antt =====
-- The answers of `GetFile` (server/src/controller/FileController.hpp) to a request.
use canchat.Base.{
  subst, pos, +ℤ_parts, suc_int-eq-add, refl, ℤ, int_eq, string_eq, ◌<ℤ◌, suc_int, int64_max,
  String, ℕ, none, some, ◌≡◌, ◌∙◌, arith, true, false, Bool, ◌↔◌, ap, sym, str_append, Option-cases,
  inl, inr,
}
use canchat.Base.Map.{get, insert, get-insert}
use canchat.Base.Heap
use canchat.Base.Exec.{Outcome, returns}
use canchat.World.{World, Bytes, SharedFile, Room, store_file, store_subscriber}
use canchat.File.{new_subscriber, subscribe, provide_file_chunk, take_chunk}
use canchat.Room.{get_file_by_id}
use canchat.Lobby.{get_room}
use canchat.FileEndpoint.{
  Texts, Response, http_error, streaming, content_disposition, respond, find_file, get_file,
}

-- Why a request is refused, in the order of the checks.
pub data Refused (texts : Texts) (w : World) (room_id file_id : String) : ℕ → String → Type 0 where
  invalid_id :
      texts.str_to_int64 file_id ≡ none → Refused texts w room_id file_id 400 "Invalid fileId"
  no_room :
      (id : ℤ)
      → texts.str_to_int64 file_id ≡ some id
      → get room_id w.lobby.rooms ≡ none
      → Refused texts w room_id file_id 404 "Room not found"
  no_file :
      (id : ℤ) (r : ℕ) (room : Room)
      → texts.str_to_int64 file_id ≡ some id
      → get room_id w.lobby.rooms ≡ some r
      → w.room_heap.cell r ≡ some room
      → get id room.file_by_id ≡ none
      → Refused texts w room_id file_id 404 "File not found"

pub get_file-refusal :
    (texts : Texts) (w : World) (room_id file_id : String) (status : ℕ) (text : String)
    → Refused texts w room_id file_id status text
    → get_file texts room_id file_id w ≡ (returns (http_error status text), w)
unfolding get_file get_room find_file get_file_by_id
get_file-refusal texts w room_id file_id _ _ (invalid_id e) = ground (arith, e)
get_file-refusal texts w room_id file_id _ _ (no_room id e n) = ground (arith, e, n)
get_file-refusal texts w room_id file_id _ _ (no_file id r room e at room_at n) =
    ground (arith, e, at, room_at, n)

-- Whether an answer is an error.
abbrev refuses : Outcome Response → Bool
refuses (returns (http_error status text)) = true
refuses _ = false

-- The status and the text of an error.
abbrev error_of : Outcome Response → ℕ × String
error_of (returns (http_error status text)) = (status, text)
error_of _ = (0, "")

-- A file that is there is not refused.
respond-accepts : (texts : Texts) (f : ℕ) (w : World) → refuses (respond texts f w).0 ≡ false
unfolding respond subscribe
respond-accepts texts f w = ground arith

-- Where a request is answered by an error, its refusal is for one of the reasons.
abbrev Justified : Texts → String → String → World → Type 0
Justified texts room_id file_id w =
    refuses (get_file texts room_id file_id w).0 ≡ true
    → (status : ℕ) × (text : String) × Refused texts w room_id file_id status text

module _ (texts : Texts) (room_id file_id : String) (w : World) (id : ℤ)
    (id_is : texts.str_to_int64 file_id ≡ some id) where
  found-Justified :
      (r : ℕ) (room : Room)
      → get room_id w.lobby.rooms ≡ some r
      → w.room_heap.cell r ≡ some room
      → Justified texts room_id file_id w
  unfolding get_file get_room find_file get_file_by_id
  found-Justified r room listed room_at h = elim (Option-cases (get id room.file_by_id)) [
    | inl n ↦ (404, "File not found", no_file id r room id_is listed room_at n)
    | inr (f, shared) ↦
        absurd (ground (arith, id_is, listed, room_at, shared, respond-accepts texts f w, h))
  ]

  listed-Justified :
      (r : ℕ) → get room_id w.lobby.rooms ≡ some r → Justified texts room_id file_id w
  unfolding get_file get_room find_file get_file_by_id
  listed-Justified r listed h = elim (Option-cases (w.room_heap.cell r)) [
    | inl n ↦ absurd (ground (arith, id_is, listed, n, h))
    | inr (room, room_at) ↦ found-Justified r room listed room_at h
  ]

  id-Justified : Justified texts room_id file_id w
  id-Justified h = elim (Option-cases (get room_id w.lobby.rooms)) [
    | inl n ↦ (404, "Room not found", no_room id id_is n)
    | inr (r, listed) ↦ listed-Justified r listed h
  ]

all-Justified :
    (texts : Texts) (room_id file_id : String) (w : World) → Justified texts room_id file_id w
all-Justified texts room_id file_id w h = elim (Option-cases (texts.str_to_int64 file_id)) [
  | inl n ↦ (400, "Invalid fileId", invalid_id n)
  | inr (id, id_is) ↦ id-Justified texts room_id file_id w id id_is h
]

-- A request is refused with a status and a text if and only if the number of the file is no number,
-- or there is no such room, or the room has no such file, and then with the status and the text of
-- the first of these. A refusal changes nothing.
pub get_file-Refused :
    (texts : Texts) (w w' : World) (room_id file_id : String) (status : ℕ) (text : String)
    → (get_file texts room_id file_id w ≡ (returns (http_error status text), w'))
      ↔ ((w' ≡ w) × Refused texts w room_id file_id status text)
get_file-Refused texts w w' room_id file_id status text = (
  λ h.
      let (status', text', why) = all-Justified texts room_id file_id w (ap (λ x. refuses x.0) h) in
      let same = sym h ∙ get_file-refusal texts w room_id file_id status' text' why in
      (
        ap (λ x. x.1) same,
        subst (λ e. Refused texts w room_id file_id e.0 e.1) (sym (ap (λ x. error_of x.0) same))
            why,
      ),
  λ (same, why).
      get_file-refusal texts w room_id file_id status text why
      ∙ ap (λ v. (returns (http_error status text), v)) (sym same),
)

-- A request for a file of a room.
pub record Requested (texts : Texts) (w : World) (room_id file_id : String) : Type 0 where
  pub id : ℤ
  pub r : ℕ
  pub room : Room
  pub f : ℕ
  pub file : SharedFile
  pub id_is : texts.str_to_int64 file_id ≡ some id
  pub listed : get room_id w.lobby.rooms ≡ some r
  pub room_at : w.room_heap.cell r ≡ some room
  pub shared : get id room.file_by_id ≡ some f
  pub file_at : w.file_heap.cell f ≡ some file

-- The numbers in use are below the counter.
abbrev pub SubscribersBelow : SharedFile → Type 0
SubscribersBelow file =
    (id : ℤ) (s : ℕ) → get id file.subscribers ≡ some s → id <ℤ file.subscriber_id_counter

-- A new download, at the address `s`.
pub record Subscribed (f : ℕ) (file : SharedFile) (s : ℕ) (w w' : World) : Type 0 where
  pub made :
      w'.subscriber_heap.cell s
      ≡ some (record {
        subscriber_id = file.subscriber_id_counter;
        file = f;
        valid = true;
        progress = pos 0;
        chunk = none;
        waiting = false;
      })
  pub next_file : SharedFile
  pub file_at : w'.file_heap.cell f ≡ some next_file
  pub kept :
      (id : ℤ) (t : ℕ) → get id file.subscribers ≡ some t → get id next_file.subscribers ≡ some t
  pub numbered : SubscribersBelow next_file
  pub reached :
      (bytes : Bytes)
      → provide_file_chunk f file.subscriber_id_counter bytes w' ≡ (
        returns tt,
        store_subscriber s
            (record {
              subscriber_id = file.subscriber_id_counter;
              file = f;
              valid = true;
              progress = pos 0;
              chunk = some bytes;
              waiting = false;
            })
            w',
      )
  pub silent : w'.sent ≡ w.sent

module _ (texts : Texts) (w : World) (room_id file_id : String)
    (q : Requested texts w room_id file_id) where
  abbrev pub c : ℤ
  c = q.file.subscriber_id_counter

  abbrev pub s : ℕ
  s = w.subscriber_heap.next

  abbrev pub next_file : SharedFile
  next_file = record (q.file) {
    subscriber_id_counter = suc_int int64_max c;
    subscribers = insert c s q.file.subscribers;
  }

  abbrev pub served_world : World
  served_world =
      store_file q.f next_file
        (record w { subscriber_heap = Heap.alloc (new_subscriber c q.f) w.subscriber_heap })

  pub get_file_lem :
      get_file texts room_id file_id w
      ≡ (returns (streaming (content_disposition texts q.file.file_name) s), served_world)
  unfolding get_file get_room find_file get_file_by_id respond subscribe
  get_file_lem = ground (
    arith,
    q.id_is,
    q.listed,
    q.room_at,
    q.shared,
    q.file_at,
    Heap.cell-write q.f next_file w.file_heap,
  )

  counter_listed : get c next_file.subscribers ≡ some s
  counter_listed = get-insert c c s q.file.subscribers ∙ ground arith

  provide_lem :
      (bytes : Bytes)
      → provide_file_chunk q.f c bytes served_world ≡ (
        returns tt,
        store_subscriber s (record (new_subscriber c q.f) { chunk = some bytes }) served_world,
      )
  unfolding provide_file_chunk take_chunk new_subscriber
  provide_lem bytes = ground (
    arith,
    Heap.cell-write q.f next_file w.file_heap,
    counter_listed,
    Heap.cell-alloc (new_subscriber c q.f) w.subscriber_heap,
  )

  next-SubscribersBelow : SubscribersBelow q.file → c <ℤ pos int64_max → SubscribersBelow next_file
  next-SubscribersBelow below less id t e =
      rw (suc_int-eq-add int64_max c less)
        (ground (arith, get-insert c id s q.file.subscribers, below id t, +ℤ_parts c (pos 1), e))

  served-Subscribed :
      SubscribersBelow q.file → c <ℤ pos int64_max → Subscribed q.f q.file s w served_world
  unfolding new_subscriber
  served-Subscribed below less = record {
    made = Heap.cell-alloc (new_subscriber c q.f) w.subscriber_heap;
    next_file = next_file;
    file_at = Heap.cell-write q.f next_file w.file_heap;
    kept = λ id t e. get-insert c id s q.file.subscribers ∙ ground (arith, below id t e, e);
    numbered = λ id t e. next-SubscribersBelow below less id t e;
    reached = provide_lem;
    silent = refl;
  }

-- For a file of the room, and as long as the file's counter does not wrap: the response names the
-- file and streams from a new, valid download that has read nothing and has the file's next number.
-- A chunk that the file is then given under that number goes to this download, the other downloads
-- keep their numbers, and nothing is sent to the host before the first read.
pub get_file-Subscribed :
    (texts : Texts) (w : World) (room_id file_id : String) (q : Requested texts w room_id file_id)
    → SubscribersBelow q.file
    → q.file.subscriber_id_counter <ℤ pos int64_max
    → (s : ℕ) × (w' : World) × (get_file texts room_id file_id w ≡ (
      returns (
          streaming
            (str_append (texts.append_string "attachment; filename=\"" q.file.file_name) "\"")
            s),
      w',
    ))
      × Subscribed q.f q.file s w w'
unfolding content_disposition
get_file-Subscribed texts w room_id file_id q below less = (
  w.subscriber_heap.next,
  served_world texts w room_id file_id q,
  get_file_lem texts w room_id file_id q,
  served-Subscribed texts w room_id file_id q below less,
)
