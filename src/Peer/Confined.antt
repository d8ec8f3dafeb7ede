-- ===== src/Peer/Confined.antt =====
-- What a chunk message may change: `handleFileChunkMessage` of server/src/rooms/Peer.cpp, whoever
-- sends it and whatever it holds.
use canchat.Base.Heap.{Heap}
use canchat.Peer.Kept.{Keeps, handle_message-kept}
use canchat.Dto.{code_file_chunk_data, MessageDto, FileDto, FilesList, envelope}
use canchat.Room.{add_history_message, share_file, share_hosted, get_peer_by_id, get_file_by_id}
use canchat.Base.{
  [], ◌∷◌, ◌==◌, ◌∙◌, ℤ, int_eq, ℕ, Bool, true, false, String, Option, none, some, ◌≡◌, refl, sym,
  ap, ◌⊎◌, inl, inr, arith, not, if◌then◌else◌,
}
use canchat.Base.Map.{get}
use canchat.Base.Exec.{Outcome, returns, continue, deref, pure, throw, modify}
use canchat.World.{World, Action, Bytes, Peer, Room, SharedFile, Subscriber, store_subscriber}
use canchat.Peer.{send_message_async, add_file, Starter, no_action, on_api_error}
use canchat.Peer.Handlers.{
  handle_message, handle_chunk_list, handle_file_chunk, handle_file_chunk_message, provide_chunk,
  Library,
}
use canchat.File.{provide_file_chunk, take_chunk}

-- The text was taken, decoded, by the download of that number of the file of that number in the room
-- of its host, the sender, where no chunk waited: nothing else was written.
pub record Given (lib : Library) (p : ℕ) (id sub_id : ℤ) (text : String) (w w' : World)
    : Type 0 where
  pub sender : Peer
  pub room : Room
  pub f : ℕ
  pub file : SharedFile
  pub host : Peer
  pub s : ℕ
  pub sub : Subscriber
  pub bytes : Bytes
  pub sender_at : w.peer_heap.cell p ≡ some sender
  pub room_at : w.room_heap.cell sender.room ≡ some room
  pub listed : get id room.file_by_id ≡ some f
  pub file_at : w.file_heap.cell f ≡ some file
  pub host_at : w.peer_heap.cell file.host ≡ some host
  pub hosts : host.peer_id ≡ sender.peer_id
  pub decoded : lib.decode_base64 text ≡ some bytes
  pub subscribed : get sub_id file.subscribers ≡ some s
  pub sub_at : w.subscriber_heap.cell s ≡ some sub
  pub no_chunk : sub.chunk ≡ none
  pub written : w' ≡ store_subscriber s (record sub { chunk = some bytes; waiting = false }) w

-- Either nothing has changed, or this holds.
infixl 5 ◌>>=◌
abbrev ◌>>=◌ : {P A B : Type 0} → P ⊎ A → (A → P ⊎ B) → P ⊎ B
inl p >>= f = inl p
inr a >>= f = f a

module _ {A B : Type 0} (w w' : World) (o : Outcome B) where
  deref-cases :
      (x : Option A) (k : A → Action B)
      → continue (deref x w) k ≡ (o, w')
      → (w' ≡ w) ⊎ ((a : A) × (x ≡ some a) × (k a w ≡ (o, w')))
  deref-cases none k h = inl (sym (ap (λ r. r.1) h))
  deref-cases (some a) k h = inr (a, refl, h)

  reading-cases :
      {C : Type 0} (x : Option A) (g : A → C) (k : C → Action B)
      → continue (continue (deref x w) (λ a. pure (g a))) k ≡ (o, w')
      → (w' ≡ w) ⊎ ((a : A) × (x ≡ some a) × (k (g a) w ≡ (o, w')))
  reading-cases none g k h = inl (sym (ap (λ r. r.1) h))
  reading-cases (some a) g k h = inr (a, refl, h)

  option-cases :
      (x : Option A) (m : Action B) (k : A → Action B)
      → (elim x as (λ x. Action B) [ none ↦ m | some a ↦ k a ]) w ≡ (o, w')
      → (m w ≡ (o, w') → w' ≡ w)
      → (w' ≡ w) ⊎ ((a : A) × (x ≡ some a) × (k a w ≡ (o, w')))
  option-cases none m k h ends = inl (ends h)
  option-cases (some a) m k h ends = inr (a, refl, h)

error_answered :
    (p : ℕ) (text : String) (w w' : World) (o : Outcome Starter)
    → on_api_error p text w ≡ (o, w')
    → w' ≡ w
unfolding on_api_error
error_answered p text w w' o h = ground arith

decode-cases :
    (x : Option Bytes) (k : Bytes → Action Starter) (w w' : World) (o : Outcome Starter)
    → continue
        ((elim x as (λ x. Action Bytes) [
          | none ↦ throw "Base64 decoding error."
          | some bytes ↦ pure bytes
        ])
          w)
        k
      ≡ (o, w')
    → (w' ≡ w) ⊎ ((bytes : Bytes) × (x ≡ some bytes) × (k bytes w ≡ (o, w')))
decode-cases none k w w' o h = inl (sym (ap (λ r. r.1) h))
decode-cases (some bytes) k w w' o h = inr (bytes, refl, h)

-- The sender is the host, or is told so.
host-cases :
    (own : Bool) (p : ℕ) (k : Action Starter) (w w' : World) (o : Outcome Starter)
    → (if not own then on_api_error p "Wrong file host." else k) w ≡ (o, w')
    → (w' ≡ w) ⊎ ((own ≡ true) × (k w ≡ (o, w')))
host-cases true p k w w' o h = inr (refl, h)
host-cases false p k w w' o h = inl (error_answered p "Wrong file host." w w' o h)

-- The end of `handleFileChunkMessage`.
abbrev ended : Outcome (Unit {0}) × World → Outcome Starter × World
ended r = continue r (λ _. pure no_action)

provided-cases :
    (x : Option ℕ) (bytes : Bytes) (w w' : World) (o : Outcome Starter)
    → ended ((elim x as (λ x. Action Unit) [ none ↦ pure tt | some s ↦ take_chunk s bytes ]) w)
      ≡ (o, w')
    → (w' ≡ w) ⊎ ((s : ℕ) × (x ≡ some s) × (ended (take_chunk s bytes w) ≡ (o, w')))
provided-cases none bytes w w' o h = inl (sym (ap (λ r. r.1) h))
provided-cases (some s) bytes w w' o h = inr (s, refl, h)

taken-cases :
    (x : Option Subscriber) (k : Subscriber → Action Unit) (w w' : World) (o : Outcome Starter)
    → ended (continue (deref x w) k) ≡ (o, w')
    → (w' ≡ w) ⊎ ((sub : Subscriber) × (x ≡ some sub) × (ended (k sub w) ≡ (o, w')))
taken-cases none k w w' o h = inl (sym (ap (λ r. r.1) h))
taken-cases (some sub) k w w' o h = inr (sub, refl, h)

-- A chunk that waits is not overwritten.
free-cases :
    (x : Option Bytes) (s : ℕ) (bytes : Bytes) (sub : Subscriber) (w w' : World)
    (o : Outcome Starter)
    → ended (
        (elim x as (λ x. Action Unit) [
          | some old ↦ throw "File chunk collision."
          | none ↦ modify (store_subscriber s (record sub { chunk = some bytes; waiting = false }))
        ])
          w)
      ≡ (o, w')
    → (w' ≡ w)
      ⊎ ((x ≡ none)
          × (o ≡ returns no_action)
          × (w' ≡ store_subscriber s (record sub { chunk = some bytes; waiting = false }) w))
free-cases none s bytes sub w w' o h = inr (refl, sym (ap (λ r. r.0) h), sym (ap (λ r. r.1) h))
free-cases (some old) s bytes sub w w' o h = inl (sym (ap (λ r. r.1) h))

module _ (lib : Library) (p : ℕ) where
  provide_lem :
      (f : ℕ) (id : ℤ) (bytes : Bytes) (w : World) (file : SharedFile)
      → w.file_heap.cell f ≡ some file
      → provide_file_chunk f id bytes w
        ≡ (elim (get id file.subscribers) as (λ x. Action Unit) [
          | none ↦ pure tt
          | some s ↦ take_chunk s bytes
        ])
            w
  unfolding provide_file_chunk
  provide_lem f id bytes w file at = rw at refl

  provide_chunk-Given :
      (id sub_id : ℤ) (text : String) (w w' : World) (o : Outcome Starter)
      → provide_chunk lib p id sub_id text w ≡ (o, w')
      → (w' ≡ w) ⊎ ((o ≡ returns no_action) × Given lib p id sub_id text w w')
  unfolding provide_chunk get_file_by_id take_chunk
  provide_chunk-Given id sub_id text w w' o h = do
    (sender, sender_at, h1) ← deref-cases w w' o (w.peer_heap.cell p) _ h
    (room, room_at, h2) ←
        reading-cases w w' o (w.room_heap.cell sender.room) (λ room. get id room.file_by_id) _ h1
    (f, listed, h3) ←
        option-cases w w' o (get id room.file_by_id) _ _ h2 (λ e. sym (ap (λ r. r.1) e))
    (file, file_at, h4) ← deref-cases w w' o (w.file_heap.cell f) _ h3
    (host, host_at, h5) ← deref-cases w w' o (w.peer_heap.cell file.host) _ h4
    (own, h6) ← host-cases (host.peer_id == sender.peer_id) p _ w w' o h5
    (bytes, decoded, h7) ← decode-cases (lib.decode_base64 text) _ w w' o h6
    (s, subscribed, h8) ←
        provided-cases (get sub_id file.subscribers) bytes w w' o
          (sym (ap ended (provide_lem f sub_id bytes w file file_at)) ∙ h7)
    (sub, sub_at, h9) ← taken-cases (w.subscriber_heap.cell s) _ w w' o h8
    (no_chunk, returned, written) ← free-cases sub.chunk s bytes sub w w' o h9
    inr (
      returned,
      record {
        sender = sender;
        room = room;
        f = f;
        file = file;
        host = host;
        s = s;
        sub = sub;
        bytes = bytes;
        sender_at = sender_at;
        room_at = room_at;
        listed = listed;
        file_at = file_at;
        host_at = host_at;
        hosts = (int_eq.same_iff host.peer_id sender.peer_id).0 own;
        decoded = decoded;
        subscribed = subscribed;
        sub_at = sub_at;
        no_chunk = no_chunk;
        written = written;
      },
    )

  -- A message with one file, the numbers of a file and of a download of it, and a text.
  pub record Chunked (m : MessageDto) (w w' : World) : Type 0 where
    pub dto : FileDto
    pub id : ℤ
    pub sub_id : ℤ
    pub text : String
    pub files_is : (envelope m).files ≡ some (some dto ∷ [])
    pub id_is : dto.server_file_id ≡ some id
    pub subscriber_is : dto.subscriber_id ≡ some sub_id
    pub text_is : dto.file_data ≡ some text
    pub given : Given lib p id sub_id text w w'

  -- The files of the message are these.
  listed_files :
      (m : MessageDto) (w w' : World) (o : Outcome Starter) (files : FilesList)
      → (envelope m).files ≡ some files
      → handle_chunk_list lib p files w ≡ (o, w')
      → (w' ≡ w) ⊎ ((o ≡ returns no_action) × Chunked m w w')
  unfolding handle_chunk_list handle_file_chunk
  listed_files m w w' o [] files_is h = inl (sym (ap (λ r. r.1) h))
  listed_files m w w' o (none ∷ []) files_is h = inl (error_answered p _ w w' o h)
  listed_files m w w' o (some dto ∷ []) files_is h = do
    (id, id_is, h1) ← option-cases w w' o dto.server_file_id _ _ h (error_answered p _ w w' o)
    (sub_id, subscriber_is, h2) ←
        option-cases w w' o dto.subscriber_id _ _ h1 (error_answered p _ w w' o)
    (text, text_is, h3) ← option-cases w w' o dto.file_data _ _ h2 (error_answered p _ w w' o)
    (returned, given) ← provide_chunk-Given id sub_id text w w' o h3
    inr (
      returned,
      record {
        dto = dto;
        id = id;
        sub_id = sub_id;
        text = text;
        files_is = files_is;
        id_is = id_is;
        subscriber_is = subscriber_is;
        text_is = text_is;
        given = given;
      },
    )
  listed_files m w w' o (file ∷ next ∷ files) files_is h = inl (error_answered p _ w w' o h)

-- Without a chunk nothing has changed at all.
handle_file_chunk_message-Chunked :
    (lib : Library) (p : ℕ) (m : MessageDto) (w w' : World) (o : Outcome Starter)
    → handle_file_chunk_message lib p m w ≡ (o, w')
    → (w' ≡ w) ⊎ ((o ≡ returns no_action) × Chunked lib p m w w')
unfolding handle_file_chunk_message
handle_file_chunk_message-Chunked lib p m w w' o h = do
  (files, files_is, h1) ← option-cases w w' o (envelope m).files _ _ h (error_answered p _ w w' o)
  listed_files lib p m w w' o files files_is h1

abbrev downloads : World → Heap Subscriber
downloads w = w.subscriber_heap

downloads-Keeps : Keeps downloads
unfolding send_message_async add_history_message share_file share_hosted get_peer_by_id add_file
downloads-Keeps = record {
  sends = λ p m w. ground arith;
  remembers = λ r m w. ground arith;
  shares = λ r host_id c size name w. ground arith;
  counts = λ f w. refl;
}

-- Whatever a message holds, whoever sends it and however it is answered, `handleMessage` leaves all
-- downloads as they are, or its code is that of a chunk, it is answered by nothing and one download
-- has been given a chunk, which is all that has changed: the message names one file and one download
-- of it, the file is of the sender's room and the sender has the number of its host, the download had
-- no chunk, and what it has now is what the text decodes to. So nobody but the host of a file writes
-- into its downloads, and no chunk is overwritten.
pub handle_message-Chunked :
    (lib : Library) (p : ℕ) (now : ℤ) (m : MessageDto) (w w' : World) (o : Outcome Starter)
    → handle_message lib p now m w ≡ (o, w')
    → (w'.subscriber_heap ≡ w.subscriber_heap)
      ⊎ (((envelope m).message_code ≡ some code_file_chunk_data)
          × (o ≡ returns no_action)
          × Chunked lib p m w w')
handle_message-Chunked lib p now m w w' o h =
    elim (handle_message-kept downloads downloads-Keeps lib p now m w) [
      | inl (is, same) ↦ elim (handle_file_chunk_message-Chunked lib p m w w' o (sym same ∙ h)) [
        | inl unchanged ↦ inl (ap downloads unchanged)
        | inr (returned, chunked) ↦ inr (is, returned, chunked)
      ]
      | inr same ↦ inl (sym (ap (λ r. downloads r.1) h) ∙ same)
    ]
