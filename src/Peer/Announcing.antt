-- ===== src/Peer/Announcing.antt =====
-- `handleFilesMessage` (server/src/rooms/Peer.cpp) on a list whose fields are there: the files are
-- shared, and the room hears of them.
use canchat.Base.{
  subst, ℤ, int_eq, ℕ, nat_eq, length, Bool-cases, inl, inr, ◌==◌, Option, none, some, List, [],
  ◌∷◌, ◌++◌, ◌≡◌, refl, sym, ap, ap₂, ◌∙◌, arith, All,
}
use canchat.Base.Heap
use canchat.Base.Map.{get, values}
use canchat.Base.Exec.{for_each_collect, returns}
use canchat.Dto.{
  MessageDto, FileDto, FilesList, envelope, message_dto, empty_envelope, null_history,
  code_peer_message_file,
}
use canchat.World.{World, Room, emit, store_room}
use canchat.Peer.{no_action}
use canchat.Peer.Handlers.{
  handle_files_message, validate_files_list, files_list_error, share_one, file_message,
}
use canchat.Peer.Offers.{Complete, listing, Sharer, Offered}
use canchat.Peer.Offered.{SharedAll, NumbersLeft, share_all}
use canchat.Room.Backlog.{backlog, add_history_message_lem}
use canchat.Room.Broadcast.{IsPeer, frames_at, broadcast, send_to_all_lem}

no_complaint : (files : FilesList) → All Complete files → files_list_error files ≡ none
unfolding files_list_error
no_complaint [] all = refl
no_complaint (o ∷ files) (k, all) =
    rw (k.given, k.client_file_id_is, files_list_error)
      (rw (k.name_is, k.size_is, files_list_error) (no_complaint files all))

accepted :
    (p : ℕ) (o : Option FileDto) (files : FilesList) (w : World)
    → All Complete (o ∷ files)
    → validate_files_list p (o ∷ files) w ≡ (returns no_action, w)
unfolding validate_files_list
accepted p o files w all = rw (validate_files_list, no_complaint (o ∷ files) all)

module _ (p : ℕ) (w : World) (s : Sharer p w) (files : FilesList) (all : All Complete files)
    (w' : World) (r : SharedAll p w s files all w') where
  same_frames :
      (m : MessageDto) (q : ℕ)
      → frames_at m (w'.peer_heap.cell q) ≡ frames_at m (w.peer_heap.cell q)
  same_frames m q = elim (Bool-cases (q == p)) [
    | inl e ↦ ground (arith, e, nat_eq.same_iff q p, s.peer_at, r.next.peer_at, r.same_socket)
    | inr e ↦
        ap (frames_at m)
          (r.others_same q (λ same. absurd (ground (arith, e, (nat_eq.same_iff q p).1 same))))
  ]

  same_broadcast :
      (m : MessageDto) (ps : List ℕ) → broadcast m w'.peer_heap ps ≡ broadcast m w.peer_heap ps
  same_broadcast m [] = refl
  same_broadcast m (q ∷ ps) = ap₂ ◌++◌ (same_frames m q) (same_broadcast m ps)

  still_peers : (ps : List ℕ) → All (IsPeer w.peer_heap) ps → All (IsPeer w'.peer_heap) ps
  still_peers [] h = tt
  still_peers (q ∷ ps) (k, h) = (
    elim (Bool-cases (q == p)) [
      | inl e ↦ (r.next.peer, ground (arith, e, nat_eq.same_iff q p, r.next.peer_at))
      | inr e ↦ (
        k.0,
        r.others_same q (λ same. absurd (ground (arith, e, (nat_eq.same_iff q p).1 same))) ∙ k.1,
      )
    ],
    still_peers ps h,
  )

-- What the room and its peers get.
pub record Announced (p : ℕ) (now : ℤ) (w : World) (ms : List MessageDto) (s : Sharer p w)
    (files : FilesList) (all : All Complete files) (w' : World) : Type 0 where
  pub next_room : Room
  pub room_at : w'.room_heap.cell s.peer.room ≡ some next_room
  pub offered : Offered p w'.file_heap next_room.file_by_id s.room.file_id_counter files all
  pub kept :
      (id : ℤ) (f : ℕ) → get id s.room.file_by_id ≡ some f → get id next_room.file_by_id ≡ some f
  pub message_is :
      file_message s.peer now (listing s.room.file_id_counter files all)
      ≡ message_dto
          (record empty_envelope {
            message_code = some code_peer_message_file;
            peer_id = some s.peer.peer_id;
            peer_name = some s.peer.nickname;
            timestamp = some now;
            files = some (listing s.room.file_id_counter files all);
          })
          null_history
  pub history :
      next_room.history
      ≡ backlog w.config
          (ms ++ file_message s.peer now (listing s.room.file_id_counter files all) ∷ [])
  pub sent :
      w'.sent
      ≡ w.sent
        ++ broadcast
            (file_message s.peer now (listing s.room.file_id_counter files all))
            w.peer_heap
            (values s.room.peer_by_id)

module _ (p : ℕ) (now : ℤ) (m : MessageDto) (w : World) (ms : List MessageDto) (s : Sharer p w)
    (o : Option FileDto) (files : FilesList) (all : All Complete (o ∷ files))
    (members : All (IsPeer w.peer_heap) (values s.room.peer_by_id))
    (remembered : s.room.history ≡ backlog w.config ms) where
  abbrev pub shared : MessageDto
  shared = file_message s.peer now (listing s.room.file_id_counter (o ∷ files) all)

  module _ (u : World) (r : SharedAll p w s (o ∷ files) all u) where
    abbrev pub told : Room
    told = record (r.next.room) { history = backlog u.config (ms ++ shared ∷ []) }

    abbrev pub after : World
    after =
        emit (broadcast shared u.peer_heap (values r.next.room.peer_by_id))
          (store_room s.peer.room told u)

    pub shared_run :
        for_each_collect (share_one p) (o ∷ files) w
          ≡ (returns (listing s.room.file_id_counter (o ∷ files) all), u)
        → (envelope m).files ≡ some (o ∷ files)
        → handle_files_message p now m w ≡ (returns no_action, after)
    unfolding handle_files_message
    shared_run run e =
        rw (e, accepted p o files w all, s.peer_at)
          (rw run (
            rw
              (add_history_message_lem s.peer.room shared u r.next.room ms
                (ap u.room_heap.cell (sym r.same_room) ∙ r.next.room_at)
                (r.same_history ∙ remembered ∙ ap (λ c. backlog c ms) (sym r.same_config)))
              (rw
                (send_to_all_lem s.peer.room shared (store_room s.peer.room told u) told
                  (Heap.cell-write s.peer.room told u.room_heap)
                  (still_peers p w s (o ∷ files) all u r (values r.next.room.peer_by_id)
                    (subst (λ k. All (IsPeer w.peer_heap) (values k)) (sym r.same_peers) members)))
                refl)))

    after-Announced : Announced p now w ms s (o ∷ files) all after
    unfolding file_message
    after-Announced = record {
      next_room = told;
      room_at = Heap.cell-write s.peer.room told u.room_heap;
      offered = r.offered;
      kept = r.kept;
      message_is = refl;
      history = ap (λ c. backlog c (ms ++ shared ∷ [])) r.same_config;
      sent = ap₂ ◌++◌ r.silent (
          ap (λ k. broadcast shared u.peer_heap (values k)) r.same_peers
          ∙ same_broadcast p w s (o ∷ files) all u r shared (values s.room.peer_by_id));
    }

  -- A list of files with all their fields: the handler shares them in the order of the list, under
  -- consecutive numbers from the room's counter on, as long as so many are left. The room finds each
  -- file by its number, with the fields that were given, and still finds the files that it had; it
  -- remembers one message that lists the files, and each of its peers with a socket gets this message.
  -- No error is answered.
  pub handle_files_message-Announced :
      (envelope m).files ≡ some (o ∷ files)
      → NumbersLeft s.room.file_id_counter (length (o ∷ files))
      → (w' : World) × ((handle_files_message p now m w ≡ (returns no_action, w'))
          × Announced p now w ms s (o ∷ files) all w')
  unfolding handle_files_message
  handle_files_message-Announced e left =
      let (u, (run, r)) = share_all p w s (o ∷ files) all left in
      (after u r, (shared_run u r run e, after-Announced u r))
