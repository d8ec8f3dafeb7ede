-- ===== src/Service/Shared.antt =====
-- A room after a message that shares files (server/src/rooms/Peer.cpp, Room.cpp): the peers beside the
-- members.
use canchat.Base.{
  ◌≤◌, ℤ, int64_max, suc_int, map, length, int_eq, nat_eq, string_eq, String, ℕ, ◌==◌, some, true,
  false, List, [], ◌∷◌, ◌++◌, ◌≡◌, ◌≢◌, refl, sym, ap, ap₂, subst, ◌∙◌, arith, All, Bool-cases, inl,
  inr,
}
use canchat.Base.Heap
use canchat.Base.Map.{get, values}
use canchat.Base.Exec.{returns, for_each_collect}
use canchat.Dto.{empty_file, MessageDto, FilesList}
use canchat.World.{World, Peer, Room}
use canchat.Peer.{run_starter}
use canchat.Peer.Handlers.{
  Ticks, Library, finish_message, handle_message, dispatch, stamp, file_message, share_one,
}
use canchat.Peer.Offers.{Complete, listing, skip, Sharer}
use canchat.Peer.Offered.{SharedAll}
use canchat.Peer.Announcing
use canchat.Room.Backlog.{backlog}
use canchat.Service.{
  View, Channel, Offer, shares, offered_dto, share_message, shown, has_shared, put, handle_call,
}
use canchat.Service.Seats.{Seats, Seat, Seats-IsPeer, Seats-map}
use canchat.Service.Rooms.{IsLive, All-IsLive, KeepsPeers}
use canchat.Service.Refines.{Listed, Listed-IsLive, Refines, Untouched, Matches-kept, Matches-put}
use canchat.Service.Listeners.{Sitting, listener_lem}

abbrev pub offers_complete : (files : List Offer) → All Complete (map offered_dto files)
offers_complete [] = tt
offers_complete (f ∷ files) = (
  record {
    dto = record empty_file {
      client_file_id = some f.client_file_id;
      name = some f.file_name;
      size = some f.file_size;
    };
    client_file_id = f.client_file_id;
    name = f.file_name;
    size = f.file_size;
    given = refl;
    client_file_id_is = refl;
    name_is = refl;
    size_is = refl;
  },
  offers_complete files,
)

listing-eq-shown :
    (id : ℤ) (files : List Offer)
    → listing id (map offered_dto files) (offers_complete files) ≡ shown id files
listing-eq-shown id [] = refl
listing-eq-shown id (f ∷ files) = ap₂ ◌∷◌ refl (listing-eq-shown (suc_int int64_max id) files)

pub length-map : (files : List Offer) → length (map offered_dto files) ≡ length files
length-map [] = refl
length-map (f ∷ files) = omega (arith, length-map files)

module _ (name : String) (id : ℤ) (now : Ticks) (v : View) (w : World) (fine : Refines v w)
    (s : Sitting name id v w) (f : Offer) (fs : List Offer) where
  abbrev pub sharer : Sharer s.found.p w
  sharer = record {
    peer = s.found.seat.peer;
    room = s.room.room;
    peer_at = s.found.seat.peer_at;
    room_at = ap w.room_heap.cell s.found.seat.same_room ∙ s.room.room_at;
    registered = ap (λ i. get i s.room.room.peer_by_id) s.found.seat.same_id ∙ s.found.listed;
    below = s.room.files_below;
  }

  abbrev dtos : FilesList
  dtos = map offered_dto fs

  abbrev complete : All Complete (offered_dto f ∷ dtos)
  complete = offers_complete (f ∷ fs)

  abbrev posted : MessageDto
  posted = stamp s.found.seat.peer now.read_at (share_message (f ∷ fs))

  abbrev text : MessageDto
  text = has_shared id s.nickname now.shared_at (shown s.channel.next_file (f ∷ fs))

  shared-eq-text :
      file_message s.found.seat.peer now.shared_at
        (listing s.room.room.file_id_counter (offered_dto f ∷ dtos) complete)
      ≡ text
  unfolding file_message
  shared-eq-text =
      ap (λ l. file_message s.found.seat.peer now.shared_at l)
        (listing-eq-shown s.room.room.file_id_counter (f ∷ fs))
      ∙ ap₂ (λ i n. has_shared i n now.shared_at (shown s.room.room.file_id_counter (f ∷ fs)))
          s.found.seat.same_id s.found.seat.same_name
      ∙ ap (λ k. has_shared id s.nickname now.shared_at (shown k (f ∷ fs))) s.room.numbers

  abbrev pub with_files : Channel
  with_files = record (s.channel) {
    log = s.channel.log ++ text ∷ [];
    next_file = skip s.channel.next_file (length (f ∷ fs));
  }

  module _ (u : World) (r : SharedAll s.found.p w sharer (offered_dto f ∷ dtos) complete u) where
    abbrev pub after : World
    after =
        Announcing.after s.found.p now.shared_at posted w s.channel.log sharer (offered_dto f) dtos
          complete (Seats-IsPeer w s.room.r s.room.seats) s.room.remembered u r

    abbrev told : Room
    told =
        Announcing.told s.found.p now.shared_at posted w s.channel.log sharer (offered_dto f) dtos
          complete (Seats-IsPeer w s.room.r s.room.seats) s.room.remembered u r

    rooms_same : (q : ℕ) → q ≢ s.room.r → after.room_heap.cell q ≡ w.room_heap.cell q
    rooms_same q n =
        let other : q ≢ s.found.seat.peer.room = λ e. n (e ∙ s.found.seat.same_room) in
        Heap.cell-write_ne s.found.seat.peer.room q told u.room_heap other ∙ r.rooms_same q other

    not_sharer : (q : ℕ) → (q == s.found.p) ≡ false → q ≢ s.found.p
    not_sharer q e same = absurd (ground (arith, e, (nat_eq.same_iff q s.found.p).1 same))

    same_peer :
        (q : ℕ) (peer : Peer)
        → (q == s.found.p) ≡ true
        → w.peer_heap.cell q ≡ some peer
        → s.found.seat.peer ≡ peer
    same_peer q peer e at = ground (arith, e, nat_eq.same_iff q s.found.p, s.found.seat.peer_at, at)

    own_at : (q : ℕ) → (q == s.found.p) ≡ true → u.peer_heap.cell q ≡ some r.next.peer
    own_at q e = ground (arith, e, nat_eq.same_iff q s.found.p, r.next.peer_at)

    keeps_peers : KeepsPeers w after
    keeps_peers q (peer, at) = elim (Bool-cases (q == s.found.p)) [
      | inl e ↦ (r.next.peer, own_at q e)
      | inr e ↦ (peer, r.others_same q (not_sharer q e) ∙ at)
    ]

    Seat-after : (i : ℤ) (n : String) (q : ℕ) → Seat w s.room.r i n q → Seat after s.room.r i n q
    Seat-after i n q seat = elim (Bool-cases (q == s.found.p)) [
      | inl e ↦
          let same = same_peer q seat.peer e seat.peer_at in
          record {
            peer = r.next.peer;
            peer_at = own_at q e;
            same_id = r.same_id ∙ ap (λ k. k.peer_id) same ∙ seat.same_id;
            same_name = r.same_nickname ∙ ap (λ k. k.nickname) same ∙ seat.same_name;
            same_room = r.same_room ∙ ap (λ k. k.room) same ∙ seat.same_room;
            files_at = r.hosts fine.fresh_files s.found.seat.files_at;
          }
      | inr e ↦ record {
        peer = seat.peer;
        peer_at = r.others_same q (not_sharer q e) ∙ seat.peer_at;
        same_id = seat.same_id;
        same_name = seat.same_name;
        same_room = seat.same_room;
        files_at = r.files_kept fine.fresh_files seat.peer.files seat.files_at;
      }
    ]

    untouched : Untouched s.room.r w after
    untouched = record {
      rooms_same = rooms_same;
      peers_same = λ q peer at n.
          r.others_same q
            (λ e. n (ground (arith, at, e, s.found.seat.peer_at, s.found.seat.same_room)));
      files_kept = r.files_kept fine.fresh_files;
      config_same = r.same_config;
    }

    with_files-Listed : Listed name with_files v.next_id after
    with_files-Listed = record {
      r = s.room.r;
      room = told;
      listed = ap (λ l. get name l.rooms) r.same_lobby ∙ s.room.listed;
      room_at =
          ap after.room_heap.cell (sym s.found.seat.same_room)
          ∙ Heap.cell-write s.found.seat.peer.room told u.room_heap;
      named = r.same_room_name ∙ s.room.named;
      seats =
          subst (Seats after s.room.r s.channel.members) (sym r.same_peers)
            (Seats-map w after s.room.r Seat-after s.room.seats);
      remembered = ap (λ m. backlog u.config (s.channel.log ++ m ∷ [])) shared-eq-text;
      numbers = r.numbered ∙ ap₂ skip s.room.numbers (length-map (f ∷ fs));
      files_below = r.next.below;
      files_there = r.there fine.fresh_files s.room.files_there;
      busy = s.room.busy;
      below = s.room.below;
    }

    pub after-Refines : Refines (put name (some with_files) v) after
    unfolding with_files-Listed
    after-Refines = record {
      rooms = Matches-put v after name (some with_files) v.next_id with_files-Listed (λ n other.
          Matches-kept s.room.r w after n (v.channels n) v.next_id v.next_id untouched
            (ap (λ l. get n l.rooms) r.same_lobby) (omega arith)
            (λ q room at named k.
              other (ground (arith, at, k, s.room.room_at, named, s.room.named)))
            (fine.rooms n));
      live =
          subst (λ l. All (IsLive after) (values l.rooms)) (sym r.same_lobby)
            (All-IsLive s.room.r w after keeps_peers rooms_same
              (Listed-IsLive name with_files v.next_id after with_files-Listed)
              (values w.lobby.rooms) fine.live);
      counter = ap (λ l. l.peer_id_counter) r.same_lobby ∙ fine.counter;
      fresh_rooms = λ q past.
          let far : w.room_heap.next ≤ q = omega (arith, r.next_rooms) in
          rooms_same q (λ e. ground (arith, e, s.room.room_at, fine.fresh_rooms q far))
          ∙ fine.fresh_rooms q far;
      fresh_peers = λ q past.
          let far : w.peer_heap.next ≤ q = omega (arith, r.next_peers) in
          r.others_same q (λ e. ground (arith, e, s.found.seat.peer_at, fine.fresh_peers q far))
          ∙ fine.fresh_peers q far;
      fresh_files = r.still_fresh fine.fresh_files;
    }

    pub after_run :
        (lib : Library)
        → for_each_collect (share_one s.found.p) (offered_dto f ∷ dtos) w
          ≡ (returns (listing s.room.room.file_id_counter (offered_dto f ∷ dtos) complete), u)
        → handle_call lib (shares name id now (f ∷ fs)) w ≡ (returns tt, after)
    unfolding handle_call finish_message handle_message dispatch stamp run_starter
    after_run lib run =
        rw (listener_lem name id v w s, s.found.seat.peer_at)
          (rw
            (Announcing.shared_run s.found.p now.shared_at posted w s.channel.log sharer
              (offered_dto f) dtos complete (Seats-IsPeer w s.room.r s.room.seats) s.room.remembered
              u r run refl)
            refl)
