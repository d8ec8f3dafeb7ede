-- ===== src/Service/Leaves.antt =====
-- `onBeforeDestroy_NonBlocking` (server/src/rooms/Lobby.cpp) does what the view says of a leave.
use canchat.Service.Rooms.{All-IsLive, IsLive, KeepsPeers}
use canchat.Base.{
  All, ◌==◌, nat_eq, ℤ, int_eq, string_eq, String, ℕ, ◌≤◌, Option, none, some, false, [], ◌∷◌, ◌++◌,
  ◌≡◌, ◌≢◌, refl, sym, ap, ap₂, subst, ◌∙◌, arith, Bool-cases, inl, inr,
}
use canchat.Base.Map.{values, All-erase, get, erase, get-erase}
use canchat.Base.Exec.{returns}
use canchat.World.{World, Peer}
use canchat.Peer.Handlers.{Library}
use canchat.Room.{left_message, no_entries}
use canchat.Room.Backlog.{backlog}
use canchat.Room.Leaving.{Hosted}
use canchat.Lobby.{get_room}
use canchat.Lobby.Disconnecting.{Connected, Disconnected, others, on_before_destroy-Disconnected}
use canchat.Service.{View, leaves, put, has_left, without_member, step, handle_call}
use canchat.Service.Seats.{Seats, Seats-IsPeer, Seats-erase, no_entries-Seats}
use canchat.Service.Refines.{
  Handled, Listed, Matches, Refines, Untouched, Matches-kept, Matches-put,
}
use canchat.Service.Listeners.{Sitting, seated-Sitting, listener_lem}

left-eq-has_left :
    (peer : Peer) (id : ℤ) (nickname : String)
    → peer.peer_id ≡ id
    → peer.nickname ≡ nickname
    → left_message peer ≡ has_left id nickname
unfolding left_message
left-eq-has_left peer id nickname e n = ap₂ has_left e n

found_is :
    (name : String) (w : World) (o : Option ℕ)
    → (get_room name w).0 ≡ returns o
    → get name w.lobby.rooms ≡ o
unfolding get_room
found_is name w o e = cc

module _ (name : String) (id : ℤ) (v : View) (w : World) (fine : Refines v w)
    (s : Sitting name id v w) where
  abbrev hosted : Hosted s.found.seat.peer.room s.found.seat.peer.peer_id w
  hosted = record {
    room = s.room.room;
    host = s.found.p;
    peer = s.found.seat.peer;
    room_at = ap w.room_heap.cell s.found.seat.same_room ∙ s.room.room_at;
    registered = ap (λ i. get i s.room.room.peer_by_id) s.found.seat.same_id ∙ s.found.listed;
    host_at = s.found.seat.peer_at;
    files_at = s.found.seat.files_at;
  }

  abbrev connected : Connected s.found.p w s.channel.log
  connected = record {
    peer = s.found.seat.peer;
    hosted = hosted;
    listens = refl;
    same_peer = refl;
    members = Seats-IsPeer w s.room.r s.room.seats;
    remembered = s.room.remembered;
  }

  module _ (w' : World) (d : Disconnected s.found.p w s.channel.log connected w') where
    same_others : others connected ≡ erase id s.room.room.peer_by_id
    same_others = ap (λ i. erase i s.room.room.peer_by_id) s.found.seat.same_id

    other_peer :
        (p : ℕ) (peer : Peer)
        → w.peer_heap.cell p ≡ some peer
        → peer.peer_id ≢ id
        → w'.peer_heap.cell p ≡ w.peer_heap.cell p
    other_peer p peer at n =
        d.peers_same p (λ e. n (ground (arith, at, e, s.found.seat.peer_at, s.found.seat.same_id)))

    untouched : Untouched s.room.r w w'
    untouched = record {
      rooms_same = λ q n. d.rooms_same q (λ e. n (e ∙ s.found.seat.same_room));
      peers_same = λ p peer at n.
          d.peers_same p
            (λ e. n (ground (arith, at, e, s.found.seat.peer_at, s.found.seat.same_room)));
      files_kept = d.files_kept;
      config_same = d.config_same;
    }

    same_empty : no_entries (others connected) ≡ no_entries (erase id s.channel.members)
    same_empty =
        ap no_entries same_others
        ∙ no_entries-Seats w s.room.r
            (Seats-erase w w s.room.r id (λ p peer at n. refl) (λ fs all. all) s.room.seats)

    left-Seats : Seats w' s.room.r (erase id s.channel.members) d.next_room.peer_by_id
    left-Seats =
        subst (Seats w' s.room.r (erase id s.channel.members)) (sym (d.others_listed ∙ same_others))
          (Seats-erase w w' s.room.r id other_peer d.files_kept s.room.seats)

    left-Listed :
        no_entries (erase id s.channel.members) ≡ false
        → Listed name
            (record (s.channel) {
              members = erase id s.channel.members;
              log = s.channel.log ++ has_left id s.nickname ∷ [];
            })
            v.next_id
            w'
    left-Listed busy = record {
      r = s.room.r;
      room = d.next_room;
      listed = ap (λ l. get name l.rooms) (d.room_kept (same_empty ∙ busy)) ∙ s.room.listed;
      room_at = ap w'.room_heap.cell (sym s.found.seat.same_room) ∙ d.room_at;
      named = d.room_name ∙ s.room.named;
      seats = left-Seats;
      remembered =
          d.history
          ∙ ap₂ (λ k m. backlog k (s.channel.log ++ m ∷ [])) (sym d.config_same)
              (left-eq-has_left s.found.seat.peer id s.nickname s.found.seat.same_id
                s.found.seat.same_name);
      numbers = d.room_numbers ∙ s.room.numbers;
      files_below = λ k f e. rw (d.room_numbers) (s.room.files_below k f (d.found_before k f e));
      files_there =
          λ k f e. (d.files_kept (f ∷ []) (s.room.files_there k f (d.found_before k f e), tt)).0;
      busy = busy;
      below = λ k nickname e.
          ground (arith, get-erase id k s.channel.members, s.room.below k nickname, e);
    }

    -- The room of the call, closed or not.
    left_here : Matches name (without_member id s.nickname s.channel) v.next_id w'
    left_here = elim (Bool-cases (no_entries (erase id s.channel.members))) [
      | inl empty ↦ rw empty (
          found_is name w' none
            (ap (λ n. (get_room n w').0) (sym s.room.named) ∙ d.room_deleted (same_empty ∙ empty)))
      | inr busy ↦ rw busy (left-Listed busy)
    ]

    same_room : (n : String) → n ≢ name → get n w'.lobby.rooms ≡ get n w.lobby.rooms
    unfolding get_room
    same_room n other =
        found_is n w' (get n w.lobby.rooms) (d.rooms_kept n (λ e. other (e ∙ s.room.named)))

    keeps_peers : KeepsPeers w w'
    keeps_peers p (peer, at) = elim (Bool-cases (p == s.found.p)) [
      | inl e ↦ (
        record (s.found.seat.peer) { socket = none },
        ground (arith, e, nat_eq.same_iff p s.found.p, d.socket_gone),
      )
      | inr e ↦ (
        peer,
        d.peers_same p (λ same. absurd (ground (arith, e, (nat_eq.same_iff p s.found.p).1 same)))
            ∙ at,
      )
    ]

    left-IsLive : IsLive w' s.room.r
    left-IsLive = record {
      room = d.next_room;
      room_at = ap w'.room_heap.cell (sym s.found.seat.same_room) ∙ d.room_at;
      members = Seats-IsPeer w' s.room.r left-Seats;
    }

    others-IsLive : All (IsLive w') (values w.lobby.rooms) → All (IsLive w') (values w'.lobby.rooms)
    others-IsLive all = elim (Bool-cases (no_entries (others connected))) [
      | inl e ↦
          subst (λ m. All (IsLive w') (values m)) (sym (d.rooms_left ∙ rw e))
            (All-erase (IsLive w') s.room.room.room_name w.lobby.rooms all)
      | inr e ↦ subst (λ m. All (IsLive w') (values m)) (sym (d.rooms_left ∙ rw e)) all
    ]

    left-Refines : Refines (put name (without_member id s.nickname s.channel) v) w'
    left-Refines = record {
      rooms =
          Matches-put v w' name (without_member id s.nickname s.channel) v.next_id left_here
            (λ n other.
              Matches-kept s.room.r w w' n (v.channels n) v.next_id v.next_id untouched
                (same_room n other) (omega arith)
                (λ q room at named k.
                  other (ground (arith, at, k, s.room.room_at, named, s.room.named)))
                (fine.rooms n));
      live = others-IsLive (
          All-IsLive s.room.r w w' keeps_peers untouched.rooms_same left-IsLive
            (values w.lobby.rooms) fine.live);
      counter = d.counter_same ∙ fine.counter;
      fresh_rooms = λ q past.
          let far : w.room_heap.next ≤ q = omega (arith, d.next_rooms) in
          untouched.rooms_same q (λ e. ground (arith, e, s.room.room_at, fine.fresh_rooms q far))
          ∙ fine.fresh_rooms q far;
      fresh_peers = λ q past.
          let far : w.peer_heap.next ≤ q = omega (arith, d.next_peers) in
          d.peers_same q (λ e. ground (arith, e, s.found.seat.peer_at, fine.fresh_peers q far))
          ∙ fine.fresh_peers q far;
      fresh_files = d.still_fresh fine.fresh_files;
    }

-- The end of a member's connection.
pub leaves-Refines :
    (lib : Library) (name : String) (id : ℤ) (v v' : View) (w : World)
    → Refines v w
    → step (leaves name id) v ≡ some v'
    → Handled lib (leaves name id) w v'
unfolding step handle_call
leaves-Refines lib name id v v' w fine allowed =
    let (s, then_put) = seated-Sitting name id v w _ v' fine allowed in
    let (w', run, d) =
      on_before_destroy-Disconnected s.found.p w s.channel.log (connected name id v w fine s) in
    let same : put name (without_member id s.nickname s.channel) v ≡ v' =
      ground (arith, then_put) in
    record {
      after = w';
      run = rw (listener_lem name id v w s) run;
      still = subst (λ u. Refines u w') same (left-Refines name id v w fine s w' d);
    }
