-- ===== src/Service/Joins.antt =====
-- `onAfterCreate_NonBlocking` (server/src/rooms/Lobby.cpp) does what the view says of a join.
use canchat.Service.Joined.{Ready, joined-Refines}
use canchat.Lobby.{on_after_create}
use canchat.Peer.Handlers.{Library}
use canchat.Base.Exec.{returns}
use canchat.Base.{
  Option, none, [], same_refl, Bool-cases, inl, inr, ltb_ℤ, pos, ◌<ℤ◌, int_eq, string_eq, suc_int,
  int64_max, String, ℕ, some, [], ◌≡◌, refl, sym, ap, subst, ◌∙◌, arith,
}
use canchat.Base.Map.{All-insert, get-insert_ne, get, get-insert}
use canchat.World.{World}
use canchat.Room.{new_room}
use canchat.Room.Joining.{Open}
use canchat.Lobby.Connecting.{
  counted, with_room, fresh, fresh_room, on_after_create_existing, on_after_create_new,
}
use canchat.Service.{joins, opened, step, handle_call, View, Channel, put, with_member}
use canchat.Service.Seats.{Seats-IsPeer, none_seated, Seats}
use canchat.Service.Refines.{Handled, Matches, Listed, Refines}

abbrev joined_view : String → String → View → View
joined_view name nickname v =
    record (put name (some (with_member v.next_id nickname (opened (v.channels name)))) v) {
      next_id = suc_int int64_max v.next_id;
    }

module _ (lib : Library) (socket : ℕ) (name nickname : String) (v : View) (w : World)
    (fine : Refines v w) (more : v.next_id <ℤ pos int64_max) where
  handled :
      (w' : World) (v' : View)
      → on_after_create socket (some name) (some nickname) w ≡ (returns w.peer_heap.next, w')
      → Refines v' w'
      → Handled lib (joins socket name nickname) w v'
  unfolding handle_call
  handled w' v' run still = record { after = w'; run = rw run; still = still }

  -- A room that is there.
  module _ (c : Channel) (l : Listed name c v.next_id w) where
    abbrev there : Open l.r (counted w) c.log
    there = record {
      room = l.room;
      room_at = l.room_at;
      members = Seats-IsPeer w l.r l.seats;
      remembered = l.remembered;
    }

    there-Ready : Ready name c v w (counted w) l.r there
    there-Ready = record {
      named = l.named;
      numbers = l.numbers;
      files_below = l.files_below;
      files_there = l.files_there;
      seats = l.seats;
      listed = l.listed;
      others = λ n other. refl;
      others_live = λ P here all. all;
      rooms_same = λ q n. refl;
      peers_same = refl;
      files_same = refl;
      downloads_same = refl;
      config_same = refl;
      counter_same = refl;
      fresh_rooms = fine.fresh_rooms;
      apart = λ n other q room at named e. other (ground (arith, at, e, l.room_at, named, l.named));
      below = l.below;
    }

    joins_there :
        Handled lib
          (joins socket name nickname)
          w
          (record (put name (some (with_member v.next_id nickname c)) v) {
            next_id = suc_int int64_max v.next_id;
          })
    joins_there =
        let (w', run, done) =
          on_after_create_existing socket l.r name nickname w c.log there l.listed in
        handled w' _ run (
          joined-Refines socket l.r name nickname c v w (counted w) there fine there-Ready more w'
            done)

  -- A room that is made.
  module _ (absent : get name w.lobby.rooms ≡ none) where
    made-Ready : Ready name (opened none) v w (with_room name w) w.room_heap.next (fresh name w)
    unfolding new_room get
    made-Ready = record {
      named = ap (λ k. k.room_name) (fresh_room name w);
      numbers = ap (λ k. k.file_id_counter) (fresh_room name w);
      files_below = λ id f e. ground (arith, fresh_room name w, e);
      files_there = λ id f e. absurd (ground (arith, fresh_room name w, e));
      seats =
          subst (λ k. Seats w w.room_heap.next [] k.peer_by_id) (sym (fresh_room name w))
            none_seated;
      listed = get-insert name name w.room_heap.next w.lobby.rooms ∙ ground (arith, same_refl name);
      others_live = λ P here all. All-insert P name w.room_heap.next w.lobby.rooms here all;
      others = λ n other. get-insert_ne name n w.room_heap.next w.lobby.rooms other;
      rooms_same = λ q n. ground arith;
      peers_same = refl;
      files_same = refl;
      downloads_same = refl;
      config_same = refl;
      counter_same = refl;
      fresh_rooms = λ q past. ground (arith, fine.fresh_rooms q (omega arith));
      apart = λ n other q room at named e.
          ground (arith, at, e, fine.fresh_rooms w.room_heap.next (omega arith));
      below = λ id n e. absurd (cc);
    }

    joins_made :
        Handled lib
          (joins socket name nickname)
          w
          (record (put name (some (with_member v.next_id nickname (opened none))) v) {
            next_id = suc_int int64_max v.next_id;
          })
    joins_made =
        let (w', run, done, listed) = on_after_create_new socket name nickname w absent in
        handled w' _ run (
          joined-Refines socket w.room_heap.next name nickname (opened none) v w (with_room name w)
            (fresh name w) fine made-Ready more w' done)

  joins_at :
      (o : Option Channel)
      → Matches name o v.next_id w
      → Handled lib
          (joins socket name nickname)
          w
          (record (put name (some (with_member v.next_id nickname (opened o))) v) {
            next_id = suc_int int64_max v.next_id;
          })
  joins_at none absent = joins_made absent
  joins_at (some c) l = joins_there c l

-- A join that the view allows.
pub joins-Refines :
    (lib : Library) (socket : ℕ) (name nickname : String) (v v' : View) (w : World)
    → Refines v w
    → step (joins socket name nickname) v ≡ some v'
    → Handled lib (joins socket name nickname) w v'
unfolding step
joins-Refines lib socket name nickname v v' w fine allowed =
    elim (Bool-cases (ltb_ℤ v.next_id (pos int64_max))) [
      | inl more ↦
          let same : joined_view name nickname v ≡ v' = ground (arith, allowed, more) in
          subst (Handled lib (joins socket name nickname) w) same (
            joins_at lib socket name nickname v w fine (ground arith) (v.channels name)
              (fine.rooms name))
      | inr over ↦ absurd (ground (arith, allowed, over))
    ]
