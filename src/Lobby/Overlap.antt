-- ===== src/Lobby/Overlap.antt =====
-- Two connections of one room at once (server/src/rooms/Lobby.cpp): `isEmpty` and `deleteRoom` at the
-- end of `onBeforeDestroy_NonBlocking` are two steps, and another connection may begin between them.
use canchat.Base.{
  same_refl, int_eq, string_eq, String, ℕ, false, none, some, List, [], ◌≡◌, refl, ap, ◌∙◌, arith,
  if◌then◌else◌,
}
use canchat.Base.Map.{get, insert, get-insert, get-erase_same, erase}
use canchat.Base.Exec.{returns, pure, ◌>>=◌, ◌>>◌}
use canchat.Dto.{MessageDto}
use canchat.World.{load_room, World, Action, Room}
use canchat.Room.{is_empty, get_peer_by_id, no_entries}
use canchat.Room.Joining.{Open}
use canchat.Room.Leaving.{find_peer}
use canchat.Lobby.{on_after_create, delete_room, get_room}
use canchat.Lobby.Connecting.{counted, on_after_create_existing}

-- The end of the one connection, with the begin of the other between its two steps. The name of a
-- room does not change, so that it is read first makes no difference.
unfoldable pub overlap : ℕ → Action ℕ → Action ℕ
overlap r joining = do
  room ← load_room r
  empty ← is_empty r
  p ← joining
  if empty then delete_room room.room_name else pure tt
  pure p

abbrev unlisted : String → World → World
unlisted name w = record w { lobby = record (w.lobby) { rooms = erase name w.lobby.rooms } }

overlap_lem :
    (r : ℕ) (joining : Action ℕ) (w w' : World) (room : Room) (p : ℕ)
    → w.room_heap.cell r ≡ some room
    → room.peer_by_id ≡ []
    → joining w ≡ (returns p, w')
    → overlap r joining w ≡ (returns p, unlisted room.room_name w')
unfolding overlap is_empty delete_room
overlap_lem r joining w w' room p e n j = ground (arith, e, n, j)

-- The newcomer is in a room that the lobby does not find.
pub record Stranded (r p : ℕ) (name : String) (w w' : World) : Type 0 where
  pub not_listed : (get_room name w').0 ≡ returns none
  pub inside : (get_peer_by_id r w.lobby.peer_id_counter w').0 ≡ returns (some p)
  pub not_empty : (is_empty r w').0 ≡ returns false

not_empty_lem :
    (r : ℕ) (w : World) (room : Room)
    → w.room_heap.cell r ≡ some room
    → no_entries room.peer_by_id ≡ false
    → (is_empty r w).0 ≡ returns false
unfolding is_empty
not_empty_lem r w room e n = ground (arith, e, n)

-- When the last peer has left a room, and another connection to it begins after `isEmpty` and before
-- `deleteRoom`: both end without an error, the newcomer is a peer of the room, and the lobby no longer
-- finds the room, which is not empty.
pub overlap-Stranded :
    (socket r : ℕ) (name nickname : String) (w : World) (ms : List MessageDto)
    (o : Open r (counted w) ms)
    → get name w.lobby.rooms ≡ some r
    → o.room.room_name ≡ name
    → o.room.peer_by_id ≡ []
    → (w' : World) × (overlap r (on_after_create socket (some name) (some nickname)) w
        ≡ (returns w.peer_heap.next, w'))
      × Stranded r w.peer_heap.next name w w'
unfolding get_room
overlap-Stranded socket r name nickname w ms o listed same_name none_left =
    let (w', e, c) = on_after_create_existing socket r name nickname w ms o listed in
    (
      unlisted name w',
      rw (← same_name) (
          overlap_lem r (on_after_create socket (some o.room.room_name) (some nickname)) w w' o.room
            w.peer_heap.next o.room_at none_left (rw same_name e)),
      record {
        not_listed = ap returns (get-erase_same name w'.lobby.rooms);
        inside =
            find_peer r w.lobby.peer_id_counter (unlisted name w') c.room c.room_at
            ∙ ap returns (
                rw c.members (
                  get-insert w.lobby.peer_id_counter w.lobby.peer_id_counter w.peer_heap.next
                    o.room.peer_by_id
                  ∙ ground (arith, same_refl w.lobby.peer_id_counter)));
        not_empty =
            not_empty_lem r (unlisted name w') c.room c.room_at
              (rw (c.members, none_left) (unfold insert in refl));
      },
    )
