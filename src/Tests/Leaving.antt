-- ===== src/Tests/Leaving.antt =====
-- The first peer of the small server leaves, while its file is downloaded.
use canchat.Base.{int_eq, pos, some, [], ◌≡◌, refl}
use canchat.Base.Map.{get}
use canchat.Base.Exec.{returns}
use canchat.World.{World}
use canchat.Room.Leaving.{Hosted}
use canchat.Lobby.{on_before_destroy}
use canchat.Lobby.Disconnecting.{Connected, Disconnected, on_before_destroy-Disconnected}
use canchat.Tests.{owl, den, fox, den_room, notes, download}

pub fox_there : get (pos 1) den_room.peer_by_id ≡ some 0
unfolding get
fox_there = refl

abbrev pub fox_hosted : Hosted 0 (pos 1) den
fox_hosted = record {
  room = den_room;
  host = 0;
  peer = fox;
  room_at = refl;
  registered = fox_there;
  host_at = refl;
  files_at = ((notes, refl, ((download, refl), tt)), tt);
}

abbrev pub fox_connected : Connected 0 den []
fox_connected = record {
  peer = fox;
  hosted = fox_hosted;
  listens = refl;
  same_peer = refl;
  members = ((fox, refl), ((owl, refl), tt));
  remembered = refl;
}

on_before_destroy-Disconnected_example :
    (w' : World) × (on_before_destroy 0 den ≡ (returns tt, w'))
    × Disconnected 0 den [] fox_connected w'
on_before_destroy-Disconnected_example = on_before_destroy-Disconnected 0 den [] fox_connected
