-- ===== src/RoomEndpoint/Upgrading.antt =====
-- From the request (server/src/controller/RoomsController.hpp) to the connection
-- (server/src/rooms/Lobby.cpp).
use canchat.Base.{String, string_eq, str_append, ℕ, some, ◌≡◌, refl, ap₂}
use canchat.Base.Map.{get, insert}
use canchat.Base.Exec.{returns, throws}
use canchat.World.{World}
use canchat.Nickname.{Generator, avatars, adjectives, nouns}
use canchat.Nickname.Words.{IsIn, random_words}
use canchat.Lobby.{on_after_create}
use canchat.RoomEndpoint.{Handshake, upgrade, ParameterMap, accept, ws, connect, upgrade_parameters}

parameters_lem :
    (room_name nickname : String)
    → (get "roomName" (upgrade_parameters room_name nickname) ≡ some room_name)
      × (get "nickname" (upgrade_parameters room_name nickname) ≡ some nickname)
unfolding upgrade_parameters get insert
parameters_lem room_name nickname = (refl, refl)

-- A request for any room, whatever the generator draws: where the handshake gives a response, this is
-- the answer, with parameters that lead the connection to the room of the request, under a nickname of
-- an avatar, an adjective and a noun of the tables, both of which the connection finds; and where the
-- handshake throws, so does the request.
pub ws-connect :
    {E Headers Response : Type 0} (handshake : Handshake Headers Response) (g : Generator E)
    (room_name : String) (headers : Headers) (e : E) (socket : ℕ) (w : World)
    → (params : ParameterMap) × (a j n : String) × IsIn a avatars
      × IsIn j adjectives
      × IsIn n nouns
      × ((response : Response)
          → handshake headers ≡ returns response
          → (ws handshake g room_name headers e).0 ≡ returns (upgrade response params))
      × ((text : String)
          → handshake headers ≡ throws text
          → (ws handshake g room_name headers e).0 ≡ throws text)
      × (connect socket params w
          ≡ on_after_create socket
              (some room_name)
              (some (str_append a (str_append " " (str_append j (str_append " " n)))))
              w)
unfolding ws accept connect
ws-connect handshake g room_name headers e socket w =
    let (a, j, n, text, ia, ij, ina, x, y) = random_words g e in
    let nickname = str_append a (str_append " " (str_append j (str_append " " n))) in
    let p = parameters_lem room_name nickname in
    (
      upgrade_parameters room_name nickname,
      a,
      j,
      n,
      ia,
      ij,
      ina,
      λ response h. rw (text, h) refl,
      λ thrown h. rw (text, h) refl,
      ap₂ (λ r k. on_after_create socket r k w) p.0 p.1,
    )
