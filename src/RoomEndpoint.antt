-- ===== src/RoomEndpoint.antt =====
-- server/src/controller/RoomsController.hpp: the request that becomes a connection of a room. The
-- handshake is oatpp's, a parameter; the response that it gives carries the parameters to
-- `onAfterCreate_NonBlocking`.
pub mod Upgrading
use canchat.Base.{String, string_eq, ℕ, Option, none, some, []}
use canchat.Base.Map.{Map, get, insert}
use canchat.Base.Exec.{Outcome, returns, throws, undefined}
use canchat.World.{Action}
use canchat.Nickname.{Generator, random}
use canchat.Lobby.{on_after_create}

abbrev pub ParameterMap : Type 0
ParameterMap = Map String String

unfoldable pub upgrade_parameters : String → String → ParameterMap
upgrade_parameters room_name nickname = insert "nickname" nickname (insert "roomName" room_name [])

-- `Handshaker::serversideHandshake` on the headers of a request: it gives a response, or throws.
abbrev pub Handshake : Type 0 → Type 0 → Type 0
Handshake Headers Response = Headers → Outcome Response

-- The answer: `OATPP_ASSERT_HTTP` answers with a status and a text; otherwise it is the response of the
-- handshake with the parameters for the connection.
pub data Reply (Response : Type 0) : Type 0 where
  http_error : ℕ → String → Reply Response
  upgrade : Response → ParameterMap → Reply Response

abbrev reply : {Response : Type 0} → ParameterMap → Outcome Response → Outcome (Reply Response)
reply params (returns response) = returns (upgrade response params)
reply params (throws text) = throws text
reply params undefined = undefined

module _ {Headers Response : Type 0} (serverside_handshake : Handshake Headers Response) where
  -- WS::act after `Nickname::random`, whose result may be null.
  unfoldable pub accept : String → Option String → Headers → Outcome (Reply Response)
  accept room_name none headers = returns (http_error 400 "No nickname specified.")
  accept room_name (some nickname) headers =
      reply (upgrade_parameters room_name nickname) (serverside_handshake headers)

  abbrev drawn : String → Headers → Option String → Outcome (Reply Response)
  drawn room_name headers none = undefined
  drawn room_name headers (some nickname) = accept room_name (some nickname) headers

  -- WS::act: `random` is `none` where it reads outside its tables, and never gives a null string.
  unfoldable pub ws :
      {E : Type 0} → Generator E → String → Headers → E → Outcome (Reply Response) × E
  ws g room_name headers e =
      let (nickname, e') = random g e in (drawn room_name headers nickname, e')

-- The lookups of `onAfterCreate_NonBlocking` in the parameters of the connection.
unfoldable pub connect : ℕ → ParameterMap → Action ℕ
connect socket params = on_after_create socket (get "roomName" params) (get "nickname" params)
