-- ===== src/Api.antt =====
-- internal/api/chat_handler.go: the HTTP request that opens a connection. The upgrade is gorilla's:
-- whether it succeeds is an argument.
pub mod Laws
use live_stream_danmaku.Base.{
  ℕ, ◌≡◌, Bool, true, false, ◌||◌, List, [], ◌∷◌, if◌then◌else◌, nat_eq, list_eq, ◌==◌,
}
use live_stream_danmaku.Text.{Text, codes}
use live_stream_danmaku.Text.Decimal.{NumResult, parsed, syntax, range, parse_uint}
use live_stream_danmaku.Ws.Client.{Client, new_client}

-- `accepted` hands the client to the manager's `Register` channel.
pub data Response : Type 0 where
  bad_request : Text → Response
  not_upgraded : Response
  accepted : Client → Response

-- After the upgrade.
open_client : Bool → ℕ → Text → Text → Response
open_client upgraded uid name room =
    if upgraded then accepted (new_client uid name room) else not_upgraded

-- After `strconv.ParseUint`.
check_uid : Bool → NumResult → Text → Text → Response
unfolding open_client
check_uid upgraded (parsed uid) name room = open_client upgraded uid name room
check_uid upgraded syntax name room = bad_request (codes "Invalid uid format, must be numeric")
check_uid upgraded range name room = bad_request (codes "Invalid uid format, must be numeric")

-- `ConnectWebSocket`, up to the registration.
unfoldable pub connect_web_socket : Bool → Text → Text → Text → Response
unfolding check_uid
connect_web_socket upgraded uid name room =
    if uid == [] || room == []
    then bad_request (codes "Missing uid or room")
    else check_uid upgraded (parse_uint uid) name room
