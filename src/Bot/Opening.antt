-- ===== src/Bot/Opening.antt =====
-- What the bot does when a page opens a WebSocket: the endpoints as `start` of
-- web_socket_server/server_ws.hpp copies them, the handshake, and the function of the endpoint.
pub mod Pages
use boost_irc.Base.{ℕ, suc, false, Option, none, some, List, [], ◌∷◌, Bytes, get_elem?}
use boost_irc.Boost.Regex.{Groups}
use boost_irc.WebSocket.Handshake.{Handshaker, handshake_read}
use boost_irc.Bot.Endpoints.{Effect, Functions}

-- `for(auto& endp: endpoint) opt_endpoint.emplace_back(regex(endp.first), &endp.second);`, where an
-- endpoint is known by its place.
unfoldable pub copy_endpoints : ℕ → List (Bytes × Functions) → List (Bytes × ℕ)
copy_endpoints i [] = []
copy_endpoints i ((expression, functions) ∷ endpoint) =
    (expression, i) ∷ copy_endpoints (suc i) endpoint

-- `endpoint.onopen(connection)`
abbrev pub call_onopen : Option (Bytes × Functions) → ℕ → Option (List Effect)
call_onopen none connection = none
call_onopen (some (expression, functions)) connection = some (functions.onopen connection)

abbrev pub with_answer :
    List (Bytes × Functions) → ℕ → Option (ℕ × Groups × Bytes) → Option (List Effect)
with_answer endpoint connection none = none
with_answer endpoint connection (some (i, path_match, answer)) =
    call_onopen (get_elem? endpoint i) connection

-- A connection whose handshake is read, and is answered without an error: what the function of its
-- endpoint does. None where it is not answered.
unfoldable pub opens : Handshaker → List (Bytes × Functions) → ℕ → Bytes → Option (List Effect)
unfolding copy_endpoints handshake_read
opens h endpoint connection text =
    with_answer endpoint connection
      (handshake_read (record h { opt_endpoint = copy_endpoints 0 endpoint }) false text)
