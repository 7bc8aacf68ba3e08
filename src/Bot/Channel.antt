-- ===== src/Bot/Channel.antt =====
-- A page of the channel endpoint and its client: what `twitch_client::privmsg` of
-- src/twitch_client.cpp passes on goes over the page's connection.
pub mod Shown
pub mod Received
use boost_irc.Base.{ℕ, Option, List, [], ◌∷◌, Bytes}
use boost_irc.Irc.Effects.{Event, ws_send}
use boost_irc.WebSocket.Connection.{Connection, Action, post, send}
use boost_irc.WebSocket.Queue.{SendData}
use boost_irc.Bot.Endpoints.{no_timeout}

-- `m_websocket->send(m_connection, send_stream, …)`, for each of the events of the client.
unfoldable pub pass_on : List Event → Connection → Connection
unfolding send
pass_on [] c = c
pass_on (ws_send text ∷ es) c = pass_on es (send no_timeout text 129 c)
pass_on (e ∷ es) c = pass_on es c

-- `send_queue.emplace_back(header_stream, message_stream, callback)`, for each post; the callbacks
-- of the client are the same.
unfoldable pub queued : Option ℕ → List Action → List SendData
queued callback [] = []
queued callback (post header message ∷ actions) =
    record { header_stream = header; message_stream = message; callback = callback }
    ∷ queued callback actions
queued callback (action ∷ actions) = queued callback actions
