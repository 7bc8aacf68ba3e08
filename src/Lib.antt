-- ===== src/Lib.antt =====
-- boost-irc: a bot that joins Twitch channels over IRC and shows them to web pages.
--
-- Parts, and how they work together. `irc_client` (irc/) connects to a server, reads its lines,
-- makes a `Message` of each and dispatches it; its member functions send commands. `twitch_client`
-- (src/) overrides what to do with replies and chat messages: it joins the channel of a page and
-- passes chat on to that page's socket. It fetches the list of chatters by an `http_client`
-- (http_client/). The bot (src/bot.cpp) serves the pages' files over HTTP (web_server/) and makes a
-- `twitch_client` for each page that opens a WebSocket (web_socket_server/).
--
-- Files. `Boost` states what the code relies on of Boost's string algorithms, formatting and
-- regular expressions, which are parameters everywhere; `Boost/Regex/First` is the match that its
-- documentation says is reported, where a theorem asks for that. `Irc/Message` is
-- irc/irc_client.hpp's class `Message` (`Pattern`: its expression; `parse`: its constructor;
-- `to_string`: `toString`; `Line`: lines of the protocol), `Irc/Reply` the enumeration,
-- `Irc/Commands` the sending member functions of irc/irc_client.cpp (`perform`), `Irc/Stoi`
-- std::stoi, `Irc/Dispatch` `message`, `reply` and `read`, `Irc/Reader` the loop of `read()`,
-- `Irc/Session` the handlers of a connection as steps.
-- `Irc/Effects` is the monad of all that code: what it does to the outside, in order, and how a
-- call ends. `HttpClient` is http_client/http_client.cpp, its handlers as a state machine: a step
-- is the end of an operation, with what it read. `WebSocket` is web_socket_server/server_ws.hpp:
-- `Frame` the header that `send` writes and the parts of a frame that `read_message` reads, `Queue`
-- the send queue on its strand, `Connection` the handlers, with closing and the idle timer,
-- `Handshake` what is read and written before, `Peer` a connection from its acceptance on and the
-- sets of the endpoints. `HttpServer` is web_server/server_http.hpp: `Request` parse_request,
-- `Header` its loop over the header lines, which the handshake shares, `Keys` the names of the
-- fields, `Resources` the grouping of the resources in `start` and find_resource, `Number` its
-- numbers, and `Connection` the handlers of a connection as steps. `Serving` is what both servers
-- do alike: `start`, `accept` and `stop`, over any number of connections whose handlers run in any
-- order (`Serving/Tls`: web_server/server_https.hpp and web_socket_server/server_wss.hpp);
-- `HttpServer/Serving` and `WebSocket/Peer` put their connections into it. `Bot` is the handler of
-- files of src/bot.cpp and default_resource_send, the file system being a parameter,
-- `Bot/Endpoints` the endpoints and what `main` sets up, `Bot/Opening` what it does when a page
-- opens a WebSocket, and `Bot/Channel` how a client's messages get to its page. `JsonClient` is
-- http_client/json_client.cpp and the callback that it is given, `Crypto`
-- web_socket_server/crypto.hpp, of which web_server/crypto.hpp is a copy. `Twitch` is
-- src/twitch_client.cpp, `Twitch/Database` its use of SQLite. `Std` has what the code uses of
-- std::string and std::istream.
--
-- Bounds. The read loop of the IRC client runs on as many rounds as the buffer has bytes, which is
-- enough since each round takes a byte at least; so does the loop over the lines of a header, up to
-- its blank line, and a repeated part of an expression on as many as the rest of the text has
-- bytes, since it takes one in each. A file is sent on one round more than it has bytes, since
-- every part but the last takes one at least. Texts are lists of byte values; an int is checked
-- against 2^31, a size_t is taken modulo 2^64, and a shift of an int is checked against its 32
-- bits.
--
-- Not modelled: sockets, threads and timers but for the order of handlers (a server runs on one
-- thread, as the bot starts it), the resolver, the addresses of the other sides, and SQLite. SHA-1,
-- the functions of OpenSSL and the JSON trees of Boost are parameters.
mod Base
pub mod Std
pub mod Boost
pub mod Irc
pub mod Twitch
pub mod HttpClient
pub mod Bot
pub mod WebSocket
pub mod Serving
pub mod HttpServer
pub mod Crypto
pub mod JsonClient
mod Tests
