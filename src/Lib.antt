-- ===== src/Lib.antt =====
-- Tinychat server: a chat server over HTTP and WebSocket, with MySQL behind it.
--
-- An HTTP connection (src/core/http_session.cpp) reads requests and hands each to the pool of workers
-- (src/pool), where RequestHandler (src/core/request_handler.hpp and .cpp) answers it; the answer goes
-- back through the connection's strand. A request for an upgrade makes the connection a WebSocket
-- connection (src/core/websocket_session.cpp): it is registered for its user in the registry of
-- sessions (src/core/ws_session_mgr.cpp), and each message of the client goes to WSHandler
-- (src/core/ws_handler.cpp) on the workers, which stores it and sends it on through the registry. Both
-- handlers draw ids from the generator (src/utils/snowflake.cpp), and take connections to the database
-- from a pool (src/db). The settings are read once (src/utils/config.cpp).
--
-- Which file models which part:
--   Snowflake        SnowFlake::init, next_id, wait_till_next_ms; parse_id of tests/snowflake_test.hpp
--   ThreadPool       the queue and the workers; ThreadPool.World interleaves them with callers
--   SqlPool          SqlConnPool, and the owner SqlConnRAII; SqlPool.World interleaves threads
--   Database         SqlConnRAII as the handlers use it: statements, transactions, the destructor
--   Claims           extract_user_claims
--   Json, Models     JSON values, and the conversions of src/model and src/utils/enums.hpp
--   Http             requests, responses, and the helpers that build a response
--   RequestHandler   a child for each group of handlers: Dispatch (handle_request), Users, Rooms,
--                    Members, Assets, and the helpers Target, Credentials, Mime
--   WsHandler        handle_message
--   Tasks            what the workers run, handle_request and handle_message, on one connection
--   History          the updates of all requests and messages, one after the other
--   SessionMgr       WSSessionMgr: add_session, remove_session, write_to, write_to_room;
--                    SessionMgr.Interface: what its clients rely on; SessionMgr.Members: the query of
--                    write_to_room, on a connection of its own beside that of handle_message
--   WsSession        WebsocketSession and, in WsSession.World, its strand
--   HttpSession      HttpSession and, in HttpSession.World, its strand and the workers
--   Exchange         an HTTP connection whose requests handle_request answers
--   Listener         the acceptor; Listener.World runs its loop
--   Server           main and the constructor of TinychatServer: what is initialised, in which order;
--                    Server.Threads: TinychatServer::run
--   Config           AppConfig with its setters, init and get
--   Chat             the calls of a handler, done by the registry on the connections; Chat.Login goes from
--                    a login to a connection, Chat.Account from a registration to a token, and
--                    Chat.Lost from a connection to the handler
--   SnowflakeTest    tests/snowflake_test.hpp, and src/test_main.cpp, which runs it
--   Base, Text       helpers: tests and lists over the native numbers, bits, strings, stoull
-- Definitions keep the names of the source in snake case. The children named Witnesses hold the
-- theorems at concrete inputs.
--
-- How the code is read. A method that changes an object returns the new one; a handler of Asio
-- returns the new connection and the operations that it starts, and the module World of the part says
-- in which orders these may end. A method that holds a mutex throughout is one step. A handler of
-- requests or messages returns how it ends (an answer, an exception, a wait that does not end, or what
-- C++ leaves undefined) with the calls that it made on the database, in order; what the database
-- answers is a parameter, one answer for each statement, so every combination of answers is covered.
-- Which statements are in force afterwards is told from the calls by the rules of MySQL's
-- transactions (Database.Durable); where an exception in the destructor of SqlConnRAII ends the
-- process, the calls end there. 64-bit words are natural numbers with their wrap-around written
-- out. Strings are lists of bytes.
--
-- Parameters stand for code that is not in the repository: Asio and Beast, Boost.JSON's parser and
-- printer, jwt-cpp, libsodium, the MySQL connector, the property tree, the file system and the clock.
-- The clock is a list of readings; a call that has used them up is still waiting. No other function
-- takes fuel, but for the printing of numbers, where twenty digits are enough for 64 bits.
--
-- Not modelled: the text of exceptions and of the log, the formatting of times in the test, memory that
-- runs out, and src/websocket_session.cpp, an example of Boost's that no target builds.
pub mod Base
pub mod Text
pub mod Json
pub mod Models
pub mod Database
pub mod Http
pub mod RequestHandler
pub mod WsHandler
pub mod Tasks
pub mod Exchange
pub mod History
pub mod Snowflake
pub mod ThreadPool
pub mod SqlPool
pub mod Claims
pub mod SessionMgr
pub mod WsSession
pub mod HttpSession
pub mod Config
pub mod Listener
pub mod Server
pub mod Chat
pub mod SnowflakeTest
