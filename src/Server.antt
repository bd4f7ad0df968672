-- ===== src/Server.antt =====
-- The server process: its shared state, the handlers of src/server/message_handler.c, the client
-- thread and the broadcasting agent.
pub mod World
pub mod Invariant
pub mod LoginHandler
pub mod BoardHandler
pub mod RequestHandler
pub mod ReplyHandler
pub mod ShutdownHandler
pub mod ClientThread
pub mod Broadcasting
pub mod Threads
pub mod Logging
pub mod Options
pub mod Sockets
pub mod Startup
pub mod LoginThread
pub mod Reached
pub mod Locks
