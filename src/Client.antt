-- ===== src/Client.antt =====
-- The client program of src/client: its window, the messages that it sends, and the thread that
-- listens to the server.
pub mod State
pub mod Options
pub mod Print
pub mod Window
pub mod TextView
pub mod Commands
pub mod Events
pub mod Board
pub mod Listener
