-- ===== src/Server.antt =====
-- iocp-chatting-server/: the echo server behind its sockets. A handler of a completion or of an
-- accepted client is a function on the whole server's state and runs alone.
pub mod State
pub mod Lobby
pub mod Manager
pub mod Io
pub mod Message
pub mod Handlers
pub mod Framing
pub mod Sending
pub mod Slots
pub mod Sound
pub mod Stable
pub mod Frame
pub mod Looping
pub mod Stream
pub mod Threads
pub mod Stopping
mod Tests
