-- ===== src/Session.antt =====
-- src/main.rs: the tasks of the server. Sockets, TLS, the websocket handshake and JSON are outside:
-- a connection that the listener takes is the event `connects`, the end of its handshakes is
-- `opens`, or `fails` where it is dropped; a command that the mpsc channel hands over is
-- `commands`, a websocket that fails or sends what is no command is `drops`, and the task that
-- wakes every 50 seconds is `wakes`. Each event is handled in one go.
pub mod Departure
pub mod Pings
pub mod Login
pub mod Say
pub mod Dispatch
pub mod Machine
pub mod Outage
pub mod Permission
pub mod Refusal
pub mod Discretion
