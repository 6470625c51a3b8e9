-- ===== src/Commands.antt =====
-- src/commands.rs: the handlers of the commands. Each takes what the step draws from outside, the
-- client that gave the command (`me`, as the server's map holds it) and the arguments of the
-- source. `println!` is left out.
pub mod Kick
pub mod Kill
pub mod Kline
pub mod Modes
pub mod Topic
pub mod ChannelList
pub mod Lobby
pub mod AuthAgent
pub mod Typing
pub mod Part
pub mod Join
