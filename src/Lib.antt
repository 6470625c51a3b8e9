-- ===== src/Lib.antt =====
-- Models of chatd, a chat server over websockets (chatd/src/*.rs).
--
-- The program. `Server` (server.rs) holds a map of clients, a map of channels and the bans. One
-- task per connection reads messages and puts them on one queue; one task takes them from the
-- queue and handles them (`handle_client_command` in main.rs, the functions of `CommandHandler`
-- in commands.rs); one task sends pings and purges idle clients (`check_client_pings`); a read
-- error ends a connection (`handle_client_error`). A channel keeps copies of its members.
--
-- The files.
--   Message, ClientOptions, Client, ChannelOptions, Channel, Ban, Config, Server: the data and
--     the methods of chatd/src/message.rs, client.rs, channel.rs, ban.rs, config.rs, server.rs,
--     one function for each method. `ChannelOptions.or` is `ChannelOptions::or`, and so on.
--   Commands.*: chatd/src/commands.rs, one file for each function of `CommandHandler`.
--   Session.*: chatd/src/main.rs: logins, dispatch, departures, ping rounds, and in
--     Session/Machine the server as a machine that takes one event after the other.
--   Auth: chatd/src/auth.rs, the methods of `AuthSqLite` over any database; Auth/Table: what SQLite
--     promises. Startup, Disk: what `main` does before it takes connections, with the files that
--     config.rs, ban.rs and server.rs read and write.
--   World, Effect: the state with the frames, closed sinks, log lines and saved files of a step,
--     and what a step takes from outside (clock, fresh ids, failing writes, texts of crates).
--   Dict, Bits, Text, Base: maps as association lists, bitwise operations on numbers, text as
--     code points, shared tests and names.
--   Coherence.*, ChannelOptions/Laws, Commands/Modes/Laws, Commands/Part/OwnList,
--     Commands/Topic/Stored, Commands/Typing/Delivery, Session/Say/Hidden,
--     Session/Outage, Server/Bans, Server/Lookup, Message/Sanitize: proofs.
--     Standing.*: proofs of what commands and runs leave of the clients:
--     who they are, what they may do, and what a ban does to them. Auth/Hash, Auth/Users,
--     Startup/Files, Startup/Users: proofs on accounts and on a start.
--     Session/Permission: which commands are permitted; Session/Refusal: what becomes of the others.
--     Session/Discretion.*: who is shown addresses. Roster.*: the channels as a table of who is
--     where, and what commands make of it.
--     Tests.*: concrete runs.
--
-- How the code is read. A mutable reference is an explicit state; an `Outcome` that is `panicked`
-- stands for an `unwrap` that fails. The loop that accepts connections, which checks for a ban, and
-- the task that adds the client once TLS and the websocket have shaken hands are two events, and
-- any others may come between them. Other handlers run as atomic steps: the locks of the source are
-- held for parts of a handler, and interleavings within one are not modelled. The clock reads less
-- than 2 ^ 63 - 3600 seconds, so that the `unwrap` in `Ban::default` does not fail. A `HashMap` is
-- an association list; its order of iteration is the order of insertion. Numbers are unbounded:
-- option sets are only built from given bits, and counters are not compared with a limit. All loops
-- are structural, so no fuel is used. A text is a list of code points, also where the source takes
-- the length in bytes only to compare it with 0.
--
-- Not modelled: `AuthInvent`, whose methods are all unimplemented; JSON, SQLite, SHA-256, TLS,
-- sockets and printing, which are libraries and I/O; the browser client. The handlers ask the user
-- database through the parameter `AuthFinder`.
pub mod Base
pub mod Bits
pub mod Text
pub mod Dict
pub mod Message
pub mod ChannelOptions
pub mod ClientOptions
pub mod Client
pub mod Effect
pub mod Channel
pub mod Ban
pub mod Config
pub mod Server
pub mod World
pub mod Commands
pub mod Session
pub mod Coherence
pub mod Roster
pub mod Standing
pub mod Auth
pub mod Disk
pub mod Startup
pub mod Tests
