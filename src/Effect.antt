-- ===== src/Effect.antt =====
-- What the program does to the outside: frames written to the websocket of a client, closed
-- sinks, lines of a channel's log file, and the ban file. A client's id names its sink.
use chatd.Base.{ℕ, Bool, Option, List}
use chatd.Text.{Text}
use chatd.Message.{Uuid, IpAddr, Message}

-- `TMessage::from(cmessage)`, or `Message::text(..)` of a plain text.
pub data Frame : Type 0 where
  cmessage : Message → Frame
  text : Text → Frame

-- A line of `logs/<channel>.log`: the time, the word that opens it, the channel's name, the client's
-- name and address, and the note in brackets at the end; or a message with the sender's address
-- and name.
pub data LogEntry : Type 0 where
  event : ℕ → Text → Text → Text → IpAddr → Text → LogEntry
  said : ℕ → IpAddr → Text → Text → LogEntry

-- `log` and `save` are attempts: the program goes on when the file cannot be opened or written.
pub data Effect {ℓ} (Ban : Type ℓ) : Type ℓ where
  send : Uuid → Frame → Effect Ban
  close : Uuid → Effect Ban
  log : Uuid → LogEntry → Effect Ban
  save : Text → List Ban → Effect Ban

-- What one step takes from outside: the clock, the next `Uuid::new_v4()`, the number drawn for a
-- guest's name, which sinks refuse a write, and the texts of the standard library and of the
-- crate uuid.
pub record Env : Type 0 where
  pub now : ℕ
  pub new_v4 : Uuid
  pub guest_number : ℕ
  pub write_fails : Uuid → Bool
  pub to_lowercase : Text → Text
  pub show_number : ℕ → Text
  pub show_ip : IpAddr → Text
  pub parse_ipv4 : Text → Option ℕ
  pub show_uuid : Uuid → Text
  pub parse_uuid : Text → Option Uuid
