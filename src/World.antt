-- ===== src/World.antt =====
-- The server's state with what a step has done to the outside so far, oldest first.
use chatd.Base.{Option, none, some, [], ◌∷◌, ◌++◌, ◌==◌, ◌&&◌, not, if◌then◌else◌}
use chatd.Text.{Text}
use chatd.Dict.{Dict}
use chatd.Message.{Uuid, Message, ProblemCode, new_problem}
use chatd.ChannelOptions
use chatd.Channel.{Channel, Effects, has, count_members}
use chatd.Effect.{Effect, Frame, Env, LogEntry}
use chatd.Server.{Server, put_channel, remove_channel, get_channel_ref, sendto_wallops}

pub record World : Type 0 where
  pub server : Server
  pub effects : Effects

-- A panic ends the task that runs the step; it leaves the state as it was.
pub data Outcome : Type 0 where
  returned : World → Outcome
  panicked : World → Outcome

-- The state that a step leaves, also where it panics.
abbrev pub world_of : Outcome → World
world_of (Outcome.returned w) = w
world_of (Outcome.panicked w) = w

abbrev pub emit : Effects → World → World
emit es w = record w { effects = w.effects ++ es }

abbrev pub modify : (Server → Server) → World → World
modify f w = record w { server = f w.server }

-- `sender.send(cmessage.into())`
abbrev pub send : Uuid → Message → World → World
send id m w = emit (Effect.send id (Frame.cmessage m) ∷ []) w

-- `sender.send(CMessage::new_problem(..).into())`
abbrev pub refuse : Uuid → ProblemCode → Option Uuid → Text → World → World
refuse id code target text w = send id (new_problem code target text) w

-- `slock.sendto_wallops(..)`, the count dropped.
abbrev pub wallops : Env → Message → World → World
wallops e m w =
    let r = sendto_wallops e m w.server in record { server = r.0; effects = w.effects ++ r.1 }

-- `logs/<id>.log` gets an entry if the channel has `SaveHistory`.
unfoldable pub log_line : Uuid → LogEntry → Channel → Effects
log_line id entry ch = if has ChannelOptions.save_history ch then Effect.log id entry ∷ [] else []

-- The end of every departure: the channel is stored, and is destroyed if it is empty and does not
-- persist; each way with its own lines in the log.
unfoldable pub settle : Uuid → Channel → Effects → Effects → World → World
settle id ch destroyed kept w =
    let stored = modify (put_channel id ch) w in
    if count_members ch == 0 && not (has ChannelOptions.persist ch)
    then modify (remove_channel id) (emit destroyed stored)
    else emit kept stored

-- `for (id, name) in channels { if let Some(channel) = get_channel_ref(id) { .. } }`
unfoldable pub for_channels : (Uuid → Text → Channel → World → World) → Dict Text → World → World
for_channels body [] w = w
for_channels body ((id, name) ∷ channels) w =
    for_channels body channels
      (elim (get_channel_ref id w.server) [ none ↦ w | some ch ↦ body id name ch w ])
