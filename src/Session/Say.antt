-- ===== src/Session/Say.antt =====
-- src/main.rs: the arm `MessageType::Message` of `handle_client_command`.
pub mod Hidden
use chatd.Base.{none, some, ◌++◌, if◌then◌else◌}
use chatd.Text.{Text}
use chatd.Message.{Uuid, MessageType, new, sanitize_text_message}
use chatd.Client.{Client}
use chatd.ChannelOptions
use chatd.Channel.{has, is_member, sendto_agents, sendto_all_butone}
use chatd.Effect.{Env, LogEntry}
use chatd.Server.{get_channel_ref}
use chatd.World.{World, emit, log_line}

unfoldable pub say : Env → Client → Uuid → Text → World → World
say e me target text w = elim (get_channel_ref target w.server) [
  | none ↦ w
  | some ch ↦
      let clean_message = sanitize_text_message text in
      let m = new (MessageType.message clean_message) me.id target (some me.name) in
      if is_member me.id ch
      then emit
          ((if has ChannelOptions.hidden_messages ch
              then sendto_agents m ch
              else sendto_all_butone me.id m ch)
            ++ log_line ch.id (LogEntry.said e.now me.ip me.name clean_message) ch)
          w
      else w
]
