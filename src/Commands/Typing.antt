-- ===== src/Commands/Typing.antt =====
-- src/commands.rs: `CommandHandler::typing`. It does not ask whether the client is a member.
pub mod Delivery
use chatd.Base.{none, some, ◌||◌, if◌then◌else◌}
use chatd.Message.{Uuid, MessageType, new}
use chatd.Client.{Client}
use chatd.ChannelOptions
use chatd.Channel.{has, sendto_agents, sendto_all_butone}
use chatd.Server.{get_channel_ref}
use chatd.World.{World, emit}

unfoldable pub typing : Client → Uuid → World → World
typing me target w = elim (get_channel_ref target w.server) [
  | none ↦ w
  | some ch ↦
      let m = new (MessageType.typing me.id target) me.id target none in
      if has ChannelOptions.hidden_messages ch || has ChannelOptions.hidden_member_list ch
      then emit (sendto_agents m ch) w
      else emit (sendto_all_butone me.id m ch) w
]
