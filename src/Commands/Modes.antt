-- ===== src/Commands/Modes.antt =====
-- src/commands.rs: `CommandHandler::set_channel_modes`.
pub mod Laws
use chatd.Base.{ℕ, ◌+◌, Bool, none, some, List, [], ◌∷◌, ◌++◌, ◌==◌, ◌&&◌, not, if◌then◌else◌}
use chatd.Text.{Text, lit}
use chatd.Message.{Uuid, MessageType, ProblemCode, nil, new}
use chatd.Client.{Client, is_agent}
use chatd.ChannelOptions.{
  Options, has_option, available, public_modes, get_options_from_u64, options_vec_string,
}
use chatd.Channel.{Channel, add_option, remove_option, set_options, sendto_all}
use chatd.Server.{get_channel_ref, put_channel}
use chatd.World.{World, emit, modify, refuse}
use chatd.Commands.Kick.{is_stranger}

-- The closure that runs over `available()`: it adds up the options that `modes` has. (The vector
-- `real_options` that it also makes is empty and not used.)
unfoldable pub add_up : ℕ → List Options → ℕ → ℕ
add_up modes [] channel_options = channel_options
add_up modes (o ∷ os) channel_options =
    add_up modes os (if has_option modes o then channel_options + o else channel_options)

-- The body of the loop over `public_modes()`.
unfoldable pub set_mode : Options → Options → Channel → Channel
set_mode options mode ch =
    if has_option options mode && not (has_option ch.options mode)
    then add_option mode ch
    else if not (has_option options mode) && has_option ch.options mode
    then remove_option mode ch
    else ch

unfoldable pub set_public : Options → List Options → Channel → Channel
set_public options [] ch = ch
set_public options (mode ∷ modes) ch = set_public options modes (set_mode options mode ch)

-- The two messages that follow a change.
unfoldable pub announce_modes : Uuid → Client → Channel → World → World
announce_modes channel me ch w =
    emit
      (sendto_all
          (new
            (MessageType.message (
              lit
                "<i class=\"fa fa-gear\"> </i><i class=\"ichat-modechange\"> has changed the channel modes.</i>"))
            nil ch.id (some me.name))
          ch
        ++ sendto_all
            (new (MessageType.channel_modes (some (options_vec_string ch.options))) nil ch.id none)
            ch)
      (modify (put_channel channel ch) w)

-- What the options of the channel become.
unfoldable pub change_modes : Client → ℕ → Channel → Channel
change_modes me modes ch =
    let options = get_options_from_u64 (add_up modes available 0) in
    if not (is_agent me) then set_public options public_modes ch else set_options options ch

unfoldable pub set_channel_modes : Client → Uuid → ℕ → World → World
set_channel_modes me channel modes w = elim (get_channel_ref channel w.server) [
  | none ↦
      refuse me.id ProblemCode.channel_invalid (some channel)
        (lit "Cannot change modes of non-existent channels.") w
  | some ch ↦
      let changed = change_modes me modes ch in
      if is_stranger me ch
      then refuse me.id ProblemCode.permission_denied (some channel)
          (lit "You have no permission to change this channels modes.") w
      else if ch.options == changed.options
      then w
      else announce_modes channel me changed w
]
