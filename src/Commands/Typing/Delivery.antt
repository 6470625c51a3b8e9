-- ===== src/Commands/Typing/Delivery.antt =====
-- Who is told that a client is typing.
use chatd.Base.{◌≡◌, ◌||◌, not, some, [], ◌==◌, if◌then◌else◌, Bool-cases, inl, inr}
use chatd.Dict.{lookup}
use chatd.Message.{Uuid}
use chatd.ChannelOptions
use chatd.Client.{Client, is_agent}
use chatd.Channel.{Channel, has, sendto_agents, sendto_all_butone}
use chatd.Server.{get_channel_ref}
use chatd.World.{World}
use chatd.Commands.Typing.{typing}
use chatd.Session.Say.Hidden.{sends_to, some_member, sendto_lem}

-- That a client types in a channel is sent, if the channel hides its messages or its members, to
-- those members that are agents, and else to all members but the client; to nobody else. It does
-- not matter whether the client is a member.
pub typing-sends_to :
    (me : Client) (k : Uuid) (w : World) (ch : Channel) (u : Uuid)
    → lookup k w.server.channels ≡ some ch
    → w.effects ≡ []
    → sends_to u (typing me k w).effects ≡ (
        if has ChannelOptions.hidden_messages ch || has ChannelOptions.hidden_member_list ch
        then some_member is_agent u ch.members
        else some_member (λ c. not (c.id == me.id)) u ch.members)
unfolding typing get_channel_ref sendto_agents sendto_all_butone
typing-sends_to me k w ch u found silent =
    elim (Bool-cases
      (has ChannelOptions.hidden_messages ch || has ChannelOptions.hidden_member_list ch)) [
        | inl hidden ↦ rw (found, typing, hidden, silent) (sendto_lem is_agent _ u ch.members)
        | inr open_to_all ↦
            rw (found, typing, open_to_all, silent)
              (sendto_lem (λ c. not (c.id == me.id)) _ u ch.members)
      ]
