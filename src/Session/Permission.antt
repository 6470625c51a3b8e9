-- ===== src/Session/Permission.antt =====
-- Which commands the server permits a client that has logged in. This is what the guards of the
-- handlers come to, stated without them.
use chatd.Base.{
  ℕ, Bool, true, false, ◌&&◌, ◌||◌, not, none, some, Option, ◌==◌, ltb, length, is_some, unwrap_or,
  if◌then◌else◌,
}
use chatd.Text.{Text, is_uuid_v4, is_match}
use chatd.Dict.{lookup}
use chatd.Message.{Uuid, IpAddr, MessageType, nil, sanitize_text_message}
use chatd.ClientOptions
use chatd.ChannelOptions
use chatd.Client.{Client, is_agent, has_options}
use chatd.Channel.{Channel, owner_or_nil, is_member, has, has_invite}
use chatd.Config.{Config}
use chatd.Effect.{Env}
use chatd.Server.{Server, ban_exists, channel_name_to_uuid}

-- Agents manage every channel, others those that they own.
unfoldable pub manages : Client → Channel → Bool
manages me ch = is_agent me || owner_or_nil ch == me.id

unfoldable pub may_kick : Client → Uuid → Uuid → Server → Bool
may_kick me channel user s = elim (lookup channel s.channels) [
  | none ↦ false
  | some ch ↦ manages me ch && is_member user ch && is_some (lookup user s.clients)
]

unfoldable pub may_set_modes : Client → Uuid → Server → Bool
may_set_modes me channel s = elim (lookup channel s.channels) [
  | none ↦ false
  | some ch ↦ manages me ch
]

unfoldable pub may_set_topic : Client → Uuid → Text → ℕ → Server → Bool
may_set_topic me channel topic max_len s = elim (lookup channel s.channels) [
  | none ↦ false
  | some ch ↦ manages me ch && not (ltb max_len (length (sanitize_text_message topic)))
]

unfoldable pub may_part : Client → Uuid → Server → Bool
may_part me channel s = elim (lookup channel s.channels) [
  | none ↦ false
  | some ch ↦
      (has_options ClientOptions.admin me || has_options ClientOptions.part_channels me)
      && is_member me.id ch
      && (not (has ChannelOptions.can_not_leave ch)
          || is_agent me && has_options ClientOptions.admin me)
]

unfoldable pub may_kill : Client → Uuid → Text → Server → Bool
may_kill me target reason s = elim (lookup target s.clients) [
  | none ↦ false
  | some t ↦
      is_agent me
      && not (has_options ClientOptions.admin t)
      && not (ltb 255 (length (sanitize_text_message reason)))
]

unfoldable pub may_kline : Client → IpAddr → Server → Bool
may_kline me target s = is_agent me && not (ban_exists target s)

unfoldable pub may_create : Client → Text → Bool
may_create me name =
    (has_options ClientOptions.create_channels me || is_agent me)
    && not (is_uuid_v4 name)
    && is_match 3 50 name

unfoldable pub may_enter : Client → Channel → Bool
may_enter me ch =
    not (is_member me.id ch)
    && (not (has ChannelOptions.agent_only ch) || is_agent me)
    && (not (has ChannelOptions.invite_only ch)
        || has_options ClientOptions.admin me
        || has_invite ch me.id)

unfoldable pub may_join_at : Client → Text → Option Uuid → Server → Bool
may_join_at me name none s = may_create me name
may_join_at me name (some key) s = elim (lookup key s.channels) [
  | none ↦ may_create me name
  | some ch ↦ may_enter me ch
]

-- A text that is to be a `Uuid` and is none is not refused: the task panics.
unfoldable pub may_join : Env → Client → Text → Bool → Server → Bool
may_join e me name is_uuid s =
    (has_options ClientOptions.admin me || has_options ClientOptions.join_channels me)
    && (if is_uuid
        then elim (e.parse_uuid name) [ none ↦ true | some key ↦ may_join_at me name (some key) s ]
        else may_join_at me name (channel_name_to_uuid e name s) s)

-- The commands that are never refused are permitted.
unfoldable pub permits : Env → Config → Client → Uuid → MessageType → Server → Bool
permits e config me target (MessageType.set_channel_modes modes) s = may_set_modes me target s
permits e config me target (MessageType.topic topic) s =
    may_set_topic me target topic config.max_topic_length s
permits e config me target (MessageType.join channel ip) s =
    if length channel == 0
    then may_join e me (e.show_uuid target) true s
    else may_join e me channel false s
permits e config me target (MessageType.part id channel ip) s = may_part me channel s
permits e config me target (MessageType.kick channel userid reason) s = may_kick me channel userid s
permits e config me target (MessageType.kill userid reason) s =
    may_kill me (unwrap_or (e.parse_uuid userid) nil) reason s
permits e config me target (MessageType.kline ip expires_sec reason) s =
    may_kline me (IpAddr.v4 (unwrap_or (e.parse_ipv4 ip) 0)) s
permits e config me target _ s = true
