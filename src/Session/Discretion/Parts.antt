-- ===== src/Session/Discretion/Parts.antt =====
-- commands.rs: who is shown an address by a part, and with it by any command.
use chatd.Base.{
  true, false, ◌≡◌, refl, inl, inr, ◌&&◌, ◌⊎◌, ◌||◌, not, none, some, ◌==◌, length, if_both,
  Option-cases, unwrap_or,
}
use chatd.Dict.{lookup}
use chatd.Message.{ip_eq, Uuid, IpAddr, unspecified, MessageType, nil, new}
use chatd.ClientOptions
use chatd.ChannelOptions
use chatd.Client.{Client, is_agent, has_options}
use chatd.Channel.{Channel, broadcast_part, remove_member, has, is_member}
use chatd.Config.{Config}
use chatd.Effect.{Env}
use chatd.Server.{get_channel_ref}
use chatd.World.{World, Outcome, world_of, emit, refuse, settle, log_line, wallops, for_channels}
use chatd.Session.Discretion.{
  IsQuiet, agent_in-erase, discloses, shows_address, agent_in, log_line-quiet, IsQuiet-refl,
  emit-IsQuiet, send-quiet, settle-IsQuiet,
}
use chatd.Commands.Part.{part, leave}
use chatd.Session.Dispatch.{post_auth}
use chatd.Session.Discretion.{broadcast_part-shows}
use chatd.Session.Discretion.Commands.{
  kick-IsQuiet, set_channel_modes-IsQuiet, set_channel_topic-IsQuiet, typing-IsQuiet,
  channel_list-IsQuiet,
}
use chatd.Session.Discretion.Kills.{say-IsQuiet}
use chatd.Session.Discretion.Wallops.{IsCovert, kill-IsCovert, kline-IsCovert}
use chatd.Session.Discretion.Joins.{
  HasAgent, IsDiscreet, LeavesDiscreet, quiet-IsDiscreet, refuse-IsDiscreet, if_IsDiscreet,
  emit-IsDiscreet, IsDiscreet-quiet, quiet-then-IsDiscreet, join-LeavesDiscreet,
}

leave-IsDiscreet :
    (e : Env) (me : Client) (k : Uuid) (ch : Channel) (w : World)
    → lookup k w.server.channels ≡ some ch
    → IsDiscreet w (leave e me k ch w)
unfolding leave discloses ip_eq new remove_member
leave-IsDiscreet e me k ch w found =
    let rest = remove_member me.id ch in
    let told = chatd.World.send me.id (new (MessageType.part me.id k unspecified) me.id k none) w in
    quiet-then-IsDiscreet w told _ refl
      (emit-IsQuiet _ w told (λ u. send-quiet me.id _ u refl) refl)
      (IsDiscreet-quiet told (emit (broadcast_part me.id me.name me.ip rest) told) _
        (emit-IsDiscreet k ch (broadcast_part me.id me.name me.ip rest) told _ found
          (λ u h.
            agent_in-erase u me.id ch.members (broadcast_part-shows me.id me.name me.ip rest u h))
          refl)
        (settle-IsQuiet k rest _ _ _ (λ u. log_line-quiet ch.id _ rest u)
          (λ u. log_line-quiet ch.id _ rest u)))

part-IsDiscreet : (e : Env) (me : Client) (k : Uuid) (w : World) → IsDiscreet w (part e me k w)
unfolding part get_channel_ref
part-IsDiscreet e me k w =
    if_IsDiscreet w
      (not (has_options ClientOptions.admin me) && not (has_options ClientOptions.part_channels me))
      _ _ (refuse-IsDiscreet me _ _ _ w)
      (elim (Option-cases (lookup k w.server.channels)) [
        | inl h ↦ rw h (refuse-IsDiscreet me _ _ _ w)
        | inr (ch, h) ↦ rw h (
            if_IsDiscreet w (not (is_member me.id ch)) _ _ (refuse-IsDiscreet me _ _ _ w) (
              if_IsDiscreet w
                (has ChannelOptions.can_not_leave ch
                  && (not (is_agent me) || not (has_options ClientOptions.admin me)))
                _ _ (refuse-IsDiscreet me _ _ _ w) (leave-IsDiscreet e me k ch w h)))
      ])

-- Who gets to see addresses: the agents of the channels, and those on the server.
abbrev pub Hears : Uuid → World → Type 0
Hears u w = HasAgent u w ⊎ (agent_in u w.server.clients ≡ true)

unfoldable pub LeavesHeard : World → Outcome → Type 0
LeavesHeard w o =
    (u : Uuid)
    → shows_address u (world_of o).effects ≡ true
    → (shows_address u w.effects ≡ true) ⊎ Hears u w

-- What is shown to the agents of a channel.
in_channel : (w : World) (o : Outcome) → IsDiscreet w (world_of o) → LeavesHeard w o
unfolding LeavesHeard IsDiscreet
in_channel w o p u h = elim (p u h) [ inl before ↦ inl before | inr agent ↦ inr (inl agent) ]

-- What is shown to nobody.
unseen : (w : World) (o : Outcome) → IsQuiet w (world_of o) → LeavesHeard w o
unseen w o quiet = in_channel w o (quiet-IsDiscreet w (world_of o) quiet)

-- What is shown to the agents on the server.
on_server : (w : World) (o : Outcome) → IsCovert w (world_of o) → LeavesHeard w o
unfolding LeavesHeard IsCovert
on_server w o p u h = elim (p.0 u h) [ inl before ↦ inl before | inr agent ↦ inr (inr agent) ]

command-LeavesHeard :
    (e : Env) (config : Config) (me : Client) (target : Uuid) (type : MessageType) (w : World)
    → LeavesHeard w (post_auth e config me target type w)
unfolding post_auth LeavesDiscreet
command-LeavesHeard e config me target (MessageType.set_channel_modes modes) w =
    unseen w _ (set_channel_modes-IsQuiet me target modes w)
command-LeavesHeard e config me target (MessageType.topic topic) w =
    unseen w _ (set_channel_topic-IsQuiet e me target topic config.max_topic_length w)
command-LeavesHeard e config me target MessageType.channels w =
    unseen w _ (channel_list-IsQuiet me w)
command-LeavesHeard e config me target (MessageType.join channel ip) w =
    if_both (LeavesHeard w) (length channel == 0) _ _
      (in_channel w _ (join-LeavesDiscreet e me (e.show_uuid target) true w))
      (in_channel w _ (join-LeavesDiscreet e me channel false w))
command-LeavesHeard e config me target (MessageType.part id channel ip) w =
    in_channel w _ (part-IsDiscreet e me channel w)
command-LeavesHeard e config me target (MessageType.kick channel userid reason) w =
    unseen w _ (kick-IsQuiet me channel userid reason w)
command-LeavesHeard e config me target (MessageType.kill userid reason) w =
    on_server w _ (kill-IsCovert e me (unwrap_or (e.parse_uuid userid) nil) reason w)
command-LeavesHeard e config me target (MessageType.kline ip expires_sec reason) w =
    on_server w _
      (kline-IsCovert e me (IpAddr.v4 (unwrap_or (e.parse_ipv4 ip) 0)) reason expires_sec w)
command-LeavesHeard e config me target (MessageType.typing id channel) w =
    unseen w _ (typing-IsQuiet me channel w)
command-LeavesHeard e config me target (MessageType.message text) w =
    unseen w _ (say-IsQuiet e me target text w)
command-LeavesHeard e config me target type w = unseen w _ (IsQuiet-refl w)

-- If a command of a client that has logged in sends someone who was sent none before a `Join` or a
-- `Part` with an address other than 0.0.0.0, or a `Wallop`, then that is an agent, among the
-- members of a channel or among the clients of the server, as they were before the command.
pub post_auth-shows_address :
    (e : Env) (config : Config) (me : Client) (target : Uuid) (type : MessageType) (w : World)
    (u : Uuid)
    → shows_address u w.effects ≡ false
    → shows_address u (world_of (post_auth e config me target type w)).effects ≡ true
    → HasAgent u w ⊎ (agent_in u w.server.clients ≡ true)
unfolding LeavesHeard
post_auth-shows_address e config me target type w u silent shown =
    elim (command-LeavesHeard e config me target type w u shown) [
      | inl before ↦ absurd (cc (silent, before))
      | inr agent ↦ agent
    ]
