-- ===== src/Session/Discretion/Commands.antt =====
-- commands.rs: kicks, modes, topics, notices of typing and channel lists show no address.
use chatd.Base.{
  ℕ, true, false, ◌≡◌, refl, inl, inr, ◌||◌, not, ◌++◌, ◌==◌, ltb, length, Option-cases, arith,
}
use chatd.Text.{Text}
use chatd.Dict.{lookup}
use chatd.Message.{Uuid, ip_eq, new, sanitize_text_message}
use chatd.ChannelOptions
use chatd.Client.{Client, is_agent}
use chatd.Channel.{
  Channel, Effects, sendto, sendto_agents, sendto_nonagents, sendto_all, sendto_all_butone,
  broadcast_join, broadcast_part, announce, to_log, insert_member, remove_member, has, has_invite,
  is_member,
}
use chatd.Effect.{Env}
use chatd.Server.{get_channel_ref, get_client_ref}
use chatd.World.{World}
use chatd.Commands.Kick.{kick, is_stranger, expel}
use chatd.Commands.Modes.{set_channel_modes, change_modes, announce_modes}
use chatd.Commands.Topic.{set_channel_topic, store_topic}
use chatd.Commands.Typing.{typing}
use chatd.Commands.ChannelList.{channel_list}
use chatd.Session.Discretion.{
  discloses, shows_address, shows_address-append, quiet_sendto, IsQuiet, IsQuiet-refl, if_IsQuiet,
  emit-IsQuiet, send-quiet, refuse-IsQuiet,
}

-- Two groups of frames that show nothing.
pub append-quiet :
    (u : Uuid) (xs ys : Effects)
    → shows_address u xs ≡ false
    → shows_address u ys ≡ false
    → shows_address u (xs ++ ys) ≡ false
append-quiet u xs ys p q = ground (arith, shows_address-append u xs ys)

expel-IsQuiet :
    (k : Uuid) (ch : Channel) (u : Uuid) (t : Client) (reason : Text) (w : World)
    → IsQuiet w (expel k ch u t reason w)
unfolding expel sendto_all discloses ip_eq new
expel-IsQuiet k ch u t reason w =
    emit-IsQuiet _ w _ (λ v. quiet_sendto (λ c. true) _ v ch.members refl) refl

pub kick-IsQuiet :
    (me : Client) (k u : Uuid) (reason : Text) (w : World) → IsQuiet w (kick me k u reason w)
unfolding kick get_channel_ref get_client_ref
kick-IsQuiet me k u reason w = elim (Option-cases (lookup k w.server.channels)) [
  | inl h ↦ rw (h, kick) (refuse-IsQuiet me _ _ _ w)
  | inr (ch, h) ↦
      rw (h, kick)
        (if_IsQuiet w (is_stranger me ch) _ _ (refuse-IsQuiet me _ _ _ w) (
          if_IsQuiet w (not (is_member u ch)) _ _ (refuse-IsQuiet me _ _ _ w)
            (elim (Option-cases (lookup u w.server.clients)) [
              | inl g ↦ rw g (refuse-IsQuiet me _ _ _ w)
              | inr (t, g) ↦ rw g (expel-IsQuiet k ch u t reason w)
            ])))
]

announce_modes-IsQuiet :
    (k : Uuid) (me : Client) (ch : Channel) (w : World) → IsQuiet w (announce_modes k me ch w)
unfolding announce_modes sendto_all discloses ip_eq new
announce_modes-IsQuiet k me ch w =
    emit-IsQuiet _ w _
      (λ u.
        append-quiet u _ _ (quiet_sendto (λ c. true) _ u ch.members refl)
          (quiet_sendto (λ c. true) _ u ch.members refl))
      refl

pub set_channel_modes-IsQuiet :
    (me : Client) (k : Uuid) (modes : ℕ) (w : World) → IsQuiet w (set_channel_modes me k modes w)
unfolding set_channel_modes get_channel_ref
set_channel_modes-IsQuiet me k modes w = elim (Option-cases (lookup k w.server.channels)) [
  | inl h ↦ rw (h, set_channel_modes) (refuse-IsQuiet me _ _ _ w)
  | inr (ch, h) ↦
      rw (h, set_channel_modes)
        (if_IsQuiet w (is_stranger me ch) _ _ (refuse-IsQuiet me _ _ _ w) (
          if_IsQuiet w (ch.options == (change_modes me modes ch).options) _ _ (IsQuiet-refl w)
            (announce_modes-IsQuiet k me (change_modes me modes ch) w)))
]

store_topic-IsQuiet :
    (me : Client) (k : Uuid) (ch : Channel) (topic : Text) (w : World)
    → IsQuiet w (store_topic me k ch topic w)
unfolding store_topic sendto_all discloses ip_eq new chatd.Channel.set_topic
store_topic-IsQuiet me k ch topic w =
    emit-IsQuiet _ w _
      (λ u.
        append-quiet u _ _ (quiet_sendto (λ c. true) _ u ch.members refl)
          (quiet_sendto (λ c. true) _ u ch.members refl))
      refl

pub set_channel_topic-IsQuiet :
    (e : Env) (me : Client) (k : Uuid) (topic : Text) (max_len : ℕ) (w : World)
    → IsQuiet w (set_channel_topic e me k topic max_len w)
unfolding set_channel_topic get_channel_ref
set_channel_topic-IsQuiet e me k topic max_len w =
    elim (Option-cases (lookup k w.server.channels)) [
      | inl h ↦ rw (h, set_channel_topic) (refuse-IsQuiet me _ _ _ w)
      | inr (ch, h) ↦
          rw (h, set_channel_topic)
            (if_IsQuiet w (is_stranger me ch) _ _ (refuse-IsQuiet me _ _ _ w) (
              if_IsQuiet w (ltb max_len (length (sanitize_text_message topic))) _ _
                (refuse-IsQuiet me _ _ _ w)
                (store_topic-IsQuiet me k ch (sanitize_text_message topic) w)))
    ]

pub typing-IsQuiet : (me : Client) (k : Uuid) (w : World) → IsQuiet w (typing me k w)
unfolding typing get_channel_ref sendto_agents sendto_all_butone discloses ip_eq new
typing-IsQuiet me k w = elim (Option-cases (lookup k w.server.channels)) [
  | inl h ↦ rw (h, typing) (IsQuiet-refl w)
  | inr (ch, h) ↦
      rw (h, typing)
        (if_IsQuiet w
          (has ChannelOptions.hidden_messages ch || has ChannelOptions.hidden_member_list ch) _ _
          (emit-IsQuiet _ w _ (λ u. quiet_sendto is_agent _ u ch.members refl) refl)
          (emit-IsQuiet _ w _ (λ u. quiet_sendto (λ c. not (c.id == me.id)) _ u ch.members refl)
            refl))
]

pub channel_list-IsQuiet : (me : Client) (w : World) → IsQuiet w (channel_list me w)
unfolding channel_list discloses ip_eq new
channel_list-IsQuiet me w = emit-IsQuiet _ w _ (λ u. send-quiet me.id _ u refl) refl
