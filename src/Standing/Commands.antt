-- ===== src/Standing/Commands.antt =====
-- The commands of clients that have logged in leave all clients as they stand.
use chatd.Base.{
  ℕ, Bool, true, false, ◌≡◌, refl, none, some, inl, inr, Option, List, [], ◌∷◌, ◌++◌, ◌&&◌, ◌==◌,
  not, ltb, length, Option-cases, Bool-cases, unwrap_or, arith,
}
use chatd.Text.{Text, is_match, is_uuid_v4}
use chatd.Dict.{Dict, lookup}
use chatd.Message.{Uuid, IpAddr, MessageType, nil, sanitize_text_message}
use chatd.ClientOptions
use chatd.ChannelOptions
use chatd.Client.{Client, is_agent, has_options, add_channel, remove_channel}
use chatd.Ban.{Ban, exists}
use chatd.Server.Bans.{exists_kept}
use chatd.Config.{Config}
use chatd.Channel.{Channel, has, has_invite, is_member}
use chatd.Effect.{Env}
use chatd.Server.{
  Server, put_client, put_channel, get_client_ref, get_channel_ref, channel_name_to_uuid, add_ban,
  ban_exists,
}
use chatd.Server
use chatd.World.{World}
use chatd.Commands.Kick.{is_stranger, expel, kick}
use chatd.Commands.Modes.{announce_modes, change_modes, set_channel_modes}
use chatd.Commands.Topic.{store_topic, set_channel_topic}
use chatd.Commands.ChannelList.{channel_list}
use chatd.Commands.Part.{part, leave}
use chatd.Commands.Part.OwnList.{part-keeps_clients}
use chatd.Commands.Join.{admit, join_existing, create, join_new, join_at, find_and_join, join}
use chatd.Commands.Kline.{kill_all, hunt, unwrap_clients, ban_and_hunt, checked_add, kline}
use chatd.Session.Dispatch.{post_auth}
use chatd.Coherence.Run.{typing_server, say_server}
use chatd.Standing.{
  StandsAs, StandsAs-refl, Stays, write-Stays, same_clients-Stays, same_server-Stays, Stays-trans,
  wallops-Stays, if_Stays, LeavesStays, leaves_stays, if_LeavesStays,
}
use chatd.Standing.Leaving.{settle_bans, kill-Stays}

pub add_channel-StandsAs : (k : Uuid) (name : Text) (c : Client) → StandsAs c (add_channel k name c)
unfolding add_channel
add_channel-StandsAs k name c = ground arith

remove_channel-StandsAs : (k : Uuid) (c : Client) → StandsAs c (remove_channel k c)
unfolding remove_channel
remove_channel-StandsAs k c = ground arith

expel-Stays :
    (k : Uuid) (ch : Channel) (u : Uuid) (t : Client) (reason : Text) (w : World)
    → lookup u w.server.clients ≡ some t
    → Stays w (expel k ch u t reason w)
unfolding expel put_channel put_client
expel-Stays k ch u t reason w found =
    write-Stays u t (remove_channel k t) w _ found (remove_channel-StandsAs k t) refl refl

kick-Stays : (me : Client) (k u : Uuid) (reason : Text) (w : World) → Stays w (kick me k u reason w)
unfolding kick get_channel_ref get_client_ref
kick-Stays me k u reason w = elim (Option-cases (lookup k w.server.channels)) [
  | inl h ↦ rw (h, kick) (same_clients-Stays w _ refl refl)
  | inr (ch, h) ↦
      rw (h, kick)
        (if_Stays w (is_stranger me ch) _ _ (same_clients-Stays w _ refl refl) (
          if_Stays w (not (is_member u ch)) _ _ (same_clients-Stays w _ refl refl)
            (elim (Option-cases (lookup u w.server.clients)) [
              | inl g ↦ rw g (same_clients-Stays w _ refl refl)
              | inr (t, g) ↦ rw g (expel-Stays k ch u t reason w g)
            ])))
]

set_channel_modes-Stays :
    (me : Client) (k : Uuid) (modes : ℕ) (w : World) → Stays w (set_channel_modes me k modes w)
unfolding set_channel_modes get_channel_ref announce_modes put_channel
set_channel_modes-Stays me k modes w = elim (Option-cases (lookup k w.server.channels)) [
  | inl h ↦ rw (h, set_channel_modes) (same_clients-Stays w _ refl refl)
  | inr (ch, h) ↦
      rw (h, set_channel_modes)
        (if_Stays w (is_stranger me ch) _ _ (same_clients-Stays w _ refl refl) (
          if_Stays w (ch.options == (change_modes me modes ch).options) _ _
            (same_clients-Stays w _ refl refl) (same_clients-Stays w _ refl refl)))
]

set_channel_topic-Stays :
    (e : Env) (me : Client) (k : Uuid) (topic : Text) (max_len : ℕ) (w : World)
    → Stays w (set_channel_topic e me k topic max_len w)
unfolding set_channel_topic get_channel_ref store_topic put_channel
set_channel_topic-Stays e me k topic max_len w = elim (Option-cases (lookup k w.server.channels)) [
  | inl h ↦ rw (h, set_channel_topic) (same_clients-Stays w _ refl refl)
  | inr (ch, h) ↦
      rw (h, set_channel_topic)
        (if_Stays w (is_stranger me ch) _ _ (same_clients-Stays w _ refl refl) (
          if_Stays w (ltb max_len (length (sanitize_text_message topic))) _ _
            (same_clients-Stays w _ refl refl) (same_clients-Stays w _ refl refl)))
]

leave_bans :
    (e : Env) (me : Client) (k : Uuid) (ch : Channel) (w : World)
    → (leave e me k ch w).server.bans ≡ w.server.bans
unfolding leave
leave_bans e me k ch w = settle_bans k _ _ _ _

ban_added-Stays :
    (w : World) (b : Ban)
    → Stays w (record w { server = record w.server { bans = w.server.bans ++ b ∷ [] } })
unfolding Stays
ban_added-Stays w b = record {
  at = λ u d h. (d, h, StandsAs-refl d);
  bans = λ ip h. exists_kept ip w.server.bans b h;
}

part_bans :
    (e : Env) (me : Client) (k : Uuid) (w : World) → (part e me k w).server.bans ≡ w.server.bans
unfolding part get_channel_ref
part_bans e me k w = elim (Option-cases (lookup k w.server.channels)) [
  | inl h ↦ rw (h, part) (ground arith)
  | inr (ch, h) ↦ rw (h, part) (ground (arith, leave_bans e me k ch w))
]

module _ (e : Env) (me : Client) where
  admit-Stays :
      (k : Uuid) (ch : Channel) (w : World)
      → lookup me.id w.server.clients ≡ some me
      → Stays w (admit e me k ch w)
  unfolding admit put_channel put_client
  admit-Stays k ch w found =
      write-Stays me.id me (add_channel ch.id ch.name me) w _ found
        (add_channel-StandsAs ch.id ch.name me) refl refl

  join_existing-Stays :
      (k : Uuid) (ch : Channel) (w : World)
      → lookup me.id w.server.clients ≡ some me
      → Stays w (join_existing e me k ch w)
  unfolding join_existing
  join_existing-Stays k ch w found =
      if_Stays w (is_member me.id ch) _ _ (same_clients-Stays w _ refl refl) (
        if_Stays w (has ChannelOptions.agent_only ch && not (is_agent me)) _ _
          (same_clients-Stays w _ refl refl)
          (if_Stays w
            (has ChannelOptions.invite_only ch
              && not (has_options ClientOptions.admin me)
              && not (has_invite ch me.id))
            _ _ (same_clients-Stays w _ refl refl) (admit-Stays k ch w found)))

  create-Stays :
      (name : Text) (w : World)
      → lookup me.id w.server.clients ≡ some me
      → Stays w (create e me name w)
  unfolding create Server.add_channel put_channel put_client
  create-Stays name w found =
      write-Stays me.id me _ w _ found (add_channel-StandsAs _ _ me) refl refl

  join_new-Stays :
      (name : Text) (w : World)
      → lookup me.id w.server.clients ≡ some me
      → Stays w (join_new e me name w)
  unfolding join_new
  join_new-Stays name w found =
      if_Stays w (not (has_options ClientOptions.create_channels me) && not (is_agent me)) _ _
        (same_clients-Stays w _ refl refl)
        (if_Stays w (is_uuid_v4 name) _ _ (same_clients-Stays w _ refl refl) (
          if_Stays w (not (is_match 3 50 name)) _ _ (same_clients-Stays w _ refl refl)
            (create-Stays name w found)))

  join_at-Stays :
      (name : Text) (key : Option Uuid) (w : World)
      → lookup me.id w.server.clients ≡ some me
      → Stays w (join_at e me name key w)
  unfolding get_channel_ref
  join_at-Stays name none w found = join_new-Stays name w found
  join_at-Stays name (some k) w found = elim (Option-cases (lookup k w.server.channels)) [
    | inl h ↦ rw (h, join_at) (join_new-Stays name w found)
    | inr (ch, h) ↦ rw (h, join_at) (join_existing-Stays k ch w found)
  ]

  find_and_join-LeavesStays :
      (name : Text) (is_uuid : Bool) (w : World)
      → lookup me.id w.server.clients ≡ some me
      → LeavesStays w (find_and_join e me name is_uuid w)
  unfolding find_and_join
  find_and_join-LeavesStays name true w found = elim (Option-cases (e.parse_uuid name)) [
    | inl h ↦ rw (h, find_and_join) (leaves_stays w _ (same_clients-Stays w w refl refl))
    | inr (k, h) ↦ rw (h, find_and_join) (leaves_stays w _ (join_at-Stays name (some k) w found))
  ]
  find_and_join-LeavesStays name false w found =
      leaves_stays w _ (join_at-Stays name (channel_name_to_uuid e name w.server) w found)

  join-LeavesStays :
      (name : Text) (is_uuid : Bool) (w : World)
      → lookup me.id w.server.clients ≡ some me
      → LeavesStays w (join e me name is_uuid w)
  unfolding join
  join-LeavesStays name is_uuid w found =
      if_LeavesStays w
        (not (has_options ClientOptions.admin me)
          && not (has_options ClientOptions.join_channels me))
        _ _ (leaves_stays w _ (same_clients-Stays w _ refl refl))
        (find_and_join-LeavesStays name is_uuid w found)

  pub kill_all-Stays :
      (us : List Uuid) (reason : Text) (w : World) → Stays w (kill_all e me us reason w)
  unfolding kill_all
  kill_all-Stays [] reason w = same_clients-Stays w w refl refl
  kill_all-Stays (u ∷ us) reason w =
      Stays-trans _ _ _ (kill-Stays e me u reason w) (kill_all-Stays us reason _)

  hunt-Stays : (target : IpAddr) (reason : Text) (w : World) → Stays w (hunt e me target reason w)
  unfolding hunt
  hunt-Stays target reason w =
      Stays-trans _ _ _ (Stays-trans _ _ _ (wallops-Stays e _ w) (kill_all-Stays _ _ _))
        (same_clients-Stays _ _ refl refl)

  unwrap_clients-LeavesStays :
      (before : World) (target : IpAddr) (reason : Text) (w : World) (cs : Dict Client)
      → w.server.clients ≡ cs
      → Stays before w
      → LeavesStays before (unwrap_clients e me target reason w)
  unfolding unwrap_clients
  unwrap_clients-LeavesStays before target reason w [] h p =
      rw (h, unwrap_clients) (leaves_stays before _ p)
  unwrap_clients-LeavesStays before target reason w (c ∷ cs) h p =
      rw (h, unwrap_clients)
        (leaves_stays before _ (Stays-trans _ _ _ p (hunt-Stays target reason w)))

  ban_and_hunt-LeavesStays :
      (target : IpAddr) (reason : Text) (expires : ℕ) (w : World)
      → LeavesStays w (ban_and_hunt e me target reason expires w)
  unfolding ban_and_hunt add_ban
  ban_and_hunt-LeavesStays target reason expires w =
      elim (Bool-cases (exists w.server.bans target)) [
        | inl h ↦ rw (h, ban_and_hunt) (leaves_stays w _ (same_clients-Stays w _ refl refl))
        | inr h ↦
            rw (h, ban_and_hunt)
              (unwrap_clients-LeavesStays w target reason _ w.server.clients refl
                (ban_added-Stays w _))
      ]

  kline-LeavesStays :
      (target : IpAddr) (reason : Text) (expires_sec : ℕ) (w : World)
      → LeavesStays w (kline e me target reason expires_sec w)
  unfolding kline
  kline-LeavesStays target reason expires_sec w =
      if_LeavesStays w (not (is_agent me)) _ _ (leaves_stays w _ (same_clients-Stays w _ refl refl))
        (if_LeavesStays w (ban_exists target w.server) _ _
          (leaves_stays w _ (same_clients-Stays w _ refl refl))
          (elim (Option-cases (checked_add e.now expires_sec)) [
            | inl h ↦ rw h (leaves_stays w _ (same_clients-Stays w _ refl refl))
            | inr (t, h) ↦ rw h (ban_and_hunt-LeavesStays target reason t w)
          ]))

-- Whatever a client that has logged in sends, no client comes to the server, and none that is left
-- has another id, name, type, set of permissions or address.
pub post_auth-LeavesStays :
    (e : Env) (config : Config) (me : Client) (target : Uuid) (type : MessageType) (w : World)
    → lookup me.id w.server.clients ≡ some me
    → LeavesStays w (post_auth e config me target type w)
unfolding post_auth channel_list
post_auth-LeavesStays e config me target (MessageType.set_channel_modes modes) w found =
    leaves_stays w _ (set_channel_modes-Stays me target modes w)
post_auth-LeavesStays e config me target (MessageType.topic topic) w found =
    leaves_stays w _ (set_channel_topic-Stays e me target topic config.max_topic_length w)
post_auth-LeavesStays e config me target MessageType.channels w found =
    leaves_stays w _ (same_clients-Stays w _ refl refl)
post_auth-LeavesStays e config me target (MessageType.join channel ip) w found =
    if_LeavesStays w (length channel == 0) _ _
      (join-LeavesStays e me (e.show_uuid target) true w found)
      (join-LeavesStays e me channel false w found)
post_auth-LeavesStays e config me target (MessageType.part id channel ip) w found =
    leaves_stays w _
      (same_clients-Stays w _ (part-keeps_clients e me channel w) (part_bans e me channel w))
post_auth-LeavesStays e config me target (MessageType.kick channel userid reason) w found =
    leaves_stays w _ (kick-Stays me channel userid reason w)
post_auth-LeavesStays e config me target (MessageType.kill userid reason) w found =
    leaves_stays w _ (kill-Stays e me (unwrap_or (e.parse_uuid userid) nil) reason w)
post_auth-LeavesStays e config me target (MessageType.kline ip expires_sec reason) w found =
    kline-LeavesStays e me (IpAddr.v4 (unwrap_or (e.parse_ipv4 ip) 0)) reason expires_sec w
post_auth-LeavesStays e config me target (MessageType.typing id channel) w found =
    leaves_stays w _ (same_server-Stays w _ (typing_server me channel w))
post_auth-LeavesStays e config me target (MessageType.message text) w found =
    leaves_stays w _ (same_server-Stays w _ (say_server e me target text w))
post_auth-LeavesStays e config me target _ w found =
    leaves_stays w _ (same_clients-Stays w w refl refl)
