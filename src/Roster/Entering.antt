-- ===== src/Roster/Entering.antt =====
-- Nobody is put on a channel by someone else.
use chatd.Base.{
  Bool, true, false, ◌≡◌, refl, sym, ◌∙◌, ap, ◌⊎◌, inl, inr, ◌&&◌, ◌||◌, not, none, some, Option,
  ◌==◌, length, if_both, Bool-cases, Option-cases, arith, if◌then◌else◌, ==_iff, unwrap_or,
}
use chatd.Text.{Text}
use chatd.Dict.{lookup}
use chatd.Message.{Uuid, IpAddr, MessageType, nil}
use chatd.ClientOptions
use chatd.Client.{Client, has_options}
use chatd.Config.{Config}
use chatd.Effect.{Env}
use chatd.Server.{Server, channel_name_to_uuid}
use chatd.World.{World, Outcome, world_of}
use chatd.Commands.Join.{join, find_and_join, join_at}
use chatd.Commands.ChannelList.{channel_list}
use chatd.Session.Dispatch.{post_auth}
use chatd.Session.Permission.{may_join_at}
use chatd.Coherence.Run.{typing_server, say_server}
use chatd.Roster.{roster, seat}
use chatd.Roster.Joining.{destination, join_at-seat}
use chatd.Roster.Thinning.{
  IsThinner, same_channels-IsThinner, kick-IsThinner, part-IsThinner, set_channel_modes-IsThinner,
  set_channel_topic-IsThinner, kill-IsThinner, kline-IsThinner,
}

module _ (e : Env) (me : Client) (w : World) (free : lookup e.new_v4 w.server.channels ≡ none) where
  -- Whoever is in a channel of `x` and not of `w` is `me`.
  unfoldable Enters : Outcome → Type 0
  Enters o =
      (j v : Uuid)
      → roster (world_of o).server j v ≡ true
      → (roster w.server j v ≡ true) ⊎ (v ≡ me.id)

  thinner-Enters : (o : Outcome) → IsThinner w (world_of o) → Enters o
  unfolding Enters IsThinner
  thinner-Enters o thin j v h = inl (thin j v h)

  join_at-Enters :
      (name : Text) (key : Option Uuid) → Enters (Outcome.returned (join_at e me name key w))
  unfolding Enters seat
  join_at-Enters name key j v h =
      let at = destination e key w.server in
      let e' : (if may_join_at me name key w.server
            then roster w.server j v || j == at && v == me.id
            else roster w.server j v)
          ≡ true =
        sym (join_at-seat e me name key w j v free) ∙ h in
      elim (Bool-cases (roster w.server j v)) [
        | inl was ↦ inl was
        | inr new ↦ elim (Bool-cases (v == me.id)) [
          | inl mine ↦ inr ((==_iff v me.id).0 mine)
          | inr other ↦ absurd (ground arith)
        ]
      ]

  find_and_join-Enters : (name : Text) (is_uuid : Bool) → Enters (find_and_join e me name is_uuid w)
  unfolding find_and_join
  find_and_join-Enters name false = join_at-Enters name (channel_name_to_uuid e name w.server)
  find_and_join-Enters name true = elim (Option-cases (e.parse_uuid name)) [
    | inl wrong ↦ rw (wrong, find_and_join) (thinner-Enters _ (same_channels-IsThinner w w refl))
    | inr (key, right) ↦ rw (right, find_and_join) (join_at-Enters name (some key))
  ]

  join-Enters : (name : Text) (is_uuid : Bool) → Enters (join e me name is_uuid w)
  unfolding join
  join-Enters name is_uuid =
      if_both Enters
        (not (has_options ClientOptions.admin me)
          && not (has_options ClientOptions.join_channels me))
        _ _ (thinner-Enters _ (same_channels-IsThinner w _ refl))
        (find_and_join-Enters name is_uuid)

  command-Enters :
      (config : Config) (target : Uuid) (type : MessageType)
      → Enters (post_auth e config me target type w)
  unfolding post_auth channel_list
  command-Enters config target (MessageType.set_channel_modes modes) =
      thinner-Enters _ (set_channel_modes-IsThinner me target modes w)
  command-Enters config target (MessageType.topic topic) =
      thinner-Enters _ (set_channel_topic-IsThinner e me target topic config.max_topic_length w)
  command-Enters config target MessageType.channels =
      thinner-Enters _ (same_channels-IsThinner w _ refl)
  command-Enters config target (MessageType.join channel ip) =
      if_both Enters (length channel == 0) _ _ (join-Enters (e.show_uuid target) true)
        (join-Enters channel false)
  command-Enters config target (MessageType.part id channel ip) =
      thinner-Enters _ (part-IsThinner e me channel w)
  command-Enters config target (MessageType.kick channel userid reason) =
      thinner-Enters _ (kick-IsThinner me channel userid reason w)
  command-Enters config target (MessageType.kill userid reason) =
      thinner-Enters _ (kill-IsThinner e me (unwrap_or (e.parse_uuid userid) nil) reason w)
  command-Enters config target (MessageType.kline ip expires_sec reason) =
      thinner-Enters _
        (kline-IsThinner e me (IpAddr.v4 (unwrap_or (e.parse_ipv4 ip) 0)) reason expires_sec w)
  command-Enters config target (MessageType.typing id channel) =
      thinner-Enters _
        (same_channels-IsThinner w _ (ap (λ (s : Server). s.channels) (typing_server me channel w)))
  command-Enters config target (MessageType.message text) = thinner-Enters _ (
      same_channels-IsThinner w _ (ap (λ (s : Server). s.channels) (say_server e me target text w)))
  command-Enters config target type = thinner-Enters _ (same_channels-IsThinner w w refl)

  -- With a free id for a new channel: whoever is a member of a channel after a command of a client
  -- that has logged in was a member of it before, or is the client that gave the command. Nobody
  -- is put on a channel by someone else.
  pub post_auth-enters :
      (config : Config) (target : Uuid) (type : MessageType) (j v : Uuid)
      → roster (world_of (post_auth e config me target type w)).server j v ≡ true
      → (roster w.server j v ≡ true) ⊎ (v ≡ me.id)
  unfolding Enters
  post_auth-enters config target type j v h = command-Enters config target type j v h
