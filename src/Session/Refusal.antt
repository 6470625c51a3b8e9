-- ===== src/Session/Refusal.antt =====
-- What becomes of a command that is not permitted.
use chatd.Base.{
  ℕ, Bool, true, false, ◌≡◌, refl, ◌&&◌, ◌||◌, not, none, some, inl, inr, Option, [], ◌∷◌, ◌++◌,
  ◌==◌, ltb, length, if_known, Bool-cases, Option-cases, arith, unwrap_or, if◌then◌else◌,
}
use chatd.Text.{Text, is_uuid_v4, is_match}
use chatd.Dict.{lookup}
use chatd.Message.{Uuid, IpAddr, MessageType, ProblemCode, nil, new_problem, sanitize_text_message}
use chatd.ClientOptions
use chatd.ChannelOptions
use chatd.Client.{Client, is_agent, has_options}
use chatd.Channel.{Channel, is_member, has, has_invite}
use chatd.Config.{Config}
use chatd.Effect.{Effect, Frame, Env}
use chatd.Server.{get_channel_ref, get_client_ref, ban_exists, channel_name_to_uuid}
use chatd.World.{World, Outcome, world_of, refuse}
use chatd.Commands.Kick.{kick, is_stranger}
use chatd.Commands.Kill.{kill}
use chatd.Commands.Kline.{kline}
use chatd.Commands.Modes.{set_channel_modes}
use chatd.Commands.Topic.{set_channel_topic}
use chatd.Commands.Part.{part}
use chatd.Commands.Join.{join, find_and_join, join_at, join_existing, join_new}
use chatd.Session.Dispatch.{post_auth}
use chatd.Session.Permission.{
  manages, may_kick, may_set_modes, may_set_topic, may_part, may_kill, may_kline, may_create,
  may_enter, may_join_at, may_join, permits,
}

-- The state stays, and one problem is sent to the client that gave the command.
unfoldable pub IsRefusal : Client → World → World → Type 0
IsRefusal me w x =
    (x.server ≡ w.server)
    × ((code : ProblemCode) × (target : Option Uuid) × (text : Text) × (x.effects
          ≡ w.effects ++ Effect.send me.id (Frame.cmessage (new_problem code target text)) ∷ []))

refuse-IsRefusal :
    (me : Client) (code : ProblemCode) (target : Option Uuid) (text : Text) (w : World)
    → IsRefusal me w (refuse me.id code target text w)
unfolding IsRefusal
refuse-IsRefusal me code target text w = (refl, (code, target, text, refl))

module _ (me : Client) (w : World) where
  -- The guard of a handler whose first branch refuses.
  if_refuses :
      (b : Bool) (x y : World)
      → IsRefusal me w x
      → (b ≡ false → IsRefusal me w y)
      → IsRefusal me w (if b then x else y)
  if_refuses b x y p q = if_known (IsRefusal me w) b x y (λ h. p) q

  -- To refuse, and to have nothing to refuse.
  refused :
      (code : ProblemCode) (target : Option Uuid) (text : Text)
      → IsRefusal me w (refuse me.id code target text w)
  refused code target text = refuse-IsRefusal me code target text w

  pub kick-refuses :
      (channel user : Uuid) (reason : Text)
      → may_kick me channel user w.server ≡ false
      → IsRefusal me w (kick me channel user reason w)
  unfolding kick get_channel_ref get_client_ref may_kick is_stranger manages
  kick-refuses channel user reason h = elim (Option-cases (lookup channel w.server.channels)) [
    | inl gone ↦ rw (gone, kick) (refused _ _ _)
    | inr (ch, found) ↦ elim (Option-cases (lookup user w.server.clients)) [
      | inl lost ↦
          rw (found, kick)
            (if_refuses (is_stranger me ch) _ _ (refused _ _ _) (λ stranger.
              if_refuses (not (is_member user ch)) _ _ (refused _ _ _)
                (λ member. rw lost (refused _ _ _))))
      | inr (c, there) ↦
          rw (found, kick)
            (if_refuses (is_stranger me ch) _ _ (refused _ _ _) (λ stranger.
              if_refuses (not (is_member user ch)) _ _ (refused _ _ _) (λ member.
                let permitted : (manages me ch && is_member user ch && true) ≡ false =
                  rw (may_kick, found, there) at h in
                absurd (ground arith))))
    ]
  ]

  modes-refuse :
      (channel : Uuid) (modes : ℕ)
      → may_set_modes me channel w.server ≡ false
      → IsRefusal me w (set_channel_modes me channel modes w)
  unfolding set_channel_modes get_channel_ref may_set_modes is_stranger manages
  modes-refuse channel modes h = elim (Option-cases (lookup channel w.server.channels)) [
    | inl gone ↦ rw (gone, set_channel_modes) (refused _ _ _)
    | inr (ch, found) ↦
        let permitted : manages me ch ≡ false = rw (may_set_modes, found) at h in
        rw (found, set_channel_modes)
          (if_refuses (is_stranger me ch) _ _ (refused _ _ _) (λ stranger. absurd (ground arith)))
  ]

  topic-refuses :
      (e : Env) (channel : Uuid) (topic : Text) (max_len : ℕ)
      → may_set_topic me channel topic max_len w.server ≡ false
      → IsRefusal me w (set_channel_topic e me channel topic max_len w)
  unfolding set_channel_topic get_channel_ref may_set_topic is_stranger manages
  topic-refuses e channel topic max_len h = elim (Option-cases (lookup channel w.server.channels)) [
    | inl gone ↦ rw (gone, set_channel_topic) (refused _ _ _)
    | inr (ch, found) ↦
        let long = ltb max_len (length (sanitize_text_message topic)) in
        let permitted : (manages me ch && not long) ≡ false = rw (may_set_topic, found) at h in
        rw (found, set_channel_topic)
          (if_refuses (is_stranger me ch) _ _ (refused _ _ _)
            (λ stranger. if_refuses long _ _ (refused _ _ _) (λ short. absurd (ground arith))))
  ]

  pub part-refuses :
      (e : Env) (channel : Uuid)
      → may_part me channel w.server ≡ false
      → IsRefusal me w (part e me channel w)
  unfolding part get_channel_ref may_part
  part-refuses e channel h =
      let admin = has_options ClientOptions.admin me in
      if_refuses (not admin && not (has_options ClientOptions.part_channels me)) _ _ (refused _ _ _)
        (λ unable. elim (Option-cases (lookup channel w.server.channels)) [
          | inl gone ↦ rw gone (refused _ _ _)
          | inr (ch, found) ↦
              let held = has ChannelOptions.can_not_leave ch in
              let permitted : ((admin || has_options ClientOptions.part_channels me)
                    && is_member me.id ch
                    && (not held || is_agent me && admin))
                  ≡ false =
                rw (may_part, found) at h in
              rw found (
                if_refuses (not (is_member me.id ch)) _ _ (refused _ _ _) (λ member.
                  if_refuses (held && (not (is_agent me) || not admin)) _ _ (refused _ _ _)
                    (λ free. absurd (ground arith))))
        ])

  kill-refuses :
      (e : Env) (target : Uuid) (reason : Text)
      → may_kill me target reason w.server ≡ false
      → IsRefusal me w (kill e me target reason w)
  unfolding kill get_client_ref may_kill
  kill-refuses e target reason h = if_refuses (not (is_agent me)) _ _ (refused _ _ _) (λ agent.
      elim (Option-cases (lookup target w.server.clients)) [
        | inl gone ↦ rw gone (refused _ _ _)
        | inr (t, found) ↦
            let admin = has_options ClientOptions.admin t in
            let long = ltb 255 (length (sanitize_text_message reason)) in
            let permitted : (is_agent me && not admin && not long) ≡ false =
              rw (may_kill, found) at h in
            rw found (
              if_refuses admin _ _ (refused _ _ _)
                (λ mortal. if_refuses long _ _ (refused _ _ _) (λ short. absurd (ground arith))))
      ])

  pub join_new-refuses :
      (e : Env) (name : Text) → may_create me name ≡ false → IsRefusal me w (join_new e me name w)
  unfolding join_new may_create
  join_new-refuses e name h =
      let creates = has_options ClientOptions.create_channels me in
      if_refuses (not creates && not (is_agent me)) _ _ (refused _ _ _) (λ able.
        if_refuses (is_uuid_v4 name) _ _ (refused _ _ _) (λ other.
          if_refuses (not (is_match 3 50 name)) _ _ (refused _ _ _)
            (λ good. absurd (ground arith))))

  pub join_existing-refuses :
      (e : Env) (key : Uuid) (ch : Channel)
      → may_enter me ch ≡ false
      → IsRefusal me w (join_existing e me key ch w)
  unfolding join_existing may_enter
  join_existing-refuses e key ch h =
      let admin = has_options ClientOptions.admin me in
      let closed = has ChannelOptions.invite_only ch in
      if_refuses (is_member me.id ch) _ _ (refused _ _ _) (λ new.
        if_refuses (has ChannelOptions.agent_only ch && not (is_agent me)) _ _ (refused _ _ _)
          (λ fit.
            if_refuses (closed && not admin && not (has_invite ch me.id)) _ _ (refused _ _ _)
              (λ invited. absurd (ground arith))))

  pub join_at-refuses :
      (e : Env) (name : Text) (key : Option Uuid)
      → may_join_at me name key w.server ≡ false
      → IsRefusal me w (join_at e me name key w)
  unfolding get_channel_ref may_join_at
  join_at-refuses e name none h = join_new-refuses e name h
  join_at-refuses e name (some key) h = elim (Option-cases (lookup key w.server.channels)) [
    | inl gone ↦ rw (gone, join_at) (join_new-refuses e name (rw (may_join_at, gone) at h))
    | inr (ch, found) ↦
        rw (found, join_at) (join_existing-refuses e key ch (rw (may_join_at, found) at h))
  ]

  LeavesRefusal : Outcome → Type 0
  LeavesRefusal o = IsRefusal me w (world_of o)

  find_and_join-refuses :
      (e : Env) (name : Text) (is_uuid : Bool)
      → (if is_uuid
          then elim (e.parse_uuid name) [
            | none ↦ true
            | some key ↦ may_join_at me name (some key) w.server
          ]
          else may_join_at me name (channel_name_to_uuid e name w.server) w.server)
        ≡ false
      → LeavesRefusal (find_and_join e me name is_uuid w)
  unfolding LeavesRefusal find_and_join
  find_and_join-refuses e name false h =
      join_at-refuses e name (channel_name_to_uuid e name w.server) h
  find_and_join-refuses e name true h = elim (Option-cases (e.parse_uuid name)) [
    | inl wrong ↦ absurd (cc (rw wrong at h))
    | inr (key, right) ↦
        rw (right, find_and_join) (join_at-refuses e name (some key) (rw right at h))
  ]

  join-refuses :
      (e : Env) (name : Text) (is_uuid : Bool)
      → may_join e me name is_uuid w.server ≡ false
      → LeavesRefusal (join e me name is_uuid w)
  unfolding LeavesRefusal join may_join
  join-refuses e name is_uuid h =
      let admin = has_options ClientOptions.admin me in
      let joins = has_options ClientOptions.join_channels me in
      if_known LeavesRefusal (not admin && not joins) _ _ (λ unable. refused _ _ _)
        (λ able. find_and_join-refuses e name is_uuid (ground arith))

  kline-refuses :
      (e : Env) (target : IpAddr) (reason : Text) (expires_sec : ℕ)
      → may_kline me target w.server ≡ false
      → LeavesRefusal (kline e me target reason expires_sec w)
  unfolding LeavesRefusal kline may_kline
  kline-refuses e target reason expires_sec h =
      if_known LeavesRefusal (not (is_agent me)) _ _ (λ plain. refused _ _ _)
        (λ agent.
          if_known LeavesRefusal (ban_exists target w.server) _ _ (λ banned. refused _ _ _)
            (λ free. absurd (ground arith)))

-- A command that is not permitted leaves the state of the server as it was, and its only effect is
-- that one problem is sent to the client that gave it.
pub post_auth-refuses :
    (e : Env) (config : Config) (me : Client) (target : Uuid) (type : MessageType) (w : World)
    → permits e config me target type w.server ≡ false
    → IsRefusal me w (world_of (post_auth e config me target type w))
unfolding permits post_auth LeavesRefusal
post_auth-refuses e config me target (MessageType.set_channel_modes modes) w h =
    modes-refuse me w target modes h
post_auth-refuses e config me target (MessageType.topic topic) w h =
    topic-refuses me w e target topic config.max_topic_length h
post_auth-refuses e config me target (MessageType.join channel ip) w h =
    elim (Bool-cases (length channel == 0)) [
      | inl empty ↦
          rw (empty, post_auth)
            (join-refuses me w e (e.show_uuid target) true (rw (empty, permits) at h))
      | inr named ↦
          rw (named, post_auth) (join-refuses me w e channel false (rw (named, permits) at h))
    ]
post_auth-refuses e config me target (MessageType.part id channel ip) w h =
    part-refuses me w e channel h
post_auth-refuses e config me target (MessageType.kick channel userid reason) w h =
    kick-refuses me w channel userid reason h
post_auth-refuses e config me target (MessageType.kill userid reason) w h =
    kill-refuses me w e (unwrap_or (e.parse_uuid userid) nil) reason h
post_auth-refuses e config me target (MessageType.kline ip expires_sec reason) w h =
    kline-refuses me w e (IpAddr.v4 (unwrap_or (e.parse_ipv4 ip) 0)) reason expires_sec h
post_auth-refuses e config me target type w h = absurd (cc h)
