-- ===== src/Coherence/Run.antt =====
-- Every step of the server keeps the invariant, so it holds in all states that it reaches.
use chatd.Base.{
  Bool, true, false, ◌≡◌, refl, sym, none, some, inl, inr, List, [], ◌∷◌, ◌==◌, if_both,
  Option-cases, Bool-cases, length, unwrap_or,
}
use mathlib.Core.Path.{subst}
use chatd.Text.{Text}
use chatd.Dict.{lookup, contains, lookup-insert_self}
use chatd.Message.{Uuid, IpAddr, Message, MessageType, nil}
use chatd.Client.{Client, ClientStatus, is_pending, set_status}
use chatd.Client
use chatd.Channel.{Channel, set_topic, set_options}
use chatd.Channel
use chatd.Ban.{Ban}
use chatd.Config.{Config}
use chatd.Effect.{Env}
use chatd.Server.{
  Server, put_client, put_channel, add_client, add_channel, get_client_ref, get_channel_ref,
  ban_exists, create_default_channels, global_lobby, staff_lobby, guest_lobby, add_lobby,
}
use chatd.Server
use chatd.World.{World, Outcome, modify}
use chatd.Commands.AuthAgent.{AuthFinder}
use chatd.Commands.Typing.{typing}
use chatd.Commands.ChannelList.{channel_list}
use chatd.Session.Say.{say}
use chatd.Session.Dispatch.{touch, post_auth, handle_client_command, receive}
use chatd.Session.Machine.{waits, Machine, Event, accept, open_client, drop, after, step, run}
use chatd.Coherence.{
  IsCoherent, IsSound, sound, coherent, keep, LeavesSound, leaves_sound, if_leaves,
}
use chatd.Coherence.Maps.{
  IsAbsent, put_absent-IsCoherent, put_extended-IsCoherent, put_channel-IsCoherent,
  same_maps-IsCoherent,
}
use chatd.Coherence.Removing.{
  kill-IsSound, kline-LeavesSound, handle_client_error-IsSound, check_client_pings-IsSound,
}
use chatd.Coherence.Staying.{
  kick-IsSound, part-IsSound, set_channel_modes-IsSound, set_channel_topic-IsSound,
}
use chatd.Coherence.Entering.{IsHere, join-LeavesSound}
use chatd.Coherence.Login.{pre_auth-IsSound}

pub typing_server : (me : Client) (k : Uuid) (w : World) → (typing me k w).server ≡ w.server
unfolding typing get_channel_ref
typing_server me k w = elim (Option-cases (lookup k w.server.channels)) [
  | inl h ↦ rw (h, typing)
  | inr (ch, h) ↦ rw (h, typing) (if_both (λ (x : World). x.server ≡ w.server) _ _ _ refl refl)
]

pub say_server :
    (e : Env) (me : Client) (k : Uuid) (text : Text) (w : World)
    → (say e me k text w).server ≡ w.server
unfolding say get_channel_ref
say_server e me k text w = elim (Option-cases (lookup k w.server.channels)) [
  | inl h ↦ rw (h, say)
  | inr (ch, h) ↦ rw (h, say) (if_both (λ (x : World). x.server ≡ w.server) _ _ _ refl refl)
]

module _ (e : Env) (authfinder : AuthFinder) (config : Config) where
  post_auth-LeavesSound :
      (me : Client) (target : Uuid) (type : MessageType) (w : World)
      → IsSound w
      → IsHere me w.server
      → LeavesSound (post_auth e config me target type w)
  unfolding post_auth channel_list
  post_auth-LeavesSound me target (MessageType.set_channel_modes modes) w v here =
      leaves_sound _ (set_channel_modes-IsSound me target modes w v)
  post_auth-LeavesSound me target (MessageType.topic topic) w v here =
      leaves_sound _ (set_channel_topic-IsSound e me target topic config.max_topic_length w v)
  post_auth-LeavesSound me target MessageType.channels w v here = leaves_sound _ (keep w _ v refl)
  post_auth-LeavesSound me target (MessageType.join channel ip) w v here =
      if_leaves (length channel == 0) _ _ (join-LeavesSound e me (e.show_uuid target) true w v here)
        (join-LeavesSound e me channel false w v here)
  post_auth-LeavesSound me target (MessageType.part id channel ip) w v here =
      leaves_sound _ (part-IsSound e me channel w v)
  post_auth-LeavesSound me target (MessageType.kick channel userid reason) w v here =
      leaves_sound _ (kick-IsSound me channel userid reason w v)
  post_auth-LeavesSound me target (MessageType.kill userid reason) w v here =
      leaves_sound _ (kill-IsSound e me (unwrap_or (e.parse_uuid userid) nil) reason w v)
  post_auth-LeavesSound me target (MessageType.kline ip expires_sec reason) w v here =
      kline-LeavesSound e me (IpAddr.v4 (unwrap_or (e.parse_ipv4 ip) 0)) reason expires_sec w v
  post_auth-LeavesSound me target (MessageType.typing id channel) w v here =
      leaves_sound _ (keep w _ v (typing_server me channel w))
  post_auth-LeavesSound me target (MessageType.message text) w v here =
      leaves_sound _ (keep w _ v (say_server e me target text w))
  post_auth-LeavesSound me target _ w v here = leaves_sound _ v

  -- The new times of the client.
  touch-IsSound :
      (c : Client) (w : World)
      → IsSound w
      → lookup c.id w.server.clients ≡ some c
      → IsSound (modify (put_client c.id (touch e c)) w)
  unfolding is_pending
  touch-IsSound c w v found = sound _ (
      put_extended-IsCoherent c.id c (touch e c) w.server (coherent w v) refl
        (λ k p. (coherent w v).pending c.id c k found p) found
        (record { lists = λ k h. h; name = refl; type = refl; options = refl }))

  handle_client_command-LeavesSound :
      (c : Client) (m : Message) (w : World)
      → IsSound w
      → lookup c.id w.server.clients ≡ some c
      → LeavesSound (handle_client_command e authfinder config c m w)
  unfolding handle_client_command put_client
  handle_client_command-LeavesSound c m w v found =
      let me = touch e c in
      let touched = touch-IsSound c w v found in
      let present = lookup-insert_self c.id me w.server.clients in
      elim (Bool-cases (is_pending me)) [
        | inl p ↦
            rw (p, handle_client_command)
              (leaves_sound _ (
                pre_auth-IsSound e config me authfinder m.type _ touched
                  (record { found = present; pending = p })))
        | inr p ↦
            rw (p, handle_client_command)
              (post_auth-LeavesSound me m.target m.type _ touched
                (record { found = present; logged_in = p }))
      ]

  receive-LeavesSound :
      (m : Message) (w : World) → IsSound w → LeavesSound (receive e authfinder config m w)
  unfolding receive get_client_ref
  receive-LeavesSound m w v = elim (Option-cases (lookup m.source w.server.clients)) [
    | inl h ↦ rw (h, receive) (leaves_sound _ v)
    | inr (c, h) ↦
        let same : c.id ≡ m.source = (coherent w v).client_ids m.source c h in
        let found : lookup c.id w.server.clients ≡ some c =
          subst (λ u. lookup u w.server.clients ≡ some c) (sym same) h in
        rw (h, receive) (handle_client_command-LeavesSound c m w v found)
  ]

-- No channel knows an id that no client has.
pub missing-IsAbsent :
    (u : Uuid) (s : Server) → IsCoherent s → lookup u s.clients ≡ none → IsAbsent u s
missing-IsAbsent u s v h k ch g = elim (Option-cases (lookup u ch.members)) [
  | inl p ↦ p
  | inr (m, p) ↦ absurd (cc (h, (v.backed k ch u m g p).found))
]

accept-IsSound : (ip : IpAddr) (m : Machine) → IsSound m.world → IsSound (accept ip m).world
unfolding accept
accept-IsSound ip m v =
    if_both (λ (x : Machine). IsSound x.world) (ban_exists ip m.world.server) _ _
      (sound _ (same_maps-IsCoherent m.world.server _ refl refl (coherent m.world v))) v

open_client-IsSound :
    (e : Env) (ip : IpAddr) (m : Machine)
    → IsSound m.world
    → lookup e.new_v4 m.world.server.clients ≡ none
    → IsSound (open_client e ip m).world
unfolding open_client add_client Client.new contains lookup
open_client-IsSound e ip m v fresh =
    let known = coherent m.world v in
    if_both (λ (x : Machine). IsSound x.world) (waits ip m.handshakes) _ _
      (sound _ (
        put_absent-IsCoherent e.new_v4 _ m.world.server known refl (λ k p. refl)
          (missing-IsAbsent e.new_v4 m.world.server known fresh)))
      v

drop-IsSound :
    (e : Env) (u : Uuid) (reason : Text) (w : World) → IsSound w → IsSound (drop e u reason w)
unfolding drop get_client_ref put_client set_status is_pending
drop-IsSound e u reason w v = elim (Option-cases (lookup u w.server.clients)) [
  | inl h ↦ rw (h, drop) v
  | inr (c, h) ↦
      let closing = set_status ClientStatus.closing c in
      let same : c.id ≡ u = (coherent w v).client_ids u c h in
      let stored =
        put_extended-IsCoherent u c closing w.server (coherent w v) same (λ k p. cc) h
          (record { lists = λ k l. l; name = refl; type = refl; options = refl }) in
      let found : lookup closing.id (put_client u closing w.server).clients ≡ some closing =
        subst (λ (j : Uuid). lookup j (put_client u closing w.server).clients ≡ some closing)
          (sym same) (lookup-insert_self u closing w.server.clients) in
      rw (h, drop) (handle_client_error-IsSound e closing reason _ (sound _ stored) found)
]

-- A client that is added is given an id that no client has.
abbrev pub IsFresh : Env × Event → Server → Type 0
IsFresh (e, Event.connects ip) s = Unit
IsFresh (e, Event.opens ip) s = lookup e.new_v4 s.clients ≡ none
IsFresh (e, Event.fails ip) s = Unit
IsFresh (e, Event.commands m) s = Unit
IsFresh (e, Event.drops u reason) s = Unit
IsFresh (e, Event.wakes) s = Unit

after-IsSound : (m : Machine) (o : Outcome) → LeavesSound o → IsSound (after m o).world
unfolding LeavesSound
after-IsSound m (Outcome.returned w) v = v
after-IsSound m (Outcome.panicked w) v = v

module _ (authfinder : AuthFinder) (config : Config) where
  step-IsSound :
      (x : Env × Event) (m : Machine)
      → IsSound m.world
      → IsFresh x m.world.server
      → IsSound (step authfinder config x m).world
  unfolding step
  step-IsSound (e, Event.connects ip) m v fresh = accept-IsSound ip m v
  step-IsSound (e, Event.opens ip) m v fresh = open_client-IsSound e ip m v fresh
  step-IsSound (e, Event.fails ip) m v fresh = v
  step-IsSound (e, Event.commands message) m v fresh =
      if_both (λ (x : Machine). IsSound x.world) m.reading _ _
        (after-IsSound m _ (receive-LeavesSound e authfinder config message m.world v)) v
  step-IsSound (e, Event.drops u reason) m v fresh = drop-IsSound e u reason m.world v
  step-IsSound (e, Event.wakes) m v fresh = check_client_pings-IsSound e m.world v

  -- Every client that a run adds is given an id that is free at that time.
  abbrev pub IsFreshRun : List (Env × Event) → Machine → Type 0
  IsFreshRun [] m = Unit
  IsFreshRun (x ∷ xs) m = IsFresh x m.world.server × IsFreshRun xs (step authfinder config x m)

  run-IsSound :
      (xs : List (Env × Event)) (m : Machine)
      → IsSound m.world
      → IsFreshRun xs m
      → IsSound (run authfinder config xs m).world
  unfolding run
  run-IsSound [] m v fresh = v
  run-IsSound (x ∷ xs) m v fresh =
      run-IsSound xs (step authfinder config x m) (step-IsSound x m v fresh.0) fresh.1

add_lobby-IsCoherent :
    (use_lobby : Bool) (ch : Channel) (s : Server)
    → ch.members ≡ []
    → IsCoherent s
    → IsCoherent (add_lobby use_lobby ch s)
unfolding add_lobby add_channel lookup
add_lobby-IsCoherent use_lobby ch s empty v =
    if_both IsCoherent use_lobby _ _
      (put_channel-IsCoherent ch.id ch s v refl λ u m h. absurd (cc (rw empty at h))) v

new-IsCoherent :
    (bans : List Ban) (m₁ m₂ m₃ : Text) (config : Config)
    → IsCoherent (Server.new bans m₁ m₂ m₃ config)
unfolding Server.new lookup
new-IsCoherent bans m₁ m₂ m₃ config = record {
  channel_ids = λ k ch h. absurd (cc h);
  client_ids = λ u c h. absurd (cc h);
  pending = λ u c k h p. absurd (cc h);
  backed = λ k ch u m h g. absurd (cc h);
}

create_default_channels-IsCoherent :
    (id₁ id₂ id₃ : Uuid) (config : Config) (s : Server)
    → IsCoherent s
    → IsCoherent (create_default_channels id₁ id₂ id₃ config s)
unfolding create_default_channels set_topic set_options Channel.new
create_default_channels-IsCoherent id₁ id₂ id₃ config s v =
    add_lobby-IsCoherent config.use_guest_lobby _ _ refl (
      add_lobby-IsCoherent config.use_staff_lobby _ _ refl
        (add_lobby-IsCoherent config.use_global_lobby (global_lobby id₁) s refl v))

-- The machine when it begins to accept connections.
abbrev pub start : Uuid → Uuid → Uuid → List Ban → Text → Text → Text → Config → Machine
start id₁ id₂ id₃ bans m₁ m₂ m₃ config = record {
  world = record {
    server = create_default_channels id₁ id₂ id₃ config (Server.new bans m₁ m₂ m₃ config);
    effects = [];
  };
  reading = true;
  handshakes = [];
}

-- In every state that the server reaches from its start, by any connections, handshakes, commands,
-- disconnections and ping rounds, and with clients given ids that are free when they are added: the
-- keys of both maps are the ids of what they hold, a client that has not logged in lists no
-- channel, and every member of a channel is a copy, with the same id, name, type and options, of
-- a client of the server that has the channel on its own list.
pub run-IsCoherent :
    (authfinder : AuthFinder) (config : Config) (id₁ id₂ id₃ : Uuid) (bans : List Ban)
    (m₁ m₂ m₃ : Text) (xs : List (Env × Event))
    → IsFreshRun authfinder config xs (start id₁ id₂ id₃ bans m₁ m₂ m₃ config)
    → IsCoherent (run authfinder config xs (start id₁ id₂ id₃ bans m₁ m₂ m₃ config)).world.server
run-IsCoherent authfinder config id₁ id₂ id₃ bans m₁ m₂ m₃ xs fresh = coherent _ (
    run-IsSound authfinder config xs _
      (sound _ (
        create_default_channels-IsCoherent id₁ id₂ id₃ config _
          (new-IsCoherent bans m₁ m₂ m₃ config)))
      fresh)
