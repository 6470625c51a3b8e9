-- ===== src/Coherence/Entering.antt =====
-- `join`, the lobbies, the logins and a new connection keep the invariant.
use chatd.Base.{
  Bool, true, false, ◌≡◌, refl, sym, Option, none, some, ◌⊎◌, inl, inr, [], arith, ◌&&◌, not,
  Option-cases,
}
use mathlib.Core.Path.{subst}
use chatd.Text.{Text, is_match, is_uuid_v4}
use chatd.Dict.{Dict, lookup, insert, contains-insert, lookup-insert_inv, lookup-insert_self}
use chatd.Message.{Uuid}
use chatd.ChannelOptions
use chatd.ClientOptions
use chatd.Client.{Client, ClientStatus, is_agent, is_pending, has_options, add_channel, set_status}
use chatd.Channel.{Channel, has, has_invite, is_member, insert_member, set_options}
use chatd.Channel
use chatd.Effect.{Env}
use chatd.Server.{
  Server, put_client, put_channel, remove_client, get_channel_ref, get_channel_by_name,
  channel_name_to_uuid, client_name_to_uuid,
}
use chatd.Server
use chatd.World.{World}
use chatd.Commands.Join.{admit, join_existing, create, join_new, join_at, find_and_join, join}
use chatd.Commands.Lobby.{enter, enter_lobby}
use chatd.Coherence.{
  IsBacked, IsCoherent, IsSound, sound, coherent, keep, if_IsSound, LeavesSound, leaves_sound,
  if_leaves,
}
use chatd.Coherence.Maps.{Extends, put_channel-IsCoherent, put_extended-IsCoherent}

-- What makes `me` the client that the server knows, logged in.
pub record IsHere (me : Client) (s : Server) : Type 0 where
  pub found : lookup me.id s.clients ≡ some me
  pub logged_in : is_pending me ≡ false

add_channel-Extends : (k : Uuid) (name : Text) (c : Client) → Extends c (add_channel k name c)
unfolding add_channel
add_channel-Extends k name c = record {
  lists = λ j h. ground (arith, contains-insert k j name c.channels);
  name = refl;
  type = refl;
  options = refl;
}

-- The client with the channel on its list backs its own membership.
own-IsBacked :
    (k : Uuid) (name : Text) (me : Client) (cs : Dict Client)
    → IsBacked (insert me.id (add_channel k name me) cs) k me.id me
unfolding add_channel
own-IsBacked k name me cs = record {
  client = add_channel k name me;
  id_eq = refl;
  found = lookup-insert_self me.id (add_channel k name me) cs;
  listed = ground (arith, contains-insert k k name me.channels);
  same_name = refl;
  same_type = refl;
  same_options = refl;
}

list-IsCoherent :
    (me : Client) (k : Uuid) (name : Text) (s : Server)
    → IsCoherent s
    → IsHere me s
    → IsCoherent (put_client me.id (add_channel k name me) s)
list-IsCoherent me k name s v here =
    put_extended-IsCoherent me.id me (add_channel k name me) s v (unfold add_channel in refl)
      (λ j p. absurd (unfold add_channel is_pending in cc (here.logged_in, p))) here.found
      (add_channel-Extends k name me)

-- The two writes of every way in: the channel goes on the client's list, and a copy of the client
-- among the members. The channel is the one at the key, or a new one with no members.
enter-IsCoherent :
    (me : Client) (ch : Channel) (name : Text) (s : Server)
    → IsCoherent s
    → IsHere me s
    → ((lookup ch.id s.channels ≡ some ch) ⊎ (ch.members ≡ []))
    → IsCoherent
        (put_channel ch.id (insert_member me ch) (put_client me.id (add_channel ch.id name me) s))
unfolding insert_member put_client lookup
enter-IsCoherent me ch name s v here known =
    let listed = list-IsCoherent me ch.id name s v here in
    put_channel-IsCoherent ch.id (insert_member me ch) _ listed refl λ u m h.
      elim (lookup-insert_inv me.id u me m ch.members h) [
        | inl (p, q) ↦ rw (← p, ← q) (own-IsBacked ch.id name me s.clients)
        | inr (p, q) ↦ elim known [
          | inl stored ↦ listed.backed ch.id ch u m stored q
          | inr empty ↦ absurd (cc (rw empty at q))
        ]
      ]

-- The same at the key under which the map holds the channel.
enter_at-IsCoherent :
    (me : Client) (k : Uuid) (ch : Channel) (name : Text) (s : Server)
    → IsCoherent s
    → IsHere me s
    → lookup k s.channels ≡ some ch
    → IsCoherent
        (put_channel k (insert_member me ch) (put_client me.id (add_channel ch.id name me) s))
enter_at-IsCoherent me k ch name s v here found =
    let e : ch.id ≡ k = v.channel_ids k ch found in
    let stored : lookup ch.id s.channels ≡ some ch =
      subst (λ j. lookup j s.channels ≡ some ch) (sym e) found in
    subst
      (λ j.
        IsCoherent
          (put_channel j (insert_member me ch) (put_client me.id (add_channel ch.id name me) s)))
      e (enter-IsCoherent me ch name s v here (inl stored))

module _ (e : Env) (me : Client) where
  admit-IsSound :
      (k : Uuid) (ch : Channel) (w : World)
      → IsSound w
      → IsHere me w.server
      → lookup k w.server.channels ≡ some ch
      → IsSound (admit e me k ch w)
  unfolding admit put_client put_channel
  admit-IsSound k ch w v here found =
      sound _ (enter_at-IsCoherent me k ch ch.name w.server (coherent w v) here found)

  join_existing-IsSound :
      (k : Uuid) (ch : Channel) (w : World)
      → IsSound w
      → IsHere me w.server
      → lookup k w.server.channels ≡ some ch
      → IsSound (join_existing e me k ch w)
  unfolding join_existing
  join_existing-IsSound k ch w v here found =
      if_IsSound (is_member me.id ch) _ _ (keep w _ v refl) (
        if_IsSound (has ChannelOptions.agent_only ch && not (is_agent me)) _ _ (keep w _ v refl) (
          if_IsSound
            (has ChannelOptions.invite_only ch
              && not (has_options ClientOptions.admin me)
              && not (has_invite ch me.id))
            _ _ (keep w _ v refl) (admit-IsSound k ch w v here found)))

  create-IsSound :
      (name : Text) (w : World) → IsSound w → IsHere me w.server → IsSound (create e me name w)
  unfolding create Server.add_channel put_client put_channel insert_member set_options Channel.new
  create-IsSound name w v here =
      sound _ (enter-IsCoherent me _ name w.server (coherent w v) here (inr refl))

  join_new-IsSound :
      (name : Text) (w : World) → IsSound w → IsHere me w.server → IsSound (join_new e me name w)
  unfolding join_new
  join_new-IsSound name w v here =
      if_IsSound (not (has_options ClientOptions.create_channels me) && not (is_agent me)) _ _
        (keep w _ v refl)
        (if_IsSound (is_uuid_v4 name) _ _ (keep w _ v refl) (
          if_IsSound (not (is_match 3 50 name)) _ _ (keep w _ v refl)
            (create-IsSound name w v here)))

  join_at-IsSound :
      (name : Text) (key : Option Uuid) (w : World)
      → IsSound w
      → IsHere me w.server
      → IsSound (join_at e me name key w)
  unfolding get_channel_ref
  join_at-IsSound name none w v here = join_new-IsSound name w v here
  join_at-IsSound name (some k) w v here = elim (Option-cases (lookup k w.server.channels)) [
    | inl h ↦ rw (h, join_at) (join_new-IsSound name w v here)
    | inr (ch, h) ↦ rw (h, join_at) (join_existing-IsSound k ch w v here h)
  ]

  find_and_join-LeavesSound :
      (name : Text) (is_uuid : Bool) (w : World)
      → IsSound w
      → IsHere me w.server
      → LeavesSound (find_and_join e me name is_uuid w)
  unfolding find_and_join
  find_and_join-LeavesSound name true w v here = elim (Option-cases (e.parse_uuid name)) [
    | inl h ↦ rw (h, find_and_join) (leaves_sound _ v)
    | inr (k, h) ↦ rw (h, find_and_join) (leaves_sound _ (join_at-IsSound name (some k) w v here))
  ]
  find_and_join-LeavesSound name false w v here =
      leaves_sound _ (join_at-IsSound name (channel_name_to_uuid e name w.server) w v here)

  pub join-LeavesSound :
      (name : Text) (is_uuid : Bool) (w : World)
      → IsSound w
      → IsHere me w.server
      → LeavesSound (join e me name is_uuid w)
  unfolding join
  join-LeavesSound name is_uuid w v here =
      if_leaves
        (not (has_options ClientOptions.admin me)
          && not (has_options ClientOptions.join_channels me))
        _ _ (leaves_sound _ (keep w _ v refl)) (find_and_join-LeavesSound name is_uuid w v here)

set_status_pending : (c : Client) → is_pending (set_status ClientStatus.closing c) ≡ false
unfolding is_pending set_status
set_status_pending c = refl

-- A client enters a lobby, if the lobby is there.
module _ (e : Env) (visible : Client → Channel → Bool) where
  enter-IsSound :
      (k : Uuid) (ch : Channel) (c : Client) (w : World)
      → IsSound w
      → IsHere c w.server
      → lookup k w.server.channels ≡ some ch
      → IsSound (enter e visible k ch c w)
  unfolding enter put_client put_channel
  enter-IsSound k ch c w v here found =
      sound _ (enter_at-IsCoherent c k ch ch.name w.server (coherent w v) here found)

  enter-IsHere :
      (k : Uuid) (ch : Channel) (c : Client) (w : World)
      → IsHere c w.server
      → IsHere (add_channel ch.id ch.name c) (enter e visible k ch c w).server
  unfolding enter put_client put_channel add_channel is_pending
  enter-IsHere k ch c w here = record {
    found = lookup-insert_self c.id (add_channel ch.id ch.name c) w.server.clients;
    logged_in = here.logged_in;
  }

  -- The lobby that is entered, and the client as the map then holds it.
  pub enter_lobby_lem :
      (use_lobby : Bool) (name : Text) (c : Client) (w : World)
      → IsSound w
      → IsHere c w.server
      → IsSound (enter_lobby e use_lobby visible name c.id w)
        × ((d : Client) × (d.id ≡ c.id)
            × IsHere d (enter_lobby e use_lobby visible name c.id w).server)
  unfolding enter_lobby get_channel_ref
  enter_lobby_lem false name c w v here = (v, (c, refl, here))
  enter_lobby_lem true name c w v here = elim (Option-cases (get_channel_by_name name w.server)) [
    | inl h ↦ rw (h, enter_lobby) (v, (c, refl, here))
    | inr (k, h) ↦ elim (Option-cases (lookup k w.server.channels)) [
      | inl g ↦ rw (h, g, enter_lobby) (v, (c, refl, here))
      | inr (ch, g) ↦
          rw (h, g, here.found, enter_lobby)
            (
              enter-IsSound k ch c w v here g,
              (add_channel ch.id ch.name c, unfold add_channel in refl, enter-IsHere k ch c w here),
            )
    ]
  ]
