-- ===== src/Roster/Joining.antt =====
-- What joins make of the roster.
use chatd.Base.{
  true, false, ◌≡◌, refl, ◌∙◌, ◌&&◌, not, none, some, inl, inr, Option, [], ◌==◌, Bool-cases,
  Option-cases, arith, if◌then◌else◌, ==_iff,
}
use chatd.Text.{Text, is_uuid_v4, is_match}
use chatd.Dict.{lookup, contains, insert}
use chatd.Message.{Uuid}
use chatd.ClientOptions
use chatd.ChannelOptions
use chatd.Client.{Client, is_agent, has_options}
use chatd.Channel.{
  Channel, Effects, remove_member, insert_member, is_member, count_members, has, has_invite,
  owner_or_nil, set_options,
}
use chatd.Effect.{Env}
use chatd.Server.{Server, put_channel, put_client, add_channel, get_channel_ref}
use chatd.World.{World}
use chatd.Commands.Join.{join_existing, join_new, join_at, admit, create}
use chatd.Session.Refusal.{join_new-refuses, join_existing-refuses}
use chatd.Session.Permission.{may_enter, may_create, may_join_at}
use chatd.Roster.{roster, seat, roster-put_channel, roster-seat, refused-roster}

-- A channel that was not there, with its first member.
roster-found :
    (s : Server) (k v j : Uuid) (me : Client) (ch : Channel)
    → lookup k s.channels ≡ none
    → ch.members ≡ []
    → roster (put_channel k (insert_member me ch) s) j v ≡ seat k me.id (roster s) j v
unfolding seat insert_member roster contains lookup insert
roster-found s k v j me ch free empty =
    roster-put_channel s k j v (insert_member me ch) ∙ elim (Bool-cases (k == j)) [
      | inl same ↦
          let p : k ≡ j = (==_iff k j).0 same in rw same (rw (← p, free, empty) (ground arith))
      | inr other ↦ ground arith
    ]

join_enters :
    (e : Env) (me : Client) (k : Uuid) (ch : Channel) (w : World)
    → may_enter me ch ≡ true
    → join_existing e me k ch w ≡ admit e me k ch w
unfolding join_existing may_enter
join_enters e me k ch w may =
    let admin = has_options ClientOptions.admin me in
    let new : is_member me.id ch ≡ false = ground arith in
    let fit : (has ChannelOptions.agent_only ch && not (is_agent me)) ≡ false = ground arith in
    let invited : (has ChannelOptions.invite_only ch && not admin && not (has_invite ch me.id))
        ≡ false =
      ground arith in
    rw (join_existing, new, fit, invited) refl

join_creates :
    (e : Env) (me : Client) (name : Text) (w : World)
    → may_create me name ≡ true
    → join_new e me name w ≡ create e me name w
unfolding join_new may_create
join_creates e me name w may =
    let creates = has_options ClientOptions.create_channels me in
    let able : (not creates && not (is_agent me)) ≡ false = ground arith in
    let other : is_uuid_v4 name ≡ false = ground arith in
    let good : not (is_match 3 50 name) ≡ false = ground arith in
    rw (join_new, able, other, good) refl

-- The channel that `create` makes, before its first member.
abbrev opened : Env → Client → Text → Channel
opened e me name =
    set_options (ChannelOptions.or ChannelOptions.client_invites ChannelOptions.save_history)
      (chatd.Channel.new e.new_v4 name (some me.id) false)

join_new-seat :
    (e : Env) (me : Client) (name : Text) (w : World) (j v : Uuid)
    → lookup e.new_v4 w.server.channels ≡ none
    → roster (join_new e me name w).server j v ≡ (
        if may_create me name
        then seat e.new_v4 me.id (roster w.server) j v
        else roster w.server j v)
unfolding create add_channel put_client chatd.Channel.new set_options put_channel roster
    insert_member
join_new-seat e me name w j v free = elim (Bool-cases (may_create me name)) [
  | inr denied ↦ rw denied (refused-roster me w _ j v (join_new-refuses me w e name denied))
  | inl may ↦
      rw (may, join_creates e me name w may)
        (roster-found w.server e.new_v4 v j me (opened e me name) free refl)
]

-- The channel that a join leads to: the one that is there, or a new one.
unfoldable pub destination : Env → Option Uuid → Server → Uuid
destination e none s = e.new_v4
destination e (some k) s = elim (lookup k s.channels) [ none ↦ e.new_v4 | some ch ↦ k ]

-- A join on the roster, with an id for a new channel that is free: if it is permitted the client
-- enters the channel that the join leads to, and else nobody moves.
pub join_at-seat :
    (e : Env) (me : Client) (name : Text) (key : Option Uuid) (w : World) (j v : Uuid)
    → lookup e.new_v4 w.server.channels ≡ none
    → roster (join_at e me name key w).server j v ≡ (
        if may_join_at me name key w.server
        then seat (destination e key w.server) me.id (roster w.server) j v
        else roster w.server j v)
unfolding destination may_join_at get_channel_ref admit put_client put_channel roster
join_at-seat e me name none w j v free = join_new-seat e me name w j v free
join_at-seat e me name (some k) w j v free = elim (Option-cases (lookup k w.server.channels)) [
  | inl h ↦ rw (h, join_at, may_join_at, destination) (join_new-seat e me name w j v free)
  | inr (ch, h) ↦ elim (Bool-cases (may_enter me ch)) [
    | inr denied ↦
        rw (h, join_at, may_join_at, denied)
          (refused-roster me w _ j v (join_existing-refuses me w e k ch denied))
    | inl may ↦
        rw (h, join_at, may_join_at, destination, may, join_enters e me k ch w may)
          (roster-seat w.server k v j me ch h)
  ]
]
