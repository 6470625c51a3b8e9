-- ===== src/Session/Discretion/Joins.antt =====
-- commands.rs: who is shown the address when a client joins a channel.
use chatd.Base.{
  Bool, true, false, ◌≡◌, refl, sym, ◌∙◌, ap, ◌⊎◌, inl, inr, ◌&&◌, ◌||◌, not, none, some, Option,
  [], ◌++◌, ◌==◌, if_both, Bool-cases, Option-cases, arith, if◌then◌else◌,
}
use chatd.Text.{Text, is_uuid_v4, is_match}
use chatd.Dict.{lookup}
use chatd.Message.{ip_eq, Uuid, ProblemCode, new}
use chatd.ClientOptions
use chatd.ChannelOptions
use chatd.Client.{Client, is_agent, has_options}
use chatd.Channel.{
  Channel, Effects, sendto, sendto_agents, sendto_nonagents, sendto_all, sendto_all_butone,
  broadcast_join, broadcast_part, announce, to_log, insert_member, remove_member, has, has_invite,
  is_member,
}
use chatd.Effect.{Env}
use chatd.Server.{get_channel_ref, channel_name_to_uuid}
use chatd.World.{World, Outcome, world_of, refuse}
use chatd.Session.Discretion.{
  discloses, shows_address, agent_in, shows_address-append, to_log-quiet, IsQuiet, IsQuiet-refl,
  if_IsQuiet, emit-IsQuiet, send-quiet, refuse-IsQuiet,
}
use chatd.Session.Discretion.Commands.{append-quiet}
use chatd.Commands.Lobby.{own_join, user_list, shows}
use chatd.Commands.Join.{join, find_and_join, join_at, join_existing, join_new, admit, create, tell}
use chatd.Session.Discretion.{broadcast_join-shows}

-- An agent is under `u` in a channel of `w`.
abbrev pub HasAgent : Uuid → World → Type 0
HasAgent u w =
    (k : Uuid) × (ch : Channel) × (lookup k w.server.channels ≡ some ch)
    × (agent_in u ch.members ≡ true)

-- From `w` to `x` addresses are shown only to agents who are in a channel.
unfoldable pub IsDiscreet : World → World → Type 0
IsDiscreet w x =
    (u : Uuid)
    → shows_address u x.effects ≡ true
    → (shows_address u w.effects ≡ true) ⊎ HasAgent u w

pub quiet-IsDiscreet : (w x : World) → IsQuiet w x → IsDiscreet w x
unfolding IsDiscreet IsQuiet
quiet-IsDiscreet w x quiet u h = inl (sym (quiet u) ∙ h)

pub refuse-IsDiscreet :
    (me : Client) (code : ProblemCode) (target : Option Uuid) (text : Text) (w : World)
    → IsDiscreet w (refuse me.id code target text w)
refuse-IsDiscreet me code target text w =
    quiet-IsDiscreet w _ (refuse-IsQuiet me code target text w)

pub if_IsDiscreet :
    (w : World) (b : Bool) (x y : World)
    → IsDiscreet w x
    → IsDiscreet w y
    → IsDiscreet w (if b then x else y)
if_IsDiscreet w b x y = if_both (IsDiscreet w) b x y

-- Effects that show addresses only to the agents of a channel that is there.
pub emit-IsDiscreet :
    (k : Uuid) (ch : Channel) (es : Effects) (w x : World)
    → lookup k w.server.channels ≡ some ch
    → ((u : Uuid) → shows_address u es ≡ true → agent_in u ch.members ≡ true)
    → x.effects ≡ w.effects ++ es
    → IsDiscreet w x
unfolding IsDiscreet
emit-IsDiscreet k ch es w x found only same u h = elim (Bool-cases (shows_address u es)) [
  | inl shown ↦ inr (k, ch, found, only u shown)
  | inr hidden ↦ inl (
      ground (
        arith,
        shows_address-append u w.effects es,
        ap (λ (es' : Effects). shows_address u es') same,
      ))
]

-- Steps that show nothing may follow.
pub IsDiscreet-quiet : (w x y : World) → IsDiscreet w x → IsQuiet x y → IsDiscreet w y
unfolding IsDiscreet IsQuiet
IsDiscreet-quiet w x y p quiet u h = p u (sym (quiet u) ∙ h)

-- Or come before.
pub quiet-then-IsDiscreet :
    (w x y : World) → x.server ≡ w.server → IsQuiet w x → IsDiscreet x y → IsDiscreet w y
unfolding IsDiscreet IsQuiet
quiet-then-IsDiscreet w x y same quiet p u h = elim (p u h) [
  | inl shown ↦ inl (sym (quiet u) ∙ shown)
  | inr there ↦ inr (rw same at there)
]

nothing-quiet : (u : Uuid) → shows_address u [] ≡ false
unfolding shows_address
nothing-quiet u = refl

-- What shows nothing may be taken off at the end.
drop_quiet :
    (u : Uuid) (xs ys : Effects)
    → shows_address u ys ≡ false
    → shows_address u (xs ++ ys) ≡ true
    → shows_address u xs ≡ true
drop_quiet u xs ys quiet h = ground (arith, shows_address-append u xs ys)

keep_loud :
    (u : Uuid) (xs ys : Effects)
    → shows_address u xs ≡ false
    → shows_address u (xs ++ ys) ≡ true
    → shows_address u ys ≡ true
keep_loud u xs ys quiet h = ground (arith, shows_address-append u xs ys)

announce-shows :
    (me : Client) (ch : Channel) (u : Uuid)
    → shows_address u (announce me ch) ≡ true
    → agent_in u ch.members ≡ true
unfolding announce discloses ip_eq new
announce-shows me ch u h =
    elim (Bool-cases (ClientOptions.and me.options ClientOptions.invisible == 0)) [
      | inl seen ↦ broadcast_join-shows me.id me.name me.ip ch u (
          drop_quiet u (broadcast_join me.id me.name me.ip ch) _ (send-quiet me.id _ u refl)
            (rw (announce, seen) at h))
      | inr unseen ↦ absurd (cc (nothing-quiet u, rw (announce, unseen) at h))
    ]

tell-quiet : (c : Client) (ch : Channel) (u : Uuid) → shows_address u (tell c ch) ≡ false
unfolding tell own_join user_list discloses ip_eq new
tell-quiet c ch u =
    let hides = λ (es : Effects). shows_address u es ≡ false in
    if_both hides (shows c ch) _ _
      (append-quiet u _ _ (send-quiet c.id _ u refl) (
        if_both hides (not (has ChannelOptions.hidden_member_list ch) || is_agent c) _ _
          (send-quiet c.id _ u refl) (nothing-quiet u)))
      (nothing-quiet u)

admit-IsDiscreet :
    (e : Env) (me : Client) (k : Uuid) (ch : Channel) (w : World)
    → lookup k w.server.channels ≡ some ch
    → IsDiscreet w (admit e me k ch w)
unfolding admit
admit-IsDiscreet e me k ch w found =
    emit-IsDiscreet k ch _ w _ found
      (λ u h. announce-shows me ch u (
        drop_quiet u (announce me ch) _ (to_log-quiet _ (insert_member me ch) u)
          (drop_quiet u _ _ (tell-quiet me (insert_member me ch) u) h)))
      refl

join_existing-IsDiscreet :
    (e : Env) (me : Client) (k : Uuid) (ch : Channel) (w : World)
    → lookup k w.server.channels ≡ some ch
    → IsDiscreet w (join_existing e me k ch w)
unfolding join_existing
join_existing-IsDiscreet e me k ch w found =
    if_IsDiscreet w (is_member me.id ch) _ _ (refuse-IsDiscreet me _ _ _ w) (
      if_IsDiscreet w (has ChannelOptions.agent_only ch && not (is_agent me)) _ _
        (refuse-IsDiscreet me _ _ _ w)
        (if_IsDiscreet w
          (has ChannelOptions.invite_only ch
            && not (has_options ClientOptions.admin me)
            && not (has_invite ch me.id))
          _ _ (refuse-IsDiscreet me _ _ _ w) (admit-IsDiscreet e me k ch w found)))

announce_empty :
    (me : Client) (ch : Channel) (u : Uuid)
    → ch.members ≡ []
    → shows_address u (announce me ch) ≡ false
unfolding agent_in
announce_empty me ch u empty = elim (Bool-cases (shows_address u (announce me ch))) [
  | inl shown ↦ absurd (cc (rw empty at (announce-shows me ch u shown)))
  | inr hidden ↦ hidden
]

-- A channel that is new has no member who could be shown anything.
create-IsQuiet : (e : Env) (me : Client) (name : Text) (w : World) → IsQuiet w (create e me name w)
unfolding create own_join discloses ip_eq new chatd.Channel.new chatd.Channel.set_options
create-IsQuiet e me name w =
    emit-IsQuiet _ w _
      (λ u.
        append-quiet u _ _
          (append-quiet u _ _ (announce_empty me _ u refl) (send-quiet me.id _ u refl))
          (to_log-quiet _ _ u))
      refl

join_new-IsQuiet :
    (e : Env) (me : Client) (name : Text) (w : World) → IsQuiet w (join_new e me name w)
unfolding join_new
join_new-IsQuiet e me name w =
    if_IsQuiet w (not (has_options ClientOptions.create_channels me) && not (is_agent me)) _ _
      (refuse-IsQuiet me _ _ _ w)
      (if_IsQuiet w (is_uuid_v4 name) _ _ (refuse-IsQuiet me _ _ _ w) (
        if_IsQuiet w (not (is_match 3 50 name)) _ _ (refuse-IsQuiet me _ _ _ w)
          (create-IsQuiet e me name w)))

join_at-IsDiscreet :
    (e : Env) (me : Client) (name : Text) (key : Option Uuid) (w : World)
    → IsDiscreet w (join_at e me name key w)
unfolding get_channel_ref
join_at-IsDiscreet e me name none w = quiet-IsDiscreet w _ (join_new-IsQuiet e me name w)
join_at-IsDiscreet e me name (some key) w = elim (Option-cases (lookup key w.server.channels)) [
  | inl h ↦ rw (h, join_at) (quiet-IsDiscreet w _ (join_new-IsQuiet e me name w))
  | inr (ch, h) ↦ rw (h, join_at) (join_existing-IsDiscreet e me key ch w h)
]

unfoldable pub LeavesDiscreet : World → Outcome → Type 0
LeavesDiscreet w o = IsDiscreet w (world_of o)

find_and_join-LeavesDiscreet :
    (e : Env) (me : Client) (name : Text) (is_uuid : Bool) (w : World)
    → LeavesDiscreet w (find_and_join e me name is_uuid w)
unfolding LeavesDiscreet find_and_join
find_and_join-LeavesDiscreet e me name false w =
    join_at-IsDiscreet e me name (channel_name_to_uuid e name w.server) w
find_and_join-LeavesDiscreet e me name true w = elim (Option-cases (e.parse_uuid name)) [
  | inl wrong ↦ rw (wrong, find_and_join) (quiet-IsDiscreet w w (IsQuiet-refl w))
  | inr (key, right) ↦ rw (right, find_and_join) (join_at-IsDiscreet e me name (some key) w)
]

pub join-LeavesDiscreet :
    (e : Env) (me : Client) (name : Text) (is_uuid : Bool) (w : World)
    → LeavesDiscreet w (join e me name is_uuid w)
unfolding LeavesDiscreet join
join-LeavesDiscreet e me name is_uuid w =
    if_both (LeavesDiscreet w)
      (not (has_options ClientOptions.admin me) && not (has_options ClientOptions.join_channels me))
      _ _ (refuse-IsDiscreet me _ _ _ w) (find_and_join-LeavesDiscreet e me name is_uuid w)
