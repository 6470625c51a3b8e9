-- ===== src/Session/Discretion.antt =====
-- Who gets to see the addresses of clients.
pub mod Commands
pub mod Kills
pub mod Wallops
pub mod Joins
pub mod Parts
use chatd.Base.{
  ℕ, Bool, true, false, ◌≡◌, refl, sym, ◌∙◌, ap, ◌⊎◌, inl, inr, ◌&&◌, ◌||◌, not, none, some, Option,
  List, [], ◌∷◌, ◌++◌, ◌==◌, ltb, length, if_known, if_both, Bool-cases, Option-cases, arith,
  unwrap_or, if◌then◌else◌, ok, err,
}
use chatd.Text.{Text, lit, is_uuid_v4, is_match}
use chatd.Dict.{Dict, lookup, erase}
use chatd.Message.{
  Uuid, IpAddr, ip_eq, ip_eq_iff, unspecified, Message, MessageType, ProblemCode, nil, new,
  new_problem, sanitize_text_message,
}
use chatd.ClientOptions
use chatd.ChannelOptions
use chatd.Client.{Client, is_agent, has_options}
use chatd.Channel.{
  Channel, Effects, sendto, sendto_agents, sendto_nonagents, sendto_all, sendto_all_butone,
  hides_members, broadcast_join, broadcast_part, announce, to_log, count_members, insert_member,
  remove_member, has,
}
use chatd.Effect.{Effect, Frame, Env, LogEntry}
use chatd.World.{World, Outcome, world_of, emit, refuse, settle, log_line}

-- Whether a frame may hold the address of a client: a `Join` or a `Part` with an address other
-- than 0.0.0.0, or a `Wallop`, in whose text `kill` and `kline` write an address.
unfoldable pub discloses : Frame → Bool
discloses (Frame.text t) = false
discloses (Frame.cmessage m) = elim m.type [
  | MessageType.join name ip ↦ not (ip_eq ip unspecified)
  | MessageType.part id channel ip ↦ not (ip_eq ip unspecified)
  | MessageType.wallop text ↦ true
  | _ ↦ false
]

-- Whether such a frame is sent to `u`.
unfoldable pub shows_address : Uuid → Effects → Bool
shows_address u [] = false
shows_address u (Effect.send v frame ∷ es) = v == u && discloses frame || shows_address u es
shows_address u (Effect.close v ∷ es) = shows_address u es
shows_address u (Effect.log v entry ∷ es) = shows_address u es
shows_address u (Effect.save file bans ∷ es) = shows_address u es

-- Whether a client of the map with the id `u` is an agent.
unfoldable pub agent_in : Uuid → Dict Client → Bool
agent_in u [] = false
agent_in u ((k, c) ∷ cs) = c.id == u && is_agent c || agent_in u cs

pub agent_in-erase :
    (u k : Uuid) (cs : Dict Client) → agent_in u (erase k cs) ≡ true → agent_in u cs ≡ true
unfolding agent_in erase
agent_in-erase u k [] h = h
agent_in-erase u k ((j, c) ∷ cs) h = ground (arith, agent_in-erase u k cs)

pub shows_address-append :
    (u : Uuid) (xs ys : Effects)
    → shows_address u (xs ++ ys) ≡ (shows_address u xs || shows_address u ys)
unfolding shows_address
shows_address-append u [] ys = refl
shows_address-append u (Effect.send v frame ∷ es) ys = ground (arith, shows_address-append u es ys)
shows_address-append u (Effect.close v ∷ es) ys = shows_address-append u es ys
shows_address-append u (Effect.log v entry ∷ es) ys = shows_address-append u es ys
shows_address-append u (Effect.save file bans ∷ es) ys = shows_address-append u es ys

-- A broadcast without an address, or to agents only.
pub quiet_sendto :
    (test : Client → Bool) (m : Message) (u : Uuid) (cs : Dict Client)
    → discloses (Frame.cmessage m) ≡ false
    → shows_address u (sendto test m cs) ≡ false
unfolding shows_address sendto ip_eq
quiet_sendto test m u [] quiet = refl
quiet_sendto test m u ((k, c) ∷ cs) quiet = elim (Bool-cases (test c)) [
  | inl hit ↦
      rw (hit, sendto, shows_address, quiet) (ground (arith, quiet_sendto test m u cs quiet))
  | inr miss ↦ rw (miss, sendto) (quiet_sendto test m u cs quiet)
]

agents_sendto :
    (m : Message) (u : Uuid) (cs : Dict Client)
    → shows_address u (sendto is_agent m cs) ≡ true
    → agent_in u cs ≡ true
unfolding shows_address sendto agent_in
agents_sendto m u [] h = h
agents_sendto m u ((k, c) ∷ cs) h = ground (arith, agents_sendto m u cs)

pub to_log-quiet :
    (entry : LogEntry) (ch : Channel) (u : Uuid) → shows_address u (to_log entry ch) ≡ false
unfolding to_log shows_address
to_log-quiet entry ch u = ground arith

pub log_line-quiet :
    (k : Uuid) (entry : LogEntry) (ch : Channel) (u : Uuid)
    → shows_address u (log_line k entry ch) ≡ false
unfolding log_line shows_address
log_line-quiet k entry ch u = ground arith

pub broadcast_join-shows :
    (client : Uuid) (name : Text) (ip : IpAddr) (ch : Channel) (u : Uuid)
    → shows_address u (broadcast_join client name ip ch) ≡ true
    → agent_in u ch.members ≡ true
unfolding broadcast_join sendto_agents sendto_nonagents discloses ip_eq new
broadcast_join-shows client name ip ch u h =
    let loud = new (MessageType.join name ip) client ch.id none in
    let quiet = new (MessageType.join name unspecified) client ch.id none in
    ground (
      arith,
      agents_sendto loud u ch.members,
      shows_address-append u (sendto (λ member. not (is_agent member)) quiet ch.members)
          (sendto is_agent loud ch.members),
      quiet_sendto (λ member. not (is_agent member)) quiet u ch.members refl,
    )

pub broadcast_part-shows :
    (client : Uuid) (name : Text) (ip : IpAddr) (ch : Channel) (u : Uuid)
    → shows_address u (broadcast_part client name ip ch) ≡ true
    → agent_in u ch.members ≡ true
unfolding broadcast_part sendto_agents sendto_nonagents discloses ip_eq new shows_address
broadcast_part-shows client name ip ch u h =
    let loud = new (MessageType.part client ch.id ip) client ch.id (some name) in
    let quiet = new (MessageType.part client ch.id unspecified) client ch.id (some name) in
    ground (
      arith,
      agents_sendto loud u ch.members,
      shows_address-append u (sendto (λ member. not (is_agent member)) quiet ch.members)
          (sendto is_agent loud ch.members),
      quiet_sendto (λ member. not (is_agent member)) quiet u ch.members refl,
    )

-- From `w` to `x` no address is shown to anyone.
unfoldable pub IsQuiet : World → World → Type 0
IsQuiet w x = (u : Uuid) → shows_address u x.effects ≡ shows_address u w.effects

pub IsQuiet-refl : (w : World) → IsQuiet w w
unfolding IsQuiet
IsQuiet-refl w u = refl

pub IsQuiet-trans : (w x y : World) → IsQuiet w x → IsQuiet x y → IsQuiet w y
unfolding IsQuiet
IsQuiet-trans w x y p q u = q u ∙ p u

pub if_IsQuiet :
    (w : World) (b : Bool) (x y : World)
    → IsQuiet w x
    → IsQuiet w y
    → IsQuiet w (if b then x else y)
if_IsQuiet w b x y = if_both (IsQuiet w) b x y

-- Effects that show nothing, after those of `w`.
pub emit-IsQuiet :
    (es : Effects) (w x : World)
    → ((u : Uuid) → shows_address u es ≡ false)
    → x.effects ≡ w.effects ++ es
    → IsQuiet w x
unfolding IsQuiet
emit-IsQuiet es w x quiet same u =
    rw same (ground (arith, shows_address-append u w.effects es, quiet u))

pub same_effects-IsQuiet : (w x : World) → x.effects ≡ w.effects → IsQuiet w x
unfolding IsQuiet
same_effects-IsQuiet w x same u = rw same refl

pub send-quiet :
    (v : Uuid) (m : Message) (u : Uuid)
    → discloses (Frame.cmessage m) ≡ false
    → shows_address u (Effect.send v (Frame.cmessage m) ∷ []) ≡ false
unfolding shows_address ip_eq
send-quiet v m u quiet = rw (shows_address, quiet) (ground arith)

pub refuse-IsQuiet :
    (me : Client) (code : ProblemCode) (target : Option Uuid) (text : Text) (w : World)
    → IsQuiet w (refuse me.id code target text w)
unfolding discloses ip_eq new_problem
refuse-IsQuiet me code target text w =
    emit-IsQuiet _ w _ (λ u. send-quiet me.id (new_problem code target text) u refl) refl

pub settle-IsQuiet :
    (k : Uuid) (ch : Channel) (destroyed kept : Effects) (w : World)
    → ((u : Uuid) → shows_address u destroyed ≡ false)
    → ((u : Uuid) → shows_address u kept ≡ false)
    → IsQuiet w (settle k ch destroyed kept w)
unfolding settle
settle-IsQuiet k ch destroyed kept w p q =
    if_IsQuiet w (count_members ch == 0 && not (has ChannelOptions.persist ch)) _ _
      (emit-IsQuiet destroyed w _ p refl) (emit-IsQuiet kept w _ q refl)
