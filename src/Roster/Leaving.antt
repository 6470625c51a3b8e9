-- ===== src/Roster/Leaving.antt =====
-- What kicks and parts make of the roster.
use chatd.Base.{
  true, false, ◌≡◌, refl, ◌∙◌, ◌&&◌, ◌||◌, not, some, inl, inr, [], ◌∷◌, ◌==◌, length, if_known,
  Bool-cases, Option-cases, arith, if◌then◌else◌,
}
use chatd.Text.{Text}
use chatd.Dict.{Dict, lookup, contains, insert}
use chatd.Message.{Uuid}
use chatd.ClientOptions
use chatd.ChannelOptions
use chatd.Client.{Client, is_agent, has_options}
use chatd.Channel.{Channel, Effects, remove_member, is_member, count_members, has}
use chatd.Effect.{Env}
use chatd.Server.{put_channel, put_client, get_channel_ref, get_client_ref}
use chatd.World.{World, settle}
use chatd.Commands.Kick.{kick, is_stranger, expel}
use chatd.Commands.Part.{part, leave}
use chatd.Session.Refusal.{kick-refuses, part-refuses}
use chatd.Session.Permission.{may_kick, may_part, manages}
use chatd.Roster.{
  roster, withdraw, roster-put_channel, roster-remove_channel, roster-withdraw, refused-roster,
}

kick_expels :
    (me : Client) (k u : Uuid) (reason : Text) (w : World)
    → may_kick me k u w.server ≡ true
    → (ch : Channel) × (t : Client) × (lookup k w.server.channels ≡ some ch)
      × (kick me k u reason w ≡ expel k ch u t reason w)
unfolding kick get_channel_ref get_client_ref may_kick is_stranger manages
kick_expels me k u reason w may = elim (Option-cases (lookup k w.server.channels)) [
  | inl h ↦ absurd (cc (rw (may_kick, h) at may))
  | inr (ch, h) ↦ elim (Option-cases (lookup u w.server.clients)) [
    | inl g ↦
        let never : (manages me ch && is_member u ch && false) ≡ true =
          rw (may_kick, h, g) at may in
        absurd (ground arith)
    | inr (t, g) ↦
        let able : (manages me ch && is_member u ch && true) ≡ true = rw (may_kick, h, g) at may in
        let known : is_stranger me ch ≡ false = ground arith in
        let member : not (is_member u ch) ≡ false = ground arith in
        (ch, t, h, rw (kick, h, known, member, g) refl)
  ]
]

-- A kick on the roster: if it is permitted the user leaves the channel, and else nobody moves.
pub kick-withdraw :
    (me : Client) (k u : Uuid) (reason : Text) (w : World) (j v : Uuid)
    → roster (kick me k u reason w).server j v ≡ (
        if may_kick me k u w.server
        then withdraw k u (roster w.server) j v
        else roster w.server j v)
unfolding expel put_client put_channel insert roster
kick-withdraw me k u reason w j v = elim (Bool-cases (may_kick me k u w.server)) [
  | inr denied ↦ rw denied (refused-roster me w _ j v (kick-refuses me w k u reason denied))
  | inl may ↦
      let (ch, t, found, same) = kick_expels me k u reason w may in
      rw (may, same) (roster-withdraw w.server k u j v ch found)
]

length-contains : (v : Uuid) (cs : Dict Client) → length cs ≡ 0 → contains v cs ≡ false
unfolding contains lookup
length-contains v [] h = refl
length-contains v (x ∷ cs) h = absurd (omega (arith, h))

settle-withdraw :
    (k u j v : Uuid) (ch : Channel) (destroyed kept : Effects) (w : World)
    → lookup k w.server.channels ≡ some ch
    → roster (settle k (remove_member u ch) destroyed kept w).server j v
      ≡ withdraw k u (roster w.server) j v
unfolding settle count_members
settle-withdraw k u j v ch destroyed kept w found =
    let rest = remove_member u ch in
    let stored = put_channel k rest w.server in
    let kept_case = roster-withdraw w.server k u j v ch found in
    if_known (λ (x : World). roster x.server j v ≡ withdraw k u (roster w.server) j v)
      (length rest.members == 0 && not (has ChannelOptions.persist rest)) _ _
      (λ over.
        roster-remove_channel stored k j v
        ∙ ground (
          arith,
          kept_case,
          roster-put_channel w.server k j v rest,
          length-contains v rest.members,
        ))
      (λ stays. kept_case)

part_leaves :
    (e : Env) (me : Client) (k : Uuid) (w : World)
    → may_part me k w.server ≡ true
    → (ch : Channel) × (lookup k w.server.channels ≡ some ch) × (part e me k w ≡ leave e me k ch w)
unfolding part get_channel_ref may_part
part_leaves e me k w may = elim (Option-cases (lookup k w.server.channels)) [
  | inl h ↦ absurd (cc (rw (may_part, h) at may))
  | inr (ch, h) ↦
      let admin = has_options ClientOptions.admin me in
      let parts = has_options ClientOptions.part_channels me in
      let held = has ChannelOptions.can_not_leave ch in
      let able : ((admin || parts) && is_member me.id ch && (not held || is_agent me && admin))
          ≡ true =
        rw (may_part, h) at may in
      let allowed : (not admin && not parts) ≡ false = ground arith in
      let member : not (is_member me.id ch) ≡ false = ground arith in
      let free : (held && (not (is_agent me) || not admin)) ≡ false = ground arith in
      (ch, h, rw (part, allowed, h, member, free) refl)
]

-- A part on the roster: if it is permitted the client leaves the channel, and else nobody moves.
pub part-withdraw :
    (e : Env) (me : Client) (k : Uuid) (w : World) (j v : Uuid)
    → roster (part e me k w).server j v ≡ (
        if may_part me k w.server
        then withdraw k me.id (roster w.server) j v
        else roster w.server j v)
unfolding leave
part-withdraw e me k w j v = elim (Bool-cases (may_part me k w.server)) [
  | inr denied ↦ rw denied (refused-roster me w _ j v (part-refuses me w e k denied))
  | inl may ↦
      let (ch, found, same) = part_leaves e me k w may in
      rw (may, same) (settle-withdraw k me.id j v ch _ _ _ found)
]
