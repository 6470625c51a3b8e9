-- ===== src/Coherence/Staying.antt =====
-- `kick`, `part`, `set_channel_modes` and `set_channel_topic` keep the invariant.
use chatd.Base.{
  ℕ, ◌≡◌, refl, ◌∙◌, some, inl, inr, List, [], ◌∷◌, arith, ◌==◌, ◌&&◌, not, ltb, length, if_both,
  Option-cases, Bool-cases, ==_iff,
}
use chatd.Text.{Text}
use chatd.Dict.{lookup, contains-erase, lookup-insert_self}
use chatd.Message.{Uuid, sanitize_text_message}
use chatd.ChannelOptions
use chatd.ChannelOptions.{has_option, public_modes, get_options_from_u64, available}
use chatd.ClientOptions
use chatd.Client.{Client, is_pending, has_options, remove_channel}
use chatd.Channel.{Channel, is_member, set_options, add_option, remove_option, set_topic}
use chatd.Effect.{Env}
use chatd.Server.{Server, put_client, put_channel, get_channel_ref, get_client_ref}
use chatd.World.{World}
use chatd.Commands.Kick.{is_stranger, expel, kick}
use chatd.Commands.Part.{leave, part}
use chatd.Commands.Modes.{
  add_up, set_mode, set_public, change_modes, announce_modes, set_channel_modes,
}
use chatd.Commands.Topic.{store_topic, set_channel_topic}
use chatd.Coherence.{IsCoherent, IsSound, sound, coherent, keep, if_IsSound}
use chatd.Coherence.Maps.{put_channel-IsCoherent, put_client-IsCoherent}
use chatd.Coherence.Leaving.{
  IsGone, Shrinks-IsCoherent, store-Shrinks, store-IsGone, settle-Shrinks,
}

-- A channel may be stored again with the same id and the same members.
pub put_same-IsCoherent :
    (k : Uuid) (ch x : Channel) (s : Server)
    → IsCoherent s
    → lookup k s.channels ≡ some ch
    → x.id ≡ ch.id
    → x.members ≡ ch.members
    → IsCoherent (put_channel k x s)
put_same-IsCoherent k ch x s v found p q =
    put_channel-IsCoherent k x s v (p ∙ v.channel_ids k ch found)
      λ u m g. v.backed k ch u m found (rw q at g)

-- A client takes a channel off its list that it is not on.
drop_listed-IsCoherent :
    (k u : Uuid) (c : Client) (s : Server)
    → IsCoherent s
    → lookup u s.clients ≡ some c
    → IsGone u k s
    → IsCoherent (put_client u (remove_channel k c) s)
unfolding remove_channel is_pending
drop_listed-IsCoherent k u c s v found gone =
    put_client-IsCoherent u (remove_channel k c) s v (v.client_ids u c found)
      (λ j p. ground (arith, contains-erase k j c.channels, v.pending u c j found p))
      λ j ch m h g b. elim (Bool-cases (k == j)) [
        | inl same ↦
            let stored : lookup k s.channels ≡ some ch = rw ((==_iff k j).0 same) h in
            absurd (cc (gone ch stored, g))
        | inr other ↦
            let same : c ≡ b.client = cc (found, b.found) in
            record {
              client = remove_channel k c;
              id_eq = b.id_eq;
              found = lookup-insert_self u (remove_channel k c) s.clients;
              listed = rw (contains-erase k j c.channels, other, same) b.listed;
              same_name = rw same b.same_name;
              same_type = rw same b.same_type;
              same_options = rw same b.same_options;
            }
      ]

expel-IsSound :
    (k : Uuid) (ch : Channel) (u : Uuid) (t : Client) (reason : Text) (w : World)
    → IsSound w
    → lookup k w.server.channels ≡ some ch
    → lookup u w.server.clients ≡ some t
    → IsSound (expel k ch u t reason w)
unfolding expel put_channel
expel-IsSound k ch u t reason w v h g = sound _ (
    drop_listed-IsCoherent k u t _
      (Shrinks-IsCoherent _ _ (store-Shrinks u k ch w.server h) (coherent w v)) g
      (store-IsGone u k ch w.server))

pub kick-IsSound :
    (me : Client) (k u : Uuid) (reason : Text) (w : World)
    → IsSound w
    → IsSound (kick me k u reason w)
unfolding kick get_channel_ref get_client_ref
kick-IsSound me k u reason w v = elim (Option-cases (lookup k w.server.channels)) [
  | inl h ↦ rw (h, kick) (keep w _ v refl)
  | inr (ch, h) ↦
      rw (h, kick)
        (if_IsSound (is_stranger me ch) _ _ (keep w _ v refl) (
          if_IsSound (not (is_member u ch)) _ _ (keep w _ v refl)
            (elim (Option-cases (lookup u w.server.clients)) [
              | inl g ↦ rw g (keep w _ v refl)
              | inr (t, g) ↦ rw g (expel-IsSound k ch u t reason w v h g)
            ])))
]

leave-IsSound :
    (e : Env) (me : Client) (k : Uuid) (ch : Channel) (w : World)
    → IsSound w
    → lookup k w.server.channels ≡ some ch
    → IsSound (leave e me k ch w)
unfolding leave
leave-IsSound e me k ch w v h =
    sound _ (Shrinks-IsCoherent _ _ (settle-Shrinks me.id k ch _ _ _ h) (coherent w v))

pub part-IsSound :
    (e : Env) (me : Client) (k : Uuid) (w : World) → IsSound w → IsSound (part e me k w)
unfolding part get_channel_ref
part-IsSound e me k w v =
    if_IsSound
      (not (has_options ClientOptions.admin me) && not (has_options ClientOptions.part_channels me))
      _ _ (keep w _ v refl)
      (elim (Option-cases (lookup k w.server.channels)) [
        | inl h ↦ rw h (keep w _ v refl)
        | inr (ch, h) ↦ rw h (
            if_IsSound (not (is_member me.id ch)) _ _ (keep w _ v refl)
              (if_both IsSound _ _ _ (keep w _ v refl) (leave-IsSound e me k ch w v h)))
      ])

set_mode_same :
    (options mode : ChannelOptions.Options) (ch : Channel)
    → ((set_mode options mode ch).id ≡ ch.id) × ((set_mode options mode ch).members ≡ ch.members)
unfolding set_mode add_option remove_option
set_mode_same options mode ch = ground arith

set_public_same :
    (options : ChannelOptions.Options) (modes : List ChannelOptions.Options) (ch : Channel)
    → ((set_public options modes ch).id ≡ ch.id)
      × ((set_public options modes ch).members ≡ ch.members)
unfolding set_public
set_public_same options [] ch = (refl, refl)
set_public_same options (mode ∷ modes) ch =
    let (p, q) = set_mode_same options mode ch in
    let (p', q') = set_public_same options modes (set_mode options mode ch) in (p' ∙ p, q' ∙ q)

change_modes_same :
    (me : Client) (modes : ℕ) (ch : Channel)
    → ((change_modes me modes ch).id ≡ ch.id) × ((change_modes me modes ch).members ≡ ch.members)
unfolding change_modes set_options
change_modes_same me modes ch =
    let options = get_options_from_u64 (add_up modes available 0) in
    ground (arith, set_public_same options public_modes ch)

pub set_channel_modes-IsSound :
    (me : Client) (k : Uuid) (modes : ℕ) (w : World)
    → IsSound w
    → IsSound (set_channel_modes me k modes w)
unfolding set_channel_modes announce_modes get_channel_ref
set_channel_modes-IsSound me k modes w v = elim (Option-cases (lookup k w.server.channels)) [
  | inl h ↦ rw (h, set_channel_modes) (keep w _ v refl)
  | inr (ch, h) ↦
      let (p, q) = change_modes_same me modes ch in
      rw (h, set_channel_modes)
        (if_IsSound (is_stranger me ch) _ _ (keep w _ v refl) (
          if_IsSound (ch.options == (change_modes me modes ch).options) _ _ v (
            sound _
              (put_same-IsCoherent k ch (change_modes me modes ch) w.server (coherent w v) h p q))))
]

pub set_channel_topic-IsSound :
    (e : Env) (me : Client) (k : Uuid) (topic : Text) (max_len : ℕ) (w : World)
    → IsSound w
    → IsSound (set_channel_topic e me k topic max_len w)
unfolding set_channel_topic store_topic set_topic get_channel_ref
set_channel_topic-IsSound e me k topic max_len w v =
    elim (Option-cases (lookup k w.server.channels)) [
      | inl h ↦ rw (h, set_channel_topic) (keep w _ v refl)
      | inr (ch, h) ↦
          rw (h, set_channel_topic)
            (if_IsSound (is_stranger me ch) _ _ (keep w _ v refl) (
              if_IsSound (ltb max_len (length (sanitize_text_message topic))) _ _ (keep w _ v refl)
                (sound _ (put_same-IsCoherent k ch _ w.server (coherent w v) h refl refl))))
    ]
