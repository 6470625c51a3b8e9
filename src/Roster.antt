-- ===== src/Roster.antt =====
-- The channels as a roster, that says who is where.
pub mod Leaving
pub mod Joining
pub mod Thinning
pub mod Entering
use chatd.Base.{
  ℕ, Bool, true, false, ◌≡◌, refl, sym, ◌∙◌, ap, ◌≢◌, ◌&&◌, ◌||◌, not, none, some, inl, inr, Option,
  List, [], ◌∷◌, ◌==◌, length, if_known, if_both, Bool-cases, Option-cases, arith, if◌then◌else◌,
  ==_iff, is_some, ltb,
}
use chatd.Text.{Text, is_uuid_v4, is_match}
use chatd.Dict.{
  Dict, lookup, contains, insert, erase, lookup-insert, lookup-erase, contains-insert,
  contains-erase,
}
use chatd.Message.{Uuid, sanitize_text_message}
use chatd.ClientOptions
use chatd.ChannelOptions
use chatd.Client.{Client, is_agent, has_options}
use chatd.Channel.{
  Channel, Effects, remove_member, insert_member, is_member, count_members, has, has_invite,
  owner_or_nil, set_options,
}
use chatd.Effect.{Env}
use chatd.Server.{
  Server, put_channel, put_client, remove_channel, add_channel, get_channel_ref, get_client_ref,
}
use chatd.World.{World, refuse, settle}
use chatd.Commands.Kick.{kick, is_stranger, expel}
use chatd.Commands.Part.{part, leave}
use chatd.Commands.Join.{join_existing, join_new, join_at, admit, create}
use chatd.Session.Refusal.{
  IsRefusal, kick-refuses, part-refuses, join_new-refuses, join_existing-refuses,
}
use chatd.Session.Permission.{may_kick, may_part, may_enter, may_create, may_join_at, manages}

-- Who is on which channel: the channel, then the client.
abbrev pub Roster : Type 0
Roster = Uuid → Uuid → Bool

abbrev pub holds : Option Channel → Uuid → Bool
holds none u = false
holds (some ch) u = contains u ch.members

unfoldable pub roster : Server → Roster
roster s k u = holds (lookup k s.channels) u

-- The client `u` leaves the channel `k`, or enters it.
unfoldable pub withdraw : Uuid → Uuid → Roster → Roster
withdraw k u r j v = r j v && not (j == k && v == u)

unfoldable pub seat : Uuid → Uuid → Roster → Roster
seat k u r j v = r j v || j == k && v == u

roster-at :
    (s : Server) (k v : Uuid) (ch : Channel)
    → lookup k s.channels ≡ some ch
    → roster s k v ≡ contains v ch.members
unfolding roster
roster-at s k v ch h = rw (roster, h) refl

pub roster-put_channel :
    (s : Server) (k j v : Uuid) (ch : Channel)
    → roster (put_channel k ch s) j v ≡ (if k == j then contains v ch.members else roster s j v)
unfolding roster put_channel
roster-put_channel s k j v ch =
    ap (λ o. holds o v) (lookup-insert k j ch s.channels)
    ∙ elim (Bool-cases (k == j)) [ inl same ↦ rw same refl | inr other ↦ rw other refl ]

pub roster-remove_channel :
    (s : Server) (k j v : Uuid)
    → roster (remove_channel k s) j v ≡ (if k == j then false else roster s j v)
unfolding roster remove_channel
roster-remove_channel s k j v =
    ap (λ o. holds o v) (lookup-erase k j s.channels)
    ∙ elim (Bool-cases (k == j)) [ inl same ↦ rw same refl | inr other ↦ rw other refl ]

-- The channel is stored without the member, or with a new one.
pub roster-withdraw :
    (s : Server) (k u j v : Uuid) (ch : Channel)
    → lookup k s.channels ≡ some ch
    → roster (put_channel k (remove_member u ch) s) j v ≡ withdraw k u (roster s) j v
unfolding withdraw remove_member
roster-withdraw s k u j v ch found =
    roster-put_channel s k j v (remove_member u ch) ∙ elim (Bool-cases (k == j)) [
      | inl same ↦
          let p : k ≡ j = (==_iff k j).0 same in
          rw same
            (rw (← p) (ground (arith, contains-erase u v ch.members, roster-at s k v ch found)))
      | inr other ↦ ground arith
    ]

pub roster-seat :
    (s : Server) (k v j : Uuid) (me : Client) (ch : Channel)
    → lookup k s.channels ≡ some ch
    → roster (put_channel k (insert_member me ch) s) j v ≡ seat k me.id (roster s) j v
unfolding seat insert_member
roster-seat s k v j me ch found =
    roster-put_channel s k j v (insert_member me ch) ∙ elim (Bool-cases (k == j)) [
      | inl same ↦
          let p : k ≡ j = (==_iff k j).0 same in
          rw same (
            rw (← p)
              (ground (arith, contains-insert me.id v me ch.members, roster-at s k v ch found)))
      | inr other ↦ ground arith
    ]

-- A refused command leaves the roster.
pub refused-roster :
    (me : Client) (w x : World) (j v : Uuid)
    → IsRefusal me w x
    → roster x.server j v ≡ roster w.server j v
unfolding IsRefusal
refused-roster me w x j v h = ap (λ s. roster s j v) h.0
