-- ===== src/Coherence/Leaving.antt =====
-- Members leave: the relation between the states before and after, and the loop over the channels
-- of a client.
use chatd.Base.{
  true, ◌≡◌, refl, ◌∙◌, none, some, [], ◌∷◌, inl, inr, ◌==◌, Bool-cases, Option-cases, ==_iff,
  if_both,
}
use chatd.Text.{Text}
use chatd.Dict.{Dict, lookup, contains, lookup-insert_inv, lookup-erase_inv, lookup-erase_self}
use chatd.Message.{Uuid}
use chatd.Client.{Client}
use chatd.Channel.{Channel, Effects, remove_member}
use chatd.Server.{Server, put_channel, remove_channel, get_channel_ref}
use chatd.World.{World, settle, for_channels}
use chatd.Coherence.{IsCoherent}
use chatd.Coherence.Maps.{IsAbsent}

-- From `s` to `t` the clients are the same, and channels and members only go.
pub record Shrinks (s t : Server) : Type 0 where
  pub clients : t.clients ≡ s.clients
  pub channels :
      (k : Uuid) (ch : Channel)
      → lookup k t.channels ≡ some ch
      → (old : Channel) × (lookup k s.channels ≡ some old)
        × (ch.id ≡ old.id)
        × ((u : Uuid) (m : Client) → lookup u ch.members ≡ some m → lookup u old.members ≡ some m)

pub Shrinks-refl : (s : Server) → Shrinks s s
Shrinks-refl s = record { clients = refl; channels = λ k ch h. (ch, h, refl, λ u m g. g) }

pub Shrinks-trans : (s t r : Server) → Shrinks s t → Shrinks t r → Shrinks s r
Shrinks-trans s t r a b = record {
  clients = b.clients ∙ a.clients;
  channels = λ k ch h.
      let (mid, p, q, sub) = b.channels k ch h in
      let (old, p', q', sub') = a.channels k mid p in
      (old, p', q ∙ q', λ u m g. sub' u m (sub u m g));
}

pub Shrinks-IsCoherent : (s t : Server) → Shrinks s t → IsCoherent s → IsCoherent t
Shrinks-IsCoherent s t a v = record {
  channel_ids = λ k ch h. let (old, p, q, sub) = a.channels k ch h in q ∙ v.channel_ids k old p;
  client_ids = rw a.clients v.client_ids;
  pending = rw a.clients v.pending;
  backed = λ k ch u m h g.
      let (old, p, q, sub) = a.channels k ch h in rw a.clients (v.backed k old u m p (sub u m g));
}

-- `u` is no member of the channel `k`.
abbrev pub IsGone : Uuid → Uuid → Server → Type 0
IsGone u k s = (ch : Channel) → lookup k s.channels ≡ some ch → lookup u ch.members ≡ none

pub Shrinks-IsGone : (u k : Uuid) (s t : Server) → Shrinks s t → IsGone u k s → IsGone u k t
Shrinks-IsGone u k s t a gone ch h =
    let (old, p, q, sub) = a.channels k ch h in
    elim (Option-cases (lookup u ch.members)) [
      | inl e ↦ e
      | inr (m, e) ↦ absurd (cc (gone old p, sub u m e))
    ]

pub remove_channel-Shrinks : (k : Uuid) (s : Server) → Shrinks s (remove_channel k s)
unfolding remove_channel
remove_channel-Shrinks k s = record {
  clients = refl;
  channels = λ j x h. (x, (lookup-erase_inv k j x s.channels h).1, refl, λ u m g. g);
}

remove_channel-IsGone : (u k : Uuid) (s : Server) → IsGone u k (remove_channel k s)
unfolding remove_channel
remove_channel-IsGone u k s ch h = absurd (cc (lookup-erase_self k s.channels))

-- The channel is stored without the member.
pub store-Shrinks :
    (u k : Uuid) (ch : Channel) (s : Server)
    → lookup k s.channels ≡ some ch
    → Shrinks s (put_channel k (remove_member u ch) s)
unfolding put_channel remove_member
store-Shrinks u k ch s found = record {
  clients = refl;
  channels = λ j x h. elim (lookup-insert_inv k j (remove_member u ch) x s.channels h) [
    | inl (p, q) ↦ (
      ch,
      rw (← p) found,
      rw (← q) refl,
      λ v m g. (lookup-erase_inv u v m ch.members (rw (← q) at g)).1,
    )
    | inr (p, q) ↦ (x, q, refl, λ v m g. g)
  ];
}

pub store-IsGone :
    (u k : Uuid) (ch : Channel) (s : Server) → IsGone u k (put_channel k (remove_member u ch) s)
unfolding put_channel remove_member
store-IsGone u k ch s x h = elim (lookup-insert_inv k k (remove_member u ch) x s.channels h) [
  | inl (p, q) ↦ rw (← q) (lookup-erase_self u ch.members)
  | inr (p, q) ↦ absurd (p refl)
]

module _ (u k : Uuid) (ch : Channel) (destroyed kept : Effects) (w : World) where
  pub settle-Shrinks :
      lookup k w.server.channels ≡ some ch
      → Shrinks w.server (settle k (remove_member u ch) destroyed kept w).server
  unfolding settle
  settle-Shrinks found =
      let stored = store-Shrinks u k ch w.server found in
      if_both (λ (x : World). Shrinks w.server x.server) _ _ _
        (Shrinks-trans _ _ _ stored (remove_channel-Shrinks k _)) stored

  pub settle-IsGone : IsGone u k (settle k (remove_member u ch) destroyed kept w).server
  unfolding settle
  settle-IsGone =
      if_both (λ (x : World). IsGone u k x.server) _ _ _ (remove_channel-IsGone u k _)
        (store-IsGone u k ch w.server)

-- What the body of a loop over the channels of `u` does at a channel that is there.
abbrev pub IsDeparture : Uuid → (Uuid → Text → Channel → World → World) → Type 0
IsDeparture u body =
    (k : Uuid) (name : Text) (ch : Channel) (w : World)
    → lookup k w.server.channels ≡ some ch
    → Shrinks w.server (body k name ch w).server × IsGone u k (body k name ch w).server

-- The loop only takes away, and `u` is gone from every channel of the list.
module _ (u : Uuid) (body : Uuid → Text → Channel → World → World)
    (leaves : IsDeparture u body) where
  round : Uuid → Text → World → World
  round k name w = elim (get_channel_ref k w.server) [ none ↦ w | some ch ↦ body k name ch w ]

  round_lem :
      (k : Uuid) (name : Text) (w : World)
      → Shrinks w.server (round k name w).server × IsGone u k (round k name w).server
  unfolding round get_channel_ref
  round_lem k name w = elim (Option-cases (lookup k w.server.channels)) [
    | inl e ↦ rw (e, round) (Shrinks-refl w.server, λ ch h. absurd (cc h))
    | inr (ch, e) ↦ rw (e, round) (leaves k name ch w e)
  ]

  pub for_channels_lem :
      (ds : Dict Text) (w : World)
      → Shrinks w.server (for_channels body ds w).server
        × ((k : Uuid) → contains k ds ≡ true → IsGone u k (for_channels body ds w).server)
  unfolding for_channels round contains lookup
  for_channels_lem [] w = (Shrinks-refl w.server, λ k h. absurd (cc h))
  for_channels_lem ((j, name) ∷ ds) w =
      let (step, gone) = round_lem j name w in
      let (rest, all) = for_channels_lem ds (round j name w) in
      (
        Shrinks-trans _ _ _ step rest,
        λ k h. elim (Bool-cases (j == k)) [
          | inl same ↦ rw (← (==_iff j k).0 same) (Shrinks-IsGone u j _ _ rest gone)
          | inr other ↦ all k (rw other at h)
        ],
      )

  -- A client that loops over its own list is on no channel afterwards.
  pub for_channels-IsAbsent :
      (c : Client) (w : World)
      → IsCoherent w.server
      → lookup u w.server.clients ≡ some c
      → IsAbsent u (for_channels body c.channels w).server
  for_channels-IsAbsent c w v found k ch h =
      let (step, gone) = for_channels_lem c.channels w in
      elim (Option-cases (lookup u ch.members)) [
        | inl e ↦ e
        | inr (m, e) ↦
            let b = (Shrinks-IsCoherent _ _ step v).backed k ch u m h e in
            let same : c ≡ b.client = cc (found, step.clients, b.found) in
            gone k (rw same b.listed) ch h
      ]
