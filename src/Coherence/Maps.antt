-- ===== src/Coherence/Maps.antt =====
-- How the single writes to the two maps keep the invariant.
use chatd.Base.{
  true, false, ◌≡◌, refl, sym, ◌∙◌, none, some, inl, inr, arith, ◌==◌, Bool-cases, Option-cases, ap,
  ==_iff,
}
use chatd.Dict.{
  Dict, lookup, contains, insert, lookup-insert, lookup-erase, lookup-insert_inv, lookup-erase_inv,
  map_values, lookup-map_values_inv, lookup-map_values_keep,
}
use chatd.Message.{Uuid}
use chatd.Client.{Client, is_pending}
use chatd.Channel.{Channel}
use chatd.Server.{Server, put_client, put_channel, remove_channel, remove_client}
use chatd.Coherence.{IsBacked, IsCoherent}

-- A channel is stored under its id, with members that are backed.
pub put_channel-IsCoherent :
    (k : Uuid) (ch : Channel) (s : Server)
    → IsCoherent s
    → ch.id ≡ k
    → ((u : Uuid) (m : Client) → lookup u ch.members ≡ some m → IsBacked s.clients k u m)
    → IsCoherent (put_channel k ch s)
unfolding put_channel
put_channel-IsCoherent k ch s v e members = record {
  channel_ids = λ j x h. elim (lookup-insert_inv k j ch x s.channels h) [
    | inl (p, q) ↦ cc
    | inr (p, q) ↦ v.channel_ids j x q
  ];
  client_ids = v.client_ids;
  pending = v.pending;
  backed = λ j x u m h g. elim (lookup-insert_inv k j ch x s.channels h) [
    | inl (p, q) ↦ rw (← p) (members u m (rw q g))
    | inr (p, q) ↦ v.backed j x u m q g
  ];
}

pub remove_channel-IsCoherent :
    (k : Uuid) (s : Server) → IsCoherent s → IsCoherent (remove_channel k s)
unfolding remove_channel
remove_channel-IsCoherent k s v = record {
  channel_ids = λ j x h. v.channel_ids j x (lookup-erase_inv k j x s.channels h).1;
  client_ids = v.client_ids;
  pending = v.pending;
  backed = λ j x u m h g. v.backed j x u m (lookup-erase_inv k j x s.channels h).1 g;
}

-- Nobody is a member under the name `u`.
abbrev pub IsAbsent : Uuid → Server → Type 0
IsAbsent u s =
    (k : Uuid) (ch : Channel) → lookup k s.channels ≡ some ch → lookup u ch.members ≡ none

pub remove_client-IsCoherent :
    (u : Uuid) (s : Server) → IsCoherent s → IsAbsent u s → IsCoherent (remove_client u s)
unfolding remove_client
remove_client-IsCoherent u s v absent = record {
  channel_ids = v.channel_ids;
  client_ids = λ j x h. v.client_ids j x (lookup-erase_inv u j x s.clients h).1;
  pending = λ j x k h p. v.pending j x k (lookup-erase_inv u j x s.clients h).1 p;
  backed = λ k ch j m h g.
      let b = v.backed k ch j m h g in
      record {
        client = b.client;
        id_eq = b.id_eq;
        found = ground (arith, lookup-erase u j s.clients, absent k ch h, b.found);
        listed = b.listed;
        same_name = b.same_name;
        same_type = b.same_type;
        same_options = b.same_options;
      };
}

-- `d` may take the place of `c` in the map: the copies of `c` on the channels fit it, and nothing
-- is off its list.
pub record Extends (c d : Client) : Type 0 where
  pub lists : (k : Uuid) → contains k c.channels ≡ true → contains k d.channels ≡ true
  pub name : c.name ≡ d.name
  pub type : c.type ≡ d.type
  pub options : c.options ≡ d.options

pub Extends-refl : (c : Client) → Extends c c
Extends-refl c = record { lists = λ k h. h; name = refl; type = refl; options = refl }

IsBacked-Extends :
    (cs ds : Dict Client) (k u : Uuid) (m d : Client) (b : IsBacked cs k u m)
    → Extends b.client d
    → lookup u ds ≡ some d
    → IsBacked ds k u m
IsBacked-Extends cs ds k u m d b x h = record {
  client = d;
  id_eq = b.id_eq;
  found = h;
  listed = x.lists k b.listed;
  same_name = b.same_name ∙ x.name;
  same_type = b.same_type ∙ x.type;
  same_options = b.same_options ∙ x.options;
}

-- A client may be written if what backed a membership of it still does.
pub put_client-IsCoherent :
    (u : Uuid) (c : Client) (s : Server)
    → IsCoherent s
    → c.id ≡ u
    → ((k : Uuid) → is_pending c ≡ true → contains k c.channels ≡ false)
    → ((k : Uuid) (ch : Channel) (m : Client)
        → lookup k s.channels ≡ some ch
        → lookup u ch.members ≡ some m
        → IsBacked s.clients k u m
        → IsBacked (insert u c s.clients) k u m)
    → IsCoherent (put_client u c s)
unfolding put_client
put_client-IsCoherent u c s v e fresh fits = record {
  channel_ids = v.channel_ids;
  client_ids = λ j x h. elim (lookup-insert_inv u j c x s.clients h) [
    | inl (p, q) ↦ cc
    | inr (p, q) ↦ v.client_ids j x q
  ];
  pending = λ j x k h p. elim (lookup-insert_inv u j c x s.clients h) [
    | inl (p', q) ↦ rw (← q) (fresh k (rw q p))
    | inr (p', q) ↦ v.pending j x k q p
  ];
  backed = λ k ch j m h g.
      let b = v.backed k ch j m h g in
      elim (Bool-cases (u == j)) [
        | inl same ↦
            let p : u ≡ j = (==_iff u j).0 same in
            let back : IsBacked (insert u c s.clients) k u m = fits k ch m h (rw p g) (rw p b) in
            rw (← p) back
        | inr other ↦
            IsBacked-Extends s.clients (insert u c s.clients) k j m b.client b
              (Extends-refl b.client) (ground (arith, lookup-insert u j c s.clients, b.found))
      ];
}

-- A client that a broadcast or a sweep has marked: all but its status and its times is kept, and
-- it is not made pending.
pub record Alike (c d : Client) : Type 0 where
  pub id : d.id ≡ c.id
  pub name : d.name ≡ c.name
  pub type : d.type ≡ c.type
  pub options : d.options ≡ c.options
  pub channels : d.channels ≡ c.channels
  pub pending : is_pending d ≡ true → is_pending c ≡ true

Alike-Extends : (c d : Client) → Alike c d → Extends c d
Alike-Extends c d a = record {
  lists = λ k h. rw a.channels h;
  name = sym a.name;
  type = sym a.type;
  options = sym a.options;
}

-- All clients may be marked at once.
pub map_values-IsCoherent :
    (f : Client → Client) (s : Server)
    → ((c : Client) → Alike c (f c))
    → IsCoherent s
    → IsCoherent (record s { clients = map_values f s.clients })
map_values-IsCoherent f s alike v = record {
  channel_ids = v.channel_ids;
  client_ids = λ u d h.
      let (c, p, q) = lookup-map_values_inv f u d s.clients h in
      rw (← q) ((alike c).id ∙ v.client_ids u c p);
  pending = λ u d k h g.
      let (c, p, q) = lookup-map_values_inv f u d s.clients h in
      rw (← q, (alike c).channels) (v.pending u c k p ((alike c).pending (rw q g)));
  backed = λ k ch u m h g.
      let b = v.backed k ch u m h g in
      IsBacked-Extends s.clients (map_values f s.clients) k u m (f b.client) b
        (Alike-Extends b.client (f b.client) (alike b.client))
        (lookup-map_values_keep f u b.client s.clients b.found);
}

-- It may if the copies of what was there fit it,
pub put_extended-IsCoherent :
    (u : Uuid) (old c : Client) (s : Server)
    → IsCoherent s
    → c.id ≡ u
    → ((k : Uuid) → is_pending c ≡ true → contains k c.channels ≡ false)
    → lookup u s.clients ≡ some old
    → Extends old c
    → IsCoherent (put_client u c s)
put_extended-IsCoherent u old c s v e fresh found extends =
    put_client-IsCoherent u c s v e fresh λ k ch m h g b.
      let same : old ≡ b.client = cc (found, b.found) in
      IsBacked-Extends s.clients (insert u c s.clients) k u m c b (rw (← same) extends)
        (ground (arith, lookup-insert u u c s.clients))

-- or if there are none.
pub put_absent-IsCoherent :
    (u : Uuid) (c : Client) (s : Server)
    → IsCoherent s
    → c.id ≡ u
    → ((k : Uuid) → is_pending c ≡ true → contains k c.channels ≡ false)
    → IsAbsent u s
    → IsCoherent (put_client u c s)
put_absent-IsCoherent u c s v e fresh absent =
    put_client-IsCoherent u c s v e fresh λ k ch m h g b. absurd (cc (absent k ch h, g))

-- A client that has not logged in is on no channel.
pub pending-IsAbsent :
    (u : Uuid) (c : Client) (s : Server)
    → IsCoherent s
    → lookup u s.clients ≡ some c
    → is_pending c ≡ true
    → IsAbsent u s
pending-IsAbsent u c s v found pending k ch h = elim (Option-cases (lookup u ch.members)) [
  | inl e ↦ e
  | inr (m, e) ↦
      let b = v.backed k ch u m h e in
      let same : c ≡ b.client = cc (found, b.found) in
      absurd (
        cc (
          v.pending u c k found pending,
          ap (λ (x : Client). contains k x.channels) same,
          b.listed,
        ))
]

-- Only the two maps matter.
pub same_maps-IsCoherent :
    (s t : Server) → t.clients ≡ s.clients → t.channels ≡ s.channels → IsCoherent s → IsCoherent t
same_maps-IsCoherent s t p q v = record {
  channel_ids = rw q v.channel_ids;
  client_ids = rw p v.client_ids;
  pending = rw p v.pending;
  backed = rw (p, q) v.backed;
}
