-- ===== src/Coherence.antt =====
-- The invariant that ties the map of the clients to the members of the channels.
pub mod Maps
pub mod Leaving
pub mod Removing
pub mod Staying
pub mod Entering
pub mod Login
pub mod Run
pub mod Killed
pub mod Purged
use chatd.Base.{Bool, true, false, ◌≡◌, some, if◌then◌else◌, if_both}
use chatd.Dict.{Dict, lookup, contains}
use chatd.Message.{Uuid}
use chatd.Client.{Client, is_pending}
use chatd.Channel.{Channel}
use chatd.Server.{Server}
use chatd.World.{World, Outcome, world_of}

-- The entry `m` under `u` among the members of the channel `k` is a copy of a client of the server
-- that has the channel on its own list.
pub record IsBacked (clients : Dict Client) (k u : Uuid) (m : Client) : Type 0 where
  pub client : Client
  pub id_eq : m.id ≡ u
  pub found : lookup u clients ≡ some client
  pub listed : contains k client.channels ≡ true
  pub same_name : m.name ≡ client.name
  pub same_type : m.type ≡ client.type
  pub same_options : m.options ≡ client.options

pub record IsCoherent (s : Server) : Type 0 where
  pub channel_ids : (k : Uuid) (ch : Channel) → lookup k s.channels ≡ some ch → ch.id ≡ k
  pub client_ids : (u : Uuid) (c : Client) → lookup u s.clients ≡ some c → c.id ≡ u
  pub pending :
      (u : Uuid) (c : Client) (k : Uuid)
      → lookup u s.clients ≡ some c
      → is_pending c ≡ true
      → contains k c.channels ≡ false
  pub backed :
      (k : Uuid) (ch : Channel) (u : Uuid) (m : Client)
      → lookup k s.channels ≡ some ch
      → lookup u ch.members ≡ some m
      → IsBacked s.clients k u m

-- The invariant, as a property of a state together with its effects.
unfoldable pub IsSound : World → Type 0
IsSound w = IsCoherent w.server

pub sound : (w : World) → IsCoherent w.server → IsSound w
unfolding IsSound
sound w v = v

pub coherent : (w : World) → IsSound w → IsCoherent w.server
unfolding IsSound
coherent w v = v

-- Effects do not matter.
pub keep : (w x : World) → IsSound w → x.server ≡ w.server → IsSound x
unfolding IsSound
keep w x v same = rw same v

pub if_IsSound : (b : Bool) (x y : World) → IsSound x → IsSound y → IsSound (if b then x else y)
if_IsSound b x y = if_both IsSound b x y

-- The invariant holds in the state that a step leaves.
unfoldable pub LeavesSound : Outcome → Type 0
unfolding IsSound
LeavesSound o = IsSound (world_of o)

pub leaves_sound : (o : Outcome) → IsSound (world_of o) → LeavesSound o
unfolding LeavesSound
leaves_sound o v = v

pub if_leaves :
    (b : Bool) (x y : Outcome) → LeavesSound x → LeavesSound y → LeavesSound (if b then x else y)
if_leaves b x y = if_both LeavesSound b x y
