-- ===== src/Standing.antt =====
-- What a client is on the server: its id, name, type, permissions, address and time of connection,
-- and the steps that leave them alone.
pub mod Leaving
pub mod Commands
pub mod Granted
pub mod Login
pub mod Run
pub mod Banned
pub mod Following
pub mod Exile
use chatd.Base.{Bool, true, ◌≡◌, refl, sym, ap, ◌∙◌, some, inl, inr, if◌then◌else◌, if_both, arith}
use mathlib.Core.Path.{subst}
use chatd.Dict.{
  lookup, insert, map_values, lookup-insert_inv, lookup-erase_inv, lookup-map_values_inv,
}
use chatd.Message.{Uuid, IpAddr, Message}
use chatd.Ban.{exists}
use chatd.Client.{Client, ClientStatus, set_status}
use chatd.Effect.{Env}
use chatd.Server.{Server, remove_client, sendto_wallops}
use chatd.Server.Lookup.{mark, write_where-map_values}
use chatd.World.{World, Outcome, world_of, wallops}

-- `d` stands as `c` does.
pub record StandsAs (c d : Client) : Type 0 where
  pub id : d.id ≡ c.id
  pub name : d.name ≡ c.name
  pub type : d.type ≡ c.type
  pub options : d.options ≡ c.options
  pub ip : d.ip ≡ c.ip
  pub connected : d.connected ≡ c.connected

pub StandsAs-refl : (c : Client) → StandsAs c c
StandsAs-refl c = record {
  id = refl;
  name = refl;
  type = refl;
  options = refl;
  ip = refl;
  connected = refl;
}

StandsAs-trans : (b c d : Client) → StandsAs b c → StandsAs c d → StandsAs b d
StandsAs-trans b c d p q = record {
  id = q.id ∙ p.id;
  name = q.name ∙ p.name;
  type = q.type ∙ p.type;
  options = q.options ∙ p.options;
  ip = q.ip ∙ p.ip;
  connected = q.connected ∙ p.connected;
}

-- From `s` to `t` no client has come, those that are left stand as they did, and no ban is lifted.
pub record Persists (s t : Server) : Type 0 where
  pub at :
      (u : Uuid) (d : Client)
      → lookup u t.clients ≡ some d
      → (c : Client) × (lookup u s.clients ≡ some c) × StandsAs c d
  pub bans : (ip : IpAddr) → exists s.bans ip ≡ true → exists t.bans ip ≡ true

-- The relation between states with their effects.
unfoldable pub Stays : World → World → Type 0
Stays w x = Persists w.server x.server

same_bans :
    (s t : Server) (ip : IpAddr)
    → t.bans ≡ s.bans
    → exists s.bans ip ≡ true
    → exists t.bans ip ≡ true
same_bans s t ip e h = subst (λ bans. exists bans ip ≡ true) (sym e) h

pub same_clients-Persists : (s t : Server) → t.clients ≡ s.clients → t.bans ≡ s.bans → Persists s t
same_clients-Persists s t same bans = record {
  at = λ u d h. (d, rw (← same) h, StandsAs-refl d);
  bans = λ ip h. same_bans s t ip bans h;
}

pub Persists-trans : (s t r : Server) → Persists s t → Persists t r → Persists s r
Persists-trans s t r p q = record {
  at = λ u d h.
      let (c, g, same) = q.at u d h in
      let (b, f, before) = p.at u c g in (b, f, StandsAs-trans b c d before same);
  bans = λ ip h. q.bans ip (p.bans ip h);
}

pub write-Persists :
    (u : Uuid) (old c : Client) (s t : Server)
    → lookup u s.clients ≡ some old
    → StandsAs old c
    → t.clients ≡ insert u c s.clients
    → t.bans ≡ s.bans
    → Persists s t
write-Persists u old c s t found same e bans = record {
  bans = λ ip h. same_bans s t ip bans h;
  at = λ j d h. elim (lookup-insert_inv u j c d s.clients (rw e at h)) [
    | inl (p, q) ↦ (old, rw (← p) found, rw (← q) same)
    | inr (p, q) ↦ (d, q, StandsAs-refl d)
  ];
}

pub remove_client-Persists : (u : Uuid) (s : Server) → Persists s (remove_client u s)
unfolding remove_client
remove_client-Persists u s = record {
  at = λ j d h. (d, (lookup-erase_inv u j d s.clients h).1, StandsAs-refl d);
  bans = λ ip h. h;
}

pub map_values-Persists :
    (f : Client → Client) (s t : Server)
    → ((c : Client) → StandsAs c (f c))
    → t.clients ≡ map_values f s.clients
    → t.bans ≡ s.bans
    → Persists s t
map_values-Persists f s t same e bans = record {
  bans = λ ip h. same_bans s t ip bans h;
  at = λ u d h.
      let (c, p, q) = lookup-map_values_inv f u d s.clients (rw e at h) in
      (c, p, rw (← q) (same c));
}

mark-StandsAs :
    (test : Client → Bool) (fails : Uuid → Bool) (c : Client) → StandsAs c (mark test fails c)
unfolding mark set_status
mark-StandsAs test fails c = ground arith

-- The rules for states with effects.
pub stays : (w x : World) → Persists w.server x.server → Stays w x
unfolding Stays
stays w x p = p

pub persists : (w x : World) → Stays w x → Persists w.server x.server
unfolding Stays
persists w x p = p

pub write-Stays :
    (u : Uuid) (old c : Client) (w x : World)
    → lookup u w.server.clients ≡ some old
    → StandsAs old c
    → x.server.clients ≡ insert u c w.server.clients
    → x.server.bans ≡ w.server.bans
    → Stays w x
unfolding Stays
write-Stays u old c w x found same e bans =
    write-Persists u old c w.server x.server found same e bans

pub same_clients-Stays :
    (w x : World) → x.server.clients ≡ w.server.clients → x.server.bans ≡ w.server.bans → Stays w x
unfolding Stays
same_clients-Stays w x same bans = same_clients-Persists w.server x.server same bans

-- Where nothing of the server has changed.
pub same_server-Stays : (w x : World) → x.server ≡ w.server → Stays w x
same_server-Stays w x same =
    same_clients-Stays w x (ap (λ (s : Server). s.clients) same) (ap (λ (s : Server). s.bans) same)

pub Stays-trans : (w x y : World) → Stays w x → Stays x y → Stays w y
unfolding Stays
Stays-trans w x y p q = Persists-trans w.server x.server y.server p q

pub wallops-Stays : (e : Env) (m : Message) (w : World) → Stays w (wallops e m w)
unfolding Stays sendto_wallops
wallops-Stays e m w =
    map_values-Persists _ w.server _ (mark-StandsAs _ e.write_fails)
      (write_where-map_values _ e.write_fails m w.server.clients) refl

pub if_Stays :
    (w : World) (b : Bool) (x y : World) → Stays w x → Stays w y → Stays w (if b then x else y)
if_Stays w b x y = if_both (Stays w) b x y

-- The relation at the state that a step leaves.
unfoldable pub LeavesStays : World → Outcome → Type 0
unfolding Stays
LeavesStays w o = Stays w (world_of o)

pub leaves_stays : (w : World) (o : Outcome) → Stays w (world_of o) → LeavesStays w o
unfolding LeavesStays
leaves_stays w o p = p

pub if_LeavesStays :
    (w : World) (b : Bool) (x y : Outcome)
    → LeavesStays w x
    → LeavesStays w y
    → LeavesStays w (if b then x else y)
if_LeavesStays w b x y = if_both (LeavesStays w) b x y
