-- ===== src/Session/Machine.antt =====
-- src/main.rs: the server as a machine that takes one event after the other. The loop that accepts
-- connections asks for a ban; the task that it spawns adds the client, once TLS and the websocket
-- have shaken hands. Both are events of their own, and any others may come between them.
use chatd.Base.{◌+◌, Bool, false, none, some, List, [], ◌∷◌, ◌++◌, ◌||◌, if◌then◌else◌}
use chatd.Text.{Text, lit}
use chatd.Message.{Uuid, IpAddr, ip_eq, Message}
use chatd.Client.{Client, ClientStatus, set_status}
use chatd.Client
use chatd.Config.{Config}
use chatd.Effect.{Env}
use chatd.Server.{Server, ban_exists, add_client, get_client_ref, put_client}
use chatd.World.{World, Outcome, modify}
use chatd.Commands.AuthAgent.{AuthFinder}
use chatd.Session.Departure.{handle_client_error}
use chatd.Session.Pings.{check_client_pings}
use chatd.Session.Dispatch.{receive}

-- `reading` is whether the task of the mpsc loop still runs; `handshakes` are the addresses of the
-- connections that have been let past the bans and are not clients yet.
pub record Machine : Type 0 where
  pub world : World
  pub reading : Bool
  pub handshakes : List IpAddr

pub data Event : Type 0 where
  connects : IpAddr → Event
  opens : IpAddr → Event
  fails : IpAddr → Event
  commands : Message → Event
  drops : Uuid → Text → Event
  wakes : Event

abbrev pub count_banned : Server → Server
count_banned s = record s { banned_connects = s.banned_connects + 1 }

-- Whether a handshake with the address is under way.
unfoldable pub waits : IpAddr → List IpAddr → Bool
waits ip [] = false
waits ip (from ∷ rest) = ip_eq from ip || waits ip rest

-- One handshake with the address less.
unfoldable pub take_out : IpAddr → List IpAddr → List IpAddr
take_out ip [] = []
take_out ip (from ∷ rest) =
    let left = take_out ip rest in if ip_eq from ip then rest else from ∷ left

-- From `listener.accept` to the task that is spawned.
unfoldable pub accept : IpAddr → Machine → Machine
accept ip m =
    if ban_exists ip m.world.server
    then record m { world = modify count_banned m.world }
    else record m { handshakes = m.handshakes ++ ip ∷ [] }

-- The task from the end of both handshakes to `add_client`. It does not ask for a ban.
unfoldable pub open_client : Env → IpAddr → Machine → Machine
open_client e ip m =
    if waits ip m.handshakes
    then record m {
      world =
          modify
            (add_client
              (Client.new e.new_v4 (lit "Guest-" ++ e.show_number e.guest_number) ip e.now))
            m.world;
      handshakes = take_out ip m.handshakes;
    }
    else m

-- A read error. A client that the map has lost is on no channel, and nothing is left to do.
unfoldable pub drop : Env → Uuid → Text → World → World
drop e id reason w = elim (get_client_ref id w.server) [
  | none ↦ w
  | some c ↦
      let closing = set_status ClientStatus.closing c in
      handle_client_error e closing reason (modify (put_client id closing) w)
]

-- A panic ends the task of the mpsc loop, and no command is read from then on.
abbrev pub after : Machine → Outcome → Machine
after m (Outcome.returned w) = record m { world = w }
after m (Outcome.panicked w) = record m { world = w; reading = false }

module _ (authfinder : AuthFinder) (config : Config) where
  -- `fails` is a handshake that fails, and a connection that the loop drops because it finds the
  -- server locked.
  unfoldable pub step : Env × Event → Machine → Machine
  step (e, Event.connects ip) m = accept ip m
  step (e, Event.opens ip) m = open_client e ip m
  step (e, Event.fails ip) m = record m { handshakes = take_out ip m.handshakes }
  step (e, Event.commands message) m =
      if m.reading then after m (receive e authfinder config message m.world) else m
  step (e, Event.drops id reason) m = record m { world = drop e id reason m.world }
  step (e, Event.wakes) m = record m { world = check_client_pings e m.world }

  unfoldable pub run : List (Env × Event) → Machine → Machine
  run [] m = m
  run (x ∷ xs) m = run xs (step x m)
