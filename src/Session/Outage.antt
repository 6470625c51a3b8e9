-- ===== src/Session/Outage.antt =====
-- src/main.rs and src/commands.rs: what is left of the server when a command panics.
use chatd.Base.{
  ℕ, ◌+◌, ◌^◌, ◌≤◌, true, false, ◌≡◌, refl, none, some, List, [], ◌∷◌, if_both, arith, unwrap_or,
}
use chatd.Text.{Text}
use chatd.Dict.{lookup}
use chatd.Message.{Uuid, IpAddr, Message, MessageType, nil, new}
use chatd.Client.{Client, is_agent, is_pending}
use chatd.Config.{Config}
use chatd.Effect.{Env}
use chatd.Server.{ban_exists, put_client, get_client_ref}
use chatd.World.{World, Outcome, modify}
use chatd.Commands.AuthAgent.{AuthFinder}
use chatd.Commands.Kline.{kline, checked_add}
use chatd.Session.Dispatch.{touch, post_auth, handle_client_command, receive}
use chatd.Session.Machine.{Machine, Event, waits, accept, open_client, step, run}

-- The events that are no commands.
unfoldable pub without_commands : List (Env × Event) → List (Env × Event)
without_commands [] = []
without_commands ((e, Event.commands m) ∷ xs) = without_commands xs
without_commands (x ∷ xs) = x ∷ without_commands xs

module _ (authfinder : AuthFinder) (config : Config) where
  -- Once the task that reads commands has ended, no event starts it again.
  idle_step :
      (x : Env × Event) (m : Machine)
      → m.reading ≡ false
      → (step authfinder config x m).reading ≡ false
  unfolding step accept open_client
  idle_step (e, Event.connects ip) m idle =
      if_both (λ (n : Machine). n.reading ≡ false) (ban_exists ip m.world.server) _ _ idle idle
  idle_step (e, Event.opens ip) m idle =
      if_both (λ (n : Machine). n.reading ≡ false) (waits ip m.handshakes) _ _ idle idle
  idle_step (e, Event.fails ip) m idle = idle
  idle_step (e, Event.commands message) m idle = rw (step, idle) refl
  idle_step (e, Event.drops id reason) m idle = idle
  idle_step (e, Event.wakes) m idle = idle

  idle_command :
      (e : Env) (message : Message) (m : Machine)
      → m.reading ≡ false
      → step authfinder config (e, Event.commands message) m ≡ m
  unfolding step
  idle_command e message m idle = rw (step, idle) refl

  ignored :
      (xs : List (Env × Event)) (m : Machine)
      → m.reading ≡ false
      → run authfinder config xs m ≡ run authfinder config (without_commands xs) m
  unfolding run without_commands
  ignored [] m idle = refl
  ignored ((e, Event.connects ip) ∷ xs) m idle =
      ignored xs _ (idle_step (e, Event.connects ip) m idle)
  ignored ((e, Event.opens ip) ∷ xs) m idle = ignored xs _ (idle_step (e, Event.opens ip) m idle)
  ignored ((e, Event.fails ip) ∷ xs) m idle = ignored xs _ (idle_step (e, Event.fails ip) m idle)
  ignored ((e, Event.commands message) ∷ xs) m idle =
      rw (run, idle_command e message m idle) (ignored xs m idle)
  ignored ((e, Event.drops id reason) ∷ xs) m idle =
      ignored xs _ (idle_step (e, Event.drops id reason) m idle)
  ignored ((e, Event.wakes) ∷ xs) m idle = ignored xs _ (idle_step (e, Event.wakes) m idle)

overflow : (now seconds : ℕ) → 2 ^ 63 ≤ now + seconds → checked_add now seconds ≡ none
unfolding checked_add
overflow now seconds h = ground arith

kline-panics :
    (e : Env) (me : Client) (target : IpAddr) (reason : Text) (seconds : ℕ) (w : World)
    → is_agent me ≡ true
    → ban_exists target w.server ≡ false
    → 2 ^ 63 ≤ e.now + seconds
    → kline e me target reason seconds w ≡ Outcome.panicked w
unfolding kline
kline-panics e me target reason seconds w agent free late =
    rw (kline, agent, free, overflow e.now seconds late) refl

-- One `Kline` message of a logged in agent, for an address that is not banned and with a number
-- of seconds that takes the clock to 2 ^ 63 or beyond, is the last command that is read: it changes
-- the agent's times only, and from then on the server does what it would do if none of the commands
-- among the events that follow had been sent.
pub kline-halts :
    (authfinder : AuthFinder) (config : Config) (e : Env) (me : Client) (id : Uuid) (ip : Text)
    (seconds : ℕ) (reason : Text) (m : Machine) (xs : List (Env × Event))
    → m.reading ≡ true
    → lookup id m.world.server.clients ≡ some me
    → is_pending (touch e me) ≡ false
    → is_agent (touch e me) ≡ true
    → ban_exists (IpAddr.v4 (unwrap_or (e.parse_ipv4 ip) 0)) m.world.server ≡ false
    → 2 ^ 63 ≤ e.now + seconds
    → run authfinder config
        ((e, Event.commands (new (MessageType.kline ip seconds reason) id nil none)) ∷ xs)
        m
      ≡ run authfinder config
          (without_commands xs)
          (record m { world = modify (put_client me.id (touch e me)) m.world; reading = false })
unfolding run step receive get_client_ref handle_client_command post_auth new ban_exists put_client
kline-halts authfinder config e me id ip seconds reason m xs reads found ready agent free late =
    let target = IpAddr.v4 (unwrap_or (e.parse_ipv4 ip) 0) in
    let touched = modify (put_client me.id (touch e me)) m.world in
    rw
      (
        run,
        step,
        reads,
        receive,
        found,
        handle_client_command,
        ready,
        post_auth,
        kline-panics e (touch e me) target reason seconds touched agent free late,
      )
      (ignored authfinder config xs _ refl)
