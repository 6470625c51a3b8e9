-- ===== src/Session/Pings.antt =====
-- src/main.rs: `check_client_pings`.
use chatd.Base.{ℕ, ◌-◌, none, some, List, [], ◌∷◌, ltb, if◌then◌else◌}
use chatd.Text.{Text, lit}
use chatd.Dict.{Dict}
use chatd.Message.{Uuid, MessageType, nil, new}
use chatd.Client.{Client, ClientStatus, set_status, clear_channels}
use chatd.Channel.{Channel, Effects, remove_member, sendto_all_butone, to_log}
use chatd.Effect.{Effect, Env, Frame, LogEntry}
use chatd.Server.{get_client_ref, put_client, remove_client}
use chatd.World.{World, emit, modify, settle, for_channels}

-- `PING_TIMEOUT` and `PING_CHECK_IDLE`, in seconds.
abbrev pub ping_timeout : ℕ
ping_timeout = 180

abbrev pub ping_check_idle : ℕ
ping_check_idle = 60

-- What the sweep finds a client to be. On a clock that reads less than 180 the subtraction stops
-- at 0, as no time stamp is less.
pub data Idle : Type 0 where
  active : Idle
  late : Idle
  timed_out : Idle

unfoldable pub judge : ℕ → Client → Idle
judge now c =
    if ltb c.last_action (now - ping_check_idle)
    then if ltb c.last_ping (now - ping_timeout)
      then Idle.timed_out
      else if ltb c.last_ping (now - ping_check_idle)
      then Idle.late
      else Idle.active
    else Idle.active

-- The loop over the clients: the map, what is sent, and `expired_clients`.
unfoldable pub sweep : ℕ → Dict Client → Dict Client × Effects × List Uuid
sweep now [] = ([], [], [])
sweep now ((id, c) ∷ cs) =
    let rest = sweep now cs in
    elim (judge now c) [
      | Idle.active ↦ ((id, c) ∷ rest.0, rest.1, rest.2)
      | Idle.late ↦ (
        (id, record c { last_action = now }) ∷ rest.0,
        Effect.send c.id (Frame.cmessage (new (MessageType.ping now) nil c.id none)) ∷ rest.1,
        rest.2,
      )
      | Idle.timed_out ↦ (
        (id, set_status ClientStatus.zombie c) ∷ rest.0,
        Effect.send c.id (Frame.text (lit "Disconnect (Ping Timeout)"))
            ∷ Effect.close c.id
            ∷ rest.1,
        c.id ∷ rest.2,
      )
    ]

-- The loop over the channels of a client that is purged, at a channel that is there.
unfoldable pub time_out : Env → Uuid → Client → Uuid → Text → Channel → World → World
time_out e expired c uid channel_name ch w =
    let rest = remove_member expired ch in
    let entry = λ (label : Text).
      LogEntry.event e.now label channel_name c.name c.ip (lit "Client Pingout") in
    settle uid rest (to_log (entry (lit "DESTROY CHANNEL")) rest)
      (to_log (entry (lit "PART CHANNEL")) rest)
      (emit
        (sendto_all_butone expired
          (new (MessageType.quit (lit "ping timeout: 180 seconds")) expired uid (some c.name)) ch)
        w)

-- One round of the loop over `expired_clients`.
unfoldable pub purge : Env → Uuid → World → World
purge e expired w = modify (remove_client expired) (elim (get_client_ref expired w.server) [
  | none ↦ w
  | some c ↦ modify (remove_client expired) (
      emit (Effect.close c.id ∷ []) (
        modify (put_client expired (clear_channels c))
          (for_channels (time_out e expired c) c.channels w)))
])

unfoldable pub purge_all : Env → List Uuid → World → World
purge_all e [] w = w
purge_all e (expired ∷ rest) w = purge_all e rest (purge e expired w)

-- With no clients at all `get_clients` gives `None`, and the sweep over the empty map nothing.
unfoldable pub check_client_pings : Env → World → World
check_client_pings e w =
    let swept = sweep e.now w.server.clients in
    purge_all e swept.2 (emit swept.1 (modify (λ s. record s { clients = swept.0 }) w))
