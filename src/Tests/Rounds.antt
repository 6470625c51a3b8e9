-- ===== src/Tests/Rounds.antt =====
-- A silent guest over three ping rounds, commands that are refused, and the sum of the modes.
use chatd.Base.{ℕ, false, ◌≡◌, refl, ◌++◌, none, List, [], ◌∷◌, arith}
use chatd.Text.{lit}
use chatd.Dict.{lookup}
use chatd.Message.{MessageType}
use chatd.Config
use chatd.Client
use chatd.Client.{is_agent}
use chatd.Effect.{Env}
use chatd.Server
use chatd.Server.{create_default_channels}
use chatd.World.{world_of}
use chatd.ChannelOptions.{available, get_options_from_u64}
use chatd.Commands.Modes.{add_up}
use chatd.Commands.Modes.Laws.{add_up-collect}
use chatd.Coherence.Maps.{IsAbsent}
use chatd.Coherence.Purged.{rounds, rounds-purge}
use chatd.Session.Dispatch.{post_auth}
use chatd.Session.Permission.{permits, may_kick}
use chatd.Session.Refusal.{IsRefusal, post_auth-refuses}
use chatd.Tests.{env, guest, guest_found, one_guest, one_guest-IsCoherent}

abbrev at_time : ℕ → Env
at_time t = record env { now = t }

-- The guest came at 1000; the rounds run every 50 seconds.
abbrev wakes : List Env
wakes = at_time 1200 ∷ at_time 1250 ∷ []

rounds-purge_example :
    (lookup 7 (rounds (wakes ++ (at_time 1300 ∷ [])) one_guest).server.clients ≡ none)
    × IsAbsent 7 (rounds (wakes ++ (at_time 1300 ∷ [])) one_guest).server
unfolding Client.new
rounds-purge_example =
    rounds-purge wakes (at_time 1300) 7 guest one_guest one_guest-IsCoherent guest_found
      (omega arith, (omega arith, tt)) (omega arith) (omega arith)

abbrev order : MessageType
order = MessageType.kick 77 9 (lit "out")

no_such_channel : permits env Config.default guest 0 order one_guest.server ≡ false
unfolding permits may_kick lookup create_default_channels Server.new Server.add_lobby
    Server.add_channel Server.put_channel Config.default chatd.Session.Machine.run
    chatd.Session.Machine.step chatd.Session.Machine.accept chatd.Session.Machine.open_client
    chatd.Session.Machine.waits chatd.Session.Machine.take_out chatd.Message.ip_eq
    chatd.Server.ban_exists chatd.Ban.exists chatd.Server.add_client chatd.Server.put_client
    chatd.Dict.insert chatd.Channel.set_topic chatd.Channel.set_options chatd.Channel.new
no_such_channel = refl

post_auth-refuses_example :
    IsRefusal guest one_guest (world_of (post_auth env Config.default guest 0 order one_guest))
post_auth-refuses_example =
    post_auth-refuses env Config.default guest 0 order one_guest no_such_channel

add_up-collect_example : add_up 4097 available 0 ≡ get_options_from_u64 4097
add_up-collect_example = add_up-collect 4097
