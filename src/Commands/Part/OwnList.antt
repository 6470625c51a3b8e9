-- ===== src/Commands/Part/OwnList.antt =====
-- src/commands.rs: what `part` does to the clients' own lists of channels.
use chatd.Base.{◌≡◌, refl, inl, inr, Option-cases, if_both, arith}
use chatd.Dict.{lookup}
use chatd.Message.{Uuid}
use chatd.Client.{Client}
use chatd.Channel.{Channel}
use chatd.Channel
use chatd.Effect.{Env}
use chatd.Server.{get_channel_ref, put_channel, remove_channel}
use chatd.World.{World, settle}
use chatd.Commands.Part.{part, leave}

settle_clients :
    (k : Uuid) (ch : Channel) (destroyed kept : Channel.Effects) (w : World)
    → (settle k ch destroyed kept w).server.clients ≡ w.server.clients
unfolding settle put_channel remove_channel
settle_clients k ch destroyed kept w =
    if_both (λ (x : World). x.server.clients ≡ w.server.clients) _ _ _ refl refl

leave_clients :
    (e : Env) (me : Client) (k : Uuid) (ch : Channel) (w : World)
    → (leave e me k ch w).server.clients ≡ w.server.clients
unfolding leave
leave_clients e me k ch w = settle_clients k _ _ _ _

-- On every branch `part` leaves the clients of the server as they are: a channel that a client has
-- left stays on the client's own list.
pub part-keeps_clients :
    (e : Env) (me : Client) (k : Uuid) (w : World)
    → (part e me k w).server.clients ≡ w.server.clients
unfolding get_channel_ref part
part-keeps_clients e me k w = elim (Option-cases (lookup k w.server.channels)) [
  | inl h ↦ rw (h, part) (ground arith)
  | inr (ch, h) ↦ rw (h, part) (ground (arith, leave_clients e me k ch w))
]
