-- ===== src/Server/Lookup.antt =====
-- What a broadcast to the clients of the server leaves of their map.
use chatd.Base.{ℕ, Bool, ◌≡◌, refl, [], ◌∷◌, arith, if◌then◌else◌}
use chatd.Dict.{Dict, map_values}
use chatd.Message.{Message}
use chatd.Client.{Client, ClientStatus, set_status}
use chatd.Server.{write_where}

-- A client that passes the test and does not take the write is `Closing`.
unfoldable pub mark : (Client → Bool) → (ℕ → Bool) → Client → Client
mark test fails c =
    if test c then (if fails c.id then set_status ClientStatus.closing c else c) else c

pub write_where-map_values :
    (test : Client → Bool) (fails : ℕ → Bool) (m : Message) (cs : Dict Client)
    → (write_where test fails m cs).0 ≡ map_values (mark test fails) cs
unfolding write_where map_values mark
write_where-map_values test fails m [] = refl
write_where-map_values test fails m ((id, c) ∷ cs) =
    ground (arith, write_where-map_values test fails m cs)
