-- ===== src/Coherence/Killed.antt =====
-- What is left of a client after `kill`.
use chatd.Base.{true, false, ◌≡◌, none, some, inl, inr, ltb, length, Option-cases}
use chatd.Text.{Text}
use chatd.Dict.{Dict, map_values, lookup, lookup-erase_self, lookup-map_values_inv}
use chatd.Message.{Uuid, Message, sanitize_text_message}
use chatd.ClientOptions
use chatd.Client.{Client, is_agent, has_options}
use chatd.Effect.{Env}
use chatd.Server.{Server, get_client_ref, remove_client, sendto_wallops}
use chatd.Server.Lookup.{mark, write_where-map_values}
use chatd.World.{World}
use chatd.Commands.Kill.{kill, kill_client}
use chatd.Coherence.{IsCoherent, sound, coherent}
use chatd.Coherence.Maps.{IsAbsent}
use chatd.Coherence.Removing.{kill-IsSound}
use chatd.Coherence.Run.{missing-IsAbsent}

pub map_values-missing :
    (f : Client → Client) (u : Uuid) (cs : Dict Client)
    → lookup u cs ≡ none
    → lookup u (map_values f cs) ≡ none
map_values-missing f u cs h = elim (Option-cases (lookup u (map_values f cs))) [
  | inl gone ↦ gone
  | inr (c, there) ↦ absurd (cc (h, (lookup-map_values_inv f u c cs there).1))
]

-- A broadcast brings no client back.
sendto_wallops-missing :
    (e : Env) (m : Message) (u : Uuid) (s : Server)
    → lookup u s.clients ≡ none
    → lookup u (sendto_wallops e m s).0.clients ≡ none
unfolding sendto_wallops
sendto_wallops-missing e m u s h =
    rw (write_where-map_values _ e.write_fails m s.clients)
      (map_values-missing (mark _ e.write_fails) u s.clients h)

pub kill_client-missing :
    (e : Env) (me : Client) (target : Uuid) (t : Client) (reason : Text) (w : World)
    → lookup target (kill_client e me target t reason w).server.clients ≡ none
unfolding kill_client remove_client
kill_client-missing e me target t reason w =
    sendto_wallops-missing e _ target _ (lookup-erase_self target _)

-- An agent's `kill` of a client without the admin flag, with a reason of at most 255 characters
-- once sanitized, in a state where the invariant holds: afterwards the server has no client under
-- the target's id, and no channel has a member under it.
pub kill-removes :
    (e : Env) (me : Client) (target : Uuid) (t : Client) (reason : Text) (w : World)
    → IsCoherent w.server
    → is_agent me ≡ true
    → lookup target w.server.clients ≡ some t
    → has_options ClientOptions.admin t ≡ false
    → ltb 255 (length (sanitize_text_message reason)) ≡ false
    → (lookup target (kill e me target reason w).server.clients ≡ none)
      × IsAbsent target (kill e me target reason w).server
unfolding get_client_ref kill
kill-removes e me target t reason w v agent found mortal short =
    let gone : lookup target (kill e me target reason w).server.clients ≡ none =
      rw (kill, agent, found, mortal, short) (kill_client-missing e me target t _ w) in
    (
      gone,
      missing-IsAbsent target _ (coherent _ (kill-IsSound e me target reason w (sound w v))) gone,
    )
