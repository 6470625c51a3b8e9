-- ===== src/Coherence/Purged.antt =====
-- Ping rounds purge a client that stays silent.
use chatd.Base.{
  ℕ, ◌+◌, ◌<◌, true, ◌≡◌, refl, ◌∙◌, ap, ◌⊎◌, none, some, inl, inr, List, [], ◌∷◌, ◌++◌, All, among,
  ◌==◌, if◌then◌else◌, arith, Bool-cases, Option-cases, ==_iff,
}
use chatd.Dict.{Dict, lookup, erase, lookup-erase, map_values, lookup-map_values_keep}
use chatd.Message.{Uuid}
use chatd.Client.{Client, clear_channels}
use chatd.Effect.{Env}
use chatd.Server.{Server, get_client_ref, remove_client}
use chatd.World.{World}
use chatd.Session.Pings.{judge, Idle, sweep, time_out, purge, purge_all, check_client_pings}
use chatd.Coherence.{IsCoherent, sound, coherent}
use chatd.Coherence.Maps.{IsAbsent}
use chatd.Coherence.Leaving.{for_channels_lem}
use chatd.Coherence.Removing.{
  mark_idle, sweep-map_values, check_client_pings-IsSound, time_out-IsDeparture, remove_twice,
  remove-put_client,
}
use chatd.Coherence.Killed.{map_values-missing}
use chatd.Coherence.Run.{missing-IsAbsent}

-- A client that the sweep times out is in the list of those to purge.
sweep_finds :
    (now : ℕ) (u : Uuid) (c : Client) (cs : Dict Client)
    → lookup u cs ≡ some c
    → c.id ≡ u
    → judge now c ≡ Idle.timed_out
    → among u (sweep now cs).2 ≡ true
unfolding sweep among lookup
sweep_finds now u c [] h id late = absurd (cc h)
sweep_finds now u c ((j, d) ∷ cs) h id late = elim (Bool-cases (j == u)) [
  | inl same ↦
      let e : d ≡ c = cc (rw same at h) in rw (e, sweep, late) (ground (arith, ==_iff c.id u))
  | inr other ↦ ground (arith, sweep_finds now u c cs (rw other at h) id late)
]

purge-clients :
    (e : Env) (u : Uuid) (w : World) → (purge e u w).server.clients ≡ erase u w.server.clients
unfolding purge get_client_ref remove_client
purge-clients e u w = elim (Option-cases (lookup u w.server.clients)) [
  | inl h ↦ rw (h, purge) refl
  | inr (c, h) ↦
      rw (h, purge)
        (ap (λ (s : Server). s.clients)
            (remove_twice u _ ∙ remove-put_client u (clear_channels c) _)
          ∙ ap (erase u) (
              (for_channels_lem u (time_out e u c) (time_out-IsDeparture e u c) c.channels
                w).0.clients))
]

purge_all-clients :
    (e : Env) (us : List Uuid) (u : Uuid) (w : World)
    → lookup u (purge_all e us w).server.clients
      ≡ (if among u us then none else lookup u w.server.clients)
unfolding purge_all among
purge_all-clients e [] u w = refl
purge_all-clients e (v ∷ vs) u w = grind (
  arith,
  purge_all-clients e vs u (purge e v w),
  ap (lookup u) (purge-clients e v w),
  lookup-erase v u w.server.clients,
)

-- The clients after a round.
round_clients :
    (e : Env) (u : Uuid) (w : World)
    → lookup u (check_client_pings e w).server.clients ≡ (
        if among u (sweep e.now w.server.clients).2
        then none
        else lookup u (map_values (mark_idle e.now) w.server.clients))
unfolding check_client_pings
round_clients e u w =
    purge_all-clients e (sweep e.now w.server.clients).2 u _
    ∙ rw (sweep-map_values e.now w.server.clients) refl

-- A client that is timed out is gone after the round.
round_purges :
    (e : Env) (u : Uuid) (c : Client) (w : World)
    → lookup u w.server.clients ≡ some c
    → c.id ≡ u
    → judge e.now c ≡ Idle.timed_out
    → lookup u (check_client_pings e w).server.clients ≡ none
round_purges e u c w found id late =
    round_clients e u w ∙ rw (sweep_finds e.now u c w.server.clients found id late) refl

round_missing :
    (e : Env) (u : Uuid) (w : World)
    → lookup u w.server.clients ≡ none
    → lookup u (check_client_pings e w).server.clients ≡ none
round_missing e u w gone =
    grind (arith, round_clients e u w, map_values-missing (mark_idle e.now) u w.server.clients gone)

-- A round purges a client, or leaves what the sweep makes of it.
round_known :
    (e : Env) (u : Uuid) (c : Client) (w : World)
    → lookup u w.server.clients ≡ some c
    → (lookup u (check_client_pings e w).server.clients ≡ none)
      ⊎ (lookup u (check_client_pings e w).server.clients ≡ some (mark_idle e.now c))
round_known e u c w found = elim (Bool-cases (among u (sweep e.now w.server.clients).2)) [
  | inl hit ↦ inl (round_clients e u w ∙ rw hit refl)
  | inr miss ↦ inr (
      round_clients e u w
      ∙ rw miss (lookup-map_values_keep (mark_idle e.now) u c w.server.clients found))
]

judge_silent :
    (now : ℕ) (c : Client)
    → c.last_ping + 180 < now
    → c.last_action + 60 < now
    → judge now c ≡ Idle.timed_out
unfolding judge
judge_silent now c pings acts = ground arith

-- Without a ping for 180 seconds a client is timed out, or passed over.
mark_idle-overdue :
    (now : ℕ) (c : Client)
    → c.last_ping + 180 < now
    → (judge now c ≡ Idle.timed_out) ⊎ (mark_idle now c ≡ c)
unfolding judge mark_idle
mark_idle-overdue now c pings = ground arith

-- The rounds one after the other.
unfoldable pub rounds : List Env → World → World
rounds [] w = w
rounds (e ∷ es) w = rounds es (check_client_pings e w)

-- The client is gone, or as it was.
unfoldable IsFading : Uuid → Client → World → Type 0
IsFading u c w =
    IsCoherent w.server
    × ((lookup u w.server.clients ≡ none) ⊎ (lookup u w.server.clients ≡ some c))

round-IsFading :
    (e : Env) (u : Uuid) (c : Client) (w : World)
    → c.last_ping + 180 < e.now
    → IsFading u c w
    → IsFading u c (check_client_pings e w)
unfolding IsFading
round-IsFading e u c w pings (v, state) = (
  coherent _ (check_client_pings-IsSound e w (sound w v)),
  elim state [
    | inl gone ↦ inl (round_missing e u w gone)
    | inr found ↦ elim (mark_idle-overdue e.now c pings) [
      | inl late ↦ inl (round_purges e u c w found (v.client_ids u c found) late)
      | inr same ↦ rw same at (round_known e u c w found)
    ]
  ],
)

rounds_end :
    (es : List Env) (last : Env) (u : Uuid) (c : Client) (w : World)
    → All (λ (e : Env). c.last_ping + 180 < e.now) es
    → c.last_ping + 180 < last.now
    → c.last_action + 60 < last.now
    → IsFading u c w
    → (lookup u (rounds (es ++ (last ∷ [])) w).server.clients ≡ none)
      × IsAbsent u (rounds (es ++ (last ∷ [])) w).server
unfolding rounds IsFading
rounds_end (e ∷ es) last u c w (first, rest) pings acts v =
    rounds_end es last u c (check_client_pings e w) rest pings acts (round-IsFading e u c w first v)
rounds_end [] last u c w rest pings acts (v, state) =
    let gone : lookup u (check_client_pings last w).server.clients ≡ none = elim state [
      | inl missing ↦ round_missing last u w missing
      | inr found ↦
          round_purges last u c w found (v.client_ids u c found)
            (judge_silent last.now c pings acts)
    ] in
    (gone, missing-IsAbsent u _ (coherent _ (check_client_pings-IsSound last w (sound w v))) gone)

-- Whatever number of ping rounds run from a time that is more than 180 seconds after the last ping
-- of a client, and more than 60 seconds after its last action when the last one runs, with
-- nothing from the client in between: then no client is left under its id, neither on the server
-- nor in a channel. (The invariant holds in the state where the rounds begin.)
pub rounds-purge :
    (es : List Env) (last : Env) (u : Uuid) (c : Client) (w : World)
    → IsCoherent w.server
    → lookup u w.server.clients ≡ some c
    → All (λ (e : Env). c.last_ping + 180 < e.now) es
    → c.last_ping + 180 < last.now
    → c.last_action + 60 < last.now
    → (lookup u (rounds (es ++ (last ∷ [])) w).server.clients ≡ none)
      × IsAbsent u (rounds (es ++ (last ∷ [])) w).server
unfolding IsFading
rounds-purge es last u c w v found times pings acts =
    rounds_end es last u c w times pings acts (v, inr found)
