-- ===== src/Standing/Banned.antt =====
-- What a ban leaves of the clients at the banned address.
use chatd.Base.{
  among, ℕ, ◌+◌, ◌^◌, ◌<◌, true, false, ◌≡◌, refl, ◌∙◌, some, ◌⊎◌, inl, inr, List, [], ◌∷◌, ◌++◌,
  ◌==◌, ltb, length, Option-cases, Bool-cases, ==_iff, if◌then◌else◌, arith,
}
use chatd.Text.{Text, lit}
use chatd.Dict.{Dict, lookup}
use chatd.Message.{Uuid, IpAddr, ip_eq, sanitize_text_message}
use chatd.ClientOptions
use chatd.Client.{Client, is_agent, has_options}
use chatd.Effect.{Env}
use chatd.Ban.{exists}
use chatd.Server.{get_client_ref, add_ban, ban_exists}
use chatd.World.{World, world_of}
use chatd.Commands.Kill.{kill}
use chatd.Commands.Kline.{
  checked_add, found_clients, kill_all, hunt, unwrap_clients, ban_and_hunt, kline,
}
use chatd.Coherence.{IsCoherent}
use chatd.Coherence.Killed.{kill_client-missing}
use chatd.Standing.{StandsAs, Stays-trans, wallops-Stays, persists}
use chatd.Standing.Commands.{kill_all-Stays}

StandsAs-is_agent : (c d : Client) → StandsAs c d → is_agent d ≡ is_agent c
unfolding is_agent
StandsAs-is_agent c d same = rw same.type refl

StandsAs-has_options :
    (o : ClientOptions.Options) (c d : Client) → StandsAs c d → has_options o d ≡ has_options o c
unfolding has_options
StandsAs-has_options o c d same = rw same.options refl

-- Every client of the address that is no agent is found.
found_clients_lem :
    (target : IpAddr) (u : Uuid) (c : Client) (cs : Dict Client)
    → lookup u cs ≡ some c
    → c.id ≡ u
    → ip_eq c.ip target ≡ true
    → is_agent c ≡ false
    → among u (found_clients target cs) ≡ true
unfolding found_clients among lookup
found_clients_lem target u c [] h id here plain = absurd (cc h)
found_clients_lem target u c ((j, d) ∷ cs) h id here plain = elim (Bool-cases (j == u)) [
  | inl same ↦
      let e : d ≡ c = cc (rw same at h) in rw (e, here, plain) (ground (arith, ==_iff c.id u))
  | inr other ↦ ground (arith, found_clients_lem target u c cs (rw other at h) id here plain)
]

module _ (e : Env) (me : Client) (agent : is_agent me ≡ true) (reason : Text)
    (short : ltb 255 (length (sanitize_text_message reason)) ≡ false) where
  -- An agent's `kill` leaves the target on the server only if it has the flag of an admin.
  kill-leaves_admin :
      (u : Uuid) (c : Client) (w : World)
      → lookup u (kill e me u reason w).server.clients ≡ some c
      → has_options ClientOptions.admin c ≡ true
  unfolding kill get_client_ref
  kill-leaves_admin u c w h = elim (Option-cases (lookup u w.server.clients)) [
    | inl gone ↦ absurd (cc (gone, rw (kill, agent, gone) at h))
    | inr (t, found) ↦ elim (Bool-cases (has_options ClientOptions.admin t)) [
      | inl admin ↦
          let same : t ≡ c = cc (found, rw (kill, agent, found, admin) at h) in rw (← same) admin
      | inr mortal ↦ absurd (
          cc (
            kill_client-missing e me u t
                (if length (sanitize_text_message reason) == 0
                  then lit "no reason was provided."
                  else sanitize_text_message reason)
                w,
            rw (kill, agent, found, mortal, short) at h,
          ))
    ]
  ]

  kill_all-leaves_admin :
      (us : List Uuid) (u : Uuid) (c : Client) (w : World)
      → among u us ≡ true
      → lookup u (kill_all e me us reason w).server.clients ≡ some c
      → has_options ClientOptions.admin c ≡ true
  unfolding kill_all among
  kill_all-leaves_admin [] u c w m h = absurd (cc m)
  kill_all-leaves_admin (v ∷ vs) u c w m h = elim (Bool-cases (v == u)) [
    | inr other ↦ kill_all-leaves_admin vs u c (kill e me v reason w) (rw other at m) h
    | inl hit ↦
        let killed = kill e me v reason w in
        let (b, g, same) = (persists _ _ (kill_all-Stays e me vs reason killed)).at u c h in
        let p : v ≡ u = (==_iff v u).0 hit in
        StandsAs-has_options ClientOptions.admin b c same ∙ kill-leaves_admin u b w (rw p at g)
  ]

-- Who may stay at a banned address.
abbrev pub IsSpared : Client → Type 0
IsSpared c = (is_agent c ≡ true) ⊎ (has_options ClientOptions.admin c ≡ true)

-- The text that `kline` hands to `kill`.
abbrev pub banned : Text → Text
banned reason = lit "Banned (" ++ reason ++ lit ")"

module _ (e : Env) (me : Client) (target : IpAddr) (reason : Text) (agent : is_agent me ≡ true)
    (short : ltb 255 (length (sanitize_text_message (banned reason))) ≡ false) where
  -- `w` is the state in which the clients are looked for.
  hunt-spares :
      (u : Uuid) (c : Client) (w : World)
      → ((v : Uuid) (d : Client) → lookup v w.server.clients ≡ some d → d.id ≡ v)
      → lookup u (hunt e me target reason w).server.clients ≡ some c
      → ip_eq c.ip target ≡ true
      → IsSpared c
  unfolding hunt
  hunt-spares u c w ids h here =
      let told = wallops-Stays e _ w in
      let killed = kill_all-Stays e me (found_clients target w.server.clients) (banned reason) _ in
      let (b, found, same) = (persists _ _ (Stays-trans _ _ _ told killed)).at u c h in
      elim (Bool-cases (is_agent b)) [
        | inl agent' ↦ inl (StandsAs-is_agent b c same ∙ agent')
        | inr plain ↦ inr (
            kill_all-leaves_admin e me agent (banned reason) short _ u c _
              (found_clients_lem target u b w.server.clients found (ids u b found)
                (rw (← same.ip) here) plain)
              h)
      ]

  unwrap_clients-spares :
      (u : Uuid) (c : Client) (w : World) (cs : Dict Client)
      → w.server.clients ≡ cs
      → ((v : Uuid) (d : Client) → lookup v w.server.clients ≡ some d → d.id ≡ v)
      → lookup u (world_of (unwrap_clients e me target reason w)).server.clients ≡ some c
      → ip_eq c.ip target ≡ true
      → IsSpared c
  unfolding unwrap_clients lookup
  unwrap_clients-spares u c w [] p ids h here = absurd (cc (rw (p, unwrap_clients) at h))
  unwrap_clients-spares u c w (x ∷ xs) p ids h here =
      hunt-spares u c w ids (rw (p, unwrap_clients) at h) here

  ban_and_hunt-spares :
      (expires : ℕ) (u : Uuid) (c : Client) (w : World)
      → exists w.server.bans target ≡ false
      → ((v : Uuid) (d : Client) → lookup v w.server.clients ≡ some d → d.id ≡ v)
      → lookup u (world_of (ban_and_hunt e me target reason expires w)).server.clients ≡ some c
      → ip_eq c.ip target ≡ true
      → IsSpared c
  unfolding ban_and_hunt add_ban
  ban_and_hunt-spares expires u c w free ids h here =
      unwrap_clients-spares u c _ w.server.clients refl ids (rw (free, ban_and_hunt) at h) here

in_time :
    (now seconds : ℕ) → now + seconds < 2 ^ 63 → checked_add now seconds ≡ some (now + seconds)
unfolding checked_add
in_time now seconds h = ground arith

-- An agent bans an address that is not banned, for a time that the clock can hold, with a reason
-- that is at most 255 characters long once it stands in `Banned (..)` and is sanitized, in a state
-- where the invariant holds. Whoever of the address is left on the server is an agent or has the
-- flag of an admin.
pub kline-spares :
    (e : Env) (me : Client) (target : IpAddr) (reason : Text) (expires_sec : ℕ) (w : World)
    (u : Uuid) (c : Client)
    → IsCoherent w.server
    → is_agent me ≡ true
    → ban_exists target w.server ≡ false
    → e.now + expires_sec < 2 ^ 63
    → ltb 255 (length (sanitize_text_message (banned reason))) ≡ false
    → lookup u (world_of (kline e me target reason expires_sec w)).server.clients ≡ some c
    → ip_eq c.ip target ≡ true
    → IsSpared c
unfolding kline ban_exists
kline-spares e me target reason expires_sec w u c v agent free time short h here =
    ban_and_hunt-spares e me target reason agent short (e.now + expires_sec) u c w free v.client_ids
      (rw (kline, agent, free, in_time e.now expires_sec time) at h) here
