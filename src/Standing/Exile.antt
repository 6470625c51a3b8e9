-- ===== src/Standing/Exile.antt =====
-- A banned address stays shut: no ban is lifted, and no new connection from there gets in.
use chatd.Base.{
  true, false, ◌≡◌, refl, sym, ◌∙◌, some, inl, inr, List, [], ◌∷◌, ◌++◌, if_both, if_known,
  Bool-cases, Option-cases, arith,
}
use mathlib.Core.Path.{subst}
use chatd.Text.{Text, lit}
use chatd.Dict.{lookup, lookup-insert_inv, lookup-insert_self}
use chatd.Message.{Uuid, IpAddr, Message, ip_eq, ip_eq_iff}
use chatd.Client.{Client, ClientStatus, is_pending, set_status}
use chatd.Client
use chatd.Ban.{Ban, exists}
use chatd.Config.{Config}
use chatd.Effect.{Env}
use chatd.Server.{put_client, add_client, get_client_ref, ban_exists}
use chatd.World.{World, Outcome, world_of, modify}
use chatd.Commands.AuthAgent.{AuthFinder}
use chatd.Session.Dispatch.{touch, handle_client_command, receive}
use chatd.Session.Machine.{
  Machine, Event, waits, take_out, count_banned, accept, open_client, drop, after, step, run,
}
use chatd.Standing.{Stays, LeavesStays, write-Stays, same_clients-Stays, Stays-trans}
use chatd.Standing.Leaving.{handle_client_error-Stays, check_client_pings-Stays}
use chatd.Standing.Commands.{post_auth-LeavesStays}
use chatd.Standing.Login.{HasIds, Stays-HasIds, set_status-StandsAs}
use chatd.Standing.Granted.{IsLawful, warranted, lawful}
use chatd.Standing.Run.{touch-StandsAs, step-IsLawful, run-IsLawful, start-IsWarranted}
use chatd.Coherence.Run.{start}
use chatd.Standing.Following.{
  Follows, Stays-Follows, Follows-trans, same_clients-Follows, pre_auth-Follows,
}

after_world : (m : Machine) (o : Outcome) → (after m o).world ≡ world_of o
after_world m (Outcome.returned w) = refl
after_world m (Outcome.panicked w) = refl

after_handshakes : (m : Machine) (o : Outcome) → (after m o).handshakes ≡ m.handshakes
after_handshakes m (Outcome.returned w) = refl
after_handshakes m (Outcome.panicked w) = refl

waits-append :
    (ip from : IpAddr) (hs : List IpAddr)
    → ip_eq from ip ≡ false
    → waits ip hs ≡ false
    → waits ip (hs ++ from ∷ []) ≡ false
unfolding waits
waits-append ip from [] other none_waits = ground arith
waits-append ip from (h ∷ hs) other none_waits = ground (arith, waits-append ip from hs other)

waits-take_out :
    (ip from : IpAddr) (hs : List IpAddr)
    → waits ip hs ≡ false
    → waits ip (take_out from hs) ≡ false
unfolding waits take_out
waits-take_out ip from [] none_waits = refl
waits-take_out ip from (h ∷ hs) none_waits = ground (arith, waits-take_out ip from hs)

-- An address with a handshake under way is not one without.
waits_other :
    (ip from : IpAddr) (hs : List IpAddr)
    → waits from hs ≡ true
    → waits ip hs ≡ false
    → ip_eq from ip ≡ false
waits_other ip from hs busy idle = elim (Bool-cases (ip_eq from ip)) [
  | inl same ↦ let equal : from ≡ ip = (ip_eq_iff from ip).0 same in absurd (cc (busy, idle, equal))
  | inr other ↦ other
]

-- An address that the bans let through is not one that they hold back.
free_other :
    (ip from : IpAddr) (bans : List Ban)
    → exists bans ip ≡ true
    → exists bans from ≡ false
    → ip_eq from ip ≡ false
free_other ip from bans banned free = elim (Bool-cases (ip_eq from ip)) [
  | inl same ↦
      let equal : from ≡ ip = (ip_eq_iff from ip).0 same in absurd (cc (banned, free, equal))
  | inr other ↦ other
]

module _ (authfinder : AuthFinder) (config : Config) where
  handle_client_command-Follows :
      (e : Env) (c : Client) (m : Message) (w : World)
      → lookup c.id w.server.clients ≡ some c
      → HasIds w
      → Follows w (world_of (handle_client_command e authfinder config c m w))
  unfolding handle_client_command put_client LeavesStays
  handle_client_command-Follows e c m w found ids =
      let me = touch e c in
      let touched = modify (put_client me.id me) w in
      let written = write-Stays c.id c me w touched found (touch-StandsAs e c) refl refl in
      let present : lookup me.id touched.server.clients ≡ some me =
        lookup-insert_self c.id me w.server.clients in
      Follows-trans w touched _ (Stays-Follows w touched written) (
        if_both (λ (o : Outcome). Follows touched (world_of o)) (is_pending me) _ _
          (pre_auth-Follows e config me touched present (Stays-HasIds w touched written ids)
            authfinder m.type)
          (Stays-Follows touched _
            (post_auth-LeavesStays e config me m.target m.type touched present)))

  receive-Follows :
      (e : Env) (m : Message) (w : World)
      → HasIds w
      → Follows w (world_of (receive e authfinder config m w))
  unfolding receive get_client_ref
  receive-Follows e m w ids = elim (Option-cases (lookup m.source w.server.clients)) [
    | inl h ↦ rw (h, receive) (same_clients-Follows w w refl refl)
    | inr (c, h) ↦
        rw (h, receive)
          (handle_client_command-Follows e c m w
            (subst (λ u. lookup u w.server.clients ≡ some c) (sym (ids m.source c h)) h) ids)
  ]

  drop-Stays : (e : Env) (u : Uuid) (reason : Text) (w : World) → Stays w (drop e u reason w)
  unfolding drop get_client_ref put_client
  drop-Stays e u reason w = elim (Option-cases (lookup u w.server.clients)) [
    | inl h ↦ rw (h, drop) (same_clients-Stays w w refl refl)
    | inr (c, h) ↦
        let closing = set_status ClientStatus.closing c in
        rw (h, drop)
          (Stays-trans w _ _
            (write-Stays u c closing w _ h (set_status-StandsAs ClientStatus.closing c) refl refl)
            (handle_client_error-Stays e closing reason _))
  ]

  -- The address is banned; if none of its handshakes was under way in `before`, then none is, and
  -- its clients are among those of `before`.
  unfoldable pub IsShut : IpAddr → Machine → Machine → Type 0
  IsShut ip before m =
      (exists m.world.server.bans ip ≡ true)
      × (waits ip before.handshakes ≡ false
          → (waits ip m.handshakes ≡ false)
            × ((u : Uuid) (d : Client)
                → lookup u m.world.server.clients ≡ some d
                → ip_eq d.ip ip ≡ true
                → (c : Client) × (lookup u before.world.server.clients ≡ some c) × (c.ip ≡ d.ip)))

  Follows-IsShut :
      (ip : IpAddr) (before m n : Machine)
      → Follows m.world n.world
      → n.handshakes ≡ m.handshakes
      → IsShut ip before m
      → IsShut ip before n
  unfolding Follows IsShut
  Follows-IsShut ip before m n p same v = (
    p.1 ip v.0,
    λ idle. (
      rw same ((v.1 idle).0),
      λ u d h here.
          let (c, g, id, same') = p.0 u d h in
          let (b, f, same'') = (v.1 idle).1 u c g (rw (← same') here) in (b, f, same'' ∙ sym same'),
    ),
  )

  -- A connection that the bans let through is not from the banned address.
  accept-IsShut :
      (from ip : IpAddr) (before m : Machine)
      → IsShut ip before m
      → IsShut ip before (accept from m)
  unfolding IsShut accept ban_exists
  accept-IsShut from ip before m v =
      if_known (IsShut ip before) (ban_exists from m.world.server) _ _ (λ banned. v)
        λ free. (
          v.0,
          λ idle. (
            waits-append ip from m.handshakes (free_other ip from m.world.server.bans v.0 free)
                ((v.1 idle).0),
            (v.1 idle).1,
          ),
        )

  -- A client that is added comes from the address of a handshake under way.
  open_client-IsShut :
      (e : Env) (from ip : IpAddr) (before m : Machine)
      → IsShut ip before m
      → IsShut ip before (open_client e from m)
  unfolding IsShut open_client add_client Client.new put_client
  open_client-IsShut e from ip before m v =
      if_known (IsShut ip before) (waits from m.handshakes) _ _
        (λ busy.
          let newcomer =
            Client.new e.new_v4 (lit "Guest-" ++ e.show_number e.guest_number) from e.now in
          (
            v.0,
            λ idle. (
              waits-take_out ip from m.handshakes ((v.1 idle).0),
              λ u d h here.
                  elim (lookup-insert_inv e.new_v4 u newcomer d m.world.server.clients h) [
                    | inl (p, q) ↦
                        let same : ip_eq from ip ≡ true = rw (← q) at here in
                        let other = waits_other ip from m.handshakes busy ((v.1 idle).0) in
                        absurd (cc (same, other))
                    | inr (p, q) ↦ (v.1 idle).1 u d q here
                  ],
            ),
          ))
        λ lost. v

  step-IsShut :
      (ip : IpAddr) (before : Machine) (x : Env × Event) (m : Machine)
      → HasIds m.world
      → IsShut ip before m
      → IsShut ip before (step authfinder config x m)
  unfolding step IsShut
  step-IsShut ip before (e, Event.connects from) m ids v = accept-IsShut from ip before m v
  step-IsShut ip before (e, Event.opens from) m ids v = open_client-IsShut e from ip before m v
  step-IsShut ip before (e, Event.fails from) m ids v =
      (v.0, λ idle. (waits-take_out ip from m.handshakes ((v.1 idle).0), (v.1 idle).1))
  step-IsShut ip before (e, Event.commands message) m ids v =
      let outcome = receive e authfinder config message m.world in
      if_both (IsShut ip before) m.reading (after m outcome) m
        (Follows-IsShut ip before m (after m outcome)
          (subst (Follows m.world) (sym (after_world m outcome))
            (receive-Follows e message m.world ids))
          (after_handshakes m outcome) v)
        v
  step-IsShut ip before (e, Event.drops u reason) m ids v =
      Follows-IsShut ip before m (step authfinder config (e, Event.drops u reason) m)
        (Stays-Follows _ _ (drop-Stays e u reason m.world)) refl v
  step-IsShut ip before (e, Event.wakes) m ids v =
      Follows-IsShut ip before m (step authfinder config (e, Event.wakes) m)
        (Stays-Follows _ _ (check_client_pings-Stays e m.world)) refl v

  run-IsShut :
      (ip : IpAddr) (before : Machine) (xs : List (Env × Event)) (m : Machine)
      → IsLawful authfinder config m.world
      → IsShut ip before m
      → IsShut ip before (run authfinder config xs m)
  unfolding run
  run-IsShut ip before [] m known v = v
  run-IsShut ip before (x ∷ xs) m known v =
      run-IsShut ip before xs (step authfinder config x m)
        (step-IsLawful authfinder config x m known)
        (step-IsShut ip before x m
          (λ u c h. ((warranted authfinder config m.world known).at u c h).0) v)

  module _ (id₁ id₂ id₃ : Uuid) (bans : List Ban) (m₁ m₂ m₃ : Text) (xs ys : List (Env × Event))
      (ip : IpAddr) where
    -- The server after the events `xs`, and after `ys` more.
    abbrev pub earlier : Machine
    earlier = run authfinder config xs (start id₁ id₂ id₃ bans m₁ m₂ m₃ config)

    abbrev pub later : Machine
    later = run authfinder config ys earlier

    shut : ban_exists ip earlier.world.server ≡ true → IsShut ip earlier later
    unfolding IsShut ban_exists
    shut banned =
        run-IsShut ip earlier ys earlier
          (run-IsLawful authfinder config xs _ (
            lawful authfinder config _
              (start-IsWarranted authfinder config id₁ id₂ id₃ bans m₁ m₂ m₃)))
          (banned, λ idle. (idle, λ u d h here. (d, h, refl)))

    -- If an address is banned after some events, then it is banned after any further events, and
    -- all that a connection from it brings about then is that it is counted. That is so whatever
    -- the clock reads: a ban does not end at its `expires`.
    pub run-keeps_bans :
        (e : Env)
        → ban_exists ip earlier.world.server ≡ true
        → (ban_exists ip later.world.server ≡ true)
          × (step authfinder config (e, Event.connects ip) later
              ≡ record later { world = modify count_banned later.world })
    unfolding IsShut ban_exists step accept
    run-keeps_bans e banned = let still = (shut banned).0 in (still, rw (accept, still) refl)

    -- If an address is banned after some events and no handshake with it is under way then, a
    -- client of that address that is on the server after any further events was there under its
    -- id, with its address, when the ban was in place: no later connection gets in.
    pub run-shuts_out :
        (u : Uuid) (d : Client)
        → ban_exists ip earlier.world.server ≡ true
        → waits ip earlier.handshakes ≡ false
        → lookup u later.world.server.clients ≡ some d
        → ip_eq d.ip ip ≡ true
        → (c : Client) × (lookup u earlier.world.server.clients ≡ some c) × (c.ip ≡ d.ip)
    unfolding IsShut
    run-shuts_out u d banned idle found here = ((shut banned).1 idle).1 u d found here
