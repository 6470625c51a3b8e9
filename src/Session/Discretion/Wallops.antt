-- ===== src/Session/Discretion/Wallops.antt =====
-- commands.rs: what a kill and a kline show, the address of who is killed or banned, goes to agents
-- of the server.
use chatd.Base.{
  ℕ, Bool, true, false, ◌≡◌, refl, ◌⊎◌, inl, inr, ◌&&◌, not, none, List, [], ◌∷◌, ◌++◌, ltb, length,
  if_both, Bool-cases, Option-cases, arith, if◌then◌else◌,
}
use chatd.Text.{Text, lit}
use chatd.Dict.{Dict, lookup, erase-insert}
use chatd.Message.{Uuid, IpAddr, Message, ProblemCode, new_problem, sanitize_text_message}
use chatd.ClientOptions
use chatd.Client.{Client, is_agent, is_connected, has_options, set_status, clear_channels}
use chatd.Ban.{Ban, save_to_disk}
use chatd.Effect.{Effect, Frame, Env}
use chatd.Server.{
  get_client_ref, put_client, remove_client, add_ban, ban_exists, write_where, sendto_wallops,
}
use chatd.World.{refuse, World, Outcome, world_of, emit, modify, send, wallops, for_channels}
use chatd.Commands.Kill.{kill, kill_in, kill_client}
use chatd.Commands.Kline.{kline, kill_all, hunt, unwrap_clients, ban_and_hunt, checked_add}
use chatd.Coherence.Leaving.{for_channels_lem}
use chatd.Coherence.Removing.{kill_in-IsDeparture}
use chatd.Session.Discretion.{
  discloses, shows_address, shows_address-append, agent_in, agent_in-erase, IsQuiet, IsQuiet-refl,
  IsQuiet-trans, emit-IsQuiet, same_effects-IsQuiet, send-quiet, refuse-IsQuiet,
}
use chatd.Session.Discretion.Kills.{for_channels-IsQuiet, kill_in-IsQuiet, close-quiet}

-- From `w` to `x` addresses are shown only to agents on the server, and nobody becomes one.
unfoldable pub IsCovert : World → World → Type 0
IsCovert w x =
    ((u : Uuid)
      → shows_address u x.effects ≡ true
      → (shows_address u w.effects ≡ true) ⊎ (agent_in u w.server.clients ≡ true))
    × ((u : Uuid) → agent_in u x.server.clients ≡ true → agent_in u w.server.clients ≡ true)

IsCovert-trans : (w x y : World) → IsCovert w x → IsCovert x y → IsCovert w y
unfolding IsCovert
IsCovert-trans w x y p q = (
  λ u h. elim (q.0 u h) [ inl before ↦ p.0 u before | inr agent ↦ inr (p.1 u agent) ],
  λ u h. p.1 u (q.1 u h),
)

quiet-IsCovert :
    (w x : World)
    → IsQuiet w x
    → ((u : Uuid) → agent_in u x.server.clients ≡ true → agent_in u w.server.clients ≡ true)
    → IsCovert w x
unfolding IsCovert IsQuiet
quiet-IsCovert w x quiet fewer = (λ u h. inl (cc (quiet u, h)), fewer)

-- What shows nothing and leaves the clients.
silent-IsCovert : (w x : World) → IsQuiet w x → x.server.clients ≡ w.server.clients → IsCovert w x
silent-IsCovert w x quiet same = quiet-IsCovert w x quiet (λ u h. rw same at h)

if_IsCovert :
    (w : World) (b : Bool) (x y : World)
    → IsCovert w x
    → IsCovert w y
    → IsCovert w (if b then x else y)
if_IsCovert w b x y = if_both (IsCovert w) b x y

wallop-agents :
    (fails : Uuid → Bool) (m : Message) (u : Uuid) (cs : Dict Client)
    → shows_address u (write_where (λ c. is_connected c && is_agent c) fails m cs).1 ≡ true
    → agent_in u cs ≡ true
unfolding shows_address write_where agent_in
wallop-agents fails m u [] h = h
wallop-agents fails m u ((k, c) ∷ cs) h = ground (arith, wallop-agents fails m u cs)

write_where-agents :
    (test : Client → Bool) (fails : Uuid → Bool) (m : Message) (u : Uuid) (cs : Dict Client)
    → agent_in u (write_where test fails m cs).0 ≡ agent_in u cs
unfolding write_where agent_in set_status is_agent
write_where-agents test fails m u [] = refl
write_where-agents test fails m u ((k, c) ∷ cs) = elim (Bool-cases (test c)) [
  | inr miss ↦ rw (miss, write_where, agent_in, write_where-agents test fails m u cs) refl
  | inl hit ↦ elim (Bool-cases (fails c.id)) [
    | inl broken ↦
        rw (hit, broken, write_where, agent_in, write_where-agents test fails m u cs) refl
    | inr fine ↦ rw (hit, fine, write_where, agent_in, write_where-agents test fails m u cs) refl
  ]
]

wallops-IsCovert : (e : Env) (m : Message) (w : World) → IsCovert w (wallops e m w)
unfolding IsCovert sendto_wallops
wallops-IsCovert e m w =
    let told =
      (write_where (λ c. is_connected c && is_agent c) e.write_fails m w.server.clients).1 in
    (
      λ u h. elim (Bool-cases (shows_address u told)) [
        | inl shown ↦ inr (wallop-agents e.write_fails m u w.server.clients shown)
        | inr hidden ↦ inl (ground (arith, shows_address-append u w.effects told))
      ],
      λ u h. cc (write_where-agents _ e.write_fails m u w.server.clients, h),
    )

-- The target is told, its connection is closed, and it is taken from the map.
abbrev cut_off : Uuid → Client → Text → World → World
cut_off target t reason w = modify (remove_client target) (
    emit (Effect.close t.id ∷ []) (
      send t.id
        (new_problem ProblemCode.kicked_from_server none
          (lit "You were kicked from the server: " ++ reason))
        (modify (put_client target (clear_channels t)) w)))

cut_off-IsCovert :
    (target : Uuid) (t : Client) (reason : Text) (w : World)
    → IsCovert w (cut_off target t reason w)
unfolding discloses new_problem remove_client put_client
cut_off-IsCovert target t reason w =
    let told =
      emit
        (Effect.send t.id (
            Frame.cmessage (
              new_problem ProblemCode.kicked_from_server none
                (lit "You were kicked from the server: " ++ reason)))
          ∷ [])
        w in
    quiet-IsCovert w _
      (IsQuiet-trans w told _ (emit-IsQuiet _ w told (λ u. send-quiet t.id _ u refl) refl)
        (emit-IsQuiet _ told _ (λ u. close-quiet t.id u) refl))
      (λ u h.
        agent_in-erase u target w.server.clients
          (rw (erase-insert target (clear_channels t) w.server.clients) at h))

kill_client-IsCovert :
    (e : Env) (me : Client) (target : Uuid) (t : Client) (reason : Text) (w : World)
    → IsCovert w (kill_client e me target t reason w)
unfolding kill_client
kill_client-IsCovert e me target t reason w =
    let body = λ (id : Uuid) (name : Text). kill_in e target t reason id in
    let left = for_channels body t.channels w in
    IsCovert-trans w left _
      (silent-IsCovert w left
        (for_channels-IsQuiet body t.channels w
          (λ k name ch x. kill_in-IsQuiet e target t reason k ch x))
        (for_channels_lem target body (kill_in-IsDeparture e target t reason) t.channels
          w).0.clients)
      (IsCovert-trans left _ _ (cut_off-IsCovert target t reason left) (wallops-IsCovert e _ _))

refusal-IsCovert :
    (me : Client) (code : ProblemCode) (text : Text) (w : World)
    → IsCovert w (refuse me.id code none text w)
refusal-IsCovert me code text w = silent-IsCovert w _ (refuse-IsQuiet me code none text w) refl

pub kill-IsCovert :
    (e : Env) (me : Client) (target : Uuid) (reason : Text) (w : World)
    → IsCovert w (kill e me target reason w)
unfolding kill get_client_ref
kill-IsCovert e me target reason w =
    if_IsCovert w (not (is_agent me)) _ _ (refusal-IsCovert me _ _ w)
      (elim (Option-cases (lookup target w.server.clients)) [
        | inl h ↦ rw h (refusal-IsCovert me _ _ w)
        | inr (t, h) ↦ rw h (
            if_IsCovert w (has_options ClientOptions.admin t) _ _ (refusal-IsCovert me _ _ w) (
              if_IsCovert w (ltb 255 (length (sanitize_text_message reason))) _ _
                (refusal-IsCovert me _ _ w) (kill_client-IsCovert e me target t _ w)))
      ])

kill_all-IsCovert :
    (e : Env) (me : Client) (us : List Uuid) (reason : Text) (w : World)
    → IsCovert w (kill_all e me us reason w)
unfolding kill_all
kill_all-IsCovert e me [] reason w = silent-IsCovert w w (IsQuiet-refl w) refl
kill_all-IsCovert e me (u ∷ us) reason w =
    IsCovert-trans w _ _ (kill-IsCovert e me u reason w) (kill_all-IsCovert e me us reason _)

save-quiet :
    (file : Text) (bans : List Ban) (u : Uuid) → shows_address u (save_to_disk file bans) ≡ false
unfolding shows_address save_to_disk
save-quiet file [] u = refl
save-quiet file (ban ∷ bans) u = refl

hunt-IsCovert :
    (e : Env) (me : Client) (target : IpAddr) (reason : Text) (w : World)
    → IsCovert w (hunt e me target reason w)
unfolding hunt
hunt-IsCovert e me target reason w = IsCovert-trans w _ _ (wallops-IsCovert e _ w) (
    IsCovert-trans _ _ _ (kill_all-IsCovert e me _ _ _) (
      silent-IsCovert _ _ (emit-IsQuiet _ _ _ (λ u. save-quiet w.server.conf.ban_db _ u) refl)
        refl))

unwrap_clients-IsCovert :
    (e : Env) (me : Client) (target : IpAddr) (reason : Text) (w : World)
    → IsCovert w (world_of (unwrap_clients e me target reason w))
unfolding unwrap_clients
unwrap_clients-IsCovert e me target reason w =
    elim w.server.clients
      as (λ cs. IsCovert w (
        world_of (elim cs [
          | [] ↦ Outcome.panicked w
          | c ∷ rest ↦ Outcome.returned (hunt e me target reason w)
        ]))) [
          | [] ↦ silent-IsCovert w w (IsQuiet-refl w) refl
          | c ∷ rest ↦ hunt-IsCovert e me target reason w
        ]

ban_and_hunt-IsCovert :
    (e : Env) (me : Client) (target : IpAddr) (reason : Text) (expires : ℕ) (w : World)
    → IsCovert w (world_of (ban_and_hunt e me target reason expires w))
unfolding ban_and_hunt add_ban
ban_and_hunt-IsCovert e me target reason expires w =
    elim (Bool-cases (chatd.Ban.exists w.server.bans target)) [
      | inl h ↦ rw (h, ban_and_hunt) (refusal-IsCovert me _ _ w)
      | inr h ↦
          rw (h, ban_and_hunt)
            (IsCovert-trans w _ _ (silent-IsCovert w _ (same_effects-IsQuiet w _ refl) refl)
              (unwrap_clients-IsCovert e me target reason _))
    ]

pub kline-IsCovert :
    (e : Env) (me : Client) (target : IpAddr) (reason : Text) (expires_sec : ℕ) (w : World)
    → IsCovert w (world_of (kline e me target reason expires_sec w))
unfolding kline
kline-IsCovert e me target reason expires_sec w =
    let covert = λ (o : Outcome). IsCovert w (world_of o) in
    if_both covert (not (is_agent me)) _ _ (refusal-IsCovert me _ _ w) (
      if_both covert (ban_exists target w.server) _ _ (refusal-IsCovert me _ _ w)
        (elim (Option-cases (checked_add e.now expires_sec)) [
          | inl h ↦ rw h (silent-IsCovert w w (IsQuiet-refl w) refl)
          | inr (t, h) ↦ rw h (ban_and_hunt-IsCovert e me target reason t w)
        ]))
