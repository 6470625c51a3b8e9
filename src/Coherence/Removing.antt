-- ===== src/Coherence/Removing.antt =====
-- `kill`, `kline`, `handle_client_error` and `check_client_pings` keep the invariant.
use chatd.Base.{
  ℕ, Bool, ◌≡◌, refl, none, some, inl, inr, List, [], ◌∷◌, arith, not, ltb, length, Option-cases,
  Bool-cases,
}
use chatd.Text.{Text}
use chatd.Dict.{Dict, lookup, map_values, erase, erase-insert, erase_missing, lookup-erase_self}
use chatd.Message.{Uuid, IpAddr, Message, sanitize_text_message}
use chatd.Channel.{Channel}
use chatd.ClientOptions
use chatd.Client.{
  Client, has_options, ClientStatus, is_pending, set_status, clear_channels, is_agent,
}
use chatd.Effect.{Env}
use chatd.Ban.{exists}
use chatd.Server.{
  Server, put_client, remove_client, sendto_wallops, get_client_ref, add_ban, ban_exists,
}
use chatd.Server.Lookup.{mark, write_where-map_values}
use chatd.World.{World, wallops, for_channels}
use chatd.Commands.Kill.{kill_in, kill_client, kill}
use chatd.Commands.Kline.{kill_all, hunt, unwrap_clients, ban_and_hunt, checked_add, kline}
use chatd.Session.Departure.{quit_channel, handle_client_error}
use chatd.Session.Pings.{time_out, judge, Idle, sweep, purge, purge_all, check_client_pings}
use chatd.Coherence.{
  IsCoherent, IsSound, sound, coherent, keep, if_IsSound, LeavesSound, leaves_sound, if_leaves,
}
use chatd.Coherence.Maps.{
  Alike, remove_client-IsCoherent, map_values-IsCoherent, same_maps-IsCoherent,
}
use chatd.Coherence.Leaving.{
  Shrinks-IsCoherent, IsDeparture, settle-Shrinks, settle-IsGone, for_channels_lem,
  for_channels-IsAbsent,
}

mark-Alike : (test : Client → Bool) (fails : Uuid → Bool) (c : Client) → Alike c (mark test fails c)
unfolding mark set_status is_pending
mark-Alike test fails c = ground arith

-- The write of a broadcast to the agents.
pub sendto_wallops-IsCoherent :
    (e : Env) (m : Message) (s : Server) → IsCoherent s → IsCoherent (sendto_wallops e m s).0
unfolding sendto_wallops
sendto_wallops-IsCoherent e m s v =
    rw (write_where-map_values _ e.write_fails m s.clients)
      (map_values-IsCoherent _ s (mark-Alike _ e.write_fails) v)

wallops-IsSound : (e : Env) (m : Message) (w : World) → IsSound w → IsSound (wallops e m w)
wallops-IsSound e m w v = sound _ (sendto_wallops-IsCoherent e m w.server (coherent w v))

-- A client that has left the channels of its list can be taken from the map.
pub leave_all-IsSound :
    (u : Uuid) (body : Uuid → Text → Channel → World → World) (c : Client) (w : World)
    → IsDeparture u body
    → IsSound w
    → lookup u w.server.clients ≡ some c
    → IsCoherent (remove_client u (for_channels body c.channels w).server)
leave_all-IsSound u body c w leaves v found =
    remove_client-IsCoherent u _
      (Shrinks-IsCoherent _ _ (for_channels_lem u body leaves c.channels w).0 (coherent w v))
      (for_channels-IsAbsent u body leaves c w (coherent w v) found)

pub remove-put_client :
    (u : Uuid) (c : Client) (s : Server) → remove_client u (put_client u c s) ≡ remove_client u s
unfolding remove_client put_client
remove-put_client u c s = rw (erase-insert u c s.clients)

erase_missing-IsCoherent :
    (u : Uuid) (s : Server)
    → lookup u s.clients ≡ none
    → IsCoherent s
    → IsCoherent (remove_client u s)
unfolding remove_client
erase_missing-IsCoherent u s h v = rw (erase_missing u s.clients h) v

pub remove_twice : (u : Uuid) (s : Server) → remove_client u (remove_client u s) ≡ remove_client u s
unfolding remove_client
remove_twice u s = rw (erase_missing u (erase u s.clients) (lookup-erase_self u s.clients))

module _ (e : Env) where
  pub kill_in-IsDeparture :
      (target : Uuid) (t : Client) (reason : Text)
      → IsDeparture target (λ id name. kill_in e target t reason id)
  unfolding kill_in
  kill_in-IsDeparture target t reason k name ch w found =
      (settle-Shrinks target k ch _ _ _ found, settle-IsGone target k ch _ _ _)

  kill_client-IsSound :
      (me : Client) (target : Uuid) (t : Client) (reason : Text) (w : World)
      → IsSound w
      → lookup target w.server.clients ≡ some t
      → IsSound (kill_client e me target t reason w)
  unfolding kill_client
  kill_client-IsSound me target t reason w v found = wallops-IsSound e _ _ (
      sound _ (
        rw (remove-put_client target (clear_channels t))
          (leave_all-IsSound target _ t w (kill_in-IsDeparture target t reason) v found)))

  pub kill-IsSound :
      (me : Client) (target : Uuid) (reason : Text) (w : World)
      → IsSound w
      → IsSound (kill e me target reason w)
  unfolding kill get_client_ref
  kill-IsSound me target reason w v = elim (Option-cases (lookup target w.server.clients)) [
    | inl h ↦ rw (h, kill) (if_IsSound (not (is_agent me)) _ _ (keep w _ v refl) (keep w _ v refl))
    | inr (t, h) ↦
        rw (h, kill)
          (if_IsSound (not (is_agent me)) _ _ (keep w _ v refl) (
            if_IsSound (has_options ClientOptions.admin t) _ _ (keep w _ v refl) (
              if_IsSound (ltb 255 (length (sanitize_text_message reason))) _ _ (keep w _ v refl)
                (kill_client-IsSound me target t _ w v h))))
  ]

  kill_all-IsSound :
      (me : Client) (found : List Uuid) (reason : Text) (w : World)
      → IsSound w
      → IsSound (kill_all e me found reason w)
  unfolding kill_all
  kill_all-IsSound me [] reason w v = v
  kill_all-IsSound me (u ∷ us) reason w v =
      kill_all-IsSound me us reason (kill e me u reason w) (kill-IsSound me u reason w v)

  hunt-IsSound :
      (me : Client) (target : IpAddr) (reason : Text) (w : World)
      → IsSound w
      → IsSound (hunt e me target reason w)
  unfolding hunt
  hunt-IsSound me target reason w v =
      keep _ _ (kill_all-IsSound me _ _ _ (wallops-IsSound e _ w v)) refl

  unwrap_clients-LeavesSound :
      (me : Client) (target : IpAddr) (reason : Text) (w : World) (cs : Dict Client)
      → w.server.clients ≡ cs
      → IsSound w
      → LeavesSound (unwrap_clients e me target reason w)
  unfolding unwrap_clients
  unwrap_clients-LeavesSound me target reason w [] h v = rw (h, unwrap_clients) (leaves_sound _ v)
  unwrap_clients-LeavesSound me target reason w (c ∷ cs) h v =
      rw (h, unwrap_clients) (leaves_sound _ (hunt-IsSound me target reason w v))

  -- What `add_ban` gives keeps both maps.
  ban_and_hunt-LeavesSound :
      (me : Client) (target : IpAddr) (reason : Text) (expires : ℕ) (w : World)
      → IsSound w
      → LeavesSound (ban_and_hunt e me target reason expires w)
  unfolding ban_and_hunt add_ban
  ban_and_hunt-LeavesSound me target reason expires w v =
      elim (Bool-cases (exists w.server.bans target)) [
        | inl h ↦ rw (h, ban_and_hunt) (leaves_sound _ (keep w _ v refl))
        | inr h ↦
            rw (h, ban_and_hunt)
              (unwrap_clients-LeavesSound me target reason _ w.server.clients refl
                (sound _ (same_maps-IsCoherent w.server _ refl refl (coherent w v))))
      ]

  pub kline-LeavesSound :
      (me : Client) (target : IpAddr) (reason : Text) (expires_sec : ℕ) (w : World)
      → IsSound w
      → LeavesSound (kline e me target reason expires_sec w)
  unfolding kline
  kline-LeavesSound me target reason expires_sec w v =
      if_leaves (not (is_agent me)) _ _ (leaves_sound _ (keep w _ v refl)) (
        if_leaves (ban_exists target w.server) _ _ (leaves_sound _ (keep w _ v refl))
          (elim (Option-cases (checked_add e.now expires_sec)) [
            | inl h ↦ rw h (leaves_sound _ v)
            | inr (t, h) ↦ rw h (ban_and_hunt-LeavesSound me target reason t w v)
          ]))

  pub quit_channel-IsDeparture :
      (c : Client) (reason : Text) → IsDeparture c.id (quit_channel e c reason)
  unfolding quit_channel
  quit_channel-IsDeparture c reason k name ch w found =
      (settle-Shrinks c.id k ch _ _ _ found, settle-IsGone c.id k ch _ _ _)

  pub handle_client_error-IsSound :
      (c : Client) (reason : Text) (w : World)
      → IsSound w
      → lookup c.id w.server.clients ≡ some c
      → IsSound (handle_client_error e c reason w)
  unfolding handle_client_error
  handle_client_error-IsSound c reason w v found =
      sound _ (leave_all-IsSound c.id _ c w (quit_channel-IsDeparture c reason) v found)

  pub time_out-IsDeparture : (u : Uuid) (c : Client) → IsDeparture u (time_out e u c)
  unfolding time_out
  time_out-IsDeparture u c k name ch w found =
      (settle-Shrinks u k ch _ _ _ found, settle-IsGone u k ch _ _ _)

  purge-IsSound : (u : Uuid) (w : World) → IsSound w → IsSound (purge e u w)
  unfolding purge get_client_ref
  purge-IsSound u w v = elim (Option-cases (lookup u w.server.clients)) [
    | inl h ↦ rw (h, purge) (sound _ (erase_missing-IsCoherent u w.server h (coherent w v)))
    | inr (c, h) ↦
        rw (h, purge)
          (sound _ (
            rw (remove_twice u, remove-put_client u (clear_channels c))
              (leave_all-IsSound u _ c w (time_out-IsDeparture u c) v h)))
  ]

  purge_all-IsSound : (us : List Uuid) (w : World) → IsSound w → IsSound (purge_all e us w)
  unfolding purge_all
  purge_all-IsSound [] w v = v
  purge_all-IsSound (u ∷ us) w v = purge_all-IsSound us (purge e u w) (purge-IsSound u w v)

-- What the sweep makes of a client.
unfoldable pub mark_idle : ℕ → Client → Client
mark_idle now c = elim (judge now c) [
  | Idle.active ↦ c
  | Idle.late ↦ record c { last_action = now }
  | Idle.timed_out ↦ set_status ClientStatus.zombie c
]

mark_idle-Alike : (now : ℕ) (c : Client) → Alike c (mark_idle now c)
unfolding mark_idle set_status is_pending
mark_idle-Alike now c = ground arith

pub sweep-map_values :
    (now : ℕ) (cs : Dict Client) → (sweep now cs).0 ≡ map_values (mark_idle now) cs
unfolding sweep map_values mark_idle
sweep-map_values now [] = refl
sweep-map_values now ((id, c) ∷ cs) = ground (arith, sweep-map_values now cs)

pub check_client_pings-IsSound :
    (e : Env) (w : World) → IsSound w → IsSound (check_client_pings e w)
unfolding check_client_pings
check_client_pings-IsSound e w v = purge_all-IsSound e _ _ (
    sound _ (
      rw (sweep-map_values e.now w.server.clients)
        (map_values-IsCoherent (mark_idle e.now) w.server (mark_idle-Alike e.now) (coherent w v))))
