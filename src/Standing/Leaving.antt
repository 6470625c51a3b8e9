-- ===== src/Standing/Leaving.antt =====
-- Departures leave the other clients as they stand.
use chatd.Base.{
  if_both, ◌∙◌, ◌≡◌, refl, inl, inr, List, [], ◌∷◌, not, ltb, length, Option-cases, ℕ, arith,
}
use chatd.Text.{Text}
use chatd.Dict.{Dict, lookup}
use chatd.Message.{Uuid, sanitize_text_message}
use chatd.ClientOptions
use chatd.Channel.{Channel, Effects}
use chatd.Client.{Client, set_status, clear_channels, is_agent, has_options}
use chatd.Effect.{Env}
use chatd.Server.{remove_client, get_client_ref, get_channel_ref, put_channel, remove_channel}
use chatd.World.{World, for_channels, settle}
use chatd.Commands.Kill.{kill_in, kill_client, kill}
use chatd.Session.Departure.{quit_channel, handle_client_error}
use chatd.Session.Pings.{time_out, purge, purge_all, check_client_pings}
use chatd.Coherence.Leaving.{IsDeparture, for_channels_lem}
use chatd.Coherence.Removing.{
  kill_in-IsDeparture, quit_channel-IsDeparture, time_out-IsDeparture, remove-put_client, mark_idle,
  sweep-map_values,
}
use chatd.Standing.{
  StandsAs, Persists, Stays, same_clients-Persists, Persists-trans, remove_client-Persists,
  map_values-Persists, stays, same_clients-Stays, Stays-trans, wallops-Stays, if_Stays,
}

pub settle_bans :
    (k : Uuid) (ch : Channel) (destroyed kept : Effects) (w : World)
    → (settle k ch destroyed kept w).server.bans ≡ w.server.bans
unfolding settle put_channel remove_channel
settle_bans k ch destroyed kept w =
    if_both (λ (x : World). x.server.bans ≡ w.server.bans) _ _ _ refl refl

-- A body that leaves the bans alone.
abbrev KeepsBans : (Uuid → Text → Channel → World → World) → Type 0
KeepsBans body =
    (k : Uuid) (name : Text) (ch : Channel) (w : World)
    → (body k name ch w).server.bans ≡ w.server.bans

for_channels_bans :
    (body : Uuid → Text → Channel → World → World) (ds : Dict Text) (w : World)
    → KeepsBans body
    → (for_channels body ds w).server.bans ≡ w.server.bans
unfolding for_channels get_channel_ref
for_channels_bans body [] w keeps = refl
for_channels_bans body ((k, name) ∷ ds) w keeps = elim (Option-cases (lookup k w.server.channels)) [
  | inl h ↦ rw (h, for_channels) (for_channels_bans body ds w keeps)
  | inr (ch, h) ↦
      rw (h, for_channels) (for_channels_bans body ds (body k name ch w) keeps ∙ keeps k name ch w)
]

-- The channels of a list are left, and the client is taken from the map.
leave_all-Persists :
    (u : Uuid) (body : Uuid → Text → Channel → World → World) (ds : Dict Text) (w : World)
    → IsDeparture u body
    → KeepsBans body
    → Persists w.server (remove_client u (for_channels body ds w).server)
leave_all-Persists u body ds w leaves keeps =
    Persists-trans _ _ _
      (same_clients-Persists _ _ (for_channels_lem u body leaves ds w).0.clients
        (for_channels_bans body ds w keeps))
      (remove_client-Persists u _)

module _ (e : Env) where
  kill_in_bans :
      (target : Uuid) (t : Client) (reason : Text)
      → KeepsBans (λ id name. kill_in e target t reason id)
  unfolding kill_in
  kill_in_bans target t reason k name ch w = settle_bans k _ _ _ _

  quit_channel_bans : (c : Client) (reason : Text) → KeepsBans (quit_channel e c reason)
  unfolding quit_channel
  quit_channel_bans c reason k name ch w = settle_bans k _ _ _ _

  time_out_bans : (u : Uuid) (c : Client) → KeepsBans (time_out e u c)
  unfolding time_out
  time_out_bans u c k name ch w = settle_bans k _ _ _ _

  kill_client-Stays :
      (me : Client) (target : Uuid) (t : Client) (reason : Text) (w : World)
      → Stays w (kill_client e me target t reason w)
  unfolding kill_client
  kill_client-Stays me target t reason w =
      Stays-trans _ _ _
        (stays _ _ (
          rw (remove-put_client target (clear_channels t)) (
            leave_all-Persists target _ t.channels w (kill_in-IsDeparture e target t reason)
              (kill_in_bans target t reason))))
        (wallops-Stays e _ _)

  pub kill-Stays :
      (me : Client) (target : Uuid) (reason : Text) (w : World)
      → Stays w (kill e me target reason w)
  unfolding kill get_client_ref
  kill-Stays me target reason w =
      let same = λ (x : World). same_clients-Stays w x in
      elim (Option-cases (lookup target w.server.clients)) [
        | inl h ↦
            rw (h, kill) (if_Stays w (not (is_agent me)) _ _ (same _ refl refl) (same _ refl refl))
        | inr (t, h) ↦
            rw (h, kill)
              (if_Stays w (not (is_agent me)) _ _ (same _ refl refl) (
                if_Stays w (has_options ClientOptions.admin t) _ _ (same _ refl refl) (
                  if_Stays w (ltb 255 (length (sanitize_text_message reason))) _ _
                    (same _ refl refl) (kill_client-Stays me target t _ w))))
      ]

  pub handle_client_error-Stays :
      (c : Client) (reason : Text) (w : World) → Stays w (handle_client_error e c reason w)
  unfolding handle_client_error
  handle_client_error-Stays c reason w = stays _ _ (
      leave_all-Persists c.id _ c.channels w (quit_channel-IsDeparture e c reason)
        (quit_channel_bans c reason))

  purge-Stays : (u : Uuid) (w : World) → Stays w (purge e u w)
  unfolding purge get_client_ref
  purge-Stays u w = elim (Option-cases (lookup u w.server.clients)) [
    | inl h ↦ rw (h, purge) (stays _ _ (remove_client-Persists u w.server))
    | inr (c, h) ↦
        rw (h, purge)
          (stays _ _ (
            rw (remove-put_client u (clear_channels c)) (
              Persists-trans _ _ _
                (leave_all-Persists u _ c.channels w (time_out-IsDeparture e u c)
                  (time_out_bans u c))
                (remove_client-Persists u _))))
  ]

  pub purge_all-Stays : (us : List Uuid) (w : World) → Stays w (purge_all e us w)
  unfolding purge_all
  purge_all-Stays [] w = same_clients-Stays w w refl refl
  purge_all-Stays (u ∷ us) w =
      Stays-trans _ _ _ (purge-Stays u w) (purge_all-Stays us (purge e u w))

mark_idle-StandsAs : (now : ℕ) (c : Client) → StandsAs c (mark_idle now c)
unfolding mark_idle set_status
mark_idle-StandsAs now c = ground arith

pub check_client_pings-Stays : (e : Env) (w : World) → Stays w (check_client_pings e w)
unfolding check_client_pings
check_client_pings-Stays e w =
    Stays-trans _ _ _
      (stays _ _ (
        map_values-Persists (mark_idle e.now) w.server _ (mark_idle-StandsAs e.now)
          (sweep-map_values e.now w.server.clients) refl))
      (purge_all-Stays e _ _)
