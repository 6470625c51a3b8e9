-- ===== src/Roster/Thinning.antt =====
-- The commands that enter nobody.
use chatd.Base.{
  ℕ, Bool, true, ◌≡◌, refl, sym, ◌∙◌, ap, not, some, inl, inr, List, [], ◌∷◌, ◌==◌, length, ltb,
  if_both, Bool-cases, Option-cases, arith, if◌then◌else◌, ==_iff,
}
use mathlib.Core.Path.{subst}
use chatd.Text.{Text}
use chatd.Dict.{lookup, contains}
use chatd.Message.{Uuid, IpAddr, sanitize_text_message}
use chatd.ClientOptions
use chatd.Client.{Client, is_agent, has_options}
use chatd.Channel.{Channel, set_topic, add_option, remove_option, set_options}
use chatd.ChannelOptions.{Options, public_modes}
use chatd.Ban.{exists}
use chatd.Effect.{Env}
use chatd.Server.{
  Server, put_channel, get_channel_ref, get_client_ref, put_client, remove_client, sendto_wallops,
  add_ban, ban_exists,
}
use chatd.World.{World, Outcome, world_of}
use chatd.Commands.Kick.{kick, is_stranger}
use chatd.Commands.Part.{part}
use chatd.Commands.Kill.{kill, kill_client}
use chatd.Commands.Kline.{kline, kill_all, hunt, unwrap_clients, ban_and_hunt, checked_add}
use chatd.Commands.Modes.{set_channel_modes, change_modes, announce_modes, set_mode, set_public}
use chatd.Commands.Topic.{set_channel_topic, store_topic}
use chatd.Coherence.Leaving.{Shrinks, for_channels_lem}
use chatd.Coherence.Removing.{kill_in-IsDeparture}
use chatd.Roster.{roster, holds, withdraw, roster-put_channel}
use chatd.Roster.Leaving.{kick-withdraw, part-withdraw}

-- Whoever is in a channel of `x` is there in `w`.
unfoldable pub IsThinner : World → World → Type 0
IsThinner w x = (j v : Uuid) → roster x.server j v ≡ true → roster w.server j v ≡ true

pub same_channels-IsThinner : (w x : World) → x.server.channels ≡ w.server.channels → IsThinner w x
unfolding IsThinner roster
same_channels-IsThinner w x same j v h = rw same at h

pub IsThinner-trans : (w x y : World) → IsThinner w x → IsThinner x y → IsThinner w y
unfolding IsThinner
IsThinner-trans w x y p q j v h = p j v (q j v h)

pub if_IsThinner :
    (w : World) (b : Bool) (x y : World)
    → IsThinner w x
    → IsThinner w y
    → IsThinner w (if b then x else y)
if_IsThinner w b x y = if_both (IsThinner w) b x y

Shrinks-roster :
    (s t : Server) (j v : Uuid) → Shrinks s t → roster t j v ≡ true → roster s j v ≡ true
unfolding roster contains
Shrinks-roster s t j v a h = elim (Option-cases (lookup j t.channels)) [
  | inl gone ↦ absurd (cc (rw (roster, gone) at h))
  | inr (ch, found) ↦ elim (Option-cases (lookup v ch.members)) [
    | inl none_there ↦ absurd (cc (rw (roster, found, holds, contains, none_there) at h))
    | inr (m, there) ↦
        let (old, p, q, sub) = a.channels j ch found in
        rw (roster, p, holds, contains, sub v m there) refl
  ]
]

-- A channel that is stored again with the members it has.
stored_again :
    (k : Uuid) (ch new : Channel) (w x : World)
    → lookup k w.server.channels ≡ some ch
    → new.members ≡ ch.members
    → x.server ≡ put_channel k new w.server
    → IsThinner w x
unfolding IsThinner roster
stored_again k ch new w x found same stored j v h =
    let e : (if k == j then contains v new.members else roster w.server j v) ≡ true =
      sym (roster-put_channel w.server k j v new) ∙ ap (λ s. roster s j v) (sym stored) ∙ h in
    elim (Bool-cases (k == j)) [
      | inl hit ↦
          let p : k ≡ j = (==_iff k j).0 hit in
          let there : contains v new.members ≡ true = rw hit at e in
          subst (λ i. roster w.server i v ≡ true) p
            (ap (λ o. holds o v) found ∙ ap (contains v) (sym same) ∙ there)
      | inr other ↦ rw other at e
    ]

pub kick-IsThinner :
    (me : Client) (k u : Uuid) (reason : Text) (w : World) → IsThinner w (kick me k u reason w)
unfolding IsThinner withdraw
kick-IsThinner me k u reason w j v h = ground (arith, kick-withdraw me k u reason w j v)

pub part-IsThinner : (e : Env) (me : Client) (k : Uuid) (w : World) → IsThinner w (part e me k w)
unfolding IsThinner withdraw
part-IsThinner e me k w j v h = ground (arith, part-withdraw e me k w j v)

set_public-members :
    (options : Options) (modes : List Options) (ch : Channel)
    → (set_public options modes ch).members ≡ ch.members
unfolding set_public set_mode add_option remove_option
set_public-members options [] ch = refl
set_public-members options (mode ∷ modes) ch =
    set_public-members options modes (set_mode options mode ch) ∙ ground arith

change_modes-members :
    (me : Client) (modes : ℕ) (ch : Channel) → (change_modes me modes ch).members ≡ ch.members
unfolding change_modes set_options
change_modes-members me modes ch =
    if_both (λ (c : Channel). c.members ≡ ch.members) (not (is_agent me)) _ _
      (set_public-members _ public_modes ch) refl

pub set_channel_modes-IsThinner :
    (me : Client) (k : Uuid) (modes : ℕ) (w : World) → IsThinner w (set_channel_modes me k modes w)
unfolding set_channel_modes get_channel_ref announce_modes
set_channel_modes-IsThinner me k modes w = elim (Option-cases (lookup k w.server.channels)) [
  | inl h ↦ rw (h, set_channel_modes) (same_channels-IsThinner w _ refl)
  | inr (ch, h) ↦
      rw (h, set_channel_modes)
        (if_IsThinner w (is_stranger me ch) _ _ (same_channels-IsThinner w _ refl) (
          if_IsThinner w (ch.options == (change_modes me modes ch).options) _ _
            (same_channels-IsThinner w _ refl)
            (stored_again k ch (change_modes me modes ch) w _ h (change_modes-members me modes ch)
              refl)))
]

pub set_channel_topic-IsThinner :
    (e : Env) (me : Client) (k : Uuid) (topic : Text) (max_len : ℕ) (w : World)
    → IsThinner w (set_channel_topic e me k topic max_len w)
unfolding set_channel_topic get_channel_ref store_topic set_topic
set_channel_topic-IsThinner e me k topic max_len w =
    elim (Option-cases (lookup k w.server.channels)) [
      | inl h ↦ rw (h, set_channel_topic) (same_channels-IsThinner w _ refl)
      | inr (ch, h) ↦
          rw (h, set_channel_topic)
            (if_IsThinner w (is_stranger me ch) _ _ (same_channels-IsThinner w _ refl) (
              if_IsThinner w (ltb max_len (length (sanitize_text_message topic))) _ _
                (same_channels-IsThinner w _ refl) (stored_again k ch _ w _ h refl refl)))
    ]

kill_client-IsThinner :
    (e : Env) (me : Client) (target : Uuid) (t : Client) (reason : Text) (w : World)
    → IsThinner w (kill_client e me target t reason w)
unfolding kill_client remove_client put_client sendto_wallops IsThinner roster
kill_client-IsThinner e me target t reason w j v h =
    Shrinks-roster w.server _ j v
      (for_channels_lem target _ (kill_in-IsDeparture e target t reason) t.channels w).0 h

pub kill-IsThinner :
    (e : Env) (me : Client) (target : Uuid) (reason : Text) (w : World)
    → IsThinner w (kill e me target reason w)
unfolding kill get_client_ref
kill-IsThinner e me target reason w =
    let same = same_channels-IsThinner w in
    if_IsThinner w (not (is_agent me)) _ _ (same _ refl)
      (elim (Option-cases (lookup target w.server.clients)) [
        | inl h ↦ rw h (same _ refl)
        | inr (t, h) ↦ rw h (
            if_IsThinner w (has_options ClientOptions.admin t) _ _ (same _ refl) (
              if_IsThinner w (ltb 255 (length (sanitize_text_message reason))) _ _ (same _ refl)
                (kill_client-IsThinner e me target t _ w)))
      ])

kill_all-IsThinner :
    (e : Env) (me : Client) (us : List Uuid) (reason : Text) (w : World)
    → IsThinner w (kill_all e me us reason w)
unfolding kill_all
kill_all-IsThinner e me [] reason w = same_channels-IsThinner w w refl
kill_all-IsThinner e me (u ∷ us) reason w =
    IsThinner-trans w _ _ (kill-IsThinner e me u reason w) (kill_all-IsThinner e me us reason _)

hunt-IsThinner :
    (e : Env) (me : Client) (target : IpAddr) (reason : Text) (w : World)
    → IsThinner w (hunt e me target reason w)
unfolding hunt sendto_wallops
hunt-IsThinner e me target reason w =
    IsThinner-trans w _ _ (same_channels-IsThinner w _ refl)
      (IsThinner-trans _ _ _ (kill_all-IsThinner e me _ _ _) (same_channels-IsThinner _ _ refl))

unwrap_clients-IsThinner :
    (e : Env) (me : Client) (target : IpAddr) (reason : Text) (w : World)
    → IsThinner w (world_of (unwrap_clients e me target reason w))
unfolding unwrap_clients
unwrap_clients-IsThinner e me target reason w =
    elim w.server.clients
      as (λ cs. IsThinner w (
        world_of (elim cs [
          | [] ↦ Outcome.panicked w
          | c ∷ rest ↦ Outcome.returned (hunt e me target reason w)
        ]))) [
          | [] ↦ same_channels-IsThinner w w refl
          | c ∷ rest ↦ hunt-IsThinner e me target reason w
        ]

ban_and_hunt-IsThinner :
    (e : Env) (me : Client) (target : IpAddr) (reason : Text) (expires : ℕ) (w : World)
    → IsThinner w (world_of (ban_and_hunt e me target reason expires w))
unfolding ban_and_hunt add_ban
ban_and_hunt-IsThinner e me target reason expires w =
    elim (Bool-cases (exists w.server.bans target)) [
      | inl h ↦ rw (h, ban_and_hunt) (same_channels-IsThinner w _ refl)
      | inr h ↦
          rw (h, ban_and_hunt)
            (IsThinner-trans w _ _ (same_channels-IsThinner w _ refl)
              (unwrap_clients-IsThinner e me target reason _))
    ]

pub kline-IsThinner :
    (e : Env) (me : Client) (target : IpAddr) (reason : Text) (expires_sec : ℕ) (w : World)
    → IsThinner w (world_of (kline e me target reason expires_sec w))
unfolding kline
kline-IsThinner e me target reason expires_sec w =
    let thins = λ (o : Outcome). IsThinner w (world_of o) in
    if_both thins (not (is_agent me)) _ _ (same_channels-IsThinner w _ refl) (
      if_both thins (ban_exists target w.server) _ _ (same_channels-IsThinner w _ refl)
        (elim (Option-cases (checked_add e.now expires_sec)) [
          | inl h ↦ rw h (same_channels-IsThinner w w refl)
          | inr (t, h) ↦ rw h (ban_and_hunt-IsThinner e me target reason t w)
        ]))
