-- ===== src/Session/Discretion/Kills.antt =====
-- main.rs and commands.rs: what is said, and what a kill does in each channel, show no address.
use chatd.Base.{false, ◌≡◌, refl, inl, inr, not, [], ◌∷◌, ◌==◌, if_both, Option-cases}
use chatd.Text.{Text}
use chatd.Dict.{Dict, lookup}
use chatd.Message.{Uuid, ip_eq, new}
use chatd.ChannelOptions
use chatd.Client.{Client, is_agent}
use chatd.Channel.{Channel, sendto_agents, sendto_all_butone, remove_member, has, is_member}
use chatd.Effect.{Effect, Env}
use chatd.Server.{get_channel_ref}
use chatd.World.{World, for_channels}
use chatd.Commands.Kill.{kill_in}
use chatd.Session.Say.{say}
use chatd.Session.Discretion.{
  discloses, shows_address, quiet_sendto, log_line-quiet, IsQuiet, IsQuiet-refl, IsQuiet-trans,
  if_IsQuiet, emit-IsQuiet, settle-IsQuiet,
}
use chatd.Session.Discretion.Commands.{append-quiet}

pub say-IsQuiet :
    (e : Env) (me : Client) (k : Uuid) (text : Text) (w : World) → IsQuiet w (say e me k text w)
unfolding say get_channel_ref sendto_agents sendto_all_butone discloses ip_eq new
say-IsQuiet e me k text w = elim (Option-cases (lookup k w.server.channels)) [
  | inl h ↦ rw (h, say) (IsQuiet-refl w)
  | inr (ch, h) ↦
      rw (h, say)
        (if_IsQuiet w (is_member me.id ch) _ _
          (emit-IsQuiet _ w _
            (λ u.
              append-quiet u _ _
                (if_both (λ es. shows_address u es ≡ false) (has ChannelOptions.hidden_messages ch)
                  _ _ (quiet_sendto is_agent _ u ch.members refl)
                  (quiet_sendto (λ c. not (c.id == me.id)) _ u ch.members refl))
                (log_line-quiet ch.id _ ch u))
            refl)
          (IsQuiet-refl w))
]

pub for_channels-IsQuiet :
    (body : Uuid → Text → Channel → World → World) (ds : Dict Text) (w : World)
    → ((k : Uuid) (name : Text) (ch : Channel) (x : World) → IsQuiet x (body k name ch x))
    → IsQuiet w (for_channels body ds w)
unfolding for_channels get_channel_ref
for_channels-IsQuiet body [] w quiet = IsQuiet-refl w
for_channels-IsQuiet body ((k, name) ∷ ds) w quiet =
    elim (Option-cases (lookup k w.server.channels)) [
      | inl h ↦ rw (h, for_channels) (for_channels-IsQuiet body ds w quiet)
      | inr (ch, h) ↦
          rw (h, for_channels)
            (IsQuiet-trans w _ _ (quiet k name ch w) (for_channels-IsQuiet body ds _ quiet))
    ]

pub kill_in-IsQuiet :
    (e : Env) (target : Uuid) (t : Client) (reason : Text) (k : Uuid) (ch : Channel) (w : World)
    → IsQuiet w (kill_in e target t reason k ch w)
unfolding kill_in sendto_all_butone discloses ip_eq new
kill_in-IsQuiet e target t reason k ch w =
    IsQuiet-trans w _ _
      (emit-IsQuiet _ w _ (λ u. quiet_sendto (λ c. not (c.id == target)) _ u ch.members refl) refl)
      (settle-IsQuiet k (remove_member target ch) _ _ _ (λ u. log_line-quiet k _ _ u)
        (λ u. log_line-quiet k _ _ u))

pub close-quiet : (v u : Uuid) → shows_address u (Effect.close v ∷ []) ≡ false
unfolding shows_address
close-quiet v u = refl
