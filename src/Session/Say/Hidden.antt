-- ===== src/Session/Say/Hidden.antt =====
-- src/main.rs: who is sent what is said in a channel.
use chatd.Base.{
  Bool, false, ◌≡◌, refl, some, [], ◌∷◌, ◌++◌, ◌==◌, ◌&&◌, ◌||◌, not, if◌then◌else◌, arith, inl,
  inr, Bool-cases,
}
use chatd.Text.{Text}
use chatd.Dict.{Dict, lookup}
use chatd.Message.{Uuid, Message, MessageType, new, sanitize_text_message}
use chatd.ChannelOptions
use chatd.Client.{Client, is_agent}
use chatd.Channel.{Channel, Effects, has, is_member, sendto, sendto_agents, sendto_all_butone}
use chatd.Effect.{Effect, Env, LogEntry}
use chatd.Server.{get_channel_ref}
use chatd.World.{World, log_line}
use chatd.Session.Say.{say}

-- Whether a frame goes to the sink of `u`.
unfoldable pub sends_to : Uuid → Effects → Bool
sends_to u [] = false
sends_to u (Effect.send v frame ∷ es) = v == u || sends_to u es
sends_to u (Effect.close v ∷ es) = sends_to u es
sends_to u (Effect.log v entry ∷ es) = sends_to u es
sends_to u (Effect.save file bans ∷ es) = sends_to u es

-- Whether a member with the id `u` passes the test.
unfoldable pub some_member : (Client → Bool) → Uuid → Dict Client → Bool
some_member test u [] = false
some_member test u ((k, c) ∷ cs) = c.id == u && test c || some_member test u cs

sends_to-append :
    (u : Uuid) (xs ys : Effects) → sends_to u (xs ++ ys) ≡ (sends_to u xs || sends_to u ys)
unfolding sends_to
sends_to-append u [] ys = refl
sends_to-append u (Effect.send v frame ∷ es) ys = ground (arith, sends_to-append u es ys)
sends_to-append u (Effect.close v ∷ es) ys = sends_to-append u es ys
sends_to-append u (Effect.log v entry ∷ es) ys = sends_to-append u es ys
sends_to-append u (Effect.save file bans ∷ es) ys = sends_to-append u es ys

pub sendto_lem :
    (test : Client → Bool) (m : Message) (u : Uuid) (cs : Dict Client)
    → sends_to u (sendto test m cs) ≡ some_member test u cs
unfolding sends_to sendto some_member
sendto_lem test m u [] = refl
sendto_lem test m u ((k, c) ∷ cs) = ground (arith, sendto_lem test m u cs)

log_line-sends_to :
    (u k : Uuid) (entry : LogEntry) (ch : Channel) → sends_to u (log_line k entry ch) ≡ false
unfolding sends_to log_line
log_line-sends_to u k entry ch = ground arith

-- Frames with the line in the log after them.
delivered :
    (es : Effects) (b : Bool) (u k : Uuid) (entry : LogEntry) (ch : Channel)
    → sends_to u es ≡ b
    → sends_to u (es ++ log_line k entry ch) ≡ b
delivered es b u k entry ch h =
    ground (arith, sends_to-append u es (log_line k entry ch), log_line-sends_to u k entry ch)

-- What a member says in a channel is sent, if the channel has hidden messages, to those members
-- that are agents, and else to all members but the sender; nobody else gets a frame, and what a
-- client says that is no member is sent to nobody.
pub say-sends_to :
    (e : Env) (me : Client) (k : Uuid) (text : Text) (w : World) (ch : Channel) (u : Uuid)
    → lookup k w.server.channels ≡ some ch
    → w.effects ≡ []
    → sends_to u (say e me k text w).effects ≡ (
        if is_member me.id ch
        then if has ChannelOptions.hidden_messages ch
          then some_member is_agent u ch.members
          else some_member (λ c. not (c.id == me.id)) u ch.members
        else false)
unfolding get_channel_ref say sendto_agents sendto_all_butone sends_to
say-sends_to e me k text w ch u found quiet =
    let clean = sanitize_text_message text in
    let m = new (MessageType.message clean) me.id k (some me.name) in
    let line = LogEntry.said e.now me.ip me.name clean in
    let reaches = λ (test : Client → Bool).
      delivered (sendto test m ch.members) _ u ch.id line ch (sendto_lem test m u ch.members) in
    elim (Bool-cases (is_member me.id ch)) [
      | inr stranger ↦ rw (found, say, stranger, quiet) refl
      | inl member ↦ elim (Bool-cases (has ChannelOptions.hidden_messages ch)) [
        | inl hidden ↦ rw (found, say, member, hidden, quiet) (reaches is_agent)
        | inr shown ↦ rw (found, say, member, shown, quiet) (reaches (λ c. not (c.id == me.id)))
      ]
    ]
