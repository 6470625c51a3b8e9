-- ===== src/Commands/Kill.antt =====
-- src/commands.rs: `CommandHandler::kill`.
use chatd.Base.{none, some, [], ◌∷◌, ◌++◌, ◌==◌, ltb, not, if◌then◌else◌, length}
use chatd.Text.{Text, lit}
use chatd.Message.{Uuid, MessageType, ProblemCode, nil, new, new_problem, sanitize_text_message}
use chatd.Client.{Client, is_agent, has_options, clear_channels}
use chatd.ClientOptions
use chatd.Channel.{Channel, remove_member, sendto_all_butone}
use chatd.Effect.{Effect, Env, LogEntry}
use chatd.Server.{get_client_ref, put_client, remove_client}
use chatd.World.{World, emit, modify, send, refuse, wallops, log_line, settle, for_channels}

-- The body of the loop over the target's channels, at a channel that is there.
unfoldable pub kill_in : Env → Uuid → Client → Text → Uuid → Channel → World → World
kill_in e target t reason id ch w =
    let rest = remove_member target ch in
    let destroyed =
      LogEntry.event e.now (lit "DESTROY") ch.name t.name t.ip (lit "Client Killed") in
    let kept = LogEntry.event e.now (lit "Quit(Killed)") ch.name t.name t.ip (lit "") in
    settle id rest (log_line id destroyed rest) (log_line id kept rest) (
      emit
        (sendto_all_butone target
          (new (MessageType.quit (lit "Killed (" ++ reason ++ lit ")")) target id (some t.name)) ch)
        w)

-- From `target_channels` on.
unfoldable pub kill_client : Env → Client → Uuid → Client → Text → World → World
kill_client e me target t reason w =
    let left = for_channels (λ id name. kill_in e target t reason id) t.channels w in
    wallops e
      (new
        (MessageType.wallop (
          lit "<i>"
          ++ me.name
          ++ lit "</i> killed <i>"
          ++ t.name
          ++ lit "@"
          ++ e.show_ip t.ip
          ++ lit "</i> ("
          ++ reason
          ++ lit ")"))
        nil nil none)
      (modify (remove_client target) (
        emit (Effect.close t.id ∷ []) (
          send t.id
            (new_problem ProblemCode.kicked_from_server none
              (lit "You were kicked from the server: " ++ reason))
            (modify (put_client target (clear_channels t)) left))))

unfoldable pub kill : Env → Client → Uuid → Text → World → World
kill e me target reason w =
    if not (is_agent me)
    then refuse me.id ProblemCode.permission_denied none
        (lit "No permission to perform this action.") w
    else elim (get_client_ref target w.server) [
      | none ↦
          refuse me.id ProblemCode.name_invalid none (lit "No matching client was found for KILL.")
            w
      | some t ↦
          let clean = sanitize_text_message reason in
          if has_options ClientOptions.admin t
          then refuse me.id ProblemCode.permission_denied none
              (lit "You may not kill ADMIN flag users.") w
          else if ltb 255 (length clean)
          then refuse me.id ProblemCode.invalid_argument none
              (lit "Reason must be under 255 characters.") w
          else kill_client e me target t
              (if length clean == 0 then lit "no reason was provided." else clean) w
    ]
