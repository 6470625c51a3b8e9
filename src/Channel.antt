-- ===== src/Channel.antt =====
-- src/channel.rs: a channel, its members and its broadcasts.
--
-- A member is a clone of the client, taken when it joined. A broadcast is the list of the frames
-- that it writes. `serde_json::to_string` does not fail on a message, and all callers drop the
-- result of a write.
use chatd.Base.{
  ℕ, Bool, false, Option, none, some, List, [], ◌∷◌, ◌++◌, ◌==◌, not, if◌then◌else◌, length,
  unwrap_or,
}
use chatd.Text.{Text}
use chatd.Dict.{Dict, insert, erase, contains}
use chatd.Message.{Uuid, IpAddr, unspecified, nil, Message, MessageType, new as new_message}
use chatd.Client.{Client, is_agent, is_guest, is_contact}
use chatd.ClientOptions
use chatd.ChannelOptions
use chatd.ChannelOptions.{has_option}
use chatd.Effect.{Effect, Frame, LogEntry}
use chatd.Ban.{Ban}

pub record Channel : Type 0 where
  pub id : Uuid
  pub name : Text
  pub owner : Option Uuid
  pub clientid : Option ℕ
  pub members : Dict Client
  pub zombies : List (Text × Client)
  pub private : Bool
  pub topic : Option Text
  pub options : ChannelOptions.Options

abbrev pub Effects : Type 0
Effects = List (Effect Ban)

private_options : ChannelOptions.Options
private_options =
    ChannelOptions.or (ChannelOptions.or ChannelOptions.rejoin_clients ChannelOptions.persist)
      ChannelOptions.agent_only

public_options : ChannelOptions.Options
public_options =
    ChannelOptions.or
      (ChannelOptions.or
        (ChannelOptions.or ChannelOptions.client_invites ChannelOptions.save_history)
        ChannelOptions.wait_for_agent)
      ChannelOptions.rejoin_clients

-- `Channel::new`, with the fresh id.
unfoldable pub new : Uuid → Text → Option Uuid → Bool → Channel
unfolding private_options public_options
new id name owner private = record {
  id = id;
  name = name;
  owner = owner;
  clientid = none;
  members = [];
  zombies = [];
  private = private;
  topic = none;
  options = if private then private_options else public_options;
}

-- `Channel::has_option`
abbrev pub has : ChannelOptions.Options → Channel → Bool
has o ch = has_option ch.options o

unfoldable pub add_option : ChannelOptions.Options → Channel → Channel
add_option o ch = record ch { options = ChannelOptions.or ch.options o }

unfoldable pub remove_option : ChannelOptions.Options → Channel → Channel
remove_option o ch = record ch { options = ChannelOptions.xor ch.options o }

unfoldable pub set_options : ChannelOptions.Options → Channel → Channel
set_options o ch = record ch { options = o }

unfoldable pub set_topic : Option Text → Channel → Channel
set_topic topic ch = record ch { topic = topic }

-- `owner_id().unwrap_or(Uuid::nil())`
unfoldable pub owner_or_nil : Channel → Uuid
owner_or_nil ch = unwrap_or ch.owner nil

unfoldable pub has_invite : Channel → Uuid → Bool
has_invite ch user = false

unfoldable pub is_member : Uuid → Channel → Bool
is_member id ch = contains id ch.members

unfoldable pub remove_member : Uuid → Channel → Channel
remove_member id ch = record ch { members = erase id ch.members }

unfoldable pub count_members : Channel → ℕ
count_members ch = length ch.members

-- The loop of the five `sendto_` functions: the message goes to the members that pass the test.
unfoldable pub sendto : (Client → Bool) → Message → Dict Client → Effects
sendto test m [] = []
sendto test m ((id, member) ∷ members) =
    let rest = sendto test m members in
    if test member then Effect.send member.id (Frame.cmessage m) ∷ rest else rest

unfoldable pub sendto_one : Uuid → Message → Channel → Effects
sendto_one to m ch = sendto (λ member. member.id == to) m ch.members

unfoldable pub sendto_all_butone : Uuid → Message → Channel → Effects
sendto_all_butone exception m ch = sendto (λ member. not (member.id == exception)) m ch.members

unfoldable pub sendto_nonagents : Message → Channel → Effects
sendto_nonagents m ch = sendto (λ member. not (is_agent member)) m ch.members

unfoldable pub sendto_agents : Message → Channel → Effects
sendto_agents m ch = sendto is_agent m ch.members

unfoldable pub sendto_all : Message → Channel → Effects
sendto_all m ch = sendto (λ member. Bool.true) m ch.members

-- `self.options.and(agent_only) as u64 != 0` with `HiddenMemberList | Invisible`.
unfoldable pub hides_members : Channel → Bool
hides_members ch = not (
    ChannelOptions.and ch.options
      (ChannelOptions.or ChannelOptions.hidden_member_list ChannelOptions.invisible)
    == 0)

-- Agents see the address, others 0.0.0.0.
unfoldable pub broadcast_join : Uuid → Text → IpAddr → Channel → Effects
broadcast_join client name ip ch =
    if hides_members ch
    then sendto_agents (new_message (MessageType.join name ip) client ch.id none) ch
    else sendto_nonagents (new_message (MessageType.join name unspecified) client ch.id none) ch
      ++ sendto_agents (new_message (MessageType.join name ip) client ch.id none) ch

-- Under `hides_members` the source builds the future of `sendto_agents` and drops it without
-- `await`: nothing is sent.
unfoldable pub broadcast_part : Uuid → Text → IpAddr → Channel → Effects
broadcast_part client name ip ch =
    if hides_members ch
    then []
    else sendto_nonagents
        (new_message (MessageType.part client ch.id unspecified) client ch.id (some name)) ch
      ++ sendto_agents (new_message (MessageType.part client ch.id ip) client ch.id (some name)) ch

-- What `add_member` sends: nothing for a client with the option `Invisible`.
unfoldable pub announce : Client → Channel → Effects
announce client ch =
    if ClientOptions.and client.options ClientOptions.invisible == 0
    then broadcast_join client.id client.name client.ip ch
      ++ Effect.send client.id (
          Frame.cmessage (
            new_message
              (MessageType.channel_modes (some (ChannelOptions.options_vec_string ch.options))) nil
              ch.id none))
        ∷ []
    else []

unfoldable pub insert_member : Client → Channel → Channel
insert_member client ch = record ch { members = insert client.id client ch.members }

-- `Channel::add_member`
unfoldable pub add_member : Client → Channel → Channel × Effects
unfolding announce insert_member
add_member client ch = (insert_member client ch, announce client ch)

-- `Channel::to_log`
unfoldable pub to_log : LogEntry → Channel → Effects
to_log entry ch = if has ChannelOptions.save_history ch then Effect.log ch.id entry ∷ [] else []

unfoldable pub count_of : (Client → Bool) → Dict Client → ℕ
count_of test [] = 0
count_of test ((id, member) ∷ members) =
    let rest = count_of test members in if test member then ℕ.suc rest else rest

unfoldable pub count_guests : Channel → ℕ
count_guests ch = count_of is_guest ch.members

unfoldable pub count_contacts : Channel → ℕ
count_contacts ch = count_of is_contact ch.members

unfoldable pub count_agents : Channel → ℕ
count_agents ch = count_of is_agent ch.members
