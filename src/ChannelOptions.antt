-- ===== src/ChannelOptions.antt =====
-- src/channel.rs: the option set of a channel, a `u64` with one bit for each option. The program
-- makes unions by `transmute` into the enum, so a value is any number.
use chatd.Base.{ℕ, ◌^◌, Bool, List, [], ◌∷◌, ◌==◌, if◌then◌else◌, map, retain}
use chatd.Bits.{bit_and, bit_or, bit_xor}
use chatd.Text.{Text, lit}
pub mod Laws

abbrev pub Options : Type 0
Options = ℕ

abbrev pub none_set : Options
none_set = 0

abbrev pub client_invites : Options
client_invites = 2 ^ 0

abbrev pub agent_only : Options
agent_only = 2 ^ 1

abbrev pub invite_only : Options
invite_only = 2 ^ 2

abbrev pub save_history : Options
save_history = 2 ^ 3

abbrev pub persist : Options
persist = 2 ^ 4

abbrev pub wait_for_agent : Options
wait_for_agent = 2 ^ 5

abbrev pub rejoin_clients : Options
rejoin_clients = 2 ^ 6

abbrev pub can_not_leave : Options
can_not_leave = 2 ^ 7

abbrev pub hidden_member_list : Options
hidden_member_list = 2 ^ 8

abbrev pub hidden_messages : Options
hidden_messages = 2 ^ 9

abbrev pub invisible : Options
invisible = 2 ^ 10

abbrev pub secret : Options
secret = 2 ^ 11

unfoldable pub or : Options → Options → Options
or a b = bit_or a b

unfoldable pub and : Options → Options → Options
and a b = bit_and a b

unfoldable pub xor : Options → Options → Options
xor a b = bit_xor a b

-- `self.options.and(chanopt) as u64 == chanopt as u64`, also `modes & option == option`.
unfoldable pub has_option : Options → Options → Bool
has_option options o = and options o == o

-- `ChannelOptions::to_string`, on the members of the enum.
unfoldable pub to_string : Options → Text
to_string o =
    if o == client_invites
    then lit "Allow Invites"
    else if o == agent_only
    then lit "Agent Only"
    else if o == invite_only
    then lit "Invite Only"
    else if o == save_history
    then lit "Save History"
    else if o == persist
    then lit "Persist Empty"
    else if o == wait_for_agent
    then lit "Wait for Agent"
    else if o == rejoin_clients
    then lit "Rejoin on Disconnect"
    else if o == can_not_leave
    then lit "May Not Leave"
    else if o == hidden_member_list
    then lit "Hidden Members"
    else if o == hidden_messages
    then lit "Hidden Messages"
    else if o == invisible
    then lit "Invisible"
    else if o == secret
    then lit "Not Listed"
    else lit ""

abbrev pub public_modes : List Options
public_modes = invite_only ∷ secret ∷ []

abbrev pub available : List Options
available =
    client_invites ∷ agent_only ∷ invite_only ∷ save_history ∷ persist ∷ wait_for_agent
    ∷ rejoin_clients ∷ can_not_leave ∷ hidden_member_list ∷ hidden_messages ∷ invisible ∷ secret
    ∷ []

-- The loop of `get_options_from_u64`.
unfoldable pub collect : ℕ → List Options → Options → Options
collect modes [] options = options
collect modes (o ∷ os) options =
    collect modes os (if has_option modes o then or options o else options)

-- `Channel::get_options_from_u64`
unfoldable pub get_options_from_u64 : ℕ → Options
get_options_from_u64 modes = collect modes available none_set

-- `Channel::options_vec_string`
unfoldable pub options_vec_string : Options → List Text
options_vec_string options = map to_string (retain (has_option options) available)
