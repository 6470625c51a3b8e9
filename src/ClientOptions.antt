-- ===== src/ClientOptions.antt =====
-- src/client.rs: the option set of a client, a `u64` like that of a channel.
use chatd.Base.{ℕ, ◌^◌}
use chatd.Bits.{bit_and, bit_or}

abbrev pub Options : Type 0
Options = ℕ

abbrev pub none_set : Options
none_set = 0

abbrev pub admin : Options
admin = 2 ^ 1

abbrev pub join_channels : Options
join_channels = 2 ^ 2

abbrev pub part_channels : Options
part_channels = 2 ^ 3

abbrev pub create_channels : Options
create_channels = 2 ^ 4

abbrev pub can_invite : Options
can_invite = 2 ^ 5

abbrev pub files_allowed : Options
files_allowed = 2 ^ 6

abbrev pub invisible : Options
invisible = 2 ^ 7

unfoldable pub or : Options → Options → Options
or a b = bit_or a b

unfoldable pub and : Options → Options → Options
and a b = bit_and a b
