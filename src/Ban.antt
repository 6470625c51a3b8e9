-- ===== src/Ban.antt =====
-- src/ban.rs: the entries of the ban list.
use chatd.Base.{ℕ, ◌+◌, Bool, ◌||◌, false, List, [], ◌∷◌, Option, none, some, unwrap_or}
use chatd.Text.{Bytes, Text, lit}
use chatd.Message.{IpAddr, ip_eq, unspecified}
use chatd.Effect.{Effect}

pub record Ban : Type 0 where
  pub ip : IpAddr
  pub reason : Text
  pub added_by : Text
  pub added_on : ℕ
  pub expires : ℕ

-- `Ban::default`, for a clock to which 3600 seconds can be added.
unfoldable pub default : ℕ → Ban
default now = record {
  ip = unspecified;
  reason = lit "No reason was provided";
  added_by = lit "Server";
  added_on = now;
  expires = now + 3600;
}

-- `Ban::new`
unfoldable pub new : ℕ → IpAddr → Text → ℕ → Text → Ban
unfolding default
new now ip reason expires added_by = record (default now) {
  ip = ip;
  reason = reason;
  expires = expires;
  added_by = added_by;
}

-- `Ban::exists`
unfoldable pub exists : List Ban → IpAddr → Bool
exists [] ip = false
exists (ban ∷ bans) ip = ip_eq ban.ip ip || exists bans ip

-- `Ban::save_to_disk`, with the result that all callers drop.
unfoldable pub save_to_disk : Text → List Ban → List (Effect Ban)
save_to_disk file [] = []
save_to_disk file (ban ∷ bans) = Effect.save file (ban ∷ bans) ∷ []

-- `Ban::load_bans`: `file` is what reading gives, `none` where it fails, `created` whether an empty
-- file could then be written, and `parsed` what serde makes of the contents.
unfoldable pub load_bans : Option Bytes → Bool → (Bytes → Option (List Ban)) → Option (List Ban)
load_bans none Bool.true parsed = some []
load_bans none Bool.false parsed = none
load_bans (some []) created parsed = some []
load_bans (some (c ∷ cs)) created parsed = some (unwrap_or (parsed (c ∷ cs)) [])
