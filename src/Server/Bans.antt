-- ===== src/Server/Bans.antt =====
-- src/server.rs: `add_ban` and `remove_ban`, against `ban_exists`.
use chatd.Base.{ℕ, true, false, ◌≡◌, refl, List, [], ◌∷◌, ◌++◌, not, arith, retain, ok}
use chatd.Text.{Text}
use chatd.Message.{IpAddr, ip_eq, ip_eq_iff}
use chatd.Ban.{Ban, exists}
use chatd.Ban
use chatd.Server.{Server, ban_exists, add_ban, remove_ban}

-- The bans that are left once an address that is not banned is taken out: all of them.
retain_missing :
    (ip : IpAddr) (bans : List Ban)
    → exists bans ip ≡ false
    → retain (λ (ban : Ban). not (ip_eq ban.ip ip)) bans ≡ bans
unfolding exists
retain_missing ip [] h = refl
retain_missing ip (b ∷ bans) h = ground (arith, retain_missing ip bans)

retain_added :
    (ip : IpAddr) (bans : List Ban) (b : Ban)
    → exists bans ip ≡ false
    → b.ip ≡ ip
    → retain (λ (ban : Ban). not (ip_eq ban.ip ip)) (bans ++ b ∷ []) ≡ bans
unfolding exists
retain_added ip [] b h g = ground (arith, ip_eq_iff b.ip ip)
retain_added ip (c ∷ bans) b h g = ground (arith, retain_added ip bans b)

pub exists_added :
    (ip : IpAddr) (bans : List Ban) (b : Ban) → b.ip ≡ ip → exists (bans ++ b ∷ []) ip ≡ true
unfolding exists
exists_added ip [] b g = ground (arith, ip_eq_iff b.ip ip)
exists_added ip (c ∷ bans) b g = ground (arith, exists_added ip bans b g)

pub exists_kept :
    (ip : IpAddr) (bans : List Ban) (b : Ban)
    → exists bans ip ≡ true
    → exists (bans ++ b ∷ []) ip ≡ true
unfolding exists
exists_kept ip [] b h = absurd (cc h)
exists_kept ip (c ∷ bans) b h = ground (arith, exists_kept ip bans b)

-- On an address that is not banned `add_ban` succeeds, the address is banned after it, and
-- `remove_ban` then succeeds and gives back the server as it was.
pub remove_ban-add_ban :
    (now : ℕ) (ip : IpAddr) (reason : Text) (expires : ℕ) (added_by : Text) (s : Server)
    → ban_exists ip s ≡ false
    → (s' : Server) × (add_ban now ip reason expires added_by s ≡ ok s')
      × (ban_exists ip s' ≡ true)
      × (remove_ban ip s' ≡ ok s)
unfolding ban_exists add_ban remove_ban Ban.new Ban.default
remove_ban-add_ban now ip reason expires added_by s h =
    let b = Ban.new now ip reason expires added_by in
    let there : exists (s.bans ++ b ∷ []) ip ≡ true = exists_added ip s.bans b refl in
    let back = retain_added ip s.bans b h refl in
    (record s { bans = s.bans ++ b ∷ [] }, rw h refl, there, rw (there, back) refl)
