-- ===== src/Fwdhost.antt =====
-- pkg/fwdhost/fwdhost.go: which lines of the hosts file are left over from an earlier run. The file and
-- the removal of host names are a library's; `parse_ip` is `net.ParseIP` followed by `To4`.
pub mod Stale
mod Tests
use kubefwd.Base.{
  ℕ, ◌+◌, List, [], ◌∷◌, ◌++◌, Option, none, some, Bool, true, false, ◌&&◌, ◌||◌, Text, length,
  nat_beq, ltb, leb, if◌then◌else◌,
}
use kubefwd.Fwdip.Types.{Ip}

-- `isKubefwdIP` of four bytes.
unfoldable pub is_kubefwd : Ip → Bool
is_kubefwd ip =
    nat_beq ip.octet_a 127 && (ltb 1 ip.octet_b || (nat_beq ip.octet_b 1 && leb 27 ip.octet_c))

-- A line of the hosts file: `txeh.HostFileLine`, as far as it is read.
pub data HostFileLine : Type 0 where
  address : Text → List Text → HostFileLine
  other : Text → HostFileLine

-- What `PurgeStaleIps` does with the file.
pub data Purged : Type 0 where
  untouched : Purged
  removed : List Text → Purged

module _ (parse_ip : Text → Option Ip) where
  -- `isKubefwdIP`
  unfoldable pub is_kubefwd_ip : Text → Bool
  is_kubefwd_ip text = elim (parse_ip text) [ none ↦ false | some ip ↦ is_kubefwd ip ]

  -- The loop of `CountStaleEntries`.
  unfoldable pub count_stale : ℕ → List HostFileLine → ℕ
  unfolding is_kubefwd_ip
  count_stale n [] = n
  count_stale n (other text ∷ rest) = count_stale n rest
  count_stale n (address ip names ∷ rest) =
      count_stale (if is_kubefwd_ip ip then n + length names else n) rest

  -- `CountStaleEntries`
  unfoldable pub count_stale_entries : List HostFileLine → ℕ
  unfolding count_stale
  count_stale_entries lines = count_stale 0 lines

  -- The loop of `PurgeStaleIps`.
  unfoldable pub hosts_to_remove : List Text → List HostFileLine → List Text
  unfolding is_kubefwd_ip
  hosts_to_remove hosts [] = hosts
  hosts_to_remove hosts (other text ∷ rest) = hosts_to_remove hosts rest
  hosts_to_remove hosts (address ip names ∷ rest) =
      hosts_to_remove (if is_kubefwd_ip ip then hosts ++ names else hosts) rest

  -- `PurgeStaleIps`: the number it returns, and what it has the file remove before it is saved.
  unfoldable pub purge_stale_ips : List HostFileLine → ℕ × Purged
  unfolding hosts_to_remove
  purge_stale_ips lines =
      let hosts = hosts_to_remove [] lines in
      if nat_beq (length hosts) 0 then (0, untouched) else (length hosts, removed hosts)
