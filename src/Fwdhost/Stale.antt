-- ===== src/Fwdhost/Stale.antt =====
-- pkg/fwdhost/fwdhost.go against the addresses that pkg/fwdip/fwdIp.go hands out.
use kubefwd.Base.{
  ℕ, ◌+◌, ◌-◌, ◌%◌, ◌<◌, ◌≤◌, ◌≡◌, refl, sym, ap, ◌∙◌, List, [], ◌∷◌, ◌++◌, Option, some, ◌&&◌,
  ◌||◌, Text, length, length-append, nat_beq, ltb, leb, ◌⊎◌, inl, inr, Bool-cases, arith,
}
use native.Mathlib.Nat.{mod-eq_of_lt, mod-eq-sub-mod}
use kubefwd.Fwdip.Types.{Ip, ForwardIpOpts}
use kubefwd.Fwdip.Octets.{ip_string}
use kubefwd.Fwdip.Allocation.{nth_ip}
use kubefwd.Fwdhost.{
  HostFileLine, address, other, untouched, removed, is_kubefwd, is_kubefwd_ip, count_stale,
  count_stale_entries, hosts_to_remove, purge_stale_ips,
}

-- The default base, 127.1.27.1.
abbrev pub base : Ip
base = record { octet_a = 127; octet_b = 1; octet_c = 27; octet_d = 1 }

add_byte-below : (start n : ℕ) → start + n < 256 → (start + n % 256) % 256 ≡ start + n
add_byte-below start n h =
    ap (λ (k : ℕ). (start + k) % 256) (mod-eq_of_lt {n = n} {m = 256} (omega arith))
    ∙ mod-eq_of_lt {n = start + n} {m = 256} h

-- It goes past 255 and starts again at 0.
add_byte-above :
    (start n : ℕ)
    → start ≤ 255
    → n ≤ 255
    → 256 ≤ start + n
    → (start + n % 256) % 256 ≡ start + n - 256
add_byte-above start n s h k =
    ap (λ (k : ℕ). (start + k) % 256) (mod-eq_of_lt {n = n} {m = 256} (omega arith))
    ∙ mod-eq-sub-mod {n = start + n} {m = 256} k
    ∙ mod-eq_of_lt {n = start + n - 256} {m = 256} (omega arith)

module _ (parse_ip : Text → Option Ip) where
  -- An address that is handed out from the default base 127.1.27.1, for a context and a namespace whose
  -- indices are within the bounds of 255 that the allocation checks, is recognised in the hosts file
  -- exactly when the context is the first and the namespace is at most number 228 (counted from 0), or
  -- the context is number 1 to 254, provided that the parser reads the address as it is printed.
  pub is_kubefwd_ip-nth_ip :
      (o : ForwardIpOpts) (k : ℕ)
      → o.cluster_n ≤ 255
      → o.namespace_n ≤ 255
      → parse_ip (ip_string (nth_ip base o k)) ≡ some (nth_ip base o k)
      → is_kubefwd_ip parse_ip (ip_string (nth_ip base o k)) ≡ (
          (nat_beq o.cluster_n 0 && leb o.namespace_n 228)
          || (ltb 0 o.cluster_n && leb o.cluster_n 254))
  unfolding is_kubefwd_ip is_kubefwd nth_ip
  is_kubefwd_ip-nth_ip o k c n e =
      let e' : parse_ip (ip_string (nth_ip base o k)) ≡ some (nth_ip base o k) = e in
      rw (e', is_kubefwd_ip)
        (ground (
          arith,
          add_byte-below 1 o.cluster_n,
          add_byte-above 1 o.cluster_n,
          add_byte-below 27 o.namespace_n,
          add_byte-above 27 o.namespace_n,
          c,
          n,
        ))

  count_stale-hosts_to_remove :
      (lines : List HostFileLine) (hosts : List Text)
      → count_stale parse_ip (length hosts) lines ≡ length (hosts_to_remove parse_ip hosts lines)
  unfolding count_stale hosts_to_remove
  count_stale-hosts_to_remove [] hosts = refl
  count_stale-hosts_to_remove (other text ∷ rest) hosts = count_stale-hosts_to_remove rest hosts
  count_stale-hosts_to_remove (address ip names ∷ rest) hosts =
      elim (Bool-cases (is_kubefwd_ip parse_ip ip)) [
        | inl stale ↦ rw stale (
            ap (λ (n : ℕ). count_stale parse_ip n rest) (sym (length-append hosts names))
            ∙ count_stale-hosts_to_remove rest (hosts ++ names))
        | inr fresh_line ↦ rw fresh_line (count_stale-hosts_to_remove rest hosts)
      ]

  -- The number of entries that is announced for a hosts file is the number that a purge of it returns,
  -- and is the length of what the purge has removed; a file without any is left alone.
  pub purge_stale_ips-count_stale_entries :
      (lines : List HostFileLine)
      → ((purge_stale_ips parse_ip lines ≡ (0, untouched))
          × (count_stale_entries parse_ip lines ≡ 0))
        ⊎ ((hosts : List Text) × (purge_stale_ips parse_ip lines
              ≡ (count_stale_entries parse_ip lines, removed hosts))
            × (length hosts ≡ count_stale_entries parse_ip lines)
            × (0 < length hosts))
  unfolding purge_stale_ips count_stale_entries
  purge_stale_ips-count_stale_entries lines =
      let hosts = hosts_to_remove parse_ip [] lines in
      let e : count_stale parse_ip 0 lines ≡ length hosts = count_stale-hosts_to_remove lines [] in
      elim (Bool-cases (nat_beq (length hosts) 0)) [
        | inl none_found ↦ inl (rw none_found refl, ground (arith, e, none_found))
        | inr found ↦ inr (hosts, rw (found, e) refl, sym e, ground (arith, found))
      ]
