-- ===== src/Fwdhost/Tests.antt =====
-- Lines of a hosts file on small inputs, read by the parser of the allocation.
use kubefwd.Base.{
  ◌<◌, ◌≡◌, ◌⊎◌, refl, List, [], ◌∷◌, Option, none, some, ◌&&◌, ◌||◌, Text, ascii, length, nat_beq,
  ltb, leb, split, itoa, atoi, arith,
}
use kubefwd.Fwdip.Types.{Ip, ForwardIpOpts}
use kubefwd.Fwdip.Octets.{ip_string, ip_from_string, ok, err}
use kubefwd.Fwdip.Allocation.{nth_ip}
use kubefwd.Fwdhost.{
  HostFileLine, address, other, untouched, removed, is_kubefwd_ip, count_stale_entries,
  purge_stale_ips,
}
use kubefwd.Fwdhost.Stale.{base, is_kubefwd_ip-nth_ip, purge_stale_ips-count_stale_entries}

abbrev parse : Text → Option Ip
parse text = elim (ip_from_string text) [ ok ip ↦ some ip | err e ↦ none ]

abbrev namespace_229 : ForwardIpOpts
namespace_229 = record {
  service_name = ascii "web";
  pod_name = ascii "web-0";
  cluster = ascii "ctx";
  cluster_n = 0;
  namespace_n = 229;
  namespace = ascii "ns";
  port = ascii "80";
  forward_configuration_path = [];
  forward_ip_reservations = [];
}

parse-nth_ip : parse (ip_string (nth_ip base namespace_229 0)) ≡ some (nth_ip base namespace_229 0)
unfolding ip_from_string ip_string nth_ip split itoa atoi
parse-nth_ip = refl

is_kubefwd_ip-nth_ip_example :
    is_kubefwd_ip parse (ip_string (nth_ip base namespace_229 0))
    ≡ ((nat_beq 0 0 && leb 229 228) || (ltb 0 0 && leb 0 254))
is_kubefwd_ip-nth_ip_example =
    is_kubefwd_ip-nth_ip parse namespace_229 0 (omega arith) (omega arith) parse-nth_ip

abbrev three_lines : List HostFileLine
three_lines =
    other (ascii "# hosts")
    ∷ address (ascii "127.1.27.4") (ascii "web" ∷ ascii "web.ns" ∷ [])
    ∷ address (ascii "127.0.0.1") (ascii "localhost" ∷ [])
    ∷ []

purge_stale_ips-count_stale_entries_example :
    ((purge_stale_ips parse three_lines ≡ (0, untouched))
      × (count_stale_entries parse three_lines ≡ 0))
    ⊎ ((hosts : List Text) × (purge_stale_ips parse three_lines
          ≡ (count_stale_entries parse three_lines, removed hosts))
        × (length hosts ≡ count_stale_entries parse three_lines)
        × (0 < length hosts))
purge_stale_ips-count_stale_entries_example = purge_stale_ips-count_stale_entries parse three_lines
