-- ===== src/Fwdport/Tests.antt =====
-- Host names on small inputs, in a hosts file that is a map from names to addresses.
use mathlib.Core.Option.{some-injective}
use kubefwd.Base.{
  Bool, true, false, nat_beq, not, ◌==◌, ap, sym, if◌then◌else◌, ℕ, ◌∷◌, ◌++◌, ◌≡◌, refl, [], none,
  some, Text, text_key, text_beq_iff, Dict, lookup, insert, erase, lookup-insert, lookup-erase,
  ascii, arith,
}
use kubefwd.Fwdport.{
  PortForwardOpts, HostsFile, HostState, sanitize_host, host_names, add_host, add_hosts,
  remove_hosts,
}
use kubefwd.Fwdport.Sanitized.{names_of, enter_all, add_host-ends}
use kubefwd.Fwdport.Resolved.{all_names, shown, Says, IsReadBack, remove_hosts-add_hosts}
use kubefwd.Fwdport.Informer.{PodInformer, cells, move_pods, add_pod, delete_pod}
use kubefwd.Fwdport.Informer.Deleted.{Forwards, first_removed, delete_pod-first_removed}

-- The address of a forward that has none is the only one that does not parse.
is_address : Text → Bool
is_address a = not (a == ascii "<nil>")

add_parsed : Text → Text → Dict Text Text → Dict Text Text
add_parsed a h f = if is_address a then insert h a f else f

-- The map does what is relied on.
lookup-add_own :
    (a h : Text) (f : Dict Text Text)
    → is_address a ≡ true
    → lookup h (add_parsed a h (erase h f)) ≡ some a
unfolding add_parsed
lookup-add_own a h f e = ground (arith, e, lookup-insert h h a (erase h f), text_beq_iff h h)

lookup-add_kept :
    (a h k : Text) (f : Dict Text Text)
    → is_address a ≡ true
    → lookup h f ≡ some a
    → lookup h (add_parsed a k (erase k f)) ≡ some a
unfolding add_parsed
lookup-add_kept a h k f parsed e =
    ground (arith, parsed, lookup-insert k h a (erase k f), lookup-erase k h f, e)

add_parsed-ignored : (a h : Text) (f : Dict Text Text) → is_address a ≡ false → add_parsed a h f ≡ f
unfolding add_parsed
add_parsed-ignored a h f e = rw e refl

lookup-erase_own : (h : Text) (f : Dict Text Text) → lookup h (erase h f) ≡ none
lookup-erase_own h f = ground (arith, lookup-erase h h f, text_beq_iff h h)

lookup-erase_kept :
    (h k : Text) (f : Dict Text Text) → lookup h f ≡ none → lookup h (erase k f) ≡ none
lookup-erase_kept h k f e = ground (arith, lookup-erase k h f, e)

abbrev map_file : HostsFile (Dict Text Text)
map_file = record {
  parses = is_address;
  remove_host = erase;
  add_address = add_parsed;
  address_of = lookup;
  address_of-add = lookup-add_own;
  address_of-add_kept = lookup-add_kept;
  add_address-ignored = add_parsed-ignored;
  address_of-remove = lookup-erase_own;
  address_of-remove_kept = lookup-erase_kept;
}

-- A disk that holds a map and is always written.
abbrev write : Dict Text Text → Dict Text Text → Bool × Dict Text Text
write m d = (true, m)

write-IsReadBack : IsReadBack map_file some write
write-IsReadBack m r d ok e h = ap (lookup h) (sym (some-injective m r e))

abbrev web_forward : PortForwardOpts
web_forward = record {
  service = ascii "web";
  namespace = ascii "a";
  context = ascii "ctx";
  cluster_n = 0;
  namespace_n = 1;
  domain = [];
  local_ip = ascii "127.1.28.1";
  hosts = [];
}

abbrev no_hosts : HostState (Dict Text Text)
no_hosts = record { forward = web_forward; registered = []; file = [] }

add_host-ends_example :
    add_host map_file 2 (ascii "web.a") no_hosts
    ≡ some (enter_all map_file (names_of (ascii "web.a")) no_hosts)
add_host-ends_example = add_host-ends map_file 0 (ascii "web.a") no_hosts

-- The file as another program has left it.
abbrev found_later : Dict Text Text
found_later = (ascii "web.a", ascii "127.1.28.1") ∷ (ascii "other", ascii "10.0.0.1") ∷ []

remove_hosts-add_hosts_example :
    (s' : HostState (Dict Text Text)) × (add_hosts map_file some write [] no_hosts
      ≡ some (none, s', s'.file))
    × (s'.forward.hosts ≡ all_names (host_names web_forward))
    × (s'.registered ≡ [] ++ all_names (host_names web_forward))
    × Says map_file some write s'.forward.hosts (shown map_file (ascii "127.1.28.1")) s'.file []
    × (let (s'', left) = remove_hosts map_file some write found_later s' in
        (left ≡ s''.file) × Says map_file some write s'.forward.hosts none s''.file found_later)
remove_hosts-add_hosts_example =
    remove_hosts-add_hosts map_file some write no_hosts [] found_later [] found_later
      write-IsReadBack refl refl refl

-- The forward that has no address is listed in no entry.
no_address : shown map_file (ascii "<nil>") ≡ none
unfolding shown is_address
no_address = refl

-- The name of service `web` in namespace `a` and the bare name of a service `web-a` meet.
shared_host : sanitize_host (ascii "web.a") ≡ ascii "web-a"
unfolding sanitize_host
shared_host = refl

abbrev pod_uid : Text
pod_uid = ascii "uid"

-- Go makes room for four where three are asked for.
abbrev grown : ℕ → ℕ
grown n = if nat_beq n 3 then 1 else 0

abbrev no_pods : PodInformer
no_pods = record { active_pods = []; arrays = [] }

abbrev three_forwards : PodInformer
three_forwards = add_pod grown pod_uid 3 (add_pod grown pod_uid 2 (add_pod grown pod_uid 1 no_pods))

-- The first forward is one of another service than the others.
abbrev two_services : ℕ → Text
two_services pfo = if nat_beq pfo 1 then ascii "web.ns.ctx" else ascii "all.ns.ctx"

three_forwards-Forwards : Forwards pod_uid 2 (1 ∷ 2 ∷ 3 ∷ []) (0 ∷ []) three_forwards
unfolding add_pod move_pods lookup insert cells
three_forwards-Forwards = record { named = refl; listed = refl; held = refl; within = omega arith }

delete_pod-first_removed_example :
    (delete_pod two_services (first_removed 1) pod_uid three_forwards).1.stopped ≡ 1 ∷ 3 ∷ 3 ∷ []
delete_pod-first_removed_example =
    delete_pod-first_removed two_services pod_uid 2 1 2 (3 ∷ []) (0 ∷ []) three_forwards
      three_forwards-Forwards
