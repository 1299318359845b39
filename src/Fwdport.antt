-- ===== src/Fwdport.antt =====
-- pkg/fwdport/fwdport.go: the host names of a forward in the hosts file. The file is a library's
-- (txeh), behind the interface `HostsFile`; reading it from the disk and saving it there are
-- parameters, after the ten attempts of each. Texts are taken byte by byte, so the names are ASCII.
pub mod Sanitized
pub mod Resolved
pub mod Informer
mod Tests
use kubefwd.Base.{
  ℕ, zero, suc, List, [], ◌∷◌, ◌++◌, map, Option, none, some, ◌≡◌, Bool, true, false, ◌&&◌, ◌||◌,
  Text, text_key, ◌==◌, ascii, is_blank, leb, ltb, nat_beq, if◌then◌else◌,
}
use mathlib.Core.Option

-- `[^a-zA-Z0-9\-]` and what takes its place.
unfoldable pub is_legal : ℕ → Bool
is_legal c =
    (leb b'a' c && leb c b'z')
    || (leb b'A' c && leb c b'Z')
    || (leb b'0' c && leb c b'9')
    || nat_beq c b'-'

unfoldable pub replaced : ℕ → ℕ
unfolding is_legal
replaced c = if is_legal c then c else b'-'

-- `strings.Trim(s, "-")`, from the left and from the right.
unfoldable pub trim_left : Text → Text
trim_left [] = []
trim_left (c ∷ s) = let rest = trim_left s in if nat_beq c b'-' then rest else c ∷ s

unfoldable pub before_trimmed : ℕ → Text → Text
before_trimmed c [] = if nat_beq c b'-' then [] else c ∷ []
before_trimmed c (d ∷ s) = c ∷ d ∷ s

unfoldable pub trim_right : Text → Text
unfolding before_trimmed
trim_right [] = []
trim_right (c ∷ s) = before_trimmed c (trim_right s)

-- `sanitizeHost`
unfoldable pub sanitize_host : Text → Text
unfolding replaced trim_left trim_right
sanitize_host host = trim_right (trim_left (map replaced host))

-- `PortForwardOpts`, as far as host names need it; `local_ip` is the printed address.
pub record PortForwardOpts : Type 0 where
  pub service : Text
  pub namespace : Text
  pub context : Text
  pub cluster_n : ℕ
  pub namespace_n : ℕ
  pub domain : Text
  pub local_ip : Text
  pub hosts : List Text

abbrev pub dotted : Text → Text → Text
dotted left right = left ++ b'.' ∷ right

-- The names that `AddHosts` passes to `addHost`, in its order.
unfoldable pub host_names : PortForwardOpts → List Text
host_names p =
    let in_namespace = dotted p.service p.namespace in
    let bare =
      if is_blank p.domain then p.service ∷ [] else p.service ∷ dotted p.service p.domain ∷ [] in
    let domain_name =
      if is_blank p.domain
      then []
      else dotted in_namespace (dotted (ascii "svc.cluster") p.domain) ∷ [] in
    (if nat_beq p.cluster_n 0 && nat_beq p.namespace_n 0 then bare else [])
    ++ (if ltb 0 p.cluster_n && nat_beq p.namespace_n 0
        then dotted p.service p.context ∷ []
        else [])
    ++ (if nat_beq p.cluster_n 0
        then in_namespace
          ∷ dotted in_namespace (ascii "svc")
          ∷ dotted in_namespace (ascii "svc.cluster.local")
          ∷ domain_name
        else [])
    ++ dotted in_namespace p.context
      ∷ dotted in_namespace (dotted (ascii "svc") p.context)
      ∷ dotted in_namespace (dotted (ascii "svc.cluster") p.context)
      ∷ []

-- What the code asks of the hosts in memory, and what it relies on. An address that does not parse,
-- such as the `<nil>` of a forward that has none, is ignored.
pub record HostsFile (File : Type 0) : Type 1 where
  pub parses : Text → Bool
  pub remove_host : Text → File → File
  pub add_address : Text → Text → File → File
  pub address_of : Text → File → Option Text
  pub address_of-add :
      (a h : Text) (f : File)
      → parses a ≡ true
      → address_of h (add_address a h (remove_host h f)) ≡ some a
  -- Another name for an address leaves the names that it has.
  pub address_of-add_kept :
      (a h k : Text) (f : File)
      → parses a ≡ true
      → address_of h f ≡ some a
      → address_of h (add_address a k (remove_host k f)) ≡ some a
  pub add_address-ignored : (a h : Text) (f : File) → parses a ≡ false → add_address a h f ≡ f
  pub address_of-remove : (h : Text) (f : File) → address_of h (remove_host h f) ≡ none
  pub address_of-remove_kept :
      (h k : Text) (f : File) → address_of h f ≡ none → address_of h (remove_host k f) ≡ none

-- The errors of `AddHosts`.
pub data HostsError : Type 0 where
  not_reloaded : HostsError
  not_saved : HostsError

-- The forward, the names that fwdip has registered, and the hosts in memory.
pub record HostState (File : Type 0) : Type 0 where
  pub forward : PortForwardOpts
  pub registered : List Text
  pub file : File

module _ {File : Type 0} (hf : HostsFile File) where
  -- `addHost` up to its look at the sanitized name.
  unfoldable pub enter_host : Text → HostState File → HostState File
  enter_host host s = record {
    forward = record s.forward { hosts = s.forward.hosts ++ host ∷ [] };
    registered = s.registered ++ host ∷ [];
    file = hf.add_address s.forward.local_ip host (hf.remove_host host s.file);
  }

  -- `addHost`; each call takes fuel, and `none` is the end of the fuel.
  unfoldable pub add_host : ℕ → Text → HostState File → Option (HostState File)
  unfolding enter_host
  add_host zero host s = none
  add_host (suc fuel) host s =
      let sanitized = sanitize_host host in
      let entered = enter_host host s in
      let rest = add_host fuel sanitized entered in if host == sanitized then some entered else rest

  unfoldable pub add_names : List Text → HostState File → Option (HostState File)
  unfolding add_host
  add_names [] s = some s
  add_names (host ∷ rest) s = Option.bind (add_host 2 host s) (add_names rest)

  -- The loop of `removeHosts`.
  unfoldable pub remove_each : List Text → File → File
  remove_each [] f = f
  remove_each (host ∷ rest) f = remove_each rest (hf.remove_host host f)

  -- `Reload` is what is read from the disk, and `Save` whether it has succeeded and what is on the
  -- disk then.
  module _ {Disk : Type 0} (reload : Disk → Option File) (save : File → Disk → Bool × Disk) where
    -- The end of `AddHosts`.
    unfoldable pub save_hosts : Disk → HostState File → Option HostsError × HostState File × Disk
    save_hosts disk s =
        let (saved, left) = save s.file disk in (if saved then none else some not_saved, s, left)

    -- `AddHosts`: the error that it returns, the state and the disk; `none` is the end of the fuel.
    unfoldable pub add_hosts :
        Disk → HostState File → Option (Option HostsError × HostState File × Disk)
    unfolding add_names save_hosts
    add_hosts disk s = elim (reload disk) [
      | none ↦ some (some not_reloaded, s, disk)
      | some f ↦
          Option.map (save_hosts disk) (add_names (host_names s.forward) (record s { file = f }))
    ]

    -- `removeHosts`, which only logs its errors.
    unfoldable pub remove_hosts : Disk → HostState File → HostState File × Disk
    unfolding remove_each
    remove_hosts disk s = elim (reload disk) [
      | none ↦ (s, disk)
      | some f ↦
          let left = remove_each s.forward.hosts f in (record s { file = left }, (save left disk).1)
    ]
