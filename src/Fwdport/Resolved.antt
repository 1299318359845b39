-- ===== src/Fwdport/Resolved.antt =====
-- What the hosts file of pkg/fwdport/fwdport.go says of a forward's names once they are added, and once
-- they are removed.
use mathlib.Core.List.{append_assoc, append-nil}
use mathlib.Core.Option
use kubefwd.Base.{
  Bool, true, inl, inr, Bool-cases, if◌then◌else◌, ◌≡◌, refl, sym, ap, subst, ◌∙◌, List, [], ◌∷◌,
  ◌++◌, Option, none, some, Text, text_key, All, All-map, All-append,
}
use kubefwd.Fwdport.{
  HostsFile, HostState, not_saved, host_names, enter_host, add_names, save_hosts, add_hosts,
  remove_each, remove_hosts,
}
use kubefwd.Fwdport.Sanitized.{names_of, enter_all, add_host-ends}

-- All the names of a row of hosts.
pub all_names : List Text → List Text
all_names [] = []
all_names (host ∷ rest) = names_of host ++ all_names rest

module _ {File : Type 0} (hf : HostsFile File) where
  enter_all-append :
      (xs ys : List Text) (s : HostState File)
      → enter_all hf (xs ++ ys) s ≡ enter_all hf ys (enter_all hf xs s)
  unfolding enter_all
  enter_all-append [] ys s = refl
  enter_all-append (x ∷ xs) ys s = enter_all-append xs ys (enter_host hf x s)

  add_names-enter_all :
      (names : List Text) (s : HostState File)
      → add_names hf names s ≡ some (enter_all hf (all_names names) s)
  unfolding add_names all_names enter_all Option.bind
  add_names-enter_all [] s = refl
  add_names-enter_all (host ∷ rest) s =
      ap (λ (o : Option (HostState File)). Option.bind o (add_names hf rest))
        (add_host-ends hf 0 host s)
      ∙ add_names-enter_all rest (enter_all hf (names_of host) s)
      ∙ ap some (sym (enter_all-append (names_of host) (all_names rest) s))

  -- What the hosts say of a name for the forward's address: nothing where it does not parse.
  unfoldable pub shown : Text → Option Text
  shown ip = if hf.parses ip then some ip else none

  -- All names of the forward are its address's.
  IsResolved : HostState File → Type 0
  IsResolved s = All (λ h. hf.address_of h s.file ≡ shown s.forward.local_ip) s.forward.hosts

  entered-shown :
      (ip host : Text) (f : File)
      → hf.address_of host (hf.add_address ip host (hf.remove_host host f)) ≡ shown ip
  unfolding shown
  entered-shown ip host f = elim (Bool-cases (hf.parses ip)) [
    | inl e ↦ rw (e, shown) (hf.address_of-add ip host f e)
    | inr e ↦
        rw (e, shown, hf.add_address-ignored ip host (hf.remove_host host f) e)
          (hf.address_of-remove host f)
  ]

  kept-shown :
      (ip h k : Text) (f : File)
      → hf.address_of h f ≡ shown ip
      → hf.address_of h (hf.add_address ip k (hf.remove_host k f)) ≡ shown ip
  unfolding shown
  kept-shown ip h k f was = elim (Bool-cases (hf.parses ip)) [
    | inl e ↦ rw (e, shown) (hf.address_of-add_kept ip h k f e (rw (e, shown) at was))
    | inr e ↦
        rw (e, shown, hf.add_address-ignored ip k (hf.remove_host k f) e)
          (hf.address_of-remove_kept h k f (rw (e, shown) at was))
  ]

  enter_host-IsResolved :
      (host : Text) (s : HostState File) → IsResolved s → IsResolved (enter_host hf host s)
  unfolding IsResolved enter_host
  enter_host-IsResolved host s all =
      All-append (λ h. hf.address_of h (enter_host hf host s).file ≡ shown s.forward.local_ip)
        s.forward.hosts (host ∷ [])
        (All-map s.forward.hosts (λ h e. kept-shown s.forward.local_ip h host s.file e) all)
        (entered-shown s.forward.local_ip host s.file, tt)

  -- What entering a row of names changes.
  record Entered (names : List Text) (s s' : HostState File) : Type 0 where
    resolved : IsResolved s'
    listed : s'.forward.hosts ≡ s.forward.hosts ++ names
    known : s'.registered ≡ s.registered ++ names
    same_ip : s'.forward.local_ip ≡ s.forward.local_ip

  enter_all-Entered :
      (names : List Text) (s : HostState File)
      → IsResolved s
      → Entered names s (enter_all hf names s)
  unfolding enter_all enter_host
  enter_all-Entered [] s all = record {
    resolved = all;
    listed = sym (append-nil s.forward.hosts);
    known = sym (append-nil s.registered);
    same_ip = refl;
  }
  enter_all-Entered (host ∷ rest) s all =
      let w = enter_all-Entered rest (enter_host hf host s) (enter_host-IsResolved host s all) in
      record {
        resolved = w.resolved;
        listed = w.listed ∙ append_assoc s.forward.hosts (host ∷ []) rest;
        known = w.known ∙ append_assoc s.registered (host ∷ []) rest;
        same_ip = w.same_ip;
      }

  remove_each-kept :
      (hosts : List Text) (h : Text) (f : File)
      → hf.address_of h f ≡ none
      → hf.address_of h (remove_each hf hosts f) ≡ none
  unfolding remove_each
  remove_each-kept [] h f e = e
  remove_each-kept (k ∷ rest) h f e =
      remove_each-kept rest h (hf.remove_host k f) (hf.address_of-remove_kept h k f e)

  remove_each-none :
      (hosts : List Text) (f : File)
      → All (λ h. hf.address_of h (remove_each hf hosts f) ≡ none) hosts
  unfolding remove_each
  remove_each-none [] f = tt
  remove_each-none (h ∷ rest) f = (
    remove_each-kept rest h (hf.remove_host h f) (hf.address_of-remove h f),
    remove_each-none rest (hf.remove_host h f),
  )

  -- What is read back from a disk on which hosts have been saved.
  All-read_back :
      (hosts : List Text) (m r : File) (o : Option Text)
      → ((h : Text) → hf.address_of h r ≡ hf.address_of h m)
      → All (λ h. hf.address_of h m ≡ o) hosts
      → All (λ h. hf.address_of h r ≡ o) hosts
  All-read_back hosts m r o back all = All-map hosts (λ h e. back h ∙ e) all

  module _ {Disk : Type 0} (reload : Disk → Option File) (save : File → Disk → Bool × Disk) where
    -- A saved file that is read again says of every name what the hosts said that were saved.
    abbrev pub IsReadBack : Type 0
    IsReadBack =
        (m r : File) (d : Disk)
        → (save m d).0 ≡ true
        → reload (save m d).1 ≡ some r
        → (h : Text) → hf.address_of h r ≡ hf.address_of h m

    -- All the names have this address in the hosts, and, where the save succeeds, in whatever is read
    -- from the disk that it leaves.
    pub record Says (hosts : List Text) (o : Option Text) (m : File) (d : Disk) : Type 0 where
      pub in_memory : All (λ h. hf.address_of h m ≡ o) hosts
      pub on_disk :
          (r : File)
          → (save m d).0 ≡ true
          → reload (save m d).1 ≡ some r
          → All (λ h. hf.address_of h r ≡ o) hosts

    saved-Says :
        (hosts : List Text) (o : Option Text) (m : File) (d : Disk)
        → IsReadBack
        → All (λ h. hf.address_of h m ≡ o) hosts
        → Says hosts o m d
    saved-Says hosts o m d back all = record {
      in_memory = all;
      on_disk = λ r ok e. All-read_back hosts m r o (back m r d ok e) all;
    }

    -- Where the hosts file can be read, `AddHosts` of a new forward ends, with an error if and only if
    -- the save fails. It has listed and registered all the forward's names, each followed by what it is
    -- sanitized to where that is another name, and every one of them has the forward's address in the
    -- hosts in memory, or no address where the forward's does not parse; a save that succeeds leaves the
    -- same on the disk. After a later `removeHosts` that can read the file, whatever it finds there,
    -- none of the names has an address in memory, nor on the disk where that save succeeds.
    pub remove_hosts-add_hosts :
        (s : HostState File) (f g : File) (disk found : Disk)
        → IsReadBack
        → s.forward.hosts ≡ []
        → reload disk ≡ some f
        → reload found ≡ some g
        → (s' : HostState File) × (add_hosts hf reload save disk s
            ≡ some
                (if (save s'.file disk).0 then none else some not_saved, s', (save s'.file disk).1))
          × (s'.forward.hosts ≡ all_names (host_names s.forward))
          × (s'.registered ≡ s.registered ++ all_names (host_names s.forward))
          × Says s'.forward.hosts (shown s.forward.local_ip) s'.file disk
          × (let (s'', left) = remove_hosts hf reload save found s' in
              (left ≡ (save s''.file found).1) × Says s'.forward.hosts none s''.file found)
    unfolding add_hosts save_hosts remove_hosts IsResolved
    remove_hosts-add_hosts s f g disk found back new e d =
        let names = all_names (host_names s.forward) in
        let start : HostState File = record s { file = f } in
        let s' = enter_all hf names start in
        let w = enter_all-Entered names start (rw new tt) in
        (
          s',
          rw (e, add_hosts, add_names-enter_all (host_names s.forward) start) refl,
          w.listed ∙ ap (λ (l : List Text). l ++ names) new,
          w.known,
          saved-Says s'.forward.hosts (shown s.forward.local_ip) s'.file disk back (
              subst (λ (ip : Text). All (λ h. hf.address_of h s'.file ≡ shown ip) s'.forward.hosts)
                w.same_ip w.resolved),
          rw (d, remove_hosts)
              (
                refl,
                saved-Says s'.forward.hosts none (remove_each hf s'.forward.hosts g) found back
                    (remove_each-none s'.forward.hosts g),
              ),
        )
