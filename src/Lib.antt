-- ===== src/Lib.antt =====
-- A model of kubefwd, which forwards the pods behind Kubernetes services to local loopback
-- addresses, with theorems about the parts that carry its logic.
--
-- Parts and files. Paths are from the repository's root.
--   Base: numbers, lists, texts as lists of codes, dictionaries as association lists in which a write
--     keeps the place of a key, and what the code uses of strconv and strings.
--   Fwdip: pkg/fwdip/fwdIp.go, the allocation of loopback addresses. Octets has the parsing and
--     printing of addresses, Matching the names a reservation goes by, Config the configuration and
--     its validation, Allocation `GetIP` and `determineIP` over the registry. The registry's inc, reg,
--     allocated and hostnames are the fields of `Registry`; the two package variables that keep a
--     configuration are `Configurations`. Reading the file is a parameter.
--   Ring: the ring buffer that pkg/fwdapi/logbuffer.go, pkg/fwdapi/history/store.go and
--     pkg/fwdmetrics/httpsniff.go each write out.
--   Fwdapi: LogBuffer is pkg/fwdapi/logbuffer.go, History is pkg/fwdapi/history/store.go.
--   Fwdservice: pkg/fwdservice/fwdservice.go. Ports has the ports and names, Forwards the map of
--     forwards, `LoopPodsToForward` and, in Replaced, the events around a replacement, Sync `doSyncPods`
--     for both kinds of service, Reconnect `scheduleReconnect`, `ForceReconnect` and `UpdateService`.
--   Fwdsvcregistry: pkg/fwdsvcregistry/fwdsvcregistry.go, the services that are forwarded and their
--     shutdown. A service is held with its reconnection state, whose `done` is its closed `DoneChannel`.
--   Fwdns: pkg/fwdns/manager.go. Indices has the indices for the allocation of addresses, PortMapping
--     the port mappings, Handlers the handlers of service events, Manager the start and stop of watchers.
--     View sets the registry against what the informer has shown; Stopping is what a stop leaves.
--   Fwdmetrics: Rate is pkg/fwdmetrics/rate.go, Sniffer is httpsniff.go beside it, Forward has the
--     counters of types.go and the streams of stream.go, Services the services of types.go and the
--     registry of registry.go. Regular expressions and floating point rates are parameters.
--   Fwdtui: State is pkg/fwdtui/state/store.go and snapshot.go, the forwards, services and log entries
--     behind the terminal interface. Rates are floating point numbers, a parameter with their sum.
--     Events is pkg/fwdtui/events/bus.go, the queue of events and the handlers that are subscribed.
--     Rates is pkg/fwdtui/state/history.go, the latest rates of each forward.
--   Fwdport: pkg/fwdport/fwdport.go, the host names of a forward and, in Informer, the forwards of each
--     pod and what the pod's deletion does with them. The hosts in memory are a library's, behind an
--     interface of operations and what the code relies on of them; reading the file from the disk and
--     saving it are parameters. The pattern of `sanitizeHost` is taken byte by byte, for ASCII names.
--   Fwdhost: pkg/fwdhost/fwdhost.go, the lines of the hosts file that an earlier run has left.
--
-- How they meet. `LoopPodsToForward` asks Fwdip for an address through the network interface; the
-- answer is the parameter `local_ip`, since the interface is the system's. `ForceReconnect` and
-- `UpdateService` stop all forwards and then run the synchronisation. The watchers of Fwdns fill and
-- empty the registry, and a stop also empties the state of the terminal interface. The streams of
-- Fwdmetrics count into a forward's metrics and pass what they carry to its sniffer. Fwdhost is set
-- against the addresses of Fwdip, and Fwdport registers its names there.
--
-- State and steps. An operation under a lock is one function from state to state. The goroutine of a
-- forward is cut in two: `start_launched` registers what has been launched, and `remove_own_forward`
-- is its exit. Pointers to forwards are compared by `identity`. A panic is `none`. The order in which
-- a Go map is gone through is the order of the association list, and the theorems are about every list.
-- Whole numbers of the source that count or index are natural numbers; arguments that may be negative
-- are integers, and the source's tests of them are written out. The numbers of events and errors do not
-- wrap around, since 2^63 of them are out of reach.
--
-- Recursion. All loops are by structure except the search of `determineIP`, which calls itself anew;
-- it is given 257 rounds, and each round but the last raises the offset, which is refused above 255;
-- and `addHost`, which is given two rounds, since a name that has been sanitized is not changed again.
-- In the files under Reconnect durations are whole seconds.
--
-- Not modelled: the connection of a forward and the watch of its pod (pkg/fwdport), the
-- informers, the snapshots and the ticker of the metrics, the display of the terminal interface with
-- its filter and order, the HTTP and MCP servers, and the commands; log lines and the events that the
-- code emits for the terminal interface.
pub mod Base
pub mod Fwdip
pub mod Ring
pub mod Fwdservice
pub mod Fwdapi
pub mod Fwdmetrics
pub mod Fwdtui
pub mod Fwdsvcregistry
pub mod Fwdns
pub mod Fwdhost
pub mod Fwdport
