-- ===== src/Lib.antt =====
-- docker-network-dhcp: a Docker network driver that gives containers addresses by DHCP.
--
-- The daemon answers libnetwork's calls over a socket. CreateNetwork remembers the options of a
-- network; CreateEndpoint makes an interface and gets a first lease by udhcpc, which it leaves as a
-- hint; Join takes the hint, answers with the routes, records the endpoint and starts a goroutine
-- with a DHCP manager; Leave stops the manager and drops the record; DeleteEndpoint takes the
-- interface away. The tables of endpoints and networks are saved as two files, so that the plugin
-- can go on after a restart without the Docker API: NewPlugin reads them, and Restore gives every
-- endpoint whose namespace is still there a DHCP manager again.
--
-- Parts and files:
-- Base            Go strings as bytes, Go maps as association lists, Boolean tests, lists.
-- Util/Errors     the sentinel errors and ErrToStatus (pkg/util/errors.go).
-- Util/Outcome    how a Go call ends: a value, an error or a panic; steps that change a state.
-- Util/Await      AwaitCondition (pkg/util/general.go), AwaitNetNS and AwaitLinkByIndex
--                 (pkg/util/netlink.go) and AwaitContainerInspect (pkg/util/docker.go).
-- Util/Json       JSONResponse, JSONErrResponse and ParseJSONBody (pkg/util/json.go).
-- Plugin/Names    shortID (pkg/plugin/plugin.go) and vethPairNames (pkg/plugin/network.go).
-- Plugin/Driver   IsDHCPPlugin: the regular expression as matchers (pkg/plugin/plugin.go).
-- Plugin/Disk     the system calls of a save, on a disk with a journal of its states, and what a crash leaves.
-- Plugin/State    saveState, loadState, saveNetworks and loadNetworks (pkg/plugin/state.go).
-- Plugin/Types    options, hints, requests, responses, the fields of Plugin and of dhcpManager.
-- Plugin/Env      what the handlers call outside the plugin.
-- Plugin/Table    addStateEntry and its siblings (pkg/plugin/plugin.go); Table/Race has their
--                 critical sections of mu and saveMu as steps.
-- Plugin/Network  CreateNetwork and DeleteNetwork; Plugin/Options netOptions; Plugin/Endpoint
--                 CreateEndpoint, DeleteEndpoint and EndpointOperInfo; Plugin/Join Join with
--                 addRoutes, and its child Goroutine the goroutine of Join as a whole; Plugin/Leave
--                 Leave, dhcpManager.Stop and the locked parts of that goroutine (all
--                 pkg/plugin/network.go but Stop, which is in pkg/plugin/dhcp_manager.go).
-- Plugin/Manager  renew, the events of udhcpc and its restarts (pkg/plugin/dhcp_manager.go); its
--                 child Steps has the event loop of setupClient as a step relation, and its child
--                 Start has newDHCPManager, fetchHostname, Start, startClients and RestoreClient;
--                 Stopping has the calls of Stop and the ends of the loops as steps on the channels.
--                 Relaunch has a restart of udhcpc down to NewDHCPClient and Start.
-- Plugin/Restore  Restore, restoreFromState and findEndpointLinkFromState (pkg/plugin/plugin.go).
-- Plugin/Api      the wrappers of the handlers (pkg/plugin/endpoints.go), the routes and the health
--                 check (pkg/plugin/plugin.go).
-- Plugin/Service  NewPlugin, StartRestore and Close (pkg/plugin/plugin.go), and all that changes the
--                 tables of a running plugin as a step relation; its child Actions says what a
--                 predicate must be kept by for every request to keep it.
-- Plugin/Shutdown the goroutine of StartRestore and Close as steps, with restoreCancel, restoreWg and
--                 restoreComplete, between requests and Joins (pkg/plugin/plugin.go).
-- Udhcpc          the command line of NewDHCPClient and GetIP (pkg/udhcpc/client.go), and the events
--                 of the handler (cmd/udhcpc-handler/main.go); its child Process has Start, with the
--                 namespace of its thread, Finish and Drain, Client has NewDHCPClient and GetIP as a
--                 whole, and Collecting the goroutines of GetIP as steps (pkg/udhcpc/client.go); Pipe
--                 has the lines from the handler to the client.
-- Daemon          resolveSocketPath, the settings and monitorDockerReady, and in Daemon/Main main, its
--                 server and the signals as steps (cmd/net-dhcp/main.go), and Plugin.Listen.
-- Tests           a concrete outside world, and the results below at a concrete input.
--
-- A handler is a function from the plugin and the outside world to an outcome and their new states.
-- A critical section of mu is a function on the plugin. The handlers themselves run in one piece;
-- what other calls do in between is modelled where a result is about it: in Table/Race, in the split
-- of Join into join, join_begin and join_finish, in the turns around each attempt of Restore, and in
-- the steps of Plugin/Service and Plugin/Shutdown, where a request is one step. The order in which Go
-- ranges over a map is a parameter. All loops are structural recursion but the poll
-- loops, which run on the number of polls that their context leaves time for; that is no bound of the
-- model, since a loop that uses them up returns the error of the context as the code does. Restore
-- makes four attempts, as its three delays give.
--
-- Parameters: netlink, the Docker API, mapstructure (as decodeOpts sets it up), package net,
-- encoding/json, bufio.Scanner, netns and os. For the handlers, the two saves and udhcpc.GetIP are
-- parameters too, for the manager the udhcpc client but in its restarts, and for the API what ServeMux
-- answers where no pattern stands.
--
-- Not modelled: logging, with the access log, the relay of udhcpc's standard error and the check
-- whether the socket has appeared; RecoverGoroutine, which nothing calls; the release scripts.
pub mod Base
pub mod Util
pub mod Plugin
pub mod Tests
pub mod Daemon
pub mod Udhcpc
