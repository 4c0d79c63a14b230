-- ===== src/Lib.antt =====
-- Verification of ovn-network-agent, the agent that makes the provider addresses of OVN routers
-- reachable on a gateway chassis: it reads the OVN databases, derives which addresses this
-- chassis serves, and keeps the routes of the kernel and of FRR, the flows of the bridge and its
-- own entries in the OVN NB database in line with them.
--
-- The configuration is read and validated (config.go), and reloaded on a signal (reload.go). A
-- reconcile takes a snapshot of OVN (ovn.go), computes what is wanted of it (desired_state.go)
-- and makes the host so (agent.go, routing.go). Entries of the NB database make a router's
-- replies leave through this chassis, and priorities of Gateway_Chassis decide which chassis is
-- active (ovn_gateway.go). Watches trigger a reconcile when FRR restarts (frr_watch.go) or
-- another program changes a route (route_watch.go, drift_watch.go). At shutdown the chassis
-- drains.
--
-- - Prelude: the Boolean tests, lists over native numbers, Go's maps and sets as association
--   lists and lists, and the functions of `strings` and `sort` that the agent uses.
-- - Net: the interface of Go's package `net`, a parameter with two laws. PortForward: the
--   configured VIPs of config.go and what nftables.go collects.
-- - Config, Config/Options, Config/Settings: the configuration of config.go, validateMode, the
--   registry configOptions, and validateSettings as the list of its checks. Config/Sound says the
--   same without loops and maps; the proofs are in Config/Settings/Accepts and Derived,
--   Config/Mode and Config/Options/Lenses.
-- - Reload: planReload of reload.go; Reload/Apply: applyReload and handleReload. Reload/Lists,
--   Merge and Plan follow the loop over the options, Validated the validation of what it merges,
--   Options and Effect the outcome.
-- - Ovn: the snapshot OVNState of ovn.go (State), the rows that it is made of (Rows), host names
--   (Hosts), the joins of the tables (Joins), the NAT addresses (Nats), refreshState (Refresh),
--   and refreshLoop with the observation of a failover (Loop). Joins/Indexes, Joins/Local and
--   Refresh/Bound say which ports the rows bind here, without the indexes.
-- - Segments, DesiredFlows: refreshSegmentBindings of ovs.go with what it reads (Segments/Ports),
--   desiredMACTweakFlows and desiredHairpinFlows with the specs of their flows.
--   DesiredFlows/Texts is about the text of a flow, Distinct and Tweaks about the list of flows,
--   and DesiredFlows/Keys composes them with FlowPlane.
-- - Desired, Addresses: computeDesiredState, buildHairpinTargets and buildDesiredSegments of
--   desired_state.go, uniqueIPs of agent.go. Desired/Plane is about the addresses with routes,
--   Desired/Targets about hairpin targets and segments.
-- - Agent/Routes: ensureRoutes of agent.go, as the list of the calls that it makes for what it
--   wants (Wanted) and what it reads (Listing), and as its result for a given success of each
--   call. Agent/Routes/Host is the interface of a host: a record of observations, of the effect
--   of a call and of laws. The proofs are in Frr, Kernel, Order and Stable.
-- - Agent/Stale: cleanupStaleChassis of agent.go as one pass over the tracker of missing chassis,
--   and a list of passes one after the other; Agent/Stale/Grace and Passes have the proofs.
-- - Gateway: filterDrainCandidates, filterRestoreCandidates, soleCandidatePorts, DrainGateways
--   and RestoreDrainedGateways of ovn_gateway.go; Gateway/Rows says what a list of updates asks
--   of the rows, Gateway/Drain and Gateway/Returns have the proofs. Gateway/Lead:
--   EnsureActivePriorityLead, with its proofs in Gateway/Lead/Margin and Gateway/Lead/Raise.
-- - Northbound, Takeover, Managed: rows of the NB database; MarkTakeoverReady,
--   takeoverMarkersReady and awaitTakeoverReady; ensureDefaultRoute, ensureStaticMACBinding,
--   RemoveManagedNBEntries, ListManagedRouteChassis and CleanupStaleChassisManagedEntries of
--   ovn_gateway.go.
-- - FlowPlane: reconcileFlowPlane and applyFlowAdds of ovs.go, as the commands that change flows.
--   FlowPlane/Switch is the interface of a bridge, a record of what its flow table holds, of the
--   effect of a command and of laws; FlowPlane/Sorting is about the order of a batch, and the
--   proofs are in FlowPlane/Converge and FlowPlane/Safety.
-- - FrrWatch: the state machine frrWatchState, changedDaemons and parseFRRModules of
--   frr_watch.go.
-- - RouteWatch: classifyRouteEvent of route_watch.go. DriftWatch: nextBackoff, consume and run of
--   drift_watch.go, over explicit sequences of inputs with their times.
-- - Examples: tests, and each theorem at a concrete input.
--
-- State is passed explicitly. A Go map is an association list and a Go set a list; what is stated
-- for every list holds for every order in which Go may iterate. A read that may fail is an
-- `Option`, and the success of a write is an argument. Numbers are natural numbers: priorities
-- and VLAN tags are small and never negative, and times are numbers of nanoseconds since some
-- origin. The numbers of the configuration may be negative and are integers. Host names and MAC
-- addresses are ASCII texts where their case is folded. An empty list of the configuration and
-- none are one value. The loops of the wait for migration, of the polls and of the subscriptions
-- are structural recursions over the list of what they receive. Only the printing of a flow's
-- priority has fuel: 20 digits, enough for any 64-bit number.
--
-- The OVN databases, FRR, the kernel and the package `net` are not under the repository: their
-- answers are arguments, and the effect of a call on the host or the bridge is the interface Host
-- or Switch. An update of a row by its UUID sets the columns that it names; an
-- update whose construction fails is modelled in a drain and a restore, and nowhere else.
--
-- Not modelled: logging, metrics, the goroutines, tickers, contexts but where a drift watch asks
-- whether its context is done, the netlink and nftables sockets, the OVSDB client and its cache
-- guard, the flow watch, how a dump of flows is parsed (ovs.go), the prefix list of FRR, the
-- layers from which a configuration is loaded and its TLS material, and the rest of the agent's
-- loop.
pub mod Addresses
pub mod Agent
pub mod Config
pub mod Desired
pub mod DesiredFlows
pub mod DriftWatch
pub mod Examples
pub mod FlowPlane
pub mod FrrWatch
pub mod Gateway
pub mod Managed
pub mod Net
pub mod Northbound
pub mod Ovn
pub mod PortForward
pub mod Prelude
pub mod Reload
pub mod RouteWatch
pub mod Segments
pub mod Takeover
