-- ===== src/Lib.antt =====
-- Gerbil, the tunnel gateway of Pangolin: a WireGuard peer manager with a control API (main.go), a
-- UDP relay that forwards WireGuard packets between clients and destinations (relay/relay.go), and
-- an SNI proxy (proxy/proxy.go). The relay, the proxy, and the control API, the peers, the bandwidth
-- accounting and limits, the router, the firewall and the start of main.go are modelled, and the
-- choice of a metrics backend.
--
-- The relay listens on one socket. `packetWorker` tells WireGuard packets (first byte 1 to 4) from
-- hole punch messages. A WireGuard packet of a client with a proxy mapping goes out on a UDP socket
-- of its own for each pair of destination and client, taken from a bounded pool; a goroutine for
-- each such socket reads what comes back. Handshake responses and observed traffic fill session
-- maps, by which transport data is sent to one destination in place of all.
--
-- The proxy accepts TCP connections under two limits, may read a PROXY header of a trusted upstream,
-- takes the host name from the ClientHello, finds a route (local names, cache, route API), dials the
-- target, may write a PROXY header, registers the tunnel under the host name and copies bytes.
--
-- Prelude: Boolean tests, integers, decimal text and lists over native numbers.
-- Strings: strings.Contains, Cut, Fields and their like, and net.SplitHostPort.
-- Table: a map as an association list, with load, store, delete, and removal by a test.
-- Relay/Address: net.UDPAddr and its text, connection keys, mapping keys, `containsIP`; Relay/Keys
--   proves which addresses the keys tell apart.
-- Relay/Wire: message types and `extractWireGuardIndices`; Relay/WireLaws is about what a peer
--   writes.
-- Relay/Connections: `getOrCreateConnection`, `removeConnection`, `evictLRUConnection`, one tick of
--   `cleanupIdleConnections`, `clearConnectionsForWGIP`. A socket is a number that is never used
--   again, and closed sockets are listed. Children: Removal, Invariant, Eviction, Creation, Cleanup.
-- Relay/Sessions: the session maps over a heap, `trackCommunicationPattern`, `tryRebuildSession`,
--   `clearSessionsForIP` and two cleanups. Children: Lookup, Rebuild, Clearing.
-- Relay/Mappings: `UpdateProxyMapping`, `UpdateDestinationInMappings`, `cleanupIdleProxyMappings`.
-- Relay/EndpointCache, Relay/RateLimit: the bounded endpoint cache and the limiter of hole punch
--   messages.
-- Relay/Packets: `getCachedAddr`, `handleWireGuardPacket`, one round of `handleResponses`, over the
--   state of `UDPProxyServer`. Children: Forwarding (what is sent), Routing (where
--   to), Invariant, Dropped, Transport.
-- Relay/HolePunch: `packetWorker` over both kinds of packets, `decryptMessage`, the notifier and
--   `notifyServer`. Children: Steps (the workers as a step relation), Backed, Reachable, Delivery.
-- Proxy/Admission: `acceptConnections`, the end of a handler, and the limits of the environment, as
--   functions and as a step relation with one step for each atomic operation; child: Counts.
-- Proxy/Header: `parseProxyProtocolHeader` and the two builders. Children: Fields, Laws, Chain, Replay.
-- Proxy/Routes: `getRoute`, `selectStickyEndpoint`, the routing part of `UpdateLocalSNIs`. Children:
--   Sticky, Laws. The package go-cache is the parameter RouteCache, and what it documents is
--   IsRouteCache.
-- Proxy/Dialing: `dialRoute`; child Reached. Proxy/Tunnels: `activeTunnels` and its part of
--   `UpdateLocalSNIs`; children: Laws, and Late, which is about a race.
-- Proxy/Handling: `handleConnection` from the PROXY header to the start of `pipe`, and `extractSNI`,
--   composed of the parts above. Children: Laws, Success, TwoProxies.
-- Control/Bandwidth: `calculatePeerBandwidth` and the batches of `reportPeerBandwidth` in main.go.
--   Children: Readings, Totals, Batches. The fuel of the batches is the number of reports, which each
--   round lowers.
-- Control/Router: the trie `routerCIDRNode` and `unrestrictedRouterNetworks` in main.go, with the
--   loop of `routerIPAllowed`. Children: Cover, Marks, Families, Blocking. The fuel of the
--   rounds is the number of networks and one more: a round that goes on blocks a network.
-- Control/Settings: the environment and the flags that `main` reads in main.go. Children: Flags (what
--   is registered and accepted), Laws.
-- Control/Loading: `loadOrGeneratePrivateKey`, `loadRemoteConfig` and its loop, `loadConfig`,
--   `parseRemoteConfigSigningKey` in main.go, and `ValidateRemoteConfigURL` of the proxy and of the
--   relay. Children: Laws, Signed. What the server answers is a list, which ends where the program is ended.
-- Control/Startup: `main` from flag.Parse to the listener of the control API, as a chain of checks;
--   the outside is the record StartWorld. Children: Run (the chain), Laws.
-- Control/Firewall: `ensureWireguardFirewall` and `ensureMSSClamping` in main.go. Children: Tool (the
--   parameter Iptables, and what it documents, IsIptables), Chains, Rules, Policy (of packets), Clamping.
-- Control/Shaping: `ensureIFBDevice`, `setupPeerBandwidthLimit`, `removePeerBandwidthLimit` in main.go.
--   Children: Exec (commands and their answers, a monad), Commands, Removal, Limits.
-- Control/Peers: `addPeer`, `removePeer`, `ensureWireguardPeers` in main.go, with their effects on the
--   pool of the relay and the limits. Children: Laws, Reconciled, Success. wgctrl is the parameter
--   WgLibrary, and what it documents is IsWgLibrary.
-- Control/Requests: `requireControlAuth` and the handlers of the control API in main.go. Children:
--   Auth, Handlers, Forwarding (down to the packets of the relay).
-- Control/Destinations: `validateRouterDestination`, `handleRouter`, `dialRouterContext` in main.go.
--   Children: Dials, Rewriting.
-- Observability: `MetricsConfig`, `Validate` (internal/observability/config.go) and `New`
--   (internal/observability/metrics.go). Child: Laws.
-- Relay/Examples, Proxy/Examples, Control/Examples, Observability/Examples: runs and witnesses.
--
-- Times are natural numbers of nanoseconds, and the clock is an argument, read once in a call. A
-- sync.Map is an association list whose `Range` visits the entries in the order of the list. Name
-- resolution, dialling and writing are arguments (the record World). A packet is a list of bytes.
-- Each handler is one step: the creating mutex serialises the pool's changes, and other
-- interleavings of goroutines within a handler are not modelled, nor is a destination slice that
-- two mappings share. Loops are structural recursions on lists.
--
-- Not modelled: JSON, the ciphers, HTTP, netlink, the inside of iptables, logs and the tickers of the
-- cleanup loops; Start and Stop of the relay and fetchInitialMappings, which fills its mappings at the
-- start; TLS, the copying of bytes and NewSNIProxy in the proxy; the interface, the HTTP servers and
-- monitorMemory of main.go; logger, the metrics facade and its backends. These are I/O, libraries, or
-- wiring.
pub mod Prelude
pub mod Table
pub mod Strings
pub mod Relay
pub mod Proxy
pub mod Control
pub mod Observability
