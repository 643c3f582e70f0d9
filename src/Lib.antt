-- ===== src/Lib.antt =====
-- bill-VPN, a proxy that hides the server name of TLS connections: a verification library of its Go
-- core (package `bill`, folder internal/).
--
-- How the parts interact. A request for a host is planned (internal/dial_plan.go): a fake address is
-- turned back into its domain by the fake-IP store (internal/fake_ip.go), and the domain gets its
-- policy and its target (internal/policy.go, internal/utils.go, internal/gfwlist.go), where recorded
-- DNS answers (internal/dns.go) are used. The connection is then wrapped (internal/tun_bridge.go):
-- the wrapper holds back what is written until a whole TLS record is there, parses the ClientHello
-- (internal/utils.go) and sends it as the policy says, cut into records and segments
-- (internal/fragment.go). DNS queries of the device are answered with fake addresses
-- (internal/dns.go). The TTL of fake packets comes from a search and from rules
-- (internal/desync.go, internal/desync_linux.go). Clients of the SOCKS5 server (internal/socks5.go)
-- take another way: their request is planned and handed to the tunnel (internal/tunnel.go), which
-- reads the first bytes itself and then copies. A target may come from a pool of measured
-- addresses (internal/ip_pool.go). On Android tun2socks dials through the proxy of mobile/, which
-- plans what it is asked for, answers DNS itself and hands streams to the wrapper. A DoH server is
-- reached through a connection of its own (internal/config.go).
--
-- The files.
--   Common: shared names; Go maps as association lists (Dict), signed integers (Int), lists (Lists),
--     Boolean tests (Tests), and `Returns`: a computation gives a result, and the result satisfies
--     a predicate.
--   ClientHello: `parseClientHello` of internal/utils.go, one definition per stage of its checks.
--     Bounds holds the proofs.
--   Fragment: `sendRecords`, `splitAndAppend`, `makeRecord` of internal/fragment.go and
--     `findLastDot` of internal/utils.go. Split is about the cutting and a reader of TLS records, Dot
--     about the search for a dot, Deliver and Send about what arrives, Lost about what does not.
--   Policy: the policy record and `mergePolicies` of internal/policy.go (Merge: its specification);
--     Decode: `Policy.UnmarshalJSON` behind json.Unmarshal; Names: the texts of the modes.
--   FakeIp: the store of internal/fake_ip.go. Linked: its two maps; Valid: its invariant; Allocate:
--     the loop of `Allocate`; Leases: what callers rely on.
--   Route: `classifyDomainRoute`, `ipRedirect`, `isGFWDomain`; Decide: `genPolicyWithOptions` (Sound
--     and Lost: its proofs); Plan: internal/dial_plan.go (Recover: its proof).
--   Recorded: the recorded DNS answers and `fallbackFakeTTL` of internal/dns.go (Reads: proofs).
--   FakeAnswer: `buildFakeAddressResponse` of internal/dns.go; Query: `handleDNSQuery`; Recovers: the
--     way of its addresses back to the domain.
--   Resolve: `doDNSResolve` and `dnsResolve` of internal/dns.go, internal/resolver.go, and
--     `resolveBootstrapHost` of internal/config.go (Families, Cached: proofs).
--   TtlRules: `parseTTLRules` and `calcTTL` of internal/desync.go (Parsed, Applied: proofs).
--   Probe: `detectMinimalReachableTTL` of internal/desync_linux.go and `getFakeTTL` of
--     internal/desync.go (Least: proof).
--   Desync: `desyncSend` and `sendWithNoise` of internal/desync_linux.go (Sends: proof); Windows:
--     their counterparts of internal/desync_windows.go (Whole: proof).
--   Socks: internal/socks5.go; its address codec, Udp: its packets and its relay (RoundTrip: proof),
--     Handler: `socks5Handler` (Answers: proof).
--   Tunnel: `handleTLS` of internal/tunnel.go; Events: what a tunnel does, in order; Dispatch:
--     `handleHTTP` and `handleTunnel` (Whole: proof); Hello and Blocked: proofs on `handleTLS`.
--   HttpProxy: the handlers of internal/http.go (Blocked: proof).
--   Pool: internal/ip_pool.go from `testIP` on (Valid: its invariant, Picks: `Get`, Life: scans and
--     picks in any order); Parse: its parser (Fresh: proof).
--   Pattern: `expandPattern` and `splitByPipe` of internal/utils.go (Words, Ends: proofs).
--   PolicyConn: `policyConn` of internal/tun_bridge.go (Streams, Twice: proofs).
--   Mobile: the library of the Android application. Queue: mobile/queued_packet_conn.go, and its runs
--     (Fifo, Progress: proofs); Frames: mobile/dns_tcp_conn.go; Bridge: mobile/bill_proxy.go (Safe,
--     Answers: proofs); Api: mobile/mobile_api.go (Logs, Life: proofs).
--   Doh: `interceptConn` of internal/config.go (Hello: proof); Target: `genDialContext`.
--   Settings: `LoadConfig` of internal/config.go (Stale: proof); Matchers: the entries of the address
--     matchers (Families: proof).
--   Gfw: the parser of the built-in list of internal/gfwlist.go (Members, Hosts, Lists:
--     proofs).
--   Transform: `transformIP` of internal/utils.go (Prefix: proof).
--   The modules named Tests hold runs and the theorems at concrete inputs.
--
-- How the code is read. Strings and byte slices are lists of bytes, structs are records, times and
-- durations are nanoseconds, and the section under a mutex is one step from state to state. Go
-- errors are values; an index or a slice bound out of range and a division by zero, which panic in
-- Go, are the result `none`. What is not in the repository (the address matchers, net, time, the
-- sort, the DNS exchange, the connection) is an argument. So are the results of the resolver, of
-- the IP pools, of `transformIP` and of `resolveBootstrapHost` at the time of a decision.
--
-- Fuel. The loop over the extensions of a ClientHello moves four bytes on in each round, and its
-- fuel is the length of the input. The loop of `Allocate` has two rounds more than the prefix has
-- addresses: it visits each once, and it does not come round to its start unseen, since the
-- cursor stands at the first address only while the store is empty. The parse of the TTL rules
-- takes a byte in each round. The search for a TTL halves its range, and has as many rounds as there
-- are TTLs. The expansion of a pattern goes on behind a bracket, which is shorter. The local DNS
-- server reads two bytes at least in each round. The theorems on these definitions show that the
-- fuel is enough.
--
-- A Go `int` has 64 bits. A text that comes from JSON is valid UTF-8, so that a loop over its
-- characters is one over its bytes; `strings.ToLower` is that of ASCII; memory is not exhausted. A
-- call on a connection that fails may have sent a part of its bytes: for `Write`,
-- `sendRecords` and the copy the tunnel says which part, the wrappers `policyConn` and
-- `interceptConn` record the call as one that broke, and `desyncSend` lists the calls that succeed.
--
-- Not modelled: the Android application; the start of the HTTP server, the accept loop of the
-- SOCKS5 server, the copies from a destination to its client, the timer of the IP pools and the
-- logging, which are input and output; the decoding of JSON; the search for a TTL on Windows; the
-- failure of a write in the middle of `sendRecords` but for the tunnel; the folder
-- tun2socks and the vendored packages, which are other projects' code.
pub mod Common
pub mod ClientHello
pub mod Fragment
pub mod Policy
pub mod FakeIp
pub mod Route
pub mod Recorded
pub mod FakeAnswer
pub mod Resolve
pub mod TtlRules
pub mod Probe
pub mod Socks
pub mod Desync
pub mod Tunnel
pub mod HttpProxy
pub mod Pool
pub mod Pattern
pub mod PolicyConn
pub mod Mobile
pub mod Doh
pub mod Settings
pub mod Gfw
pub mod Transform
