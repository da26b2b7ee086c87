-- ===== src/Lib.antt =====
-- Verification of go-gost/x, the Go library behind the GOST tunnel.
--
-- A service accepts connections, and on the way to a dialed connection it asks the parts below:
-- which addresses a list matches, which node of a hop to take, whether a quota or a limit on
-- connections lets the traffic through, what a cache holds, which fake address a name has, and what
-- the counters say; a chain of hops makes a route of nodes, and a router dials over it. The protocols
-- themselves (handlers, listeners, dialers, connectors) are I/O over these parts and over
-- go-gost/core, and are not modelled. Of the parts modelled, Chain calls Hop, which calls Selector;
-- the lists of Bypass and Admission are made of the matchers, and the listener of Conn asks the
-- limiters of a key. Hosts and Ingress share the lemmas on a loop with Matcher. All of them stand on
-- Prelude (names shared, tests and lists, integers) and on Text (strings, net.SplitHostPort,
-- strconv.Atoi, string-keyed maps).
--
-- Files and code:
--   Matcher      internal/matcher/matcher.go, internal/matcher/cidr_trie.go, internal/net/addr.go
--     Addr         netip.Addr and net.IP: a family and 16 bytes; netip.Addr.Unmap
--     CidrTrie     cidrTrie: insert, contains; Coverage relates it to the covering of a prefix
--     Cidr         ipNetToPrefix, CIDRMatcher; Mapped is about IPv4-mapped networks
--     Ip           IPMatcher, IPRange, ipRangeMatcher.Match
--     PortRange    PortRange: Parse, Contains
--     Split        splitHostPort
--     Suffix       the loop over the tails of a host, which two matchers share
--     Address, Domain, Wildcard   AddrMatcher, DomainMatcher, WildcardMatcher
--   Selector     selector/filter.go, latency.go, strategy.go, weighted.go, selector.go
--     View         what the filters and strategies read of a value: its metadata, marker and probe
--     Filter       failFilter, backupFilter, latencyFilter; Kept is what they keep
--     Weighted     RandomWeighted; Shares counts the draws of an item
--     Strategy     the strategies; RoundRobin and Lowest are about two of them, Member about all
--     Select       defaultSelector.Select; Laws is about filters and strategies together
--     OneOf        the members of a list that a strategy may return
--   Quota        limiter/quota/limiter.go
--     Invariant, Wakeup, Persist   the flag, the wait channel, the store
--   Conn         limiter/conn/limiter.go: limiters and groups
--     Undo, Group   what a refused group takes back, its answer
--     Keys         limiter/conn/conn.go and generator.go: Limiter, reload, the generators
--       Lines        parseLine, parsePatterns, load, parseLimit
--       Tally, Choice, Groups, Reload   what the calls leave of the counts, the limiters that a key
--         is given, its group, a reload
--       Listed, Limits   which limits a key has
--     Slots        limiter/conn/wrapper: Accept of a listener, Close of a connection
--       Release, Fair, Sharing   a group that is released, the open connections and the counts
--   FakeIp       resolver/fakeip_store.go: Create, Lookup, Contains
--     Addr         netip.Addr and netip.Prefix, as Create uses them; Next, Contains, Masked
--     Search       the loop of Create over a range; Around shows that it tries each address
--     Invariant, Creation, History, Lifetime   the two maps, the outcomes of Create, many calls of it,
--       and of Load too
--     State        the snapshot of Store, and Load
--       Filling, Cursors, Loading   what a Load accepts
--       Restore, RoundTrip   what Store wrote is read back
--   Hosts        hosts/hosts.go: Lookup, and the table that reload builds; Tails, Table
--     Lines        parseLine, parseMapping, load
--   Hop          hop/hop.go: Select of a hop
--     Node, Gate   the nodes, and which of them a request may go to; Hosts, the host of a filter
--     Scan         the loop over the nodes; Ranking is what it records of their priorities
--     Tier         the tiers of equal priority and the calls of the selector; Layers, Best are about
--       them
--     Select       Select; Laws and Best, which node it returns
--     Default      a hop with the default selector (config/parsing/selector/parse.go)
--     Group        hop/group.go: Select of a group; Entry, which of its entries answers
--   Chain        chain
--     Route, Path, Hops   chain/chain.go: Chain.Route, the nodes of a route, a chain of hop/hop.go's
--     Group        chainGroup
--     Connect      chain/route.go: the connection over a route; Marks, what the markers are told,
--       Standing, Closed, what becomes of the connections that are opened
--     Resolve      internal/net/resolve.go
--     Dial         chain/router.go: the attempts of Dial and Bind; Attempts counts them
--   Ingress      ingress/ingress.go; Table, the rule of a host
--   Router       router/router.go; First, the route of a destination
--   Auth         auth/auth.go; Users, who is let in
--   Loader       what the loaders of Conn, Hosts, Ingress and Router give (internal/loader), and the
--       words of a line
--   Registry     registry/registry.go: Register, Unregister, Get; Holder, who holds a name
--   Stats        observer/stats/stats.go
--     Wrap, Refinement, Conservation   sums modulo 2 ^ 64, what a Get returns, what all Gets do
--   WsFrame      internal/util/ws/frame.go: the header of a WebSocket frame
--     Words, Octets   encoding/binary, the two first bytes
--     RoundTrip, Frames   a header read back, a frame with its payload
--   Routing      routing/rules/parser.go, and matchersTree of routing/matcher.go
--     Negation, Meaning   the inversion of a rule, and the formula that a rule is
--     Request      what a rule reads of a request
--     Funcs        the functions of httpFuncs; Host and Keyed are those of hosts and of headers,
--       queries and JSON, Table is httpFuncs, Each and Total are about panics
--   Bypass       bypass/bypass.go: localBypass, classifyPatterns, bypassGroup; Decision
--   Admission    admission/admission.go; Patterns, what the patterns of a reload stand for, Denial, who
--     is denied after it
--   Cache        cache/memory.go
--     Accounting, Bounds, History, Lookup   the byte count, the bounds after a call and after any
--       history, what a Get finds
--   Tests        runs of the definitions, and each theorem with hypotheses at one input
--
-- How the code is read:
--   * A string is its list of bytes. Code of packages that are not in the repository is a parameter:
--     strings.ToLower and TrimSpace, netip.ParseAddr, net.ParseIP, ParseCIDR and ResolveIPAddr, the
--     compiled glob of gobwas/glob, crc32, the calls that vulcand/predicate makes for the text of a
--     rule, the ranger of yl2chen/cidranger, netip.ParsePrefix, the decoding of JSON, and the random
--     source, of which only is asked that a draw stays below its bound; sort.Slice, of which is
--     asked that it sorts and keeps the elements; regexp, strconv.ParseFloat and the order of
--     float64, gjson, http.CanonicalHeaderKey; and what a transport does to connect. A tree of
--     rules is over any functions of its matchers.
--   * A panic is the result none, where the code can reach it: a nil rule or route, a nil map that
--     is written to, the first byte of an empty pattern; and it is `panics` where a matcher of a rule
--     is built: an argument past the last one, a name that httpFuncs does not have.
--   * A selector, a hop or a chain that another part calls is a function of a state that they
--     share, and gives that state back. What happens to connections and markers is a list of
--     events, in their order.
--   * A netip.Addr is a family and a number (or 16 bytes, in Matcher); zones are left out. An
--     io.Reader is the bytes that it still gives, and a writer takes all that it is given.
--   * int and int64 have 64 bits. Where a sum of them may pass the bound (the weights of a random
--     selector, the count of a limiter, the retries of a router) the wrapping, int_64, is written
--     out; elsewhere they are integers without overflow. Where the code counts in uint64 and can
--     reach the bound (the bytes of a quota, the counter of the round robin) the remainder modulo
--     2 ^ 64 is written out.
--   * time.Now is an argument `now`. A method is one step, under its mutex or on its atomic fields;
--     interleavings of the instructions within two methods are not modelled. The loops of a
--     goroutine are one step for each case of their select.
--   * Go's maps are association lists with one entry for a key; a loop over a map goes in the
--     list's order, one of those that Go may take.
--   * A limiter that several groups share stands in a heap, and a pointer is a place of it.
--   * A channel that is closed to wake its waiters is the number of its generation.
--
-- Loops: they recurse on the list they go through, but for five. The attempts of a router recurse
-- on their number. The two loops over a host's tails have the host's length and one more as their
-- fuel, and each round takes at least a byte away. The loop of the eviction has the number of
-- entries as its fuel, and each round takes one entry away; that the cache is within its bounds
-- after it shows that the fuel is enough. The loop of Create over a range has the size of the range
-- as its fuel; that Create ends shows that it is enough.
--
-- Not modelled: the parallel strategy of the selector, the file and Redis stores of quota and
-- cache, the reloading of a hop's nodes from a configuration, probes, metrics, logging, and all
-- that speaks to the network, to gRPC plugins or to the operating system.
mod Prelude
mod Text
pub mod Matcher
pub mod Selector
pub mod Routing
pub mod FakeIp
pub mod Loader
pub mod Hosts
pub mod Ingress
pub mod Router
pub mod Auth
pub mod Registry
pub mod Stats
pub mod WsFrame
pub mod Quota
pub mod Admission
pub mod Bypass
pub mod Cache
pub mod Conn
pub mod Hop
pub mod Chain
mod Tests
