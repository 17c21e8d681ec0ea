-- ===== src/Lib.antt =====
-- turnfly: a TURN relay on Fly.io. The program is a server with a control API (credentials, ICE
-- configuration, health), a relay that carries packets between regions over QUIC, limits on what
-- a user may take, and a deployer that puts the server on machines of the Fly API.
--
-- Which file models which part (paths from the root of the repository):
--   Prelude, Result, Int, Text, Clock, Map: Go's slices, errors, int64 arithmetic, strings, the
--     package strconv (Text/Decimal), parts of strings (Text/Strings), encoding/binary
--     (Text/BigEndian), time, and maps with string keys as association lists.
--   Relay/Frame: internal/relay/frame.go. `encode` and `decode_frame` are Encode and DecodeFrame
--     over lists of bytes; a timestamp is a number of nanoseconds.
--   Relay/Session: internal/relay/session.go. `Manager` is the registry, with a function for each
--     of its methods.
--   Relay/Proxy: internal/relay/proxy.go. `handle_datagram` and `forward_packet` are the two
--     directions; `run` is the loop of Run over the events it meets.
--   Relay/Tunnel: internal/relay/tunnel.go, with quic-go as a record of its answers.
--   Relay/Certificate: internal/relay/cert.go, with the crypto packages as a record.
--   Quota: internal/quota/quota.go. `Tracker` has the two maps and the counter of refusals.
--     Quota/Ledger holds it against a list of live allocations.
--   RateLimit: internal/ratelimit/ratelimit.go. RateLimit/Float is float64 behind laws of IEEE 754.
--   TurnServer: internal/turnserver/turnserver.go, with package net and pion/turn as parameters.
--     Sockets has the calls that open and close listeners, here and in Relay/Tunnel.
--   Auth: internal/auth. Auth/Base64 is encoding/base64; HMAC-SHA1 is a parameter.
--   Regions: internal/regions/regions.go, the store and the URIs generated from it, and the table
--     of names (Regions/WellKnown).
--   Health: internal/health/health.go, the checks and the two endpoints; Health/Overlapping:
--     several requests to GET /healthz at once.
--   ControlApi: internal/controlapi/controlapi.go, with a function for each handler; `serve` has
--     the routes, and ControlApi/Middleware NewServer and the recovery from panics.
--   Metrics: internal/metrics/metrics.go, the collectors and what Register registers.
--   Config: internal/config/config.go.
--   ContainerImage: internal/containerimage/docker.go, with the Docker engine as a parameter.
--     ContainerImage/Context is the walk of tarBuildContext over a tree of entries.
--   FlyDeploy: internal/flydeploy. Types is types.go; Transport, Client and WaitForMachine are
--     client.go; Plan, Waiting and Deployer are deployer.go; Poll is the loop that both wait in.
--     Setup is what stands before the machines, Ensured how a region comes to its machine, and
--     Removing and Steady which requests are sent.
--   Cli: cmd/turnfly/main.go. Cli has parseRegionList, parseEnvFlags and generateSecret;
--     Cli/ServeTurn, Cli/ServeRelay, Cli/Deploying (autodeploy, deploy, destroy and image push,
--     whose flags and settings are in Cli/Planning), Cli/IceConfig and Cli/Probe are the commands.
--     Cli/ServeTurn/Group has the goroutines of runServeTurn, Cli/Defaults the flags that a command
--     line leaves out, and Cli/Reports what autodeploy and deploy print. Cli/ServeTurn/Issuing takes
--     the control API and the TURN server together.
--
-- How the parts interact: the proxy keeps a registry of sessions and a tunnel, and turns packets
-- into frames. The control API serves the health service and the regions of the store and issues
-- credentials of package auth, which also writes the URIs of the store and checks the user names
-- of the TURN server. The commands put the parts together: serve-turn the configuration, the
-- store, the health service, the control API and the TURN server; serve-relay the tunnel and the
-- proxy; autodeploy the publisher of images and the deployer. The tracker and the rate limiter
-- stand alone: nothing in the program calls them.
--
-- How state is modelled: a method is a function from the state before to the state after and the
-- result. The mutexes of the source make each method one step, so a history of calls is a list of
-- steps; GET /healthz calls two of them, between which other requests may go on. A loop over a map
-- goes over its entries in the order of the association list; Go leaves the order open. In the
-- deployer, a call goes on from a trace of the requests and the sleeps before
-- it; a request in the trace was handed to net/http, whose answer may be that it does not build it.
-- The API, the clock and the context, which may end a sleep early, are functions of the trace, and
-- so may answer anything, and the decoders of encoding/json are parameters.
--
-- Bounds and fuel: counters are `uint64` and wrap around (`u64`), durations and the bandwidth
-- counter are `int64` (`wrap_int64`); other counts of entries are exact. `format_int` writes at
-- most 20 digits, which is enough for 64 bits. `poll_health` has a round of fuel for each ten
-- seconds of the timeout and one more, `poll_state` for each five, which is enough if the clock
-- follows the sleeps.
--
-- Assumptions: one operation of the relay reads the clock once; the quota reads it twice, as the
-- source does. States of machines and names of regions are ASCII where the source folds or trims
-- them. The text of an error is kept up to the names that `fmt.Errorf` quotes.
-- A path that net/http finds unclean comes with the cleaner one that ServeMux redirects to.
--
-- float64 has no value here: the limiter takes its arithmetic as a record of operations with laws,
-- and the tests use whole numbers for it. The listeners, connections and servers of other packages
-- are parameters; what the program does to them is a list of the calls that open and close them.
--
-- The goroutines of serve-turn are a list of events, each of which the state of the errgroup
-- allows or not; what package context, errgroup and net/http document of a cancelled context, of
-- the first error and of Shutdown is in the step. Shutdown returns after its ten seconds at the
-- latest, so that its event can always happen once it has begun.
--
-- Not modelled: log lines, the help texts of the commands, and what probe, destroy and ice-config
-- print, which is formatting of values that the model has.
pub mod Prelude
pub mod Int
pub mod Result
pub mod Text
pub mod Clock
pub mod Map
pub mod Relay
pub mod Quota
pub mod RateLimit
pub mod Auth
pub mod Regions
pub mod Health
pub mod Config
pub mod ControlApi
pub mod FlyDeploy
pub mod ContainerImage
pub mod Cli
pub mod Metrics
pub mod Sockets
pub mod TurnServer
