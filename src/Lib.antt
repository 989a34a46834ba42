-- ===== src/Lib.antt =====
-- Traefik 1.3.8, a reverse proxy and load balancer written in Go: providers send configurations of
-- frontends and backends, the server turns them into routers, and middlewares and health checks act
-- on the requests and servers. Paths are those of the repository, below traefik-1.3.8/.
--
-- The files and the code that they model:
--
-- - Base and below: Go's strings (as lists of bytes), maps (as association lists) and the functions
--   of package strings that the program calls. Of the Unicode white space and letters with two
--   cases, those of ASCII are modelled: texts are taken to be ASCII. An iteration over a map goes
--   through its entries in the order of the list, which Go leaves open.
-- - Rules/Syntax: the table of rule functions and parseRules (server/rules.go). The callback is a
--   function on a state, which comes back beside an error too. Rules/Route: the rule functions,
--   Parse and ParseDomains, and getRoute of server/server.go; the router library is the parameter
--   Mux, whose calls configure a route. A nil route that is used is an error of its own.
--   Rules/HostPort: net.SplitHostPort. RoundTrip, Failures and Sizes hold the proofs.
-- - Middlewares/Paths: StripPrefix, StripPrefixRegex, AddPrefix and ReplacePath (middlewares/*.go),
--   as functions from a request to what is served. Middlewares/Chain: wireFrontendBackend of
--   server/server.go. Middlewares/Retry: retry.go; the loop takes fuel, one round more than the
--   attempts allowed, and Attempts shows that this is enough. Middlewares/Stats: stats.go.
--   Stripping, Wiring, Attempts and History hold the proofs.
-- - Provider/Constraints: constraints of types/types.go and MatchConstraints of
--   provider/provider.go; the glob matcher is a parameter. ConstraintLaws holds the proofs.
-- - Provider/Cluster, Services and Ingresses: loadIngresses of provider/kubernetes/kubernetes.go; the
--   API client is the parameter Client, the answers for the time of one load. IngressUsers and
--   IngressLaws hold the proofs.
-- - Provider/Labels, Slices, Numbers, Grouping and Rendering: Normalize, Replace, ReverseStringSlice,
--   GetConfiguration and CreateTLSConfig of provider/provider.go, strconv on 64-bit integers, and the
--   grouping of a slice into maps that the providers do for their templates. The template engine with
--   the decoder of its output is the parameter Engine. Provider/Picking: what reading a slice at a
--   computed index may do; a panic is a value.
-- - Provider/Docker and below: provider/docker/docker.go. Labels, Services and Addresses hold the
--   functions that the template calls, Filters containerFilter, Listing and Swarm the reading of the
--   engine's answers, Loading loadDockerConfig, and Providing one run of the operation of Provide: the lists
--   that come while it watches are a list, in which none is one that fails. Laws and ServiceLaws hold
--   the proofs. The expression servicesPropertiesRegexp is written out as a search.
-- - Provider/Rancher, Marathon, Mesos, Ecs, Consul and Kv, and below: the files of these names under
--   provider/ (consul/consul_catalog.go for Consul), laid out in the same way, with the functions for
--   the template, the filters, the reading of the answers and the loading; modules named Laws,
--   PortLaws, Calmness, CalmLaws, ListingLaws and Tags hold the proofs. Provider/Ecs/Chunks: chunkedTaskArns, whose loop
--   takes fuel, one round more than there are tasks, which is shown to be enough. The requests to a
--   service are parameters, by their answers for the time of one load. What may be nil in an application
--   of Marathon is an option, and reading it where it is nil a panic.
-- - Provider/Eureka and Dynamo: eureka.go and dynamodb.go.
-- - Server/Config: the configuration types of types/types.go and defaultConfigurationValues of
--   server/server.go, with proofs in Defaults. Server/Throttle: listenProviders; a state holds its
--   variables and the goroutines. A round of the loop is taken for one step, although goroutines may
--   run while it sends; steps of their own are the test of a goroutine
--   that has waited, its Get and its send, between which nothing is locked; `wake` is test and Get of
--   a goroutine that is not interrupted. The steps carry the messages that the loop does not skip,
--   whatever it keeps of them. Times are numbers. Delivery, Dropping and Lateness hold the proofs.
-- - Server/Entries: the static configuration of server/configuration.go and its flags, with proofs in
--   Flags. Server/Redirects: loadEntryPointConfig. Server/Encryption: createTLSConfig and
--   CreateTLSConfig, with proofs in EncryptionLaws. Files, key pairs, the flag's regular expression
--   and the redirection library are parameters.
-- - Server/Loading, Backends and LoadSteps: loadConfig. A step gives the new state and a result, and
--   no result is `continue frontend`; no state is the panic of a route that is nil; a handler is the record of what it is built from, and a load
--   balancer is its number. The libraries are the parameter Libraries, by what they answer to the
--   calls that can fail. LoadRuns says when loading does not panic, Keeping and LoadInduction
--   carry what the steps keep through the loops; Sharing, Building, Origins and Entrances hold the results.
-- - Server/Listening: listenConfigurations, one round for a message, with postLoadConfig in it, whose
--   result is the lists of domains that it asks certificates for. A message comes with the answer of
--   the cluster's leadership; no result is a panic. Updating, Reloading and Requests hold the proofs.
-- - Health/Checks: checkBackend and SetBackendsConfiguration of healthcheck/healthcheck.go; the load
--   balancer is the parameter Balancer, with laws of the round-robin library. Rounds and Routines
--   hold the proofs.
-- - Acme/Certificates: DomainsCertificates of acme/account.go; crypto/tls and crypto/x509 are a
--   parameter. removeDuplicates takes fuel, the number of certificates, and Duplicates shows that
--   this is enough; a leaf that is nil and read is a panic. Lookup holds the proofs about adding, renewing and finding.
-- - Safe/Pool: the pool of goroutines of safe/routine.go. A task stands for a function, channels and
--   contexts are numbers, and goroutines are taken to end when they are told to and not before. What
--   the goroutines of Start read of the loop's variable is the parameter Schedule. Stopping and
--   LateStart hold the proofs.
--
-- A module whose name ends in Examples holds tests and instances of the results.
--
-- Integers that the program never makes negative are natural numbers, and do not overflow. Logging is
-- left out. A sort by sort.Sort is an insertion sort, which is one of the orders that the package
-- allows. Mutexes make a method one step.
--
-- Not modelled: the creation of the providers' clients, the backoff that repeats an operation, the
-- event loop of Marathon, the file provider, the starting and stopping of servers, the ACME protocol,
-- the web API, logging and metrics, command-line handling, and the libraries under vendor/.
pub mod Base
pub mod Rules
pub mod Middlewares
pub mod Provider
pub mod Server
pub mod Health
pub mod Acme
pub mod Safe
