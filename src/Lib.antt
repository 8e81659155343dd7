-- ===== src/Lib.antt =====
-- The token application and the custom endorser of the Fabric-X samples, modelled and verified.
--
-- The program. `tokens/` is an application of three kinds of node. An owner (`tokens/owner`) holds
-- wallets: it transfers and redeems tokens, locks them in a hash time-locked contract, claims and
-- reclaims them, and answers for balances and past transactions. An issuer (`tokens/issuer`) issues
-- tokens. An endorser (`tokens/endorser`) deploys the public parameters. Each has a REST server
-- (`routes/routes.go`, and `routes.gen.go`, which is generated) over a service (`service/`) that runs
-- views in the Fabric Smart Client; `tokens/common` has views and helpers that they share.
-- `custom-endorser/` is an endorser service with an executor of its own (`service/service.go`,
-- `cmd/endorser`), its configuration (`config/config.go`) and a command-line client (`cmd/client`).
--
-- The model. Go has a call as a function from the history of the calls of external code, newest
-- first, to an outcome (a value, an error, a panic) and the longer history; `Go.antt` has its steps.
-- External code (the token SDK, the Smart Client, the Fabric-X SDK, files, JSON) is a record of answers
-- that depend on the history: `Tokens.Platform`, `Tokens.Endorser.Services`, `Tokens.Node.Node`,
-- `Tokens.Node.Sdk.Container`, `Tokens.Owner.Server.Reader`, `Endorser.Types.Platform`.
-- Nothing is assumed of the answers, except where a theorem says so. Calls that change something are in
-- the history; calls that only read are not. A session (`Tokens.Sessions`) is a sequence of whole views.
-- Clients that send requests at the same time (`Tokens.Http.Together`) each have a history and a platform
-- of their own: what the others do shows only in its answers.
--
-- Where each part is modelled:
-- - Prelude and Go: shared helpers, and Go's calls.
-- - Tokens.Int, Types, Platform, Calls: int64, the values and the calls of the token SDK.
-- - Tokens.Settlement, Contents, Sessions: what a history says of a transaction: whether it was committed,
--   and what it moves; sequences of views.
-- - Tokens.Owner.Server.Life, Tokens.Http.Together: sequences of requests and of views that respond, and
--   several of them at the same time.
-- - Tokens.Http: what the generated servers of tokens/*/routes/routes.gen.go share: `NewStrictHandler`,
--   replies and answers; Mux: `http.ServeMux`; Patterns: when a request reaches an operation; Cors:
--   `WithAnyCORS` of tokens/common/fsc.go; Tells and Reports: what answers say of the ledger.
-- - Tokens.Owner.Contents, Owner.Server.Moves, Issuer.Contents, Common.Contents: what the requests and
--   the views move; Owner.Progress: a lock that goes through; Owner.Acceptance and
--   TwoNodes: which locks an owner accepts, and what its node and the one of the sender agree on.
-- - Tokens.Owner.Server, Issuer.Server, Endorser.Server: the wrappers, the strict handlers and the routes
--   of the routes.gen.go of each node, from a request to its answer (`Lock` of the wrapper is
--   `lock_operation`, `Lock` of the strict handler `strict_lock`); Tokens.Routing: the paths of
--   tokens/swagger.yaml.
-- - Tokens.Node: `StartFSC` and `BindEndorsingIdentities` of tokens/common/fsc.go and the main functions
--   of tokens/owner, tokens/issuer and tokens/endorser; Node.Sdk: tokens/common/sdk_*.go;
--   Node.Registrations: the views that a main function registers.
-- - Tokens.Common: tokens/common/views (`ServiceOpts`, `TxOpts`, `AssertTokens`, `AcceptCashView`,
--   `IssueCashView`, `RedeemView`, `IssuerRedeemAcceptView`).
-- - Tokens.Owner.Balances, History, Transfer, Redeem: tokens/owner/service/fsc.go; Lock:
--   htlc_lock.go (`LockAcceptView` is `lock_accept_call`); Unlock: htlc_claim.go and htlc_reclaim.go; ParseUint: `strconv.ParseUint(s, 0, 64)`.
-- - Tokens.Owner.Routes: tokens/owner/routes/routes.go (`Lock` is `lock_tokens`, and so on).
-- - Tokens.Factories: the view factories of tokens/common/views and tokens/owner/service.
-- - Tokens.Issuer: tokens/issuer/service/fsc.go and routes/routes.go.
-- - Tokens.Endorser: tokens/endorser/service/fsc.go and routes/routes.go.
-- - Endorser.Text, Config: custom-endorser/config/config.go; Executor: cmd/endorser/executor.go;
--   Service: service/service.go (`Run` is Service.Running.run_service); Main: `run` of cmd/endorser/main.go; Client: cmd/client/main.go;
--   Programs: the two main functions; EndToEnd: the client with the endorser.
--
-- Bounds. A uint64 sum is taken modulo 2 ^ 64 and a product of int64 values wraps around. Loops recurse
-- on the list that they run over. The digits of a number are written with the number and one more as
-- fuel, which is enough since each step divides by ten. `WaitForReady` runs on the list of what happens
-- round by round, and `none` is that it still waits.
--
-- A request is the unescaped segments of its path, its query and its body; `http.ServeMux` is
-- modelled for patterns of a method, literals and wildcards. A life of a node is a sequence of
-- requests and of views that respond to other nodes, one after another. The goroutine of the HTTP
-- server and the wait for a signal, in the main functions, are one step.
--
-- Not modelled: logging, contexts and deadlines of calls, JSON and the binding of parameters (given
-- by a Reader), views of one client that run at the same time, and the set-up of cobra and of
-- flags: the command line is given as cobra parses it. An error is a text and what it wraps; parts of a text that only print a value are
-- left out. Byte slices that the endorser converts to strings are texts, and the status of a
-- response is not negative. An empty hash and no hash are the same. What two nodes send each other is a
-- hypothesis where a theorem is about both.
pub mod Prelude
pub mod Go
pub mod Tokens
pub mod Endorser
pub mod Tests
