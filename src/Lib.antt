-- ===== src/Lib.antt =====
-- Agent Key Vault: just-in-time access. An agent asks to run an operation of the catalog on a target;
-- a user approves it, which makes a grant for one execution; the execution proxy claims the grant,
-- runs the operation with the target's credential, and reclaims what it used.
--
-- The library models the lifecycle of tasks, requests, grants, executions and reclaims, the accounts
-- of users and agents, the catalog, the compilation of operations, and the execution proxies:
--   Domain     internal/domain/status.go: the statuses and their transition tables.
--              Domain/Paths closes them under steps, with the retry of a failed reclaim. Values has
--              what rows are made of, Catalog the records of internal/catalog/{service,operation}.go,
--              Accounts those of internal/identity/service.go and internal/agent/service.go.
--   Store      internal/store/{task,request,authorization,execution,lifecycle,catalog,operation,
--              identity,agent}_postgres.go. Tables has
--              the rows and the database; Action the effects of a repository method (SQL statements
--              that may fail, transactions that roll back); Statements one kind of statement for each
--              table, with its SQL constraints. Tasks, Authorization, Claims, Execution, Recovery and
--              Lifecycle have one definition for each method, under the method's name, and one for
--              each SQL condition that is more than a line. Catalog has targets and credentials, with
--              Catalog/Operations and Catalog/Finds for operations; Accounts has users and sessions,
--              with Accounts/Agents for agents. Evolution says how each method may change
--              the database, and History is any sequence of method calls.
--   Service    internal/task, internal/lifecycle, internal/authorization/{approval,claim}.go,
--              internal/identity/service.go, internal/agent/service.go and, in part,
--              internal/catalog/{service,operation_service}.go (Catalog): the services as they call the
--              store. The services of the control API and of the proxy meet
--              only in the database, so a history of store calls covers both processes.
--   Proxy      internal/proxy/{http,postgres,sign,redactor,reclaim,server}.go and internal/vault/boundary.go.
--              A Machine is the database and the trace of the effects outside it, which the
--              environment answers. Plan is the plan of a request, Prepare what the proxies share (the
--              way to an execution, and its finalization), Vault the access to a credential, Sign, Http
--              and Postgres the proxies, Redactor what a response is cleared of, and Server the
--              handler that authenticates the agent and picks a proxy.
--   Operation  internal/operation/{schema,template,compile}.go: public schemas, arguments and private
--              templates. Documents has the exact keys of the documents and `parseSchema`, Schema the
--              checks of a property, Arguments those of the agent's input, Template, Path, Headers and
--              Http those of a template, and Compile the operation that results.
--   Prelude    Boolean tests on numbers, tables as lists, rows that change along a relation.
--   Examples   the theorems at concrete inputs.
--
-- Identifiers are numbers, since they are only compared, and 0 is the empty string. Times are
-- nanoseconds after an epoch, which is more than 45 seconds before the first reading of the clock, and
-- are taken to be whole microseconds, as timestamptz columns keep them.
-- Byte strings are lists of numbers; in Operation a text is the list of its code points. The clock and
-- the generators of identifiers are arguments; a generator that fails is `none`. `faults` says which of
-- the coming statements the driver fails. A repository method is one step: its transaction, or its one
-- statement, is atomic; an interleaving of processes is a sequence of steps, and no row is locked
-- between them, so `SKIP LOCKED` skips nothing. So transactions, which the code opens at READ
-- COMMITTED, are taken to be serial, and a Commit that returns an error to have rolled back.
-- Loops run over lists, so they are by structural recursion. Only the decimal digits of an integer
-- (`digits`) are on fuel, 20, which is enough since an int64 has at most nineteen.
--
-- Not modelled: the audit triggers of the migrations (the audit rows that the Go code writes are),
-- error messages, the JSON reader, OpenBao, and the network: what they answer is a parameter, which
-- may depend on all effects before. Contexts are modelled by what `ctx.Err()` is after a failure, so
-- the cancellation registry is left out. The execution server is taken to have all its proxies.
-- SHA-256, bcrypt, the result of an OpenBao revocation, the float64 operations, base64 and
-- json.Marshal are parameters; a configuration of a target is stored as the fields of its JSON.
-- Listings of whole tables for the web interface, the creation of targets and the publication of
-- versions by the catalog's services, the submission of requests, the web interface and observation
-- are not modelled.
pub mod Prelude
pub mod Domain
pub mod Store
pub mod Service
pub mod Proxy
pub mod Operation
pub mod Examples
