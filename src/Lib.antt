-- ===== src/Lib.antt =====
-- The elevation workflow of the jitsudo control plane: users ask for a role at a cloud provider,
-- policies and approvers decide, an adapter issues a grant that ends at a deadline, and every step
-- goes into a hash-chained audit log.
--
-- Parts, and the code they are about:
--   Prelude           Boolean tests, lists by SQL clauses, int64 products, decimal text
--   Rows              the rows of the tables (internal/store/{requests,audit,policies,principals}.go)
--   World             what a call reads and writes, what answers it from outside, and the monad M
--   Store.Requests    internal/store/requests.go: CreateRequest, GetRequest, ListRequests,
--                     SetApproverTier, ListPendingAIReview, ListActiveExpired, TransitionRequest,
--                     TryAcquireSweepLock with its release
--   Store.Audit       internal/store/audit.go: AppendAuditEvent with its retries, computeHash,
--                     QueryAuditEvents
--   Store.Policies    internal/store/policies.go
--   Store.Principals  internal/store/principals.go
--   Audit             internal/server/audit/audit.go: Logger.Append and the action constants
--   Policy            internal/server/policy/policy.go: Reload, the Eval functions, CompileCheck,
--                     and Program for what a query is compiled from
--   Providers         internal/providers/{provider,validate}.go, with a child for each adapter:
--                     Mock (mock/mock.go), Gcp (gcp/gcp.go), Kubernetes (kubernetes/kubernetes.go),
--                     Aws (aws/aws.go), Azure (azure/azure.go), and Cloud for what these share
--   Workflow          internal/server/workflow/workflow.go: one child for each group of operations
--                     (Create, Approve, Ai, Revoke, Credentials, Sweep)
--   Api               internal/server/api/api.go: the RPCs with their checks and error codes,
--                     and the rows as messages (Wire)
--   Mcp               internal/server/mcp/mcp.go: ServeHTTP with its checks, the JSON-RPC dispatch, the
--                     tools over the workflow engine and the stores
--   Auth              internal/server/auth/auth.go: Verify and GRPCUnaryInterceptor before the RPCs
--   Notifications     internal/server/notifications: Posts for webhook.go, siem_json.go and slack.go,
--                     Mail for smtp.go, Syslog for siem_syslog.go
--   Config            internal/config/config.go: Load, with the settings of the environment (Settings)
--   Assembly          internal/server/server.go and cmd/jitsudod/serve.go: the notifiers, the registry and
--                     the TLS credentials that Start builds from the configuration
--   Lifecycle         the abstract view: the transitions of a request, soundness of a database,
--                     what a database may become (Evolves), runs of operations, and the service
--                     behind all its front ends (FrontEnds)
--   Tests             concrete environments and runs
--
-- The model. A Go function that returns an error is a function into M: from a World to a result and
-- a new World, where what was written before an error stays written. A World holds the tables, the
-- queries of the policy engine, the number of calls that something outside has answered, and the
-- effects (provider calls and notifications, newest first). The audit log too has its newest row
-- first. An Env answers every call by its number: clocks, database errors, cancellation of the
-- context, the compiled policies of OPA, ULIDs and SHA-256. Before each database call that is not
-- under a lock of its own transaction the other instances may change the tables (Env.others), so a
-- theorem for any Env covers faults at every call and any interleaving with other processes. A
-- quiet environment has no fault and no other instance; a cooperative one has other instances that
-- keep to the lifecycle. A transaction writes at its commit, and a commit that reports an error has
-- not happened.
--
-- The adapters. A cloud is an unknown state and a record of the calls that the adapter makes of it
-- (CrmApi, ClusterApi, AwsApi, AzureApi), each of which answers or refuses and may change the state. What the
-- adapter relies on is a record of laws (IsCrm, IsCluster, IsAzure). The laws of Cloud Resource Manager let
-- other writers work between any two calls and say what an ETag is for; those of the cluster and
-- of Azure are for the bindings and assignments that the adapter names, which nobody else writes. The workflow engine takes an adapter as a
-- parameter, the answers of its calls by their number.
--
-- Numbers. Times are nanoseconds since 1970 as natural numbers, rounded down to microseconds where
-- a TIMESTAMPTZ column stores them. A time.Duration is an int64 whose product wraps around. The
-- decimal text of a timestamp has 18 steps of fuel, so 19 digits, which is all an int64 can need.
-- Nothing else runs on fuel: the retries of an append and of a policy update are counted by the code
-- itself, and the other loops are over lists and texts. time.Time{} is 0.
--
-- Not modelled: log lines, deadlines of contexts, the scanning of rows, the nil store and the nil
-- notifier of unit tests, the goroutines that call the notifiers, and the constructors that build the clients
-- of the cloud libraries. encoding/json, time.Format and time.Parse, strings.ToLower and
-- strings.EqualFold, which rest on the tables of Unicode, the texts of errors, the YAML decoder, and crypto/tls are
-- parameters. Of the assembly of the server the listeners, the gateway and the goroutines are left out.
pub mod Prelude
pub mod Rows
pub mod World
pub mod Store
pub mod Audit
pub mod Providers
pub mod Policy
pub mod Workflow
pub mod Lifecycle
pub mod Api
pub mod Mcp
pub mod Assembly
pub mod Auth
pub mod Config
pub mod Notifications
mod Tests
