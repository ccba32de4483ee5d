-- ===== src/Lib.antt =====
-- NiteJaguar, a distributed workflow engine. A server keeps workflows, results, clients, users and
-- the relay of file transfers in its database; clients run the nodes that are for them and report
-- the results, which the engine routes on.
--
-- Parts of the program, and the files that model them:
-- - common/common.go, common/retry.go: ResultData (ResultData), MergePayloads (Merge), and the retry
--   decorator's attempt, backoffFor, isFailure, synthError and Execute (Retry). An attempt gets what
--   its select statement receives, in order, as a list; a round also says whether Stop comes during
--   the wait. The loop runs on fuel, one round for each of its 1 + Max attempts.
-- - common/refpath.go and internal/workflow/condition.go: reference paths (Reference) over values
--   of type any (Value), and the conditions of routes (Condition).
-- - common/template.go: the templates of a text (Template), splitUnquoted and unquoteArg
--   (Template/Quotes), EvalTemplate with the filters (Template/Filters), ExpandTemplates
--   (Template/Expand) and ExpandJSONTemplates (Template/Json). The pattern of a template is matched by
--   functions of the model.
-- - internal/workflow/workflow.go: AssignedTo, EffectiveTarget, NodeAssignedTo, EvaluateRouting and
--   dispatchNexts (Workflow), CloneWorkflowJSON (Workflow/Clone); IngestResult (Ingest/Call) with what
--   it looks up (Ingest), over the assignments and results that internal/database/database.go keeps
--   (Assignments).
-- - internal/database/transfers.go: the tables of the relay and their operations (Relay); the HTTP
--   handlers of internal/server/transfers.go call them behind their guards (Server); the sender of
--   internal/client/transfer_runner.go calls the handlers (Transfer), and so does DownloadFileRelay of
--   internal/client/transfers.go (Transfer/Download), for which the server may change between two
--   requests. The sender's loop runs on as much fuel as the file has bytes and one more: each round
--   but the last sends a byte at least. The download's loop runs on 513, since each round that goes on
--   takes one of 512 chunk numbers.
--   Relay/Refinement says what a transfer is to its participants, without the tables.
-- - internal/client/client.go and internal/client/transfer_runner.go: the runner of a client, which
--   starts the assignments that the server hands to it, with its cache of credentials (Runner), and
--   installs the workflows that the server lists (Runner/Sync); the identity that it saves
--   (Runner/Identity).
-- - internal/database/database.go, internal/server/clients.go: clients and enrollment tokens
--   (Registry); internal/database/tenants.go: tenants and their suspension (Tenants), slugs
--   (Tenants/Slug), creation and deletion (Provision);
--   internal/database/auth.go: users and login sessions (Auth);
--   internal/database/credentials.go, common/credential_types.go and FetchCredential of
--   internal/server/credentials.go: secrets, what a reference means and who gets it (Credentials);
--   common/providers.go: the collections of actions (Providers).
--
-- State is passed explicitly: an operation returns its result or error and the tables behind it. A
-- table is the list of its rows, oldest first; a Go map is an association list. Ids, times, random
-- tokens and the hashes of the Go library are arguments. Sizes are native numbers, an int64 that
-- may be negative is an integer, and where arithmetic can overflow it is written with its wrap
-- (`double64`). Texts that are walked are lists of codes; identifiers are native strings.
--
-- Not modelled: failures of the database itself, concurrent calls (each operation is one step), the
-- peer-to-peer transfer, the loop and the transfer inbox of the client, the encryption of credentials
-- and the handlers that edit them, the minting of enrollment tokens, what an action does, the web
-- interface, and the code that ent generates.
pub mod Base
pub mod Value
pub mod Result
pub mod ResultData
pub mod Relay
pub mod Template
pub mod Tenants
pub mod Registry
pub mod Server
pub mod Transfer
pub mod Retry
pub mod Reference
pub mod Condition
pub mod Workflow
pub mod Assignments
pub mod Merge
pub mod Ingest
pub mod Auth
pub mod Providers
pub mod Provision
pub mod Credentials
pub mod Runner
pub mod Samples
