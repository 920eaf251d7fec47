-- ===== src/Lib.antt =====
-- Starfly: models and theorems of the identity fabric's core.
--
-- The program exchanges credentials for short-lived tokens (RFC 8693). pkg/exchange/engine.go is
-- its centre: Exchange validates a workload through an identity provider, consults the revocation
-- index and the policy, follows delegation chains (delegation.go), checks proofs of possession
-- (dpop.go), execution scopes and their nonces (execution.go) and attestations (attestation.go),
-- fetches secrets (pkg/secrets), and signs a token with the active key of a keyring (keyring.go).
-- Beside it, pkg/mcp/workflow.go keeps the graphs of the tasks that agents execute, and
-- pkg/audit/ledger.go the hash-chained ledger of their execution tokens; pkg/signals/revocation.go
-- is the revocation index that the exchange consults. pkg/toolcall verifies the tokens that agents
-- present with their tool calls, under keys that pkg/jwks/cache.go fetches and caches.
-- pkg/lifecycle/rotation_workflow.go rotates the keyring that the exchange signs with, and
-- pkg/signals/receiver.go turns the security events of other units into revocations.
-- pkg/federation/resolver.go finds the keys of other fabrics.
--
-- Files, by the code that they model:
--   Prelude, Dict, Claims        library names, results, lists; Go maps; JSON values and claims
--   Exchange/Request             the request types of pkg/core/interfaces.go
--   Exchange/Delegation          pkg/exchange/delegation.go; its child Radius has the blast radii
--   Exchange/Nonce, Scope        pkg/exchange/execution.go
--   Exchange/Attestation, Dpop, Keyring, CredType
--                                the files of these names, and mapCredType of engine.go
--   Exchange/Engine              Types (configuration, world, errors), Policy (the policy input),
--                                Gates (the checks), Delivery (deliverSecrets), Mint (the token),
--                                Events (audit events), Run (Exchange itself)
--   Secrets                      pkg/secrets/source.go and encrypt.go
--   Mcp/Workflow                 pkg/mcp/workflow.go
--   Audit/Ledger                 pkg/audit/ledger.go
--   Signals/Revocation           pkg/signals/revocation.go
--   Signals/Event, Receiver      pkg/signals/receiver.go: the parsing of SETs, and their processing
--   Federation/Types, Resolver   pkg/federation/types.go, resolver.go and jwks.go
--   Lifecycle/Temporal           activities with retries, as the workflow engine runs them
--   Lifecycle/Rotation           pkg/lifecycle/rotation_workflow.go over Exchange/Keyring
--   Jwks/Cache                   pkg/jwks/cache.go
--   Toolcall/Types, Registry     pkg/toolcall/types.go and registry.go
--   Toolcall/Verifier            pkg/toolcall/verifier.go: Identity (extractIdentity), Checks (the
--                                constraints of a tool), and the phases of Verify
-- The modules Laws, Replay, Granted, Delegated, Indexed, Quiet, Silence, Outcome, Sealed, Graph,
-- Histories, Lookup, Parse, Bound and the like below them hold proofs, and the modules
-- Tests hold runs and instances.
--
-- An exchange is an action on a world that holds the nonce tracker, the audit log, the flashed
-- signals, the notices and the counters. Its steps stand in the order of the source; a guard of
-- the source is a test, an error a value. Go's maps are association lists, times are numbers of
-- nanoseconds, and each reading of the clock is an argument. Methods that hold one mutex are
-- atomic, so an interleaving of them is a sequence of calls.
--
-- The identity provider, the policy engine, the JOSE libraries, the revocation index, the bus and
-- the stores are parameters of the engine; Exchange/Engine/Indexed gives it the index of the model.
-- Telemetry spans and log lines are left out, and so is the failure of setting a private claim on a
-- token, which the JWT library does not report.
-- Not modelled: the HTTP layers, the identity providers, the policy engine, the NATS wrappers, the
-- operator and the command line, which are glue over such code.
-- The recursions of the models are structural, so there is no fuel but the program's own limit of
-- 10,000 steps on the search among the ancestors of a task.
mod Prelude
pub mod Dict
pub mod Claims
pub mod Secrets
pub mod Exchange
pub mod Lifecycle
pub mod Mcp
pub mod Audit
pub mod Signals
pub mod Federation
pub mod Jwks
pub mod Toolcall
