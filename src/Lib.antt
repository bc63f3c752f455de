-- ===== src/Lib.antt =====
-- A model of the request path of zk-api, a server that sells API calls for zero-knowledge proofs of
-- credit, and theorems on it.
--
-- A client holds a note, and each request carries a proof, a nullifier N, an RLN signal (x, y) and a
-- rerandomised accumulator of refunds. The handler checks the request, records (N, x, y), calls the
-- provider, and answers with a refund and the next accumulator, signed. Two signals under one nullifier
-- reveal the note's key, which slashes it.
--
-- The parts and their sources:
-- Client: scripts/client/note.ts, the note's file and what the client does with it; Client/Folding,
--   Client/Acceptance and Client/Requests have the theorems on the client and the server together.
-- Exits: src/longjing/exit-watcher.service.ts.
-- Blockchain: src/longjing/blockchain.service.ts with contract-ready.guard.ts. The connection is a state
--   machine: its phases are the awaits of onModuleInit and connectProd, and an event answers an await,
--   fires the timer or calls a method, in any order. Blockchain/Consistency has what holds between any
--   two events, Attempts how an attempt ends, Handlers the handlers that wait, Closing what an attempt
--   under way does, and Watch the watch over exits.
-- Config: src/config/profile.ts and env.validation.ts, src/keys/key-policy.ts and selectRpcUrl of
--   src/longjing/chain.ts, with the environment as an association list of texts.
-- Attestation: src/attestation, what a client checks. Quote is tdx-quote.ts and composeHashFromEventLog,
--   ReportData report-data.ts, Binding key-binding.ts, and Governance app-governance.ts.
-- CostEstimation: src/longjing/cost-estimation.service.ts, with its cache as a list in the order of
--   insertion.
-- Longjing: longjing.service.ts of src/longjing. Longjing has the checks of handleRequest, and
--   Longjing/Serve what follows them; the theorems are in Longjing/Checks, Spending, Endings, Refunds and
--   Retries. Longjing/Server runs requests, exits and cleanups one after another.
--   World is the state of all services that a request changes, Env what it asks of the outside.
-- Nullifiers: src/longjing/nullifier-store.service.ts, the table as an association list with the
--   nullifier as its key, the rate limit and the kept responses.
-- Verifier: src/longjing/proof-verifier.service.ts and the conversion in snarkjs-proof.service.ts.
-- Limiter: src/longjing/utils/concurrency-limiter.ts and compute-limiter.service.ts. A run of many
--   tasks is a sequence of steps, as `active` changes only in the synchronous parts of run.
-- Signal: src/longjing/utils/payload-signal.util.ts, with BigInt's reading and printing of texts.
-- Field, Accumulator, Slashing: the field arithmetic, src/longjing/accumulator.ts and
--   slashing.service.ts, over any field order.
-- EthRate, Pricing, Quantization, Padding: eth-rate-oracle.service.ts; of src/pricing, claude-pricing.ts,
--   pricing-oracle.service.ts (Pricing/Oracle and Pricing/Service) and pricing.repository.ts
--   (Pricing/Repository); and cost-quantization.util.ts and
--   response-padding.util.ts of src/longjing/utils.
-- Providers: of src/providers, core/base.provider.ts (Providers and Providers/Requests), claude/claude.provider.ts
--   (Providers/Claude and Providers/Execution) and registry/provider-registry.service.ts (Providers/Registry).
-- Exceptions: src/filters/tee-exception.filter.ts.
-- Common: shared types, tests on numbers, lists, dictionaries, integers, and methods that may throw.
--
-- Numbers: amounts in dollars are whole micro-dollars and rates are in 1e-8 dollars, where the source
-- has floating point; a bigint difference is an integer. Time is a number of milliseconds that each
-- operation takes as an argument.
--
-- Bounds: the loops over an exponent recurse on accessibility, so they have no fuel. The search for a
-- power of two has n rounds of fuel for n bytes, which is enough since n is at most 2 ^ n. The loop over
-- block ranges has one round for each block, which is enough as a round moves on by at least one block.
--
-- Not modelled: SHA-256, Poseidon, EdDSA, snarkjs, the chain, SQLite's files, HTTP and Anthropic's client
-- are parameters or left out, and so are URL parsing, class-validator, base64, JSON and ethers. The request
-- handler takes the provider as a parameter. The server's own side of the attestation, key derivation,
-- encryption, TLS, health and logging are not part of the model.
pub mod Common
pub mod Nullifiers
pub mod Limiter
pub mod Signal
pub mod Field
pub mod Slashing
pub mod Padding
pub mod Quantization
pub mod Pricing
pub mod EthRate
pub mod Attestation
pub mod Blockchain
pub mod Config
pub mod CostEstimation
pub mod Accumulator
pub mod Exceptions
pub mod Verifier
pub mod Providers
pub mod Longjing
pub mod Client
pub mod Exits
