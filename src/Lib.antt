-- ===== src/Lib.antt =====
-- Verification of the agent harness: the turn of an agent with its tools, limits and history.
--
-- A host hands the harness providers, tools, stores and a policy. A turn loads the session, trims
-- its history to the window of the model, asks the provider with retries, settles each tool call
-- by the policy, and counts rounds, tokens and cost. Numbers that the source keeps as int64 are
-- integers here, and an operation that can leave their range wraps or saturates as the code does.
--
-- Base holds lists, association lists, integers and machine words that the parts share.
--
-- Core is the data of internal/core/session.go (Core.Message), config.go and ports.go
-- (Core.Config). A Go string type with named constants is a data type with a constructor `other`
-- for any further text. An instant or a duration is its number of nanoseconds.
--
-- Policy is internal/engine/policy/policy.go, the gate of policy_gate.go, effectivePolicy of
-- engine.go and effectiveToolTimeout of loop.go. Policy.Glob models path.Match of the standard
-- library on code points: the source calls it for its globs. Names of tools are taken as ASCII; on
-- other names the star of the library also stops inside a code point, which is not modelled.
--
-- Budget is internal/engine/budget/budget.go, the limits of a turn.
--
-- Cost is internal/engine/telemetry/cost.go. The float of bytes per token is the fraction it
-- stands for; the two divisions round as float64 does (Base.Float).
--
-- Retry is internal/platform/retry/retry.go and internal/platform/providerhttp/retry.go. The
-- operation, the wait and the random factor of the jitter are parameters. The doubling loop and
-- the attempts loop run on the counts that bound them in the code.
--
-- Window is internal/engine/window.go. The removal loop runs on fuel, the number of blocks: each
-- round removes one, and Window.Removal shows that the loop stops before the fuel does. Sums of
-- tokens wrap, and the trigger compares floats (Window.Trigger).
--
-- Snapshot is internal/engine/session/session_snapshot.go and the types of
-- contracts/gen/session.go. Snapshot.Base64 models base64.StdEncoding of the standard library; the
-- marshaller of JSON values of other types belongs to these and is a parameter. An int has 64 bits.
-- A nil list and an empty one are one list here; raw JSON keeps the difference.
--
-- Turn is internal/engine/loop.go with checkpoint.go, policy_gate.go, tool_result.go, parallel.go,
-- cache.go, memory_context.go and what audit_emit.go does in a turn. A command changes a World: the
-- session, the trace of what the host can see, and how often the clock and the generator of ids were
-- read. The Host, and the other ports in the Engine, answer by the whole trace before, so a theorem
-- holds for ports that fail whenever they like. Turn.Results, Checkpoint, Calls, Recovery and
-- Parallel settle calls; Memory, Caching, Spending, Perform, Ask, Rounds and Begin are the steps of
-- runTurn around them. The order in which the goroutines of parallel calls reach their tools is a
-- function of the Engine. The loop of a turn runs on fuel, one round more than the limit on
-- iterations of the request: a round that goes on spends one, so Turn.Bounded shows that the fuel is
-- enough. Where
-- the source returns an error beside a part of a result, the model keeps the error.
-- Turn.Frame, Runs, Settling, Robust, Lasting, Opening, Whole and Blind show which facts a command, the
-- loop and a whole turn keep; Warrant, Licence, Plans and Secure are about permissions, WriteAhead,
-- Resumed, Durable and Replay about durable turns; Answers, Replies, Outcomes and Gather about the
-- answers of the calls.
--
-- Media is internal/engine/media/media.go. MIME types are compared over code points; the lower case
-- of the standard library is written out where it yields ASCII.
--
-- Route is the choice of models and the chain of fallbacks of internal/engine/provider_route.go. The
-- answers of the rate limit and of the providers are parameters, which may depend on all attempts
-- before.
--
-- Cache is internal/engine/semcache/cache.go; Cache.Store is adapters/cache/inmem/store.go. The
-- similarity of two vectors and SHA-256 are parameters. A score is the bits of its float, in the
-- order of the floats.
--
-- Agents is internal/engine/agents/agents.go and source.go: the tool that delegates a task, and the
-- filter of the tools of an agent. Facade.Entry runs the delegated task.
--
-- Setup is internal/engine/config_validate.go and New of engine.go: the defaults, the decorators and
-- the checks of a configuration. A port that is only there or not is a Boolean.
--
-- Limit is internal/engine/ratelimit/bucket.go and acquireRateLimit of provider_route.go. The
-- operations of float64 that a bucket makes are an interface, with the laws on order and rounding
-- that Limit.Fair takes as a hypothesis.
--
-- Memory is adapters/memory/inmem/store.go, the facts of the users. Memory.Contract is its abstract
-- view, a map from a user and an id. Memory.Retriever is adapters/memory/inmem/retriever.go, whose
-- embedder and similarity of vectors are parameters; the embedder sees how many calls it had before.
-- The map of documents is a list of users with theirs, no user twice. Memory.Index is about its
-- vectors, Memory.Ranking about its answers.
--
-- Redaction is internal/engine/telemetry/redact.go, over trees of JSON. The reader and the writer
-- of JSON belong to the standard library and are parameters, and so is the lower case of a code
-- point.
--
-- Stderr is internal/platform/proc/stderr.go, the lines of a child process in the log. Each turn of
-- the loop of Write but the last takes a line feed, so a fuel of the number of bytes is enough
-- (Stderr.Chunks).
--
-- Facade is internal/engine/engine.go: which runs and resolutions start a turn, and on which session
-- (Facade), and Run, ResolveConfirmation, Session, Close and RunSubAgent around the turn
-- (Facade.Entry). The store, the clock and the generator of ids are in the Desk before a turn starts.
-- The delegated run is a run of its own: the turn of the parent sees it as a source of tools.
--
-- Not modelled: the providers' wire formats and streams, the MCP client, the embedder, the
-- configuration file, the other platform helpers for processes, schemas and traces, the commands and the
-- generated validators, which are input and output or glue over libraries; the session store in
-- memory, whose clones share a checkpoint, and the retriever; the fields of audit events and the
-- middleware of the handler. Operations under a mutex are single steps, and the goroutines of a turn
-- interleave only by the order in which they reach their tools.
mod Base
pub mod Core
pub mod Policy
pub mod Budget
pub mod Cost
pub mod Retry
pub mod Window
pub mod Snapshot
pub mod Turn
pub mod Media
pub mod Route
pub mod Cache
pub mod Agents
pub mod Setup
pub mod Limit
pub mod Memory
pub mod Redaction
pub mod Stderr
pub mod Facade
