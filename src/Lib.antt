-- ===== src/Lib.antt =====
-- The core logic of the gateway of trade-gate: which judgments a model may make and what they
-- cause, how strategy threads follow the facts of the exchange, what needs a human and how often a
-- confirmation works, in which order model calls run, which candles are fetched and shown, how the
-- runtime opens and protects a position and changes its settings, and the exchange that is
-- simulated for paper trading.
-- It is in packages/gateway/src/demo, but for the state machines, in packages/contracts/src.
--
-- The parts and their files:
--   Graph    graph.ts, the judgment graph. Types and Data hold its tables, Lookup `nodeFor`,
--            `allowedActions`, `edgeFor`, `eventEdgeFor` and `guardIdForGate`, Validate
--            `validateGraph`; Validity and Safety prove.
--   Gates    gates.ts: Evaluate has `evaluateGates`, Sizing `floorToStep` and `computeSizing`,
--            Guards `guardsFromGates`. Laws ties the names of the gates to the guards of Graph.
--   Threads  threads.ts. Types has `StrategyThread` and `newThread`, Facts the facts of a pass and
--            the tests on them, Reconcile `reconcileThread` (one definition for each branch),
--            Review `allowedReviewActions` and `reduceReview`, which look edges up in Graph, and
--            Opening `isOpen` and `openingBlockers`, with the steps of a set of threads.
--   Confirm  confirm.ts. `ConfirmationStore` is the map of its tokens, passed from call to call;
--            Patch is `splitWorkflowPatch`.
--   Queue    queue.ts. `BrainQueue` is a record; `enqueue`, `progress` and the end of a job are
--            steps, each with the part of `drain` that runs before the next `await`.
--   Klines   klines.ts. Spans has `mergeSpans` and `missingSpans`, Bars `mergeBars`, `sliceBars`
--            and `spansFromBars`, Window `lastClosedIndex` and `visibleWindow`.
--   Paper    execution.ts: `PaperBackend`, the simulated exchange. `Paper` holds its fields, passed
--            from call to call; Fills, Orders, Tick, Account and Snapshot have its methods, Steps the
--            histories of calls, Valid the well-formed states; the other files prove.
--   Workflow  workflow.ts. Values has JSON values and what the language makes of them, Texts the
--            patterns, Types the settings, Fields and Readers how a key is read, Patch
--            `applyWorkflowPatch`, Load the launch commands of `loadWorkflow`; the others prove.
--   Runtime  runtime.ts. Settings is `setWorkflow`, Proposals the proposals of settings, World the
--            state that the handlers share and `nextLegCid`, Stops and Protection
--            `placeProtection`, Preflight `preflightOpen`, Sending and Entry `executeOpen`, which
--            ends in Protection, Approval `approveIntent` up to what it runs and `rejectIntent`,
--            Closing `newIntent`, `cancelEntry`, `closeThreadNow` and `closeThread`, Halt `halt`
--            up to the poll of the account and `resume`.
--            Proposals use Workflow and Confirm, an entry Gates and Threads.
--   Outcome  outcome.ts. Trade is one trade bar by bar (`openTrade`, `tradeR`, `stepTrade`),
--            Simulation `findFill` and `simulateOutcome`, Missed `missedMove`.
--   Transitions  transitions.ts and generated/transitions.ts: Tables the four tables, Machine
--            `machines`, `canTransition`, `nextState` and `isTerminal`.
--   Dict     the `Map` and the plain object of the language, as lists of entries in the order of
--            insertion.
--   Numbers  the floats of the language, an argument of the model. A theorem that needs laws of
--            them has these as hypotheses.
--   Prelude  names of the libraries, equality tests, lists over native numbers, sorting.
--
-- Times and counts are natural numbers. Decimal texts stay texts, and what the code computes from
-- them with floats goes through Numbers. A field that may be missing or `null` is an option. The
-- clock and the random nonce of a confirmation are arguments, one for each reading. Texts that only
-- people read (messages, reasons, descriptions) are left out, but for the close reason that a
-- thread keeps. The index of the binary search stays below 2 ^ 31, so `>> 1` halves it.
--
-- Loops are recursions on their lists; only the binary search runs on fuel, the number of bars,
-- which is enough because each round shortens the range that is left.
--
-- A patch of the settings is a JSON value. `String(v)`, `Number(v)`, trimming and upper case are
-- arguments of the model, as the tables of characters and the reading of numbers are not here; the
-- patterns of the source are tests on the codes of a text. An error of a patch is its key.
--
-- A handler of the runtime stops at each `await`. The reply is an argument of the model, and so is
-- what other handlers do to the shared state meanwhile, any function of it; a theorem that needs
-- something of these functions names it. What the source asks of an error's text by patterns is an
-- argument too, and so are the hashes and the digits of a number. The calls of an entry are listed
-- with the state in which they are made.
--
-- The objects that the simulated exchange keeps are told apart by number. What `JSON.parse` gives
-- back from the store is the argument of `restore`; the round trip through the text is a parameter
-- (`Json`), of which only the numbers that it keeps are used.
--
-- Not modelled: network, file system and SQLite access, the other execution backends, symbol rules,
-- `estimateCallsPerHour`, the text of the default playbook, the keys of stored settings other than
-- the launch commands, hashes, and the Mermaid and Markdown output of the graph. Of the runtime:
-- its schedules and prompts, the polling of the account, logs and activities, reducing, the
-- switch of the backend, what follows a halt at a restart, backend calls that throw where the
-- source does not catch it, and the mark that a channel's protection failed
-- (`invalidateProtection`).
pub mod Prelude
pub mod Dict
pub mod Numbers
pub mod Klines
pub mod Queue
pub mod Confirm
pub mod Graph
pub mod Gates
pub mod Threads
pub mod Transitions
pub mod Outcome
pub mod Paper
pub mod Workflow
pub mod Runtime
