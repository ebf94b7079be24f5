-- ===== src/Lib.antt =====
-- A verification library for dingdongditch, the execution infrastructure that drives a browser for
-- a host and publishes receipts of what it could verify.
--
-- An operation is dispatched to a browser, evidence is collected, and a verdict is decided
-- (dingdongditch/runtime/executor.py) from the results of the declared expectations and their
-- freshness (dingdongditch/runtime/freshness.py); a quorum (dingdongditch/contract/quorum.py)
-- combines independent checks. A plan (dingdongditch/contract/plan.py) is a list of operations that
-- dingdongditch/runtime/plan_executor.py runs in one session until one is not verified, under a
-- deadline that a playing video may extend (dingdongditch/runtime/plan_timing.py). The authority
-- firewall (dingdongditch/contract/authority.py) decides whether a governed operation may run,
-- receipts are linked by hashes (dingdongditch/contract/receipt_chain.py), and a monitor
-- (dingdongditch/runtime/generation_monitor.py) watches a response that a page generates. A session
-- (dingdongditch/runtime/stateful_session.py) keeps a browser open across calls: it lets in only
-- the controller that holds the lease, charges what it dispatches to the budgets of its envelope,
-- commits a consequential operation only after a preparation of it
-- (dingdongditch/contract/transaction.py), hands control from one agent to another
-- (dingdongditch/contract/handoff.py), notices mutations that others make
-- (dingdongditch/contract/mutation.py), and chains every receipt to the one before it. Messages
-- between processes go through a queue of files (dingdongditch/runtime/file_queue.py).
--
-- Files, each with the code that it models:
--   Prelude      names of the libraries, Boolean tests, lists, equality, and results of code that
--                may raise (`raise_if` is `if ...: raise`).
--   Verdict, Evidence, Action
--                Verdict of contract/verdict.py, EvidenceSignal and ExpectationResult of
--                evidence/models.py, ActionType of contract/operation.py.
--   Freshness    evaluate_freshness and is_signal_fresh_for_verification; Laws relates the two.
--   Decision     _decide_verdict; Laws says what a verdict rests on. Operation is the end of
--                execute_operation, where a WebAuthn participation, a quorum and a screenshot
--                override the verdict, and Operation/Verified says what VERIFIED rests on then.
--   Quorum       VerificationQuorum and evaluate_quorum. Lookup and Counts describe what the loop
--                counts without the loop and the dict; Verdicts has the theorems.
--   Plan         PlanStepRecord and aggregate_plan_outcome; Timing is _validate_plan_timing,
--                Receipt is PlanReceipt.check_invariants and _build_receipt.
--   PlanRun      _execute_plan. Shape, Ending and Sessions follow the loop, Receipts and Refusals
--                have the theorems. The browser and execute_operation act on a world of any type.
--   Deadline     PlanTimingState, compute_video_ended_extension, apply_extension_decision; Bounds
--                is about one extension, Rounds about any number of them.
--   Authority    merge_provenance and AuthorityFirewall.decide; Rules states what an envelope
--                allows, Firewall is about the decision, Provenance about merging.
--   Network      _network_url_matches and _network_matches of runtime/verifier.py; Unique says which
--                records decide.
--   Monitor      ProgressBasedGenerationMonitor; Stability is about completion.
--   ReceiptChain the payload and the entry of the current chain version, Legacy those of the older
--                ones, Verify the verification. Verify/Laws states what is relied on, Hashes is
--                about receipts of one hash, Tamper about checkpoints, Sealing about receipts
--                that were just sealed. Json is a model of the values, with _canonical of
--                contract/authority.py for any normalization of texts.
--   Session      the record of a session, and the Host that answers it. Program has the calls as
--                programs that return or raise and leave a record. Guards (_access, _locked,
--                _require_*, _active_backend, _close_record, the mutation epoch), Firewall
--                (_firewall_decision), Dispatch (execute_operation), Transaction
--                (prepare_operation, commit_operation), Handoff (prepare_agent_handoff,
--                claim_agent_handoff) and Calls (the calls that only look, close_session,
--                cleanup_expired_sessions, and runs of any calls) are the code.
--                Governance is the state machine that a session is to follow; Follows and Ends are
--                the rules for programs, Governed and Frame apply them to each part of the code,
--                Calls/Refinement to all calls. Tokens and Leases are about the machine's tokens
--                and leases, Chain about its receipts, Transaction/Once about commits,
--                Dispatch/Budget about budgets.
--   FileQueue    AtomicFileQueue of runtime/file_queue.py; Drain is about claims in a row, Published
--                about one message.
--
-- Numbers are naturals: times are milliseconds of a monotonic clock and counts are sizes. Where
-- the source subtracts, the comparison is written without a subtraction, or the source itself
-- takes the maximum with 0. The Host of a session answers numbered questions: the n-th answer of
-- the clock, of the token generator, of the lock or of the browser is any function of n, and the
-- record counts the questions asked. An exception of a session keeps what was assigned before it.
-- No definition runs on fuel: every loop of the code goes over a list.
-- A set that the source iterates is a list in any order, a dict of results is the list of its
-- entries, and an enum is a data type where the source compares values of it. A JSON value holds
-- no bytes and no number that is not finite, so that canonical_json_bytes raises on none.
--
-- Parameters stand for code outside of the repository: floats and what a page reports of a
-- video (Floats), URL, IDNA and path reading (Readers, Urls), JSON values, their canonical
-- bytes and SHA-256 (Values), the JSON and the folder listing of a queue (Files), the signature
-- hash of the monitor, the browser (Backend), and what a session asks of the outside (Host).
-- What of the repository they stand for besides: execute_operation in PlanRun, _origin and
-- _matches_origin in Readers, canonical_json_bytes in Values, and in Host _execute_operation,
-- _capture_prepared_state, bind_secret, the identity registry, _validate_agent_id and the
-- mapping of a receipt.
--
-- Not modelled: texts and fields that no decision reads (notes, descriptions, telemetry, page
-- ids), exceptions of the browser other than a BrowserConfigError in a plan, the exclusive lock on
-- a backend supplied to a plan, the sealing of receipts, and the parts of the package that are input
-- and output or glue (browser and desktop backends, authentication, servers, adapters). Of sessions:
-- the opening of one, the binding of signed plans and of identities to it, the calls that prepare,
-- select and execute a speculation, plans and typing within it, the choice of a page, and the
-- registry of several sessions. The evaluation of the other expectation types, the verification of
-- signed plans and the leases on files stand outside of this library too.
pub mod Prelude
pub mod Verdict
pub mod Evidence
pub mod FileQueue
pub mod Quorum
pub mod Action
pub mod Freshness
pub mod Decision
pub mod Plan
pub mod PlanRun
pub mod Deadline
pub mod Authority
pub mod Monitor
pub mod Network
pub mod ReceiptChain
pub mod Session
