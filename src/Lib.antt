-- ===== src/Lib.antt =====
-- Extra CODEOWNERS: a GitHub App that publishes a required check. The check passes a pull request
-- when, for each changed path, a human CODEOWNER, the author where the repository allows it, or an
-- enrolled application with a delegation has approved.
--
-- How the parts work together. A worker gathers the evidence of one pull request: the CODEOWNERS
-- file and the repository policy at the base commit, the organization policy, the changed files,
-- the reviews, the labels. `evaluate` (extra_codeowners/evaluator.py) reads nothing else. It parses
-- the CODEOWNERS file (extra_codeowners/codeowners.py), compiles the two policies into one
-- (extra_codeowners/policy.py), keeps each actor's latest review, groups the paths by owner set,
-- judges each group, and returns a verdict with its messages. Its input and output are the records
-- of extra_codeowners/models.py, whose validators run first. Replicas share tables of
-- extra_codeowners/database.py: named leases, rate-limit circuits, the epochs that fence the
-- check of a head commit, and the accounts of extra_codeowners/api_budget.py, which every request to
-- GitHub debits. Work arrives as webhooks: extra_codeowners/webhooks.py authenticates a delivery and
-- says which pull request, repository or installation has to be evaluated again. A second check,
-- extra_codeowners/dco.py, decides from the evidence of one pull request whether every commit is signed
-- off.
--
-- Files.
-- - Prelude and its children: Boolean tests, lists, association lists, sorting, code that may raise.
--   Text: a `str` as a list of code points, and its methods. Text/Laws: lemmas on them.
-- - Regex: regular expressions as `re` matches them, with fullmatch; Regex/Matching: their languages.
-- - Models/Normalize, Policies, Evidence, Results: extra_codeowners/models.py. A validator is
--   a function from the typed values to the validated record or the first message; the validators
--   run in the order of the fields. Models/Paths: validated paths.
--   Models/Rendering: check_output; Models/Escaping, Models/Layout: proofs on it.
-- - Codeowners/Pattern, Document, Parser: extra_codeowners/codeowners.py, one function for each
--   of its functions and for each loop body; the other files of Codeowners hold proofs.
-- - Policy/Decision, Policy/Compile: extra_codeowners/policy.py; Coalesce, Coverage, Enrollment
--   and Guardrails hold proofs.
-- - Evaluator/Reviews, Judgement, Evaluate: extra_codeowners/evaluator.py, the loops of `evaluate`
--   as functions that it composes; the other files of Evaluator hold proofs.
-- - Budget: extra_codeowners/api_budget.py, transactions on one row as functions of the row and the
--   clock readings; Budget/Headers: the quota in the headers of a response, with
--   Budget/Decimal and Reported: what it reads of them;
--   Budget/Account, Bounds, Window hold proofs.
-- - Leases: acquire_service_lease, release_service_lease, record_provider_backpressure and
--   provider_is_backpressured of extra_codeowners/database.py, and the cursors of
--   extra_codeowners/api_budget.py that only the holder of a lease moves; Leases/Exclusion: proofs.
-- - Epochs: the shared-head epochs of extra_codeowners/database.py, each transaction on the row of one
--   head commit; Epochs/Fencing: sequences of transactions, and proofs.
-- - Queue: the rows of evaluation_jobs of extra_codeowners/database.py; Queue/Enqueue:
--   _enqueue_in_session; Queue/Claims: claim, is_current_claim, renew_claim; Queue/Release: complete,
--   fail, defer; Queue/Context: bind_claim_to_head, observe_evaluation_base; Queue/Transactions:
--   sequences of them. Queue/Changes, Preserved, Fencing, Priority and Revoked hold proofs.
-- - Json: the values of json.loads.
-- - Dco: the records of extra_codeowners/dco.py; Dco/Validate: their validators; Dco/Read and
--   Dco/Message: from_github and from_graphql; Dco/Order: _commit_order_is_valid; Dco/Evaluate:
--   evaluate_dco. Dco/Walk, Positions and Ordered prove what the order check decides; Dco/Failures,
--   Correct, Named and Exceptions what the evaluation does.
-- - Webhooks: the records of extra_codeowners/webhooks.py; Webhooks/Requests: JobRequest and
--   AuthorityRequest of extra_codeowners/database.py; Webhooks/Verify: verify_webhook; Webhooks/Pulls,
--   Pushes, Installations and Jobs: evaluation_job and its helpers. Webhooks/Authentic, Requested,
--   Pulled, Listed and Fenced hold proofs.
-- - Cache: the records of extra_codeowners/discovery_cache.py; Cache/Checks: the tests of keys and
--   entries, and sizes; Cache/Store: the operations. Cache/Entries, Bounds, Calls and Reuse hold
--   proofs.
-- - Examples: runs at concrete inputs.
--
-- State and errors. A dict is a list of pairs in insertion order, and a frozenset a list whose order
-- nothing reads. A function that may raise returns `ok` or `err`; an exception that the caller does
-- not catch stays an `err` of the caller. A transaction is a function from the table to the table
-- and the answer; the rival transaction that an insert may meet is an argument of each attempt, and
-- so are the readings of the clock. Instants are numbers of microseconds. Integers of Python are
-- unbounded; those of the program are not negative where they are modelled.
--
-- Parameters. The Unicode database (lower case, repr, hidden categories) is the record `Unicode`,
-- an argument of each function that reads it; so are casefold in Dco/Message, and the HMAC and
-- json.loads in Webhooks/Verify. No theorem assumes anything of them. zlib is the record `Zlib`;
-- Cache/Reuse assumes of it, as `IsLossless`, that it decompresses what it compressed.
--
-- Fuel. `decimal` and `hex_from` run on fuel, one more than the number, which has no more digits
-- than that. The walk over the parents of commits runs on the number of commits: it meets each at
-- most once, and Dco/Walk proves that it ends.
-- Every other loop is recursion on a list or on an expression.
--
-- Not modelled: the coercions of pydantic and the TOML loaders (the model of the policies starts from
-- typed values, and of several errors of one model only the first is kept), the authority jobs and
-- the deliveries of extra_codeowners/database.py and the order in which its queries pick a row, the
-- worker extra_codeowners/service.py, and what is input and output alone: the GitHub client, the
-- HTTP application, the settings, tracing and metrics, migrations, release tools.
pub mod Budget
pub mod Cache
pub mod Codeowners
pub mod Dco
pub mod Epochs
pub mod Evaluator
pub mod Examples
pub mod Json
pub mod Leases
pub mod Models
pub mod Policy
pub mod Prelude
pub mod Queue
pub mod Regex
pub mod Text
pub mod Webhooks
