-- ===== src/Lib.antt =====
-- The core of a blockchain node written in Go: the ledger of blocks, which follows the longest
-- branch, the safety rules of its BFT consensus, and the kernel contracts by which token holders
-- govern the chain.
--
-- The ledger (ledger/) keeps the headers of all blocks as a tree, of which one branch is the
-- trunk. A new block is confirmed on top of the tip, or on another branch, which becomes the trunk
-- when it grows higher than it; then blocks are moved off and onto the trunk down to the fork
-- point. The safety rules of the chained BFT consensus (consensus/chainbft/) say for which
-- proposals a replica votes and which certificates and votes it accepts. The permissions
-- (permission/) say whose signatures an account or a contract method accepts. Contracts read and
-- write through a sandbox (contract/sandbox/), whose read and write sets go into the transaction.
-- The kernel contracts (contract/) run inside transactions: the govern token contract keeps
-- balances and locks, the proposal contract locks tokens for each vote through it, and the timer
-- contract calls the proposal contract back when a vote ends.
--
-- Files and code:
-- - Prelude and its children: the names that all files share, Boolean tests, lists, integers (Go's
--   big.Int, and int64 with its wrap-around written out), and maps as association lists.
-- - Ledger/Tree: trees of parent links and lowest common ancestors, against which the code is
--   measured.
-- - Ledger/Store: ledger/ledger.go, the tables on disk, the cache of headers, the batch of writes,
--   fetchBlock, saveBlock, correctTxsBlockid.
-- - Ledger/Fork and its children: handleFork in ledger/ledger.go; Split has one round, Walk and
--   Round the induction, Switch the theorems.
-- - Ledger/Branch and its children: ledger/branch_manage.go, GetCommonParentBlockid (Common) and
--   the exported HandleFork (Prune).
-- - Ledger/Confirm and its children: ConfirmBlock in ledger/ledger.go; `place` finds the place of
--   the block, `commit` saves it and checks its transactions. Txs has the check for duplicates,
--   Place the ledgers that are valid, Longest where a block goes, Reject what a refusal leaves.
-- - Ledger/Truncate and its children: removeBlocks and Truncate in ledger/ledger.go, and
--   GetBranchInfo; Removed has one round, Walk the loop.
-- - Ledger/Undo and its children: FindUndoAndTodoBlocks in ledger/ledger.go; one half of a round
--   of its loop is `climb`, used for both sides. Climb has one move, Paths the collected blocks,
--   Loop the whole.
-- - Ledger/TopSort and its children: TopSortDFS in ledger/tx/topsort.go; Visit has the search for
--   an order, Cover the reversed graph, Parts the connected parts, Ordered the loops over them,
--   Result the whole.
-- - Contract/Limits: contract/base/limits.go.
-- - Contract/Govern and its children: contract/proposal/govern/token_contract.go with the types of
--   contract/proposal/utils; a method is a function on the typed bucket that returns a result and
--   the new bucket, after an error too.
-- - Contract/Sandbox and its children: contract/sandbox/xmcache.go, mem_xmodel.go and iterator.go;
--   Replay runs a contract on its read set, Select merges the lists of a scan.
-- - Contract/Proposal/World: the state that the contracts share, and a nested call
--   (contract/kernel/context.go).
-- - Contract/Proposal/Timer and Contract/Proposal/Propose:
--   contract/proposal/timer/timer_task_contract.go and
--   contract/proposal/propose/propose_contract.go. Effects, Outcome and Triggered say what a call
--   that went through has written; Escrow, History, Lifecycle and Decision have the properties;
--   Keys is PrefixRange in contract/proposal/utils/utils.go.
-- - Consensus/Safety: consensus/chainbft/safety_rules.go, pacemaker.go and the check of a vote's
--   signature in crypto.go. Rounds has the growth of the rounds, Quorum the certificates, Votes
--   the single votes.
-- - Consensus/Certs: consensus/chainbft/quorum/qctree.go, the tree of pending certificates. A node
--   is its certificate with its list of sons, a pointer from outside the tree is the certificate
--   it points to, and a node that the code changes in place is rebuilt where the search finds it.
--   Search has the search against the list of identifiers, Inserts the branches of the operations,
--   Marks the marks, Growth what a new certificate brings into the tree.
-- - Consensus/Xpoa and its children: consensus/xpoa/schedule.go, the validators of a round and
--   their turns; RoundRobin has the turns, Agree the miner against the check.
-- - Consensus/Schedule: minerScheduling in consensus/xpos/schedule.go, in int64 arithmetic; Range
--   has the place within a term, Turns the whole.
-- - Permission/Names and Permission/Rules: permission/base/valid.go, and the validators of
--   permission/rule. Permission/Trees: permission/rule/ptree.go, with its nodes in a heap, since
--   their statuses are set through shared pointers.
-- - Permission/Check and its children: IdentifyAccount, CheckContractMethodPerm and
--   validatePermTree in permission/utils.go; Order has the order of the nodes and the end of the
--   breadth-first list, Settled and Loop the loop, Meaning what it is to pass, Identify the whole.
-- - Permission/Accounts and its children: permission/contract.go and account.go; Reflection has
--   the table of keys, Mirror the methods.
-- - The modules named Examples run the theorems on concrete states.
--
-- Bounds and fuel: identifiers, hashes and account names are only compared, so they are numbers.
-- Account names are taken to be ASCII text, so that the range of keys that is scanned for the
-- locks of a proposal holds all of them. Heights are natural numbers, far below the bound of
-- int64. The loop of handleFork has as many rounds as the height of the trunk and one more, the
-- loop of FindUndoAndTodoBlocks as many as the heights of its two blocks and one more, the loops
-- of GetCommonParentBlockid and removeBlocks as many as the height of the block they start from
-- and one more, with theorems that these suffice; a loop that runs out of rounds gives
-- `out_of_fuel`, which no theorem counts as a result. The two searches of TopSortDFS may be as
-- deep as the graph has nodes, and one more, which is proved to be enough. Lists are walked
-- structurally.
--
-- Not modelled: signatures, hashing and encoding, the table of pending blocks, bounds on the size
-- of caches, locks and metrics of the ledger; the resource limits of nested contract calls; the
-- messages of the consensus and the restart of its tree of certificates, the contract methods of
-- XPOS and XPOA, proof of work, the single miner, the transaction pool, the state machine, the
-- manager that reads access control lists from a snapshot, the contract engines, the network and
-- the storage layer. The method that a proposal names, the cryptography client, the red-black tree
-- and the versioned store behind the sandbox, the manager of access control lists and floating-
-- point numbers are parameters of the model.
pub mod Consensus
pub mod Contract
pub mod Ledger
pub mod Permission
pub mod Prelude
