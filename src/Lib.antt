-- ===== src/Lib.antt =====
-- Verification of the Go services of likecoin-op.
--
-- The repository moves LikeCoin and its NFTs from a Cosmos chain to an Ethereum one. Three Go programs do
-- the work, and each is modelled here:
--   - signer-backend holds the key. A client asks for a call of a contract, which is stored once
--     (`GetOrCreateTransactionRequest`), and waits for it (`AwaitTransaction`): the service chooses a
--     nonce, signs, stores the nonce, broadcasts, and waits for the receipt.
--   - migration-backend migrates: a deposit of LikeCoin is opened, gets the hash of its transaction on
--     Cosmos and is paid by a call of the signing service; a migration of NFTs has classes and tokens,
--     whose statuses make up its own.
--   - likenft-indexer follows the contracts: a task acquires the new logs of a contract as events, a
--     second puts the received events into a queue, a third processes each of them.
--
-- Files, and the code that each one models:
--   - Base: names, lists and tests that all parts share.
--   - Exec: error values, panics, database calls that may fail and SQL transactions
--     (signer-backend/pkg/db/tx.go). Exec/Frame: what an action keeps. Exec/Steps:
--     the steps of an action, taken apart.
--   - Ethereum: what both migrations use of migration-backend/pkg/ethereum and pkg/signer: RecoverAddress,
--     AwaitTx, and a call of the new chain through the signing service. Ethereum/Quiet: what such a call
--     leaves alone and what it sends.
--   - Signer/Model, Signer/Db: the rows of signer-backend/pkg/model, and the statements of
--     signer-backend/pkg/db under the constraints of signer-backend/migrations.
--   - Signer/Evm: signer-backend/pkg/evm (Sign, AwaitTx, AwaitNonce, awaitAvailableNonce).
--   - Signer/Await: signer-backend/pkg/logic/await_transaction.go; Await/Safe, Await/Pending,
--     Await/Broadcast and Await/Nonces prove its invariant, Await/Lifecycle its outcomes.
--   - Signer/Request: get_or_create_transaction_request.go; Request/Handler: the two HTTP handlers of
--     signer-backend/pkg/handler/evmtransactionrequest. Signer/Service: runs of the whole service.
--   - Indexer/Model, Indexer/Db: likenft-indexer/ent/schema and the repositories of events and heights in
--     likenft-indexer/internal/database, WithTx included. Indexer/Logs: internal/evm/util/logconverter.
--     Indexer/Acquire: internal/logic/evmeventacquirer. Indexer/Process:
--     internal/logic/evmeventprocessor/processor.go and the tasks of cmd/worker/task.
--   - Indexer/Repos: the repositories of accounts, classes, tokens and memos in
--     likenft-indexer/internal/database. Indexer/Processors: the five processors of
--     internal/logic/evmeventprocessor and their registry. Repos/Kept and Processors/Kept say what they
--     keep, Processors/Separated that they fit Indexer/Process; Processors/Ledger is the abstract ledger
--     of owners, and Processors/Moves, Steps, Served, Replay and Replayed relate the code to it, from one
--     statement to a run of tasks. Processors/Created: the event of a new class.
--   - Coin/Convert, Coin/Model, Coin/Create, Coin/Mint: migration-backend/pkg/likecoin/util,
--     pkg/model/likecoin_migration.go with pkg/db/likecoin_migration.go, and pkg/logic/likecoin.
--     Coin/Mint/Sends and Coin/Mint/Payment follow one call, Mint/Closed and Mint/Once the next one.
--   - Nft/Model, Nft/Status, Nft/Retry, Nft/Enqueue, Nft/Begin, Nft/Amount: the rows of a migration of
--     NFTs, and of migration-backend/pkg/logic/likenft and pkg/handler/likenft the status, the retry, the
--     two ways into the queue and the amount.
--   - Nft/Actions/Model, Nft/Actions/Calls: the rows of the actions (migration-backend/pkg/model and
--     pkg/db, likenft_migration_action_*.go), and the calls of the new chain
--     (pkg/likenft/evm) by Ethereum. Nft/Actions/NewClass, TransferClass and MintNft: the
--     actions of migration-backend/pkg/logic/likenft, each with its begin, its work and its two ends.
--     Nft/Actions/Migrate: the two tasks that migrate a class or a token by these actions.
--   - Nft/Actions/NewClass/Announce, NewClass/Runs, Sound, Advances, Others and Service carry the
--     invariant of the new classes through every operation; Completes, Completes/Deploys,
--     Completes/Transfers and Completes/Migrated run a class to its end; MintNft/Numbered follows the calls of one action.
--   - Nft/Snapshot: the snapshot of what an address owns on Cosmos
--     (migration-backend/pkg/logic/likenft/snapshot_cosmos_state.go, pkg/db/nft_snapshot*.go) and the
--     handler that asks for one; Snapshot/Model has its rows, and Snapshot/Outcome, Taken and Executed
--     prove how a run may end.
--   - The files Tests run each part on a small world.
--
-- How state is modelled. A Go function that talks to services is an action: a function from a world to a
-- result and a world (Exec). A result is a value, an error value, or a stop: a nil pointer that is
-- dereferenced, another panic, a channel to which nobody sends, or a panic of a goroutine that ends the
-- process with the deferred functions of the call. A world has the tables, what has left
-- the program (transactions, payments, queued tasks), and the number of outside calls made so far. The
-- environment of a part answers each outside call by its number, so a theorem for every environment holds
-- for every way in which the database, the node and the other services may fail or change their minds.
-- A statement that fails changes nothing; a commit that fails leaves nothing of its transaction; a
-- rollback always drops the transaction, also where it reports an error. Operations of one part run one
-- after the other; what other processes do between two statements of one operation is not modelled.
-- Serial counters are restored by a rollback, which only makes ids closer than they are.
--
-- Bounds. The polling loops of Signer/Evm take the number of polls that their context leaves them
-- (`patience`), and so does that of Ethereum; when none are left they end as the code does, with the error of the context or blocked.
-- Every theorem holds for every number of polls, but those that say how many are enough. Words of 64 bits wrap where the code computes with them:
-- the start block, the chain id, `int64` and `Int64()`; theorems on decimals say where
-- they ask for a signed word or a byte. A power of ten with an exponent of 2 ^ 53 or more is a panic. Texts are numbers, one for each text; the
-- characters matter only in the hexadecimal data of a log, which is a list. Amounts and supplies of
-- `big.Int` are not negative where the code gets them from a chain or a parsed coin.
--
-- A call of the signing service whose answer is lost counts as a transaction that left the program, in
-- both migrations. A broadcast of the signing service may fail although the node has taken the transaction:
-- the network remembers such a transaction as one that was not confirmed, and the code, which removes its
-- nonce, may use the nonce again.
--
-- Outside code is a parameter, a field of an environment: go-ethereum (ABI, hexadecimal forms, signing,
-- the node's RPC methods), the Cosmos SDK (parsing of coins and memos), HTTP between the services, the
-- queue. A broadcast that answers without an error was taken by the node. Of the hexadecimal forms it is assumed that they can be read back (HexLaws). The
-- processors of the indexer are a parameter of Indexer/Process, which asks that they leave the table of
-- events alone (Separate); Indexer/Processors fills it. The lower case of an address, the unpacking of an
-- event's arguments and what JSON data URIs resolve to are parameters there. The regular expressions of
-- token ids and of classes, the metadata as JSON and the memo of an event are parameters of Nft/Actions.
--
-- The validators of ent, which refuse an empty text before a statement is sent, are among the failures that
-- the environment chooses.
--
-- Not modelled: the public API of the indexer and its pagination, the creation of a migration from a
-- snapshot, the other administration handlers, middleware, commands and start-up, generated code, the
-- contracts and the front ends. Columns that no modelled code reads (names, images, creation times) are
-- left out of most rows.

pub mod Base
pub mod Exec
pub mod Ethereum
pub mod Signer
pub mod Indexer
pub mod Coin
pub mod Nft
