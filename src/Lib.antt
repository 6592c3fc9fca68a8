-- ===== src/Lib.antt =====
-- The Hedera SDK for JavaScript: the core that keeps the network of nodes, sends requests and judges
-- their answers, and the data that it shares with every request.
--
-- How the parts interact. A client keeps a network of nodes (src/client/ManagedNetwork.js and
-- src/client/Network.js over src/ManagedNode.js, src/Node.js). A request (src/Executable.js) walks
-- through its list of node accounts (src/transaction/List.js), asks the network for a node of the
-- current account, sends itself, and reports the failure or the success to the network, which takes
-- the node out of its healthy nodes or lowers its backoff. What an answer means is decided by the rule
-- of the kind of request (`_shouldRetry`). Large contents are sent as several transactions
-- (src/file/FileAppendTransaction.js, src/topic/TopicMessageSubmitTransaction.js). Ids of entities have
-- a checksum and an address (src/EntityIdHelper.js). A transaction is frozen, which makes a body for each
-- of its nodes, signed, and turned into the request for a node (src/transaction/Transaction.js). A
-- subscriber puts the chunks of a topic message together again (src/topic/TopicMessageQuery.js).
-- A mnemonic (packages/cryptography/src/Mnemonic.js) encodes the bytes of which keys are made.
--
-- Files, with the paths of the code from the repository's root:
--   LockableList     src/transaction/List.js: the record is the class, each method a function.
--   NodeAddress      src/ManagedNodeAddress.js: host and port.
--   Node             src/ManagedNode.js, src/Node.js: `increase_backoff` is `increaseBackoff`, and so on.
--   Node/Backoff     histories of failures and successes.
--   Network          src/client/ManagedNetwork.js: the state, the constructor, `_closeNode`, `close`.
--   Network/Map      the Map from accounts to nodes.
--   Network/Removal  `_removeDeadNodes`; Network/Readmission `_readmitNodes`, `increaseBackoff` and
--                    `decreaseBackoff`; Network/Selection `_getNumberOfMostHealthyNodes`, `getNode` and
--                    src/client/Network.js; Network/Shuffle `shuffle` of src/util.js; Network/Update
--                    `_setNetwork` and `setTransportSecurity`; Network/Configuration the setters.
--                    What they ensure is proved in the file itself or in its children.
--   Executable       src/Executable.js: the data; Executable/Retry `_shouldRetryExceptionally` and
--                    `delayForAttempt`, with src/grpc/GrpcStatus.js; Executable/Loop `execute`;
--                    Executable/Outcomes what a result says of the replies; Executable/Costs how often a
--                    request is sent and how long it waits.
--   Statuses         `_shouldRetry` of src/transaction/Transaction.js, src/query/Query.js,
--                    src/transaction/TransactionReceiptQuery.js and
--                    src/transaction/TransactionRecordQuery.js, with `_fromCode` of src/Status.js.
--   Chunks           `_makeTransactionData` of the two transactions in chunks, and what their `freezeWith`
--                    does after the one of the base class has returned, with the lock of the list of signed
--                    transactions; Chunks/Rows, Contents and Reassembly what a node is sent.
--   Transaction      src/transaction/Transaction.js: the data and `freezeWith`; Transaction/Signing
--                    `signWith`, `addSignature`, `removeSignature` and `removeAllSignatures`;
--                    Transaction/Requests `_makeRequestAsync`, `_buildTransaction`, `toBytes`. Each has
--                    its lemmas and theorems below it; Transaction/Signing/Frozen joins freezing and signing.
--   Subscription     src/topic/TopicMessageQuery.js and src/topic/TopicMessage.js: the handlers of messages and
--                    errors; Subscription/Interleaving, Delivery and Order how chunks are put together,
--                    Subscription/Submission the way from `freezeWith` to the subscriber,
--                    Subscription/Retries the errors.
--   Transfers        src/account/TransferTransaction.js and src/token/AbstractTokenTransferTransaction.js: how
--                    transfers are merged; Transfers/Totals the sums, Transfers/Decimals
--                    `addTokenTransferWithDecimals`, Transfers/Grouping the groups of `_makeTransactionData`.
--   Mnemonic         packages/cryptography/src/Mnemonic.js: `generate_from` is `_generate` after the random bytes,
--                    `validate` is `_validate`; Mnemonic/Bits texts of binary digits, Mnemonic/Words the list
--                    of packages/cryptography/src/words/bip39.js, Mnemonic/Entropy
--                    packages/cryptography/src/util/entropy.js. Mnemonic/Groups and Mnemonic/WordList have lemmas;
--                    Mnemonic/Generated, Accepted, Legacy and Radix what is ensured.
--   EntityId         src/EntityIdHelper.js: ids; EntityId/Checksum, EntityId/Solidity with
--                    `convertToNumber` of src/util.js; EntityId/Detection what a
--                    checksum tells apart.
--   Common           lists, tests and results that the others share. Examples: tests.
--
-- How the code is modelled. Nodes are shared mutable objects, so a network has a store from references
-- to nodes, and its containers hold references. Code that may throw returns an `Outcome`, and the state
-- that an exception leaves is not kept. Clocks, random numbers and the replies of nodes are arguments:
-- a `Moment` holds those of one attempt. A backoff counts ticks of 2^-20 ms, since the code halves it
-- in floating point; twenty halvings in a row are exact, and the default maximum is less than 2^9
-- times the default minimum.
-- Numbers of 64 bits are below 2^64, and the sums of a checksum stay below 2^53. The loops run on the
-- number of their rounds: the attempts of `execute` are `maxAttempts`, the loops over nodes have the
-- length of the list, the letters of a checksum are five; so none of them can stop early. The unit of a
-- double is looked for in ten steps, enough for a number below 2^63.
--
-- Not modelled: protocol buffers, cryptography (a digest and a signer are parameters), the gRPC
-- channels, logging and wallets; the reading of transactions from bytes; regular expressions on texts of
-- ids and addresses; the `_beforeExecute` of the kinds of requests. `_shouldRetry` as `execute` calls it does not throw.
pub mod Common
pub mod LockableList
pub mod NodeAddress
pub mod Node
pub mod Network
pub mod Executable
pub mod Chunks
pub mod EntityId
pub mod Statuses
pub mod Transfers
pub mod Transaction
pub mod Subscription
pub mod Examples
pub mod Mnemonic
