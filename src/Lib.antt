-- ===== src/Lib.antt =====
-- The JavaScript services of the Rainbow Bridge, which carries block headers between Ethereum and
-- NEAR: a model of their shared library and of the relays, with proofs about it.
--
-- The parts and their files (paths are the repository's):
-- - Prelude: names of the libraries, Boolean tests, lists and integers over the native numbers;
--   Prelude.Js has JavaScript's errors and results of calls that may throw, Prelude.Async has
--   asynchronous code as actions in a world.
-- - Search: `binarySearchWithEstimate` of eth2near/eth2near-block-relay/index.js, which finds how far
--   the relay to NEAR must go back to a block that both chains have. `step_down` and `step_up` are the
--   two loops around the estimate, `range_below` and `range_above` the range they leave, `bisect` the
--   last loop; Search.Asking is the search with a predicate that asks the chains.
-- - Borsh: utils/borsh.js and utils/borshify-proof.js. Value has the JavaScript values, Reader the
--   class `BinaryReader`, Codec `serializeField` and `deserializeField` by cases of the field's type
--   and of the schema's entry, Schemas the `borshSchema` of eth-on-near-client.js and of
--   eth-on-near-prover.js, Borshify the hand-written encodings of light client blocks and outcome
--   proofs. Borshify.Decoder is the reader on the other side, after
--   contracts/eth/nearbridge/contracts/NearDecoder.sol, and Borshify.OutcomeDecoder after
--   contracts/eth/nearprover/contracts/ProofDecoder.sol.
-- - Robust: utils/robust.js. Backoff has `retry` and `backoff`, Calls the wrapped web3 calls of
--   `RobustWeb3`, Contract its `callContract` with the decoding of logs, Transaction
--   `signAndSendTransaction`.
-- - Client: `BorshContract`, `txnStatus` and `signAndSendTransactionAsync` of utils/borsh.js, on the codec
--   and on Robust.Transaction, and the method tables of eth-on-near-client.js and
--   eth-on-near-prover.js; EthBlocks is `getEthBlock` and Setup `maybeInitialize`;
--   Proofs is eth2near/eth2near-block-relay/eth-proof-extractor.js, on Robust.Calls.
-- - Relay: Near2Eth is one round of `runInternal` of near2eth/near2eth-block-relay/index.js, which
--   submits NEAR's light client blocks to the contract on Ethereum; its Runs are rounds one after
--   another, and its Start is `initialize`, which sends the first validators and the first block to a
--   contract that has none, and `withdraw`. Eth2Near is `Eth2NearRelay` of
--   eth2near/eth2near-block-relay/index.js: `initialize` and the rounds of `run`, which use the search;
--   its Header is `submitBlock`, which uses the codec. Watchdog is a round of `run` of
--   near2eth/watchdog/index.js.
-- - Accounts: utils/helpers.js, which creates accounts and checks their keys.
-- - Commands: Status is the command of cli/commands/status.js, which asks the two nodes, the contracts
--   and the process manager and prints what it found; EthContracts is cli/init/eth-contracts.js, which
--   deploys the contracts on Ethereum, and NearContracts is cli/init/near-contracts.js, which puts
--   together Accounts and Client.Setup. Keys has `normalizeEthKey` of utils/robust.js.
-- - Transfer: `TransferETHERC20ToNear` of testing/transfer-eth-erc20/to-near.js, which moves tokens to NEAR
--   in stages with a log, by `callContract` of Robust and the proof extractor of Client.Proofs; Stages
--   has the stages and `execute`, which goes on where the log says.
-- - Config: `RainbowConfig` of utils/config/index.js, the parameters of the command line and their file.
--
-- What is outside the repository is a parameter: web3, near-api-js with its BinaryWriter, bn.js, bs58,
-- the two chains. The theorems hold for every such parameter, or name the documented behaviour that
-- they rely on: `LibraryLaws` for the writer and BN, `IsLittleEndian` for BN's `toBuffer`. A call that
-- may throw is an action in a world `W`, which stands for all that the services talk to; a list of
-- what was sent, or of the acts on the chains, is kept beside it.
--
-- Bounds: the loops of the search take fuel, and `rounds` gives each more rounds than the range and
-- the distance of the estimate, which is enough; the recursion of the codec takes the depth of stack
-- that is left, and `Fits` says which depth a value needs; the loop of `callContract` takes fuel, since
-- nothing bounds its reconnections and its nonce errors, and so does the watchdog's loop over gas
-- prices, since a price of 0 never grows; and so does the wait of `initialize` for a block, which ends
-- with the node's answers, and the transfer's wait for a safe block, and the predicate's retries of
-- a block that is not ready. All other loops are bounded in the source.
-- Numbers of the source that stay small are natural numbers, and the relays' positions and delays
-- are integers.
--
-- Not modelled: the option tables of the command line, its commands that start processes, clean
-- directories or dump blocks to files, the token factory's deployment, which ends in a script of the
-- test tools, and the test scripts but for the transfer to NEAR, of which the JSON of the log is left
-- out; logging and metrics; the contracts in Solidity and Rust but for the decoders; the numbers and names in error
-- messages of the codec; the computation of hashes.
pub mod Prelude
pub mod Search
pub mod Borsh
pub mod Robust
pub mod Relay
pub mod Client
pub mod Accounts
pub mod Commands
pub mod Config
pub mod Transfer
