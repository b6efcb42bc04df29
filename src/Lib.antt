-- ===== src/Lib.antt =====
-- Verification of the TARDIGRADE atomic broadcast implementation (Go).
--
-- The program runs in rounds. In each, the nodes agree on a block share by a synchronous block
-- agreement, and by an asynchronous common subset, which is built from one committee-based reliable
-- broadcast and one binary agreement for each node; binary agreement takes its coin from a common coin.
-- The nodes exchange messages through handlers, and sign with threshold RSA.
--
-- Files, and the code they are about:
--   Prelude          Boolean tests, lists, Go maps as association lists, panics, counting of nodes
--   Crypto           `crypto/sha256`, `crypto/rsa`, github.com/niclabs/tcrsa and
--                    github.com/niclabs/tcpaillier as an interface, of which nothing is assumed;
--                    `strconv.Itoa`. `math/big` is Prelude/BigInt
--   Block            utils/block.go: Block/Quality is about AddMessage, Block/Hashes about Hash
--   Message          utils/message.go, the wrapper of a payload
--   Broadcast        broadcast/broadcast.go: `Run` of ReliableBroadcast as `boot`, then `step` for each
--                    message received. Broadcast/Support is about one node, Broadcast/Network about
--                    all the nodes of an instance, of which some are faulty
--   BinaryAgreement  binaryagreement/binaryagreement.go: `messageHandler` and the main loop of `Run` as
--                    the two events of a schedule; Safety and Stall are about one node, Network about all the
--                    nodes of an instance, of which some are faulty
--   CommonCoin       binaryagreement/commoncoin.go: `Run` as a fold of `receive` over the requests
--   BlockAgreement   blockagreement/: Messages is utils.go, Propose propose.go, GradedConsensus
--                    gradedconsensus.go, and Driver the rounds of blockagreement.go with the ticks
--                    that the protocols of a round take
--   CommonSubset     commonsubset/commonsubset.go: State, the output Conditions, Commits for the two
--                    kinds of messages, and Events for `eventHandler` and for `Run` with its goroutines
--   Tardigrade       tardigrade/tardigrade.go: the listener of a round, `listen`, and its handlers; Buffer
--                    is proposeTxs and setBlock, Encryption the transactions and decryption shares,
--                    Construction constructBlock, and Rounds runProtocol
--   Routing          utils/utils.go: the channels of a node and what arrives at them; Local is
--                    utils/localhandler.go, Network utils/networkhandler.go, and Writes, Queues, Creation,
--                    Fifo, Present, Runs, CoinCalls and the children of Local hold the proofs
--   Configuration    utils/config.go: the configurations of the rounds of a simulation
--   Tests            concrete runs at which the theorems apply, with a stand-in for the cryptography
--
-- How the code is read. A field or local variable of the code is the field of the same name, in this
-- library's spelling. What a node multicasts is a list of messages in its state. A Go map is a list of
-- entries with distinct keys, and a loop over a map goes through the list; where the result could depend
-- on the order, the theorems say whether it does. A pointer that the code compares with nil, or that can
-- be nil in a map, is an option; a nil dereference and an index out of range are the result `panic`.
-- Node ids, rounds and counts are natural numbers, since the code never makes them negative; the
-- narrow integers are the uint16 id of a signature share, whose `Id - 1` wraps around at 2 ^ 16, and the
-- sum of durations in setBlock, which wraps around at 2 ^ 64.
--
-- Schedules and fuel. The messages come in any order, and goroutines are interleaved in any order of
-- their steps; a step is what runs without letting go of the lock, or one message. Two loops have fuel:
-- `strconv.Itoa` of `n` has `suc n`, more than the digits of `n`, and the wait for time 2 in the propose
-- protocol has 6 ticks, among which every time occurs. The ticker of block agreement sends `7 * kappa - 1`
-- ticks, and a read past them blocks. The digits of a number `n` have fuel `n + 1`, and the cutting of a
-- message its length, of which each piece takes a byte. Random numbers are a list that is given.
--
-- Not modelled: how requests travel to the common coin; of its answers, which reach a node as
-- Routing/CoinCalls says, binary agreement takes that of each round as the parameter `coin`; of tardigrade/ the
-- start of the rounds by `Run` and the set-up in utils.go (the committee's echo, which the code never
-- reaches, is left out); the sockets, encoding and delays of
-- utils/networkhandler.go; simulation/ and main.go, which set up experiments. In the protocols' own
-- models the received messages are a list, in any order. Binary agreement starts one more handler goroutine in each round;
-- the model handles one message at a time. The channels inside a protocol are
-- taken to be large enough for what is sent to them. The race of two goroutines of utils/localhandler.go
-- that both create the channels of binary agreement is left out: the test and the creation are one step.
pub mod Prelude
pub mod Crypto
pub mod Block
pub mod Message
pub mod Broadcast
pub mod BinaryAgreement
pub mod CommonCoin
pub mod BlockAgreement
pub mod CommonSubset
pub mod Tardigrade
pub mod Configuration
pub mod Routing
pub mod Tests
