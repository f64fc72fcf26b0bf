-- ===== src/Lib.antt =====
-- simple-blockchain-go2: a small blockchain node, modelled from its Go source.
--
-- A node keeps the account states and the pending transactions in memory, executes the transactions
-- of a block, hashes the result into the block, and agrees with its peers on who proposes the block
-- and whether it is final. The files follow the packages; the laws of a component stand in a module
-- below or beside it.
--
-- Base: Boolean tests, lists and maps over the native numbers, byte slices (nil or not), sorts by
-- what golang.org/x/exp/slices documents, and Outcome: a value, an error, or a call that does not
-- return, since it panics or waits for ever.
-- Common, Common.Hex: common/shortcut.go and common/constants.go. Merkle: common/merkle. The loops
-- run on fuel: 62 doublings reach any length, and the levels of a tree are fewer than its nodes.
-- Blockchain: blockchain/blockchain.go, with the wrap-around of uint64 and uint32 written out.
-- Accounts: accounts/account.go. Types: the structs of txs, blocks, rpc, accounts and p2p.
-- Wallets, Wallets.Files: accounts/wallets/wallet.go and accounts/keys/keypair.go; the files are a
-- parameter, and so is the key pair that is drawn.
-- Txs: txs/transaction.go and txs/bundle.go. Blocks: blocks/block.go. Rpc: rpc.
-- Memory.Mempool, Memory.Db, Memory.Service: memory. A map is a list of pairs; its order is the
-- one in which Go ranges over it. Memory.Service.Run is the loop over two channels.
-- The memory service answers on channels without a buffer. A caller that leaves a reply unread, or
-- sends more than eleven requests on the states before it reads one, makes the service and then
-- itself wait for ever: Storage.Service counts the requests of one call, and Executers.Executer
-- keeps whether a call left a reply unread. The model of a goroutine ends in such a wait. What
-- other goroutines would then ask of the stopped service is not modelled, nor is what they would ask
-- after an error, since the node ends on the first error of a service.
-- Storage.Db, Storage.Open, Storage.Service, Storage.Service.Requests: storage, over the database
-- bbolt as a parameter (Storage.Bolt).
-- Executers.Impl, Executers.Executer, Executers.Producer: executers. The account objects that the
-- Go code shares by pointer are updated in the map, also where sender and receiver are one.
-- P2p.Messages, P2p.Service: p2p. What a call sends is a list of receivers and payloads.
-- P2p.Network: a network of nodes, with the messages that are on their way, as a function of the
-- events in the order in which they happen.
-- Consensus.Messages, Consensus.Service, Consensus.Voting, Consensus.Loop, Consensus.Handlers:
-- consensus. A call leaves the state, its effects, and whether its goroutine ends, fails, panics
-- or blocks; a channel is the value that says who still receives from it.
-- Executers.Faucet: executers/faucet.go. Genesis, Genesis.Generator: genesis/genesis.go.
-- Nodes.Node: nodes/node.go, as one record of the database, the memory, the position and the
-- generator that the services share; the event of a stored block is a call.
-- Nodes.Sync.Messages, Nodes.Sync.Blocks, Nodes.Sync.Loop, Nodes.Sync.Handlers: nodes/sync. The
-- sync loop runs on fuel, one unit for each round; what arrives on the channel of a height and how
-- many peers a round finds are parameters. A round asks for at least one height while there are
-- peers, so as much fuel as there are heights up to the target is enough.
-- Nodes.RpcServer, Rpc.Wire, Clients: nodes/rpc/rpc_server.go and clients/client.go. A connection is
-- the bytes sent each way, and how many of them one Read delivers is a parameter.
-- Fullnode: fullnode/full_node.go. Cli, Cli.Commands: cli/cli.go; package flag is a parameter.
-- Tests: the theorems at concrete inputs.
--
-- Code outside the repository (sha3, ed25519, base58, encoding/json, os, flag, strconv, bbolt, the
-- sort of x/exp) is a parameter, with what its documentation promises as a hypothesis where a theorem
-- needs it. The goroutines that serve a channel are functions of the requests in the order taken.
--
-- Not modelled: the time between a request on the pool (AppendTx, RemoveTxs) and the turn of `run`
-- that takes it, the scheduling of goroutines that share the memory, sockets (the dialling, the
-- listeners), the catch goroutines, which pass on the first error of a service, the log and the
-- usage text.
pub mod Base
pub mod Common
pub mod Merkle
pub mod Accounts
pub mod Blockchain
pub mod Types
pub mod Env
pub mod Rpc
pub mod Txs
pub mod Wallets
pub mod Blocks
pub mod Memory
pub mod Storage
pub mod Executers
pub mod P2p
pub mod Consensus
pub mod Nodes
pub mod Clients
pub mod Genesis
pub mod Fullnode
pub mod Cli
pub mod Tests
