-- ===== src/Lib.antt =====
-- A replicated tree of znodes after ZooKeeper: the servers elect a coordinator, which checks each
-- write request, numbers it, and has it committed by a majority; every server writes the
-- committed requests to its files.
--
-- The packages and their modules:
--
-- internal/Proposals (Proposals): the protocol. Types has the messages of messageTypes.go, Words
-- the zxid and uint32 words, Zxid, Queue, Ack and SyncTrack the locked counters and queues, Log
-- the files of proposalSaving.go. State has the package variables as one record, Zab, and Env
-- what the package takes from outside: the configuration, the view of the election, JSON, and the
-- checker that Init is given. Send, Follower, Leader, SyncJob and Process have the handlers of
-- proposals.go and subroutines.go, each a function from the old state to the new one; a handler
-- that may end the process (logger.Fatal or a panic) returns an Option, and none is the end. A
-- channel is the list of what was sent on it; a background goroutine is a function for one round;
-- a goroutine that a handler starts is an entry of sync_jobs, which SyncJob runs. Cluster has the
-- servers of one epoch: a step relation between the coordinator, its followers and the ordered
-- connections from the one to the others. In it a send succeeds, no server fails, and the
-- coordinator stays; a message to the coordinator may be any but a proposal, in any order.
-- CatchUp has what happens between two epochs: IsLog describes the log of a node, newer what a
-- follower at some zxid lacks of it, Done a whole catch-up from the NewLeader to the last state
-- change, Kept the log of a coordinator over messages and elections, and Stuck and Lag have what
-- a second election does. Printing has the texts that are logged.
--
-- internal/znode (Znode): FilePath has the functions of path/filepath that are used, Types the
-- records, Store the folder znodeDir as a map from paths to znodes, Encode the requests, Check
-- the leader's checks on its cache, Write what a committed request does to the files, Watch the
-- watch flags, Init the cache that the leader fills from the files, and Applied and Deleted a
-- request on its way from the encoder to the files. A result is an Outcome: a value, an error or
-- a panic (a nil pointer or an index out of range).
--
-- internal/election (Election): the ring messages and their handlers, on the package variables as
-- one record.
--
-- internal/ConnectionManager (Connections): the maps of connections, the sends and broadcasts,
-- and one round of each managing goroutine. Package net is a parameter: what the dials to a
-- server give, and which connections accept a write. Start has Init and the listening socket, and
-- Local the package internal/LocalConnectionManager, which the rest of the program does not use.
--
-- internal/ConfigReader and main/main.go (Config): the configuration, the mode, and the choice of
-- the program. The other models take these values as fields of their environments.
--
-- main/server.go (Server): the program of a server. State has its variables together with those
-- of the packages above as one record, and the JSON objects of clients as lists of keys and
-- values. Requests draws the ids of requests and keeps those that are pending, Topics has the
-- paths of messages, Commands and Reads the cases of mainListener for clients, Client and
-- Listener the listener itself, Committed and Denied the listeners of the protocol's two
-- channels, Sessions the timers and the listener of finished syncs, Failures the two monitors,
-- and Start the variables at the start. A handler that ends the process or never returns gives
-- none; a listener that can return has a flag that says whether it goes on.
--
-- main/client.go (Client): the program of a client. State has its variables and its search for a
-- server, Commands the commands of a line of input, Listener what it does with the objects that
-- servers send. It shares the JSON objects of the server, so that the messages of the one can be
-- given to the other.
--
-- The packages meet in three places: Check is the request checker of the protocol, Write handles
-- what the protocol commits, and the election decides the coordinator that both sides of the
-- protocol ask for. The server program joins them: its environments of the protocol and of the
-- election are made from its state.
--
-- Parameters: JSON is a Codec for each type, and a theorem that needs it assumes IsExact, that a
-- value is read back as it was written. The JSON objects of clients have a decoder and an encoder
-- that nothing is assumed of. The network is the list of messages that were handed to it, and for
-- the election, the heartbeats and the clients the set of servers that can be reached. Files that
-- the program opens and writes are taken to open and to be written. Maps are association lists,
-- read by key.
--
-- Bounds: epochs and counts are numbers below 2 ^ 16 with the wrap written out, and zxids below 2
-- ^ 32. The reading loop of the log runs on the number of proposals asked for and the loop of a
-- sync answer on the number of epochs, as in the source, so no fuel is needed. The walk over the
-- znodes has one unit of fuel for each level, and the loop of GET_SUBSCRIPTION one for each
-- message and one more: the server's environment has one number for both, rounds, and a theorem
-- says for each how much is enough. The loops that draw random numbers run along the list of the
-- numbers to come. The byte order is that of a little-endian machine. The int of a sequence
-- number is unbounded, and a theorem that needs it assumes that the number fits.
--
-- Not modelled: the logger, what the client prints, the test programs, and the printers of
-- internal/znode, which write to the console. The two monitors of a server take from one channel,
-- and which of them gets a failure is left open. Sleeps and the interleaving of goroutines inside
-- a handler are left out: each handler runs as one step.
--
-- Prelude has the shared tests, lists, maps, decimals and words, and Examples a concrete input
-- for each theorem with hypotheses.
pub mod Prelude
pub mod Proposals
pub mod Znode
pub mod Election
pub mod Connections
pub mod Server
pub mod Client
pub mod Config
pub mod Examples
