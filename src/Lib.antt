-- ===== src/Lib.antt =====
-- A replicated key-value store in which a master fixes the order of all writes, modelled and
-- proved.
--
-- The clients of a slave send transactions to its client interface. Reads are executed at the
-- slave. Writes go to the master, over UDP and again until they are acknowledged. There one thread
-- per client adds them to the current batch, and the epoch thread replaces the batch at the end of
-- each epoch, writes it to the log of batches and queues it for the scheduler. One thread per slave
-- reads the determined batches from the log and sends them, one at a time and again until the slave
-- has acknowledged them. A slave takes the batches in the order of their epochs, writes each to its
-- own log, queues it for its scheduler and acknowledges it, in the proposed method to the slaves of
-- its region too, which ask it for the batches that they miss. The scheduler of each node executes
-- the batches in the order of the queue.
--
-- Files and the code that they model:
--   Base                 names of the library, Boolean tests, lists over the native numbers
--   Words                conversions and comparisons of C's integer types
--   Bytes                utils/bytes.c; Bytes.Access and Bytes.Ints: what reads see of writes
--   Outcome              how a function ends: with a value, by exit, by a failed assertion, or not yet
--   Tx                   tx/transaction.c
--   Batch                batch/batch.c
--   Message              utils/message.c; Layout: the offsets of utils/message.h; BatchCodec: the batch
--                        message; BatchExtent, BatchBlocks and BatchRoundtrip: its encoding, proved;
--                        InFlight: the datagrams that carry one; Laws: the messages of fixed
--                        length
--   LinkedList           batch/batch_list.c and tx/transaction_list.c; Chain: nodes on the heap;
--                        Fifo: the operations, proved
--   Log                  utils/log.c; Loops, Append and Read: what its loops and functions do
--   Config               utils/configuration.c; Constants: utils/configuration.h; Ports: no two alike
--   Network              the receive and the send of network/udp; Sockets: the other functions of
--                        network/udp and network/tcp; Lifetime: from opening to closing
--   Master               master/master_sequencer.c, the epoch thread and the shared batch; Receiver:
--                        the thread per client; Sender: the thread per slave; Epochs, Dedup, Sending and
--                        Serving: their proofs; Intake: the threads of all clients with the epoch
--                        thread, and what they add to the batches
--   Slave                slave/slave_sequencer.c; State and Actions: its variables and what it does
--                        with each message; Order, Accept, Logged, Peers, Exchange, Replies and
--                        Delivery: their proofs
--   Storage              utils/storage.c
--   Scheduler            scheduler/write_scheduler.c and scheduler/read_scheduler.c; Threads: their
--                        loops, and Running: what they execute; Convergence, Agreement and Queue:
--                        what a batch and a queue do to the storage of one node and of two
--   ClientInterface      client_interface/client_interface.c, the thread per client; Threads: its loops
--                        and the accepting of connections; Accepting, Acks, Journey and Resend: their
--                        proofs
--   Clients              client/client_txnum.c and client/client_time.c; Requests, Served, Answered and
--                        Timed: what they send, and what comes back
--   Startup              master/master.c, slave/slave.c and the messages of client/client_time.c to
--                        them; Arguments; Spawn: the threads that the master's sequencer starts; Finish
--                        and Idle: their proofs
--   System               the master and one slave together; Run: an example; Parts, Invariant, Rounds, Steps and
--                        Agreement: its proof
--   Cluster              the master and all slaves together; Routing: who gets what; Invariant, Rounds,
--                        Steps and Agreement: its proof; Recovery: a batch from another slave;
--                        Progress and Convergence: the master brings the slaves up to date; Replicas:
--                        the storages
--   Samples, .../Tests   examples
--
-- How the code is represented. An integer of C is the natural number of its bit pattern, of 8, 16
-- or 32 bits, and a conversion or a comparison that C makes is written out. An array of `char` is a
-- function from indices, which nothing bounds. A pointer to a transaction that only one holder has
-- is the transaction. The shared queues are lists, oldest first, for the threads, and nodes on a
-- heap in LinkedList. A function that may end the process or not return gives an Outcome. A thread
-- is a step function on its variables; what the kernel, the allocator and the network do in a step
-- is an argument of it: whether `open` succeeds, what each call of `write` or `read` returns, what
-- memory holds that is not initialised, and which datagram a receive finds. Theorems that hold
-- whatever arrives quantify over all of these.
--
-- System puts the threads of the master and of one slave together as a step relation, and Cluster
-- those of the master and of all slaves, with what the slaves send each other. What was ever sent
-- stays in flight, and a step may deliver any of it to the socket at its port; that messages may be
-- lost is that no step has to. The epoch thread logs a batch, determines its epoch and queues it in
-- one step, which Master explains. What append_log writes behind its array is counted, and has no
-- effect in the model.
--
-- Bounds. The loops run on the lists of answers and of datagrams, on the number of transactions of
-- a batch, at most 90, or on the number of replicas, and need no fuel; the one that frees a linked
-- list is on fuel, for which the number of its nodes is enough. Epochs are modelled up to the
-- `short` in which a message carries them, and the theorems name the bound that they need: 2 ^ 15
-- for the sequencers, 2 ^ 21 for the log.
--
-- Not modelled: the joining of threads, the busy waits, and the starting of the threads of a node
-- by its main program; what is printed, the CSV log of the experiment and the clock, of which only
-- the comparisons that code depends on are parameters; the text of error messages. The C library's
-- `rand_r` is a parameter, whose result is not negative. The request to finish is part of the loops
-- of the client interface, of the schedulers and of the main programs, not of the sequencers'
-- steps.
pub mod Base
pub mod Batch
pub mod Bytes
pub mod ClientInterface
pub mod Clients
pub mod Cluster
pub mod Config
pub mod LinkedList
pub mod Log
pub mod Master
pub mod Message
pub mod Network
pub mod Outcome
pub mod Samples
pub mod Scheduler
pub mod Slave
pub mod Startup
pub mod Storage
pub mod System
pub mod Tx
pub mod Words
