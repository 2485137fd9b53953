-- ===== src/Lib.antt =====
-- A model of the graft supernode: the list of supernodes and the choice of the auth sample for a
-- payment, the authorization of a payment by votes, the sale, its status and its
-- details, the global context that holds them, what the cryptonode passes on of the network, and the task manager that runs the requests and sends others on.
--
-- Parts, and the files that model them:
-- Shared.antt: Boolean tests, lists, decimal printing, and association lists for the maps.
-- Rta/Crypto.antt: hashing, signatures, hex and files, which the code takes from cryptonote, epee
--   and boost, as records of operations with the laws that the code relies on.
-- Rta/Supernode.antt: the class of src/rta/supernode.cpp. A method is a function of the same name
--   in snake case (updateFromAnnounce is update_from_announce); what it changes is its result.
-- Rta/SupernodeList.antt: `FullSupernodeList` of src/rta/fullsupernodelist.cpp: add, remove, get,
--   updateStakes, setBlockchainBasedList and its queries. Its child modules Balance, Select and
--   Sample are the parts of buildAuthSample. The generator std::mt19937_64 is a parameter.
-- Tasks/Status.antt, Tasks/Machine.antt: statuses and the state machine of
--   include/lib/graft/state_machine.h and src/lib/graft/task.cpp, row by row.
-- Tasks/ExpiringList.antt: include/lib/graft/expiring_list.h.
-- Tasks/Manager.antt: `TaskManager` of src/lib/graft/task.cpp: Steps has the actions of the state
--   machine, Events has what the event loop and the pool's threads call.
-- Tasks/Upstream.antt: `UpstreamManager::ConnItem` of src/lib/graft/task.cpp, the connections and
--   the waiting requests of one address, and the events of the network that end a request
--   (`UpstreamSender::ev_handler` of src/lib/graft/connection.cpp). Its child module Manager is
--   the manager of all addresses. An assertion that fails and an exception are outcomes.
-- Blacklist.antt: `IpMap` and `BlackListImpl` of src/lib/graft/blacklist.cpp: processIp with the
--   count of requests in windows, ban and unban.
-- Context.antt: `TSHashtable` and `TSList` of include/lib/graft/graft_utility.hpp, which hold the
--   global context: buckets, life times, and the cleanup of one bucket after the other.
-- Messages.antt: statuses, keys of the context and messages, of
--   include/supernode/requestdefines.h and the headers of the requests.
-- Payments.antt: what the handlers of payments share, of src/supernode/requestdefines.cpp: the
--   errors, the statuses and the broadcast of a status.
-- Payments/Authorize.antt: src/supernode/requests/authorize_rta_tx.cpp: votes and their
--   signatures. Its child module Request is the handler that votes on a transaction, Response is
--   the one that counts the votes, each with the stages of its state machine.
-- Payments/Sales.antt: src/supernode/requests/sale.cpp, sale_status.cpp and pay_status.cpp: what
--   the members of the sample and the clients call. Its child module Client is the sale itself.
-- Payments/Details.antt: src/supernode/requests/sale_details.cpp: Client is what the wallet calls
--   and the callback, Member is what another supernode calls at a member of the sample.
-- Payments/Rejections.antt: src/supernode/requests/reject_sale.cpp and reject_pay.cpp.
-- Network.antt: src/supernode/requests/send_supernode_announce.cpp, send_supernode_stakes.cpp and
--   blockchain_based_list.cpp: what the cryptonode passes on about the other supernodes.
--
-- The parts meet where the code does: the task manager runs handlers, which are a parameter of it.
-- The handlers of payments are such functions; they use the list of supernodes, and the global
-- context as a map from keys to values, which leaves out the life times of its keys
-- (Context/Refines.antt relates the hash table to such a map, Context/Lives.antt is about life
-- times). A method of the list is one step here: a lock guards each, but for `add`, which asks
-- under one lock whether the supernode is there and inserts it under another; what another thread
-- does between the two is left out. What one handler
-- sends is read by another through the codec of messages, a parameter with its laws.
--
-- Numbers of 64 bits are natural numbers, with the wrap-around written out where the code
-- subtracts (`sub_u64`). The clock is an argument. Loops over containers are structural recursion;
-- the dispatch loop of the state machine and the loop over resumed tasks take fuel and give `none`
-- when it runs out, since a handler may ask to be called again for ever
-- (Tasks/Manager/Ends.antt is about how much is enough). The loop that balances
-- the tiers runs over the four tiers.
--
-- Not modelled: the network, serialization, the start of the servers, the wallet node, the router,
-- the pay request, which the code has switched off, groups of keys in the context, plugins, and
-- the libraries r3, mongoose, radix_tree and thread_pool.
pub mod Shared
pub mod Rta
pub mod Tasks
pub mod Blacklist
pub mod Context
pub mod Messages
pub mod Payments
pub mod Network
