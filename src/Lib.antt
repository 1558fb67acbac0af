-- ===== src/Lib.antt =====
-- The RPC server of a blockchain node: xrpc_handler answers a request in JSON, and hands a
-- transaction to the network; xrpc_server takes requests over HTTP, and xrpc_service over gRPC.
--
-- Env (Env/Json, Env/Chain, Env/Node) is what the server uses and the repository does not hold,
--   as one record that every module takes as an instance argument: the JSON library, the types and
--   functions of the chain, the store, the message dispatcher, the elections and the clock.
--   `JsonLaws` states the documented behaviour of the JSON library that some theorems use, and
--   `ChainLaws` that of the chain's types.
-- Base is common/xrpc_base.hpp: `xrpc_return_en` and `xrpc_return_str`. Base/Codes is about
--   both.
-- Utility is common/xrpc_utility.cpp: the builders of transactions and the text forms of hashes.
--   Utility/Print: what `hex_print` and `hash_print` write to the console, as a text; Utility/Hex
--   is about it.
-- Rpc is the state of a handler: the members of `xrpc_handler` (xrpc_handler.hpp) and the world,
--   which is the store, the messages sent, and the number of readings of the clock. A method is a
--   function from a state to an ending and a state: a value, an exception (the state keeps what
--   was written before it), or undefined behaviour. Rpc/Leads and Rpc/Ends are the rules for
--   properties of the state after a method, whatever its ending, or where it ends with a value;
--   Rpc/Steps says what single steps do.
-- Handler is xrpc_handler.cpp. Response: `set_result_ok`, `set_result_fail`, `get_response`.
--   Query and History: the requests for an answer. Submit: `do_transaction` and what completes a
--   transaction. Transfer: the methods that submit one. Account: the methods that act on the node
--   itself. Actions and Dispatch: `handle_request` and the constructors. Serve: what a server does
--   with a handler. The others are proofs: Frame, Quiet and Authority (what each method may send),
--   Effects (the same for a request), Session (the same for one request after another), Funds,
--   Gift, Receipt, Checks and Guarded (what `transfer_out`, `give`, `transfer_in`,
--   `account_create` and `set_property` check; Verdict and Order are lemmas of Funds), Payment, Giving and
--   Sending (when they send; Accepted is their lemma), Pending, Online, Page and Blocks (what
--   `account_pending`, `query_online_tx` and `account_history` list; Counts, Members, Tags, Shown
--   and Block are their lemmas), Info and Properties (what `account_info` and `query_all_property`
--   answer), Answers, Refuses and Truth (what "Result" says), Refusals (requests without a known
--   action), Keys (the tests of property keys and of accounts).
-- Server is xrpc_server.cpp. Http: `xrpc_connection`, whose pending reads are entries of a list
--   and whose completion handlers are functions of the connection. Reads: the handlers as asio
--   calls them, on the bytes as they come: a read completes once the buffer holds its delimiter.
--   Listener: `do_accept` and `run`.
--   Genesis: `genesis_account_create`. FreshKey: `test`. Rounds: the loop of `run` around asio's
--   service, as steps. Exchange, Single, Client, Reply, Listening and Start are proofs.
-- Service is xrpc_service.cpp. Sync: `xrpc_serviceimpl::call`. Async: the instances of
--   `CallData` and `HandleRpcs`, over a list of the events that the completion queue hands out.
--   Phases is the abstract machine that it implements. Grpc: what the services ask of the gRPC
--   library. Instances, Refines, Once, Agree, Waiting, Replies and Rate are proofs.
-- Demo is a concrete `Env`, and Tests runs the model in it and applies the theorems.
--
-- A `std::string` is a text whose code points stand for its bytes. Machine integers wrap where the
-- source's type is unsigned (`% 2 ^ w`); a signed overflow, a division by 0 and an access out of
-- range have an undefined ending. `to_string` recurses on fuel, one unit for each digit that the
-- number can have. The reads of a connection complete on fuel 3 whenever bytes come: no more than
-- three follow one another. The loops of the source are over lists, but for the endless loop of `run`, of
-- which `round` is one round and `Step` the steps, and that of `HandleRpcs`, which takes the events
-- as a list.
--
-- `m_root[key]` adds a null where the member is missing, which reads as it did before. The model
-- writes this out where `m_root` is passed on as a whole, in `trigger_elect`, and nowhere else.
--
-- Not modelled: the code that protoc generates, the insides of gRPC and asio, the log lines, and
-- races between the threads of the gRPC library.
pub mod Prelude
pub mod Env
pub mod Rpc
pub mod Base
pub mod Utility
pub mod Handler
pub mod Server
pub mod Service
mod Demo
mod Tests
