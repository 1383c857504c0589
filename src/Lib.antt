-- ===== src/Lib.antt =====
-- Verification of the bot of knight/: a service that watches the pending transactions of a block
-- builder, finds a profitable backrun of a swap between two pools, and submits it as a bundle.
--
-- The parts, from the data on upwards, and the files that model them:
--   * knight/src/common/queue.h: Common/Queue, with the calls of any threads in Common/Queue/Fifo;
--     Common/SortedMap is the ordered map of the standard library.
--     knight/src/common/config.h: Common/Config, with the URLs in Common/Config/Url.
--   * knight/src/utils/utils.cpp and utils.h: Utils/Fields (readers of JSON fields and of hexadecimal
--     text), Utils/Hex (printers), Utils/Sqrt (`integer_sqrt`).
--   * knight/src/network/rest_client.cpp: Network, one HTTP exchange, with what its caller learns of it
--     in Network/Answers; ws_source.cpp beside it: Network/WsSource, the websocket that reconnects.
--   * knight/src/evm: Evm/Contracts, Evm/Transaction, Evm/Log and Evm/Receipt.
--   * knight/src/builder: Builder/Pending, Builder/Bundle, Builder/TxResult and Builder/Result (the
--     messages), Builder/RestClient (the requests with their attempts), Builder/PendingFeed (the
--     stream of pending transactions).
--   * knight/src/candidate: Candidate/Types, Candidate/Mempool (local_mempool.cpp), Candidate/State
--     (state.cpp), Candidate/Filter (candidate_filter.cpp, pool_snapshot.cpp and
--     knight/src/decoder/decoder.cpp), Candidate/Source (candidate_source.cpp),
--     Candidate/BlockSyncer (block_syncer.cpp), Candidate/Startup (the start of candidate_source.cpp
--     with its two inputs). Below Candidate/Source, Origin and Reported follow the candidates, and
--     Reserves and Told the reserves, back to the answers of the builder that they come from.
--   * knight/src/arbitrage: Arbitrage/Calculator, with proofs on the quotes, the optimal amount, the
--     route, the search over the pools and the profit below it.
--   * knight/src/encoder and knight/src/backrun: Backrun/Encoder and Backrun/TxComposer.
--   * knight/src/simulation and knight/src/runtime: Runtime/Simulator, Runtime/Loop (the core loop of
--     runtime.cpp, and in Sourced the loop behind the candidate source), Runtime/SignalListener,
--     Runtime/Lifecycle (the start and the stop of runtime.cpp, and its signals), and Runtime/Main
--     (main.cpp, runtime_factory.cpp and the constructor of runtime.cpp);
--     knight/src/common/worker.h: Common/Worker.
--
-- How they interact: the candidate source takes events from the queue, asks the builder for pool
-- reserves and pending transactions, filters them, and applies them to the state. The runtime loop
-- waits for a snapshot of that state with its next candidate, decodes the candidate's swap, calls the
-- calculator, composes the bot's transaction, and has the bundle simulated and then submitted. The
-- events come from the block syncer and from the pending feed, which the candidate source starts one
-- behind the other; the feed hears of its connection through the handlers of the websocket. A signal
-- behind the start of the run stops the runtime, which closes the candidate source.
--
-- The conventions: an operation is a function with the name of the method; it takes the state last
-- and returns its result with the new state. A method that holds a mutex for its whole body is one
-- step, so that threads are sequences of such steps. A call that would block returns none. A bytes
-- and a std::string are lists of their bytes, a std::optional is an Option, and a std::expected is
-- Expected. An unsigned integer is a natural number, with the wrap-around of its width written out
-- (`wrap w n`). Log output is left out.
--
-- What stands outside the repository is a parameter: External for boost::json, boost::algorithm,
-- solabi and intx, and the reports of asio, beast and OpenSSL on the steps of an exchange in Network
-- and on the operations of a websocket. The n-th exchange has the n-th report, whatever it is, and a
-- websocket gets any reports in any order. Calls of these libraries by the websocket are recorded as
-- its actions, and the calls of its handlers with them, in order.
--
-- Bounds and fuel: the loops of `integer_sqrt` take as many rounds as the type has bits, and each
-- loop divides a power of four by four, which half as many rounds bring to zero. The attempts of a
-- request are counted down from 3, the bound of the source's loop. The printer of 64-bit numbers has 16
-- digits, which 64 bits need at most. The other loops are recursions on the
-- lists that they go through, or on the number of polls.
--
-- Not modelled: the log and the clock (with `now_unix_ms` of utils.cpp, which nothing calls), the
-- sockets and threads themselves beyond the flags that the program keeps of them, and what lies outside
-- knight/src (the contracts, the Python services of builder/ and scenarios/). The content of the
-- configuration's file is an argument, and `to_lower` is that of boost::algorithm.
pub mod Prelude
pub mod External
pub mod Common
pub mod Utils
pub mod Network
pub mod Evm
pub mod Candidate
pub mod Builder
pub mod Arbitrage
pub mod Backrun
pub mod Runtime
