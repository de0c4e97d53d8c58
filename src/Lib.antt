-- ===== src/Lib.antt =====
-- The mining pool yumtech/mkpool-src, its parts that compute: what it puts on the wire and reads from
-- it, the queues and windows of a session, the limits on its peers, and the hashes of a coinbase.
--
-- How the parts work together. A session reads frames from a socket: it decodes a header and a
-- message with `Reader` (Sv2), looks the job of a share up in a `JobWindow`, and answers through a
-- `WriteQueue`. Before that the listener has asked the `RateLimiter`, which also hears of bad shares
-- and of closed connections. The stratifier makes jobs with the branch of `merkle::`
-- (Merkle), written in the hexadecimal text of utils.hpp (Hex), and pays to the script of an address
-- (Address). A session splices its miner's payout into the coinbase of a job, tells the miner of it, and
-- rebuilds the header of a share from the same parts; the stratifier knows the shares of the round,
-- and each accepted share may change the session's difficulty (Vardiff).
--
-- Files. All sources are in yumtech/mkpool-src/src.
--   Prelude        names and lemmas that the modules share
--   Sv2.Writer     sv2_codec.hpp, class Writer: a writer is its buffer
--   Sv2.Reader     sv2_codec.hpp, class Reader: a method takes a reader to a result and the reader
--                  behind it, or to the exception
--   Sv2.Decodes, Numbers, Blobs   the methods of Reader against those of Writer
--   Sv2.Stable     what every method of Reader keeps to on any input
--   Sv2.Frame      sv2_messages.hpp: Header, is_channel_msg, frame_length_ok, wrap_message
--   Sv2.Client     sv2_messages.hpp: the structs that the pool reads; Layout and Shares have what a
--                  client writes
--   Sv2.Server     sv2_messages.hpp: the structs that the pool writes; Peer and Replies have what a client
--                  reads
--   Hex            utils.hpp, the first part: hexadecimal text and integers
--   JobWindow      job_window.hpp; History has what was pushed, Lookup what is found
--   WriteQueue     write_queue.hpp; Invariant has the queue with its writes in flight, Push and Fifo
--                  the steps, Backpressure the watermark
--   RateLimiter    rate_limiter.cpp; Tokens is one bucket, Bans and Limit the whole limiter
--   Merkle         merkle.cpp; Tree has the tree over all transactions, Root the theorem
--   Address        address.hpp and address.cpp; Base58, ConvertBits, Bech32, CashAddr and Decoder have
--                  the code in its order, Programs and Outputs what is accepted, Regroup and BigNumber
--                  the numbers behind the digits, Checksum and OneCharacter which change
--                  the checksum of Bech32 finds
--   Block          utils.hpp, the second part: block parts, targets, pushes, and the check of a time
--   Blacklist      blacklist.cpp; Words has which workers are blocked
--   Zcash          zcash.hpp, the compact sizes; Compact has their round trip, Transparent the scripts of
--                  addresses
--   StratumProtocol  stratum_protocol.cpp; Versions has what a mask lets pass, Negotiation which mask is
--                  granted
--   Reals          what the code uses of floating point, as a parameter
--   Vardiff        vardiff.hpp and vardiff.cpp; Bounds has which difficulties are set
--   Stratifier     stratifier.hpp and stratifier.cpp: the jobs, the table of shares, `publish` for the
--                  change of block at the end of updateWork
--   Session        client_session.hpp: the state, the effects and the outside of a V1 session
--   Session.Coinbase, Payouts  client_session.cpp: the coinbase of a merge-mined block, and the outputs
--                  of a session's coinbase (build_session_coinbase2)
--   Session.Notify   client_session.cpp: notifyNewJob, emit_job, emit_job_custom, send_set_difficulty
--   Session.Blocks   client_session.cpp: submit_block_candidate, maybe_submit_aux_block
--   Session.Requests, Replies, Difficulty   client_session.cpp: of handle_submit, what is read of a request,
--                  the rejections, and the difficulties
--   Session.Submit   client_session.cpp: handle_submit up to the hash; Judge has the rest and the branch of
--                  process_line
--   Session.Passwords, Authorize   client_session.cpp: handle_authorize and the answers of the nodes
--   Session.Lines    client_session.cpp: handle_configure, handle_subscribe, handle_suggest_difficulty and
--                  process_line behind the parser
--   Session.Works, LetIn, Idles, Guards, Admission, Suggestions   whom a session works for, through all of
--                  its steps, and what a suggested difficulty does
--   Session.Keeps, Counts, Solves, Registers, Once, Rolled, Stale, Coinbases, Listed, Outputs   what a submit
--                  leaves alone and counts, which blocks are sent, the table of shares through a round,
--                  rolled versions, stale shares, notified against rebuilt coinbases, and what is paid
--   Tests          runs at concrete inputs
--
-- Conventions. A byte is a number, a text the list of its character codes. The types of the C++
-- fields bound the numbers; where a theorem needs a bound it is a hypothesis (`IsU32`, `IsByte`). An
-- exception is a value: `err` of Sv2.Reader, `none` of Option. Shifts and masks are written as
-- divisions and remainders by powers of two. A `float` on the wire is its 32-bit pattern. Time is an
-- argument. A mutex held for a whole method makes the method one step; `allow_connection` takes its
-- lock twice, so its second part is a call of its own (`admit`).
--
-- Fuel. `branch_loop` of Merkle has the number of transactions as fuel: each round halves a level, so
-- that it is enough. `emit` of Address.ConvertBits has the number of bits: each round takes at least
-- one. `push_carry` of Zcash.Transparent has two rounds, for a carry below 256. `hex2` of Session drops
-- up to 14 of the 16 digits that a number of 64 bits has.
--
-- Parameters. SHA-256 is OpenSSL's; it is an argument of what Merkle defines, with the hypothesis that
-- a digest has 32 bytes, and of what Address defines, where it may also throw. The JSON
-- values of nlohmann::json are an argument of what StratumProtocol defines: their kinds, elements and
-- members.
--
-- Of the sessions the hash functions, floating point, `equihash::verify_200_9`,
-- `utils::ecash_rtt_ok` and the redirected coinbase of Zcash are one record of parameters, `Outside`.
-- Values of 64 bits with a sign are numbers below 2^64, whose upper half is negative. A handler runs on
-- the session's strand, so it is one step: it takes a `World`, the session with the stratifier and the
-- limiter it shares and the effects so far, to a `World`, and says whether an exception left it.
--
-- Not modelled: sockets, TLS, threads, the database, RPC to the node, logging and configuration are
-- calls of libraries. Of the sessions, the buffer of the socket's lines and Stratum V2 are not yet part
-- of it; nor is how the stratifier makes a job of a template, the generator, the cluster and the relays.
pub mod Prelude
pub mod Sv2
pub mod Hex
pub mod JobWindow
pub mod WriteQueue
pub mod RateLimiter
pub mod Merkle
pub mod Address
pub mod Block
pub mod Blacklist
pub mod Zcash
pub mod StratumProtocol
pub mod Reals
pub mod Vardiff
pub mod Stratifier
pub mod Session
pub mod Tests
