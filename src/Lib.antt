-- ===== src/Lib.antt =====
-- SafeCast: SRTP media for an MLS group, with fine-grained rekeying and per-sender authentication
-- (TESLA), as a model of the Rust crate of the repository.
--
-- The sender. An MLS epoch gives each stream a seed. `src/keying/ratchet.rs` turns it into a one-way chain
-- of secrets, one SRTP key and salt per generation (Keying.Ratchet). `src/keying/granularity.rs` decides at
-- each packet whether a generation begins, and rekeys the cipher (Keying.Granularity).
-- `src/tesla/sender.rs` appends to the protected packet its interval, the disclosed chain key of `d`
-- intervals before and a MAC (Tesla.Sender), over the key chain of `src/tesla/chain.rs` (Tesla.Chain), the
-- schedule of `src/tesla/schedule.rs` (Tesla.Schedule), the MAC of `src/tesla/mac.rs` (Tesla.Mac) and the format
-- of `src/tesla/mod.rs` (Tesla.Extension). A signed commitment, `src/tesla/commitment.rs`, announces anchor and
-- schedule (Tesla.Commitment). `src/transport/rtp.rs` is Transport.Rtp.
--
-- The group. `src/keying/mls.rs` exports a stream's keys from an MLS group and rekeys the group
-- (Keying.Mls, with `seed_from_exporter` of `src/keying/ratchet.rs`). Agreement is about two members of one
-- epoch, Identity about the texts `label:role`.
--
-- The simulation. `src/simulation/sender.rs`, the modeled stream of the benchmarks, is Simulation.Sender.
-- `src/simulation/network.rs` is Simulation.Network: Config has its data, Counting and Arrivals follow
-- its loop over the packets, Order and Lateness its walk over the arrivals, Bounds what its statistics say of one arrival, Disturb is `disturb` as a
-- whole.
--
-- End to end. Delivery sends a stream with the modeled sender, lets its datagrams arrive in the order that
-- a schedule gives and hands each to the receiver, as the loop of `benches/realistic_receiver.rs` does
-- (there a packet is produced when it is first needed). Link says what libsrtp does with indices and
-- replays, Numbers counts generations, Sending and Receiving follow the two sides (Opening and Tracking
-- take an arrival as far as the cipher), Stream has any arrival order and Network that of `disturb`.
-- Authentic puts TESLA on top, the way `tests/tesla.rs` does: the sender signs its commitment and
-- authenticates each datagram, the receiver accepts the commitment and processes the arrivals. Signing
-- follows the sender, Accepting the commitment, OnAir and Hearing an arrival, Broadcast the whole stream;
-- Honest, Trusting and Joining of Tesla.Receiver are about a receiver that hears only this sender.
--
-- The demo. `demo/auth-service/src/main.rs` is Demo.AuthService; a handler that panics returns `panic` and
-- leaves the mutex poisoned. `demo/safecast-client/src/ds_client.rs` is Demo.DsClient, with the two
-- services' network as a state that each call changes; Directory puts client and service together.
-- `demo/safecast-client/src/main.rs` is Demo.Client: Members verifies the group, Sessions makes the
-- receiver's sessions with `src/transport/srtp_session.rs` (Transport.SrtpSession), Frames and Receive
-- follow the packets, and Media goes from the group's keys to what is displayed. Its `create_group` and
-- `join_group` are Demo.Group, with the loops in Polls and the checks of the added members in Vouched.
-- Demo.Main is `main` as a whole, from the registration to the media, with its first step in Entering and
-- its course in Steps.
--
-- The receiver. `src/tesla/receiver.rs` strips the extension, applies the accept test, has the packet
-- decrypted, checks the disclosed key, settles the packets that waited for it and files this one
-- (Tesla.Receiver; its state in State). The decryption is `src/receiver.rs` (Receiver.Manager; its state in State too, its phases in
-- Phases, its constructor's outcomes in Making): it finds the packet's generation (`src/receiver/index_recovery.rs`, `src/receiver/generation.rs`:
-- Receiver.IndexRecovery, Receiver.Generation), looks for the key in a ring of the last `k` keys or
-- ratchets a clone forward, and adopts the clone only if the packet authenticates.
--
-- Conventions. A function that may panic (an assert, an index, an `expect`, an `unreachable!`) returns
-- `Exec`, of Base.Panics; one that changes its object returns the new object. A function of the source
-- keeps its name; where two objects have one of the same name, the module tells them apart, and a
-- constructor is named after its type (`new_sender`). Parts of a long function are functions of their
-- own, in the order of the source: those of `unprotect` are `locate`, `classify`, `fetch`, `install`,
-- `decrypt` and `conclude`, those of `process_arrival` are `on_split`, `screen`, `open_packet`,
-- `after_srtp`, `disclose` and `await`. Numbers are natural numbers. Where the source leaves a sum or a
-- difference of machine words unchecked, and it can reach the limit, the wrap is written out as in a
-- release build; the counters of statistics and packets are unbounded. The maps and the ring are lists.
--
-- Fuel. The loop of the key catch-up runs on a fuel of the generations to derive, the other loops by
-- recursion on their count or list; the demo's receiver reads a list of what its socket gives, after
-- which there is silence until its timeout, and a loop that polls a service runs on a fuel of polls.
-- `slice::sort_by_key` is an insertion sort (Base.Sorting).
--
-- Libraries. The crates `hmac`, `openssl`, `openmls` (HKDF and signatures) and `srtp` are the records of
-- the module Crypto: their operations with the lengths they return, and for `srtp` that a new session is
-- made (memory is taken to suffice), that a stream is added to it for a replay window of 64 to 32767 or of 0,
-- which stands for 128, and for no other, that loading a key
-- into a stream that exists succeeds and that a packet's passage keeps the key; SrtpLink of Delivery.Link adds
-- the index of each packet, of 48 bits, and the replay window, which a key loaded in place leaves alone. The group operations of
-- `openmls` are OpenMls of Keying.Mls, with what RFC 9420 promises of exports and commits; the demo's sessions
-- are SrtpTemplates and SrtpPair of Transport.SrtpSession, with the replay protection of RFC 3711 inside its
-- window; `rand` and `f64` are Randomness of Simulation.Network.Config; Shared of Demo.Main says that both phases of a
-- client see one group; base64, JSON and the TLS encoding are
-- Codec of Demo.DsClient, and the routing of `actix-web` and `reqwest` is Routes of Demo.DsClient.Directory. The
-- Tests instantiate each of them.
--
-- Not modelled: the random number generators, whose results are arguments or parameters; sockets, command lines and log output; the benchmarks, which measure; and
-- the vendored libraries.
pub mod Base
pub mod Crypto
pub mod Transport
pub mod Keying
pub mod Receiver
pub mod Tesla
pub mod Simulation
pub mod Demo
pub mod Delivery
pub mod Tests
