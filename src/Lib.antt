-- ===== src/Lib.antt =====
-- The Nimble client: it connects to a server over an unreliable datagram transport, joins a game,
-- downloads the game state, sends predicted steps and receives authoritative ones.
--
-- The parts and their modules (paths from the repository's root):
-- - Client: the state, src/include/nimble-client/client.h, connection_quality.h and game_state.h. A
--   struct is a record with the source's fields, less the logs and the allocator pointers.
-- - Platform: what the client takes from the libraries that are not in the repository (flood, stats,
--   lagometer, nimble-serialize, nimble-steps, blob-stream, ordered-datagram, monotonic-time, the
--   transport) and the operations on `float`: a record of types and functions with no law, over
--   which all else is generic. Where a theorem relies on how these libraries count or keep steps,
--   the laws are named hypotheses (NumberLaws, OrderLaws, LateLaw, RepeatLaw, StepLaws,
--   PredictedLaws, the laws of `float`), which the platform of the tests fulfils.
-- - Quality: src/lib/connection_quality.c, its build with logging in Quality.Logging. GameState:
--   src/lib/game_state.c.
-- - Handlers: src/lib/connect_response.c, join_game_response.c, join_game_participants_full.c,
--   download_state_response.c, download_state_part.c and game_step_response.c. Pong: src/lib/pong.c.
-- - Incoming: src/lib/incoming.c and receive_transport.c, the loop as it is written in Incoming.Loop.
-- - Outgoing: src/lib/outgoing.c, send_steps.c and prepare_header.c.
-- - Lifecycle: src/lib/client.c and incoming_api.c. Prediction: src/lib/client_utils.c.
-- - Realize: src/lib/network_realizer.c, the state machine over the client.
-- - Debug: src/lib/debug.c. Example: the program src/examples/main.c.
-- - Protocol: an abstract view of a session with its steps, which the update of a client refines.
-- - Tests: a small concrete platform, a whole joining on it, and instances of the theorems.
-- The children of a module are named for what they prove of it.
--
-- How they interact: the realizer calls the client's update; that takes every datagram that waits
-- (Incoming), which reads its pong and calls one handler, then judges the connection (Quality) and
-- sends (Outgoing). A function that changes the client returns the new client; one that reaches the
-- surroundings also takes and returns a `World`: the datagrams that wait and were sent, the live
-- game state blocks, and how often the clock was read. A C function's code is a ℤ.
--
-- Numbers: `size_t` counters and `uint32_t` ids wrap at 2 ^ 64 and 2 ^ 32, octets are taken mod 256,
-- `int` has 32 bits; the conversions between them are written out (Prelude.Int). Differences of
-- signed times and of `int` averages are taken as integers, without overflow.
--
-- Loops are structural: over the datagrams that wait, over the participants of a response, over the
-- entries. The one on fuel is the receive loop of Incoming.Loop, which wants more fuel than datagrams
-- wait, since a round takes one of them and feeding adds none. The endless loop of the example is
-- run for as many rounds as it is given arrivals.
--
-- Choices: the client is modelled in the build without CLOG_LOG_ENABLED, without logging and
-- assertions (a first connect request breaks the assertion on the connection id,
-- prepare_header.c:13); what the logging build does besides is modelled in Quality.Logging, where a
-- described quality is evaluated again, and in Debug. The blob stream that the receiving logic
-- writes is the client's own. A write past the end of the participant entries is undefined in C;
-- the model drops it and sets `lookup_overrun`. What set-up leaves unset keeps the value of the
-- memory before. That goes for `blobStreamIn` and `blobStreamInLogic` too, which no function
-- initialises: the theorems on a whole joining speak of a client whose memory holds them in use,
-- which the example's does not; what such a memory comes to is in Lifecycle.Streams and
-- Realize.Streams. The latency is divided by the tick duration, which set-up makes 16; a division
-- by 0, which C leaves undefined, gives 0. Allocation does not fail. The blocks of the blob
-- allocator that are followed are the game states'. `nimbleClientInit` gives the same allocator to
-- the pending steps of nimble-steps; what those take from it is a part of their state, and they are
-- relied on to free only that, as the allocator is to give out no live block. Signed overflow is
-- undefined in C, and theorems keep away from it.
--
-- Not modelled: the libraries named above; the prototypes in headers other than those named; the
-- printing of the statistics; the sleep of the example and its parsing of steps that it only logs.
pub mod Prelude
pub mod Platform
pub mod Client
pub mod Quality
pub mod GameState
pub mod Handlers
pub mod Pong
pub mod Incoming
pub mod Outgoing
pub mod Lifecycle
pub mod Prediction
pub mod Realize
pub mod Example
pub mod Debug
pub mod Protocol
pub mod Tests
