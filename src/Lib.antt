-- ===== src/Lib.antt =====
-- A model of the bit-level core of the GPU NR baseband platform, in files for its parts. The transmit chain
-- cuts a transport block into code blocks (src/segmentation.cpp), which get a CRC (src/crc.cpp) and a
-- base graph with a lifting size (src/ldpc.cpp, include/nr_bb/ldpc_bg_tables.hpp); coded bits are
-- selected from a circular buffer (src/rate_matching.cpp), scrambled (src/scrambling.cpp) and
-- mapped to symbols (src/modulation.cpp), which are spread over layers (src/layer_mapping.cpp). The receiver
-- makes soft bits of the symbols, adds those of retransmissions (src/harq.cpp, src/llr.cpp) and decodes them
-- (src/ldpc.cpp). Beside them stand the scheduler of a slot (src/scheduler.cpp), the session that answers
-- messages like those of FAPI (src/fapi.cpp), and the emulator of the fronthaul (src/fronthaul.cpp).
--
-- The files:
--   Base: the library's names, lists over the native numbers, `Result` for the exceptions of
--     include/nr_bb/types.hpp, bits and powers, integers, texts as lists of character codes, and `Double`,
--     the operations on `double` that the modelled code uses, an instance argument of its users, with
--     `Signed` for signs, infinity and roots. Examples run on whole thousandths. Base/Sorting has the
--     sorts of the standard library.
--   Crc: src/crc.cpp. `compute_crc` folds `crc_step` over the bits; `crc_attach` and `crc_check` use it.
--   Scrambling: src/scrambling.cpp, with the arrays of the Gold sequence as lists that are written by
--     index.
--   Layers: src/layer_mapping.cpp, for symbols of any type.
--   Parity: what the encoders of src/ldpc.cpp and of the compact scaffold have in common, line for line: the
--     elimination over a matrix that is one list (`eliminate`), and the test of a word (`rows_even`).
--   Ldpc: src/ldpc.cpp. The choice of a base graph (`select_basegraph`) and of a lifting size
--     (`select_lifting`, `i_ls_for_zc`); Ldpc/Tables holds the edges of the base graphs, Ldpc/Graph
--     the graph of a code (`make_graph`) and its lifted edges (`expand_edges`), Ldpc/Encode the encoder
--     (`ldpc_encode`) and the syndrome test, Ldpc/Decode the decoder (`ldpc_decode`).
--   MinSum: the iterations of the decoder (`decode_minsum`), which the compact scaffold repeats.
--   Segmentation: src/segmentation.cpp. `segment_transport_block` computes the number of blocks
--     (`block_count`) and makes the plan of each (`plan_blocks`, `plan_block`).
--   RateMatching: src/rate_matching.cpp. `rate_match` reads bits from a circular buffer, `rate_dematch` adds
--     soft bits into one.
--   Llr: src/llr.cpp, soft bits from bits, hard decisions, and the addition of soft bits.
--   Harq: src/harq.cpp. A `HarqBuffer` is the state; `upsert`, `get`, `clear` and `size` its operations.
--   Scheduler: src/scheduler.cpp. `schedule` filters, sorts and packs the users of a slot.
--   Metrics and Deadline: src/metrics.cpp and src/deadline.cpp, the counts of errors and of late slots.
--   Fapi: src/fapi.cpp. A `FapiSession` is the state, `handle` one message; Fapi/Json reads and writes
--     the lines.
--   Modulation: src/modulation.cpp, with the Gray code on integers and the symbols over `Double` and `Signed`.
--   Fronthaul: src/fronthaul.cpp. The random source is a function from the seed and the number of a draw, and
--     the file of the dump is the list of its bytes.
--   Estimation: src/channel_estimation.cpp, over the same interface; an index of a pilot is a natural number.
--   Dmrs: src/dmrs.cpp, `generate_dmrs`, whose dimensions are integers that it tests.
--   CudaRef: src/cuda_cpu_ref.cpp, over two such types, `float` and `double`, with conversions between them.
--   Educational: the compact scaffold (educational/nr_style_compact_ldpc), the short code
--     (educational/src/ldpc_short.cpp) and symbols without the Gray code (educational/src/binary_pam.cpp).
--
-- Numbers: a size or an `int` that cannot be negative is a natural number, and the 32-bit counters of the
-- session wrap around as they do in the source. A value is a bit where the source tests for one.
--
-- Fuel: `refine_count` runs on 10000 rounds: the source throws when its counter, which starts at 1 or
-- above and goes up by 1 in a round, reaches 10000. The loop of `gray_to_bin` runs on as many rounds as its
-- number, which it halves in each. The search between two pilots runs on as many rounds as the number of
-- the last pilot, since each makes the gap smaller. The decoders run on their `max_iter` rounds, as in the
-- source. Every other loop is a recursion on its data.
--
-- Not modelled: the floating-point signal processing (transforms, channels, the equaliser of a
-- MIMO channel), the benchmarks, the CUDA kernels and the Python tools.
pub mod Base
pub mod Crc
pub mod Scrambling
pub mod Layers
pub mod Parity
pub mod Ldpc
pub mod MinSum
pub mod Segmentation
pub mod RateMatching
pub mod Llr
pub mod Harq
pub mod Scheduler
pub mod Metrics
pub mod Deadline
pub mod Fapi
pub mod Modulation
pub mod Fronthaul
pub mod Educational
pub mod Estimation
pub mod Dmrs
pub mod CudaRef
