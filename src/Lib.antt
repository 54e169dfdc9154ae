-- ===== src/Lib.antt =====
-- An LLM inference engine, but for its device code: requests, the blocks of the key-value cache with
-- their prefix cache, the scheduler, the engine's step, the host arrays of a model step, the
-- tokenizer, the configuration, the weight loader and the shards of the linear layers.
--
-- The parts and their files:
-- * Sequence (include/engine/sequence.h, src/engine/sequence.cpp, include/core/sampling_params.h):
--   one request with its tokens and its block table. Sequence/Blocks is about its logical blocks.
-- * BlockManager (include/engine/block_manager.h, src/engine/block_manager.cpp): the blocks, their
--   reference counts, the free and used ids, and the map from hashes to blocks. `allocate`,
--   `deallocate`, `can_append` and `may_append` are the functions of the same names;
--   `allocate_step` and `release_block` are rounds of their loops. Invariant states what the state
--   satisfies for given holders of the blocks; Claim and Step lead to Allocate; Release and Append
--   are about the other operations.
-- * Scheduler (include/engine/scheduler.h, src/engine/scheduler.cpp): the queues, and the two ways
--   to choose the sequences of a step. `prefill_loop` and `decode_step` are the two halves of
--   `schedule_default`; `admit_loop`, `prefill_candidates`, `chunk_loop` and `decode_step` the phases
--   of `schedule_chunked`; `make_room` is the preemption loop of a decode. Below it, Invariant ties
--   the queues to the statuses and the block tables to the reference counts, Moves is about one
--   admission and one preemption, Room, DecodeOne and Decode about decode, Prefill and Admission
--   about the two admission loops, Work and Chunked about chunks, Default and Steps about whole
--   steps, and Postprocess about taking in the sampled tokens. Frame, FrameDecode and FramePrefill
--   are about what a step leaves alone, Progress and Advance about the tokens that sequences may
--   still get.
-- * Engine (include/engine/llm_engine.h, src/engine/llm_engine.cpp): construction, requests, and
--   `step`, which calls the scheduler, the model runner and `postprocess`. Runs has the engines that
--   requests and steps reach; EndToken is about the end token. Generate has `generate_stream` and
--   is about the order of its outputs; Batches is about what the runner gets from the scheduler, Ends
--   and Stream are about the end of a run.
-- * Runner (src/engine/model_runner.cpp): `prepare_prefill`, `prepare_decode` and
--   `build_block_tables` up to the copies to the device. Slots is about the cache slots, Prefill
--   about the loop over the tokens. Scratch has the bump allocator of a graph capture, Captured the
--   batch sizes of the graphs, Pinned the staging memory of the copies, Cache the key-value cache
--   with CacheViews about the parts of its layers, and Samples the sampling inputs. Accepts is about
--   the batches that can be prepared, Run has `run`.
-- * Parallel (src/utils/tensor_parallel.cpp): `all_reduce_sum` of the communicator within one
--   process. Reduce is about the sum, Arrivals and Orders about the calls of the ranks.
-- * Allocator (include/utils/cuda_allocator.h, src/utils/cuda_allocator.cpp, and the destructor of
--   `Memory` in src/utils/tensor.cpp): the cache of device blocks. Sizes is about the bucket sizes,
--   Blocks about who holds a block, Live about runs of allocations and destructions.
-- * Tensor (include/utils/tensor.h, src/utils/tensor.cpp): shapes, strides and views. Views is about
--   `slice`, Reshape about `reshape`.
-- * Text, Bpe and Tokenizer (src/utils/tokenizer.cpp, include/utils/tokenizer.h): Text has the byte
--   tables and UTF-8, with Characters about the split into characters, Encoder about the tables and
--   Printable about the printed form of bytes; Bpe has byte-pair encoding, with Search about the
--   best pair and Reduction about the whole; Tokenizer has `encode` and `decode`, with Segments
--   about the special tokens, Words about the cut into words, Vocabulary about the ids of one word
--   and Encode about whole texts;
--   Load has what the constructor makes of the values in its files.
-- * Config (src/core/config.cpp, include/core/config.h): `load_hf_config`, and in Launch
--   `from_model_dir`. Powers is about powers of two, Checks about what is accepted.
-- * SafeTensors and Copy (src/utils/loader.cpp, include/utils/loader.h): `open_safetensors` is
--   `SafeTensorsFile::open`; Entries is about where its tensors lie; Registry has the registry of
--   parameters and the packed names, with Names, Prefixes and Load about them; Copy has the copies and shards,
--   with Layout about the offsets of elements and Gather about gathering them.
-- * Linear (src/layers/linear.cpp, include/layers/linear.h): the constructors of the parallel layers
--   and the partitions of their weights, and in Loaders the weight and bias loaders. Partition is
--   about who owns a row, Shards about the layout of a merged weight.
-- * Transformer (src/models/transformer.cpp): `register_parameters` of the model and its parts, as the
--   list of the names in order, and the packed modules. Checkpoint is about the names of a checkpoint.
-- * Base has the Boolean tests, list functions and results that all share; Tests the concrete
--   states and the examples.
--
-- The engine adds sequences to the scheduler; the scheduler hands a sequence to the block manager
-- when it is admitted, decodes, is preempted or finishes; the runner reads the sequences that were
-- scheduled. A `Sequence*` is an index into `sequences_`, so that all parts see one sequence.
--
-- Operations that can fail return a `Result`. Its faults are a failed `assert`, an access outside a
-- container, a reference count below 0, an `invalid_argument` or `runtime_error`, an integer
-- division that stops the program, and fuel that has run out. `Safe r P` says that `r` is no
-- fault but a failed `assert`, and that `P` holds of what it returns; a build without asserts would
-- go on there. The functions whose theorems name the result have no such exception.
--
-- Tokens and other 32-bit numbers are bit patterns; counts of tokens, blocks and sequences are
-- plain numbers, since the code keeps them non-negative and far below 2^31, with subtraction only
-- where the code stays non-negative. Sizes of memory are below 2^63; block sizes are not 0, and
-- neither is `tp_size` once the loop of the merged layer is reached. `num_batched_tokens` adds the length before it takes off the
-- cached tokens. Null pointers do not occur.
--
-- Fuel: `make_room` gets one more than the number of running sequences, since each round takes one
-- off `running_`; `decode_loop` gets the number of running sequences for the same reason. The other
-- loops run over lists, but for `double_up` with its eleven rounds from 512 bytes to 1 MB, and for
-- the tokenizer's loops, whose fuel is the length of the text or the number of symbols: each round
-- takes a byte or a symbol at least. The loop of `encode` over a text returns `none` where the fuel
-- runs out, which it does only for an empty special token; `generate_loop` returns `none` where the
-- given number of steps runs out, which without chunked prompts needs at most as many steps as tokens
-- are allowed to all sequences.
--
-- Parameters: XXH64 (package xxhash) as a function from bytes to a number, the model runner's `run`
-- as a function from the sequences to a result (Runner/Run has it, with the model on the device and
-- the sampler as functions), and `cudaMalloc` as a function from the blocks it
-- has handed out and a size to a pointer; `cudaHostAlloc`, the limit that the free device memory
-- sets, and the kernel `add_inplace` are functions too. The JSON library (nlohmann) and the file system are the
-- records `JsonLibrary`, `HeaderLibrary` and `Files`; the regular expression (PCRE2) is the function
-- `match_at` from a text and an offset to a match; the loaders of the registry are functions.
--
-- Not modelled: the CUDA kernels and the layers' forward passes, those of the transformer and the
-- flash-attention wrapper (floating-point device code), the NCCL communicator, the JSON library (vendored), the reading of
-- files, the timing of `generate_stream`, and the runner's graphs and copies.
pub mod Base
pub mod Sequence
pub mod BlockManager
pub mod Scheduler
pub mod Engine
pub mod Runner
pub mod Parallel
pub mod Allocator
pub mod Tensor
pub mod Text
pub mod Bpe
pub mod Tokenizer
pub mod Config
pub mod SafeTensors
pub mod Copy
pub mod Linear
pub mod Transformer
pub mod Tests
