-- ===== src/Lib.antt =====
-- RAFTInfer: verification of the host-side core of the C++ execution library under cpp/.
--
-- The program runs one language model, Qwen3.5, on one GPU. A model file is read into a catalog of
-- metadata and tensors (cpp/model/gguf_reader.cpp), which gives a configuration
-- (cpp/model/qwen35_config.hpp); from the configuration and a context length the library lays out
-- the state of a session (cpp/execution/qwen35_state.cpp: a convolution window and a recurrent
-- matrix for each block of linear attention, a key-value cache for each block of full attention);
-- a session checks requests and commits their tokens (cpp/execution/session.cpp) around an executor
-- (cpp/execution/qwen35_executor.cu), and the C interface gives sessions to other languages
-- (cpp/src/c_api.cpp); a kernel is taken from a registry (cpp/registry/operator_registry.cpp) and the scratch
-- memory of a step from a bump allocator (cpp/execution/workspace_layout.hpp) that works inside one
-- allocation (cpp/execution/workspace_arena.cu).
--
-- Files and what they model:
--   Base/       what all parts use: exceptions as values (Errors), strings as their bytes (Texts),
--               words of 64 and 32 bits (Words), masks by a power of two (Bits), signed numbers
--               (Int), lists with native lengths (Lists), Boolean tests (Tests).
--   Gguf/       Types: the catalog of a model file (cpp/model/gguf_types.hpp). Reader, Catalog, Read:
--               the class Reader, the checks, and read_catalog (cpp/model/gguf_reader.cpp). Spans,
--               Ranges: the ranges of the tensors. Position: where a reader stands.
--   Model/      Config: Qwen35BlockKind, Qwen35BlockPlan and Qwen35Config. A float is its bits.
--               Fields: how a key of the catalog is read (cpp/model/qwen35_config.cpp). Derive:
--               derive_qwen35_config. Manifest: validate_qwen35_manifest
--               (cpp/model/qwen35_manifest.cpp). Derive/ and Manifest/: their proofs. The conversion
--               of a double to a float is a parameter. Spec: the tokenizer's part of the metadata as
--               bytes; File: Model and MappedFile (cpp/model/model.cpp), where the open descriptors and
--               the mappings are a state and the results of open, fstat and mmap are parameters.
--               Payload, Tensors: their proofs.
--   Workspace/  Workspace.antt itself: WorkspaceLayout with create, allocate and reset. Place, Bounds:
--               one call of allocate. Regions: a run of calls. Arena: WorkspaceArena, where the
--               address that the memory resource returns is a parameter.
--   Registry/   Enums, Signature, Capability: the enumerations, signatures and capabilities, and
--               rejection_reason. Fits/: what a capability demands. Dispatch: OperatorRegistry with
--               register_kernel and resolve. Winner, Scan, Resolve, Agree, Register: their proofs.
--   State/      Checked: checked_mul, checked_add, checked_u32. Layout: Qwen35StateLayout and create.
--               Validate: require_valid_layout. Host: Qwen35HostState, its spans, commit_tokens and
--               reset. Layout/, Validate/ and Host/: their proofs.
--   Session/    Session.antt itself: the class Session (cpp/execution/session.cpp), its constructor and
--               validate_request. Policy: the execution policy. Executor: what a session uses of its
--               executor and device, as records of operations. What: the texts of exceptions. Calls:
--               prefill, decode, decode_greedy, diagnostics and reset. Steps, Moves, History,
--               Outcomes, Created: their proofs.
--   Api/        cpp/src/c_api.cpp. LastError: the buffer of the last error. Policies: the conversions of
--               policies. Sessions, Create, Diagnostics: the functions raftinfer_session_*. Engine:
--               cpp/src/engine.cpp and the functions of the interface that make an engine and load a model,
--               over a device and an upload that are parameters. RoundTrip, Statuses, Opened, Loading:
--               proofs. A null pointer is none, and the sizes of the structures are parameters.
--   Executor/   the host's part of cpp/execution/qwen35_executor.cu. Executor.antt itself: the position,
--               the poison, validate_request, the chunks of a prompt, prefill and reset; the device and
--               the decode graphs are operations on a state that is a parameter. Decode: decode and
--               decode_greedy. Positions, Greedy, Chunks: proofs. Law: that the executor keeps the law
--               which Session/Agree asks of an executor. Graph, Captures: CudaGraphDecode
--               (cpp/execution/cuda_graph_decode.cu), over what the calls of CUDA return.
--               Resolve: validate_config and resolve_execution_policy. Estimate: workspace_estimate.
--               Buffers: allocate_buffers, as the sequence of sizes and alignments that it takes. Policies,
--               Room, Served, Widths, Covered, Parts, Blocks, Enough: their proofs.
--   Operators/  Operators.antt itself: validate_tensor_desc (cpp/operators/tensor_validation.cpp). An
--               enumeration from outside is a number. Sums, Exact: proofs.
--   Kernels/    the host functions of cpp/kernels. Attention: shapes, launch policies and sizes of caches
--               and workspaces (qwen35_attention.cu). Online: plans and workspaces of online attention
--               (qwen35_online_attention.cu). Delta, Argmax: workspaces (qwen35_delta.cu,
--               qwen35_primitives.cu). DeltaSizes, Buckets, Partitions: proofs.
--   Matmul/     the host's part of cpp/execution/cublaslt_matmul.cu. Matmul.antt itself: the checks and sizes
--               of a plan, the check of a run's buffers. Exact, Runs: proofs.
--   */Tests     runs at concrete inputs; also Model/FileTests, Executor/BufferTests and
--               Api/EngineTests.
--
-- How the code is rendered. std::size_t and the integers of fixed width are native numbers with the
-- bounds size_max and u32_max; a place where the C++ wraps or is tested for it says so with `%` or a
-- comparison. A function that throws returns a Result, whose Error keeps the exception's type and
-- message. A member function takes the object and returns the new one. A std::vector is a list; a
-- span or a pointer into a vector is an offset (with a length), and a reference to a registration is
-- its place in the deque. Loops are recursions on the list or the count that they run over, so none
-- needs fuel but three: std::to_string has one round more than the value of its number, which is
-- more than its digits; the loop over the chunks of a prompt has the number of its tokens; and the
-- loop that doubles a bucket of contexts from 512 has 64 rounds, after which it is above 2 ^ 64. The largest
-- std::vector of each element type, std::vector::max_size, is a parameter, and so is sizeof(MetadataValue), which the reader charges for the elements of an array.
--
-- The environment's setting of the decode attention, and the texts of the standard library's exceptions,
-- are parameters too.
--
-- Not modelled: the device code and its floating-point arithmetic (cpp/kernels, and the reference
-- operators in cpp/reference), since the checker has no floats; the launches of a chunk, the tensors of
-- the weights and the plans of the matrix products in the executor (cpp/execution/qwen35_executor.cu),
-- whose chunk is one step of a parameter; the calls of cuBLASLt, RMM and CUDA
-- (cpp/execution/cublaslt_matmul.cu, cpp/foundation, cpp/model/cuda_weights.cu);
-- the smoke test, the peak of the memory and the tokenizer buffer of the C interface; a session in a
-- build without CUDA, which has no executor; std::bad_alloc from the growth of small containers; and the hash functions
-- of the registry, on whose values nothing depends but speed.
pub mod Base
pub mod Model
pub mod Gguf
pub mod Workspace
pub mod Registry
pub mod State
pub mod Session
pub mod Api
pub mod Executor
pub mod Operators
pub mod Kernels
pub mod Matmul
