-- ===== src/Lib.antt =====
-- wasm-gpu runs many instances of a WebAssembly module at once on a GPU. The crate wasm-gpu is the
-- host: it lays out memories, tables, globals and segments in buffers, hands out pointers into
-- them, builds the input of a run and reads its output. The crate wasm-gpu-transpiler (imported by
-- the host as wasm_gpu_funcgen) translates a module into a shader: its entry functions, its values,
-- and the emulation of the numbers that a GPU does not have.
--
-- Parts, files and sources. Names of definitions are those of the source.
-- - Prelude and its children: names of the libraries, lists over the native numbers, little-endian
--   bytes, slices of buffers, regions, and Outcome: a value, a failed transfer, or a panic.
-- - Buffers: the buffers of the crate wgpu_lazybuffers, which is not part of the repository, as an
--   interface of operations with their documented behaviour, and an implementation on lists which
--   shows that the interface can be met. Arena: lemmas on a buffer that is filled from the front.
-- - Capability: wasm-gpu/src/capabilities.rs and atomic_counter.rs. The sets of ids are lists; the
--   counter, a static of the program, is passed along. Ids, Invariant and World follow any
--   interleaving of the owners of stores; Tracks is what the owner of one buffer uses.
-- - Memory: wasm-gpu/src/instance/memory (builder, pointers, wasm_limits_match). Isolation is a
--   builder over its life.
-- - Globals: wasm-gpu/src/instance/global, both the mutable and the immutable globals. Values is a
--   buffer of them over its life.
-- - Data, Elements and Table: wasm-gpu/src/instance/data.rs, instance/element.rs and
--   instance/table/builder.rs.
-- - Typed: wasm-gpu-transpiler/src/typed.rs, values, references and tuples and their bytes. Traps:
--   traps.rs.
-- - Functions and Parsing: wasm-gpu/src/instance/func.rs, func.rs and module/parsing.rs, with the
--   data of functions of wasm-gpu-transpiler/src/wasm_front.rs. Imports: wasm-gpu/src/externs.rs,
--   instance.rs and Module::typecheck_imports of module.rs. Matching says in terms of names, types
--   and limits what it compares. Constexpr: interpret_constexpr of
--   wasm-gpu/src/store_set/builder.rs.
-- - Initialization: wasm-gpu/src/module.rs. Globals, Segments, Tables and Functions are the steps;
--   Panics, Overlap and Linked relate them. StoreSet: wasm-gpu/src/store_set/builder.rs, the
--   builder and instantiate_module, which composes the steps.
-- - ControlFlow: wasm-gpu-transpiler/src/active_function/active_block.rs: States are the states of
--   control flow, Skipping is eat_to_end, Labels are the labels that a branch sets.
-- - Naga: naga-ext/src/block_context.rs: the expressions and statements of a shader function and
--   the context that builds them. Machine says what statements do, by the documented meaning of the
--   shading language, over an interface Gpu for its operations; it models no code of the
--   repository. Emission and Branches are about appended expressions and conditionals.
-- - Std: the functions of the standard objects that the translation calls, as names. Mvp:
--   wasm-gpu-transpiler/src/active_function/active_block/mvp.rs and sign_extension.rs: what is done
--   for each operator.
-- - ActiveBlock: wasm-gpu-transpiler/src/active_function/active_block.rs, block_label.rs and
--   flags.rs: the state of a block and the translation of its operators. Blocks opens and closes
--   blocks, with the functions of locals.rs on the arena of expressions, Populate is the
--   translation of control flow (the operators that open blocks in Operations), Function is
--   populate_base_function of active_function.rs. StackMachine is an abstract machine for the
--   operators of a basic block, which knows no statements and takes what an operator of numbers or
--   memory does to values as a parameter; it ends at a trap. Running, Statements, Addresses,
--   Growth, Direct, Correct, Supported and Refines lead from the emitted statements to it. Entering
--   and Arguments are about the values of a block's parameters, Ending, Nested and Fuel about
--   termination, Keeping and ExitState about the exit state of a populated block. A block whose
--   rest is translated into the second arm of a conditional keeps the enclosing blocks in a list,
--   which finish closes.
-- - CallOrder: wasm-gpu-transpiler/src/assembled_module/call_graph.rs, over an interface DiGraphs
--   for the graphs of petgraph, which is not part of the repository; Graphs implements it on lists.
--   Terminates is about the loops, Calls about the graph of the functions of a store set, Lookup
--   about CallOrder.
-- - Locals: wasm-gpu-transpiler/src/active_function/locals.rs: the variables that stand for the
--   locals of a function.
-- - Layout: wasm-gpu-transpiler/src/active_function (arguments.rs, results.rs, and io_base_index,
--   read_entry_inputs and store_output of active_function.rs): the words at which the shader reads
--   arguments and stores results. Session: wasm-gpu/src/session.rs, the host's side of the same
--   buffers and the split of a run into dispatches; Inputs, Outputs and Sizes relate the two.
-- - Access: wasm-gpu-transpiler/src/active_function/active_block.rs (addresses of accesses),
--   std_objects/flags.rs (the trap state) and std_objects/wasm_tys.rs (loads and stores of a word).
-- - I32: wasm-gpu-transpiler/src/std_objects/wasm_tys/native_i32.rs: the divisions of i32 with
--   their traps (Trapping) and its sign extensions (Extend); the rotations and the counting of
--   zeros are not modelled.
-- - I64: wasm-gpu-transpiler/src/std_objects/wasm_tys/polyfill_i64.rs: the shader functions on i64
--   as vectors of two words. WordOrder names the two orders of the words, that of the functions and
--   that of the README.
-- - LinkedStack: wasm-gpu-transpiler/src/linked_stack.rs.
-- - Tests: the theorems at concrete inputs.
--
-- Numbers. A value of a number type is its pattern of bits. Words of the shader wrap modulo 2 ^ 32,
-- the counter of ids and the size of a memory modulo 2 ^ 64. Positions inside one buffer are not
-- wrapped: a buffer of 2 ^ 64 bytes cannot be allocated. A run that draws ids draws fewer than 2 ^
-- 64 of them.
--
-- Fuel. pad_multiple and pad_up_to take as many rounds as they can need, the multiple and the
-- target; dispatches takes one more than the number of workgroups; collect takes the fuel as an
-- argument; populate bounds the nesting and the rounds of its calls by one more than the number of
-- operators; the two loops of to_call_order take as many rounds as the graph has nodes. The
-- theorems about them show that this is enough.
--
-- Not modelled: calls of wgpu and naga that only build objects (bind groups, pipelines,
-- expressions), locks and futures, the filling of a parsed module from the events of the parser,
-- the debug assertions, and the copies of live buffers between builders and instances. The number
-- of workgroups is computed by the source in 32-bit floats; it is a parameter. Basic blocks are
-- compared with the stack machine for a shared memory only, and what the shader functions compute
-- is a hypothesis there.
pub mod Access
pub mod ActiveBlock
pub mod Arena
pub mod Buffers
pub mod CallOrder
pub mod Capability
pub mod Constexpr
pub mod ControlFlow
pub mod Data
pub mod Elements
pub mod Functions
pub mod Globals
pub mod I32
pub mod I64
pub mod Imports
pub mod Initialization
pub mod Layout
pub mod LinkedStack
pub mod Locals
pub mod Memory
pub mod Mvp
pub mod Naga
pub mod Parsing
pub mod Prelude
pub mod Session
pub mod Std
pub mod StoreSet
pub mod Table
pub mod Tests
pub mod Traps
pub mod Typed
