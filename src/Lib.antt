-- ===== src/Lib.antt =====
-- TSC-VEE runs Ethereum bytecode inside of a trusted execution environment: a trusted application
-- in C, tscvee/ta, holds an EVM interpreter after evmone's advanced interpreter. Its parts are
-- 256-bit integers (src/uint256.c), the instructions on stack, memory and host
-- (include/instructions.h), the tables of gas costs and traits (include/instructions_traits.h), the
-- analysis that cuts the code into basic blocks (include/analysis_impl.h), and the loop that runs
-- the analysed code (include/execution.h). An instruction gets a pointer to the stack top and calls
-- the integers; a handler of include/analysis.h calls it and moves the top by the change that the
-- table of traits has for the opcode; the instructions on memory ask `check_memory_u64` first.
--
-- Paths below are from tscvee/ta.
--
-- - Base: native numbers, lists, tables, loops on fuel (`while`), bits, powers of two, integers.
-- - Uint128 and Uint256, src/uint256.c and include/uint256.h: a record of two words or two halves;
--   a C function that writes `*target` returns the value. `value128` and `value256` are the numbers,
--   `IsWord128` and `IsWord256` say that the words have 64 bits; words wrap modulo 2 ^ 64.
--   Their child modules are about sums and comparisons (Sum), shifts (Shift), bit operations
--   (Bitwise), the loops of `bits128` and `bits256` (Length), products and division.
-- - Division, `divmod128` and `divmod256`: one text over the record `Operations` of a width;
--   `Division.Interface.Laws` says what the operations have to do, and both widths fill it. The loop
--   has 129 rounds of fuel at 128 bits and 257 at 256, one more than the bits of a quotient; running
--   out is `none`.
-- - Bytes: `readUint64BE`, `readu128BE`, `readu256BE` and the loops of `u256_to_u8_32`,
--   `u256_to_u8_20` and `u256_to_u8_8` (include/instructions.h) on a list of bytes.
-- - Opcode (include/opcode.h), Revision (include/evmc.h), Traits and Gas
--   (include/instructions_traits.h): the constants, and the tables as the assignments that fill them.
--   An entry of the traits that nothing assigns is `none`; the code reads zeros there.
-- - Stack (include/execution_state.h, include/instructions.h, include/analysis.h): the space is a
--   list of 1024 items, a pointer is the number of items from the bottom. `values` is the abstract
--   stack, the list of the numbers held, the top first.
-- - Arithmetic: the instructions from POP to SAR on the stack space, Arithmetic.Handlers their
--   handlers. Arithmetic.Laws is about the handlers on the abstract stack.
-- - Exp: EXP with its price. The rounds of its loop are an argument; the theorem asks for one more
--   than the exponent.
-- - Shuffle: DUP1 to DUP16 and SWAP1 to SWAP16, with the number in the name as an argument.
-- - Block (include/analysis_impl.h, include/analysis.h): what the analysis sums up of a basic block,
--   as a fold over the table entries of its instructions, and the checks of `opx_beginblock`. The C
--   ints of the sums have no bounds here; the casts into `struct BlockInfo` are written out.
-- - Dispatch (include/analysis.h): the table of functions and `get_op_table`. A function is named by a
--   constructor; the two stack fields of an undefined instruction, which nothing assigns, are what a
--   parameter says.
-- - Analysis (include/analysis_impl.h): the whole of `analyze`, its vectors as lists and its code
--   pointer as a position. The loop has one round of fuel for each byte and one more, since every
--   round moves on. Analysis.Jumpdests has the reference definition of a jump destination,
--   Analysis.Targets the invariant of the recorded targets,
--   Analysis.Numbers the reference count that numbers the starts of blocks.
-- - Jump (include/analysis.h): `find_jumpdest`, `op_jump`, `op_jumpi`, and the instructions that read
--   what the analysis wrote. The binary search of the container library is a parameter;
--   Jump.Find has its contract. `AdvancedExecutionState_exit` writes to a copy, so that it gives the
--   state back as it was. Status (include/evmc.h): the status codes.
-- - Host (include/mocked_host.h): accounts and storage. The maps are a parameter, a record `Map` of the
--   operations that the host calls, and so is `cstr_cmp`; Host.Contract says what the library promises
--   of them. A write through a pointer into a map puts the value in at its key. Host.Lists has maps as
--   lists of pairs, for the tests. Host.Access has `access_account`, with the search as a parameter.
-- - Storing (include/instructions.h, include/analysis.h): SLOAD and SSTORE on stack, gas and host.
-- - Hex (include/hex_helpers.h): hexadecimal strings, in buffers with a zero behind the characters. The
--   loop of `from_hex` has one round of fuel for each character and one more.
-- - Transfer (include/instructions.h, include/analysis.h): MLOAD, MSTORE and MSTORE8 on the memory of
--   State.
-- - Memory (include/execution_state.h): the block of bytes, its size and capacity. A move or a fill that
--   leaves the block is `none`, since C leaves it undefined. `TEE_Realloc` is
--   a parameter; the theorems ask that it returns a block of the length with the old bytes.
-- - State (include/execution_state.h, include/instructions.h): gas and memory, and the checks that
--   charge for memory. Gas is an integer without bounds; C leaves a sum outside of 64 bits undefined.
-- - Arithmetic.Extend (include/instructions.h): SIGNEXTEND.
-- - Machine (include/execution_state.h, include/analysis.h, include/evmc.h, include/mocked_host.h): the
--   whole state with the message, the transaction context and the host. Its children are the
--   instructions on it: Environment (`caller` to `msize`), Copy (`calldatacopy`, `codecopy`,
--   `returndatacopy`), Account (`balance` to `selfdestruct_`), Finish (`return_`, `revert`), Log, Call
--   (`call_` to `delegatecall`, and `call` of the host), Create (`create`, `create2`) and Keccak; Machine.Handlers has their handlers of
--   include/analysis.h. An instruction gives a status and a state, or `none` for an access that C
--   leaves undefined. Machine.Platform collects what comes from elsewhere: the allocator, the
--   containers, the hash function, and what local variables hold that are read before they are set.
-- - Interpreter (include/execution.h): `run_fn` calls the function of an instruction, `run_loop` is the
--   loop of `execute_analyzed_code` and `execute` the whole run. A pointer to an instruction is its
--   number in the vector. An instruction with a loop that does not end, a division or EXP, stays where
--   it is in every round. Code may loop, so that the rounds are an argument; a code without jumps,
--   divisions and EXP needs at most two for each byte and three more, since the analysis emits at
--   most two instructions for each byte and one for the first block, and every instruction moves on.
--
-- Not modelled: the comparison of log records, the set-up of the mocked host, and number printing, which
-- are further parts of the same program; the hash function, which is another author's; the session
-- handling of the trusted application and its client, which is input and output; the containers of
-- stc, evmone and cJSON, which are other projects' libraries; and the second copy of the program under
-- "on REE".
pub mod Base
pub mod Division
pub mod Uint128
pub mod Uint256
pub mod Bytes
pub mod Opcode
pub mod Revision
pub mod Traits
pub mod Gas
pub mod Stack
pub mod Arithmetic
pub mod Memory
pub mod State
pub mod Shuffle
pub mod Block
pub mod Dispatch
pub mod Analysis
pub mod Status
pub mod Jump
pub mod Host
pub mod Storing
pub mod Transfer
pub mod Hex
pub mod Exp
pub mod Machine
pub mod Interpreter
