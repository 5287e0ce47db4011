-- ===== src/Opcode.antt =====
-- `enum evmc_opcode` of include/opcode.h: the numbers of the instructions.
use tsc_vee.Base.{ℕ}

abbrev pub op_stop : ℕ
op_stop = 0x00

abbrev pub op_add : ℕ
op_add = 0x01

abbrev pub op_mul : ℕ
op_mul = 0x02

abbrev pub op_sub : ℕ
op_sub = 0x03

abbrev pub op_div : ℕ
op_div = 0x04

abbrev pub op_sdiv : ℕ
op_sdiv = 0x05

abbrev pub op_mod : ℕ
op_mod = 0x06

abbrev pub op_smod : ℕ
op_smod = 0x07

abbrev pub op_addmod : ℕ
op_addmod = 0x08

abbrev pub op_mulmod : ℕ
op_mulmod = 0x09

abbrev pub op_exp : ℕ
op_exp = 0x0a

abbrev pub op_signextend : ℕ
op_signextend = 0x0b

abbrev pub op_lt : ℕ
op_lt = 0x10

abbrev pub op_gt : ℕ
op_gt = 0x11

abbrev pub op_slt : ℕ
op_slt = 0x12

abbrev pub op_sgt : ℕ
op_sgt = 0x13

abbrev pub op_eq : ℕ
op_eq = 0x14

abbrev pub op_iszero : ℕ
op_iszero = 0x15

abbrev pub op_and : ℕ
op_and = 0x16

abbrev pub op_or : ℕ
op_or = 0x17

abbrev pub op_xor : ℕ
op_xor = 0x18

abbrev pub op_not : ℕ
op_not = 0x19

abbrev pub op_byte : ℕ
op_byte = 0x1a

abbrev pub op_shl : ℕ
op_shl = 0x1b

abbrev pub op_shr : ℕ
op_shr = 0x1c

abbrev pub op_sar : ℕ
op_sar = 0x1d

abbrev pub op_keccak256 : ℕ
op_keccak256 = 0x20

abbrev pub op_address : ℕ
op_address = 0x30

abbrev pub op_balance : ℕ
op_balance = 0x31

abbrev pub op_origin : ℕ
op_origin = 0x32

abbrev pub op_caller : ℕ
op_caller = 0x33

abbrev pub op_callvalue : ℕ
op_callvalue = 0x34

abbrev pub op_calldataload : ℕ
op_calldataload = 0x35

abbrev pub op_calldatasize : ℕ
op_calldatasize = 0x36

abbrev pub op_calldatacopy : ℕ
op_calldatacopy = 0x37

abbrev pub op_codesize : ℕ
op_codesize = 0x38

abbrev pub op_codecopy : ℕ
op_codecopy = 0x39

abbrev pub op_gasprice : ℕ
op_gasprice = 0x3a

abbrev pub op_extcodesize : ℕ
op_extcodesize = 0x3b

abbrev pub op_extcodecopy : ℕ
op_extcodecopy = 0x3c

abbrev pub op_returndatasize : ℕ
op_returndatasize = 0x3d

abbrev pub op_returndatacopy : ℕ
op_returndatacopy = 0x3e

abbrev pub op_extcodehash : ℕ
op_extcodehash = 0x3f

abbrev pub op_blockhash : ℕ
op_blockhash = 0x40

abbrev pub op_coinbase : ℕ
op_coinbase = 0x41

abbrev pub op_timestamp : ℕ
op_timestamp = 0x42

abbrev pub op_number : ℕ
op_number = 0x43

abbrev pub op_prevrandao : ℕ
op_prevrandao = 0x44

abbrev pub op_difficulty : ℕ
op_difficulty = 0x44

abbrev pub op_random : ℕ
op_random = 0x44

abbrev pub op_gaslimit : ℕ
op_gaslimit = 0x45

abbrev pub op_chainid : ℕ
op_chainid = 0x46

abbrev pub op_selfbalance : ℕ
op_selfbalance = 0x47

abbrev pub op_basefee : ℕ
op_basefee = 0x48

abbrev pub op_pop : ℕ
op_pop = 0x50

abbrev pub op_mload : ℕ
op_mload = 0x51

abbrev pub op_mstore : ℕ
op_mstore = 0x52

abbrev pub op_mstore8 : ℕ
op_mstore8 = 0x53

abbrev pub op_sload : ℕ
op_sload = 0x54

abbrev pub op_sstore : ℕ
op_sstore = 0x55

abbrev pub op_jump : ℕ
op_jump = 0x56

abbrev pub op_jumpi : ℕ
op_jumpi = 0x57

abbrev pub op_pc : ℕ
op_pc = 0x58

abbrev pub op_msize : ℕ
op_msize = 0x59

abbrev pub op_gas : ℕ
op_gas = 0x5a

abbrev pub op_jumpdest : ℕ
op_jumpdest = 0x5b

abbrev pub op_push0 : ℕ
op_push0 = 0x5f

abbrev pub op_push1 : ℕ
op_push1 = 0x60

abbrev pub op_push2 : ℕ
op_push2 = 0x61

abbrev pub op_push3 : ℕ
op_push3 = 0x62

abbrev pub op_push4 : ℕ
op_push4 = 0x63

abbrev pub op_push5 : ℕ
op_push5 = 0x64

abbrev pub op_push6 : ℕ
op_push6 = 0x65

abbrev pub op_push7 : ℕ
op_push7 = 0x66

abbrev pub op_push8 : ℕ
op_push8 = 0x67

abbrev pub op_push9 : ℕ
op_push9 = 0x68

abbrev pub op_push10 : ℕ
op_push10 = 0x69

abbrev pub op_push11 : ℕ
op_push11 = 0x6a

abbrev pub op_push12 : ℕ
op_push12 = 0x6b

abbrev pub op_push13 : ℕ
op_push13 = 0x6c

abbrev pub op_push14 : ℕ
op_push14 = 0x6d

abbrev pub op_push15 : ℕ
op_push15 = 0x6e

abbrev pub op_push16 : ℕ
op_push16 = 0x6f

abbrev pub op_push17 : ℕ
op_push17 = 0x70

abbrev pub op_push18 : ℕ
op_push18 = 0x71

abbrev pub op_push19 : ℕ
op_push19 = 0x72

abbrev pub op_push20 : ℕ
op_push20 = 0x73

abbrev pub op_push21 : ℕ
op_push21 = 0x74

abbrev pub op_push22 : ℕ
op_push22 = 0x75

abbrev pub op_push23 : ℕ
op_push23 = 0x76

abbrev pub op_push24 : ℕ
op_push24 = 0x77

abbrev pub op_push25 : ℕ
op_push25 = 0x78

abbrev pub op_push26 : ℕ
op_push26 = 0x79

abbrev pub op_push27 : ℕ
op_push27 = 0x7a

abbrev pub op_push28 : ℕ
op_push28 = 0x7b

abbrev pub op_push29 : ℕ
op_push29 = 0x7c

abbrev pub op_push30 : ℕ
op_push30 = 0x7d

abbrev pub op_push31 : ℕ
op_push31 = 0x7e

abbrev pub op_push32 : ℕ
op_push32 = 0x7f

abbrev pub op_dup1 : ℕ
op_dup1 = 0x80

abbrev pub op_dup2 : ℕ
op_dup2 = 0x81

abbrev pub op_dup3 : ℕ
op_dup3 = 0x82

abbrev pub op_dup4 : ℕ
op_dup4 = 0x83

abbrev pub op_dup5 : ℕ
op_dup5 = 0x84

abbrev pub op_dup6 : ℕ
op_dup6 = 0x85

abbrev pub op_dup7 : ℕ
op_dup7 = 0x86

abbrev pub op_dup8 : ℕ
op_dup8 = 0x87

abbrev pub op_dup9 : ℕ
op_dup9 = 0x88

abbrev pub op_dup10 : ℕ
op_dup10 = 0x89

abbrev pub op_dup11 : ℕ
op_dup11 = 0x8a

abbrev pub op_dup12 : ℕ
op_dup12 = 0x8b

abbrev pub op_dup13 : ℕ
op_dup13 = 0x8c

abbrev pub op_dup14 : ℕ
op_dup14 = 0x8d

abbrev pub op_dup15 : ℕ
op_dup15 = 0x8e

abbrev pub op_dup16 : ℕ
op_dup16 = 0x8f

abbrev pub op_swap1 : ℕ
op_swap1 = 0x90

abbrev pub op_swap2 : ℕ
op_swap2 = 0x91

abbrev pub op_swap3 : ℕ
op_swap3 = 0x92

abbrev pub op_swap4 : ℕ
op_swap4 = 0x93

abbrev pub op_swap5 : ℕ
op_swap5 = 0x94

abbrev pub op_swap6 : ℕ
op_swap6 = 0x95

abbrev pub op_swap7 : ℕ
op_swap7 = 0x96

abbrev pub op_swap8 : ℕ
op_swap8 = 0x97

abbrev pub op_swap9 : ℕ
op_swap9 = 0x98

abbrev pub op_swap10 : ℕ
op_swap10 = 0x99

abbrev pub op_swap11 : ℕ
op_swap11 = 0x9a

abbrev pub op_swap12 : ℕ
op_swap12 = 0x9b

abbrev pub op_swap13 : ℕ
op_swap13 = 0x9c

abbrev pub op_swap14 : ℕ
op_swap14 = 0x9d

abbrev pub op_swap15 : ℕ
op_swap15 = 0x9e

abbrev pub op_swap16 : ℕ
op_swap16 = 0x9f

abbrev pub op_log0 : ℕ
op_log0 = 0xa0

abbrev pub op_log1 : ℕ
op_log1 = 0xa1

abbrev pub op_log2 : ℕ
op_log2 = 0xa2

abbrev pub op_log3 : ℕ
op_log3 = 0xa3

abbrev pub op_log4 : ℕ
op_log4 = 0xa4

abbrev pub op_create : ℕ
op_create = 0xf0

abbrev pub op_call : ℕ
op_call = 0xf1

abbrev pub op_callcode : ℕ
op_callcode = 0xf2

abbrev pub op_return : ℕ
op_return = 0xf3

abbrev pub op_delegatecall : ℕ
op_delegatecall = 0xf4

abbrev pub op_create2 : ℕ
op_create2 = 0xf5

abbrev pub op_staticcall : ℕ
op_staticcall = 0xfa

abbrev pub op_revert : ℕ
op_revert = 0xfd

abbrev pub op_invalid : ℕ
op_invalid = 0xfe

abbrev pub op_selfdestruct : ℕ
op_selfdestruct = 0xff
