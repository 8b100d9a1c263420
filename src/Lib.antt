-- ===== src/Lib.antt =====
-- A verification library for PREVAIL in Rust, an abstract interpreter that decides whether an eBPF
-- program is safe to run. The verifier decodes the slots of a program into instructions, builds a
-- control-flow graph and iterates an abstract domain over it; the domain rests on intervals, on a
-- difference-bound matrix and on classes of equal type variables. The library models the
-- decoder, which says what program is verified, the control-flow graph that the iteration follows,
-- and the numeric domains, whose soundness every verdict rests on.
--
-- Parts, and the code they are about:
-- Base: tests, lists, integers, decimal text and bits over the native numbers, and Maps, the
--   ordered maps that stand for BTreeMap and BTreeSet; no code of the repository.
-- Arith.Number, with Residue, Extend, Cast and Shift: src/arith/number.rs. `Number` is an integer, and an
--   operation that may panic (overflow, division by zero, a failing assertion, as in a debug build)
--   returns an Option. `checked` is the range test of i128 at the end of each operation.
-- Arith.Extended, with Order and Sums: src/arith/extended_number.rs, numbers with infinities.
-- Arith.Linear: src/arith/variable.rs, linear_expression.rs and linear_constraint.rs. Terms has the
--   order of the terms and their sum at an assignment, Values and Constraints the meaning of the
--   operations, and Total the bounds within which they do not overflow.
-- Cfg.Label: src/cfg/label.rs, the nodes with their derived order, and Offset the offsets of jumps.
-- Cfg.Graph: src/cfg/graph.rs, the graph with its edges in both directions. Edges says what the edit of
--   one node does, Invariant has the invariant `WellFormed` and the operations that keep it, Splice
--   is about insert_after and Adjacency about cfg_from_adjacency_list.
-- Cfg.Blocks: the basic blocks of src/cfg/graph.rs; Chains has the loop of a block, Partition the whole.
-- Cfg.Wto: src/cfg/wto.rs, the tree of components; Traversals and Nesting.
-- Crab.Bitset: src/crab/bitset_domain.rs. The package fixedbitset is the interface `FixedBitSet`, whose
--   laws are those of a vector of bits; Tests has an instance. Bytes and Ranges.
-- Crab.Splitdbm.Graph: src/crab/splitdbm/graph.rs. Slots has the invariant `IsSound` of the slots of
--   weights, Counted the invariant `IsCounted` of `edge_count`, Weights the operations on edges, Vertices
--   those that add vertices, and Unlink and Forget those that remove one. `grow_rounds` is given as
--   fuel the vertices that are missing and those that were freed, each of which takes one round.
-- Crab.TypeEncoding: src/crab/type_encoding.rs, kinds of data and types of registers; Names is about
--   their names. Sets has the sets of types as words of 16 bits, with Members and Singletons.
-- Crab.VarIdMap: src/crab/var_id_map.rs, the ids of type variables, whose two directions
--   `Bijection.IsBijection` relates; Bijection is about renamings and Detach about a new id.
-- Crab.VarRegistry: src/crab/var_registry.rs, the names of variables. Interning has the invariant
--   `IsRegistry` of names and ids, Kinds the variables of one owner and the first registry.
-- Crab.TypeToNumber: the functions of src/crab/type_to_number.rs outside of its domain; Offsets.
-- Crab.OffsetMap: `OffsetMap` of src/crab/array_domain.rs, the cells of the stack; Overlap.
-- Crab.Interval: src/crab/interval.rs. `Interval` has the bounds `lb` and `ub`, and inverted
--   bounds are bottom. `Member.Contains` is its meaning as a set of integers. Lattice, Widen and Sums
--   prove the operations of the parent; Divide has the divisions and remainders, Bitwise the
--   bitwise operations and shifts, and Extend the extensions.
-- Crab.Dsu: src/crab/dsu.rs, the classes of type variables. `parent` and `rank` are lists, and an
--   operation that mutates them returns the new forest. `Roots.Root` is the relation between an
--   element and its representative, and `Roots.IsForest` the invariant.
-- Ir.Isa: src/spec/vm_isa.rs, the opcode tables and packed fields. Bytes and words are natural
--   numbers, and the signed fields `offset` and `imm` are integers.
-- Ir.Syntax, Ir.Contract and Ir.Assertion: src/ir/syntax.rs, the instructions, what a call requires and
--   the checks before an instruction. Ir.Marshal: src/ir/marshal.rs. Ir.Config: src/spec/config.rs
--   and src/spec/type_descriptors.rs, the options and what is known of a program; Ranges is about the
--   sizes that valid options give.
-- Ir.CallProto: src/ir/call_proto.rs and src/ir/arg_kind.rs, one argument of a helper; Slots says which
--   registers it names. Prototype: make_call of src/ir/unmarshal.rs, the walk over the arguments. The
--   platform is the record `EbpfPlatform` of the functions that the decoder calls; Total is about
--   every platform.
-- Ir.Assertions: src/ir/assertions.rs, the checks of each instruction; Calls has those of a call, with
--   the panics in Arguments and the registers in Registers, and Memory is about loads and stores.
-- Ir.Unmarshal: src/ir/unmarshal.rs. Alu has get_alu_op and make_alu_op, Mem has make_mem_op, Lddw has
--   make_lddw and Jumps has make_jmp, whose targets Jumps.Targets is about. Merge has the peephole step
--   for two shifts and Meaning what it means for the registers. Program is the loop over the slots,
--   with Decoded about a round of it and Total about the whole. An outcome is a value, an error with
--   its message, or a panic; the notes on the instructions are state that is passed along.
--
-- How the parts interact: the decoder uses the tables of the instruction set and makes the calls from
-- the prototypes of the platform, and the assertions are extracted from what it decodes; intervals use extended
-- numbers, which use checked numbers, and a panic of a number is a panic of the interval. Linear
-- expressions have checked numbers as coefficients. The graph and the tree of components are over
-- labels, whose order `label_ord` is the instance that the maps of the graph use.
--
-- Bounds and fuel: `find` and `find_const` recurse on one more than the largest rank, which is enough
-- since every step to a parent raises the rank. The divisions and remainders of intervals recurse at
-- most twice, so they are three unfoldings of their bodies, or two where only the divisor is split. The loop of a basic block recurses on one more than the
-- number of nodes, since each round sees a new label; the traversals of components on one more than
-- the number of their parts; the loops over a bit set on the number of bits. The
-- decoder's loop recurses on one more than the number of slots, of which each round takes one or two,
-- and counts the exits in an i32, which 2^31 slots that exit overflow;
-- the walk over the arguments of a helper on six, more than the five arguments; the iteration over a
-- set of types on one more than its 16 bits; the digits of a number on 39, those of an i128. Sums and sign extensions of intervals are about finite
-- bounds between -2^125 and 2^125, far beyond the 64-bit values of the verifier and far enough
-- inside i128. Widths are natural numbers up to 64, the widths that the assertions of the code let
-- through. The source's `<<` and `>>` are products and quotients by powers of two.
--
-- Not modelled: the closure of the difference-bound matrix, its heap and its
-- views, and the domains above them; the construction of a weak topological order and the iteration
-- over it; files, debugging formats, the tables of the kernel
-- interface, printing and the command line, which read or write data and compute nothing.
pub mod Base
pub mod Arith
pub mod Cfg
pub mod Crab
pub mod Ir
