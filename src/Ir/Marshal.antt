-- ===== src/Ir/Marshal.antt =====
-- src/ir/marshal.rs: the encoding of operations. The source passes an operation as its discriminant
-- and every caller casts one from the enum; here the argument is the enum. `none` is `unreachable!`.
use prevail_rust.Base.Tests.{ℕ, Option, none, some}
use prevail_rust.Base.Int.{ℤ, pos}
use prevail_rust.Ir.Syntax.{BinOp, UnOp, ConditionOp}

unfoldable pub marshal_condition_op : ConditionOp → Option ℕ
marshal_condition_op ConditionOp.eq = some 0x1
marshal_condition_op ConditionOp.gt = some 0x2
marshal_condition_op ConditionOp.ge = some 0x3
marshal_condition_op ConditionOp.set = some 0x4
marshal_condition_op ConditionOp.nset = none
marshal_condition_op ConditionOp.ne = some 0x5
marshal_condition_op ConditionOp.sgt = some 0x6
marshal_condition_op ConditionOp.sge = some 0x7
marshal_condition_op ConditionOp.lt = some 0xa
marshal_condition_op ConditionOp.le = some 0xb
marshal_condition_op ConditionOp.slt = some 0xc
marshal_condition_op ConditionOp.sle = some 0xd

unfoldable pub marshal_bin_op : BinOp → ℕ
marshal_bin_op BinOp.add = 0x0
marshal_bin_op BinOp.sub = 0x1
marshal_bin_op BinOp.mul = 0x2
marshal_bin_op BinOp.sdiv = 0x3
marshal_bin_op BinOp.udiv = 0x3
marshal_bin_op BinOp.or = 0x4
marshal_bin_op BinOp.and = 0x5
marshal_bin_op BinOp.lsh = 0x6
marshal_bin_op BinOp.rsh = 0x7
marshal_bin_op BinOp.smod = 0x9
marshal_bin_op BinOp.umod = 0x9
marshal_bin_op BinOp.xor = 0xa
marshal_bin_op BinOp.mov = 0xb
marshal_bin_op BinOp.movsx8 = 0xb
marshal_bin_op BinOp.movsx16 = 0xb
marshal_bin_op BinOp.movsx32 = 0xb
marshal_bin_op BinOp.arsh = 0xc

unfoldable pub marshal_bin_op_offset : BinOp → ℤ
marshal_bin_op_offset BinOp.sdiv = pos 1
marshal_bin_op_offset BinOp.smod = pos 1
marshal_bin_op_offset BinOp.movsx8 = pos 8
marshal_bin_op_offset BinOp.movsx16 = pos 16
marshal_bin_op_offset BinOp.movsx32 = pos 32
marshal_bin_op_offset _ = pos 0

unfoldable pub marshal_imm_endian : UnOp → Option ℕ
marshal_imm_endian UnOp.neg = none
marshal_imm_endian UnOp.be16 = some 16
marshal_imm_endian UnOp.le16 = some 16
marshal_imm_endian UnOp.swap16 = some 16
marshal_imm_endian UnOp.be32 = some 32
marshal_imm_endian UnOp.le32 = some 32
marshal_imm_endian UnOp.swap32 = some 32
marshal_imm_endian UnOp.be64 = some 64
marshal_imm_endian UnOp.le64 = some 64
marshal_imm_endian UnOp.swap64 = some 64
