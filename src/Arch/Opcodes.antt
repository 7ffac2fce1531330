-- ===== src/Arch/Opcodes.antt =====
-- The values of `OPCODE` in new/include/viua/arch/ops.h and their texts in
-- new/src/arch/ops.cpp.
use Prim.Native.String.{String}
use wudoovm.Common.{ℕ, Bool, true, false, List, [], ◌∷◌}

-- The enumerators of `OPCODE`, in order.
abbrev pub opcodes : List ℕ
opcodes =
    0x0000 ∷ 0x0001 ∷ 0x0002 ∷ 0x0003 ∷ 0x1001 ∷ 0x1002 ∷ 0x1003 ∷ 0x1004 ∷ 0x1005 ∷ 0x1006 ∷ 0x1007
    ∷ 0x1008 ∷ 0x1009 ∷ 0x100a ∷ 0x100b ∷ 0x100c ∷ 0x100d ∷ 0x100e ∷ 0x100f ∷ 0x1010 ∷ 0x1011
    ∷ 0x1012 ∷ 0x1013 ∷ 0x1014 ∷ 0x1015 ∷ 0x1016 ∷ 0x1017 ∷ 0x2001 ∷ 0x2002 ∷ 0x2003 ∷ 0x2004
    ∷ 0x2005 ∷ 0x2006 ∷ 0x2007 ∷ 0x2008 ∷ 0x2009 ∷ 0x200a ∷ 0x200b ∷ 0x3001 ∷ 0x3002 ∷ 0x3003
    ∷ 0x3004 ∷ 0x3005 ∷ 0x4001 ∷ 0x4801 ∷ 0x4002 ∷ 0x4003 ∷ 0x5001 ∷ 0x5002 ∷ 0x5003 ∷ 0x6001
    ∷ 0x6801 ∷ 0x6002 ∷ 0x6802 ∷ 0x6003 ∷ 0x6803 ∷ 0x6004 ∷ 0x6804 ∷ 0x7001 ∷ 0x7002 ∷ 0x7003
    ∷ 0x7004 ∷ 0x7005 ∷ []

-- A label of the `switch` in `to_string`: the opcode, whether the prefix of a greedy instruction
-- is put in front, and the text.
pub record Label : Type 0 where
  pub opcode : ℕ
  pub prefixed : Bool
  pub text : String

abbrev label : ℕ → Bool → String → Label
label o p t = record { opcode = o; prefixed = p; text = t }

abbrev pub labels : List Label
labels =
    label 0x0000 true "noop"
    ∷ label 0x0001 true "halt"
    ∷ label 0x0002 true "ebreak"
    ∷ label 0x0003 true "ecall"
    ∷ label 0x3002 true "return"
    ∷ label 0x1001 true "add"
    ∷ label 0x1002 true "sub"
    ∷ label 0x1003 true "mul"
    ∷ label 0x1004 true "div"
    ∷ label 0x1005 true "mod"
    ∷ label 0x1006 true "bitshl"
    ∷ label 0x1007 true "bitshr"
    ∷ label 0x1008 true "bitashr"
    ∷ label 0x1009 true "bitrol"
    ∷ label 0x100a true "bitror"
    ∷ label 0x100b true "bitand"
    ∷ label 0x100c true "bitor"
    ∷ label 0x100d true "bitxor"
    ∷ label 0x100e false "eq"
    ∷ label 0x100f false "lt"
    ∷ label 0x1010 false "gt"
    ∷ label 0x1011 false "cmp"
    ∷ label 0x1012 false "and"
    ∷ label 0x1013 false "or"
    ∷ label 0x2001 false "call"
    ∷ label 0x2002 true "bitnot"
    ∷ label 0x2003 true "not"
    ∷ label 0x3003 true "atom"
    ∷ label 0x3001 true "frame"
    ∷ label 0x4001 true "lui"
    ∷ label 0x4801 true "luiu"
    ∷ label 0x4002 true "lli"
    ∷ label 0x6001 true "addi"
    ∷ label 0x6801 true "addiu"
    ∷ label 0x6002 true "subi"
    ∷ label 0x6802 true "subiu"
    ∷ label 0x6003 true "muli"
    ∷ label 0x6803 true "muliu"
    ∷ label 0x6004 true "divi"
    ∷ label 0x6804 true "diviu"
    ∷ label 0x4003 true "float"
    ∷ label 0x3004 true "double"
    ∷ label 0x2004 true "copy"
    ∷ label 0x2005 true "move"
    ∷ label 0x2006 true "swap"
    ∷ label 0x2007 true "if"
    ∷ label 0x1014 true "io_submit"
    ∷ label 0x1015 true "io_wait"
    ∷ label 0x1016 true "io_shutdown"
    ∷ label 0x1017 true "io_ctl"
    ∷ label 0x2008 true "io_peek"
    ∷ label 0x2009 true "actor"
    ∷ label 0x3005 true "self"
    ∷ label 0x200a true "gts"
    ∷ label 0x200b true "gtl"
    ∷ label 0x5001 true "cast"
    ∷ label 0x5002 true "arodp"
    ∷ label 0x5003 true "atxtp"
    ∷ label 0x7001 true "sm"
    ∷ label 0x7002 true "lm"
    ∷ label 0x7003 true "ama"
    ∷ label 0x7004 true "amd"
    ∷ label 0x7005 true "ptr"
    ∷ []

-- A test of the chain in `parse_opcode`: the text, the opcode, and whether the bit of a greedy
-- instruction is put on it.
abbrev pub texts : List Label
texts =
    label 0x0000 true "noop"
    ∷ label 0x0001 true "halt"
    ∷ label 0x0002 true "ebreak"
    ∷ label 0x0003 true "ecall"
    ∷ label 0x3002 true "return"
    ∷ label 0x1001 true "add"
    ∷ label 0x1002 true "sub"
    ∷ label 0x1003 true "mul"
    ∷ label 0x1004 true "div"
    ∷ label 0x1005 true "mod"
    ∷ label 0x1006 true "bitshl"
    ∷ label 0x1007 true "bitshr"
    ∷ label 0x1008 true "bitashr"
    ∷ label 0x1009 true "bitrol"
    ∷ label 0x100a true "bitror"
    ∷ label 0x100b true "bitand"
    ∷ label 0x100c true "bitor"
    ∷ label 0x100d true "bitxor"
    ∷ label 0x100e true "eq"
    ∷ label 0x100f true "lt"
    ∷ label 0x1010 true "gt"
    ∷ label 0x1011 true "cmp"
    ∷ label 0x1012 true "and"
    ∷ label 0x1013 true "or"
    ∷ label 0x2001 false "call"
    ∷ label 0x2002 true "bitnot"
    ∷ label 0x2003 true "not"
    ∷ label 0x3003 true "atom"
    ∷ label 0x3001 true "frame"
    ∷ label 0x4001 true "lui"
    ∷ label 0x4801 true "luiu"
    ∷ label 0x4002 true "lli"
    ∷ label 0x6001 true "addi"
    ∷ label 0x6801 true "addiu"
    ∷ label 0x6002 true "subi"
    ∷ label 0x6802 true "subiu"
    ∷ label 0x6003 true "muli"
    ∷ label 0x6803 true "muliu"
    ∷ label 0x6004 true "divi"
    ∷ label 0x6804 true "diviu"
    ∷ label 0x4003 true "float"
    ∷ label 0x3004 true "double"
    ∷ label 0x2004 true "copy"
    ∷ label 0x2005 true "move"
    ∷ label 0x2006 true "swap"
    ∷ label 0x2007 true "if"
    ∷ label 0x1014 true "io_submit"
    ∷ label 0x1015 true "io_wait"
    ∷ label 0x1016 true "io_shutdown"
    ∷ label 0x1017 true "io_ctl"
    ∷ label 0x2008 true "io_peek"
    ∷ label 0x2009 true "actor"
    ∷ label 0x3005 true "self"
    ∷ label 0x200a true "gts"
    ∷ label 0x200b true "gtl"
    ∷ label 0x5001 true "cast"
    ∷ label 0x5002 true "arodp"
    ∷ label 0x5003 true "atxtp"
    ∷ label 0x7001 true "sm"
    ∷ label 0x7002 true "lm"
    ∷ label 0x7003 true "ama"
    ∷ label 0x7004 true "amd"
    ∷ label 0x7005 true "ptr"
    ∷ []
