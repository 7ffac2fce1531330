-- ===== src/Examples/Operands.antt =====
-- Operands of src/bytecode/codec/main/.
use wudoovm.Common.{◌≡◌, refl, [], ◌∷◌, ◌++◌, some, arith}
use wudoovm.Codec.Operands.{RegisterAccess, parameters, pointer_dereference}
use wudoovm.Codec.Encoder.{encode_register, encode_bits_string}
use wudoovm.Codec.Decoder.{decode_register, decode_bits_string}
use wudoovm.Codec.RoundTrip.{decode-encode_register, decode-encode_bits_string}

abbrev operand : RegisterAccess
operand = record { set = parameters; index = 513; access = pointer_dereference }

decode-encode_register_example :
    decode_register (encode_register operand ++ (11 ∷ [])) ≡ some (operand, 11 ∷ [])
decode-encode_register_example = decode-encode_register operand (11 ∷ []) (omega arith, refl)

decode-encode_bits_string_example :
    decode_bits_string (encode_bits_string (1 ∷ 2 ∷ 3 ∷ []) ++ (11 ∷ []))
    ≡ some (1 ∷ 2 ∷ 3 ∷ [], 11 ∷ [])
decode-encode_bits_string_example =
    decode-encode_bits_string (1 ∷ 2 ∷ 3 ∷ []) (11 ∷ []) (omega arith)
