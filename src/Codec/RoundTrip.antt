-- ===== src/Codec/RoundTrip.antt =====
-- What `Decoder` of src/bytecode/codec/main/decoder.cpp reads where `Encoder` of
-- src/bytecode/codec/main/encoder.cpp has written.
use mathlib.Core.List.{reverse, reverse-reverse, reverse-cons}
use wudoovm.Common.{
  ℕ, ◌+◌, ◌*◌, ◌/◌, ◌%◌, ◌^◌, ◌<◌, ◌≡◌, ◌≢◌, refl, sym, ap, ◌∙◌, Bool, true, false, List, [], ◌∷◌,
  ◌++◌, some, arith, length, length-append, ◌==◌,
}
use wudoovm.Common.Int.{ℤ, pos, negsuc}
use wudoovm.Codec.Bytes.{Memory, ◌>>=◌, read_bytes, read-big_endian, read-little_endian, read-bytes}
use wudoovm.Codec.Operands.{
  RegisterAccess, AccessSpecifier, direct, register_indirect, pointer_dereference, set_to_byte,
  set_from_byte,
}
use wudoovm.Codec.Encoder.{
  encode_register, encode_raw_string, encode_bits_string, encode_timeout, encode_f64, encode_i32,
  encode_bool, encode_address, to_uint32, access_tag,
}
use wudoovm.Codec.Decoder.{
  decode_register, decode_string, decode_bits_string, decode_timeout, decode_f64, decode_i32,
  decode_bool, decode_address, to_int32, tag_access,
}

-- An index of 16 bits, and one of the enumerators of `Register_set`.
abbrev pub IsOperand : RegisterAccess → Type 0
IsOperand ra = (ra.index < 65536) × (set_from_byte (set_to_byte ra.set) ≡ ra.set)

tag_access-access_tag : (a : AccessSpecifier) → tag_access (access_tag a) ≡ a
tag_access-access_tag direct = refl
tag_access-access_tag register_indirect = refl
tag_access-access_tag pointer_dereference = refl

-- A register operand is recovered, and the decoder stops behind it.
pub decode-encode_register :
    (ra : RegisterAccess) (m : Memory)
    → IsOperand ra
    → decode_register (encode_register ra ++ m) ≡ some (ra, m)
unfolding decode_register encode_register
decode-encode_register ra m (h, named) =
    let index : ra.index / 256 % 256 * 256 + (ra.index / 1 % 256 * 1 + 0) ≡ ra.index =
      omega arith in
    λ k.
      some
        (record { set = named k; index = index k; access = tag_access-access_tag ra.access k }, m)

abbrev pub HasNoZero : List ℕ → Type 0
HasNoZero [] = Unit {0}
HasNoZero (b ∷ s) = (b ≢ 0) × HasNoZero s

-- A string with no zero byte is recovered, and the decoder stops behind its terminator.
decode-encode_string :
    (s : List ℕ) (m : Memory) → HasNoZero s → decode_string (encode_raw_string s ++ m) ≡ some (s, m)
unfolding decode_string encode_raw_string
decode-encode_string [] m h = refl
decode-encode_string (b ∷ s) m (hb, hs) =
    let other : (b == 0) ≡ false = ground arith in rw (other, decode-encode_string s m hs) refl

length-reverse : (bytes : List ℕ) → length (reverse bytes) ≡ length bytes
length-reverse [] = refl
length-reverse (b ∷ bytes) =
    ap length (reverse-cons b bytes)
    ∙ omega (arith, length-append (reverse bytes) (b ∷ []), length-reverse bytes)

-- A string of bytes that is shorter than 2 ^ 64 is recovered.
pub decode-encode_bits_string :
    (bytes : List ℕ) (m : Memory)
    → length bytes < 2 ^ 64
    → decode_bits_string (encode_bits_string bytes ++ m) ≡ some (bytes, m)
unfolding decode_bits_string encode_bits_string
decode-encode_bits_string bytes m h =
    let size = read-little_endian 8 (length bytes) (reverse bytes ++ m) h in
    let read = read-bytes (reverse bytes) (length bytes) m (sym (length-reverse bytes)) in
    ap (λ t. t >>= λ r. read_bytes r.0 r.1 >>= λ q. some (reverse q.0, q.1)) size
    ∙ ap (λ t. t >>= λ q. some (reverse q.0, q.1)) read
    ∙ ap (λ t. some (t, m)) (reverse-reverse bytes)

decode-encode_timeout :
    (t : ℕ) (m : Memory) → decode_timeout (encode_timeout t ++ m) ≡ some (t % 2 ^ 32, m)
unfolding decode_timeout encode_timeout
decode-encode_timeout t m = read-big_endian 4 t m

decode-encode_address :
    (a : ℕ) (m : Memory) → decode_address (encode_address a ++ m) ≡ some (a % 2 ^ 64, m)
unfolding decode_address encode_address
decode-encode_address a m = read-big_endian 8 a m

decode-encode_f64 : (n : ℕ) (m : Memory) → n < 2 ^ 64 → decode_f64 (encode_f64 n ++ m) ≡ some (n, m)
unfolding decode_f64 encode_f64
decode-encode_f64 n m h = read-little_endian 8 n m h

-- The numbers of `int32_t`.
abbrev pub IsInt32 : ℤ → Type 0
IsInt32 (pos n) = n < 2147483648
IsInt32 (negsuc n) = n < 2147483648

to_int32-to_uint32 : (n : ℤ) → IsInt32 n → to_int32 (to_uint32 n % 256 ^ 4) ≡ n
to_int32-to_uint32 (pos n) h = ground arith
to_int32-to_uint32 (negsuc n) h = ground arith

-- Every number of `int32_t` is recovered.
decode-encode_i32 : (n : ℤ) (m : Memory) → IsInt32 n → decode_i32 (encode_i32 n ++ m) ≡ some (n, m)
unfolding decode_i32 encode_i32
decode-encode_i32 n m h =
    ap (λ t. t >>= λ r. some (to_int32 r.0, r.1)) (read-big_endian 4 (to_uint32 n) m)
    ∙ ap (λ t. some (t, m)) (to_int32-to_uint32 n h)

decode-encode_bool : (b : Bool) (m : Memory) → decode_bool (encode_bool b ++ m) ≡ some (b, m)
unfolding decode_bool encode_bool
decode-encode_bool true m = refl
decode-encode_bool false m = refl
