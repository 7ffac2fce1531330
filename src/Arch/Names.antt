-- ===== src/Arch/Names.antt =====
-- `to_string` and `parse_opcode` of new/src/arch/ops.cpp.
use Prim.Native.String.{String, ◌++◌ as ◌<>◌, compare, slice, len}
use Prim.Native.Nat.{Ordering}
use wudoovm.Common.{
  ℕ, zero, suc, ◌≡◌, refl, ap, Bool, true, false, ◌&&◌, List, [], ◌∷◌, Option, none, some,
  get_elem?, bit_and, bit_or, ◌==◌, ==_iff, if◌then◌else◌, arith,
}
use wudoovm.Arch.Opcodes.{Label, opcodes, labels, texts}

abbrev pub greedy_bit : ℕ
greedy_bit = 0x8000

abbrev opcode_mask : ℕ
opcode_mask = 0x7fff

-- The `switch`: the label of an opcode.
unfoldable pub find_label : List Label → ℕ → Option Label
find_label [] o = none
find_label (l ∷ ls) o = let later = find_label ls o in if l.opcode == o then some l else later

unfoldable pub to_string : ℕ → String
unfolding find_label
to_string raw =
    let greedy = if bit_and raw greedy_bit == 0 then "" else "g." in
    elim (find_label labels (bit_and raw opcode_mask)) [
      | none ↦ "<unknown>"
      | some l ↦ if l.prefixed then greedy <> l.text else l.text
    ]

-- `==` of two texts.
unfoldable pub same_text : String → String → Bool
same_text a b = elim (compare a b) [ Ordering.eq ↦ true | _ ↦ false ]

-- `sv.starts_with("g.")` and `sv.remove_prefix(2)`.
unfoldable pub split_greedy : String → Bool × String
unfolding same_text
split_greedy sv = if same_text (slice sv 0 2) "g." then (true, slice sv 2 (len sv)) else (false, sv)

-- The chain of tests; no text matches at its end, where the source throws.
unfoldable pub find_text : List Label → ℕ → String → Option ℕ
unfolding same_text
find_text [] op sv = none
find_text (l ∷ ls) op sv =
    let later = find_text ls op sv in
    if same_text sv l.text
    then some (if l.prefixed then bit_or op l.opcode else l.opcode)
    else later

unfoldable pub parse_opcode : String → Option ℕ
unfolding split_greedy find_text
parse_opcode raw =
    let (greedy, sv) = split_greedy raw in find_text texts (if greedy then greedy_bit else 0) sv

-- Whether the text of an opcode tells a greedy instruction from another.
unfoldable pub keeps_greedy : ℕ → Bool
unfolding find_label
keeps_greedy o = elim (find_label labels o) [ none ↦ false | some l ↦ l.prefixed ]

is_some_of : Option ℕ → ℕ → Bool
is_some_of none n = false
is_some_of (some m) n = m == n

is_some_of_lem : (o : Option ℕ) (n : ℕ) → is_some_of o n ≡ true → o ≡ some n
unfolding is_some_of
is_some_of_lem none n h = absurd (ground arith)
is_some_of_lem (some m) n h = ap some ((==_iff m n).0 h)

every : (ℕ → Bool) → List ℕ → Bool
every test [] = true
every test (x ∷ xs) = test x && every test xs

every_entry :
    (test : ℕ → Bool) (xs : List ℕ) (i x : ℕ)
    → every test xs ≡ true
    → get_elem? xs i ≡ some x
    → test x ≡ true
unfolding every
every_entry test [] i x all e = absurd (ground arith)
every_entry test (y ∷ ys) zero x all e = ground arith
every_entry test (y ∷ ys) (suc i) x all e = every_entry test ys i x (ground arith) e

-- What is expected of an opcode and of its greedy variant.
abbrev recovered : ℕ → Bool
recovered o =
    is_some_of (parse_opcode (to_string o)) o
    && is_some_of (parse_opcode (to_string (bit_or greedy_bit o)))
        (if keeps_greedy o then bit_or greedy_bit o else o)

all_recovered : every recovered opcodes ≡ true
unfolding every is_some_of parse_opcode to_string keeps_greedy
all_recovered = refl

-- Every enumerator of `OPCODE` is recovered from its text. Its greedy variant is recovered too
-- where `to_string` writes the prefix, and loses the greedy bit where it does not.
pub parse_opcode-to_string :
    (i o : ℕ)
    → get_elem? opcodes i ≡ some o
    → (parse_opcode (to_string o) ≡ some o)
      × (parse_opcode (to_string (bit_or greedy_bit o))
          ≡ some (if keeps_greedy o then bit_or greedy_bit o else o))
parse_opcode-to_string i o e =
    let both = every_entry recovered opcodes i o all_recovered e in
    (
      is_some_of_lem (parse_opcode (to_string o)) o (ground arith),
      is_some_of_lem (parse_opcode (to_string (bit_or greedy_bit o)))
          (if keeps_greedy o then bit_or greedy_bit o else o) (ground arith),
    )
