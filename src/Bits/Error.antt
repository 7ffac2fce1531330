-- ===== src/Bits/Error.antt =====
-- The exceptions that src/types/bits.cpp throws, one for each message.
pub data ArithmeticError : Type 0 where
  division_by_zero : ArithmeticError
  checked_increment_overflow checked_decrement_overflow : ArithmeticError
  checked_addition_overflow checked_subtraction_overflow : ArithmeticError
  checked_multiplication_overflow checked_division_overflow : ArithmeticError
  -- `std::out_of_range`, which `std::vector::at` throws.
  out_of_range : ArithmeticError
