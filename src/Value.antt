-- ===== src/Value.antt =====
-- `struct lre_value` (lre_internal.h, lre.c), and the values of written words: `peek_val_type`
-- and `val2lre_value` (execute.c). The type tag and the union are one data type.
use lre.Base.{ℕ, ◌+◌, ◌-◌, ◌*◌, Option, none, some, [], ◌∷◌, ◌≢◌, ◌==◌, if◌then◌else◌, arith}
use lre.Base.Int.{ℤ, pos, checked}
use lre.Token.{Word}
use lre.Utils.{is_digit, is_double_digit, is_double_digit-eq-false}

-- `double` is a type that the C implementation gives, with its operations: `low_int` is the `int`
-- that shares a union with a double, `dead` the double of `RET_DEAD_VAL`.
pub record Doubles : Type 1 where
  pub Double : Type 0
  pub add_double : Double → Double → Double
  pub sub_double : Double → Double → Double
  pub mul_double : Double → Double → Double
  pub div_double : Double → Double → Double
  pub dead : Double
  pub low_int : Double → ℤ
  pub atof : Word → Double

pub data LreValue (D : Type 0) : Type 0 where
  unknown : LreValue D
  int : ℤ → LreValue D
  double : D → LreValue D
  string : Word → LreValue D

pub data ValType : Type 0 where
  int_type double_type string_type : ValType

unfoldable pub peek_val_type : Word → ValType
peek_val_type w =
    if is_digit w then int_type else if is_double_digit w then double_type else string_type

-- The C library's `atoi` on digits; the result is undefined above the largest `int`.
unfoldable pub digits_value : ℕ → Word → ℕ
digits_value acc [] = acc
digits_value acc (c ∷ cs) = digits_value (10 * acc + (c - b'0')) cs

unfoldable pub atoi : Word → Option ℤ
atoi w = checked (pos (digits_value 0 w))

-- The bytes of a quoted word without its quotes: the first is skipped and the last is cut.
unfoldable pub cut_last : Word → Word
cut_last [] = []
cut_last (c ∷ []) = []
cut_last (c ∷ d ∷ cs) = c ∷ cut_last (d ∷ cs)

unfoldable pub unquote : Word → Word
unfolding cut_last
unquote [] = []
unquote (c ∷ cs) = if c == b'"' then cut_last cs else c ∷ cs

-- `none` where `atoi` is undefined.
unfoldable pub val2lre_value : (d : Doubles) → Word → Option (LreValue d.Double)
val2lre_value d w = elim (peek_val_type w) [
  | int_type ↦ elim (atoi w) [ none ↦ none | some z ↦ some (int z) ]
  | double_type ↦ some (double (d.atof w))
  | string_type ↦ some (string (unquote w))
]

-- No written word is a floating-point value.
peek_val_type-ne-double : (w : Word) → peek_val_type w ≢ double_type
unfolding peek_val_type
peek_val_type-ne-double w = ground (arith, is_double_digit-eq-false w)
