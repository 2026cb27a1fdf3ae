-- ===== src/Lrc/Values.antt =====
-- The values that the components take, with the accessors of lre.c (`lre_value_is_string` and its
-- fellows), and the result codes of lre.h.
use lre.Lrc.Strings.{text, show_int}
use lre.Calculate.{vaild_lre_results}
use lre.Base.{ℕ, length, ltb, Bool, true, false, [], if◌then◌else◌, ◌-◌, take, Option, none, some}
use lre.Base.Int.{ℤ, pos, negsuc, eqb_ℤ}
use lre.Token.{Word}
use lre.Value.{LreValue, int, string}

abbrev pub lre_ret_ok : ℤ
lre_ret_ok = pos 0

-- 0xdeaddead as an `int`.
abbrev pub lre_ret_error : ℤ
lre_ret_error = negsuc 559030610

-- `-EINVAL`.
abbrev pub minus_einval : ℤ
minus_einval = negsuc 21

-- `PATH_MAX` of Linux.
abbrev pub path_max : ℕ
path_max = 4096

module _ {D : Type 0} where
  -- `lre_value_is_string` with `lre_value_get_string`.
  abbrev lre_value_get_string : LreValue D → Option Word
  lre_value_get_string (string w) = some w
  lre_value_get_string _ = none

  -- `lre_value_is_int` with `lre_value_get_int`.
  abbrev lre_value_get_int : LreValue D → Option ℤ
  lre_value_get_int (int z) = some z
  lre_value_get_int _ = none

  -- The handler of an argument that must be a string: what it returns, and its object.
  abbrev pub string_handler : {S : Type 0} → (Word → S → S) → S → LreValue D → ℤ × S
  string_handler store s v = elim (lre_value_get_string v) [
    | none ↦ (lre_ret_error, s)
    | some w ↦ (lre_ret_ok, store w s)
  ]

  abbrev pub int_handler : {S : Type 0} → (ℤ → S → S) → S → LreValue D → ℤ × S
  int_handler store s v = elim (lre_value_get_int v) [
    | none ↦ (lre_ret_error, s)
    | some z ↦ (lre_ret_ok, store z s)
  ]

-- What a handler returns, and the details that it puts out.
abbrev pub Answer : Type 0
Answer = ℤ × Option Word

-- DETAILS_UNIT_MAX.
abbrev pub details_unit_max : ℕ
details_unit_max = 256

abbrev pub silent : ℤ → Answer
silent ret = (ret, none)

-- The details are cut at the size of their buffer.
abbrev pub report : ℤ → Word → Answer
report ret details = (ret, some (take (details_unit_max - 1) details))

-- The details of a comparison, which are put out if it has a truth value.
abbrev pub answer : ℤ → (Bool → Word) → Answer
answer ret details =
    if vaild_lre_results ret then report ret (details (eqb_ℤ ret (pos 1))) else silent ret

abbrev pub not_word : Bool → Word
not_word true = []
not_word false = text "not "

-- -1 as an unsigned 32-bit number.
abbrev pub minus_one : ℕ
minus_one = 4294967295

-- The name of a user in an array of 32 bytes, or the number as an `int`; `none` is a name that leaves
-- no room for the zero behind it. `getpwuid` gives the name.
unfoldable pub user_name : (ℕ → Option Word) → ℕ → Option Word
user_name getpwuid owner = elim (getpwuid owner) [
  | none ↦ some (show_int (if ltb owner 2147483648 then pos owner else negsuc (minus_one - owner)))
  | some w ↦ if ltb (length w) 32 then some w else none
]
