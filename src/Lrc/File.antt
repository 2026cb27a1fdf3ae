-- ===== src/Lrc/File.antt =====
-- The function `file` (lrc/lrc_file.c): whether a file exists, and its owner and permissions.
pub mod Facts
pub mod Permissions
use lre.Base.{
  ℕ, zero, suc, ◌+◌, ◌-◌, ◌*◌, ◌/◌, ◌%◌, ◌^◌, Bool, true, false, Option, none, some, List, [], ◌∷◌,
  ◌++◌, ltb, leb, ◌&&◌, ◌==◌, if◌then◌else◌, length, drop,
}
use Prim.Native.Nat.{bit_and, bit_or}
use lre.Base.Int.{ℤ, pos, negsuc, eqb_ℤ}
use lre.Symbols.{Sym}
use lre.Token.{Word}
use lre.Value.{LreValue, unknown, int, double, string}
use lre.Calculate.{vaild_lre_results, lre_compare_int, lre_compare_string, lre_compare}
use lre.Lrc.Strings.{text, show_int, Buffer, empty_buffer, xsnprintf}
use lre.Lrc.Values.{
  lre_ret_ok, lre_ret_error, minus_einval, string_handler, Answer, silent, report, answer, not_word,
  minus_one, user_name, details_unit_max,
}

-- What `stat` says of a path: the owner, the group and the mode, or why it failed.
pub data Stat : Type 0 where
  stated : ℕ → ℕ → ℕ → Stat
  enoent failed : Stat

-- struct lrc_file; `state` is that the call of `file_execute` was a success.
pub record File : Type 0 where
  pub path : Option Word
  pub exist : ℤ
  pub owner : ℕ
  pub group : ℕ
  pub permission : ℕ
  pub state : Bool

-- FILE_PERMISSION_MASK.
abbrev pub file_permission_mask : ℕ
file_permission_mask = 4095

-- The memory that `malloc` gives holds anything.
abbrev pub file_constructor : File → File
file_constructor memory = record memory { path = none }

abbrev pub file_arg_path_handler : {D : Type 0} → File → LreValue D → ℤ × File
file_arg_path_handler = string_handler (λ w f. record f { path = some w })

abbrev pub stat_file : Stat → File → File
stat_file (stated uid gid mode) f = record f {
  exist = pos 1;
  owner = uid;
  group = gid;
  permission = bit_and mode file_permission_mask;
  state = true;
}
stat_file enoent f = record f {
  exist = pos 0;
  owner = minus_one;
  group = minus_one;
  permission = minus_one;
  state = true;
}
stat_file failed f = record f {
  exist = negsuc 0;
  owner = minus_one;
  group = minus_one;
  permission = minus_one;
  state = true;
}

-- The end of a long path, in the details.
abbrev pub omitted : ℕ → Word → Word
omitted n path = if ltb n (length path) then text "..." ++ drop (length path - n) path else path

unfoldable pub file_execute : (Word → Stat) → File → Answer × File
file_execute stat f = elim f.path [
  | none ↦ (silent minus_einval, record f { state = false })
  | some w ↦ (
    report lre_ret_ok (text "file '" ++ omitted (details_unit_max - 32) w ++ text "'"),
    stat_file (stat w) f,
  )
]

abbrev pub owner_details : Word → Bool → Word
owner_details user true = text "'owner' matched."
owner_details user false = text "'owner' not matched. owner: '" ++ user ++ text "'"

abbrev compare_owner : Option Word → Word → Sym → Option Answer
compare_owner none w opt = none
compare_owner (some user) w opt = some (answer (lre_compare_string user w opt) (owner_details user))

module _ {D : Type 0} where
  unfoldable pub expr_exist_handler : File → Sym → LreValue D → Answer
  expr_exist_handler f opt (int z) =
      if f.state
      then answer (lre_compare_int f.exist z opt)
          (λ _. not_word (if eqb_ℤ f.exist (pos 0) then false else true) ++ text "exist.")
      else silent lre_ret_error
  expr_exist_handler f opt _ = silent lre_ret_error

  unfoldable pub expr_owner_handler : (ℕ → Option Word) → File → Sym → LreValue D → Option Answer
  unfolding user_name
  expr_owner_handler getpwuid f opt (int z) =
      if f.state
      then compare_owner (user_name getpwuid f.owner) (show_int z) opt
      else some (silent lre_ret_error)
  expr_owner_handler getpwuid f opt (string w) =
      if f.state
      then compare_owner (user_name getpwuid f.owner) w opt
      else some (silent lre_ret_error)
  expr_owner_handler getpwuid f opt _ = some (silent lre_ret_error)

-- The loops have a round for each digit of an `int`.
abbrev pub digit_rounds : ℕ
digit_rounds = 11

-- The loop of `int2perm` on a number that is not negative, with `i` and `v`.
unfoldable pub int2perm_loop : ℕ → ℕ → ℕ → ℕ → ℕ
int2perm_loop zero val i v = v
int2perm_loop (suc n) val i v =
    let rest = int2perm_loop n (val / 10) (suc i) (bit_or v ((val % 10) * 2 ^ (i * 3))) in
    if val == 0 then v else rest

-- `none` is the shift of a negative digit.
unfoldable pub int2perm : ℤ → Option ℕ
unfolding int2perm_loop
int2perm (pos n) = some (int2perm_loop digit_rounds n 0 0)
int2perm (negsuc n) = none

-- A 32-bit word as an `int`.
abbrev pub word_int : ℕ → ℤ
word_int n = if ltb n (2 ^ 31) then pos n else negsuc (2 ^ 32 - 1 - n)

-- `val & 7` and `val >>= 3` of an `int`; the shift of a negative number keeps its sign.
abbrev pub low_octal : ℤ → ℕ
low_octal (pos n) = bit_and n 7
low_octal (negsuc n) = 7 - bit_and n 7

abbrev pub shift_octal : ℤ → ℤ
shift_octal (pos n) = pos (n / 8)
shift_octal (negsuc n) = negsuc (n / 8)

-- How the loop of `perm2int` ends: with a number, or where a number is no `int`, which is undefined.
pub data Shown : Type 0 where
  shown : ℕ → Shown
  overflow out_of_rounds : Shown

-- The loop of `perm2int`, with `i` and `v`, which are not negative.
unfoldable pub perm2int_loop : ℕ → ℤ → ℕ → ℕ → Shown
perm2int_loop zero val i v = out_of_rounds
perm2int_loop (suc n) val i v =
    let v' = v + low_octal val * i in
    let rest = perm2int_loop n (shift_octal val) (i * 10) v' in
    if eqb_ℤ val (pos 0)
    then shown v
    else if ltb v' (2 ^ 31) && ltb (i * 10) (2 ^ 31)
    then rest
    else overflow

abbrev pub shown_perm : Shown → Option ℕ
shown_perm (shown n) = some n
shown_perm _ = none

-- `none` is undefined behaviour.
unfoldable pub perm2int : ℕ → Option ℕ
unfolding perm2int_loop
perm2int val = shown_perm (perm2int_loop digit_rounds (word_int val) 1 0)

-- `a` and `b` are 32-bit words.
abbrev pub file_perm_compare : ℕ → ℕ → ℤ
file_perm_compare a b =
    if a == b then pos 0 else if bit_and a (minus_one - b) == 0 then negsuc 0 else pos 1

abbrev permission_details : ℕ → Word
permission_details n = text "'permission' not matched. perm: '" ++ (show_int (pos n) ++ text "'")

-- The details of a comparison that is false show the permissions.
abbrev pub permission_answer : ℤ → Option ℕ → Option Answer
permission_answer (pos zero) none = none
permission_answer (pos zero) (some n) = some (report (pos 0) (permission_details n))
permission_answer (pos (suc zero)) perm = some (report (pos 1) (text "'permission' matched."))
permission_answer ret perm = some (silent ret)

-- `none` is undefined behaviour.
unfoldable pub expr_permission_handler : {D : Type 0} → File → Sym → LreValue D → Option Answer
expr_permission_handler f opt (int z) =
    if f.state
    then elim (int2perm z) [
      | none ↦ none
      | some v ↦
          permission_answer (lre_compare f.permission v opt file_perm_compare)
            (perm2int f.permission)
    ]
    else some (silent lre_ret_error)
expr_permission_handler f opt _ = some (silent lre_ret_error)
