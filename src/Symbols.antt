-- ===== src/Symbols.antt =====
-- The operators and brackets of the rule language: `enum syntax_sym_id`, `enum syntax_sym_type`
-- (interpreter.h) and the table `sym_words` with its readers (interpreter.c).
use lre.Base.{ℕ, Bool, true, false, Option, none, some, List, [], ◌∷◌}

-- `SYNTAX_SYM_RESERVED` is 0, the value of a node's `opt` that was never set.
pub data Sym : Type 0 where
  reserved and or not assign equal not_equal gt lt gt_or_equal lt_or_equal : Sym
  start_brace end_brace start_parenthesis end_parenthesis comma variable : Sym
  mod_sym bitand bitor bitxor add sub mul div invert : Sym
  add_equal sub_equal mul_equal div_equal : Sym

pub data SymType : Type 0 where
  unknown opt_logic opt_assign opt_comp opt_arith opt_arith_assign bracket comma_type : SymType

-- `~` has no entry in the table, so its type is 0, like that of `$`.
abbrev pub get_symbol_type : Sym → SymType
get_symbol_type Sym.and = opt_logic
get_symbol_type Sym.or = opt_logic
get_symbol_type Sym.not = opt_logic
get_symbol_type assign = opt_assign
get_symbol_type equal = opt_comp
get_symbol_type not_equal = opt_comp
get_symbol_type gt = opt_comp
get_symbol_type lt = opt_comp
get_symbol_type gt_or_equal = opt_comp
get_symbol_type lt_or_equal = opt_comp
get_symbol_type start_brace = bracket
get_symbol_type end_brace = bracket
get_symbol_type start_parenthesis = bracket
get_symbol_type end_parenthesis = bracket
get_symbol_type comma = comma_type
get_symbol_type mod_sym = opt_arith
get_symbol_type bitand = opt_arith
get_symbol_type bitor = opt_arith
get_symbol_type bitxor = opt_arith
get_symbol_type add = opt_arith
get_symbol_type sub = opt_arith
get_symbol_type mul = opt_arith
get_symbol_type div = opt_arith
get_symbol_type add_equal = opt_arith_assign
get_symbol_type sub_equal = opt_arith_assign
get_symbol_type mul_equal = opt_arith_assign
get_symbol_type div_equal = opt_arith_assign
get_symbol_type _ = unknown

-- The printed form of a symbol; `none` is the null pointer.
abbrev pub get_symbol_str : Sym → Option (List ℕ)
get_symbol_str reserved = none
get_symbol_str invert = none
get_symbol_str Sym.and = some (b'&' ∷ b'&' ∷ [])
get_symbol_str Sym.or = some (b'|' ∷ b'|' ∷ [])
get_symbol_str Sym.not = some (b'!' ∷ [])
get_symbol_str assign = some (b'=' ∷ [])
get_symbol_str equal = some (b'=' ∷ b'=' ∷ [])
get_symbol_str not_equal = some (b'!' ∷ b'=' ∷ [])
get_symbol_str gt = some (b'>' ∷ [])
get_symbol_str lt = some (b'<' ∷ [])
get_symbol_str gt_or_equal = some (b'>' ∷ b'=' ∷ [])
get_symbol_str lt_or_equal = some (b'<' ∷ b'=' ∷ [])
get_symbol_str start_brace = some (b'{' ∷ [])
get_symbol_str end_brace = some (b'}' ∷ [])
get_symbol_str start_parenthesis = some (b'(' ∷ [])
get_symbol_str end_parenthesis = some (b')' ∷ [])
get_symbol_str comma = some (b',' ∷ [])
get_symbol_str variable = some (b'$' ∷ [])
get_symbol_str mod_sym = some (b'%' ∷ [])
get_symbol_str bitand = some (b'&' ∷ [])
get_symbol_str bitor = some (b'|' ∷ [])
get_symbol_str bitxor = some (b'^' ∷ [])
get_symbol_str add = some (b'+' ∷ [])
get_symbol_str sub = some (b'-' ∷ [])
get_symbol_str mul = some (b'*' ∷ [])
get_symbol_str div = some (b'/' ∷ [])
get_symbol_str add_equal = some (b'+' ∷ b'=' ∷ [])
get_symbol_str sub_equal = some (b'-' ∷ b'=' ∷ [])
get_symbol_str mul_equal = some (b'*' ∷ b'=' ∷ [])
get_symbol_str div_equal = some (b'/' ∷ b'=' ∷ [])

-- The symbols that `peek_operator` and `read_operator` let through.
abbrev pub is_operator : Sym → Bool
is_operator Sym.and = true
is_operator Sym.or = true
is_operator Sym.not = true
is_operator assign = true
is_operator equal = true
is_operator not_equal = true
is_operator gt = true
is_operator lt = true
is_operator gt_or_equal = true
is_operator lt_or_equal = true
is_operator mod_sym = true
is_operator bitand = true
is_operator bitor = true
is_operator bitxor = true
is_operator add = true
is_operator sub = true
is_operator mul = true
is_operator div = true
is_operator add_equal = true
is_operator sub_equal = true
is_operator mul_equal = true
is_operator div_equal = true
is_operator _ = false
