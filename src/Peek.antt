-- ===== src/Peek.antt =====
-- What the parsers of syntax.c decide by looking at the tokens ahead, and the classes of operators
-- that they ask for.
use lre.Base.{Bool, true, false, some, [], ◌∷◌, if◌then◌else◌}
use lre.Symbols.{Sym, SymType}
use lre.Token.{Token, Tokens, keyword, string, symbol, peek_curr_token, token_is}

abbrev pub is_arith : SymType → Bool
is_arith SymType.opt_arith = true
is_arith _ = false

abbrev pub is_comp : SymType → Bool
is_comp SymType.opt_comp = true
is_comp _ = false

abbrev pub is_assign : SymType → Bool
is_assign SymType.opt_assign = true
is_assign _ = false

abbrev pub is_logic : SymType → Bool
is_logic SymType.opt_logic = true
is_logic _ = false

pub data ExprValType : Type 0 where
  unknown normal variable block_val call_val : ExprValType

unfoldable pub peek_expr_val_type : Tokens → ExprValType
peek_expr_val_type [] = unknown
peek_expr_val_type (keyword w ∷ []) = unknown
peek_expr_val_type (keyword w ∷ t ∷ ts) =
    if token_is Sym.start_parenthesis (some t) then call_val else normal
peek_expr_val_type (string w ∷ ts) = normal
peek_expr_val_type (symbol Sym.start_parenthesis ∷ ts) = block_val
peek_expr_val_type (symbol Sym.variable ∷ ts) = variable
peek_expr_val_type (symbol _ ∷ ts) = unknown

pub data ExprType : Type 0 where
  unknown eof normal func_type neg_block block_type : ExprType

abbrev pub func_or_expr : Token → ExprType
func_or_expr (symbol Sym.start_brace) = ExprType.func_type
func_or_expr (symbol Sym.start_parenthesis) = ExprType.func_type
func_or_expr _ = ExprType.normal

unfoldable pub peek_expr_type : Tokens → ExprType
peek_expr_type [] = ExprType.eof
peek_expr_type (keyword w ∷ []) = ExprType.unknown
peek_expr_type (keyword w ∷ t ∷ ts) = func_or_expr t
peek_expr_type (string w ∷ ts) = ExprType.unknown
peek_expr_type (symbol Sym.start_parenthesis ∷ ts) = ExprType.block_type
peek_expr_type (symbol Sym.not ∷ ts) =
    if token_is Sym.start_parenthesis (peek_curr_token ts)
    then ExprType.neg_block
    else ExprType.unknown
peek_expr_type (symbol _ ∷ ts) = ExprType.unknown
