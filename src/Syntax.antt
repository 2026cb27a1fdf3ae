-- ===== src/Syntax.antt =====
-- The syntax tree of interpreter.h. A list of nodes is a list type of its own, whose cells carry
-- the node's `opt`, the operator that stands after it (`reserved` is 0, no operator).
-- The union of a keyword and a keyword stub is the parameter `K`: words after the parser, stubs
-- after the semantic analysis. Argument arrays are lists, of at most `SYNTAX_ARG_MAX` entries.
use lre.Base.{ℕ, suc, Bool}
use lre.Symbols.{Sym}
use lre.Token.{Word}

mutual
  -- Nodes of type VAL (`isvar` 0, then 1), VALBLOCK and CALL.
  pub data Val (K : Type 0) : Type 0 where
    word : Word → Val K
    var : K → Val K
    valblock : Vals K → Val K
    call : K → Args K → Val K

  pub data Vals (K : Type 0) : Type 0 where
    vnil : Vals K
    vcons : Val K → Sym → Vals K → Vals K

  pub data Args (K : Type 0) : Type 0 where
    anil : Args K
    acons : K → Vals K → Args K → Args K

mutual
  -- Nodes of type FUNC, EXPR and BLOCK; the flag of a block is `negative`.
  pub data Child (K : Type 0) : Type 0 where
    func : K → Args K → Childs K → Child K
    expr : K → Sym → Vals K → Child K
    block : Bool → Childs K → Child K

  pub data Childs (K : Type 0) : Type 0 where
    cnil : Childs K
    ccons : Child K → Sym → Childs K → Childs K

abbrev pub syntax_arg_max : ℕ
syntax_arg_max = 8

-- `args->count`.
abbrev pub count : {K : Type 0} → Args K → ℕ
count anil = 0
count (acons k vs as') = suc (count as')
