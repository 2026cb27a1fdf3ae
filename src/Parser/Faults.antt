-- ===== src/Parser/Faults.antt =====
-- Inputs on which the parser of syntax.c does not do what its grammar promises.
use lre.Base.{ℕ, zero, suc, ◌*◌, ◌≤◌, List, length, ◌∙◌, true, [], ◌∷◌, ◌≡◌, arith}
use lre.Symbols.{Sym, get_symbol_type}
use lre.Token.{Word, Tokens, keyword, symbol, is_end_bracket}
use lre.Syntax.{Child, Childs}
use lre.Reply.{Reply, ok, crash}
use lre.Peek.{is_comp, is_logic, peek_expr_val_type, peek_expr_type}
use lre.Parser.{
  after_call, after_child, parse_block, key_operator, parse_val, parse_expr, interp_syntax_parse,
}
use lre.Parser.Print.{put_child, IsWellChild, put_childs, NonEmptyChilds, IsWellChilds}
use lre.Parser.Steps.{comp-is_operator}
use lre.Parser.RoundTrip.Childs.{
  comp-normal, logic-is_operator, Fits-logic, parse_child-put, parse_block-put,
}
use lre.Parser.RoundTrip.Whole.{cost_child-le, cost_childs-le}

-- A comparison with a call without arguments.
abbrev pub bare_call : Word → Sym → Word → Tokens
bare_call k s f =
    keyword k
    ∷ symbol s
    ∷ keyword f
    ∷ symbol Sym.start_parenthesis
    ∷ symbol Sym.end_parenthesis
    ∷ []

parse_block-bare_call :
    (n : ℕ) (k f : Word) (s : Sym)
    → 4 ≤ n
    → is_comp (get_symbol_type s) ≡ true
    → parse_block n (bare_call k s f) ≡ crash
unfolding parse_block peek_expr_type parse_expr key_operator parse_val peek_expr_val_type after_call
parse_block-bare_call zero k f s l h = absurd (omega arith)
parse_block-bare_call (suc zero) k f s l h = absurd (omega arith)
parse_block-bare_call (suc (suc zero)) k f s l h = absurd (omega arith)
parse_block-bare_call (suc (suc (suc zero))) k f s l h = absurd (omega arith)
parse_block-bare_call (suc (suc (suc (suc n)))) k f s l h =
    ground (arith, comp-normal s h, comp-is_operator s h)

-- The nodes of a rule, each with the operator behind it, in front of other tokens.
pub put_before : List (Child Word × Sym) → Tokens → Tokens
put_before [] ts = ts
put_before ((c, o) ∷ cs) ts = put_child c (symbol o ∷ put_before cs ts)

-- The nodes are well-formed and the operators logical.
abbrev pub AreWell : List (Child Word × Sym) → Type 0
AreWell [] = Unit
AreWell ((c, o) ∷ cs) = IsWellChild c × (is_logic (get_symbol_type o) ≡ true) × AreWell cs

after_child-crash :
    (again : Tokens → Reply (Childs Word)) (c : Child Word) (o : Sym) (ts : Tokens)
    → is_logic (get_symbol_type o) ≡ true
    → again ts ≡ crash
    → after_child again c (symbol o ∷ ts) ≡ crash
unfolding after_child
after_child-crash again c o ts l h = ground (arith, logic-is_operator o l)

parse_block-put_before :
    (cs : List (Child Word × Sym)) (n : ℕ) (k f : Word) (s : Sym)
    → AreWell cs
    → 4 * length (put_before cs (bare_call k s f)) ≤ n
    → is_comp (get_symbol_type s) ≡ true
    → parse_block n (put_before cs (bare_call k s f)) ≡ crash
unfolding put_before
parse_block-put_before [] n k f s w l h = parse_block-bare_call n k f s (omega arith) h
parse_block-put_before ((c, o) ∷ cs) zero k f s w l h =
    absurd (omega (arith, cost_child-le c (symbol o ∷ put_before cs (bare_call k s f))))
parse_block-put_before ((c, o) ∷ cs) (suc n) k f s w l h =
    let ts = put_before cs (bare_call k s f) in
    parse_child-put c n (symbol o ∷ ts) w.0 (omega (arith, cost_child-le c (symbol o ∷ ts)))
      (Fits-logic c o ts w.1)
    ∙ after_child-crash (parse_block n) c o ts w.1
        (parse_block-put_before cs n k f s w.2 (omega (arith, cost_child-le c (symbol o ∷ ts))) h)

-- A rule whose last node compares a keyword with a call without arguments makes the parser read
-- through a null pointer, whatever the names and the comparison are and whatever well-formed nodes
-- stand before it.
pub interp_syntax_parse_crash :
    (cs : List (Child Word × Sym)) (k f : Word) (s : Sym)
    → AreWell cs
    → is_comp (get_symbol_type s) ≡ true
    → interp_syntax_parse (put_before cs (bare_call k s f)) ≡ crash
unfolding interp_syntax_parse
interp_syntax_parse_crash cs k f s w h = parse_block-put_before cs _ k f s w (omega arith) h

-- Behind the nodes of a rule a closing bracket ends the parse with success, and whatever follows
-- it is not looked at.
interp_syntax_parse_ignores :
    (cs : Childs Word) (s : Sym) (ts : Tokens)
    → NonEmptyChilds cs
    → IsWellChilds cs
    → is_end_bracket s ≡ true
    → interp_syntax_parse (put_childs cs (symbol s ∷ ts)) ≡ ok cs (symbol s ∷ ts)
unfolding interp_syntax_parse
interp_syntax_parse_ignores cs s ts n h e =
    parse_block-put cs _ (symbol s ∷ ts) n h (omega (arith, cost_childs-le cs (symbol s ∷ ts))) e
