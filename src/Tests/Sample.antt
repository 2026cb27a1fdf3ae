-- ===== src/Tests/Sample.antt =====
-- A rule as a tree, on which the theorems about lexer.c, syntax.c and semantic.c are tried.
use lre.Base.{true, [], ◌∷◌}
use Prim.Native.Char.{code}
use Prim.Native.String.{String}
use lre.Symbols.{Sym}
use lre.Token.{Word}
use lre.Syntax.{Childs, word, vnil, vcons, anil, acons, func, expr, block, cnil, ccons}

abbrev pub codes : String → Word
codes String.[] = []
codes (String.◌∷◌ c s) = code c ∷ codes s

-- file(path="a"){size > 1 + 2 && !(owner == "r")}
abbrev sample_body : Childs Word
sample_body =
    ccons
      (expr (codes "size") Sym.gt
        (vcons (word (codes "1")) Sym.add (vcons (word (codes "2")) Sym.reserved vnil)))
      Sym.and
      (ccons
        (block true (
          ccons (expr (codes "owner") Sym.equal (vcons (word (codes "\"r\"")) Sym.reserved vnil))
            Sym.reserved cnil))
        Sym.reserved cnil)

abbrev pub sample : Childs Word
sample =
    ccons
      (func (codes "file")
        (acons (codes "path") (vcons (word (codes "\"a\"")) Sym.reserved vnil) anil) sample_body)
      Sym.reserved cnil
