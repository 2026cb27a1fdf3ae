-- ===== src/Tests/Resolving.antt =====
-- A keyword table in which the names of a rule are found (semantic.c).
use lre.Base.{ℕ, none, some, [], ◌∷◌, ◌≡◌, refl}
use lre.Symbols.{Sym}
use lre.Token.{Word}
use lre.Syntax.{Childs, word, vnil, vcons, anil, func, expr, cnil, ccons}
use lre.Keyword.{
  func_type, expr_type, Table, semantic_find_keystub, find_stub_by_keyword, find_loop, same_word,
  subvec_of,
}
use lre.Semantic.{semanitic_parse_childs, semanitic_parse_val, interp_semantic_analysis}
use lre.Semantic.Names.{names_childs}
use lre.Semantic.Table.{analysis, keyword_at, analysis-keyword_at}
use lre.Tests.Sample.{codes}

-- file { size }
abbrev table : Table
table = record {
  heap =
      record {
        type = func_type;
        keyword = codes "file";
        handler = 100;
        parent = none;
        subvec = some (record { active = 1; slots = some 1 ∷ none ∷ [] });
      }
      ∷ record {
        type = expr_type;
        keyword = codes "size";
        handler = 101;
        parent = some 0;
        subvec = none;
      }
      ∷ [];
  root = record { active = 1; slots = some 0 ∷ none ∷ [] };
}

-- file{size > 1}
abbrev rule : Childs Word
rule =
    ccons
      (func (codes "file") anil (
        ccons (expr (codes "size") Sym.gt (vcons (word (codes "1")) Sym.reserved vnil)) Sym.reserved
          cnil))
      Sym.reserved cnil

abbrev resolved : Childs ℕ
resolved =
    ccons
      (func 0 anil
        (ccons (expr 1 Sym.gt (vcons (word (codes "1")) Sym.reserved vnil)) Sym.reserved cnil))
      Sym.reserved cnil

names_found : analysis table rule ≡ some resolved
unfolding interp_semantic_analysis semanitic_parse_childs semanitic_parse_val semantic_find_keystub
    find_stub_by_keyword find_loop same_word subvec_of
names_found = refl

analysis-keyword_at_example : names_childs (keyword_at table.heap) resolved ≡ rule
analysis-keyword_at_example = analysis-keyword_at table rule resolved names_found
