-- ===== src/Semantic/Table.antt =====
-- The semantic analysis of semantic.c on the keyword table of keyword.c: the scopes are vectors, the
-- first of them the root vector, and the stubs are places in the heap.
use lre.Base.{ℕ, Option, none, some, List, [], ◌≡◌, get_elem?}
use lre.Token.{Word}
use lre.Syntax.{Childs}
use lre.Vector.{Vector}
use lre.Keyword.{KeywordStub, Table, semantic_find_keystub, subvec_of}
use lre.Keyword.Laws.{semantic_find_keystub-HasKeyword}
use lre.Semantic.{interp_semantic_analysis}
use lre.Semantic.Names.{names_childs, interp_semantic_analysis-names}

abbrev pub analysis : Table → Childs Word → Option (Childs ℕ)
analysis t =
    interp_semantic_analysis (semantic_find_keystub t.heap) (subvec_of t.heap) (some t.root)

abbrev pub keyword_at : List KeywordStub → ℕ → Word
keyword_at heap p = elim (get_elem? heap p) [ none ↦ [] | some s ↦ s.keyword ]

found-keyword :
    (heap : List KeywordStub) (v : Option (Vector ℕ)) (w : Word) (p : ℕ)
    → semantic_find_keystub heap v w ≡ some p
    → keyword_at heap p ≡ w
found-keyword heap v w p h =
    let (s, e, k) = semantic_find_keystub-HasKeyword heap v w p h in rw (e, keyword_at) k

-- An analysis on the keyword table that succeeds keeps the tree: with each stub replaced by its
-- keyword it is the tree that was analysed, operators and negations included.
pub analysis-keyword_at :
    (t : Table) (cs : Childs Word) (ds : Childs ℕ)
    → analysis t cs ≡ some ds
    → names_childs (keyword_at t.heap) ds ≡ cs
analysis-keyword_at t cs ds h =
    interp_semantic_analysis-names (semantic_find_keystub t.heap) (subvec_of t.heap) (some t.root)
      (keyword_at t.heap) (found-keyword t.heap) cs ds h
