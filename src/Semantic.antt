-- ===== src/Semantic.antt =====
-- The semantic analysis of semantic.c: every name of the tree is replaced by the stub that it
-- names, or the analysis fails. The keyword table is taken through the section's parameters:
-- `find` is `semantic_find_keystub` in a vector, `sub` the vector of a stub, `root` the root's.
pub mod Names
pub mod Table
use lre.Base.{Bool, Option, none, some}
use lre.Symbols.{Sym}
use lre.Token.{Word}
use lre.Syntax.{
  Val, Vals, Args, Child, Childs, word, var, valblock, call, vnil, vcons, anil, acons, func, expr,
  block, cnil, ccons,
}

-- `none` is `-EINVAL`.
infixl 5 ◌>>=◌
abbrev pub ◌>>=◌ : {A B : Type 0} → Option A → (A → Option B) → Option B
none >>= k = none
some a >>= k = k a

module _ {Scope Stub : Type 0} (find : Scope → Word → Option Stub) (sub : Stub → Scope)
    (root : Scope) where
  -- The stub of a call and the scope of its argument values: the scope's own, else the root's.
  unfoldable pub find_call : Scope → Word → Option (Stub × Scope)
  find_call scope k = elim (find scope k) [
    | some s ↦ some (s, scope)
    | none ↦ elim (find root k) [ some s ↦ some (s, root) | none ↦ none ]
  ]

  unfoldable mutual
    pub semanitic_parse_val : Scope → Val Word → Option (Val Stub)
    semanitic_parse_val scope (word w) = some (word w)
    semanitic_parse_val scope (var k) = do s ← find scope k; some (var s)
    semanitic_parse_val scope (valblock vs) = do
      us ← semanitic_parse_vals scope vs
      some (valblock us)
    semanitic_parse_val scope (call k as') = do
      (s, outer) ← find_call scope k
      bs ← semanitic_parse_args (sub s) outer as'
      some (call s bs)

    pub semanitic_parse_vals : Scope → Vals Word → Option (Vals Stub)
    semanitic_parse_vals scope vnil = some vnil
    semanitic_parse_vals scope (vcons v o vs) = do
      u ← semanitic_parse_val scope v
      us ← semanitic_parse_vals scope vs
      some (vcons u o us)

    -- Argument names are found in the first scope, and the names in their values in the second.
    pub semanitic_parse_args : Scope → Scope → Args Word → Option (Args Stub)
    semanitic_parse_args own scope anil = some anil
    semanitic_parse_args own scope (acons k vs as') = do
      s ← find own k
      us ← semanitic_parse_vals scope vs
      bs ← semanitic_parse_args own scope as'
      some (acons s us bs)

  unfoldable mutual
    pub semanitic_parse_child : Scope → Child Word → Option (Child Stub)
    semanitic_parse_child scope (func k as' cs) = do
      s ← find scope k
      bs ← semanitic_parse_args (sub s) scope as'
      ds ← semanitic_parse_childs (sub s) cs
      some (func s bs ds)
    semanitic_parse_child scope (expr k o vs) = do
      s ← find scope k
      us ← semanitic_parse_vals scope vs
      some (expr s o us)
    semanitic_parse_child scope (block negative cs) = do
      ds ← semanitic_parse_childs scope cs
      some (block negative ds)

    pub semanitic_parse_childs : Scope → Childs Word → Option (Childs Stub)
    semanitic_parse_childs scope cnil = some cnil
    semanitic_parse_childs scope (ccons c o cs) = do
      d ← semanitic_parse_child scope c
      ds ← semanitic_parse_childs scope cs
      some (ccons d o ds)

  unfoldable pub interp_semantic_analysis : Childs Word → Option (Childs Stub)
  interp_semantic_analysis cs = semanitic_parse_childs root cs
