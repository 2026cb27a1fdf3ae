-- ===== src/Semantic/Names.antt =====
-- The analysis of semantic.c keeps the tree, and gives each name a stub of that name.
use lre.Base.{Option, none, some, ◌≡◌, refl, ap, subst}
use lre.Token.{Word}
use lre.Syntax.{
  Val, Vals, Args, Child, Childs, word, var, valblock, call, vnil, vcons, anil, acons, func, expr,
  block, cnil, ccons,
}
use lre.Semantic.{
  ◌>>=◌, find_call, semanitic_parse_val, semanitic_parse_vals, semanitic_parse_args,
  semanitic_parse_child, semanitic_parse_childs, interp_semantic_analysis,
}

-- The tree with every stub replaced by its name.
module _ {Stub : Type 0} (name : Stub → Word) where
  unfoldable mutual
    pub names_val : Val Stub → Val Word
    names_val (word w) = word w
    names_val (var k) = var (name k)
    names_val (valblock vs) = valblock (names_vals vs)
    names_val (call k as') = call (name k) (names_args as')

    pub names_vals : Vals Stub → Vals Word
    names_vals vnil = vnil
    names_vals (vcons v o vs) = vcons (names_val v) o (names_vals vs)

    pub names_args : Args Stub → Args Word
    names_args anil = anil
    names_args (acons k vs as') = acons (name k) (names_vals vs) (names_args as')

  unfoldable mutual
    pub names_child : Child Stub → Child Word
    names_child (func k as' cs) = func (name k) (names_args as') (names_childs cs)
    names_child (expr k o vs) = expr (name k) o (names_vals vs)
    names_child (block negative cs) = block negative (names_childs cs)

    pub names_childs : Childs Stub → Childs Word
    names_childs cnil = cnil
    names_childs (ccons c o cs) = ccons (names_child c) o (names_childs cs)

-- The result satisfies `P`, if there is one.
data Ensures {A : Type 0} (P : A → Type 0) : Option A → Type 0 where
  failed : Ensures P none
  holds : {a : A} → P a → Ensures P (some a)

Ensures-bind :
    {A B : Type 0} {P : A → Type 0} {Q : B → Type 0} {r : Option A} {k : A → Option B}
    → Ensures P r
    → ((a : A) → P a → Ensures Q (k a))
    → Ensures Q (r >>= k)
Ensures-bind failed g = failed
Ensures-bind (holds {a} h) g = g a h

Ensures-some : {A : Type 0} {P : A → Type 0} {r : Option A} {a : A} → Ensures P r → r ≡ some a → P a
Ensures-some failed e = cc
Ensures-some {P = P} (holds h) e = subst P (cc) h

module _ {Scope Stub : Type 0} (find : Scope → Word → Option Stub) (sub : Stub → Scope)
    (root : Scope) (name : Stub → Word)
    (found : (scope : Scope) (w : Word) (s : Stub) → find scope w ≡ some s → name s ≡ w) where
  Ensures-find : (scope : Scope) (w : Word) → Ensures (λ s. name s ≡ w) (find scope w)
  Ensures-find scope w = go (find scope w) refl
    where
      go : (r : Option Stub) → find scope w ≡ r → Ensures (λ s. name s ≡ w) r
      go none e = failed
      go (some s) e = holds (found scope w s e)

  Ensures-find_call :
      (scope : Scope) (w : Word) → Ensures (λ p. name p.0 ≡ w) (find_call find sub root scope w)
  unfolding find_call
  Ensures-find_call scope w =
      go (find scope w) (find root w) (Ensures-find scope w) (Ensures-find root w)
    where
      go :
          (r q : Option Stub)
          → Ensures (λ s. name s ≡ w) r
          → Ensures (λ s. name s ≡ w) q
          → Ensures {A = Stub × Scope}
              (λ p. name p.0 ≡ w)
              (elim r [
                | some s ↦ some (s, scope)
                | none ↦ elim q [ some s ↦ some (s, root) | none ↦ none ]
              ])
      go none none h g = failed
      go none (some s) h (holds g) = holds g
      go (some s) q (holds h) g = holds h

  mutual
    unfolding semanitic_parse_val names_val

    keeps_val :
        (scope : Scope) (v : Val Word)
        → Ensures (λ u. names_val name u ≡ v) (semanitic_parse_val find sub root scope v)
    keeps_val scope (word w) = holds refl
    keeps_val scope (var k) = Ensures-bind (Ensures-find scope k) (λ s e. holds (ap var e))
    keeps_val scope (valblock vs) =
        Ensures-bind (keeps_vals scope vs) (λ us e. holds (ap valblock e))
    keeps_val scope (call k as') =
        Ensures-bind (Ensures-find_call scope k)
          (λ p e. Ensures-bind (keeps_args (sub p.0) p.1 as') (λ bs g. holds (cc)))

    keeps_vals :
        (scope : Scope) (vs : Vals Word)
        → Ensures (λ us. names_vals name us ≡ vs) (semanitic_parse_vals find sub root scope vs)
    keeps_vals scope vnil = holds refl
    keeps_vals scope (vcons v o vs) =
        Ensures-bind (keeps_val scope v)
          (λ u e. Ensures-bind (keeps_vals scope vs) (λ us g. holds (cc)))

    keeps_args :
        (own scope : Scope) (as' : Args Word)
        → Ensures
            (λ bs. names_args name bs ≡ as')
            (semanitic_parse_args find sub root own scope as')
    keeps_args own scope anil = holds refl
    keeps_args own scope (acons k vs as') = Ensures-bind (Ensures-find own k) (λ s e.
        Ensures-bind (keeps_vals scope vs)
          (λ us g. Ensures-bind (keeps_args own scope as') (λ bs i. holds (cc))))

  mutual
    unfolding semanitic_parse_child names_child

    keeps_child :
        (scope : Scope) (c : Child Word)
        → Ensures (λ d. names_child name d ≡ c) (semanitic_parse_child find sub root scope c)
    keeps_child scope (func k as' cs) = Ensures-bind (Ensures-find scope k) (λ s e.
        Ensures-bind (keeps_args (sub s) scope as')
          (λ bs g. Ensures-bind (keeps_childs (sub s) cs) (λ ds i. holds (cc))))
    keeps_child scope (expr k o vs) =
        Ensures-bind (Ensures-find scope k)
          (λ s e. Ensures-bind (keeps_vals scope vs) (λ us g. holds (cc)))
    keeps_child scope (block negative cs) =
        Ensures-bind (keeps_childs scope cs) (λ ds e. holds (ap (block negative) e))

    keeps_childs :
        (scope : Scope) (cs : Childs Word)
        → Ensures (λ ds. names_childs name ds ≡ cs) (semanitic_parse_childs find sub root scope cs)
    keeps_childs scope cnil = holds refl
    keeps_childs scope (ccons c o cs) =
        Ensures-bind (keeps_child scope c)
          (λ d e. Ensures-bind (keeps_childs scope cs) (λ ds g. holds (cc)))

  -- An analysis that succeeds keeps the tree: with each stub replaced by its keyword it is the tree
  -- that was analysed, operators and negations included. A lookup gives a stub of the keyword that
  -- it was asked for.
  pub interp_semantic_analysis-names :
      (cs : Childs Word) (ds : Childs Stub)
      → interp_semantic_analysis find sub root cs ≡ some ds
      → names_childs name ds ≡ cs
  unfolding interp_semantic_analysis
  interp_semantic_analysis-names cs ds h = Ensures-some (keeps_childs root cs) h
