-- ===== src/Register/Adds.antt =====
-- What `keyword_install` (keyword.c) adds to the scopes of the keyword table.
use lre.Base.{
  ◌⊎◌, get_elem?-append, subst, ℕ, zero, suc, ◌<◌, Bool, true, false, Option, none, some, List, [],
  ◌∷◌, ◌++◌, ◌≡◌, ◌≢◌, refl, ap, sym, ◌∙◌, if◌then◌else◌, length, length-append, length-set,
  get_elem?, set, get_elem?-set, get_elem?-last, get_elem?-front, get_elem?-beyond, arith, inl, inr,
  ◌==◌, ltb, Bool-cases,
}
use lre.Token.{Word}
use lre.Vector.{Vector, vector_init, vector_set}
use lre.Keyword.{
  KeystubType, KeywordStub, Table, has_subvec, subvec_of, keyword_stub_create, keyword_install,
}
use lre.Register.Scope.{Entry, entry_of, entry_at, entries, scope_of}
use lre.Register.Packed.{
  IsFull, IsPacked, Keeps, IsFull-Keeps, IsFull-vector_init, IsFull-set, entries-stable,
  entries-set,
}

-- The scope of `q` has grown; nothing else has changed, but that there are new stubs.
pub record Adds (t t' : Table) (q : ℕ) (es : List Entry) : Type 0 where
  pub packed : IsPacked t'
  pub keeps : Keeps t.heap t'.heap
  pub root : t'.root ≡ t.root
  pub grows : scope_of t' q ≡ scope_of t q ++ es
  pub others : (r : ℕ) → r < length t.heap → r ≢ q → scope_of t' r ≡ scope_of t r
  pub open_scope : (v : Vector ℕ) × (subvec_of t'.heap q ≡ some v)

pub new_subvec :
    (ty : KeystubType) (w : Word) (d : ℕ) (p : Option ℕ) (u : Vector ℕ)
    → (keyword_stub_create ty w d p).subvec ≡ some u
    → u ≡ vector_init 0
unfolding keyword_stub_create
new_subvec ty w d p u h = go (has_subvec ty) h
  where
    go : (b : Bool) → (if b then some (vector_init 0) else none) ≡ some u → u ≡ vector_init 0
    go true e = cc
    go false e = cc

-- The vector of a stub in a heap with one stub more.
pub subvec_of-append :
    (heap : List KeywordStub) (s : KeywordStub) (r : ℕ) (u : Vector ℕ)
    → subvec_of (heap ++ s ∷ []) r ≡ some u
    → (subvec_of heap r ≡ some u) ⊎ (s.subvec ≡ some u)
unfolding subvec_of
subvec_of-append [] s zero u h = inr h
subvec_of-append [] s (suc r) u h = cc
subvec_of-append (x ∷ heap) s zero u h = inl h
subvec_of-append (x ∷ heap) s (suc r) u h = subvec_of-append heap s r u h

pub subvec_of-front :
    (heap : List KeywordStub) (s : KeywordStub) (r : ℕ)
    → r < length heap
    → subvec_of (heap ++ s ∷ []) r ≡ subvec_of heap r
unfolding subvec_of
subvec_of-front heap s r l = rw (get_elem?-front heap (s ∷ []) r l, subvec_of) refl

pub Keeps-append : (heap : List KeywordStub) (s : KeywordStub) → Keeps heap (heap ++ s ∷ [])
Keeps-append heap s = record {
  longer = omega (arith, length-append heap (s ∷ []));
  same = λ p l. rw (get_elem?-front heap (s ∷ []) p l, entry_at) refl;
}

pub entry_at-last :
    (heap : List KeywordStub) (s : KeywordStub)
    → entry_at (heap ++ s ∷ []) (length heap) ≡ some (entry_of s)
entry_at-last heap s = rw (get_elem?-last heap s, entry_at) refl

-- A stub whose vector alone is changed.
module _ (heap : List KeywordStub) (q : ℕ) (s : KeywordStub) (u : Vector ℕ)
    (at : get_elem? heap q ≡ some s) where
  abbrev changed : List KeywordStub
  changed = set heap q (record s { subvec = some u })

  there : q < length heap
  there = elim (Bool-cases (ltb q (length heap))) [
    | inl t ↦ ground arith
    | inr f ↦ let e : get_elem? heap q ≡ none = get_elem?-beyond heap q (ground arith) in absurd cc
  ]

  entry_at-changed : (p : ℕ) → entry_at changed p ≡ entry_at heap p
  entry_at-changed p =
      rw (get_elem?-set heap q p (record s { subvec = some u }) there, entry_at)
        (ground (arith, at))

  subvec_of-changed : (r : ℕ) → subvec_of changed r ≡ (if q == r then some u else subvec_of heap r)
  unfolding subvec_of
  subvec_of-changed r =
      rw (get_elem?-set heap q r (record s { subvec = some u }) there, subvec_of) (ground arith)

-- A scope whose vector is the same holds the same.
pub scope_of-same :
    (t t' : Table) (r : ℕ)
    → IsPacked t
    → Keeps t.heap t'.heap
    → subvec_of t'.heap r ≡ subvec_of t.heap r
    → scope_of t' r ≡ scope_of t r
unfolding scope_of
scope_of-same t t' r h k e = rw (e, scope_of) (go (subvec_of t.heap r) (h.subs r))
  where
    go :
        (o : Option (Vector ℕ))
        → ((v : Vector ℕ) → o ≡ some v → IsFull t.heap v)
        → (elim o as (λ _. List Entry) [ none ↦ [] | some v ↦ entries t'.heap v ])
          ≡ (elim o as (λ _. List Entry) [ none ↦ [] | some v ↦ entries t.heap v ])
    go none f = refl
    go (some v) f = entries-stable t.heap t'.heap v k (f v refl)

pub scope_of-some :
    (t : Table) (q : ℕ) (v : Vector ℕ)
    → subvec_of t.heap q ≡ some v
    → scope_of t q ≡ entries t.heap v
unfolding scope_of
scope_of-some t q v e = rw (e, scope_of) refl

stub_at :
    (heap : List KeywordStub) (q : ℕ) (v : Vector ℕ)
    → subvec_of heap q ≡ some v
    → (s : KeywordStub) × (get_elem? heap q ≡ some s) × (s.subvec ≡ some v)
unfolding subvec_of
stub_at [] q v h = cc
stub_at (s ∷ heap) zero v h = (s, refl, h)
stub_at (s ∷ heap) (suc q) v h = stub_at heap q v h

abbrev pub entry : KeystubType → Word → ℕ → Entry
entry ty w d = record { type = ty; keyword = w; handler = d }

pub entry-create :
    (ty : KeystubType) (w : Word) (d : ℕ) (p : Option ℕ)
    → entry_of (keyword_stub_create ty w d p) ≡ entry ty w d
unfolding keyword_stub_create
entry-create ty w d p = refl

module _ (t : Table) (packed : IsPacked t) (q : ℕ) (s : KeywordStub) (v : Vector ℕ)
    (at : get_elem? t.heap q ≡ some s) (has : s.subvec ≡ some v) (new : KeywordStub)
    (empty : (u : Vector ℕ) → new.subvec ≡ some u → u ≡ vector_init 0) where
  abbrev before : List KeywordStub
  before = t.heap ++ new ∷ []

  abbrev grown : Vector ℕ
  grown = (vector_set v (some (length t.heap))).0

  abbrev after : Table
  after = record t { heap = set before q (record s { subvec = some grown }) }

  still : get_elem? before q ≡ some s
  still = get_elem?-append t.heap (new ∷ []) q s at

  subvec_of-q : subvec_of t.heap q ≡ some v
  unfolding subvec_of
  subvec_of-q = rw (at, subvec_of) has

  subvec_of-after :
      (r : ℕ) → subvec_of after.heap r ≡ (if q == r then some grown else subvec_of before r)
  subvec_of-after = subvec_of-changed before q s grown still

  Keeps-after : Keeps t.heap after.heap
  Keeps-after = record {
    longer = omega (
      arith,
      length-set before q (record s { subvec = some grown }),
      length-append t.heap (new ∷ []),
    );
    same = λ p l. entry_at-changed before q s grown still p ∙ (Keeps-append t.heap new).same p l;
  }

  full : IsFull t.heap v
  full = packed.subs q v subvec_of-q

  IsFull-after : (r : ℕ) (u : Vector ℕ) → subvec_of after.heap r ≡ some u → IsFull after.heap u
  IsFull-after r u h = go (Bool-cases (q == r)) (sym (subvec_of-after r) ∙ h)
    where
      old : (subvec_of t.heap r ≡ some u) ⊎ (new.subvec ≡ some u) → IsFull after.heap u
      old (inl e) = IsFull-Keeps t.heap after.heap u Keeps-after.longer (packed.subs r u e)
      old (inr e) = rw (empty u e) (IsFull-vector_init after.heap)

      mine : grown ≡ u → IsFull after.heap u
      mine e = rw (← e) (
          IsFull-set t.heap after.heap v (length t.heap) full Keeps-after.longer (
            omega (
              arith,
              length-set before q (record s { subvec = some grown }),
              length-append t.heap (new ∷ []),
            )))

      go :
          ((q == r) ≡ true) ⊎ ((q == r) ≡ false)
          → (if q == r then some grown else subvec_of before r) ≡ some u
          → IsFull after.heap u
      go (inl b) e = mine (ground (arith, b, e))
      go (inr b) e = old (subvec_of-append t.heap new r u (ground (arith, b, e)))

  grows-after : scope_of after q ≡ scope_of t q ++ entry_of new ∷ []
  grows-after =
      scope_of-some after q grown (subvec_of-after q ∙ ground arith)
      ∙ (entries-set t.heap after.heap v (length t.heap) (entry_of new) Keeps-after full
            (entry_at-changed before q s grown still (length t.heap) ∙ entry_at-last t.heap new)
          ∙ ap (λ es. es ++ entry_of new ∷ []) (sym (scope_of-some t q v subvec_of-q)))

  others-after : (r : ℕ) → r < length t.heap → r ≢ q → scope_of after r ≡ scope_of t r
  others-after r l ne =
      scope_of-same t after r packed Keeps-after
        (subvec_of-after r ∙ (ground (arith, ne) ∙ subvec_of-front t.heap new r l))

  Adds-after : Adds t after q (entry_of new ∷ [])
  Adds-after = record {
    packed = record {
      root = IsFull-Keeps t.heap after.heap t.root Keeps-after.longer packed.root;
      subs = IsFull-after;
    };
    keeps = Keeps-after;
    root = refl;
    grows = grows-after;
    others = others-after;
    open_scope = (grown, subvec_of-after q ∙ ground arith);
  }

-- A keyword that is installed under a stub with a vector comes at the end of its scope.
pub keyword_install-Adds :
    (t : Table) (ty : KeystubType) (w : Word) (d q : ℕ) (v : Vector ℕ)
    → IsPacked t
    → subvec_of t.heap q ≡ some v
    → (t' : Table) × (keyword_install t ty w d (some q) ≡ some (t', length t.heap))
      × Adds t t' q (entry ty w d ∷ [])
unfolding keyword_install
keyword_install-Adds t ty w d q v h e =
    let (s, at, has) = stub_at t.heap q v e in
    let new : KeywordStub = keyword_stub_create ty w d (some q) in
    (
      after t h q s v at has new (new_subvec ty w d (some q)),
      rw (at, keyword_install) (rw (has, keyword_install) refl),
      subst (λ x. Adds t (after t h q s v at has new (new_subvec ty w d (some q))) q (x ∷ []))
          (entry-create ty w d (some q))
          (Adds-after t h q s v at has new (new_subvec ty w d (some q))),
    )
