-- ===== src/Register/Laws.antt =====
-- What the registration of components (lre.c) puts into the keyword table.
use lre.Base.{
  get_elem?-last, inl, inr, ℕ, suc, ◌<◌, true, none, some, List, [], ◌∷◌, ◌++◌, append_assoc,
  append-nil, ◌≡◌, refl, ap, sym, ◌∙◌, length, length-append, arith,
}
use lre.Token.{Word}
use lre.Vector.{Vector, vector_init, vector_set}
use lre.Keyword.{
  KeystubType, KeywordStub, func_type, arg_type, expr_type, var_type, Table, has_subvec, subvec_of,
  keyword_stub_create,
}
use lre.Register.{LrcStub, LrcFunc, LrcCall, done, install_all}
use lre.Register.Scope.{Entry, entries, entries_loop, root_scope, scope_of}
use lre.Register.Packed.{
  IsPacked, Keeps, IsFull-Keeps, IsFull-vector_init, IsFull-set, entries-stable, entries-set,
}
use lre.Register.Adds.{
  Adds, Keeps-append, entry_at-last, scope_of-same, scope_of-some, entry, entry-create,
  subvec_of-append, subvec_of-front, new_subvec, keyword_install-Adds,
}

-- The members of a component as they stand in its scope.
unfoldable pub entries_of : KeystubType → List LrcStub → List Entry
entries_of ty [] = []
entries_of ty (s ∷ ss) = entry ty s.keyword s.handler ∷ entries_of ty ss

abbrev pub func_members : LrcFunc → List Entry
func_members f =
    entries_of arg_type f.args
    ++ (entries_of expr_type f.exprs
        ++ (entries_of var_type f.vars ++ entries_of func_type f.funcs))

abbrev pub call_members : LrcCall → List Entry
call_members c = entries_of arg_type c.args ++ entries_of var_type c.vars

Keeps-trans : (a b c : List KeywordStub) → Keeps a b → Keeps b c → Keeps a c
Keeps-trans a b c h k = record {
  longer = omega (arith, h.longer, k.longer);
  same = λ p l. k.same p (omega (arith, h.longer)) ∙ h.same p l;
}

Adds-nil :
    (t : Table) (q : ℕ) (v : Vector ℕ) → IsPacked t → subvec_of t.heap q ≡ some v → Adds t t q []
Adds-nil t q v h e = record {
  packed = h;
  keeps = record { longer = omega arith; same = λ p l. refl };
  root = refl;
  grows = sym (append-nil (scope_of t q));
  others = λ r l n. refl;
  open_scope = (v, e);
}

pub Adds-append :
    (t t' t'' : Table) (q : ℕ) (es fs : List Entry)
    → Adds t t' q es
    → Adds t' t'' q fs
    → Adds t t'' q (es ++ fs)
Adds-append t t' t'' q es fs h k = record {
  packed = k.packed;
  keeps = Keeps-trans t.heap t'.heap t''.heap h.keeps k.keeps;
  root = k.root ∙ h.root;
  grows = k.grows ∙ (ap (λ x. x ++ fs) h.grows ∙ append_assoc (scope_of t q) es fs);
  others = λ r l n. k.others r (omega (arith, h.keeps.longer)) n ∙ h.others r l n;
  open_scope = k.open_scope;
}

-- A loop over members puts all of them at the end of the scope.
pub install_all-Adds :
    (ty : KeystubType) (q : ℕ) (ss : List LrcStub) (t : Table) (v : Vector ℕ)
    → IsPacked t
    → subvec_of t.heap q ≡ some v
    → (t' : Table) × (install_all ty q ss t ≡ done t') × Adds t t' q (entries_of ty ss)
unfolding install_all entries_of
install_all-Adds ty q [] t v h e = (t, refl, Adds-nil t q v h e)
install_all-Adds ty q (s ∷ ss) t v h e =
    let (t', i, a) = keyword_install-Adds t ty s.keyword s.handler q v h e in
    let (u, o) = a.open_scope in
    let (t'', j, b) = install_all-Adds ty q ss t' u a.packed o in
    (
      t'',
      rw (i, install_all) j,
      Adds-append t t' t'' q (entry ty s.keyword s.handler ∷ []) (entries_of ty ss) a b,
    )

-- A new stub in the root, whose scope holds `es`.
pub record Registers (t t' : Table) (e : Entry) (es : List Entry) : Type 0 where
  pub packed : IsPacked t'
  pub keeps : Keeps t.heap t'.heap
  pub rooted : root_scope t' ≡ root_scope t ++ e ∷ []
  pub members : scope_of t' (length t.heap) ≡ es
  pub others : (r : ℕ) → r < length t.heap → scope_of t' r ≡ scope_of t r

-- A keyword that is installed in the root, before its members.
module _ (t : Table) (h : IsPacked t) (ty : KeystubType) (w : Word) (d : ℕ)
    (open_type : has_subvec ty ≡ true) where
  abbrev pub new : KeywordStub
  new = keyword_stub_create ty w d none

  abbrev pub rooted_table : Table
  rooted_table = record {
    heap = t.heap ++ new ∷ [];
    root = (vector_set t.root (some (length t.heap))).0;
  }

  new-subvec : new.subvec ≡ some (vector_init 0)
  unfolding keyword_stub_create
  new-subvec = rw open_type refl

  longer : length rooted_table.heap ≡ suc (length t.heap)
  longer = omega (arith, length-append t.heap (new ∷ []))

  pub opened : subvec_of rooted_table.heap (length t.heap) ≡ some (vector_init 0)
  unfolding subvec_of
  opened = rw (get_elem?-last t.heap new, subvec_of) new-subvec

  pub IsPacked-rooted : IsPacked rooted_table
  IsPacked-rooted = record {
    root =
        IsFull-set t.heap rooted_table.heap t.root (length t.heap) h.root (omega (arith, longer))
          (omega (arith, longer));
    subs = λ r u e. elim (subvec_of-append t.heap new r u e) [
      | inl a ↦ IsFull-Keeps t.heap rooted_table.heap u (omega (arith, longer)) (h.subs r u a)
      | inr b ↦ rw (new_subvec ty w d none u b) (IsFull-vector_init rooted_table.heap)
    ];
  }

  rooted-grows : root_scope rooted_table ≡ root_scope t ++ entry ty w d ∷ []
  unfolding root_scope
  rooted-grows =
      entries-set t.heap rooted_table.heap t.root (length t.heap) (entry ty w d)
        (Keeps-append t.heap new) h.root
        (entry_at-last t.heap new ∙ ap some (entry-create ty w d none))

  opened-empty : scope_of rooted_table (length t.heap) ≡ []
  unfolding entries entries_loop vector_init
  opened-empty = scope_of-some rooted_table (length t.heap) (vector_init 0) opened

  rooted-others : (r : ℕ) → r < length t.heap → scope_of rooted_table r ≡ scope_of t r
  rooted-others r l =
      scope_of-same t rooted_table r h (Keeps-append t.heap new) (subvec_of-front t.heap new r l)

  root_scope-Adds :
      (t' : Table) (es : List Entry)
      → Adds rooted_table t' (length t.heap) es
      → root_scope t' ≡ root_scope rooted_table
  unfolding root_scope
  root_scope-Adds t' es a =
      ap (entries t'.heap) a.root
      ∙ entries-stable rooted_table.heap t'.heap rooted_table.root a.keeps IsPacked-rooted.root

  pub Registers-Adds :
      (t' : Table) (es : List Entry)
      → Adds rooted_table t' (length t.heap) es
      → Registers t t' (entry ty w d) es
  Registers-Adds t' es a = record {
    packed = a.packed;
    keeps = Keeps-trans t.heap rooted_table.heap t'.heap (Keeps-append t.heap new) a.keeps;
    rooted = root_scope-Adds t' es a ∙ rooted-grows;
    members = a.grows ∙ ap (λ x. x ++ es) opened-empty;
    others =
        λ r l. a.others r (omega (arith, longer)) (λ e. absurd (omega arith)) ∙ rooted-others r l;
  }
