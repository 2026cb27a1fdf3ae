-- ===== src/Keyword.antt =====
-- The keyword table of keyword.c. Stubs lie in a heap and are named by their place in it; vectors
-- hold such places. A stub that was destroyed stays in the heap and no vector names it.
pub mod Laws
pub mod Install
use lre.Base.{
  ℕ, zero, suc, Bool, true, false, Option, none, some, List, [], ◌∷◌, ◌++◌, ◌==◌, if◌then◌else◌,
  length, get_elem?, set,
}
use lre.Token.{Word}
use lre.Vector.{Vector, vector_init, vector_lookup, vector_set, vector_unset}

pub data KeystubType : Type 0 where
  unknown_type func_type call_type arg_type expr_type var_type : KeystubType

-- `handler` stands for the `data` pointer.
pub record KeywordStub : Type 0 where
  pub type : KeystubType
  pub keyword : Word
  pub handler : ℕ
  pub parent : Option ℕ
  pub subvec : Option (Vector ℕ)

pub record Table : Type 0 where
  pub heap : List KeywordStub
  pub root : Vector ℕ

-- `!strcmp`.
unfoldable pub same_word : Word → Word → Bool
same_word [] [] = true
same_word (a ∷ as') (b ∷ bs) = let rest = same_word as' bs in if a == b then rest else false
same_word _ _ = false

abbrev pub has_subvec : KeystubType → Bool
has_subvec func_type = true
has_subvec call_type = true
has_subvec _ = false

unfoldable pub lre_keyword_init : Table
lre_keyword_init = record { heap = []; root = vector_init 0 }

-- `keyword_stub_create`, with the parent that `keyword_install` sets.
unfoldable pub keyword_stub_create : KeystubType → Word → ℕ → Option ℕ → KeywordStub
keyword_stub_create t w d p = record {
  type = t;
  keyword = w;
  handler = d;
  parent = p;
  subvec = if has_subvec t then some (vector_init 0) else none;
}

-- Put a pointer into a stub's vector; a stub without one is a null pointer.
abbrev add_to : List KeywordStub → ℕ → ℕ → KeywordStub → Option (List KeywordStub)
add_to heap q p s = elim s.subvec [
  | none ↦ none
  | some v ↦ some (set heap q (record s { subvec = some (vector_set v (some p)).0 }))
]

-- `keyword_install` with `keyword_stub_add`: the table and the new stub; `none` is the use of a
-- parent that has no vector.
unfoldable pub keyword_install : Table → KeystubType → Word → ℕ → Option ℕ → Option (Table × ℕ)
unfolding keyword_stub_create
keyword_install t ty w d none = some (
  record {
    heap = t.heap ++ keyword_stub_create ty w d none ∷ [];
    root = (vector_set t.root (some (length t.heap))).0;
  },
  length t.heap,
)
keyword_install t ty w d (some q) = elim (get_elem? t.heap q) [
  | none ↦ none
  | some s ↦
      elim (add_to (t.heap ++ keyword_stub_create ty w d (some q) ∷ []) q (length t.heap) s) [
        | none ↦ none
        | some heap ↦ some (record t { heap = heap }, length t.heap)
      ]
]

-- The loop of `find_stub_by_keyword` over the first `n` slots; it ends at a null slot.
unfoldable pub find_loop : List KeywordStub → ℕ → List (Option ℕ) → Word → Option ℕ
find_loop heap zero slots w = none
find_loop heap (suc n) [] w = none
find_loop heap (suc n) (none ∷ slots) w = none
find_loop heap (suc n) (some p ∷ slots) w =
    let rest = find_loop heap n slots w in
    elim (get_elem? heap p) [
      | none ↦ none
      | some s ↦ if same_word s.keyword w then some p else rest
    ]

unfoldable pub find_stub_by_keyword : List KeywordStub → Vector ℕ → Word → Option ℕ
find_stub_by_keyword heap v w = find_loop heap v.active v.slots w

-- `semantic_find_keystub` (semantic.c), where the vector may be null.
unfoldable pub semantic_find_keystub : List KeywordStub → Option (Vector ℕ) → Word → Option ℕ
semantic_find_keystub heap none w = none
semantic_find_keystub heap (some v) w = find_stub_by_keyword heap v w

-- The vector of a stub, as the semantic analysis reads it.
unfoldable pub subvec_of : List KeywordStub → ℕ → Option (Vector ℕ)
subvec_of heap p = elim (get_elem? heap p) [ none ↦ none | some s ↦ s.subvec ]

-- The loop of `keyword_uninstall`: it goes up from slot `i` while slots are in use and not null,
-- and takes out the stub wherever it stands; `n` counts the rounds.
unfoldable pub unset_loop : ℕ → Vector ℕ → ℕ → ℕ → Vector ℕ
unset_loop zero v i p = v
unset_loop (suc n) v i p = elim (vector_lookup v i) [
  | none ↦ v
  | some q ↦ unset_loop n (if p == q then vector_unset v i else v) (suc i) p
]

-- Take a pointer out of the vector of the stub at `q`; a stub without one is a null pointer.
abbrev take_from : Table → ℕ → ℕ → Option Table
take_from t q p = elim (get_elem? t.heap q) [
  | none ↦ none
  | some s ↦ elim s.subvec [
    | none ↦ none
    | some v ↦
        some (record t {
          heap = set t.heap q (record s { subvec = some (unset_loop v.active v 0 p) });
        })
  ]
]

-- `keyword_uninstall`; `none` is the use of a stub or a parent that is not there.
unfoldable pub keyword_uninstall : Table → ℕ → Option Table
keyword_uninstall t p = elim (get_elem? t.heap p) [
  | none ↦ none
  | some s ↦ elim s.parent [
    | none ↦ some (record t { root = unset_loop t.root.active t.root 0 p })
    | some q ↦ take_from t q p
  ]
]
