-- ===== src/Preprocess/Calls.antt =====
-- What a call of a macro becomes (preprocess.c), with the macros as a plain list, the newest first.
use lre.Base.{
  ℕ, ◌<◌, ◌≤◌, true, false, Bool, Option, none, some, List, [], ◌∷◌, ◌++◌, ◌≡◌, ◌≢◌, ◌⊎◌, inl, inr,
  refl, ap, ◌∙◌, leb, if◌then◌else◌, ◌&&◌, ◌==◌, ==_iff, length, arith,
}
use lre.Token.{Word, Tokens, keyword}
use lre.Keyword.{same_word}
use lre.Keyword.Laws.{same_word-eq, same_word_self}
use lre.Macro.{Macro, find_in, is_lre_macro, lre_macro_argc_max}
use lre.Macro.Table.{added, lre_find_macro-added}
use lre.Macro.Content.{Created, made, null, undefined, lre_create_code_by_macro}
use lre.Macro.Args.{put_call_args}
use lre.Preprocess.{
  Preprocessed, error, crash, repeat, call_macro, interp_preprocess,
  interp_preprocess-put_call_args,
}

-- No macro of the list has the keyword and the number of arguments.
abbrev pub NoneFits : Word → ℕ → List Macro → Type 0
NoneFits k n [] = Unit
NoneFits k n (m ∷ ms) = (m.keyword ≡ k → length m.args ≢ n) × NoneFits k n ms

-- The macro is the first of the list that has the keyword and the number of arguments.
pub record IsFirst (ms : List Macro) (k : Word) (n : ℕ) (m : Macro) : Type 0 where
  pub newer : List Macro
  pub older : List Macro
  pub whole : ms ≡ newer ++ m ∷ older
  pub none_newer : NoneFits k n newer
  pub keyword_eq : m.keyword ≡ k
  pub count_eq : length m.args ≡ n

-- The outcome of a call with the values.
pub data IsReplaced (ms : List Macro) (k : Word) (vals : List Word) : Preprocessed → Type 0 where
  too_many : lre_macro_argc_max < length vals → IsReplaced ms k vals error
  unknown :
      length vals ≤ lre_macro_argc_max → NoneFits k (length vals) ms → IsReplaced ms k vals error
  replaced :
      (m : Macro) (code : Word)
      → length vals ≤ lre_macro_argc_max
      → IsFirst ms k (length vals) m
      → lre_create_code_by_macro m vals ≡ made code
      → IsReplaced ms k vals (repeat code)
  broken :
      (m : Macro)
      → length vals ≤ lre_macro_argc_max
      → IsFirst ms k (length vals) m
      → (lre_create_code_by_macro m vals ≡ null) ⊎ (lre_create_code_by_macro m vals ≡ undefined)
      → IsReplaced ms k vals crash

-- What `find_in` gives.
abbrev Finds : List Macro → Word → ℕ → Option Macro → Type 0
Finds ms k n none = NoneFits k n ms
Finds ms k n (some m) = IsFirst ms k n m

Finds-find_in : (ms : List Macro) (k : Word) (n : ℕ) → Finds ms k n (find_in k n ms)
unfolding find_in
Finds-find_in [] k n = tt
Finds-find_in (m ∷ ms) k n =
    go (same_word m.keyword k) (length m.args == n) refl refl (find_in k n ms)
      (Finds-find_in ms k n)
  where
    other :
        (o : Option Macro)
        → (m.keyword ≡ k → length m.args ≢ n)
        → Finds ms k n o
        → Finds (m ∷ ms) k n o
    other none h f = (h, f)
    other (some x) h f = record {
      newer = m ∷ f.newer;
      older = f.older;
      whole = ap (λ l. m ∷ l) f.whole;
      none_newer = (h, f.none_newer);
      keyword_eq = f.keyword_eq;
      count_eq = f.count_eq;
    }

    apart : m.keyword ≡ k → same_word m.keyword k ≢ false
    apart q e =
        let same : same_word m.keyword k ≡ true = ap (λ w. same_word w k) q ∙ same_word_self k in cc

    go :
        (a b : Bool)
        → same_word m.keyword k ≡ a
        → (length m.args == n) ≡ b
        → (o : Option Macro) → Finds ms k n o
        → Finds (m ∷ ms) k n (if a && b then some m else o)
    go true true e u o f = record {
      newer = [];
      older = ms;
      whole = refl;
      none_newer = tt;
      keyword_eq = same_word-eq m.keyword k e;
      count_eq = (==_iff (length m.args) n).0 u;
    }
    go true false e u o f = other o (λ q. ground arith) f
    go false b e u o f = other o (λ q. absurd (apart q e)) f

IsReplaced-call_macro :
    (ms : List Macro) (k : Word) (vals : List Word) (o : Option Macro)
    → length vals ≤ lre_macro_argc_max
    → Finds ms k (length vals) o
    → IsReplaced ms k vals (call_macro vals o)
IsReplaced-call_macro ms k vals none l f = unknown l f
IsReplaced-call_macro ms k vals (some m) l f = go (lre_create_code_by_macro m vals) refl
  where
    go :
        (c : Created)
        → lre_create_code_by_macro m vals ≡ c
        → IsReplaced ms k vals (lre.Preprocess.replace c)
    go (made code) e = replaced m code l f e
    go null e = broken m l f (inl e)
    go undefined e = broken m l f (inr e)

-- A call of a macro with more than 16 values is an error, and so is one with a number of values for
-- which no macro has the keyword and as many arguments. Otherwise the rule is replaced by the code
-- that the first macro of the list that has them creates from the values, and where none can be
-- created the program crashes. What stands behind the call is dropped. Some macro has the keyword.
pub interp_preprocess-IsReplaced :
    (ms : List Macro) (k : Word) (vals : List Word) (ts : Tokens)
    → is_lre_macro (added ms) k ≡ true
    → IsReplaced ms k vals (interp_preprocess (added ms) (keyword k ∷ put_call_args vals ts))
interp_preprocess-IsReplaced ms k vals ts h =
    rw
      (
        interp_preprocess-put_call_args (added ms) k vals ts h,
        (lre_find_macro-added ms k (length vals)).0,
      )
      (go (leb (length vals) lre_macro_argc_max) refl)
  where
    go :
        (b : Bool)
        → leb (length vals) lre_macro_argc_max ≡ b
        → IsReplaced ms k vals (if b then call_macro vals (find_in k (length vals) ms) else error)
    go true e =
        IsReplaced-call_macro ms k vals (find_in k (length vals) ms) (ground arith)
          (Finds-find_in ms k (length vals))
    go false e = too_many (ground arith)
