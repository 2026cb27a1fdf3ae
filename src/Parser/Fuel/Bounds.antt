-- ===== src/Parser/Fuel/Bounds.antt =====
-- How far a parser of syntax.c gets, and the combinators of the parsers that keep within it.
use lre.Base.{ℕ, suc, ◌+◌, ◌≤◌, ◌<◌, Bool, [], ◌∷◌, length, arith}
use lre.Symbols.{Sym, SymType}
use lre.Token.{Word, Tokens, keyword, string, symbol, skip_token}
use lre.Syntax.{Val, Vals, Args, Child, Childs, ccons, acons, call, valblock}
use lre.Reply.{
  Reply, ok, einval, crash, out_of_fuel, ValReply, parsed, broken, vcrash, vout_of_fuel, bind,
  with_vals, add_val, whatever_vals,
}
use lre.Parser.{
  after_val, word_val, close_valblock, after_call, after_arg, key_operator, expect_end, after_child,
}

-- The reply is no lack of fuel; a result leaves fewer than `n` tokens and an error at most `n`.
abbrev pub VWithin : ℕ → ValReply → Type 0
VWithin n (parsed vs ts) = length ts < n
VWithin n (broken vs ts) = length ts ≤ n
VWithin n vcrash = Unit
VWithin n vout_of_fuel = ⊥

-- The same with at most `m` tokens behind a result.
abbrev pub Within : {A : Type 0} → ℕ → ℕ → Reply A → Type 0
Within m n (ok a ts) = length ts ≤ m
Within m n (einval ts) = length ts ≤ n
Within m n crash = Unit
Within m n out_of_fuel = ⊥

pub length-skip_token : (ts : Tokens) → length (skip_token ts) ≤ length ts
length-skip_token [] = omega arith
length-skip_token (t ∷ ts) = omega arith

VWithin-add_val :
    (v : Val Word) (o : Sym) (k n : ℕ) (r : ValReply)
    → k ≤ n
    → VWithin k r
    → VWithin n (add_val v o r)
VWithin-add_val v o k n (parsed vs ts) h w = omega arith
VWithin-add_val v o k n (broken vs ts) h w = omega arith
VWithin-add_val v o k n vcrash h w = tt
VWithin-add_val v o k n vout_of_fuel h w = w

pub Within-bind :
    {A B : Type 0} (m n m' n' : ℕ) (r : Reply A) (k : A → Tokens → Reply B)
    → Within m n r
    → n ≤ n'
    → ((a : A) (ts : Tokens) → length ts ≤ m → Within m' n' (k a ts))
    → Within m' n' (bind r k)
Within-bind m n m' n' (ok a ts) k h l g = g a ts h
Within-bind m n m' n' (einval ts) k h l g = omega arith
Within-bind m n m' n' crash k h l g = tt
Within-bind m n m' n' out_of_fuel k h l g = h

pub Within-with_vals :
    {B : Type 0} (n m' n' : ℕ) (r : ValReply) (k : Vals Word → Tokens → Reply B)
    → VWithin n r
    → n ≤ n'
    → ((a : Vals Word) (ts : Tokens) → length ts < n → Within m' n' (k a ts))
    → Within m' n' (with_vals r k)
Within-with_vals n m' n' (parsed a ts) k h l g = g a ts h
Within-with_vals n m' n' (broken a ts) k h l g = omega arith
Within-with_vals n m' n' vcrash k h l g = tt
Within-with_vals n m' n' vout_of_fuel k h l g = h

pub VWithin-whatever_vals :
    (n n' : ℕ) (r : ValReply) (k : Vals Word → Tokens → ValReply)
    → VWithin n r
    → ((a : Vals Word) (ts : Tokens) → length ts ≤ n → VWithin n' (k a ts))
    → VWithin n' (whatever_vals r k)
VWithin-whatever_vals n n' (parsed a ts) k h g = g a ts (omega arith)
VWithin-whatever_vals n n' (broken a ts) k h g = g a ts h
VWithin-whatever_vals n n' vcrash k h g = tt
VWithin-whatever_vals n n' vout_of_fuel k h g = h

module _ (again : Tokens → ValReply) (n : ℕ)
    (ih : (us : Tokens) → length us < n → VWithin (length us) (again us)) where
  pub VWithin-after_val :
      (v : Val Word) (ts : Tokens) → length ts < n → VWithin n (after_val again v ts)
  unfolding after_val
  VWithin-after_val v [] h = h
  VWithin-after_val v (symbol s ∷ ts) h =
      ground
        (arith, VWithin-add_val v s (length ts) n (again ts) (omega arith) (ih ts (omega arith)))
  VWithin-after_val v (keyword s ∷ ts) h = h
  VWithin-after_val v (string s ∷ ts) h = h

  pub VWithin-word_val :
      (make : Word → Val Word) (ts : Tokens) → length ts ≤ n → VWithin n (word_val again make ts)
  unfolding word_val
  VWithin-word_val make [] h = h
  VWithin-word_val make (symbol s ∷ ts) h = omega arith
  VWithin-word_val make (keyword s ∷ ts) h = VWithin-after_val (make s) ts h
  VWithin-word_val make (string s ∷ ts) h = VWithin-after_val (make s) ts h

  pub VWithin-close_valblock :
      (vs : Vals Word) (ts : Tokens) → length ts < n → VWithin n (close_valblock again vs ts)
  unfolding close_valblock
  VWithin-close_valblock vs [] h = omega arith
  VWithin-close_valblock vs (t ∷ ts) h =
      ground (arith, VWithin-after_val (valblock vs) ts (omega arith))

  pub VWithin-after_call :
      (r : Reply (Word × Args Word)) (m : ℕ) → m < n → Within m n r → VWithin n (after_call again r)
  unfolding after_call
  VWithin-after_call (ok (k, as') ts) m l h = VWithin-after_val (call k as') ts (omega arith)
  VWithin-after_call (einval ts) m l h = h
  VWithin-after_call crash m l h = tt
  VWithin-after_call out_of_fuel m l h = h

pub Within-after_arg :
    (again : Tokens → Reply (Args Word)) (n : ℕ) (k : Word) (vs : Vals Word) (ts : Tokens)
    → ((us : Tokens) → length us ≤ length ts → Within (length us) (length us) (again us))
    → length ts ≤ n
    → Within n n (after_arg again k vs ts)
unfolding after_arg
Within-after_arg again n k vs [] ih h =
    Within-bind _ _ n n (again []) _ (ih [] (omega arith)) (omega arith) (λ a us l. omega arith)
Within-after_arg again n k vs (t ∷ ts) ih h = ground (
  arith,
  Within-bind _ _ n n (again ts) (λ as' rest. ok (acons k vs as') rest) (ih ts (omega arith))
      (omega arith) (λ a us l. omega arith),
  Within-bind _ _ n n (again (t ∷ ts)) (λ as' rest. ok (acons k vs as') rest)
      (ih (t ∷ ts) (omega arith)) (omega arith) (λ a us l. omega arith),
)

pub Within-after_child :
    (again : Tokens → Reply (Childs Word)) (n : ℕ) (c : Child Word) (ts : Tokens)
    → ((us : Tokens) → length us ≤ length ts → Within (length us) (length us) (again us))
    → length ts ≤ n
    → Within n n (after_child again c ts)
unfolding after_child
Within-after_child again n c [] ih h =
    Within-bind _ _ n n (again []) _ (ih [] (omega arith)) (omega arith) (λ a us l. omega arith)
Within-after_child again n c (symbol s ∷ ts) ih h =
    ground (arith, logic ts (omega arith) s, logic (symbol s ∷ ts) (omega arith) Sym.reserved)
  where
    logic :
        (us : Tokens)
        → length us ≤ suc (length ts)
        → (o : Sym) → Within n n (bind (again us) λ cs rest. ok (ccons c o cs) rest)
    logic us l o = Within-bind _ _ n n (again us) _ (ih us l) (omega arith) (λ a vs m. omega arith)
Within-after_child again n c (keyword w ∷ ts) ih h =
    Within-bind _ _ n n (again _) _ (ih _ (omega arith)) (omega arith) (λ a us l. omega arith)
Within-after_child again n c (string w ∷ ts) ih h =
    Within-bind _ _ n n (again _) _ (ih _ (omega arith)) (omega arith) (λ a us l. omega arith)

pub Within-key_operator :
    {A : Type 0} (test : SymType → Bool) (m n : ℕ) (ts : Tokens) (k : Word → Sym → Tokens → Reply A)
    → length ts ≤ n
    → ((w : Word) (s : Sym) (us : Tokens) → length us + 2 ≤ length ts → Within m n (k w s us))
    → Within m n (key_operator test ts k)
unfolding key_operator
Within-key_operator test m n [] k h g = omega arith
Within-key_operator test m n (symbol s ∷ ts) k h g = omega arith
Within-key_operator test m n (keyword w ∷ []) k h g = omega arith
Within-key_operator test m n (string w ∷ []) k h g = omega arith
Within-key_operator test m n (keyword w ∷ symbol s ∷ ts) k h g =
    ground (arith, g w s ts (omega arith))
Within-key_operator test m n (string w ∷ symbol s ∷ ts) k h g =
    ground (arith, g w s ts (omega arith))
Within-key_operator test m n (keyword w ∷ _ ∷ ts) k h g = omega arith
Within-key_operator test m n (string w ∷ _ ∷ ts) k h g = omega arith

pub Within-expect_end :
    {A : Type 0} (s : Sym) (a : A) (m : ℕ) (ts : Tokens)
    → length ts ≤ suc m
    → Within m (suc m) (expect_end s a ts)
unfolding expect_end
Within-expect_end s a m [] h = omega arith
Within-expect_end s a m (t ∷ ts) h = ground arith
