-- ===== src/Tests/Rounds.antt =====
-- A macro whose call ends after two rounds of interpreter_execute (interpreter.c).
use lre.Base.{
  none, some, suc, sym, Option, Bool, length, ◌&&◌, ◌==◌, ◌∙◌, ap, ℕ, ◌<◌, ◌≡◌, ◌≢◌, true, false,
  some, Option, List, [], ◌∷◌, refl, if◌then◌else◌, arith,
}
use lre.Token.{Word, Tokens, string, keyword, symbol}
use lre.Lexer.{
  LexReply, lexer_read_token, lexer_loop, next_token, token_at, skip_blank, span_word, scan_string,
  scan_symbol,
}
use lre.Keyword.{same_word}
use lre.Macro.{word as macro_word, Macro, is_lre_macro, lre_find_macro, find_in}
use lre.Macro.Table.{added, lre_find_macro-added}
use lre.Macro.Content.{lre_create_code_by_macro, code_loop, code_append}
use lre.Macro.Args.{prase_macro_call_arg}
use lre.Preprocess.{
  Preprocessed, error, go_on, call_macro, preprocess_content, interp_preprocess, repeat,
}
use lre.Engine.{out_of_rounds, interpreter_execute}
use lre.Engine.Rounds.{interpreter_execute_terminates}
use lre.Tests.Sample.{codes}
use lre.Tests.Whole.{setup, engine}

-- define go() "f{e==1}"
abbrev go_macro : Macro
go_macro = record { keyword = codes "go"; args = []; tokens = macro_word (codes "f{e==1}") ∷ [] }

-- A rule that begins with the macro has the rank 1, and any other the rank 0.
abbrev rank_of : LexReply → ℕ
rank_of (LexReply.ok (keyword k ∷ ts) at) = if same_word (codes "go") k then 1 else 0
rank_of _ = 0

abbrev rank : Word → ℕ
rank code = rank_of (lexer_read_token code)

found_code :
    (k : Word) (vals : List Word) (code' : Word)
    → call_macro vals (find_in k (length vals) (go_macro ∷ [])) ≡ repeat code'
    → (same_word (codes "go") k ≡ true) × (code' ≡ codes "f{e==1}")
unfolding find_in lre_create_code_by_macro code_loop code_append
found_code k [] code' h = go (same_word (codes "go") k) refl h
  where
    go :
        (b : Bool)
        → same_word (codes "go") k ≡ b
        → call_macro [] (if b && (0 == 0) then some go_macro else none) ≡ repeat code'
        → (same_word (codes "go") k ≡ true) × (code' ≡ codes "f{e==1}")
    go true e h = (e, cc)
    go false e h = cc
found_code k (v ∷ vs) code' h = go (same_word (codes "go") k) h
  where
    go :
        (b : Bool)
        → call_macro (v ∷ vs) (if b && (0 == suc (length vs)) then some go_macro else none)
          ≡ repeat code'
        → (same_word (codes "go") k ≡ true) × (code' ≡ codes "f{e==1}")
    go true h =
        let differs : (0 == suc (length vs)) ≡ false = ground arith in
        let refused : call_macro (v ∷ vs) none ≡ repeat code' = rw differs at h in cc
    go false h = cc

expanded_rank : rank (codes "f{e==1}") ≡ 0
unfolding lexer_read_token lexer_loop next_token token_at skip_blank span_word scan_string
    scan_symbol same_word
expanded_rank = refl

preprocess_falls :
    (k : Word) (ts : Tokens) (code' : Word)
    → interp_preprocess (added (go_macro ∷ [])) (keyword k ∷ ts) ≡ repeat code'
    → (same_word (codes "go") k ≡ true) × (code' ≡ codes "f{e==1}")
unfolding interp_preprocess preprocess_content
preprocess_falls k ts code' h = known (is_lre_macro (added (go_macro ∷ [])) k) h
  where
    called :
        (o : Option (List Word × Tokens))
        → (elim o as (λ _. Preprocessed) [
          | none ↦ error
          | some (vals, rest) ↦
              call_macro vals (lre_find_macro (added (go_macro ∷ [])) k (length vals))
        ])
          ≡ repeat code'
        → (same_word (codes "go") k ≡ true) × (code' ≡ codes "f{e==1}")
    called none q = cc
    called (some (vals, rest)) q =
        found_code k vals code' (
          sym (ap (call_macro vals) ((lre_find_macro-added (go_macro ∷ []) k (length vals)).0)) ∙ q)

    known :
        (b : Bool)
        → (if b then preprocess_content (added (go_macro ∷ [])) k ts else go_on) ≡ repeat code'
        → (same_word (codes "go") k ≡ true) × (code' ≡ codes "f{e==1}")
    known true q = called (prase_macro_call_arg ts) q
    known false q = cc

rank_falls :
    (code code' : Word) (ts : Tokens) (at : ℕ)
    → lexer_read_token code ≡ LexReply.ok ts at
    → interp_preprocess (added (go_macro ∷ [])) ts ≡ repeat code'
    → rank code' < rank code
unfolding interp_preprocess
rank_falls code code' (keyword w ∷ ts) at h p =
    let (e, c) = preprocess_falls w ts code' p in
    rw h (rw e (rw c (rw expanded_rank (omega arith))))
rank_falls code code' [] at h p = cc
rank_falls code code' (_ ∷ ts) at h p = cc

rank_fits : (w : Word) → rank w < 2
rank_fits w = go (lexer_read_token w)
  where
    go : (r : LexReply) → rank_of r < 2
    go (LexReply.ok (keyword k ∷ ts) at) = ground arith
    go (LexReply.ok (string k ∷ ts) at) = omega arith
    go (LexReply.ok (symbol k ∷ ts) at) = omega arith
    go (LexReply.ok [] at) = omega arith
    go LexReply.einval = omega arith
    go LexReply.out_of_fuel = omega arith

interpreter_execute_terminates_example :
    interpreter_execute (setup (go_macro ∷ [])) 2 engine (codes "go()") ≢ out_of_rounds
interpreter_execute_terminates_example =
    interpreter_execute_terminates (setup (go_macro ∷ [])) rank rank_falls 2 (codes "go()") engine
      (rank_fits (codes "go()"))
