-- ===== src/Engine/Rounds.antt =====
-- The rounds of `interpreter_execute` (interpreter.c): when they end, and what they run.
use lre.Base.{
  ltb, length, ℕ, zero, suc, ◌<◌, Bool, true, false, Option, none, some, ◌≡◌, ◌≢◌, refl,
  if◌then◌else◌, arith,
}
use lre.Base.Int.{ℤ}
use lre.Token.{Word, Tokens}
use lre.Syntax.{Childs}
use lre.Lexer.{LexReply, lexer_read_token}
use lre.Lexer.Fuel.{lexer_read_token_terminates}
use lre.Reply.{Reply}
use lre.Parser.{interp_syntax_parse}
use lre.Parser.Fuel.{interp_syntax_parse_terminates}
use lre.Semantic.{interp_semantic_analysis}
use lre.Machine.{State}
use lre.Execute.{interp_execute}
use lre.Calculate.{vaild_lre_results}
use lre.Interp.{Load, loaded, no_memory, overrun}
use lre.Preprocess.{Preprocessed, go_on, error, crash, repeat, interp_preprocess}
use lre.Engine.{
  Setup, Engine, Run, returned, undefined, out_of_rounds, Stage, load_code, fail, finish, analysed,
  parsed, reloaded, preprocessed, lexed, prepared, read, rounds, interpreter_execute,
}

module _ (s : Setup) where
  open s use {components, find, sub, root, table, works, stacksize}

  -- A run that ended.
  abbrev Ended : Run components → Type 0
  Ended (returned e) = Unit
  Ended undefined = Unit
  Ended out_of_rounds = ⊥

  Ended-finish : (e : Engine components) (o : Option (ℤ × State components)) → Ended (finish s e o)
  Ended-finish e none = tt
  Ended-finish e (some (ret, st)) = go (vaild_lre_results ret)
    where
      go :
          (b : Bool)
          → Ended (
              if b
              then returned (record e { world = st.world; results = ret; errcode = none })
              else fail s Stage.execute (record e { world = st.world }))
      go true = tt
      go false = tt

  Ended-parsed : (e : Engine components) (ts : Tokens) → Ended (parsed s e (interp_syntax_parse ts))
  unfolding parsed analysed
  Ended-parsed e ts = go (interp_syntax_parse ts) (interp_syntax_parse_terminates ts)
    where
      named : (o : Option (Childs components.Stub)) → Ended (analysed s e o)
      named none = tt
      named (some tree) = Ended-finish e (interp_execute components stacksize e.world tree)

      go : (r : Reply (Childs Word)) → r ≢ Reply.out_of_fuel → Ended (parsed s e r)
      go (Reply.ok tree ts') h = named (interp_semantic_analysis find sub root tree)
      go (Reply.einval ts') h = tt
      go Reply.crash h = tt
      go Reply.out_of_fuel h = h refl

  Ended-rounds :
      (rank : Word → ℕ)
      → ((code code' : Word) (ts : Tokens) (at : ℕ)
          → lexer_read_token code ≡ LexReply.ok ts at
          → interp_preprocess table ts ≡ repeat code'
          → rank code' < rank code)
      → (n : ℕ) (code : Word) (e : Engine components) → rank code < n
      → Ended (rounds s n code e)
  unfolding rounds read
  Ended-rounds rank falls zero code e h = elim h [ ]
  Ended-rounds rank falls (suc n) code e h =
      begun (prepared s e) (λ code' e' l. Ended-rounds rank falls n code' e' l)
    where
      loads :
          (code' : Word) (e' : Engine components) (l : Load)
          → ((d : Engine components) → Ended (rounds s n code' d))
          → Ended (reloaded s (rounds s n code') e' l)
      loads code' e' (loaded b) ih = ih (record e' { codebuf = b })
      loads code' e' no_memory ih = tt
      loads code' e' overrun ih = tt

      goes :
          (ts : Tokens) (at : ℕ) (e' : Engine components) (p : Preprocessed)
          → lexer_read_token code ≡ LexReply.ok ts at
          → interp_preprocess table ts ≡ p
          → ((code' : Word) (d : Engine components) → rank code' < n → Ended (rounds s n code' d))
          → Ended (preprocessed s (rounds s n) e' ts p)
      goes ts at e' error q p ih = tt
      goes ts at e' crash q p ih = tt
      goes ts at e' go_on q p ih = Ended-parsed e' ts
      goes ts at e' (repeat code') q p ih =
          loads code' e' (load_code works e' code')
            (λ d. ih code' d (omega (arith, falls code code' ts at q p)))

      lexes :
          (x : LexReply) (e' : Engine components)
          → lexer_read_token code ≡ x
          → x ≢ LexReply.out_of_fuel
          → ((code' : Word) (d : Engine components) → rank code' < n → Ended (rounds s n code' d))
          → Ended (lexed s (rounds s n) e' x)
      lexes LexReply.out_of_fuel e' q ne ih = ne refl
      lexes LexReply.einval e' q ne ih = tt
      lexes (LexReply.ok ts at) e' q ne ih = goes ts at e' (interp_preprocess table ts) q refl ih

      inside :
          (fits : Bool) (e' : Engine components)
          → ((code' : Word) (d : Engine components) → rank code' < n → Ended (rounds s n code' d))
          → Ended (elim fits as (λ _. Run components) [
            | false ↦ undefined
            | true ↦ lexed s (rounds s n) e' (lexer_read_token code)
          ])
      inside false e' ih = tt
      inside true e' ih =
          lexes (lexer_read_token code) e' refl (lexer_read_token_terminates code) ih

      begun :
          (o : Option (Engine components))
          → ((code' : Word) (e' : Engine components) → rank code' < n → Ended (rounds s n code' e'))
          → Ended (read s (rounds s n) code e o)
      begun none ih = tt
      begun (some e') ih = inside (ltb (length code) e'.codebuf.room) e' ih

  -- If each replacement of the code by a macro lowers a rank of the code, one round more than the
  -- rank of the rule is enough for its run to end.
  pub interpreter_execute_terminates :
      (rank : Word → ℕ)
      → ((code code' : Word) (ts : Tokens) (at : ℕ)
          → lexer_read_token code ≡ LexReply.ok ts at
          → interp_preprocess table ts ≡ repeat code'
          → rank code' < rank code)
      → (n : ℕ) (code : Word) (e : Engine components) → rank code < n
      → interpreter_execute s n e code ≢ out_of_rounds
  unfolding interpreter_execute
  interpreter_execute_terminates rank falls n code e h q =
      loads (load_code works e code) (λ e'. Ended-rounds rank falls n code e' h) q
    where
      not_out : (r : Run components) → Ended r → r ≢ out_of_rounds
      not_out (returned e') k x = cc
      not_out undefined k x = cc
      not_out out_of_rounds k x = k

      loads :
          (l : Load)
          → ((e' : Engine components) → Ended (rounds s n code e'))
          → (elim l as (λ _. Run components) [
            | loaded b ↦ rounds s n code (record e { codebuf = b })
            | no_memory ↦ undefined
            | overrun ↦ undefined
          ])
            ≢ out_of_rounds
      loads (loaded b) k x =
          not_out (rounds s n code (record e { codebuf = b })) (k (record e { codebuf = b })) x
      loads no_memory k x = cc
      loads overrun k x = cc
