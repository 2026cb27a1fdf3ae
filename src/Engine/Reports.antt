-- ===== src/Engine/Reports.antt =====
-- What `lre_execute` (lre.c) reports of a run of `interpreter_execute` (interpreter.c).
use lre.Base.{
  ℕ, zero, suc, Bool, true, false, Option, none, some, ◌≡◌, refl, ltb, length, subst, if◌then◌else◌,
}
use lre.Base.Int.{ℤ}
use lre.Token.{Word, Tokens}
use lre.Syntax.{Childs}
use lre.Lexer.{LexReply, lexer_read_token}
use lre.Reply.{Reply}
use lre.Parser.{interp_syntax_parse}
use lre.Semantic.{interp_semantic_analysis}
use lre.Machine.{State}
use lre.Execute.{interp_execute}
use lre.Calculate.{ret_dead_val, vaild_lre_results}
use lre.Interp.{Load, loaded, no_memory, overrun}
use lre.Preprocess.{Preprocessed, go_on, error, crash, repeat, interp_preprocess}
use lre.Engine.{
  Setup, Engine, Run, returned, undefined, out_of_rounds, Stage, load_code, fail, finish, analysed,
  parsed, reloaded, preprocessed, lexed, prepared, read, rounds, interpreter_execute, LreResult,
  lre_execute,
}

-- A result without an error is valid, and a result with one is unknown.
abbrev pub IsReport : ℤ → Option Stage → Type 0
IsReport z none = vaild_lre_results z ≡ true
IsReport z (some stage) = z ≡ ret_dead_val

module _ (s : Setup) where
  open s use {components, find, sub, root, table, works, stacksize}

  abbrev Reported : Run components → Type 0
  Reported (returned e) = IsReport e.results e.errcode
  Reported undefined = Unit
  Reported out_of_rounds = Unit

  Reported-finish :
      (e : Engine components) (o : Option (ℤ × State components)) → Reported (finish s e o)
  Reported-finish e none = tt
  Reported-finish e (some (ret, st)) = go (vaild_lre_results ret) refl
    where
      go :
          (b : Bool)
          → vaild_lre_results ret ≡ b
          → Reported (
              if b
              then returned (record e { world = st.world; results = ret; errcode = none })
              else fail s Stage.execute (record e { world = st.world }))
      go true h = h
      go false h = refl

  Reported-analysed :
      (e : Engine components) (o : Option (Childs components.Stub)) → Reported (analysed s e o)
  unfolding analysed
  Reported-analysed e none = refl
  Reported-analysed e (some tree) =
      Reported-finish e (interp_execute components stacksize e.world tree)

  Reported-parsed : (e : Engine components) (r : Reply (Childs Word)) → Reported (parsed s e r)
  unfolding parsed
  Reported-parsed e (Reply.ok tree ts) =
      Reported-analysed e (interp_semantic_analysis find sub root tree)
  Reported-parsed e (Reply.einval ts) = refl
  Reported-parsed e Reply.crash = tt
  Reported-parsed e Reply.out_of_fuel = tt

  -- The steps of a round, where the next round reports as it should.
  module _ (again : Word → Engine components → Run components)
      (again-Reported : (code : Word) (e : Engine components) → Reported (again code e)) where
    Reported-reloaded :
        (code : Word) (e : Engine components) (l : Load) → Reported (reloaded s (again code) e l)
    Reported-reloaded code e (loaded b) = again-Reported code (record e { codebuf = b })
    Reported-reloaded code e no_memory = refl
    Reported-reloaded code e overrun = tt

    Reported-preprocessed :
        (e : Engine components) (ts : Tokens) (p : Preprocessed)
        → Reported (preprocessed s again e ts p)
    Reported-preprocessed e ts go_on = Reported-parsed e (interp_syntax_parse ts)
    Reported-preprocessed e ts error = refl
    Reported-preprocessed e ts crash = tt
    Reported-preprocessed e ts (repeat code) = Reported-reloaded code e (load_code works e code)

    Reported-lexed : (e : Engine components) (r : LexReply) → Reported (lexed s again e r)
    Reported-lexed e (LexReply.ok ts at) = Reported-preprocessed e ts (interp_preprocess table ts)
    Reported-lexed e LexReply.einval = refl
    Reported-lexed e LexReply.out_of_fuel = tt

    Reported-read :
        (code : Word) (e : Engine components) (o : Option (Engine components))
        → Reported (read s again code e o)
    unfolding read
    Reported-read code e none = refl
    Reported-read code e (some e') = go (ltb (length code) e'.codebuf.room)
      where
        go :
            (b : Bool)
            → Reported (elim b as (λ _. Run components) [
              | false ↦ undefined
              | true ↦ lexed s again e' (lexer_read_token code)
            ])
        go false = tt
        go true = Reported-lexed e' (lexer_read_token code)

  Reported-rounds : (n : ℕ) (code : Word) (e : Engine components) → Reported (rounds s n code e)
  unfolding rounds
  Reported-rounds zero code e = tt
  Reported-rounds (suc n) code e =
      Reported-read (rounds s n) (λ code' e'. Reported-rounds n code' e') code e (prepared s e)

  Reported-execute :
      (n : ℕ) (e : Engine components) (code : Word) → Reported (interpreter_execute s n e code)
  unfolding interpreter_execute
  Reported-execute n e code = go (load_code works e code)
    where
      go :
          (l : Load)
          → Reported (elim l as (λ _. Run components) [
            | loaded b ↦ rounds s n code (record e { codebuf = b })
            | no_memory ↦ undefined
            | overrun ↦ undefined
          ])
      go (loaded b) = Reported-rounds n code (record e { codebuf = b })
      go no_memory = tt
      go overrun = tt

  -- Whatever `lre_execute` reports, a result without an error code is a truth value, and with one it
  -- is the unknown result.
  pub lre_execute-IsReport :
      (n : ℕ) (e : Engine components) (code : Word) (res : LreResult)
      → lre_execute (interpreter_execute s n e code) ≡ some res
      → IsReport res.result res.errcode
  unfolding lre_execute
  lre_execute-IsReport n e code res =
      go (interpreter_execute s n e code) (Reported-execute n e code)
    where
      go :
          (r : Run components)
          → Reported r
          → lre_execute r ≡ some res
          → IsReport res.result res.errcode
      go (returned e') h q =
          let same : ◌≡◌ {A = LreResult} (record { result = e'.results; errcode = e'.errcode })
              res =
            cc in
          subst (λ x. IsReport x.result x.errcode) same h
      go undefined h q = cc
      go out_of_rounds h q = cc
