-- ===== src/Engine.antt =====
-- The run of a rule: `interpreter_execute` (interpreter.c) with the loading of code, and what
-- `lre_execute` (lre.c) reports of it.
pub mod Expands
pub mod Rounds
pub mod Whole
pub mod Reports
use lre.Base.{
  ◌≡◌, ◌≤◌, ◌||◌, true, false, length, ℕ, zero, suc, Bool, Option, none, some, List, [], ◌∷◌, ltb,
  if◌then◌else◌,
}
use lre.Base.Int.{ℤ, pos}
use lre.Token.{Word, Tokens}
use lre.Syntax.{Childs}
use lre.Lexer.{LexReply, lexer_read_token}
use lre.Reply.{Reply}
use lre.Parser.{interp_syntax_parse}
use lre.Semantic.{interp_semantic_analysis}
use lre.Calculate.{ret_dead_val, vaild_lre_results}
use lre.Machine.{Components, State}
use lre.Execute.{interp_execute}
use lre.Interp.{
  Buffer, Load, loaded, no_memory, overrun, interp_load_code, interp_expands_workmem,
  default_codebuf_size,
}
use lre.Macro.{MacroTable}
use lre.Preprocess.{Preprocessed, go_on, error, crash, repeat, interp_preprocess}

-- The stages at which a run fails, in place of the error codes.
pub data Stage : Type 0 where
  lexer preprocess syntax semantic execute : Stage

-- `struct interp` with the world of the components. `errcode` is `none` for LRE_RET_OK.
pub record Engine (c : Components) : Type 0 where
  pub codebuf : Buffer
  pub workmem : Buffer
  pub world : c.World
  pub results : ℤ
  pub errcode : Option Stage

-- Undefined behaviour: the program may do anything.
pub data Run (c : Components) : Type 0 where
  returned : Engine c → Run c
  undefined out_of_rounds : Run c

-- The clearing of the buffers in `interp_context_init`, at the sizes that the interpreter notes,
-- then `interp_load_code`.
unfoldable pub load_code : {c : Components} → Bool → Engine c → Word → Load
load_code works e code =
    if ltb e.codebuf.room e.codebuf.size || ltb e.workmem.room e.workmem.size
    then overrun
    else interp_load_code works e.codebuf code

-- `interpreter_create`, in a world of the components.
abbrev pub interpreter_create : (c : Components) → c.World → Engine c
interpreter_create c w = record {
  codebuf = record { size = default_codebuf_size; room = default_codebuf_size };
  workmem = record { size = default_codebuf_size; room = default_codebuf_size };
  world = w;
  results = pos 0;
  errcode = none;
}

-- No buffer was grown, and the word buffer is not smaller than the code buffer.
pub record IsReady {c : Components} (e : Engine c) : Type 0 where
  pub codebuf_room : e.codebuf.room ≡ e.codebuf.size
  pub workmem_room : e.workmem.room ≡ e.workmem.size
  pub enough : e.codebuf.size ≤ e.workmem.size

-- What a run takes as given: the components, the keyword table as in Semantic, the macros, whether
-- `realloc` has memory, and the size of the stack.
pub record Setup : Type 1 where
  pub components : Components
  pub Scope : Type 0
  pub find : Scope → Word → Option components.Stub
  pub sub : components.Stub → Scope
  pub root : Scope
  pub table : MacroTable
  pub works : Bool
  pub stacksize : ℕ

module _ (s : Setup) where
  open s use {components, find, sub, root, table, works, stacksize}

  -- The label `err` of `interpreter_execute`.
  abbrev pub fail : Stage → Engine components → Run components
  fail stage e = returned (record e { results = ret_dead_val; errcode = some stage })

  abbrev pub finish : Engine components → Option (ℤ × State components) → Run components
  finish e none = undefined
  finish e (some (ret, st)) =
      if vaild_lre_results ret
      then returned (record e { world = st.world; results = ret; errcode = none })
      else fail execute (record e { world = st.world })

  unfoldable pub analysed : Engine components → Option (Childs components.Stub) → Run components
  analysed e none = fail semantic e
  analysed e (some tree) = finish e (interp_execute components stacksize e.world tree)

  -- From the parser on.
  unfoldable pub parsed : Engine components → Reply (Childs Word) → Run components
  parsed e (Reply.ok tree ts) = analysed e (interp_semantic_analysis find sub root tree)
  parsed e (Reply.einval ts) = fail syntax e
  parsed e Reply.crash = undefined
  parsed e Reply.out_of_fuel = out_of_rounds

  -- `interp_context_reload_code`; `again` is the next round.
  abbrev pub reloaded :
      (Engine components → Run components) → Engine components → Load → Run components
  reloaded again e (loaded b) = again (record e { codebuf = b })
  reloaded again e no_memory = fail preprocess e
  reloaded again e overrun = undefined

  -- Behind the preprocessor.
  abbrev pub preprocessed :
      (Word → Engine components → Run components)
      → Engine components
      → Tokens
      → Preprocessed
      → Run components
  preprocessed again e ts go_on = parsed e (interp_syntax_parse ts)
  preprocessed again e ts error = fail preprocess e
  preprocessed again e ts crash = undefined
  preprocessed again e ts (repeat code) = reloaded (again code) e (load_code works e code)

  -- Behind the lexer.
  abbrev pub lexed :
      (Word → Engine components → Run components) → Engine components → LexReply → Run components
  lexed again e (LexReply.ok ts at) = preprocessed again e ts (interp_preprocess table ts)
  lexed again e LexReply.einval = fail lexer e
  lexed again e LexReply.out_of_fuel = out_of_rounds

  -- What `interp_lexer_analysis` does before it reads: a word buffer that is smaller than the code
  -- buffer is grown. `none` is -ENOMEM.
  unfoldable pub prepared : Engine components → Option (Engine components)
  prepared e = elim (ltb e.workmem.size e.codebuf.size) [
    | false ↦ some e
    | true ↦ elim (interp_expands_workmem works e.workmem) [
      | none ↦ none
      | some b ↦ some (record e { workmem = b })
    ]
  ]

  -- The lexer reads behind the buffer where no zero ends the code.
  unfoldable pub read :
      (Word → Engine components → Run components)
      → Word
      → Engine components
      → Option (Engine components)
      → Run components
  read again code e none = fail lexer e
  read again code e (some e') = elim (ltb (length code) e'.codebuf.room) [
    | false ↦ undefined
    | true ↦ lexed again e' (lexer_read_token code)
  ]

  -- The rounds from the label `repeat`, on fuel.
  unfoldable pub rounds : ℕ → Word → Engine components → Run components
  rounds zero code e = out_of_rounds
  rounds (suc n) code e = read (rounds n) code e (prepared e)

  -- Where the code cannot be loaded, `interp_context_create` frees memory that `malloc` did not
  -- give, and its caller uses a null pointer.
  unfoldable pub interpreter_execute : ℕ → Engine components → Word → Run components
  interpreter_execute n e code = elim (load_code works e code) [
    | loaded b ↦ rounds n code (record e { codebuf = b })
    | no_memory ↦ undefined
    | overrun ↦ undefined
  ]

-- `struct lre_result`: what `lre_execute` reports.
pub record LreResult : Type 0 where
  pub result : ℤ
  pub errcode : Option Stage

unfoldable pub lre_execute : {c : Components} → Run c → Option LreResult
lre_execute (returned e) = some (record { result = e.results; errcode = e.errcode })
lre_execute _ = none
