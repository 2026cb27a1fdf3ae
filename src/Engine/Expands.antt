-- ===== src/Engine/Expands.antt =====
-- A call of a macro runs as the code that it stands for.
use lre.Base.{
  ltb, false, true, ℕ, zero, suc, ◌-◌, ◌≤◌, ◌<◌, Bool, true, some, List, [], ◌∷◌, ◌++◌, ◌≡◌, refl,
  ap, sym, ◌∙◌, leb, length, take, arith,
}
use lre.Token.{Word, Tokens, keyword}
use lre.Lexer.{LexReply, lexer_read_token, is_blank}
use lre.Lexer.Spelling.{All, Spelling, spell, tokens, IsSpelling, rooms}
use lre.Lexer.RoundTrip.{lexer_read_token-spell}
use lre.Machine.{Components}
use lre.Interp.{loaded, interp_load_code}
use lre.Macro.{Macro, argc, lre_macro_argc_max, find_in, is_in}
use lre.Macro.Table.{added, lre_find_macro-added}
use lre.Macro.Content.{code_size, lre_macro_content2token}
use lre.Macro.Content.Reference.{substitute, is_clean}
use lre.Macro.Content.Expansion.{lre_create_code_by_macro-substitute}
use lre.Macro.Args.{put_call_args}
use lre.Preprocess.{repeat, interp_preprocess, interp_preprocess-put_call_args}
use lre.Engine.{
  Setup, Engine, load_code, reloaded, read, prepared, lexed, Run, IsReady, rounds,
  interpreter_execute,
}

-- Code that is shorter than the buffer of a ready interpreter leaves it as it is.
load_code-fits :
    {c : Components} (works : Bool) (e : Engine c) (code : Word)
    → IsReady e
    → length code < e.codebuf.size
    → load_code works e code ≡ loaded e.codebuf
unfolding load_code interp_load_code
load_code-fits works e code h l = ground (arith, h.codebuf_room, h.workmem_room)

length-take : (n : ℕ) (w : Word) → length (take n w) ≤ n
length-take zero w = omega arith
length-take (suc n) [] = omega arith
length-take (suc n) (c ∷ w) = omega (arith, length-take n w)

find_in-is_in :
    (k : Word) (n : ℕ) (ms : List Macro) (m : Macro) → find_in k n ms ≡ some m → is_in k ms ≡ true
unfolding find_in is_in
find_in-is_in k n [] m h = cc
find_in-is_in k n (x ∷ ms) m h = ground (arith, find_in-is_in k n ms m)

find_in-argc :
    (k : Word) (n : ℕ) (ms : List Macro) (m : Macro) → find_in k n ms ≡ some m → argc m ≡ n
unfolding find_in
find_in-argc k n [] m h = cc
find_in-argc k n (x ∷ ms) m h = ground (arith, find_in-argc k n ms m)

-- The code that a call of the macro becomes.
abbrev pub expansion : Macro → Word → List Word → Word
expansion m content vals = take (code_size - 1) (substitute m.args vals 0 content)

interp_preprocess-added :
    (ms : List Macro) (k : Word) (m : Macro) (content : Word) (vals : List Word) (ts : Tokens)
    → find_in k (length vals) ms ≡ some m
    → is_clean m.args 0 content ≡ true
    → lre_macro_content2token m.args content ≡ some m.tokens
    → length vals ≤ lre_macro_argc_max
    → interp_preprocess (added ms) (keyword k ∷ put_call_args vals ts)
      ≡ repeat (expansion m content vals)
interp_preprocess-added ms k m content vals ts f h e l =
    let (found, known) = lre_find_macro-added ms k (length vals) in
    let few : leb (length vals) lre_macro_argc_max ≡ true = ground arith in
    interp_preprocess-put_call_args (added ms) k vals ts
      (known ∙ find_in-is_in k (length vals) ms m f)
    ∙ rw (found, f)
        (rw
          (
            lre_create_code_by_macro-substitute m content vals h e
                (sym (find_in-argc k (length vals) ms m f)),
            few,
          )
          refl)

module _ (s : Setup) where
  open s use {components, works, table}

  prepared_ready : (e : Engine components) → IsReady e → prepared s e ≡ some e
  unfolding prepared
  prepared_ready e h =
      let kept : ltb e.workmem.size e.codebuf.size ≡ false = ground (arith, h.enough) in
      rw (kept, prepared) refl

  read_inside :
      (again : Word → Engine components → Run components) (code : Word) (e : Engine components)
      → IsReady e
      → length code < e.codebuf.size
      → read s again code e (some e) ≡ lexed s again e (lexer_read_token code)
  unfolding read
  read_inside again code e h l =
      let ends : ltb (length code) e.codebuf.room ≡ true = ground (arith, h.codebuf_room) in
      rw (ends, read) refl

  -- A ready interpreter reads the code as it is.
  pub rounds-lexed :
      (n : ℕ) (code : Word) (e : Engine components)
      → IsReady e
      → length code < e.codebuf.size
      → rounds s (suc n) code e ≡ lexed s (rounds s n) e (lexer_read_token code)
  unfolding rounds
  rounds-lexed n code e h l =
      ap (read s (rounds s n) code e) (prepared_ready e h) ∙ read_inside (rounds s n) code e h l

  rounds-repeat :
      (n : ℕ) (code code' : Word) (ts : Tokens) (pos : ℕ) (e : Engine components)
      → IsReady e
      → length code < e.codebuf.size
      → lexer_read_token code ≡ LexReply.ok ts pos
      → interp_preprocess table ts ≡ repeat code'
      → rounds s (suc n) code e ≡ reloaded s (rounds s n code') e (load_code works e code')
  rounds-repeat n code code' ts pos e i l h p = rounds-lexed n code e i l ∙ rw h (rw p refl)

  pub interpreter_execute-rounds :
      (n : ℕ) (e : Engine components) (code : Word)
      → IsReady e
      → length code < e.codebuf.size
      → interpreter_execute s n e code ≡ rounds s n code e
  unfolding interpreter_execute
  interpreter_execute-rounds n e code h l =
      rw (load_code-fits works e code h l, interpreter_execute) refl

  -- Executing a text that begins with a call of a macro is executing the macro's content with the
  -- values in place of the arguments, with one round less, whatever stands behind the call. The macro
  -- is the newest of its keyword with as many arguments, its content is clean, the interpreter is
  -- ready, its code buffer has at least 4096 bytes, and the text fits it.
  pub interpreter_execute-expansion :
      (ms : List Macro) (k : Word) (m : Macro) (content : Word) (vals : List Word) (ts : Tokens)
      (n : ℕ) (e : Engine components) (b : Word) (r : Spelling)
      → table ≡ added ms
      → find_in k (length vals) ms ≡ some m
      → is_clean m.args 0 content ≡ true
      → lre_macro_content2token m.args content ≡ some m.tokens
      → length vals ≤ lre_macro_argc_max
      → All is_blank b
      → IsSpelling r
      → tokens r ≡ keyword k ∷ put_call_args vals ts
      → IsReady e
      → code_size ≤ e.codebuf.size
      → length (b ++ spell r) < e.codebuf.size
      → interpreter_execute s (suc n) e (b ++ spell r)
        ≡ interpreter_execute s n e (expansion m content vals)
  interpreter_execute-expansion ms k m content vals ts n e b r u f cl g l hb hr t i z fits =
      let short : length (expansion m content vals) < e.codebuf.size =
        omega (arith, length-take (code_size - 1) (substitute m.args vals 0 content)) in
      interpreter_execute-rounds (suc n) e (b ++ spell r) i fits
      ∙ (rounds-repeat n (b ++ spell r) (expansion m content vals)
            (keyword k ∷ put_call_args vals ts) (rooms (tokens r)) e i fits
            (lexer_read_token-spell b r hb hr ∙ ap (λ x. LexReply.ok x (rooms (tokens r))) t)
            (rw u (interp_preprocess-added ms k m content vals ts f cl g l))
          ∙ (rw (load_code-fits works e (expansion m content vals) i short) refl
              ∙ sym (interpreter_execute-rounds n e (expansion m content vals) i short)))
