-- ===== src/Interp.antt =====
-- The interpreter's buffers and its front end: interpreter.c.
use lre.Base.{
  ℕ, ◌*◌, ◌≤◌, ◌<◌, Bool, true, Option, none, some, [], ◌++◌, ◌≡◌, ltb, leb, if◌then◌else◌, length,
  arith,
}
use Prim.Native.Nat.{min}
use lre.Token.{Word}
use lre.Syntax.{Childs}
use lre.Lexer.{LexReply, lexer_read_token, is_blank}
use lre.Lexer.Spelling.{All, Spelling, spell, tokens, IsSpelling}
use lre.Lexer.RoundTrip.{lexer_read_token-spell}
use lre.Reply.{Reply, ok, einval, out_of_fuel}
use lre.Parser.{interp_syntax_parse}
use lre.Parser.Print.{put_childs, NonEmptyChilds, IsWellChilds, EndsClosed}
use lre.Parser.RoundTrip.Whole.{interp_syntax_parse-put_childs}

-- `size` is the size that the interpreter notes, `room` what `realloc` was asked for last.
pub record Buffer : Type 0 where
  pub size : ℕ
  pub room : ℕ

abbrev pub default_codebuf_size : ℕ
default_codebuf_size = 4096

abbrev codebuf_size_max : ℕ
codebuf_size_max = 4 * default_codebuf_size

abbrev stacks_size_max : ℕ
stacks_size_max = 4 * 8192

-- The `interp_expands_*` functions; the flag says whether `realloc` has memory, `none` is
-- `-ENOMEM`. The buffer is reallocated at its old size, and its new size is noted.
unfoldable expand : ℕ → Bool → Buffer → Option Buffer
expand max works b =
    if leb max b.size
    then none
    else if works
    then some (record { size = min (b.size * 2) max; room = b.size })
    else none

unfoldable interp_expands_codebuf : Bool → Buffer → Option Buffer
unfolding expand
interp_expands_codebuf = expand codebuf_size_max

unfoldable pub interp_expands_workmem : Bool → Buffer → Option Buffer
unfolding expand
interp_expands_workmem = expand codebuf_size_max

unfoldable interp_expands_outbuf : Bool → Buffer → Option Buffer
unfolding expand
interp_expands_outbuf = expand codebuf_size_max

unfoldable interp_expands_stacks : Bool → Buffer → Option Buffer
unfolding expand
interp_expands_stacks = expand stacks_size_max

-- `overrun` is a write behind the end of the memory.
pub data Load : Type 0 where
  loaded : Buffer → Load
  no_memory overrun : Load

-- The `strncpy` of `interp_load_code`, of all bytes of the code.
abbrev write : Buffer → Word → Load
write b code = if ltb b.room (length code) then overrun else loaded b

unfoldable pub interp_load_code : Bool → Buffer → Word → Load
unfolding interp_expands_codebuf
interp_load_code works b code =
    if leb b.size (length code)
    then elim (interp_expands_codebuf works b) [ none ↦ no_memory | some b' ↦ write b' code ]
    else write b code

-- Code that is longer than an intact buffer below the largest size is copied behind its end, where
-- `realloc` has memory.
pub interp_load_code_overrun :
    (b : Buffer) (code : Word)
    → b.room ≡ b.size
    → b.size < length code
    → b.size < codebuf_size_max
    → interp_load_code true b code ≡ overrun
unfolding interp_load_code
interp_load_code_overrun b code e l h = ground arith

-- Expanding an intact buffer never makes it hold more: whatever is loaded fits the size before.
interp_load_code_fits :
    (works : Bool) (b b' : Buffer) (code : Word)
    → b.room ≡ b.size
    → interp_load_code works b code ≡ loaded b'
    → length code ≤ b.size
unfolding interp_load_code
interp_load_code_fits works b b' code e h = ground arith

-- The lexer and the parser, one behind the other, as `interpreter_execute` calls them on code that
-- begins with a keyword which is no macro.
unfoldable pub front_end : Word → Reply (Childs Word)
front_end code = elim (lexer_read_token code) [
  | LexReply.ok ts pos ↦ interp_syntax_parse ts
  | LexReply.einval ↦ einval []
  | LexReply.out_of_fuel ↦ out_of_fuel
]

-- A text that spells the tokens of a well-formed tree, not empty, whose last node is a function or
-- a block, is read back as that tree, with any blanks between the tokens.
pub front_end-spell :
    (cs : Childs Word) (b : Word) (r : Spelling)
    → NonEmptyChilds cs
    → IsWellChilds cs
    → EndsClosed cs
    → All is_blank b
    → IsSpelling r
    → tokens r ≡ put_childs cs []
    → front_end (b ++ spell r) ≡ ok cs []
unfolding front_end
front_end-spell cs b r n w e h s t =
    rw (lexer_read_token-spell b r h s, front_end) (rw t (interp_syntax_parse-put_childs cs n w e))
