-- ===== src/Reply.antt =====
-- The results of the parsers of syntax.c, and how their callers in the parser take them.
use lre.Symbols.{Sym}
use lre.Token.{Word, Tokens}
use lre.Syntax.{Val, Vals, vcons}

-- `einval` is the return of `-EINVAL` with the tokens not yet read; `crash` is a read through a
-- null pointer.
pub data Reply (A : Type 0) : Type 0 where
  ok : A → Tokens → Reply A
  einval : Tokens → Reply A
  crash out_of_fuel : Reply A

-- `syntax_parse_val` adds nodes to its caller's list also when it fails.
pub data ValReply : Type 0 where
  parsed : Vals Word → Tokens → ValReply
  broken : Vals Word → Tokens → ValReply
  vcrash vout_of_fuel : ValReply

abbrev pub bind : {A B : Type 0} → Reply A → (A → Tokens → Reply B) → Reply B
bind (ok a ts) k = k a ts
bind (einval ts) k = einval ts
bind crash k = crash
bind out_of_fuel k = out_of_fuel

-- A caller that returns the error of `syntax_parse_val`.
abbrev pub with_vals : {B : Type 0} → ValReply → (Vals Word → Tokens → Reply B) → Reply B
with_vals (parsed vs ts) k = k vs ts
with_vals (broken vs ts) k = einval ts
with_vals vcrash k = crash
with_vals vout_of_fuel k = out_of_fuel

-- A caller that ignores the error of `syntax_parse_val` and keeps the nodes.
abbrev pub whatever_vals : ValReply → (Vals Word → Tokens → ValReply) → ValReply
whatever_vals (parsed vs ts) k = k vs ts
whatever_vals (broken vs ts) k = k vs ts
whatever_vals vcrash k = vcrash
whatever_vals vout_of_fuel k = vout_of_fuel

-- `syntax_add` of a node in front of what the tail call adds.
abbrev pub add_val : Val Word → Sym → ValReply → ValReply
add_val v opt (parsed vs ts) = parsed (vcons v opt vs) ts
add_val v opt (broken vs ts) = broken (vcons v opt vs) ts
add_val v opt vcrash = vcrash
add_val v opt vout_of_fuel = vout_of_fuel
