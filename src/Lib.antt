-- ===== src/Lib.antt =====
-- A logic rule engine: it reads a rule such as `file(path="a"){size > 1 && !(owner == "r")}`,
-- resolves its names to registered components and evaluates it to a truth value.
--
-- The parts, in the order in which a rule passes through them (`interpreter_execute`,
-- interpreter.c), and the files here that model them:
--   * Engine: interpreter.c and lre.c. `interpreter_execute` and `lre_execute`, which compose the
--     parts below: a rule is loaded, read into tokens and, where it begins with a macro, replaced
--     and read again; then it is parsed, resolved and executed. Engine/Expands, Engine/Rounds,
--     Engine/Whole and Engine/Reports are about macro calls, the end of the repetition, whole
--     runs, and what is reported of a run.
--   * Interp: interpreter.c. The buffers and `interp_load_code`, which copies the rule into the
--     code buffer; `front_end` composes the lexer and the parser.
--   * Lexer: lexer.c. `lexer_read_token` turns the bytes into tokens. A rule is a list of bytes
--     without the zero that ends it; the position in the word buffer is a number.
--   * Symbols, Token, Syntax: interpreter.h and the table of interpreter.c. Symbols with their
--     classes and printed forms, tokens with the peek, read and skip functions, and the syntax
--     tree. The token array with `tokenidx` is the list of the tokens that are left.
--   * Macro, Preprocess: macro.c, utils.h and preprocess.c. The macro table with its hash function;
--     the content of a macro as tokens (Macro/Content), the argument lists of definitions and
--     calls (Macro/Args), and the code that replaces a call. Macro/Lines and Macro/Load read the
--     macro files, as `lre_macro_init` does; the file system is a parameter.
--   * Peek, Reply, Parser: syntax.c. One function per `syntax_parse_*` function, from a list of
--     tokens to a node and the tokens left. `einval` is the return of -EINVAL, `crash` a read
--     through a null pointer. Parser/Print prints a tree as tokens, and states which trees are
--     well formed.
--   * Semantic: semantic.c. Names become keyword stubs, or the analysis fails. The stubs of the
--     keyword table are a parameter: a lookup in a scope, the scope of a stub, and the root
--     scope. Semantic/Table puts the keyword table there.
--   * Keyword, Vector: keyword.c and vector.c. The keyword table that the lookup runs on. Stubs
--     lie in a heap and vectors hold their places in it.
--   * Register: lre.c. Components are registered in the keyword table and taken out of it.
--     Register/Scope views each vector of the table as the list of its stubs, and Register/Packed,
--     Register/Adds and Register/Laws say what an installation does to these lists.
--   * Value, Utils, Calculate, Machine, Execute: execute.c, calculate.c, utils.c, lre.h and
--     lre_internal.h. The evaluation of a resolved tree. The callbacks of the components are the
--     record `Components`, whose world they change; the executor's state is that world with the
--     stack of handles. `none` is undefined behaviour (signed overflow, division by zero, a
--     handle read from an empty stack or written behind it, the wrong member of a union), after
--     which nothing is claimed. Execute/Groups and Execute/Stack are about the operators and about
--     the stack.
--   * Mempool: mempool.c. The pool of blocks, whose list runs through the blocks themselves; the
--     nodes of the syntax tree are such blocks.
--   * Lrc: lrc/, the components themselves. Lrc/Fuzzypath, with the search through the directories
--     (Search, Call), and Lrc/Splicepath are the calls about paths; Lrc/File, Lrc/Process and
--     Lrc/Network the functions about files, processes and sockets, Process/Cmdline and
--     Process/Dirs two more calls. An object is a record and each handler a function that gives
--     what it returns and the details that it puts out (Lrc/Values). What the system says (stat,
--     readdir, getpwuid, the files of /proc, sscanf) is a parameter. Lrc/Strings has the string
--     functions that they call. Lrc/Builtin puts file, splicepath and fuzzypath behind the
--     executor as its components, by their tables of stubs, with the objects by their handles;
--     Builtin/Runs runs a rule on them.
--
-- Fuel: the C functions of the parser recurse without a bound. Here `interp_syntax_parse` gives
-- `enough ts`, four units for each token and four more: a parser that calls itself has taken a
-- token or stands in one of at most four nested calls that have not. The lexer's loop has one
-- round for each byte and one more, since every token has a byte. `vector_ensure` doubles a vector
-- that has a slot, so one call for each slot up to the one that is wanted, and one more, suffices.
-- The loop of `mempool_release` has one round for each block that the pool counts, and one more.
-- `interpreter_execute` takes the number of its rounds, each of which reads the code once; without
-- a bound in the source, no number is enough for a macro that calls itself. A macro file is read
-- with one round more than it has bytes, since each line takes one; the fuel of
-- `lre_macro_conf_load` counts the files that include one another, which nothing bounds. A list of
-- sockets is read line by line, with one round more than the file has bytes. The digits of a
-- permission have eleven rounds: an `int` has no more than ten digits in base ten, and ten powers
-- of ten leave its range.
--
-- Numbers: lengths and sizes are natural numbers. An `int` is an integer, and an operation whose
-- result is not an `int` gives `none`. Doubles are a parameter with their operations. A `char` is
-- signed in the hash of a keyword. A pointer has eight bytes, a right shift of a negative number
-- keeps its sign.
--
-- Not modelled: the capacity of the token array and of the word buffer, which the lexer does not
-- enforce; the write in front of the buffer behind an empty line in a macro file, which is
-- `fault` also where a continued line writes into the buffer of the line before it; the release
-- of trees, stubs, macros and vectors, since no allocation fails here but that of `realloc` in
-- the buffers; logs and dumps and the configuration (conf.c), which are input and output; the
-- registration of the components of lrc/ (builtin_lrc.c); list.h, a copy of the Linux kernel's
-- lists.
pub mod Base
pub mod Symbols
pub mod Token
pub mod Syntax
pub mod Reply
pub mod Peek
pub mod Parser
pub mod Lexer
pub mod Vector
pub mod Keyword
pub mod Semantic
pub mod Utils
pub mod Calculate
pub mod Value
pub mod Machine
pub mod Execute
pub mod Interp
pub mod Mempool
pub mod Macro
pub mod Preprocess
pub mod Engine
pub mod Register
pub mod Lrc
mod Tests
