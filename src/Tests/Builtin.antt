-- ===== src/Tests/Builtin.antt =====
-- The functions and calls about files, processes and sockets at small inputs.
use lre.Base.{inl, inr, ◌==◌, if◌then◌else◌, true, false, some, none, [], ◌∷◌, ◌≡◌, refl, arith, ℕ}
use lre.Base.Int.{pos, negsuc}
use lre.Symbols.{Sym}
use lre.Token.{Word}
use lre.Value.{int, string, val2lre_value, peek_val_type, unquote}
use lre.Utils.{is_digit, is_double_digit}
use lre.Execute.{interp_execute}
use lre.Lrc.Builtin.{System, builtin}
use lre.Lrc.Builtin.Runs.{summary, fresh, exists_rule, interp_execute-exists_rule}
use lre.Tests.Running.{no_doubles}
use lre.Macro.Content.{is_prefix}
use lre.Lrc.Strings.{split}
use lre.Lrc.Values.{Answer, minus_one}
use lre.Lrc.File.{
  Stat, stated, enoent, File, int2perm, int2perm_loop, perm2int, perm2int_loop, digit_rounds,
  word_int, overflow, expr_permission_handler,
}
use lre.Lrc.File.Permissions.{int2perm-perm2int, expr_permission_handler-missing}
use lre.Lrc.Process.{ProcessInfo, Process, fits_paths, behind_semicolons}
use lre.Lrc.Process.Paths.{fits_one, no_semicolon, fits_paths-split}
use lre.Lrc.Process.Info.{parse_stat}
use lre.Lrc.Process.Stat.{lacks, put_stat, parse_stat-put_stat}
use lre.Lrc.Process.Cmdline.{cmd2args}
use lre.Lrc.Process.Args.{IsArgs, no_zero, put_args, cmd2args-put_args}
use lre.Lrc.Process.Dirs.{collect_paths}
use lre.Lrc.Process.Distinct.{IsCollected, collect_paths-distinct}
use lre.Lrc.Network.{NetState, stats, Net, Network, expr_listen_handler}
use lre.Lrc.Network.Laws.{Asks, Listens, Tells, expr_listen_handler-tcp_stats}
use lre.Tests.Sample.{codes}

int2perm-perm2int_example : (n : ℕ) × (perm2int 493 ≡ some n) × (int2perm (pos n) ≡ some 493)
int2perm-perm2int_example = int2perm-perm2int 493 (omega arith)

abbrev missing : File
missing = record {
  path = some (codes "/no");
  exist = pos 0;
  owner = minus_one;
  group = minus_one;
  permission = minus_one;
  state = true;
}

mode_755 : int2perm (pos 755) ≡ some 493
unfolding int2perm int2perm_loop
mode_755 = refl

expr_permission_handler-missing_example :
    (perm2int_loop digit_rounds (word_int minus_one) 1 0 ≡ overflow)
    × (expr_permission_handler {D = Word} missing Sym.equal (int (pos 755)) ≡ none)
expr_permission_handler-missing_example =
    expr_permission_handler-missing Word missing (pos 755) 493 refl (omega arith) mode_755
      (omega arith)

a_plain : no_semicolon (codes "/a") ≡ true
unfolding no_semicolon
a_plain = refl

fits_paths-split_example :
    fits_paths (codes "/b;/a") (codes "/a") ≡ fits_one (codes "/a") (split b';' (codes "/b;/a"))
fits_paths-split_example = fits_paths-split (codes "/a") (codes "/b;/a") a_plain

-- A binary in the directory that is given is not taken.
in_directory : fits_paths (codes "/usr/local/") (codes "/usr/local/x") ≡ false
unfolding is_prefix behind_semicolons
in_directory = refl

-- A path behind a `:` is not taken either.
behind_colon : fits_paths (codes "/bin/bash:/usr/bin/vi") (codes "/usr/bin/vi") ≡ false
unfolding is_prefix behind_semicolons
behind_colon = refl

state_lacks : (sep : ℕ) → (b'S' == sep) ≡ false → lacks sep (codes "S") ≡ true
unfolding lacks
state_lacks sep h = ground arith

rest_lacks : lacks b')' (codes "0") ≡ true
unfolding lacks
rest_lacks = refl

parse_stat-put_stat_example :
    parse_stat (put_stat (pos 12) (codes "a) b") (codes "S") (negsuc 0) (codes "0"))
    ≡ some (codes "a) b", negsuc 0)
parse_stat-put_stat_example =
    parse_stat-put_stat (pos 12) (codes "a) b") (codes "S") (negsuc 0) (codes "0") refl
      (state_lacks b' ' refl) (state_lacks b')' refl) rest_lacks

ls-IsArgs : IsArgs (codes "ls" ∷ codes "-l" ∷ [])
unfolding IsArgs no_zero
ls-IsArgs = (refl, (refl, tt))

cmd2args-put_args_example :
    cmd2args (put_args (codes "ls" ∷ codes "-l" ∷ [])) ≡ some (codes "ls" ∷ codes "-l" ∷ [])
cmd2args-put_args_example = cmd2args-put_args (codes "ls" ∷ codes "-l" ∷ []) ls-IsArgs

abbrev shell : ProcessInfo
shell = record {
  pid = pos 7;
  ppid = pos 1;
  name = some (codes "sh");
  user = codes "root";
  binpath = some (codes "/bin/sh");
  cmdline = [];
}

abbrev shells : Process
shells = record {
  procname = some (codes "sh");
  procpath = none;
  excludepath = none;
  argindex = pos 0;
  argkey = none;
  psinfo = [];
  state = false;
  extract = false;
}

collect_paths-distinct_example : IsCollected (collect_paths shells (shell ∷ shell ∷ []) [])
collect_paths-distinct_example = collect_paths-distinct shells (shell ∷ shell ∷ [])

-- A UDP socket that is there, and a TCP socket with another port.
abbrev tcp_80 : NetState
tcp_80 = record { localport = 80; remoteport = 0; state = 10 }

abbrev sockets : Net
sockets = record {
  tcp_stats = stats (tcp_80 ∷ []);
  udp_stats = stats (record { localport = 53; remoteport = 0; state = 7 } ∷ []);
  net_initialized = true;
}

abbrev port_53 : Network
port_53 = record { protocol = some (codes "UdP"); port = pos 53 }

expr_listen_handler-tcp_stats_example :
    (a : Answer) × (expr_listen_handler {D = Word} sockets port_53 Sym.equal (int (pos 1)) ≡ some a)
    × Tells (Listens 7 53 (tcp_80 ∷ [])) a.0
expr_listen_handler-tcp_stats_example =
    expr_listen_handler-tcp_stats Word sockets port_53 (codes "UdP") 7 53 (tcp_80 ∷ []) refl
      (Asks.udp b'U' b'd' b'P' (inr refl) (inl refl) (inr refl)) refl (omega arith) (omega arith)
      refl

abbrev stat_of : Word → Stat
stat_of [] = enoent
stat_of (c ∷ cs) = if c == b'/' then stated 0 0 420 else enoent

abbrev system : System
system = record {
  doubles = no_doubles;
  stat = stat_of;
  getpwuid = λ uid. none;
  files = record { readdir = λ path. none; lstat = λ path. none };
  memory = missing;
}

etc_quoted : val2lre_value no_doubles (codes "\"/etc\"") ≡ some (string (codes "/etc"))
unfolding val2lre_value peek_val_type unquote is_digit is_double_digit
etc_quoted = refl

hosts_quoted : val2lre_value no_doubles (codes "\"hosts\"") ≡ some (string (codes "hosts"))
unfolding val2lre_value peek_val_type unquote is_digit is_double_digit
hosts_quoted = refl

interp_execute-exists_rule_example :
    summary system (
      interp_execute
        (builtin system)
        8192
        fresh
        (exists_rule (codes "\"/etc\"") (codes "\"hosts\"")))
    ≡ some (pos 1, [], false)
interp_execute-exists_rule_example =
    interp_execute-exists_rule system 8192 b'/' b'h' (codes "\"/etc\"") (codes "\"hosts\"")
      (codes "etc") (codes "osts") (omega arith) etc_quoted hosts_quoted
