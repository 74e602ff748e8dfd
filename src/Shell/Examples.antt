-- ===== src/Shell/Examples.antt =====
-- core/shell.c and core/commands.c at concrete inputs.
use mineos.Base.{
  ◌≡◌, ◌==◌, refl, true, false, [], ◌∷◌, codes, pos, ltb, if◌then◌else◌, none, some, arith, ◌-ℤ◌,
  List, All, ℕ, ◌<◌, ◌≤◌, ◌*◌, ◌+◌, ◌++◌, length, length-append,
}
use mineos.Math.{my_sub, wrap, to_word, of_word}
use mineos.Bytes.{put, object}
use mineos.Machine.{Machine, text, chars}
use mineos.Text.{
  Tokens, unset, my_strcmp, strcmp_loop, my_tokenize, tokenize_loop, token_step, my_str_trim,
  trim_start, trim_stop, is_blank, shift_loop, my_strlen, strlen_loop,
}
use mineos.Text.Strings.{IsString, my_strlen-length}
use mineos.Fs.Paths.{fs_get_path}
use mineos.Commands.Fits.{CallFits, other-CallFits}
use mineos.System.Six.{six_names}
use mineos.System.Names.{or_slash, join, length-join}
use mineos.System.Walk.{fs_get_path-join}
use mineos.Screen.{emit}
use mineos.Keyboard.{Line, read_line, read_loop, is_enter, is_backspace, is_printable}
use mineos.Commands.Files.{is_word}
use mineos.Commands.Image.{Stdio, cmd_save, cmd_load}
use mineos.Commands.Results.{stops}
use mineos.Commands.RoundTrip.{ReadsBack, cmd_load-save}
use mineos.Shell.{first_session, Session, boot, prompt, after_read, shell_run}
use mineos.Commands.Names.{Dispatched, command_dispatch-Dispatched, lookup, same_text}
use mineos.Commands.Dispatch.{command_dispatch}
use mineos.Text.Tokenize.{words, word}
use mineos.Shell.Lines.{ends_shell, stops_name}
use mineos.Shell.Exits.{
  first_word, TypedLine, IsTyped, typed_keys, left_over, Exits, shell_run-Exits,
}
use mineos.System.Main.{boot-IsReady}
use mineos.System.Session.{
  IsReadySession, IsPlain, with_line, tokens_of, here, round, Reaches-IsReady,
}

abbrev off : Machine
off = record {
  ram = λ q. 7;
  current_user = object (codes "miner");
  next_inode_id = 9;
  global_ticks = pos 4;
  raw_mode_active = false;
  printed = [];
  image = none;
}

user_held : IsString off.current_user 0 (codes "miner")
unfolding object
user_held = ground arith

-- The file mineos.img as the array that was written.
abbrev stdio : Stdio
stdio = record {
  creates = λ k. true;
  opens = λ k. true;
  fwrite = λ n m q. if ltb q n then m q else 0;
  fread = λ l image old q. if ltb q l then image q else old q;
}

stdio-ReadsBack : ReadsBack stdio
stdio-ReadsBack m old n l q a b = ground arith

cmd_load-save_example : (cmd_load stdio (record (cmd_save stdio off).1 { ram = unset })).1.ram 5 ≡ 7
cmd_load-save_example =
    cmd_load-save stdio off (record (cmd_save stdio off).1 { ram = unset }) stdio-ReadsBack refl
      refl 5 (omega arith)

-- "cat doc" cut into its words.
abbrev cat_doc : Tokens
cat_doc = record {
  input = put (object (codes "cat doc")) 3 0;
  tokens = λ j. if j == 0 then 0 else 4;
  count = 2;
  in_token = true;
}

abbrev session : Session
session = first_session (boot off)

session-IsReady : IsReadySession session
session-IsReady = (boot-IsReady off (codes "miner") user_held (omega arith)).0

-- The line "l" and what the machine has printed of it.
abbrev typed : Line
typed = (
  put (put unset 0 b'l') 1 0,
  emit (text "\n" ∷ []) (emit (chars (b'l' ∷ []) ∷ []) (prompt session).machine),
  [],
)

typed_read :
    read_line (b'l' ∷ 13 ∷ []) (pos 256) session.input (prompt session).machine ≡ some typed
unfolding read_line read_loop is_enter is_backspace is_printable my_sub wrap to_word of_word ◌-ℤ◌
typed_read = refl

-- The path of the first prompt.
miner_names : ℕ → List ℕ
miner_names = six_names (codes "miner")

boot_path_fits : my_strlen (fs_get_path (pos 3) unset (boot off)) 0 < 256
unfolding miner_names
boot_path_fits =
    let (ready, bare, six, dirs) = boot-IsReady off (codes "miner") user_held (omega arith) in
    let (front, few, trail, held) =
      fs_get_path-join (boot off) 3 miner_names unset ready.system (omega arith) (λ d h. record {
        given = omega arith;
        held = dirs.named d (omega arith);
        short = omega (arith, dirs.short d (omega arith));
      }) in
    let path : List ℕ = or_slash (join miner_names (front ++ 3 ∷ [])) in
    let short : length path ≤ 32 * length (front ++ 3 ∷ []) + 1 =
      length-join miner_names (front ++ 3 ∷ []) (λ d. ground arith) in
    let e = length-append front (3 ∷ []) in
    let len = my_strlen-length (fs_get_path (pos 3) unset (boot off)) 0 path (omega arith) held.0 in
    omega arith

prompt_path_fits : my_strlen (prompt session).path 0 < 256
unfolding prompt
prompt_path_fits = boot_path_fits

abbrev typed_session : Session
typed_session = with_line session typed

abbrev typed_tokens : Tokens
typed_tokens = tokens_of typed_session

typed_words :
    (is_word typed_tokens 0 (object (codes "cat")) ≡ false)
    × (is_word typed_tokens 0 (object (codes "write")) ≡ false)
    × (is_word typed_tokens 0 (object (codes "pwd")) ≡ false)
    × (is_word typed_tokens 0 (object (codes "load")) ≡ false)
    × (is_word typed_tokens 0 (object (codes "halt")) ≡ false)
unfolding is_word my_strcmp strcmp_loop put object mineos.Text.char_value my_sub wrap to_word
    of_word ◌-ℤ◌ my_tokenize tokenize_loop token_step my_str_trim trim_start trim_stop is_blank
    shift_loop my_strlen strlen_loop prompt
typed_words = (refl, refl, refl, refl, refl)

typed_few : typed_tokens.count ≤ 16
unfolding is_word my_strcmp strcmp_loop put object mineos.Text.char_value my_sub wrap to_word
    of_word ◌-ℤ◌ my_tokenize tokenize_loop token_step my_str_trim trim_start trim_stop is_blank
    shift_loop my_strlen strlen_loop prompt
typed_few = omega arith

typed-CallFits : CallFits typed_tokens typed_session.current_dir typed_session.machine
typed-CallFits =
    let (nc, nw, np, nl, nh) = typed_words in
    other-CallFits typed_tokens typed_session.current_dir typed_session.machine nc nw np

typed-IsPlain : IsPlain typed_session
typed-IsPlain =
    let (nc, nw, np, nl, nh) = typed_words in
    record {
      few = typed_few;
      path_fits = prompt_path_fits;
      call_fits = λ e. typed-CallFits;
      not_load = λ e. nl;
      not_halt = λ e. nh;
    }

Reaches-IsReady_example : IsReadySession (after_read stdio (prompt session) typed).0.1
Reaches-IsReady_example =
    Reaches-IsReady stdio session (after_read stdio (prompt session) typed).0.1 session-IsReady
      (round session (b'l' ∷ 13 ∷ []) typed here typed_read typed-IsPlain)

cat_held : IsString cat_doc.input 0 (codes "cat")
unfolding put object
cat_held = ground arith

command_dispatch-Dispatched_example :
    Dispatched
      (codes "cat")
      stdio
      cat_doc
      (pos 3)
      (boot off)
      (command_dispatch stdio cat_doc (pos 3) (boot off))
command_dispatch-Dispatched_example =
    command_dispatch-Dispatched cat_doc (codes "cat") cat_held (omega arith) stdio (pos 3)
      (boot off) (omega arith) (omega arith)

-- "ls", with a key taken back, and "exit now".
abbrev typed_lines : List TypedLine
typed_lines =
    record { keys = b'l' ∷ b'x' ∷ 127 ∷ b's' ∷ []; enter = 13 }
    ∷ record { keys = codes "exit now"; enter = 10 }
    ∷ record { keys = codes "ls"; enter = 13 }
    ∷ []

typed_lines-IsTyped : All IsTyped typed_lines
unfolding is_enter is_backspace is_printable is_blank words word same_text
typed_lines-IsTyped = (
  record {
    none_enters = (refl, (refl, (refl, (refl, tt))));
    enters = refl;
    flush = record { first = refl; last = refl };
    few = omega arith;
    tame = first_word _ _ refl refl;
  },
  (
    record {
      none_enters = (refl, (refl, (refl, (refl, (refl, (refl, (refl, (refl, tt))))))));
      enters = refl;
      flush = record { first = refl; last = refl };
      few = omega arith;
      tame = first_word _ _ refl refl;
    },
    (
      record {
        none_enters = (refl, (refl, tt));
        enters = refl;
        flush = record { first = refl; last = refl };
        few = omega arith;
        tame = first_word _ _ refl refl;
      },
      tt,
    ),
  ),
)

left_over_run : left_over typed_lines ≡ some (record { keys = codes "ls"; enter = 13 } ∷ [])
unfolding left_over ends_shell stops_name stops lookup same_text words word is_backspace
    is_printable
left_over_run = refl

shell_run-Exits_example :
    Exits (left_over typed_lines) (shell_run stdio (boot off) (typed_keys typed_lines))
shell_run-Exits_example =
    shell_run-Exits stdio off (codes "miner") typed_lines user_held (omega arith)
      typed_lines-IsTyped
