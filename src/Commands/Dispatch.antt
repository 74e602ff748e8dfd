-- ===== src/Commands/Dispatch.antt =====
-- `command_dispatch` of core/commands.c: the guards, and the chain of comparisons with the names.
use mineos.Base.{ℤ, pos, ◌==◌, ltb, if◌then◌else◌, [], ◌∷◌, String, List, codes}
use mineos.Bytes.{object}
use mineos.Machine.{Machine, text}
use mineos.Text.{Tokens, my_strlen}
use mineos.Screen.{print_all, red}
use mineos.Commands.{token, cmd_echo, cmd_memstat, cmd_ps, cmd_clear, cmd_exit, cmd_halt}
use mineos.Commands.Help.{cmd_help}
use mineos.Commands.Files.{
  Moved, stay, is_word, cmd_ls, cmd_mkdir, cmd_touch, cmd_write, cmd_cat, cmd_rm, cmd_cd, cmd_pwd,
}
use mineos.Commands.Image.{Stdio, cmd_save, cmd_load}

-- The commands, in the order of the comparisons.
pub data Command : Type 0 where
  echo ls mkdir touch memstat ps clear help exit cat write rm cd pwd save load halt : Command

abbrev pub command_table : List (String × Command)
command_table =
    ("echo", echo)
    ∷ ("ls", ls)
    ∷ ("mkdir", mkdir)
    ∷ ("touch", touch)
    ∷ ("memstat", memstat)
    ∷ ("ps", ps)
    ∷ ("clear", clear)
    ∷ ("help", help)
    ∷ ("exit", exit)
    ∷ ("cat", cat)
    ∷ ("write", write)
    ∷ ("rm", rm)
    ∷ ("cd", cd)
    ∷ ("pwd", pwd)
    ∷ ("save", save)
    ∷ ("load", load)
    ∷ ("halt", halt)
    ∷ []

unfoldable pub call : Command → Stdio → Tokens → ℤ → Machine → Moved
call echo io t d k = stay d (cmd_echo t k)
call ls io t d k = stay d (cmd_ls d k)
call mkdir io t d k = stay d (cmd_mkdir t d k)
call touch io t d k = stay d (cmd_touch t d k)
call memstat io t d k = stay d (cmd_memstat k)
call ps io t d k = stay d (cmd_ps k)
call clear io t d k = stay d (cmd_clear k)
call help io t d k = stay d (cmd_help k)
call exit io t d k = stay d (cmd_exit k)
call cat io t d k = stay d (cmd_cat t d k)
call write io t d k = stay d (cmd_write t d k)
call rm io t d k = stay d (cmd_rm t d k)
call cd io t d k = cmd_cd t d k
call pwd io t d k = stay d (cmd_pwd d k)
call save io t d k = stay d (cmd_save io k)
call load io t d k = stay d (cmd_load io k)
call halt io t d k = stay d (cmd_halt k)

-- The comparisons that are left, and the message behind the last.
unfoldable pub dispatch_loop : List (String × Command) → Stdio → Tokens → ℤ → Machine → Moved
dispatch_loop [] io t d k = stay d (
  pos 0,
  print_all
      (red (text "  Unknown command: '")
        ∷ red (token t 0)
        ∷ red (text "'. Type 'help' for available commands.\n")
        ∷ [])
      k,
)
dispatch_loop ((name, c) ∷ table) io t d k =
    let rest = dispatch_loop table io t d k in
    if is_word t 0 (object (codes name)) then call c io t d k else rest

unfoldable pub command_dispatch : Stdio → Tokens → ℤ → Machine → Moved
command_dispatch io t d k =
    if t.count == 0
    then stay d (pos 0, k)
    else if my_strlen t.input (t.tokens 0) == 0
    then stay d (pos 0, k)
    else if ltb 32 (my_strlen t.input (t.tokens 0))
    then stay d (pos 0, print_all (red (text "  Error: command name too long\n") ∷ []) k)
    else dispatch_loop command_table io t d k
