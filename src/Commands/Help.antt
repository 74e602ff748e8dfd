-- ===== src/Commands/Help.antt =====
-- `cmd_help` of core/commands.c.
use mineos.Base.{ℤ, pos, [], ◌∷◌}
use mineos.Machine.{Machine, text}
use mineos.Screen.{print_all, plain, cyan, green}

unfoldable pub cmd_help : Machine → ℤ × Machine
cmd_help k = (
  pos 0,
  print_all
      (plain (text "\n")
        ∷ cyan (text "  ╔══════════════════════════════════════════════════════════╗\n")
        ∷ cyan (text "  ║               MineOS — Command Reference               ║\n")
        ∷ cyan (text "  ╠══════════════════════════════════════════════════════════╣\n")
        ∷ green (text "  ║  ls              ")
        ∷ plain (text "List files and directories             ")
        ∷ cyan (text "║\n")
        ∷ green (text "  ║  mkdir <name>    ")
        ∷ plain (text "Create a new directory                 ")
        ∷ cyan (text "║\n")
        ∷ green (text "  ║  touch <name>    ")
        ∷ plain (text "Create a new empty file                ")
        ∷ cyan (text "║\n")
        ∷ green (text "  ║  write <f> <txt> ")
        ∷ plain (text "Write content to a file                ")
        ∷ cyan (text "║\n")
        ∷ green (text "  ║  cat <file>      ")
        ∷ plain (text "Display file contents                  ")
        ∷ cyan (text "║\n")
        ∷ green (text "  ║  rm <name>       ")
        ∷ plain (text "Delete a file or empty directory        ")
        ∷ cyan (text "║\n")
        ∷ green (text "  ║  cd <dir>        ")
        ∷ plain (text "Change directory (cd .. to go up)      ")
        ∷ cyan (text "║\n")
        ∷ green (text "  ║  pwd             ")
        ∷ plain (text "Print current working directory        ")
        ∷ cyan (text "║\n")
        ∷ green (text "  ║  echo <text>     ")
        ∷ plain (text "Print text to screen                   ")
        ∷ cyan (text "║\n")
        ∷ green (text "  ║  memstat         ")
        ∷ plain (text "Show virtual RAM usage                 ")
        ∷ cyan (text "║\n")
        ∷ green (text "  ║  ps              ")
        ∷ plain (text "Show process table                     ")
        ∷ cyan (text "║\n")
        ∷ green (text "  ║  save            ")
        ∷ plain (text "Persist filesystem to disk             ")
        ∷ cyan (text "║\n")
        ∷ green (text "  ║  load            ")
        ∷ plain (text "Restore filesystem from disk           ")
        ∷ cyan (text "║\n")
        ∷ green (text "  ║  clear           ")
        ∷ plain (text "Clear the terminal                     ")
        ∷ cyan (text "║\n")
        ∷ green (text "  ║  help            ")
        ∷ plain (text "Show this help message                 ")
        ∷ cyan (text "║\n")
        ∷ green (text "  ║  halt            ")
        ∷ plain (text "Emergency shutdown (wipes RAM)         ")
        ∷ cyan (text "║\n")
        ∷ green (text "  ║  exit            ")
        ∷ plain (text "Shutdown MineOS                        ")
        ∷ cyan (text "║\n")
        ∷ cyan (text "  ╚══════════════════════════════════════════════════════════╝\n")
        ∷ plain (text "\n")
        ∷ [])
      k,
)
