-- ===== src/Commands/Fits.antt =====
-- The calls for which the local arrays of core/commands.c are large enough. The arrays of the model have
-- no end; a text that fits is there the text that the code builds.
use mineos.Base.{ℕ, ◌-◌, ◌<◌, ◌≡◌, ◌∙◌, sym, Bool, true, false, ℤ, some, All, codes}
use mineos.Bytes.{read_int, put, object}
use mineos.Machine.{Machine}
use mineos.Text.{Tokens, my_strlen, unset}
use mineos.Fs.{fs_find_child}
use mineos.Fs.Files.{fs_read}
use mineos.Fs.Paths.{fs_get_path}
use mineos.Fs.Layout.{id_at}
use mineos.Commands.Files.{join_loop, is_word}
use mineos.Commands.Dispatch.{
  Command, echo, ls, mkdir, touch, memstat, ps, clear, help, exit, cat, write, rm, cd, pwd, save,
  load, halt, command_table,
}

-- The content fits `content[1024]`, the file `buf[4096]`, and the path `path[256]`.
abbrev pub Fits : Command → Tokens → ℤ → Machine → Type 0
Fits write t d k = my_strlen (join_loop (t.count - 2) 2 t (put unset 0 0)) 0 < 1024
Fits cat t d k =
    1 < t.count
    → (p : ℕ) → fs_find_child d t.input (t.tokens 1) k ≡ some p
    → my_strlen (fs_read (read_int k.ram (id_at p)) unset k).1 0 < 4096
Fits pwd t d k = my_strlen (fs_get_path d unset k) 0 < 256
Fits echo t d k = Unit
Fits ls t d k = Unit
Fits mkdir t d k = Unit
Fits touch t d k = Unit
Fits memstat t d k = Unit
Fits ps t d k = Unit
Fits clear t d k = Unit
Fits help t d k = Unit
Fits exit t d k = Unit
Fits rm t d k = Unit
Fits cd t d k = Unit
Fits save t d k = Unit
Fits load t d k = Unit
Fits halt t d k = Unit

-- The command that the first word names fits.
abbrev pub CallFits : Tokens → ℤ → Machine → Type 0
CallFits t d k = All (λ e. is_word t 0 (object (codes e.0)) ≡ true → Fits e.1 t d k) command_table

-- A line that begins with another word needs none of the arrays.
pub other-CallFits :
    (t : Tokens) (d : ℤ) (k : Machine)
    → is_word t 0 (object (codes "cat")) ≡ false
    → is_word t 0 (object (codes "write")) ≡ false
    → is_word t 0 (object (codes "pwd")) ≡ false
    → CallFits t d k
other-CallFits t d k nc nw np = (
  free,
  (
    free,
    (
      free,
      (
        free,
        (
          free,
          (
            free,
            (
              free,
              (
                free,
                (
                  free,
                  (
                    λ e. absurd (differ nc e),
                    (
                      λ e. absurd (differ nw e),
                      (free, (free, (λ e. absurd (differ np e), (free, (free, (free, tt)))))),
                    ),
                  ),
                ),
              ),
            ),
          ),
        ),
      ),
    ),
  ),
)
  where
    free : {b : Bool} → b ≡ true → Unit {0}
    free e = tt

    differ : {b : Bool} → b ≡ false → b ≡ true → ⊥
    differ e f = let g : false ≡ true = sym e ∙ f in cc
