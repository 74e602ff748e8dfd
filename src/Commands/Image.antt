-- ===== src/Commands/Image.antt =====
-- `cmd_save` and `cmd_load` of core/commands.c. The file functions of <stdio.h> are a parameter.
use mineos.Base.{ℕ, ℤ, pos, Bool, if◌then◌else◌, Option, none, some, [], ◌∷◌}
use mineos.Bytes.{Bytes}
use mineos.Machine.{Machine, text}
use mineos.Memory.Layout.{ram_size}
use mineos.Screen.{print_all, int_text, red, green}

-- What the commands use of <stdio.h>: whether fopen("mineos.img", "wb") succeeds, and whether
-- fopen("mineos.img", "rb") does when there is a file; the file that fwrite leaves of so many bytes of
-- an array; and the array that fread of at most so many bytes leaves of a file and of what the
-- array held.
pub record Stdio : Type 0 where
  pub creates : Machine → Bool
  pub opens : Machine → Bool
  pub fwrite : ℕ → Bytes → Bytes
  pub fread : ℕ → Bytes → Bytes → Bytes

unfoldable pub cmd_save : Stdio → Machine → ℤ × Machine
cmd_save io k =
    if io.creates k
    then (
      pos 0,
      print_all
          (green (text "  → Filesystem saved to mineos.img (")
            ∷ green (int_text (pos ram_size))
            ∷ green (text " bytes)\n")
            ∷ [])
          (record k { image = some (io.fwrite ram_size k.ram) }),
    )
    else (pos 0, print_all (red (text "  Error: could not create save file\n") ∷ []) k)

unfoldable pub no_save : Machine → Machine
no_save k = print_all (red (text "  Error: no save file found (mineos.img)\n") ∷ []) k

unfoldable pub load_from : Option Bytes → Stdio → Machine → Machine
load_from none io k = no_save k
load_from (some image) io k =
    print_all (green (text "  → Filesystem restored from mineos.img\n") ∷ [])
      (record k { ram = io.fread ram_size image k.ram })

unfoldable pub cmd_load : Stdio → Machine → ℤ × Machine
cmd_load io k =
    let loaded = load_from k.image io k in (pos 0, if io.opens k then loaded else no_save k)
