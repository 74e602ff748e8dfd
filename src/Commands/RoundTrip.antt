-- ===== src/Commands/RoundTrip.antt =====
-- `load` behind `save` (core/commands.c).
use mineos.Base.{ℕ, ◌<◌, ◌≡◌, ◌∙◌, ap, true, some, if◌then◌else◌, Bool-cases, inl, inr}
use mineos.Bytes.{Bytes}
use mineos.Machine.{Machine}
use mineos.Memory.Layout.{ram_size}
use mineos.Screen.OnlyPrints.{ram-OnlyPrints}
use mineos.Commands.Prints.{print_all-OnlyPrints}
use mineos.Commands.Image.{Stdio, cmd_save, cmd_load, load_from, no_save}

-- `fread` of at most `l` bytes of a file that `fwrite` has left of `n` bytes of an array gives those
-- bytes back that are among the first `l` and among the first `n`.
abbrev pub ReadsBack : Stdio → Type 0
ReadsBack io = (m old : Bytes) (n l q : ℕ) → q < n → q < l → io.fread l (io.fwrite n m) old q ≡ m q

cmd_save-image :
    (io : Stdio) (k : Machine)
    → io.creates k ≡ true
    → ((cmd_save io k).1.image ≡ some (io.fwrite ram_size k.ram)) × ((cmd_save io k).1.ram ≡ k.ram)
unfolding cmd_save
cmd_save-image io k e =
    let k' : Machine = record k { image = some (io.fwrite ram_size k.ram) } in
    let o = print_all-OnlyPrints _ k' in
    rw e (ap (λ (k : Machine). k.image) o.prints, ram-OnlyPrints o)

ram-load_from :
    (io : Stdio) (image : Bytes) (k : Machine)
    → (load_from (some image) io k).ram ≡ io.fread ram_size image k.ram
unfolding load_from
ram-load_from io image k =
    ram-OnlyPrints (print_all-OnlyPrints _ (record k { ram = io.fread ram_size image k.ram }))

-- When the file can be created, and `fread` gives back as many bytes as it is asked for of those that
-- `fwrite` was asked to write, a `load` at any later time, while the file is still that of the
-- `save`, restores every byte of the RAM of the `save` if the file can be opened, and else leaves
-- every byte of the RAM as it is.
pub cmd_load-save :
    (io : Stdio) (k later : Machine)
    → ReadsBack io
    → io.creates k ≡ true
    → later.image ≡ (cmd_save io k).1.image
    → (q : ℕ) → q < ram_size
    → (cmd_load io later).1.ram q ≡ (if io.opens later then k.ram q else later.ram q)
unfolding cmd_load no_save
cmd_load-save io k later back made same q h =
    let saved = same ∙ (cmd_save-image io k made).0 in
    let loaded =
      ap (λ o. (load_from o io later).ram q) saved
      ∙ ap (λ (m : Bytes). m q) (ram-load_from io (io.fwrite ram_size k.ram) later)
      ∙ back k.ram later.ram ram_size ram_size q h h in
    elim (Bool-cases (io.opens later)) [
      | inl e ↦ rw e loaded
      | inr e ↦ rw e (ap (λ (m : Bytes). m q) (ram-OnlyPrints (print_all-OnlyPrints _ later)))
    ]
