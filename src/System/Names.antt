-- ===== src/System/Names.antt =====
-- The text of the path that `fs_get_path` (core/fs.c) builds from the ids of its walk.
use mathlib.Core.List.{append-nil, append_assoc}
use mineos.Base.{
  ℕ, ◌+◌, ◌*◌, ◌≤◌, ◌<◌, ◌≡◌, refl, ◌∙◌, arith, ℤ, pos, List, [], ◌∷◌, ◌++◌, length, length-append,
  All, ◌==◌, if◌then◌else◌, if_cases, Bool-cases, inl, inr,
}
use mineos.Bytes.{Bytes, put, object}
use mineos.Bytes.Outside.{SameOutside, put_other}
use mineos.Memory.Layout.{max_inodes}
use mineos.Text.{text_fuel, my_strcat, my_strcpy, my_strlen}
use mineos.Text.Strings.{IsString, my_strlen-length}
use mineos.Text.Copy.{my_strcat-append, my_strcpy-IsString}
use mineos.Text.Backwards.{put_same}
use mineos.Fs.{fs_get_inode}
use mineos.Fs.Inodes.{inode_at, fs_get_inode-inode_at}
use mineos.Fs.Layout.{name_at}
use mineos.Fs.Paths.{slash, add_slash, add_name, path_loop, path_of}

abbrev pub ids_of : List ℕ → List ℤ
ids_of [] = []
ids_of (d ∷ ds) = pos d ∷ ids_of ds

-- A slash between two names, and the root as a slash.
abbrev pub between : List ℕ → List ℕ
between [] = []
between (d ∷ ds) = b'/' ∷ []

abbrev pub piece : (ℕ → List ℕ) → ℕ → List ℕ → List ℕ
piece name d ds = if d == 0 then b'/' ∷ [] else name d ++ between ds

abbrev pub join : (ℕ → List ℕ) → List ℕ → List ℕ
join name [] = []
join name (d ∷ ds) = piece name d ds ++ join name ds

-- An empty path is shown as that of the root.
unfoldable pub or_slash : List ℕ → List ℕ
or_slash [] = b'/' ∷ []
or_slash (c ∷ s) = c ∷ s

-- Inode `d` has the name.
pub record IsNamed (m : Bytes) (name : ℕ → List ℕ) (d : ℕ) : Type 0 where
  pub given : d < max_inodes
  pub held : IsString m (name_at (inode_at d)) (name d)
  pub short : length (name d) ≤ 255

-- The buffer holds the text, and nothing behind it has been written.
abbrev pub Holds : Bytes → List ℕ → Bytes → Type 0
Holds buf s r = IsString r 0 s × SameOutside 0 (length s + 1) buf r

slash-IsString : IsString slash 0 (b'/' ∷ [])
unfolding slash object
slash-IsString = ground arith

appended :
    (buf m src : Bytes) (p : ℕ) (s t : List ℕ)
    → length s < text_fuel
    → length t < text_fuel
    → Holds buf s m
    → IsString src p t
    → Holds buf (s ++ t) (my_strcat m 0 src p)
appended buf m src p s t fs ft (held, same) text =
    let (joined, kept) = my_strcat-append m 0 src p s t fs ft held text in
    let long = length-append s t in (joined, λ q out. kept q (omega arith) ∙ same q (omega arith))

add_slash-between :
    (buf m : Bytes) (s ds : List ℕ)
    → length s < text_fuel
    → Holds buf s m
    → Holds buf (s ++ between ds) (add_slash (ids_of ds) m)
unfolding add_slash
add_slash-between buf m s [] fs h = rw append-nil h
add_slash-between buf m s (d ∷ ds) fs h =
    appended buf m slash 0 s (b'/' ∷ []) fs (omega arith) h slash-IsString

module _ (m : Bytes) (name : ℕ → List ℕ) where
  piece-short : (d : ℕ) (ds : List ℕ) → length (name d) ≤ 255 → length (piece name d ds) ≤ 256
  piece-short d ds h = elim (Bool-cases (d == 0)) [
    | inl e ↦ rw e (omega arith)
    | inr e ↦ rw e (omega (arith, length-append (name d) (between ds), between_short ds))
  ]
    where
      between_short : (ds : List ℕ) → length (between ds) ≤ 1
      between_short [] = omega arith
      between_short (d ∷ ds) = omega arith

  add_name-piece :
      (buf r : Bytes) (s : List ℕ) (d : ℕ) (ds : List ℕ)
      → length s + 256 < text_fuel
      → IsNamed m name d
      → Holds buf s r
      → Holds buf (s ++ piece name d ds) (add_name (pos d) (ids_of ds) (fs_get_inode (pos d)) m r)
  unfolding add_name
  add_name-piece buf r s d ds fs v h = elim (Bool-cases (d == 0)) [
    | inl e ↦
        rw (fs_get_inode-inode_at d v.given, e)
          (appended buf r slash 0 s (b'/' ∷ []) (omega arith) (omega arith) h slash-IsString)
    | inr e ↦
        let short = v.short in
        let named =
          appended buf r m (name_at (inode_at d)) s (name d) (omega arith) (omega arith) h v.held in
        rw (fs_get_inode-inode_at d v.given, e, ← append_assoc s (name d) (between ds))
          (add_slash-between buf _ (s ++ name d) ds (omega (arith, length-append s (name d))) named)
  ]

  path_loop-join :
      (l : List ℕ) (buf r : Bytes) (s : List ℕ)
      → length s + 256 * length l < text_fuel
      → All (IsNamed m name) l
      → Holds buf s r
      → Holds buf (s ++ join name l) (path_loop (ids_of l) m r)
  unfolding path_loop
  path_loop-join [] buf r s fs v h = rw append-nil h
  path_loop-join (d ∷ ds) buf r s fs v h =
      let one = add_name-piece buf r s d ds (omega arith) v.0 h in
      let small = piece-short d ds v.0.short in
      rw (← append_assoc s (piece name d ds) (join name ds)) (
        path_loop-join ds buf _ (s ++ piece name d ds)
          (omega (arith, length-append s (piece name d ds))) v.1 one)

  -- The buffer starts as an empty text, and an empty path becomes a slash.
  emptied : (buf : Bytes) → Holds buf [] (put buf 0 0)
  emptied buf = (put_same buf 0 0 (omega arith), λ q out. put_other buf 0 0 q (omega arith))

  a_slash :
      (buf r : Bytes) (s : List ℕ)
      → length s ≡ 0
      → Holds buf s r
      → Holds buf (b'/' ∷ []) (my_strcpy r 0 slash 0)
  a_slash buf r s e (held, same) =
      let (text, kept) = my_strcpy-IsString r 0 slash 0 (b'/' ∷ []) (omega arith) slash-IsString in
      (text, λ q out. kept q (omega arith) ∙ same q (omega arith))

  pub path_of-or_slash :
      (l : List ℕ) (buf : Bytes)
      → 256 * length l < text_fuel
      → All (IsNamed m name) l
      → Holds buf (or_slash (join name l)) (path_of (ids_of l) m buf)
  unfolding path_of or_slash
  path_of-or_slash [] buf fs v = a_slash buf (put buf 0 0) [] refl (emptied buf)
  path_of-or_slash (d ∷ ds) buf fs v =
      let done = path_loop-join (d ∷ ds) buf (put buf 0 0) [] (omega arith) v (emptied buf) in
      ending (join name (d ∷ ds)) (path_loop (ids_of (d ∷ ds)) m (put buf 0 0))
        (omega (arith, join_short (d ∷ ds) v)) done
    where
      join_short : (l : List ℕ) → All (IsNamed m name) l → length (join name l) ≤ 256 * length l
      join_short [] v = omega arith
      join_short (d ∷ ds) v = omega (
        arith,
        piece-short d ds v.0.short,
        join_short ds v.1,
        length-append (piece name d ds) (join name ds),
      )

      ending :
          (s : List ℕ) (r : Bytes)
          → length s < text_fuel
          → Holds buf s r
          → Holds buf (or_slash s) (if my_strlen r 0 == 0 then my_strcpy r 0 slash 0 else r)
      ending [] r fs h = rw (my_strlen-length r 0 [] fs h.0) (a_slash buf r [] refl h)
      ending (c ∷ s) r fs h =
          let len = my_strlen-length r 0 (c ∷ s) fs h.0 in
          if_cases (Holds buf (c ∷ s)) (my_strlen r 0 == 0) _ _ (λ e. absurd (ground arith))
            (λ e. h)

-- The path is short if the names are.
pub length-join :
    (name : ℕ → List ℕ) (l : List ℕ)
    → ((d : ℕ) → length (name d) < 32)
    → length (or_slash (join name l)) ≤ 32 * length l + 1
unfolding or_slash
length-join name l short = or_one (join name l) (pieces l)
  where
    or_one : (s : List ℕ) → length s ≤ 32 * length l → length (or_slash s) ≤ 32 * length l + 1
    or_one [] h = omega arith
    or_one (c ∷ s) h = omega arith

    length-between : (ds : List ℕ) → length (between ds) ≤ 1
    length-between [] = omega arith
    length-between (d ∷ ds) = omega arith

    length-piece : (d : ℕ) (ds : List ℕ) → length (piece name d ds) ≤ 32
    length-piece d ds =
        if_cases (λ (s : List ℕ). length s ≤ 32) (d == 0) _ _ (λ e. omega arith)
          (λ e. omega (arith, length-append (name d) (between ds), length-between ds, short d))

    pieces : (l : List ℕ) → length (join name l) ≤ 32 * length l
    pieces [] = omega arith
    pieces (d ∷ ds) =
        omega (arith, length-append (piece name d ds) (join name ds), length-piece d ds, pieces ds)
