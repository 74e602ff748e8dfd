-- ===== src/System/Commands.antt =====
-- The commands of core/commands.c that change the files or the current directory, and the
-- invariant.
use mineos.Base.{
  ℕ, ◌-◌, ◌<◌, ◌≡◌, refl, ◌∙◌, subst, inl, inr, arith, ℤ, pos, minus_one, [], true, false, not,
  if_cases, Option-cases, some, ltb, eqb_ℤ, codes,
}
use mineos.Math.{IsInt}
use mineos.Bytes.{Bytes, read_int, put, object}
use mineos.Machine.{Machine, Out, text}
use mineos.Text.{Tokens, unset}
use mineos.Text.Strings.{IsString}
use mineos.Screen.OnlyPrints.{OnlyPrints-refl, OnlyPrints}
use mineos.Fs.{fs_create, fs_find_child, fs_get_inode, is_dir}
use mineos.Fs.Files.{is_file, fs_delete}
use mineos.Fs.Inodes.{inode_at, fs_get_inode-inode_at}
use mineos.Fs.Layout.{inode_file, inode_dir, id_at}
use mineos.Commands.Files.{
  usage, report, cmd_mkdir, cmd_touch, file_missing, missing, no_file, report_write, write_to,
  cmd_write, report_rm, rm_of, cmd_rm, Moved, parent_dir, stay, cd_to, is_word, cmd_cd,
}
use mineos.Commands.Prints.{print_all-OnlyPrints, if-OnlyPrints}
use mineos.Commands.ReadOnly.{
  Quiet, usage-Quiet, missing-Quiet, file_missing-Quiet, no_file-Quiet, complain-Quiet,
}
use mineos.System.{IsSystem, HasParent, parent_field}
use mineos.System.Create.{Keeps, OnlyPrints-Keeps, fs_create-IsSystem}
use mineos.System.Write.{fs_write-IsSystem}
use mineos.System.Delete.{fs_delete-IsSystem}
use mineos.System.Find.{fs_find_child-IsSystem}
use mineos.System.Words.{AreWords, join_loop-HoldsAtMost}

-- The id of an inode that is a directory. It may have been removed since: `cd` goes to the home and
-- to a parent without a look at `is_active`.
abbrev pub IsGiven : Machine → ℤ → Type 0
IsGiven k d = (i : ℕ) × (i < k.next_inode_id) × (d ≡ pos i) × (is_dir k.ram (inode_at i) ≡ true)

abbrev pub Kept : Machine → ℤ × Machine → Type 0
Kept k r = Keeps k r.1

quiet : (k : Machine) (r : ℤ × Machine) → IsSystem k → Quiet k r → Kept k r
quiet k r v o = OnlyPrints-Keeps k r.1 v o

-- Printing behind a call.
Keeps-OnlyPrints : (k k' k'' : Machine) → Keeps k k' → OnlyPrints k' k'' → Keeps k k''
Keeps-OnlyPrints k k' k'' (v, l, dirs) o =
    let (v', l', dirs') = OnlyPrints-Keeps k' k'' v o in
    (v', omega arith, λ i h. dirs' i (omega arith) ∙ dirs i h)

report-Kept :
    (k : Machine) (done : Out) (t : Tokens) (r : ℤ × Machine) → Kept k r → Kept k (report done t r)
unfolding report
report-Kept k done t (result, k') v = Keeps-OnlyPrints k k' _ v (
    if-OnlyPrints k' (not (eqb_ℤ result minus_one)) _ _ (print_all-OnlyPrints _ k')
      (OnlyPrints-refl k'))

module _ (k : Machine) (v : IsSystem k) (i : ℕ) (h : i < k.next_inode_id) (t : Tokens)
    (words : AreWords t) where
  made-Keeps :
      (type : ℤ)
      → IsInt type
      → 1 < t.count
      → Keeps k (fs_create (pos i) t.input (t.tokens 1) type k).1
  made-Keeps type int l =
      let (w, at, short) = words.word 1 l in
      fs_create-IsSystem k i t.input (t.tokens 1) w type v h at short int

  pub cmd_mkdir-Kept : Kept k (cmd_mkdir t (pos i) k)
  unfolding cmd_mkdir
  cmd_mkdir-Kept =
      if_cases (Kept k) (ltb t.count 2) _ _
        (λ e. quiet k (usage (text "  Usage: mkdir <name>\n") k) v (usage-Quiet _ k))
        (λ e.
          report-Kept k (text "  → Directory created: ") t _
            (made-Keeps inode_dir (omega arith) (ground arith)))

  pub cmd_touch-Kept : Kept k (cmd_touch t (pos i) k)
  unfolding cmd_touch
  cmd_touch-Kept =
      if_cases (Kept k) (ltb t.count 2) _ _
        (λ e. quiet k (usage (text "  Usage: touch <name>\n") k) v (usage-Quiet _ k))
        (λ e.
          report-Kept k (text "  → File created: ") t _
            (made-Keeps inode_file (omega arith) (ground arith)))

  report_write-Kept :
      (content : Bytes) (r : ℤ × Machine) → Kept k r → Kept k (report_write content t r)
  unfolding report_write
  report_write-Kept content (result, k') v' =
      Keeps-OnlyPrints k k' _ v' (
        if-OnlyPrints k' (eqb_ℤ result (pos 0)) _ _ (print_all-OnlyPrints _ k')
          (OnlyPrints-refl k'))

  empty_str : IsString (put unset 0 0) 0 []
  unfolding put
  empty_str = refl

  -- The id field of what `fs_find_child` finds is that of a child.
  abbrev IsFound : ℕ → Type 0
  IsFound p =
      let node = v.tree.node i h in
      (j : ℕ) × (j < node.c)
      × (p ≡ inode_at (node.ids j))
      × (read_int k.ram (id_at p) ≡ pos (node.ids j))

  write_to-Kept : (p : ℕ) → 2 < t.count → IsFound p → Kept k (write_to (some p) t k)
  unfolding write_to
  write_to-Kept p l (j, lj, at, id) =
      let node = v.tree.node i h in
      let few = words.few in
      let (s, held, short) =
        join_loop-HoldsAtMost (t.count - 2) 2 0 t (put unset 0 0) words (omega arith) (omega arith)
          ([], empty_str, omega arith) in
      if_cases (Kept k) (not (is_file k.ram p)) _ _
        (λ e. quiet k (no_file t k) v (no_file-Quiet t k))
        (λ e.
          report_write-Kept _ _
            (rw id (fs_write-IsSystem k (node.ids j) _ 0 s v (node.given j lj) held (omega arith))))

  rm_of-Kept : (p : ℕ) → IsFound p → Kept k (rm_of (some p) t k)
  unfolding rm_of report_rm
  rm_of-Kept p (j, lj, at, id) =
      let deleted = fs_delete-IsSystem k v i h j lj in
      let node = v.tree.node i h in
      let k' = (fs_delete (pos (node.ids j)) k).1 in
      rw id (
        Keeps-OnlyPrints k k' _ deleted (
          if-OnlyPrints k' (eqb_ℤ (fs_delete (pos (node.ids j)) k).0 (pos 0)) _ _
            (print_all-OnlyPrints _ k') (OnlyPrints-refl k')))

  pub cmd_write-Kept : Kept k (cmd_write t (pos i) k)
  unfolding cmd_write write_to
  cmd_write-Kept =
      if_cases (Kept k) (ltb t.count 3) _ _
        (λ e. quiet k (usage (text "  Usage: write <filename> <content>\n") k) v (usage-Quiet _ k))
        (λ e. elim (Option-cases (fs_find_child (pos i) t.input (t.tokens 1) k)) [
          | inl none_found ↦ rw none_found (quiet k (file_missing t k) v (file_missing-Quiet t k))
          | inr (p, found) ↦ rw found (
              write_to-Kept p (ground arith)
                (fs_find_child-IsSystem k v i h t.input (t.tokens 1) p found))
        ])

  pub cmd_rm-Kept : Kept k (cmd_rm t (pos i) k)
  unfolding cmd_rm rm_of
  cmd_rm-Kept =
      if_cases (Kept k) (ltb t.count 2) _ _
        (λ e. quiet k (usage (text "  Usage: rm <name>\n") k) v (usage-Quiet _ k))
        (λ e. elim (Option-cases (fs_find_child (pos i) t.input (t.tokens 1) k)) [
          | inl none_found ↦ rw none_found (quiet k (missing t k) v (missing-Quiet t k))
          | inr (p, found) ↦
              rw found (rm_of-Kept p (fs_find_child-IsSystem k v i h t.input (t.tokens 1) p found))
        ])

  -- `cd` only prints, and goes to a directory.
  abbrev pub GoesTo : Moved → Type 0
  GoesTo r = OnlyPrints k r.2 × IsGiven k r.1

  parent_dir-IsGiven : IsGiven k (parent_dir (fs_get_inode (pos i)) k.ram)
  unfolding parent_dir
  parent_dir-IsGiven =
      let bound = v.tree.bound in
      let root : IsGiven k (pos 0) = (0, v.tree.rooted, refl, v.tree.root) in
      rw (fs_get_inode-inode_at i (omega arith)) (
        if_cases (IsGiven k) (not (eqb_ℤ (parent_field k.ram i) minus_one)) _ _
          (λ e. up e (v.tree.node i h).parent) (λ e. root))
    where
      up :
          not (eqb_ℤ (parent_field k.ram i) minus_one) ≡ true
          → HasParent k.ram i
          → IsGiven k (parent_field k.ram i)
      up e (inl top) = let e' : false ≡ true = rw top at e in absurd (cc)
      up e (inr (q, l, at, dir)) = (q, omega arith, at, dir)

  cd_to-GoesTo :
      (p : ℕ) → is_dir k.ram (inode_at i) ≡ true → IsFound p → GoesTo (cd_to (some p) t (pos i) k)
  unfolding cd_to stay
  cd_to-GoesTo p here (j, lj, at, id) =
      let node = v.tree.node i h in
      if_cases GoesTo (not (is_dir k.ram p)) _ _ (λ e. (complain-Quiet _ t _ k, (i, h, refl, here)))
        (λ e.
          let dir : is_dir k.ram p ≡ true = ground arith in
          (
            OnlyPrints-refl k,
            (node.ids j, node.given j lj, id, subst (λ p. is_dir k.ram p ≡ true) at dir),
          ))

  pub cmd_cd-GoesTo :
      is_dir k.ram (inode_at i) ≡ true → IsGiven k (pos 3) → GoesTo (cmd_cd t (pos i) k)
  unfolding cmd_cd cd_to stay
  cmd_cd-GoesTo here home =
      let same = OnlyPrints-refl k in
      if_cases GoesTo (ltb t.count 2) _ _ (λ e. (same, home))
        λ e.
          if_cases GoesTo (is_word t 1 (object (codes ".."))) _ _ (λ e. (same, parent_dir-IsGiven))
            λ e.
              if_cases GoesTo (is_word t 1 (object (codes "/"))) _ _
                (λ e. (same, (0, v.tree.rooted, refl, v.tree.root)))
                λ e. elim (Option-cases (fs_find_child (pos i) t.input (t.tokens 1) k)) [
                  | inl none_found ↦ rw none_found (missing-Quiet t k, (i, h, refl, here))
                  | inr (p, found) ↦ rw found (
                      cd_to-GoesTo p here
                        (fs_find_child-IsSystem k v i h t.input (t.tokens 1) p found))
                ]
