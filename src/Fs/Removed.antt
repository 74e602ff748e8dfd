-- ===== src/Fs/Removed.antt =====
-- `remove_child` (core/fs.c): the loop of `fs_delete` over the children of the parent.
use mineos.Base.{
  ℕ, zero, suc, ◌+◌, ◌-◌, ◌≤◌, ◌<◌, ◌≡◌, ◌≢◌, refl, ◌∙◌, ap, sym, subst, ◌⊎◌, inl, inr, arith, pos,
  minus_one, true, false, Bool, some, lt→ltb, le→ltb, ne→==, eq→==, dec_eq,
}
use mineos.Math.Bounds.{my_sub-pos}
use mineos.Bytes.{Bytes, read_int, write_int}
use mineos.Bytes.Ints.{read_int-write_int, read_int-SameOutside, read_int-write_other}
use mineos.Bytes.Outside.{SameOutside, write_int-SameOutside}
use mineos.Memory.Layout.{max_inodes, max_children}
use mineos.Memory.Take.{read_past}
use mineos.Fs.{children_fuel}
use mineos.Fs.Files.{remove_loop, drop_last, remove_child}
use mineos.Fs.Layout.{child_at, child_count_at}

-- The children of the directory at `p` are the ids `ids j`, for `j` below `c`.
pub record HasChildren (m : Bytes) (p c : ℕ) (ids : ℕ → ℕ) : Type 0 where
  pub count : read_int m (child_count_at p) ≡ pos c
  pub entry : (j : ℕ) → j < c → read_int m (child_at p j) ≡ pos (ids j)
  pub small : (j : ℕ) → j < c → ids j < max_inodes

module _ (p c d : ℕ) (ids : ℕ → ℕ) (few : c ≤ max_children)
    (small : (j : ℕ) → j < c → ids j < max_inodes) where
  -- Entries from `i` on, as the loop with `found` reads them.
  record Rest (i : ℕ) (m : Bytes) : Type 0 where
    count : read_int m (child_count_at p) ≡ pos c
    entry : (j : ℕ) → i ≤ j → j < c → read_int m (child_at p j) ≡ pos (ids j)

  -- The entries from `i` on have moved one to the front.
  record Moved (i : ℕ) (m : Bytes) (r : Bool × Bytes) : Type 0 where
    pub found : r.0 ≡ true
    pub entry : (j : ℕ) → i ≤ j → j + 1 < c → read_int r.1 (child_at p j) ≡ pos (ids (j + 1))
    pub same : SameOutside (child_at p i) (p + 108) m r.1

  copy_one : ℕ → Bytes → Bytes
  copy_one i m = write_int m (child_at p i) (pos (ids (i + 1)))

  copy_one-Rest : (i : ℕ) (m : Bytes) → i + 1 < c → Rest i m → Rest (i + 1) (copy_one i m)
  unfolding copy_one
  copy_one-Rest i m h rest = record {
    count = read_past m (child_at p i) _ (p + 108) (omega arith) rest.count;
    entry = λ j a b.
        read_past m (child_at p i) _ (child_at p j) (omega arith) (rest.entry j (omega arith) b);
  }

  copy_one-Moved :
      (i : ℕ) (m : Bytes) (r : Bool × Bytes)
      → i + 1 < c
      → Moved (i + 1) (copy_one i m) r
      → Moved i m r
  unfolding copy_one
  copy_one-Moved i m r h moved =
      let bound = small (i + 1) (omega arith) in
      record {
        found = moved.found;
        entry = λ j a b. elim (dec_eq i j) [
          | inl e ↦
              subst (λ j. read_int r.1 (child_at p j) ≡ pos (ids (j + 1))) e
                (read_int-SameOutside (copy_one i m) r.1 (child_at p i) moved.same (omega arith)
                  ∙ read_int-write_int m (child_at p i) _ (omega arith))
          | inr ne ↦ moved.entry j (omega arith) b
        ];
        same = λ q out.
            moved.same q (omega arith) ∙ write_int-SameOutside m (child_at p i) _ q (omega arith);
      }

  last-Moved : (i : ℕ) (m : Bytes) (r : Bool × Bytes) → i + 1 ≡ c → Moved (i + 1) m r → Moved i m r
  last-Moved i m r e moved = record {
    found = moved.found;
    entry = λ j a b. absurd (omega arith);
    same = λ q out. moved.same q (omega arith);
  }

  found_loop :
      (fuel i : ℕ) (m : Bytes)
      → c ≤ i + fuel
      → Rest i m
      → Moved i m (remove_loop fuel i p (pos d) true m)
  unfolding remove_loop copy_one
  found_loop zero i m f rest = record {
    found = refl;
    entry = λ j a b. absurd (omega arith);
    same = λ q out. refl;
  }
  found_loop (suc fuel) i m f rest = elim (le_cases c i) [
    | inl h ↦
        rw (rest.count, le→ltb i c h)
          (record { found = refl; entry = λ j a b. absurd (omega arith); same = λ q out. refl })
    | inr h ↦ elim (le_cases (c - 1) i) [
      | inl l ↦
          rw
            (
              rest.count,
              my_sub-pos c 1 (omega arith) (omega arith),
              lt→ltb i c h,
              le→ltb i (c - 1) l,
            )
            (last-Moved i m _ (omega arith) (
              found_loop fuel (i + 1) m (omega arith)
                (record { count = rest.count; entry = λ j a b. rest.entry j (omega arith) b })))
      | inr l ↦
          rw
            (
              rest.count,
              my_sub-pos c 1 (omega arith) (omega arith),
              lt→ltb i c h,
              lt→ltb i (c - 1) l,
              rest.entry (i + 1) (omega arith) (omega arith),
            )
            (copy_one-Moved i m _ (omega arith) (
              found_loop fuel (i + 1) (copy_one i m) (omega arith)
                (copy_one-Rest i m (omega arith) rest)))
    ]
  ]
    where
      le_cases : (a b : ℕ) → (a ≤ b) ⊎ (b < a)
      le_cases a b = ground arith

  -- The round that finds the id is as one with `found`.
  same_round :
      (fuel i : ℕ) (m : Bytes)
      → i < c
      → read_int m (child_count_at p) ≡ pos c
      → read_int m (child_at p i) ≡ pos d
      → remove_loop (suc fuel) i p (pos d) false m ≡ remove_loop (suc fuel) i p (pos d) true m
  unfolding remove_loop
  same_round fuel i m h count e = rw (e, count, eq→== d d refl, lt→ltb i c h) refl

  -- In front of the id the loop goes on without a write.
  next_round :
      (fuel i : ℕ) (m : Bytes)
      → i < c
      → HasChildren m p c ids
      → ids i ≢ d
      → remove_loop (suc fuel) i p (pos d) false m ≡ remove_loop fuel (i + 1) p (pos d) false m
  unfolding remove_loop
  next_round fuel i m h kids ne =
      rw (kids.entry i h, ne→== (ids i) d ne, kids.count, lt→ltb i c h) refl

  find_id :
      (g fuel i x : ℕ) (m : Bytes)
      → g + i ≡ suc fuel + x
      → i ≤ x
      → x < c
      → HasChildren m p c ids
      → ids x ≡ d
      → ((j : ℕ) → j < c → ids j ≡ d → j ≡ x)
      → remove_loop g i p (pos d) false m ≡ remove_loop (suc fuel) x p (pos d) true m
  find_id zero fuel i x m e low h kids here only = absurd (omega arith)
  find_id (suc g) fuel i x m e low h kids here only = elim (dec_eq i x) [
    | inl same ↦
        same_round g i m (omega arith) kids.count
          (kids.entry i (omega arith) ∙ ap pos (subst (λ i. ids i ≡ d) (sym same) here))
        ∙ ap (λ f. remove_loop (suc f) i p (pos d) true m) (omega arith)
        ∙ ap (λ i. remove_loop (suc fuel) i p (pos d) true m) same
    | inr ne ↦
        next_round g i m (omega arith) kids (λ same. ne (only i (omega arith) same))
        ∙ find_id g fuel (i + 1) x m (omega arith) (omega arith) h kids here only
  ]

  -- What `remove_child` leaves of the children: the entry `x` is gone, the ones behind it have moved
  -- to the front, the last slot is -1, and no other byte has changed.
  pub record WithoutChild (m : Bytes) (x : ℕ) (m' : Bytes) : Type 0 where
    pub count : read_int m' (child_count_at p) ≡ pos (c - 1)
    pub front : (j : ℕ) → j < x → read_int m' (child_at p j) ≡ pos (ids j)
    pub back : (j : ℕ) → x ≤ j → j + 1 < c → read_int m' (child_at p j) ≡ pos (ids (j + 1))
    pub last : read_int m' (child_at p (c - 1)) ≡ minus_one
    pub same : SameOutside (p + 44) (p + 112) m m'

  drop_last-WithoutChild :
      (m : Bytes) (x : ℕ) (m1 : Bytes)
      → x < c
      → HasChildren m p c ids
      → Moved x m (true, m1)
      → WithoutChild m x (drop_last p (true, m1))
  unfolding drop_last
  drop_last-WithoutChild m x m1 h kids moved =
      let count1 = read_int-SameOutside m m1 (p + 108) moved.same (omega arith) ∙ kids.count in
      let m2 : Bytes = write_int m1 (p + 108) (pos (c - 1)) in
      let m3 : Bytes = write_int m2 (child_at p (c - 1)) minus_one in
      let count2 = read_int-write_int m1 (p + 108) (pos (c - 1)) (omega arith) in
      let other = λ (j : ℕ) (l : j + 1 < c).
        read_int-write_other m2 (child_at p (c - 1)) (child_at p j) minus_one (omega arith)
        ∙ read_int-write_other m1 (p + 108) (child_at p j) (pos (c - 1)) (omega arith) in
      rw (count1, my_sub-pos c 1 (omega arith) (omega arith), count2)
        (record {
          count = read_past m2 (child_at p (c - 1)) minus_one (p + 108) (omega arith) count2;
          front = λ j l.
              other j (omega arith)
              ∙ read_int-SameOutside m m1 (child_at p j) moved.same (omega arith)
              ∙ kids.entry j (omega arith);
          back = λ j a b. other j b ∙ moved.entry j a b;
          last = read_int-write_int m2 (child_at p (c - 1)) minus_one (omega arith);
          same = λ q out.
              write_int-SameOutside m2 (child_at p (c - 1)) minus_one q (omega arith)
              ∙ write_int-SameOutside m1 (p + 108) (pos (c - 1)) q (omega arith)
              ∙ moved.same q (omega arith);
        })

  pub remove_child-WithoutChild :
      (m : Bytes) (x : ℕ)
      → x < c
      → HasChildren m p c ids
      → ids x ≡ d
      → ((j : ℕ) → j < c → ids j ≡ d → j ≡ x)
      → WithoutChild m x (remove_child (some p) (pos d) m)
  unfolding remove_child
  remove_child-WithoutChild m x h kids here only =
      let fuel : ℕ = 16 - x in
      let rest : Rest x m = record { count = kids.count; entry = λ j a b. kids.entry j b } in
      let moved = found_loop (suc fuel) x m (omega arith) rest in
      let found = find_id children_fuel fuel 0 x m (omega arith) (omega arith) h kids here only in
      rw found (drop_moved m x _ h kids moved)
    where
      false-ne-true : false ≡ true → ⊥
      false-ne-true e = ground arith

      drop_moved :
          (m : Bytes) (x : ℕ) (r : Bool × Bytes)
          → x < c
          → HasChildren m p c ids
          → Moved x m r
          → WithoutChild m x (drop_last p r)
      drop_moved m x (true, m1) h kids moved = drop_last-WithoutChild m x m1 h kids moved
      drop_moved m x (false, m1) h kids moved = absurd (false-ne-true moved.found)
