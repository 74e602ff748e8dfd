-- ===== src/Fs/Fill.antt =====
-- `create_inode` (core/fs.c): the fields of a new inode.
use mineos.Base.{
  ℕ, zero, suc, ◌+◌, ◌≤◌, ◌<◌, ◌≡◌, refl, ◌∙◌, ◌⊎◌, arith, ℤ, pos, minus_one, List, length,
}
use mineos.Math.{IsInt}
use mineos.Bytes.{Bytes, read_int, write_int}
use mineos.Bytes.Ints.{read_int-write_int, read_int-SameOutside}
use mineos.Bytes.Outside.{SameOutside, write_int-SameOutside}
use mineos.Memory.Layout.{max_inodes, max_children}
use mineos.Memory.Take.{read_past}
use mineos.Text.{text_fuel, my_strcpy}
use mineos.Text.Strings.{IsString, IsString-cong}
use mineos.Text.Copy.{my_strcpy-IsString}
use mineos.Fs.{children_loop, fill_inode}
use mineos.Fs.Layout.{
  id_at, name_at, type_at, parent_id_at, child_at, child_count_at, data_offset_at, data_size_at,
  is_active_at,
}

-- The fields of a new inode at `p`, which has no children and no content, but for its name.
pub record IsNew (m : Bytes) (p id : ℕ) (type parent : ℤ) : Type 0 where
  pub has_id : read_int m (id_at p) ≡ pos id
  pub has_type : read_int m (type_at p) ≡ type
  pub parent_id : read_int m (parent_id_at p) ≡ parent
  pub child_count : read_int m (child_count_at p) ≡ pos 0
  pub data_offset : read_int m (data_offset_at p) ≡ minus_one
  pub data_size : read_int m (data_size_at p) ≡ pos 0
  pub is_active : read_int m (is_active_at p) ≡ pos 1

children_loop-SameOutside :
    (n i p : ℕ) (m : Bytes)
    → i + n ≤ max_children
    → SameOutside (p + 44) (p + 108) m (children_loop n i p m)
unfolding children_loop
children_loop-SameOutside zero i p m h q out = refl
children_loop-SameOutside (suc n) i p m h q out =
    children_loop-SameOutside n (i + 1) p (write_int m (child_at p i) minus_one) (omega arith) q out
    ∙ write_int-SameOutside m (child_at p i) minus_one q (omega arith)

module _ (p id : ℕ) (a : Bytes) (s : ℕ) (t : List ℕ) (type parent : ℤ) (m : Bytes) where
  abbrev m1 : Bytes
  m1 = write_int m (id_at p) (pos id)

  abbrev m2 : Bytes
  m2 = my_strcpy m1 (name_at p) a s

  abbrev m3 : Bytes
  m3 = write_int m2 (type_at p) type

  abbrev m4 : Bytes
  m4 = write_int m3 (parent_id_at p) parent

  abbrev m5 : Bytes
  m5 = write_int m4 (child_count_at p) (pos 0)

  abbrev m6 : Bytes
  m6 = write_int m5 (data_offset_at p) minus_one

  abbrev m7 : Bytes
  m7 = write_int m6 (data_size_at p) (pos 0)

  abbrev m8 : Bytes
  m8 = write_int m7 (is_active_at p) (pos 1)

  abbrev m9 : Bytes
  m9 = children_loop max_children 0 p m8

  -- Of the writes behind the name.
  fields-SameOutside : SameOutside (p + 36) (p + 124) m2 m9
  fields-SameOutside q out =
      children_loop-SameOutside max_children 0 p m8 (omega arith) q (omega arith)
      ∙ write_int-SameOutside m7 (is_active_at p) (pos 1) q (omega arith)
      ∙ write_int-SameOutside m6 (data_size_at p) (pos 0) q (omega arith)
      ∙ write_int-SameOutside m5 (data_offset_at p) minus_one q (omega arith)
      ∙ write_int-SameOutside m4 (child_count_at p) (pos 0) q (omega arith)
      ∙ write_int-SameOutside m3 (parent_id_at p) parent q (omega arith)
      ∙ write_int-SameOutside m2 (type_at p) type q (omega arith)

  -- What the loop over the children leaves alone.
  past_children :
      (q : ℕ) {x : ℤ} → (q + 4 ≤ p + 44) ⊎ (p + 108 ≤ q) → read_int m8 q ≡ x → read_int m9 q ≡ x
  past_children q apart e =
      read_int-SameOutside m8 m9 q (children_loop-SameOutside max_children 0 p m8 (omega arith))
        apart
      ∙ e

  -- A name of any length: it is written from the name field on, over what stands behind it.
  module _ (held : IsString a s t) (fuel : length t < text_fuel) (small : id < max_inodes)
      (int_type : IsInt type) (int_parent : IsInt parent) where
    name_copied : IsString m2 (p + 4) t × SameOutside (p + 4) (p + 4 + length t + 1) m1 m2
    name_copied = my_strcpy-IsString m1 (p + 4) a s t fuel held

    pub fill_inode-SameOutside :
        (w : ℕ)
        → 124 ≤ w
        → length t + 5 ≤ w
        → SameOutside p (p + w) m (fill_inode p id a s type parent m)
    unfolding fill_inode
    fill_inode-SameOutside w h l q out =
        fields-SameOutside q (omega arith)
        ∙ name_copied.1 q (omega arith)
        ∙ write_int-SameOutside m p (pos id) q (omega arith)

    -- A name of at most 31 characters ends in front of the next field.
    pub fill_inode-IsString : length t < 32 → IsString (fill_inode p id a s type parent m) (p + 4) t
    unfolding fill_inode
    fill_inode-IsString short =
        IsString-cong m2 m9 (p + 4) t (λ q h k. fields-SameOutside q (omega arith)) name_copied.0

    pub fill_inode-IsNew : IsNew (fill_inode p id a s type parent m) p id type parent
    unfolding fill_inode
    fill_inode-IsNew = record {
      has_id =
          read_int-SameOutside m2 m9 p fields-SameOutside (omega arith)
          ∙ read_int-SameOutside m1 m2 p name_copied.1 (omega arith)
          ∙ read_int-write_int m p (pos id) (omega arith);
      has_type = past_children (p + 36) (omega arith) (
          read_past m7 (p + 120) (pos 1) (p + 36) (omega arith) (
            read_past m6 (p + 116) (pos 0) (p + 36) (omega arith) (
              read_past m5 (p + 112) minus_one (p + 36) (omega arith) (
                read_past m4 (p + 108) (pos 0) (p + 36) (omega arith) (
                  read_past m3 (p + 40) parent (p + 36) (omega arith)
                    (read_int-write_int m2 (p + 36) type int_type))))));
      parent_id = past_children (p + 40) (omega arith) (
          read_past m7 (p + 120) (pos 1) (p + 40) (omega arith) (
            read_past m6 (p + 116) (pos 0) (p + 40) (omega arith) (
              read_past m5 (p + 112) minus_one (p + 40) (omega arith) (
                read_past m4 (p + 108) (pos 0) (p + 40) (omega arith)
                  (read_int-write_int m3 (p + 40) parent int_parent)))));
      child_count = past_children (p + 108) (omega arith) (
          read_past m7 (p + 120) (pos 1) (p + 108) (omega arith) (
            read_past m6 (p + 116) (pos 0) (p + 108) (omega arith) (
              read_past m5 (p + 112) minus_one (p + 108) (omega arith)
                (read_int-write_int m4 (p + 108) (pos 0) (omega arith)))));
      data_offset = past_children (p + 112) (omega arith) (
          read_past m7 (p + 120) (pos 1) (p + 112) (omega arith) (
            read_past m6 (p + 116) (pos 0) (p + 112) (omega arith)
              (read_int-write_int m5 (p + 112) minus_one (omega arith))));
      data_size = past_children (p + 116) (omega arith) (
          read_past m7 (p + 120) (pos 1) (p + 116) (omega arith)
            (read_int-write_int m6 (p + 116) (pos 0) (omega arith)));
      is_active =
          past_children (p + 120) (omega arith)
            (read_int-write_int m7 (p + 120) (pos 1) (omega arith));
    }
