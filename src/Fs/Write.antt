-- ===== src/Fs/Write.antt =====
-- `fs_write` and `fs_read` (core/fs.c): what is written is read back.
use mineos.Base.{
  ℕ, ◌+◌, ◌≤◌, ◌<◌, ◌≡◌, ◌≢◌, refl, false, sym, ap, subst, ◌∙◌, ◌⊎◌, inl, inr, arith, ℤ, pos,
  minus_one, true, Option, none, some, List, ◌∷◌, ◌++◌, length, All,
}
use mineos.Math.Bounds.{my_add-pos}
use mineos.Bytes.{Bytes, read_int, write_int}
use mineos.Bytes.Ints.{read_int-write_int, read_int-write_other}
use mineos.Bytes.Outside.{IsOutside, write_int-SameOutside}
use mineos.Machine.{Machine, Out, text}
use mineos.Screen.{color_red}
use mineos.Screen.OnlyPrints.{color-OnlyPrints, ram-OnlyPrints}
use mineos.Memory.{Ptr, alloc}
use mineos.Memory.Layout.{ram_size, data_region_offset}
use mineos.Memory.Chain.{
  Block, span, IsHeap, IsChain-span, IsChain-SameOutside, IsChain-payload, span-append,
}
use mineos.Memory.FirstFit.{Fit, first_fit, IsFit, IsTooSmall, carve-size}
use mineos.Memory.Alloc.{alloc-first_fit, IsAllocated}
use mineos.Memory.Owners.{RoomAt, UsedAt, RoomAt-ne, RoomAt-here}
use mineos.Memory.Stays.{Stays, Stays-trans, Stays-above, Stays-payload, alloc-Stays}
use mineos.Text.{text_fuel, my_strcpy}
use mineos.Text.Strings.{IsString, IsString-cong, my_strlen-length}
use mineos.Text.Copy.{my_strcpy-IsString}
use mineos.Fs.{fail}
use mineos.Fs.Layout.{data_offset_at, data_size_at}
use mineos.Fs.Content.{HasContent, Dropped, drop_content-Dropped}
use mineos.Fs.Files.{is_active, is_file, drop_content, store_content, write_at}

-- The inode at `p` holds the text `t` in a used block of a heap. Of the blocks `bs` before, those
-- that did not hold the content at `old` stay used with their bytes, and the text's is none of them.
pub record Saved (m0 : Bytes) (bs : List Block) (old : ℤ) (m : Bytes) (p : ℕ) (t : List ℕ)
    : Type 0 where
  pub blocks : List Block
  pub stays : Stays m0 bs old m blocks
  pub heap : IsHeap m blocks
  pub at : ℕ
  pub offset : read_int m (data_offset_at p) ≡ pos at
  pub lower : data_region_offset ≤ at
  pub upper : at < ram_size
  pub size : read_int m (data_size_at p) ≡ pos (length t + 1)
  pub content : IsString m at t
  pub owned : HasContent m blocks p
  pub used : RoomAt data_region_offset at (length t + 1) blocks
  pub fresh : (o : ℕ) → old ≢ pos o → UsedAt data_region_offset o bs → o ≢ at

module _ (m : Bytes) (p : ℕ) (before : List Block) (c : Block) (cs : List Block) (a : Bytes) (s : ℕ)
    (t : List ℕ) (below : p + 128 ≤ data_region_offset) (heap : IsHeap m (before ++ c ∷ cs))
    (room : length t + 1 ≤ c.size) (fuel : length t < text_fuel) (held : IsString a s t)
    (m0 : Bytes) (bs : List Block) (old : ℤ) where
  abbrev place : ℕ
  place = data_region_offset + span before + 12

  abbrev copied : Bytes
  copied = my_strcpy m place a s

  abbrev saved : Bytes
  saved = write_int (write_int copied (p + 112) (pos place)) (p + 116) (pos (length t + 1))

  span-before : data_region_offset + span before + (12 + c.size + span cs) ≡ ram_size
  span-before = omega (arith, IsChain-span m data_region_offset _ heap, span-append before (c ∷ cs))

  saved-above : (q : ℕ) → data_region_offset ≤ q → saved q ≡ copied q
  saved-above q h =
      write_int-SameOutside _ (p + 116) _ q (inr (omega arith))
      ∙ write_int-SameOutside copied (p + 112) _ q (inr (omega arith))

  saved-below : (q : ℕ) → q < data_region_offset → IsOutside (p + 112) (p + 120) q → saved q ≡ m q
  saved-below q h out =
      write_int-SameOutside _ (p + 116) _ q (omega arith)
      ∙ write_int-SameOutside copied (p + 112) _ q (omega arith)
      ∙ (my_strcpy-IsString m place a s t fuel held).1 q (inl (omega arith))

  Saved-saved :
      c.free ≡ false
      → Stays m0 bs old m (before ++ c ∷ cs)
      → ((o : ℕ) → old ≢ pos o → UsedAt data_region_offset o bs → o ≢ place)
      → Saved m0 bs old saved p t
  Saved-saved in_use stays fresh =
      let fill = span-before in
      let copy = my_strcpy-IsString m place a s t fuel held in
      let mid : Bytes = write_int copied (p + 112) (pos place) in
      let offset : read_int saved (p + 112) ≡ pos place =
        read_int-write_other mid (p + 116) (p + 112) _ (omega arith)
        ∙ read_int-write_int copied (p + 112) (pos place) (omega arith) in
      record {
        blocks = before ++ c ∷ cs;
        stays = Stays-above m0 copied saved bs (before ++ c ∷ cs) old saved-above (
            Stays-trans m0 m copied bs (before ++ c ∷ cs) (before ++ c ∷ cs) old (pos place) stays
              (Stays-payload m copied before c cs place (place + length t + 1) (omega arith)
                (omega arith) copy.1)
              (λ o ne u e. fresh o ne u (pos_inj (sym e))));
        heap =
            IsChain-SameOutside mid saved data_region_offset _
              (write_int-SameOutside mid (p + 116) _) (omega arith)
              (IsChain-SameOutside copied mid data_region_offset _
                (write_int-SameOutside copied (p + 112) _) (omega arith)
                (IsChain-payload m copied data_region_offset before c cs (omega arith) (omega arith)
                  copy.1 heap));
        at = place;
        offset = offset;
        lower = omega arith;
        upper = omega arith;
        size = read_int-write_int mid (p + 116) _ (omega arith);
        content = IsString-cong copied saved place t (λ q h k. saved-above q (omega arith)) copy.0;
        owned = inr (before, c, cs, refl, offset);
        used = RoomAt-here data_region_offset (length t + 1) before c cs in_use room;
        fresh = fresh;
      }
    where
      pos_inj : {a b : ℕ} → pos a ≡ pos b → a ≡ b
      pos_inj h = cc

-- Every byte below the data region, but for the two fields of the content, is as before.
abbrev pub KeepsTables : Bytes → ℕ → Bytes → Type 0
KeepsTables m p m' = (q : ℕ) → q < data_region_offset → IsOutside (p + 112) (p + 120) q → m' q ≡ m q

pub record Failed (m0 : Bytes) (bs : List Block) (old : ℤ) (m : Bytes) (p n : ℕ) : Type 0 where
  pub blocks : List Block
  pub stays : Stays m0 bs old m blocks
  pub heap : IsHeap m blocks
  pub empty : read_int m (data_offset_at p) ≡ minus_one
  pub full : All (IsTooSmall n) blocks

-- What `fs_write` has done: the text is saved, or no block has room for it and the file is empty.
abbrev pub Wrote : List Block → Bytes → ℕ → List ℕ → ℤ × Machine → Type 0
Wrote bs m p t r =
    let old = read_int m (data_offset_at p) in
    KeepsTables m p r.1.ram
    × (((r.0 ≡ pos 0) × Saved m bs old r.1.ram p t)
        ⊎ ((r.0 ≡ minus_one) × Failed m bs old r.1.ram p (length t + 1)))

fail-ram : (o : Out) (k : Machine) → (fail o k).1.ram ≡ k.ram
unfolding fail
fail-ram o k = ram-OnlyPrints (color-OnlyPrints o color_red k)

fail-result : (o : Out) (k : Machine) → (fail o k).0 ≡ minus_one
unfolding fail
fail-result o k = refl

module _ (k k2 : Machine) (bs : List Block) (p : ℕ) (a : Bytes) (s : ℕ) (t : List ℕ)
    (below : p + 128 ≤ data_region_offset) (dropped : Dropped k bs p k2)
    (fuel : length t < text_fuel) (held : IsString a s t) where
  open dropped use {blocks, stays, heap, empty, same}

  store-none :
      (r : Ptr × Machine)
      → All (IsTooSmall (length t + 1)) blocks
      → (r.0 ≡ none)
      → (r.1.ram ≡ k2.ram)
      → Wrote bs k.ram p t (store_content p a s (pos (length t + 1)) r)
  unfolding store_content
  store-none (none, k3) full e same_ram =
      let quiet = fail-ram (text "[fs] Error: not enough memory for write\n") k3 ∙ same_ram in
      (
        λ q h out. ap (λ (m : ℕ → ℕ). m q) quiet ∙ same q h out,
        inr (
          fail-result _ k3,
          record {
            blocks = blocks;
            stays = λ o n ne u. rw quiet (stays o n ne u);
            heap = subst (λ m. IsHeap m blocks) (sym quiet) heap;
            empty = ap (λ m. read_int m (p + 112)) quiet ∙ empty;
            full = full;
          },
        ),
      )
  store-none (some b, k3) full e same_ram = absurd (ground arith)

  store-some :
      (f : Fit) (r : Ptr × Machine)
      → IsFit (length t + 1) blocks (some f)
      → IsAllocated k2 (length t + 1) (some f) r
      → Wrote bs k.ram p t (store_content p a s (pos (length t + 1)) r)
  unfolding store_content
  store-some f (none, k3) fit got = absurd (ground arith)
  store-some f (some b, k3) fit got =
      let (c, cs, carved, fits, used) = carve-size (length t + 1) f.found fit.2 in
      let at : b ≡ pos (data_region_offset + span f.before + 12) = ground arith in
      let chain = subst (λ l. IsHeap k3.ram (f.before ++ (l ++ f.behind))) carved got.1 in
      let old : ℤ = read_int k.ram (p + 112) in
      let taken =
        subst (λ l. Stays k2.ram blocks minus_one k3.ram (f.before ++ (l ++ f.behind))) carved
          (alloc-Stays k2 blocks (length t + 1) f (some b, k3) fit got) in
      rw at (
        λ q h out.
            saved-below k3.ram p f.before c (cs ++ f.behind) a s t below chain fits fuel held k.ram
              bs old q h out
            ∙ got.2 q (inl (omega arith))
            ∙ same q h out,
        inl (
          refl,
          Saved-saved k3.ram p f.before c (cs ++ f.behind) a s t below chain fits fuel held k.ram bs
              old used
              (Stays-trans k.ram k2.ram k3.ram bs blocks (f.before ++ c ∷ (cs ++ f.behind)) old
                minus_one stays taken (λ o ne u e. absurd (cc)))
              (λ o ne u.
                RoomAt-ne data_region_offset o 0 f.before f.found f.behind fit.1
                  (subst (UsedAt data_region_offset o) fit.0 (stays o 0 ne u).0)),
        ),
      )

  store-Wrote :
      (o : Option Fit) (r : Ptr × Machine)
      → IsFit (length t + 1) blocks o
      → IsAllocated k2 (length t + 1) o r
      → Wrote bs k.ram p t (store_content p a s (pos (length t + 1)) r)
  store-Wrote none r fit got = store-none r fit got.0 got.1
  store-Wrote (some f) r fit got = store-some f r fit got

module _ (k : Machine) (p : ℕ) (bs : List Block) (a : Bytes) (s : ℕ) (t : List ℕ)
    (below : p + 128 ≤ data_region_offset) (heap : IsHeap k.ram bs)
    (content : HasContent k.ram bs p) (active : is_active k.ram p ≡ true)
    (file : is_file k.ram p ≡ true) (fuel : length t < text_fuel) (held : IsString a s t) where
  pub write_at-Wrote : Wrote bs k.ram p t (write_at p a s k)
  unfolding write_at
  write_at-Wrote =
      let dropped = drop_content-Dropped k p below bs heap content in
      let k2 : Machine = drop_content p k in
      let n : ℕ = length t + 1 in
      let got = alloc-first_fit k2 dropped.blocks n dropped.heap (omega arith) in
      rw (my_strlen-length a s t fuel held, my_add-pos (length t) 1 (omega arith), active, file)
        (store-Wrote k k2 bs p a s t below dropped fuel held (first_fit n dropped.blocks)
          (alloc (pos n) k2) got.0 got.1)
