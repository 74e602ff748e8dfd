-- ===== src/System/Store.antt =====
-- The contents when one inode (core/fs.c) has lost its block, or has got another.
use mineos.Base.{
  ℕ, ◌<◌, ◌≡◌, ◌≢◌, ◌∙◌, ◌+◌, ◌==◌, sym, subst, inl, inr, arith, pos, minus_one, List, length,
  Option, none, some, dec_eq, eq→==, ne→==, if◌then◌else◌,
}
use mineos.Bytes.{Bytes}
use mineos.Memory.Layout.{data_region_offset}
use mineos.Memory.Chain.{Block, IsHeap}
use mineos.Memory.Owners.{RoomAt, RoomAt-UsedAt, UsedAt, UsedAt-split}
use mineos.Memory.Stays.{Stays}
use mineos.Text.{text_fuel}
use mineos.Text.Strings.{IsString}
use mineos.Fs.Inodes.{inode_at}
use mineos.Fs.Content.{HasContent}
use mineos.System.{HoldsText, offset_of, size_of, IsStore}
use mineos.System.Nodes.{KeepsContent, HoldsText-Stays}

-- A content that is a text in a used block is a block of the heap.
pub content-HasContent :
    (m : Bytes) (bs : List Block) (i : ℕ) (c : Option (List ℕ))
    → HoldsText m bs i c
    → HasContent m bs (inode_at i)
content-HasContent m bs i none e = inl e
content-HasContent m bs i (some t) (o, e, u, held, size, fuel) =
    let (pre, b, post, split, at) =
      UsedAt-split data_region_offset o bs
        (RoomAt-UsedAt data_region_offset o (length t + 1) bs u) in
    inr (pre, b, post, split, subst (λ o. offset_of m i ≡ pos o) at e)

-- What is known of the contents, with that of inode `i` replaced.
abbrev pub update {ℓ} : {A : Type ℓ} → (ℕ → A) → ℕ → A → ℕ → A
update f i x d = if d == i then x else f d

module _ (m m' : Bytes) (n i : ℕ) (keeps : (d : ℕ) → d < n → d ≢ i → KeepsContent m m' d)
    (bs blocks : List Block) (v : IsStore m n bs) (order : i < n)
    (stays : Stays m bs (offset_of m i) m' blocks) (heap : IsHeap m' blocks) where
  -- The content of another inode is as before.
  kept :
      (d : ℕ) → d < n → d ≢ i → (c : Option (List ℕ)) → HoldsText m bs d c → HoldsText m' blocks d c
  kept d l ne c =
      HoldsText-Stays m m' bs blocks (offset_of m i) d c (keeps d l ne)
        (λ o e at. ne (v.separate d i o l order e at)) stays

  replaced :
      (x : Option (List ℕ))
      → HoldsText m' blocks i x
      → (f : ℕ → Option (List ℕ)) (d : ℕ) → d < n
      → HoldsText m bs d (f d)
      → HoldsText m' blocks d (update f i x d)
  replaced x new f d l h = elim (dec_eq d i) [
    | inl eq ↦ rw (eq→== d i eq) (subst (λ d. HoldsText m' blocks d x) (sym eq) new)
    | inr ne ↦ rw (ne→== d i ne) (kept d l ne (f d) h)
  ]

  -- Inode `i` is empty now.
  pub emptied :
      offset_of m' i ≡ minus_one
      → (f : ℕ → Option (List ℕ)) (d : ℕ) → d < n
      → HoldsText m bs d (f d)
      → HoldsText m' blocks d (update f i none d)
  emptied empty = replaced none empty

  pub emptied-IsStore : offset_of m' i ≡ minus_one → IsStore m' n blocks
  emptied-IsStore empty = record {
    heap = heap;
    content = λ d l. (_, emptied empty (λ _. (v.content d l).0) d l (v.content d l).1);
    separate = λ d e o hd he od oe. elim (dec_eq d i) [
      | inl eq ↦ absurd (clash d o eq od)
      | inr ne ↦ elim (dec_eq e i) [
        | inl eq ↦ absurd (clash e o eq oe)
        | inr ne' ↦
            v.separate d e o hd he (sym (keeps d hd ne).0 ∙ od) (sym (keeps e he ne').0 ∙ oe)
      ]
    ];
  }
    where
      clash : (d o : ℕ) → d ≡ i → offset_of m' d ≡ pos o → ⊥
      clash d o eq h =
          let e : minus_one ≡ pos o =
            sym (subst (λ d. offset_of m' d ≡ minus_one) (sym eq) empty) ∙ h in
          cc

  -- Inode `i` has a text in a block of its own now.
  module _ (at : ℕ) (t : List ℕ) (offset : offset_of m' i ≡ pos at)
      (room : RoomAt data_region_offset at (length t + 1) blocks) (held : IsString m' at t)
      (size : size_of m' i ≡ pos (length t + 1)) (fuel : length t < text_fuel)
      (fresh : (o : ℕ) → offset_of m i ≢ pos o → UsedAt data_region_offset o bs → o ≢ at) where
    pub stored :
        (f : ℕ → Option (List ℕ)) (d : ℕ)
        → d < n
        → HoldsText m bs d (f d)
        → HoldsText m' blocks d (update f i (some t) d)
    stored = replaced (some t) (at, offset, room, held, size, fuel)

    pub stored-IsStore : IsStore m' n blocks
    stored-IsStore = record {
      heap = heap;
      content = λ d l. (_, stored (λ _. (v.content d l).0) d l (v.content d l).1);
      separate = λ d e o hd he od oe. elim (dec_eq d i) [
        | inl eq ↦ elim (dec_eq e i) [
          | inl eq' ↦ omega arith
          | inr ne ↦
              absurd (apart e o he ne (here d o eq od) oe (v.content e he).0 (v.content e he).1)
        ]
        | inr ne ↦ elim (dec_eq e i) [
          | inl eq ↦
              absurd (apart d o hd ne (here e o eq oe) od (v.content d hd).0 (v.content d hd).1)
          | inr ne' ↦
              v.separate d e o hd he (sym (keeps d hd ne).0 ∙ od) (sym (keeps e he ne').0 ∙ oe)
        ]
      ];
    }
      where
        pos_inj : {a b : ℕ} → pos a ≡ pos b → a ≡ b
        pos_inj h = cc

        here : (d o : ℕ) → d ≡ i → offset_of m' d ≡ pos o → o ≡ at
        here d o eq h = pos_inj (sym h ∙ subst (λ d. offset_of m' d ≡ pos at) (sym eq) offset)

        apart :
            (d o : ℕ)
            → d < n
            → d ≢ i
            → o ≡ at
            → offset_of m' d ≡ pos o
            → (c : Option (List ℕ)) → HoldsText m bs d c
            → ⊥
        apart d o l ne eq od none e =
            let clash : minus_one ≡ pos o = sym e ∙ sym (keeps d l ne).0 ∙ od in cc
        apart d o l ne eq od (some s) (x, e, u, held, size, fuel) =
            let same : x ≡ o = pos_inj (sym e ∙ sym (keeps d l ne).0 ∙ od) in
            fresh x (λ at'. ne (v.separate d i x l order e at'))
              (RoomAt-UsedAt data_region_offset x (length s + 1) bs u) (same ∙ eq)
