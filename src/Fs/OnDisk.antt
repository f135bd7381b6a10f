-- ===== src/Fs/OnDisk.antt =====
-- About iupdate and the reading of an inode.
use project4final.Fs.Dinode.{
  load_half, store_half, dinode_size, iblock, dinode_at, store_addrs, store_dinode, load_dinode,
  iupdate, read_inode,
}
use project4final.Fs.Inode.{Inode, ndirect}
use project4final.Fs.Blocks.{Disk, Superblock}
use project4final.Text.Words.{load_word, store_word, store_word-out, load_word-store_word}
use project4final.Text.Memory.{Memory}
use project4final.Prelude.{
  ℕ, ◌<◌, ◌≤◌, ◌≡◌, ◌+◌, arith, ◌≢◌, ◌*◌, ◌^◌, ◌⊎◌, ◌∙◌, update, refl, dec_lt, suc, ℕ_discrete, inl,
  zero, subst, inr, ne→==, eq→==, ap, sym, update_self, update_ne,
}

store_addrs-out :
    (k i : ℕ) (m : Memory) (b : ℕ) (addrs : ℕ → ℕ) (x : ℕ)
    → (x < b + 4 * i) ⊎ (b + 4 * (i + k) ≤ x)
    → store_addrs k i m b addrs x ≡ m x
unfolding store_addrs
store_addrs-out zero i m b addrs x h = refl
store_addrs-out (suc k) i m b addrs x h =
    store_addrs-out k (i + 1) (store_word m (b + 4 * i) (addrs i)) b addrs x (omega arith)
    ∙ store_word-out m (b + 4 * i) (addrs i) x (omega arith)

load_word-frame :
    (m m' : Memory) (a : ℕ)
    → ((x : ℕ) → a ≤ x → x < a + 4 → m' x ≡ m x)
    → load_word m' a ≡ load_word m a
load_word-frame m m' a h =
    rw
      (
        h a (omega arith) (omega arith),
        h (a + 1) (omega arith) (omega arith),
        h (a + 2) (omega arith) (omega arith),
        h (a + 3) (omega arith) (omega arith),
      )
      refl

load_half-frame :
    (m m' : Memory) (a : ℕ)
    → ((x : ℕ) → a ≤ x → x < a + 2 → m' x ≡ m x)
    → load_half m' a ≡ load_half m a
load_half-frame m m' a h =
    rw (h a (omega arith) (omega arith), h (a + 1) (omega arith) (omega arith)) refl

store_addrs-at :
    (k i : ℕ) (m : Memory) (b : ℕ) (addrs : ℕ → ℕ) (j : ℕ)
    → i ≤ j
    → j < i + k
    → addrs j < 2 ^ 32
    → load_word (store_addrs k i m b addrs) (b + 4 * j) ≡ addrs j
unfolding store_addrs
store_addrs-at zero i m b addrs j h l s = absurd (omega arith)
store_addrs-at (suc k) i m b addrs j h l s = elim (ℕ_discrete j i) [
  | no n ↦
      store_addrs-at k (i + 1) (store_word m (b + 4 * i) (addrs i)) b addrs j (omega arith)
        (omega arith) s
  | yes e ↦
      load_word-frame (store_word m (b + 4 * i) (addrs i))
        (store_addrs k (i + 1) (store_word m (b + 4 * i) (addrs i)) b addrs) (b + 4 * j)
        (λ x u v.
          store_addrs-out k (i + 1) (store_word m (b + 4 * i) (addrs i)) b addrs x (omega arith))
      ∙ subst (λ i. load_word (store_word m (b + 4 * i) (addrs i)) (b + 4 * j) ≡ addrs j) e
          (load_word-store_word m (b + 4 * j) (addrs j) s)
]

store_half-out : (m : Memory) (a w x : ℕ) → (x < a) ⊎ (a + 2 ≤ x) → store_half m a w x ≡ m x
unfolding store_half
store_half-out m a w x h = ground arith

load_half-store_half : (m : Memory) (a w : ℕ) → w < 2 ^ 16 → load_half (store_half m a w) a ≡ w
unfolding store_half
load_half-store_half m a w h = ground arith

-- The fields of an inode are of their widths.
pub record FitsDisk (ip : Inode) : Type 0 where
  pub type_short : ip.type < 2 ^ 16
  pub major_short : ip.major < 2 ^ 16
  pub minor_short : ip.minor < 2 ^ 16
  pub nlink_short : ip.nlink < 2 ^ 16
  pub size_word : ip.size < 2 ^ 32
  pub addrs_word : (k : ℕ) → k < ndirect + 1 → ip.addrs k < 2 ^ 32

-- Two inodes have the same fields and addresses.
pub record SameInode (ip jp : Inode) : Type 0 where
  pub type : ip.type ≡ jp.type
  pub major : ip.major ≡ jp.major
  pub minor : ip.minor ≡ jp.minor
  pub nlink : ip.nlink ≡ jp.nlink
  pub size : ip.size ≡ jp.size
  pub addrs : (k : ℕ) → k < ndirect + 1 → ip.addrs k ≡ jp.addrs k

module _ (m : Memory) (b : ℕ) (ip : Inode) where
  abbrev m₁ : Memory
  m₁ = store_half m b ip.type

  abbrev m₂ : Memory
  m₂ = store_half m₁ (b + 2) ip.major

  abbrev m₃ : Memory
  m₃ = store_half m₂ (b + 4) ip.minor

  abbrev m₄ : Memory
  m₄ = store_half m₃ (b + 6) ip.nlink

  abbrev m₅ : Memory
  m₅ = store_word m₄ (b + 8) ip.size

  -- The addresses stand behind the other fields.
  fields : (x : ℕ) → x < b + 12 → store_dinode m b ip x ≡ m₅ x
  unfolding store_dinode
  fields x h = store_addrs-out (ndirect + 1) 0 m₅ (b + 12) ip.addrs x (omega arith)

  halves : (x : ℕ) → x < b + 8 → store_dinode m b ip x ≡ m₄ x
  halves x h = fields x (omega arith) ∙ store_word-out m₄ (b + 8) ip.size x (omega arith)

  store_dinode-out : (x : ℕ) → (x < b) ⊎ (b + dinode_size ≤ x) → store_dinode m b ip x ≡ m x
  unfolding store_dinode
  store_dinode-out x h =
      store_addrs-out (ndirect + 1) 0 m₅ (b + 12) ip.addrs x (omega arith)
      ∙ store_word-out m₄ (b + 8) ip.size x (omega arith)
      ∙ store_half-out m₃ (b + 6) ip.nlink x (omega arith)
      ∙ store_half-out m₂ (b + 4) ip.minor x (omega arith)
      ∙ store_half-out m₁ (b + 2) ip.major x (omega arith)
      ∙ store_half-out m b ip.type x (omega arith)

  load_dinode-store_dinode : FitsDisk ip → SameInode (load_dinode (store_dinode m b ip) b) ip
  unfolding load_dinode
  load_dinode-store_dinode s = record {
    type =
        load_half-frame m₁ (store_dinode m b ip) b (λ x u v.
          halves x (omega arith)
          ∙ store_half-out m₃ (b + 6) ip.nlink x (omega arith)
          ∙ store_half-out m₂ (b + 4) ip.minor x (omega arith)
          ∙ store_half-out m₁ (b + 2) ip.major x (omega arith))
        ∙ load_half-store_half m b ip.type s.type_short;
    major =
        load_half-frame m₂ (store_dinode m b ip) (b + 2) (λ x u v.
          halves x (omega arith)
          ∙ store_half-out m₃ (b + 6) ip.nlink x (omega arith)
          ∙ store_half-out m₂ (b + 4) ip.minor x (omega arith))
        ∙ load_half-store_half m₁ (b + 2) ip.major s.major_short;
    minor =
        load_half-frame m₃ (store_dinode m b ip) (b + 4)
          (λ x u v. halves x (omega arith) ∙ store_half-out m₃ (b + 6) ip.nlink x (omega arith))
        ∙ load_half-store_half m₂ (b + 4) ip.minor s.minor_short;
    nlink =
        load_half-frame m₄ (store_dinode m b ip) (b + 6) (λ x u v. halves x (omega arith))
        ∙ load_half-store_half m₃ (b + 6) ip.nlink s.nlink_short;
    size =
        load_word-frame m₅ (store_dinode m b ip) (b + 8) (λ x u v. fields x (omega arith))
        ∙ load_word-store_word m₄ (b + 8) ip.size s.size_word;
    addrs = λ k l.
        unfold store_dinode in
        store_addrs-at (ndirect + 1) 0 m₅ (b + 12) ip.addrs k (omega arith) (omega arith)
          (s.addrs_word k l);
  }

load_dinode-frame :
    (m m' : Memory) (b : ℕ)
    → ((x : ℕ) → b ≤ x → x < b + dinode_size → m' x ≡ m x)
    → SameInode (load_dinode m' b) (load_dinode m b)
unfolding load_dinode
load_dinode-frame m m' b h = record {
  type = load_half-frame m m' b (λ x u v. h x (omega arith) (omega arith));
  major = load_half-frame m m' (b + 2) (λ x u v. h x (omega arith) (omega arith));
  minor = load_half-frame m m' (b + 4) (λ x u v. h x (omega arith) (omega arith));
  nlink = load_half-frame m m' (b + 6) (λ x u v. h x (omega arith) (omega arith));
  size = load_word-frame m m' (b + 8) (λ x u v. h x (omega arith) (omega arith));
  addrs = λ k l. load_word-frame m m' (b + 12 + 4 * k) (λ x u v. h x (omega arith) (omega arith));
}

-- After iupdate an inode is read as it was written, every other inode is read as before, and no block but the inode's
-- has changed.
pub read_inode-iupdate :
    (sb : Superblock) (d : Disk) (inum : ℕ) (ip : Inode)
    → FitsDisk ip
    → SameInode (read_inode sb (iupdate sb d inum ip) inum) ip
      × ((j : ℕ)
          → j ≢ inum
          → SameInode (read_inode sb (iupdate sb d inum ip) j) (read_inode sb d j))
      × ((x : ℕ) → x ≢ iblock inum sb → iupdate sb d inum ip x ≡ d x)
unfolding read_inode iupdate
read_inode-iupdate sb d inum ip s = (
  subst (λ m. SameInode (load_dinode m (dinode_at inum)) ip)
      (sym (update_self d (iblock inum sb) (store_dinode (d (iblock inum sb)) (dinode_at inum) ip)))
      (load_dinode-store_dinode (d (iblock inum sb)) (dinode_at inum) ip s),
  other,
  λ x h. update_ne d (iblock inum sb) (store_dinode (d (iblock inum sb)) (dinode_at inum) ip) x h,
)
  where
    other :
        (j : ℕ)
        → j ≢ inum
        → SameInode
            (load_dinode
              (update d
                (iblock inum sb)
                (store_dinode (d (iblock inum sb)) (dinode_at inum) ip)
                (iblock j sb))
              (dinode_at j))
            (load_dinode (d (iblock j sb)) (dinode_at j))
    other j n =
        load_dinode-frame (d (iblock j sb))
          (update d (iblock inum sb) (store_dinode (d (iblock inum sb)) (dinode_at inum) ip)
            (iblock j sb))
          (dinode_at j)
          (λ x u v. elim (ℕ_discrete (iblock j sb) (iblock inum sb)) [
            | no q ↦ rw (ne→== (iblock j sb) (iblock inum sb) q) refl
            | yes q ↦ rw (eq→== (iblock j sb) (iblock inum sb) q) (
                store_dinode-out (d (iblock inum sb)) (dinode_at inum) ip x (apart q x u v)
                ∙ ap (λ y. d y x) (sym q))
          ])
      where
        apart :
            iblock j sb ≡ iblock inum sb
            → (x : ℕ) → dinode_at j ≤ x
            → x < dinode_at j + dinode_size
            → (x < dinode_at inum) ⊎ (dinode_at inum + dinode_size ≤ x)
        apart q x u v = elim (dec_lt x (dinode_at inum)) [
          | yes y ↦ inl y
          | no y ↦ inr (omega (arith, n, q, u, v, y))
        ]
