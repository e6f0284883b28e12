-- ===== src/Fs/Inode/Dinode.antt =====
-- Inodes on the disk: `iupdate` writes what `ilock` reads.
use laboratorio_ramiro.Args.{word_at}
use laboratorio_ramiro.Prelude.{
  ◌%◌, ◌≢◌, some, ltb, false, ◌==◌, refl, leb, true, ◌+◌, inr, ◌*◌, suc, zero, ◌∙◌, arith, ◌<◌, inl,
  ◌^◌, ◌⊎◌, ◌≤◌, ◌≡◌, ℕ, Bool-cases,
}
use laboratorio_ramiro.Fs.Inode.{
  iblock, Disk, Super, iupdate, ilock, store_word, ndirect, half_at, load_dinode, Inode,
  store_dinode, store_addrs, store_half,
}
use laboratorio_ramiro.CString.{Memory}
use laboratorio_ramiro.Fs.Bitmap.{AreBytes}
use laboratorio_ramiro.Fs.Inode.Slots.{
  word_at-store_word_ne, store_word-AreBytes, word_at-store_word_self, store_word-outside,
}

store_half-AreBytes : (m : Memory) (a h : ℕ) → AreBytes m → AreBytes (store_half m a h)
unfolding store_half
store_half-AreBytes m a h b x = ground (arith, b x)

store_addrs-AreBytes :
    (m : Memory) (a : ℕ) (f : ℕ → ℕ) (n : ℕ) → AreBytes m → AreBytes (store_addrs m a f n)
unfolding store_addrs
store_addrs-AreBytes m a f zero h = h
store_addrs-AreBytes m a f (suc n) h =
    store_word-AreBytes _ (a + 4 * n) (f n) (store_addrs-AreBytes m a f n h)

pub store_dinode-AreBytes :
    (m : Memory) (a : ℕ) (ip : Inode) → AreBytes m → AreBytes (store_dinode m a ip)
unfolding store_dinode
store_dinode-AreBytes m a ip h = store_addrs-AreBytes _ (a + 12) ip.addrs (ndirect + 1) (
    store_word-AreBytes _ (a + 8) ip.size (
      store_half-AreBytes _ (a + 6) ip.nlink (
        store_half-AreBytes _ (a + 4) ip.minor
          (store_half-AreBytes _ (a + 2) ip.major (store_half-AreBytes m a ip.type h)))))

store_half-outside : (m : Memory) (a h x : ℕ) → (x < a) ⊎ (a + 2 ≤ x) → store_half m a h x ≡ m x
unfolding store_half
store_half-outside m a h x out = ground arith

half_at-store_half_self : (m : Memory) (a h : ℕ) → h < 2 ^ 16 → half_at (store_half m a h) a ≡ h
unfolding store_half
half_at-store_half_self m a h small = ground arith

half_at-store_half_ne :
    (m : Memory) (a b h : ℕ)
    → (b + 2 ≤ a) ⊎ (a + 2 ≤ b)
    → half_at (store_half m a h) b ≡ half_at m b
half_at-store_half_ne m a b h out = omega (
  arith,
  store_half-outside m a h b (omega arith),
  store_half-outside m a h (b + 1) (omega arith),
)

half_at-store_word :
    (m : Memory) (a b w : ℕ)
    → (b + 2 ≤ a) ⊎ (a + 4 ≤ b)
    → half_at (store_word m a w) b ≡ half_at m b
half_at-store_word m a b w out = omega (
  arith,
  store_word-outside m a w b (omega arith),
  store_word-outside m a w (b + 1) (omega arith),
)

store_addrs-outside :
    (m : Memory) (a : ℕ) (f : ℕ → ℕ) (n x : ℕ)
    → (x < a) ⊎ (a + 4 * n ≤ x)
    → store_addrs m a f n x ≡ m x
unfolding store_addrs
store_addrs-outside m a f zero x out = refl
store_addrs-outside m a f (suc n) x out =
    store_word-outside _ (a + 4 * n) (f n) x (omega arith)
    ∙ store_addrs-outside m a f n x (omega arith)

store_addrs-inside :
    (m : Memory) (a : ℕ) (f : ℕ → ℕ) (n k : ℕ)
    → k < n
    → f k < 2 ^ 32
    → word_at (store_addrs m a f n) (a + 4 * k) ≡ f k
unfolding store_addrs
store_addrs-inside m a f zero k l small = absurd (omega arith)
store_addrs-inside m a f (suc n) k l small = elim (Bool-cases (k == n)) [
  | inl last ↦
      let at : n ≡ k = ground arith in rw at (word_at-store_word_self _ (a + 4 * k) (f k) small)
  | inr before ↦
      word_at-store_word_ne _ (a + 4 * n) (a + 4 * k) (f n) (ground arith)
      ∙ store_addrs-inside m a f n k (ground arith) small
]

-- The fields of an inode fit in their places on the disk.
pub record FitsDisk (ip : Inode) : Type 0 where
  pub type : ip.type < 2 ^ 16
  pub major : ip.major < 2 ^ 16
  pub minor : ip.minor < 2 ^ 16
  pub nlink : ip.nlink < 2 ^ 16
  pub size : ip.size < 2 ^ 32
  pub addrs : (k : ℕ) → k ≤ ndirect → ip.addrs k < 2 ^ 32

-- The same type, device numbers, links, size and addresses.
pub record SameFile (ip' ip : Inode) : Type 0 where
  pub type : ip'.type ≡ ip.type
  pub major : ip'.major ≡ ip.major
  pub minor : ip'.minor ≡ ip.minor
  pub nlink : ip'.nlink ≡ ip.nlink
  pub size : ip'.size ≡ ip.size
  pub addrs : (k : ℕ) → k ≤ ndirect → ip'.addrs k ≡ ip.addrs k

load_dinode-store_dinode :
    (m : Memory) (a : ℕ) (ip jp : Inode)
    → FitsDisk ip
    → SameFile (load_dinode (store_dinode m a ip) a jp) ip
unfolding load_dinode store_dinode
load_dinode-store_dinode m a ip jp fits =
    let h1 = store_half m a ip.type in
    let h2 = store_half h1 (a + 2) ip.major in
    let h3 = store_half h2 (a + 4) ip.minor in
    let h4 = store_half h3 (a + 6) ip.nlink in
    let w = store_word h4 (a + 8) ip.size in
    let low : (x : ℕ) → x < a + 12 → store_addrs w (a + 12) ip.addrs (ndirect + 1) x ≡ w x =
      λ x l. store_addrs-outside w (a + 12) ip.addrs (ndirect + 1) x (inl l) in
    let half : (x : ℕ)
        → x + 2 ≤ a + 8
        → half_at (store_addrs w (a + 12) ip.addrs (ndirect + 1)) x ≡ half_at h4 x =
      λ x l. omega (
        arith,
        low x (omega arith),
        low (x + 1) (omega arith),
        half_at-store_word h4 (a + 8) x ip.size (inl l),
      ) in
    record {
      type =
          half a (omega arith)
          ∙ half_at-store_half_ne h3 (a + 6) a ip.nlink (omega arith)
          ∙ half_at-store_half_ne h2 (a + 4) a ip.minor (omega arith)
          ∙ half_at-store_half_ne h1 (a + 2) a ip.major (omega arith)
          ∙ half_at-store_half_self m a ip.type fits.type;
      major =
          half (a + 2) (omega arith)
          ∙ half_at-store_half_ne h3 (a + 6) (a + 2) ip.nlink (omega arith)
          ∙ half_at-store_half_ne h2 (a + 4) (a + 2) ip.minor (omega arith)
          ∙ half_at-store_half_self h1 (a + 2) ip.major fits.major;
      minor =
          half (a + 4) (omega arith)
          ∙ half_at-store_half_ne h3 (a + 6) (a + 4) ip.nlink (omega arith)
          ∙ half_at-store_half_self h2 (a + 4) ip.minor fits.minor;
      nlink = half (a + 6) (omega arith) ∙ half_at-store_half_self h3 (a + 6) ip.nlink fits.nlink;
      size = omega (
        arith,
        low (a + 8) (omega arith),
        low (a + 8 + 1) (omega arith),
        low (a + 8 + 2) (omega arith),
        low (a + 8 + 3) (omega arith),
        word_at-store_word_self h4 (a + 8) ip.size fits.size,
      );
      addrs = λ k l.
          let near : leb k ndirect ≡ true = ground arith in
          rw near
            (store_addrs-inside w (a + 12) ip.addrs (ndirect + 1) k (omega arith) (fits.addrs k l));
    }

-- The type is what `ialloc` reads.
pub half_at-store_dinode :
    (m : Memory) (a : ℕ) (ip : Inode) → ip.type < 2 ^ 16 → half_at (store_dinode m a ip) a ≡ ip.type
unfolding store_dinode
half_at-store_dinode m a ip small =
    let h1 = store_half m a ip.type in
    let h2 = store_half h1 (a + 2) ip.major in
    let h3 = store_half h2 (a + 4) ip.minor in
    let h4 = store_half h3 (a + 6) ip.nlink in
    let w = store_word h4 (a + 8) ip.size in
    let low : (x : ℕ) → x < a + 12 → store_addrs w (a + 12) ip.addrs (ndirect + 1) x ≡ w x =
      λ x l. store_addrs-outside w (a + 12) ip.addrs (ndirect + 1) x (inl l) in
    omega (arith, low a (omega arith), low (a + 1) (omega arith))
    ∙ half_at-store_word h4 (a + 8) a ip.size (omega arith)
    ∙ half_at-store_half_ne h3 (a + 6) a ip.nlink (omega arith)
    ∙ half_at-store_half_ne h2 (a + 4) a ip.minor (omega arith)
    ∙ half_at-store_half_ne h1 (a + 2) a ip.major (omega arith)
    ∙ half_at-store_half_self m a ip.type small

-- The bytes outside the 64 of the inode stay.
store_dinode-outside :
    (m : Memory) (a : ℕ) (ip : Inode) (x : ℕ) → (x < a) ⊎ (a + 64 ≤ x) → store_dinode m a ip x ≡ m x
unfolding store_dinode
store_dinode-outside m a ip x out =
    store_addrs-outside _ (a + 12) ip.addrs (ndirect + 1) x (omega arith)
    ∙ store_word-outside _ (a + 8) ip.size x (omega arith)
    ∙ store_half-outside _ (a + 6) ip.nlink x (omega arith)
    ∙ store_half-outside _ (a + 4) ip.minor x (omega arith)
    ∙ store_half-outside _ (a + 2) ip.major x (omega arith)
    ∙ store_half-outside m a ip.type x (omega arith)

-- After `iupdate` of an inode of some type, `ilock` of a reference to it that has not been read yet reads back
-- its type, device numbers, links, size and addresses.
pub ilock-iupdate :
    (sb : Super) (d : Disk) (ip jp : Inode)
    → FitsDisk ip
    → ip.type ≢ 0
    → jp.inum ≡ ip.inum
    → jp.valid ≡ false
    → 0 < jp.ref
    → (kp : Inode) × (ilock sb (iupdate sb ip d) jp ≡ some kp) × SameFile kp ip × (kp.valid ≡ true)
unfolding ilock iupdate
ilock-iupdate sb d ip jp fits some_type number unread held =
    let b = iblock sb ip.inum in
    let a = ip.inum % 8 * 64 in
    let m = store_dinode (d b) a ip in
    let s = load_dinode-store_dinode (d b) a ip jp fits in
    let here : (b == b) ≡ true = ground arith in
    let refs : ltb jp.ref 1 ≡ false = ground arith in
    let typed : ((load_dinode m a jp).type == 0) ≡ false = ground (arith, s.type) in
    (
      record (load_dinode m a jp) { valid = true },
      rw (number, here, refs, unread, typed),
      record {
        type = s.type;
        major = s.major;
        minor = s.minor;
        nlink = s.nlink;
        size = s.size;
        addrs = s.addrs;
      },
      refl,
    )

-- `iupdate` of one inode leaves the 64 bytes of any other as they were.
pub iupdate_other :
    (sb : Super) (d : Disk) (ip jp : Inode)
    → jp.inum ≢ ip.inum
    → (x : ℕ) → x < 64
    → iupdate sb ip d (iblock sb jp.inum) (jp.inum % 8 * 64 + x)
      ≡ d (iblock sb jp.inum) (jp.inum % 8 * 64 + x)
unfolding iupdate
iupdate_other sb d ip jp ne x l = elim (Bool-cases (iblock sb jp.inum == iblock sb ip.inum)) [
  | inr other ↦ rw other
  | inl same ↦
      let at : iblock sb jp.inum ≡ iblock sb ip.inum = ground arith in
      rw (same, at)
        (store_dinode-outside (d (iblock sb ip.inum)) (ip.inum % 8 * 64) ip (jp.inum % 8 * 64 + x)
          (omega arith))
]
