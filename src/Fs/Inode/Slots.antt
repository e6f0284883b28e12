-- ===== src/Fs/Inode/Slots.antt =====
-- The blocks of a file.
use laboratorio_ramiro.Args.{word_at}
use laboratorio_ramiro.Prelude.{
  ◌/◌, ◌%◌, ◌⊎◌, ◌<◌, if◌then◌else◌, ◌+◌, ◌≡◌, ◌^◌, ◌*◌, ◌-◌, Bool-cases, ◌==◌, ◌≢◌, ◌≤◌, true, inl,
  inr, arith, ℕ, ltb,
}
use laboratorio_ramiro.Fs.{Super, Disk}
use laboratorio_ramiro.Fs.Inode.{maxfile, ndirect, Inode, store_word}
use laboratorio_ramiro.CString.{Memory}
use laboratorio_ramiro.Fs.Alloc.{is_used, data_start}
use laboratorio_ramiro.Fs.Bitmap.{AreBytes}

-- The block number of place `k` in the file, or 0.
unfoldable pub slot : Disk → Inode → ℕ → ℕ
slot d ip k =
    if ltb k ndirect
    then ip.addrs k
    else if ip.addrs ndirect == 0
    then 0
    else word_at (d (ip.addrs ndirect)) (4 * (k - ndirect))

-- A block of the data in use.
pub record IsData (sb : Super) (d : Disk) (a : ℕ) : Type 0 where
  pub behind : data_start sb ≤ a
  pub inside : a < sb.size
  pub used : is_used sb d a ≡ true

-- The blocks of a file are data in use and all different, the table among them.
pub record IsFile (sb : Super) (d : Disk) (ip : Inode) : Type 0 where
  pub mine : (k : ℕ) → k < maxfile → slot d ip k ≢ 0 → IsData sb d (slot d ip k)
  pub table : ip.addrs ndirect ≢ 0 → IsData sb d (ip.addrs ndirect)
  pub distinct :
      (i j : ℕ) → i < maxfile → j < maxfile → slot d ip i ≢ 0 → slot d ip i ≡ slot d ip j → i ≡ j
  pub apart : (k : ℕ) → k < maxfile → slot d ip k ≢ 0 → slot d ip k ≢ ip.addrs ndirect

pub store_word-inside :
    (m : Memory) (a w : ℕ)
    → (store_word m a w a ≡ w % 256)
      × (store_word m a w (a + 1) ≡ w / 256 % 256)
      × (store_word m a w (a + 2) ≡ w / 65536 % 256)
      × (store_word m a w (a + 3) ≡ w / 16777216 % 256)
unfolding store_word
store_word-inside m a w = (ground arith, ground arith, ground arith, ground arith)

pub store_word-outside : (m : Memory) (a w x : ℕ) → (x < a) ⊎ (a + 4 ≤ x) → store_word m a w x ≡ m x
unfolding store_word
store_word-outside m a w x out = ground arith

pub word_at-store_word_self : (m : Memory) (a w : ℕ) → w < 2 ^ 32 → word_at (store_word m a w) a ≡ w
word_at-store_word_self m a w small = let (b0, b1, b2, b3) = store_word-inside m a w in omega arith

pub word_at-store_word_ne :
    (m : Memory) (a b w : ℕ)
    → (b + 4 ≤ a) ⊎ (a + 4 ≤ b)
    → word_at (store_word m a w) b ≡ word_at m b
word_at-store_word_ne m a b w out = omega (
  arith,
  store_word-outside m a w b (omega arith),
  store_word-outside m a w (b + 1) (omega arith),
  store_word-outside m a w (b + 2) (omega arith),
  store_word-outside m a w (b + 3) (omega arith),
)

pub word_at-store_word :
    (m : Memory) (i j w : ℕ)
    → w < 2 ^ 32
    → word_at (store_word m (4 * i) w) (4 * j) ≡ (if j == i then w else word_at m (4 * j))
word_at-store_word m i j w small = elim (Bool-cases (j == i)) [
  | inl here ↦
      let at : j ≡ i = ground arith in
      let same : (i == i) ≡ true = ground arith in
      rw (at, same) (word_at-store_word_self m (4 * i) w small)
  | inr there ↦ rw there (word_at-store_word_ne m (4 * i) (4 * j) w (ground arith))
]

pub store_word-AreBytes : (m : Memory) (a w : ℕ) → AreBytes m → AreBytes (store_word m a w)
unfolding store_word
store_word-AreBytes m a w h x = ground (arith, h x)

pub word_at-zero : (m : Memory) (a : ℕ) → ((i : ℕ) → m i ≡ 0) → word_at m a ≡ 0
word_at-zero m a z = omega (arith, z a, z (a + 1), z (a + 2), z (a + 3))
