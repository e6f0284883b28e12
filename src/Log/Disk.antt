-- ===== src/Log/Disk.antt =====
-- What xv6/log.c sees of xv6/bio.c and of the disk: `bread` and `bwrite`, with a block as its 128
-- words of 32 bits. The power fails after `fuse` more writes have reached the disk: the code runs on,
-- and its later writes are lost. `reboot` then keeps the disk and loses the buffer cache.
use laboratorio_ramiro.Prelude.{
  List, Option, arith, if◌then◌else◌, ltb, none, refl, some, ℕ, ◌&&◌, ◌-◌, ◌==◌, ◌≡◌,
}

abbrev pub Block : Type 0
Block = List ℕ

abbrev pub bsize : ℕ
bsize = 128

pub record Machine : Type 0 where
  pub disk : ℕ → Block
  pub cache : ℕ → Option Block
  pub fuse : ℕ

abbrev pub update {ℓ} : {A : Type ℓ} → (ℕ → A) → ℕ → A → ℕ → A
update f k a x = if x == k then a else f x

abbrev pub cached : Option Block → Block → Block
cached none d = d
cached (some b) d = b

-- What a buffer of block `b` holds, cached or read.
abbrev pub view : Machine → ℕ → Block
view m b = cached (m.cache b) (m.disk b)

-- The data of the buffer, and the machine with the block cached.
unfoldable pub bread : Machine → ℕ → Block × Machine
bread m b = (view m b, record m { cache = update m.cache b (some (view m b)) })

-- `data` is what the caller has put in the buffer of block `b`.
unfoldable pub bwrite : Machine → ℕ → Block → Machine
bwrite m b d = record {
  disk = if ltb 0 m.fuse then update m.disk b d else m.disk;
  cache = update m.cache b (some d);
  fuse = m.fuse - 1;
}

unfoldable pub reboot : (ℕ → Block) → ℕ → Machine
reboot d k = record { disk = d; cache = λ _. none; fuse = k }

pub disk-bread : (m : Machine) (b x : ℕ) → (bread m b).1.disk x ≡ m.disk x
unfolding bread
disk-bread m b x = refl

pub fuse-bread : (m : Machine) (b : ℕ) → (bread m b).1.fuse ≡ m.fuse
unfolding bread
fuse-bread m b = refl

pub view-bread : (m : Machine) (b x : ℕ) → view (bread m b).1 x ≡ view m x
unfolding bread
view-bread m b x = ground arith

pub view-bwrite :
    (m : Machine) (b : ℕ) (d : Block) (x : ℕ)
    → view (bwrite m b d) x ≡ (if x == b then d else view m x)
unfolding bwrite
view-bwrite m b d x = ground arith

pub disk-bwrite :
    (m : Machine) (b : ℕ) (d : Block) (x : ℕ)
    → (bwrite m b d).disk x ≡ (if ltb 0 m.fuse && x == b then d else m.disk x)
unfolding bwrite
disk-bwrite m b d x = ground arith

pub fuse-bwrite : (m : Machine) (b : ℕ) (d : Block) → (bwrite m b d).fuse ≡ m.fuse - 1
unfolding bwrite
fuse-bwrite m b d = refl
