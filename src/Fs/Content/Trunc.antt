-- ===== src/Fs/Content/Trunc.antt =====
-- What the loops of `itrunc` free.
use laboratorio_ramiro.Prelude.{
  ◌≤◌, ◌≡◌, arith, false, ◌&&◌, ℕ, ◌||◌, ◌≢◌, Bool, true, not, inl, zero, ◌∙◌, suc, ◌<◌, ◌==◌, inr,
  ◌+◌, Bool-cases, refl,
}
use laboratorio_ramiro.Fs.{Disk, Super}
use laboratorio_ramiro.Fs.Inode.Slots.{IsData}
use laboratorio_ramiro.Fs.Alloc.{is_used, IsFreed, data_start, IsDisk}

-- One of the `n` numbers from place `j` on is `x`.
pub hits : (ℕ → ℕ) → ℕ → ℕ → ℕ → Bool
hits f j zero x = false
hits f j (suc n) x = f j == x || hits f (j + 1) n x

pub hits-at : (f : ℕ → ℕ) (j n k : ℕ) → j ≤ k → k < j + n → hits f j n (f k) ≡ true
unfolding hits
hits-at f j zero k lo hi = absurd (omega arith)
hits-at f j (suc n) k lo hi = elim (Bool-cases (j == k)) [
  | inl here ↦
      let e : j ≡ k = ground arith in let same : (f k == f k) ≡ true = ground arith in rw (e, same)
  | inr later ↦
      let rest = hits-at f (j + 1) n k (ground arith) (omega arith) in ground (arith, rest)
]

pub hits-none :
    (f : ℕ → ℕ) (j n x : ℕ) → ((k : ℕ) → j ≤ k → k < j + n → f k ≢ x) → hits f j n x ≡ false
unfolding hits
hits-none f j zero x h = refl
hits-none f j (suc n) x h =
    let off : (f j == x) ≡ false = ground (arith, h j) in
    rw off (hits-none f (j + 1) n x (λ k lo hi. h k (omega arith) (omega arith)))

-- The blocks to be freed are data in use, and all different.
pub record AreBlocks (sb : Super) (d : Disk) (f : ℕ → ℕ) (j n : ℕ) : Type 0 where
  pub in_use : (k : ℕ) → j ≤ k → k < j + n → f k ≢ 0 → IsData sb d (f k)
  pub distinct : (i k : ℕ) → j ≤ i → i < j + n → j ≤ k → k < j + n → f i ≢ 0 → f i ≡ f k → i ≡ k

-- They have been freed, and no other.
pub record AreFreed (sb : Super) (d : Disk) (f : ℕ → ℕ) (j n : ℕ) (d' : Disk) : Type 0 where
  pub disk : IsDisk sb d'
  pub used :
      (x : ℕ)
      → data_start sb ≤ x
      → x < sb.size
      → is_used sb d' x ≡ (is_used sb d x && not (hits f j n x))
  pub kept : (x : ℕ) → data_start sb ≤ x → d' x ≡ d x
  pub before_map : (x : ℕ) → x < sb.bmapstart → d' x ≡ d x

pub none-AreFreed :
    (sb : Super) (d : Disk) (f : ℕ → ℕ) (j : ℕ) → IsDisk sb d → AreFreed sb d f j 0 d
unfolding hits
none-AreFreed sb d f j v = record {
  disk = v;
  used = λ x lo l. ground arith;
  kept = λ x lo. refl;
  before_map = λ x l. refl;
}

module _ (sb : Super) (d : Disk) (f : ℕ → ℕ) (j n : ℕ) where
  -- There is no block at place `j`.
  pub skip-AreBlocks : AreBlocks sb d f j (suc n) → AreBlocks sb d f (j + 1) n
  skip-AreBlocks b = record {
    in_use = λ k lo hi. b.in_use k (omega arith) (omega arith);
    distinct =
        λ i k li hi lk hk. b.distinct i k (omega arith) (omega arith) (omega arith) (omega arith);
  }

  pub skip-AreFreed :
      (d' : Disk) → f j ≡ 0 → AreFreed sb d f (j + 1) n d' → AreFreed sb d f j (suc n) d'
  unfolding hits
  skip-AreFreed d' z h = record {
    disk = h.disk;
    used = λ x lo l. let off : (f j == x) ≡ false = ground arith in rw off (h.used x lo l);
    kept = h.kept;
    before_map = h.before_map;
  }

  module _ (v : IsDisk sb d) (d1 : Disk) (freed : IsFreed sb d v (f j) d1) where
    pub free-AreBlocks : AreBlocks sb d f j (suc n) → f j ≢ 0 → AreBlocks sb d1 f (j + 1) n
    free-AreBlocks b nz = record {
      in_use = λ k lo hi nk.
          let g = b.in_use k (omega arith) (omega arith) nk in
          let ne : (f k == f j) ≡ false = elim (Bool-cases (f k == f j)) [
            | inr off ↦ off
            | inl same ↦
                let e =
                  b.distinct j k (omega arith) (omega arith) (omega arith) (omega arith) nz
                    (ground arith) in
                absurd (omega arith)
          ] in
          record {
            behind = g.behind;
            inside = g.inside;
            used = ground (arith, freed.used (f k) g.inside, ne, g.used);
          };
      distinct =
          λ i k li hi lk hk. b.distinct i k (omega arith) (omega arith) (omega arith) (omega arith);
    }

    pub free-AreFreed :
        (d' : Disk)
        → data_start sb ≤ f j
        → f j < sb.size
        → AreFreed sb d1 f (j + 1) n d'
        → AreFreed sb d f j (suc n) d'
    unfolding hits
    free-AreFreed d' behind inside h = record {
      disk = h.disk;
      used = λ x lo l. ground (arith, h.used x lo l, freed.used x l);
      kept = λ x lo. h.kept x lo ∙ freed.kept x (omega arith);
      before_map = λ x l. h.before_map x l ∙ freed.kept x (omega arith);
    }
