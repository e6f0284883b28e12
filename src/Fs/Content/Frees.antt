-- ===== src/Fs/Content/Frees.antt =====
-- The two loops of `itrunc`.
use laboratorio_ramiro.Args.{word_at}
use laboratorio_ramiro.Prelude.{
  ◌==◌, ◌∙◌, some, ◌≤◌, suc, inl, arith, ◌<◌, Bool-cases, ◌+◌, refl, ◌≡◌, ◌≢◌, false, ◌*◌, zero, ap,
  ◌⊎◌, inr, ℕ,
}
use laboratorio_ramiro.Fs.Content.Trunc.{
  none-AreFreed, free-AreFreed, free-AreBlocks, skip-AreFreed, skip-AreBlocks, AreFreed, AreBlocks,
}
use laboratorio_ramiro.Fs.Content.{bfree, set_addr, Disk, Super, free_direct, free_table}
use laboratorio_ramiro.Fs.Inode.{Inode}
use laboratorio_ramiro.Fs.Alloc.{bfree-IsFreed, data_start, IsDisk}

free_table-skip :
    (sb : Super) (n j t : ℕ) (d : Disk)
    → word_at (d t) (4 * j) ≡ 0
    → free_table sb (suc n) j t d ≡ free_table sb n (j + 1) t d
unfolding free_table
free_table-skip sb n j t d e = ground (arith, e)

free_table-free :
    (sb : Super) (n j t a : ℕ) (d d1 : Disk)
    → word_at (d t) (4 * j) ≡ a
    → a ≢ 0
    → bfree sb a d ≡ some d1
    → free_table sb (suc n) j t d ≡ free_table sb n (j + 1) t d1
unfolding free_table
free_table-free sb n j t a d d1 e nz freed =
    let there : (word_at (d t) (4 * j) == 0) ≡ false = ground arith in
    let freed' : bfree sb (word_at (d t) (4 * j)) d ≡ some d1 = ap (λ x. bfree sb x d) e ∙ freed in
    ground (arith, there, freed')

free_direct-skip :
    (sb : Super) (n i : ℕ) (ip : Inode) (d : Disk)
    → ip.addrs i ≡ 0
    → free_direct sb (suc n) i ip d ≡ free_direct sb n (i + 1) ip d
unfolding free_direct
free_direct-skip sb n i ip d e = ground (arith, e)

free_direct-free :
    (sb : Super) (n i a : ℕ) (ip : Inode) (d d1 : Disk)
    → ip.addrs i ≡ a
    → a ≢ 0
    → bfree sb a d ≡ some d1
    → free_direct sb (suc n) i ip d ≡ free_direct sb n (i + 1) (set_addr ip i 0) d1
unfolding free_direct
free_direct-free sb n i a ip d d1 e nz freed =
    let there : (ip.addrs i == 0) ≡ false = ground arith in
    let freed' : bfree sb (ip.addrs i) d ≡ some d1 = ap (λ x. bfree sb x d) e ∙ freed in
    ground (arith, there, freed')

pub free_table-AreFreed :
    (sb : Super) (n j t : ℕ) (d : Disk) (f : ℕ → ℕ)
    → IsDisk sb d
    → data_start sb ≤ t
    → ((k : ℕ) → word_at (d t) (4 * k) ≡ f k)
    → AreBlocks sb d f j n
    → (d' : Disk) × (free_table sb n j t d ≡ some d') × AreFreed sb d f j n d'
unfolding free_table
free_table-AreFreed sb zero j t d f v behind words b = (d, refl, none-AreFreed sb d f j v)
free_table-AreFreed sb (suc n) j t d f v behind words b = elim (Bool-cases (f j == 0)) [
  | inl empty ↦
      let (d', e, h) =
        free_table-AreFreed sb n (j + 1) t d f v behind words (skip-AreBlocks sb d f j n b) in
      (
        d',
        free_table-skip sb n j t d (words j ∙ ground arith) ∙ e,
        skip-AreFreed sb d f j n d' (ground arith) h,
      )
  | inr full ↦
      let nz : f j ≢ 0 = ground arith in
      let g = b.in_use j (omega arith) (omega arith) nz in
      let (d1, e1, freed, v1) = bfree-IsFreed sb d v (f j) g.behind g.inside g.used in
      let words1 : (k : ℕ) → word_at (d1 t) (4 * k) ≡ f k =
        λ k. ap (λ m. word_at m (4 * k)) (freed.kept t (omega arith)) ∙ words k in
      let (d', e, h) =
        free_table-AreFreed sb n (j + 1) t d1 f v1 behind words1
          (free-AreBlocks sb d f j n v d1 freed b nz) in
      (
        d',
        free_table-free sb n j t (f j) d d1 (words j) nz e1 ∙ e,
        free-AreFreed sb d f j n v d1 freed d' g.behind g.inside h,
      )
]

-- What the first loop leaves of the inode.
pub record IsCleared (i n : ℕ) (ip ip' : Inode) : Type 0 where
  pub cleared : (k : ℕ) → i ≤ k → k < i + n → ip'.addrs k ≡ 0
  pub stays : (k : ℕ) → (k < i) ⊎ (i + n ≤ k) → ip'.addrs k ≡ ip.addrs k
  pub rest : ip' ≡ record ip { addrs = ip'.addrs }

pub free_direct-AreFreed :
    (sb : Super) (n i : ℕ) (ip : Inode) (d : Disk) (f : ℕ → ℕ)
    → IsDisk sb d
    → ((k : ℕ) → i ≤ k → ip.addrs k ≡ f k)
    → AreBlocks sb d f i n
    → (ip' : Inode) × (d' : Disk) × (free_direct sb n i ip d ≡ some (ip', d'))
      × AreFreed sb d f i n d'
      × IsCleared i n ip ip'
unfolding free_direct
free_direct-AreFreed sb zero i ip d f v same b = (
  ip,
  d,
  refl,
  none-AreFreed sb d f i v,
  record { cleared = λ k lo hi. absurd (omega arith); stays = λ k out. refl; rest = refl },
)
free_direct-AreFreed sb (suc n) i ip d f v same b = elim (Bool-cases (f i == 0)) [
  | inl empty ↦
      let (ip', d', e, h, c) =
        free_direct-AreFreed sb n (i + 1) ip d f v (λ k lo. same k (omega arith))
          (skip-AreBlocks sb d f i n b) in
      (
        ip',
        d',
        free_direct-skip sb n i ip d (same i (omega arith) ∙ ground arith) ∙ e,
        skip-AreFreed sb d f i n d' (ground arith) h,
        record {
          cleared = λ k lo hi. elim (Bool-cases (k == i)) [
            | inl here ↦
                let at : k ≡ i = ground arith in
                c.stays k (inl (omega arith)) ∙ same k lo ∙ ap f at ∙ ground arith
            | inr later ↦ c.cleared k (ground arith) (omega arith)
          ];
          stays = λ k out. c.stays k (omega arith);
          rest = c.rest;
        },
      )
  | inr full ↦
      let nz : f i ≢ 0 = ground arith in
      let g = b.in_use i (omega arith) (omega arith) nz in
      let (d1, e1, freed, v1) = bfree-IsFreed sb d v (f i) g.behind g.inside g.used in
      let ip1 = set_addr ip i 0 in
      let same1 : (k : ℕ) → i + 1 ≤ k → ip1.addrs k ≡ f k =
        λ k lo. let off : (k == i) ≡ false = ground arith in rw off (same k (omega arith)) in
      let (ip', d', e, h, c) =
        free_direct-AreFreed sb n (i + 1) ip1 d1 f v1 same1
          (free-AreBlocks sb d f i n v d1 freed b nz) in
      (
        ip',
        d',
        free_direct-free sb n i (f i) ip d d1 (same i (omega arith)) nz e1 ∙ e,
        free-AreFreed sb d f i n v d1 freed d' g.behind g.inside h,
        record {
          cleared = λ k lo hi. elim (Bool-cases (k == i)) [
            | inl here ↦ c.stays k (inl (ground arith)) ∙ (rw here)
            | inr later ↦ c.cleared k (ground arith) (omega arith)
          ];
          stays = λ k out.
              let off : (k == i) ≡ false = ground arith in c.stays k (omega arith) ∙ (rw off);
          rest = c.rest;
        },
      )
]
