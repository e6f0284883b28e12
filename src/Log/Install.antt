-- ===== src/Log/Install.antt =====
-- `install_trans`: what it leaves on the disk and in the cache, wherever the power fails.
use laboratorio_ramiro.Prelude.{
  mem, All, Bool-cases, List, [], ap, arith, false, get_or, inl, inr, length, refl, suc, true, ℕ,
  ◌+◌, ◌-◌, ◌<◌, ◌∙◌, ◌∷◌, ◌≡◌, ◌≢◌, ◌≤◌,
}
use laboratorio_ramiro.Log.Disk.{Block, Machine, bread, view}
use laboratorio_ramiro.Log.{install_trans}
use laboratorio_ramiro.Log.Loops.{IsHome, copied, disk-copied, fuse-copied, view-copied}

module _ (start size : ℕ) where
  -- `install_trans` from `tail` on, over the blocks `bs`, from `m` to `m'`.
  pub record IsInstalled (tail : ℕ) (bs : List ℕ) (m m' : Machine) : Type 0 where
    pub fuse : m'.fuse ≡ m.fuse - length bs
    pub disk_out : (x : ℕ) → mem x bs ≡ false → m'.disk x ≡ m.disk x
    pub view_out : (x : ℕ) → mem x bs ≡ false → view m' x ≡ view m x
    -- With the power gone nothing reaches the disk.
    pub lost : m.fuse ≡ 0 → (x : ℕ) → m'.disk x ≡ m.disk x
    -- If the slots hold what `v` says of the blocks, then so do the blocks.
    pub blocks :
        (v : ℕ → Block)
        → length bs ≤ m.fuse
        → ((k : ℕ) → k < length bs → view m (start + tail + 1 + k) ≡ v (get_or bs k 0))
        → (x : ℕ) → mem x bs ≡ true
        → m'.disk x ≡ v x

  IsInstalled-cons :
      (tail b : ℕ) (bs : List ℕ) {m m' : Machine} (d : Block)
      → d ≡ view m (start + tail + 1)
      → IsHome start size b
      → tail + length (b ∷ bs) < size
      → IsInstalled (tail + 1) bs (copied m (start + tail + 1) b b d) m'
      → IsInstalled tail (b ∷ bs) m m'
  IsInstalled-cons tail b bs {m} {m'} d e home fits ok = record {
    fuse = omega (arith, ok.fuse, fuse-copied m s b b d);
    disk_out = λ x out. ok.disk_out x (ground arith) ∙ disk-copied m s b b d x ∙ ground arith;
    view_out = λ x out. ok.view_out x (ground arith) ∙ view-copied m s b b d x ∙ ground arith;
    lost = λ off x.
        ok.lost (omega (arith, fuse-copied m s b b d)) x ∙ disk-copied m s b b d x ∙ ground arith;
    blocks = λ v enough held x in_list. elim (Bool-cases (mem x bs)) [
      | inl later ↦ ok.blocks v (omega (arith, fuse-copied m s b b d)) (kept v held) x later
      | inr last ↦
          let first : d ≡ v b = e ∙ ap (view m) (omega arith) ∙ held 0 (omega arith) in
          ok.disk_out x last ∙ disk-copied m s b b d x ∙ ground arith
    ];
  }
    where
      s : ℕ
      s = start + tail + 1

      kept :
          (v : ℕ → Block)
          → ((k : ℕ) → k < length (b ∷ bs) → view m (s + k) ≡ v (get_or (b ∷ bs) k 0))
          → (k : ℕ) → k < length bs
          → view (copied m s b b d) (start + (tail + 1) + 1 + k) ≡ v (get_or bs k 0)
      kept v held k l =
          let at : start + (tail + 1) + 1 + k ≡ s + suc k = omega arith in
          let apart : s + suc k ≢ b = omega arith in
          let same : view (copied m s b b d) (s + suc k) ≡ view m (s + suc k) =
            view-copied m s b b d (s + suc k) ∙ ground arith in
          ap (view (copied m s b b d)) at ∙ same ∙ held (suc k) (omega arith)

  pub install_trans-IsInstalled :
      (tail : ℕ) (bs : List ℕ) (m : Machine)
      → All (IsHome start size) bs
      → tail + length bs < size
      → IsInstalled tail bs m (install_trans start tail bs m)
  unfolding install_trans copied bread
  install_trans-IsInstalled tail [] m home fits = record {
    fuse = omega arith;
    disk_out = λ x out. refl;
    view_out = λ x out. refl;
    lost = λ off x. refl;
    blocks = λ v enough held x in_list. absurd (cc);
  }
  install_trans-IsInstalled tail (b ∷ bs) m home fits =
      IsInstalled-cons tail b bs (view m (start + tail + 1)) refl home.0 fits (
        install_trans-IsInstalled (tail + 1) bs (copied m (start + tail + 1) b b _) home.1
          (omega arith))
