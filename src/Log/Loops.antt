-- ===== src/Log/Loops.antt =====
-- One round of the copying loops of the log, and `write_log`: what it leaves on the disk and in the
-- cache, wherever the power fails.
use laboratorio_ramiro.Prelude.{
  All, All-get_or, List, [], ap, arith, get_or, if◌then◌else◌, length, ltb, refl, suc, zero, ℕ,
  ◌&&◌, ◌+◌, ◌-◌, ◌<◌, ◌==◌, ◌∙◌, ◌∷◌, ◌≡◌, ◌≢◌, ◌≤◌, ◌⊎◌,
}
use laboratorio_ramiro.Log.Disk.{
  Block, Machine, bread, bwrite, disk-bwrite, view, view-bread, view-bwrite,
}
use laboratorio_ramiro.Log.{write_log}

-- A block outside the log, which has `size` blocks from `start` on.
abbrev pub IsHome : ℕ → ℕ → ℕ → Type 0
IsHome start size b = (b < start) ⊎ (start + size ≤ b)

-- One round of either loop: block `t` gets `d`, after reads of `a` and `b`.
module _ (m : Machine) (a b t : ℕ) (d : Block) where
  unfoldable pub copied : Machine
  copied = bwrite (bread (bread m a).1 b).1 t d

  pub view-copied : (x : ℕ) → view copied x ≡ (if x == t then d else view m x)
  unfolding copied
  view-copied x =
      view-bwrite _ t _ x
      ∙ ap (λ v. if x == t then d else v) (view-bread (bread m a).1 b x ∙ view-bread m a x)

  pub disk-copied : (x : ℕ) → copied.disk x ≡ (if ltb 0 m.fuse && x == t then d else m.disk x)
  unfolding copied bread
  disk-copied x = disk-bwrite (bread (bread m a).1 b).1 t d x

  pub fuse-copied : copied.fuse ≡ m.fuse - 1
  unfolding copied bread bwrite
  fuse-copied = refl

module _ (start size : ℕ) where
  -- `write_log` from `tail` on, over the blocks `bs`, from `m` to `m'`.
  pub record IsLogged (tail : ℕ) (bs : List ℕ) (m m' : Machine) : Type 0 where
    pub fuse : m'.fuse ≡ m.fuse - length bs
    pub disk_out :
        (x : ℕ) → (x ≤ start + tail) ⊎ (start + tail + length bs < x) → m'.disk x ≡ m.disk x
    pub view_out :
        (x : ℕ) → (x ≤ start + tail) ⊎ (start + tail + length bs < x) → view m' x ≡ view m x
    pub slots :
        length bs ≤ m.fuse
        → (k : ℕ) → k < length bs
        → m'.disk (start + tail + 1 + k) ≡ view m (get_or bs k 0)
    pub views : (k : ℕ) → k < length bs → view m' (start + tail + 1 + k) ≡ view m (get_or bs k 0)

  pub home-slot :
      {b : ℕ} (tail : ℕ)
      → IsHome start size b
      → start + tail + 1 < start + size
      → b ≢ start + tail + 1
  home-slot tail h l = omega arith

  IsLogged-cons :
      (tail b : ℕ) (bs : List ℕ) {m m' : Machine} (d : Block)
      → d ≡ view m b
      → All (IsHome start size) (b ∷ bs)
      → tail + length (b ∷ bs) < size
      → IsLogged (tail + 1) bs (copied m (start + tail + 1) b (start + tail + 1) d) m'
      → IsLogged tail (b ∷ bs) m m'
  IsLogged-cons tail b bs {m} {m'} d e home fits ok = record {
    fuse = omega (arith, ok.fuse, fuse-copied m s b s d);
    disk_out = λ x out. ok.disk_out x (omega arith) ∙ disk-copied m s b s d x ∙ ground arith;
    view_out = λ x out. ok.view_out x (omega arith) ∙ view-copied m s b s d x ∙ ground arith;
    slots = λ enough. elim [
      | zero ↦ λ l.
          ap m'.disk here ∙ ok.disk_out s (omega arith) ∙ disk-copied m s b s d s ∙ ground arith
      | suc k ↦ λ l.
          ap m'.disk (there k)
          ∙ ok.slots (omega (arith, fuse-copied m s b s d)) k (omega arith)
          ∙ same k (omega arith)
    ];
    views = elim [
      | zero ↦ λ l.
          ap (view m') here ∙ ok.view_out s (omega arith) ∙ view-copied m s b s d s ∙ ground arith
      | suc k ↦ λ l. ap (view m') (there k) ∙ ok.views k (omega arith) ∙ same k (omega arith)
    ];
  }
    where
      s : ℕ
      s = start + tail + 1

      here : s + 0 ≡ s
      here = omega arith

      there : (k : ℕ) → s + suc k ≡ start + (tail + 1) + 1 + k
      there k = omega arith

      same :
          (k : ℕ) → k < length bs → view (copied m s b s d) (get_or bs k 0) ≡ view m (get_or bs k 0)
      same k l =
          let apart =
            home-slot tail (All-get_or (IsHome start size) bs k 0 home.1 l) (omega arith) in
          view-copied m s b s d (get_or bs k 0) ∙ ground arith

  pub write_log-IsLogged :
      (tail : ℕ) (bs : List ℕ) (m : Machine)
      → All (IsHome start size) bs
      → tail + length bs < size
      → IsLogged tail bs m (write_log start tail bs m)
  unfolding write_log copied bread
  write_log-IsLogged tail [] m home fits = record {
    fuse = omega arith;
    disk_out = λ x out. refl;
    view_out = λ x out. refl;
    slots = λ enough k l. absurd (omega arith);
    views = λ k l. absurd (omega arith);
  }
  write_log-IsLogged tail (b ∷ bs) m home fits =
      IsLogged-cons tail b bs (view (bread m s).1 b) (view-bread m s b) home fits
        (write_log-IsLogged (tail + 1) bs (copied m s b s _) home.1 (omega arith))
    where
      s : ℕ
      s = start + tail + 1
