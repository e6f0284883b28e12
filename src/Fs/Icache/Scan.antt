-- ===== src/Fs/Icache/Scan.antt =====
-- The loop of `iget`: what it finds, and what `iget` does then.
use laboratorio_ramiro.Prelude.{
  Option, Option-cases, sym, some, Bool-cases, ◌⊎◌, ◌==◌, ◌≡◌, suc, ◌+◌, arith, refl, zero, ◌<◌,
  inr, inl, ◌≤◌, none, false, true, ◌≢◌, ◌∙◌, ℕ,
}
use laboratorio_ramiro.Fs.Icache.{
  recycled, put_inode, idup, remember, Scanned, ninode, absent, cached, is_cached, iget, iget_with,
  iget_scan, Icache,
}

-- What the loop of `iget` answers.
pub record IsAbsent (c : Icache) (dev inum n i : ℕ) (empty o : Option ℕ) : Type 0 where
  pub nowhere : (k : ℕ) → i ≤ k → k < i + n → is_cached dev inum (c k) ≡ false
  pub free : (k : ℕ) → o ≡ some k → (empty ≡ some k) ⊎ ((k < i + n) × ((c k).ref ≡ 0))
  pub all_used : o ≡ none → (k : ℕ) → i ≤ k → k < i + n → (c k).ref ≢ 0
  pub empty_kept : (k : ℕ) → empty ≡ some k → o ≡ some k

pub iget_scan-cached :
    (c : Icache) (dev inum n i : ℕ) (empty : Option ℕ) {k : ℕ}
    → iget_scan c dev inum n i empty ≡ cached k
    → (k < i + n) × (is_cached dev inum (c k) ≡ true)
unfolding iget_scan
iget_scan-cached c dev inum zero i empty e = absurd (cc)
iget_scan-cached c dev inum (suc n) i empty {k} e = elim (Bool-cases (is_cached dev inum (c i))) [
  | inl here ↦ let at : k ≡ i = ground arith in (omega arith, rw at here)
  | inr other ↦
      let (l, h) =
        iget_scan-cached c dev inum n (i + 1) (remember c i empty) {k = k} (ground arith) in
      (omega arith, h)
]

pub iget_scan-absent :
    (c : Icache) (dev inum n i : ℕ) (empty : Option ℕ) {o : Option ℕ}
    → iget_scan c dev inum n i empty ≡ absent o
    → IsAbsent c dev inum n i empty o
unfolding iget_scan
iget_scan-absent c dev inum zero i empty {o} e =
    let same : empty ≡ o = ground arith in
    record {
      nowhere = λ k a b. absurd (omega arith);
      free = λ k h. inl (same ∙ h);
      all_used = λ h k a b. absurd (omega arith);
      empty_kept = λ k h. sym same ∙ h;
    }
iget_scan-absent c dev inum (suc n) i empty {o} e = elim (Bool-cases (is_cached dev inum (c i))) [
  | inl here ↦ absurd (ground arith)
  | inr other ↦
      let r : IsAbsent c dev inum n (i + 1) (remember c i empty) o =
        iget_scan-absent c dev inum n (i + 1) (remember c i empty) (ground arith) in
      let none_before : o ≡ none → remember c i empty ≡ none = λ h.
        elim (Option-cases (remember c i empty)) [
          | inl e' ↦ e'
          | inr (x, e') ↦ let found = r.empty_kept x e' in absurd (cc)
        ] in
      record {
        nowhere = λ k a b. elim (Bool-cases (k == i)) [
          | inl here ↦ let at : k ≡ i = ground arith in rw at other
          | inr past ↦ r.nowhere k (ground arith) (omega arith)
        ];
        free = λ k h. ground (arith, r.free k h);
        all_used = λ h k a b. elim (Bool-cases (k == i)) [
          | inl here ↦ ground (arith, none_before h)
          | inr past ↦ r.all_used h k (ground arith) (omega arith)
        ];
        empty_kept = λ k h. r.empty_kept k (ground arith);
      }
]

-- `iget` found the inode at `i`, or it took a free entry there.
pub data IsGot (c : Icache) (dev inum i : ℕ) (c' : Icache) : Type 0 where
  hits : i < ninode → is_cached dev inum (c i) ≡ true → c' ≡ idup i c → IsGot c dev inum i c'
  takes :
      i < ninode
      → (c i).ref ≡ 0
      → ((k : ℕ) → k < ninode → is_cached dev inum (c k) ≡ false)
      → c' ≡ put_inode c i (recycled dev inum (c i))
      → IsGot c dev inum i c'

iget_with-IsGot :
    (c : Icache) (dev inum : ℕ) (s : Scanned) {i : ℕ} {c' : Icache}
    → iget_scan c dev inum ninode 0 none ≡ s
    → iget_with s dev inum c ≡ some (i, c')
    → IsGot c dev inum i c'
unfolding iget_with
iget_with-IsGot c dev inum (cached k) {i} {c'} scan e =
    let at : i ≡ k = ground arith in
    let same : c' ≡ idup i c = ground (arith, at) in
    let (l, h) = iget_scan-cached c dev inum ninode 0 none scan in
    hits (ground (arith, l)) (rw at h) same
iget_with-IsGot c dev inum (absent none) scan e = absurd (ground arith)
iget_with-IsGot c dev inum (absent (some k)) {i} {c'} scan e =
    let at : i ≡ k = ground arith in
    let same : c' ≡ put_inode c i (recycled dev inum (c i)) = ground (arith, at) in
    let r = iget_scan-absent c dev inum ninode 0 none scan in
    let inside : (k < ninode) × ((c k).ref ≡ 0) = ground (arith, r.free k refl) in
    takes (omega (arith, inside.0)) (rw at inside.1) (λ j l. r.nowhere j (omega arith) l) same

pub iget-IsGot :
    (c : Icache) (dev inum : ℕ) {i : ℕ} {c' : Icache}
    → iget dev inum c ≡ some (i, c')
    → IsGot c dev inum i c'
unfolding iget
iget-IsGot c dev inum e = iget_with-IsGot c dev inum (iget_scan c dev inum ninode 0 none) refl e
