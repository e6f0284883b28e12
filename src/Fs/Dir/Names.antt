-- ===== src/Fs/Dir/Names.antt =====
-- Names of at most 14 bytes, and the entries of a directory in the bytes of its file.
use laboratorio_ramiro.CString.{strncmp, Memory}
use laboratorio_ramiro.Fs.{Disk}
use laboratorio_ramiro.Fs.Inode.{Inode}
use laboratorio_ramiro.Fs.Content.Bytes.{byte}
use laboratorio_ramiro.Prelude.{
  zero, true, suc, ◌≡◌, refl, if◌then◌else◌, not, false, ◌<◌, ◌&&◌, ap, ◌==◌, ◌*◌, Bool, ◌+◌, arith,
  ℕ,
}
use laboratorio_ramiro.Fs.Dir.{is_equal}

-- Two names are the same up to their NULs, or in all of their `n` bytes.
unfoldable pub same_name : (ℕ → ℕ) → (ℕ → ℕ) → ℕ → Bool
same_name f g zero = true
same_name f g (suc n) =
    let rest = same_name (λ i. f (suc i)) (λ i. g (suc i)) n in
    if f 0 == g 0 then if f 0 == 0 then true else rest else false

pub same_name_cong :
    (f f' g g' : ℕ → ℕ) (n : ℕ)
    → ((i : ℕ) → i < n → f i ≡ f' i)
    → ((i : ℕ) → i < n → g i ≡ g' i)
    → same_name f g n ≡ same_name f' g' n
unfolding same_name
same_name_cong f f' g g' zero hf hg = refl
same_name_cong f f' g g' (suc n) hf hg =
    let rest =
      same_name_cong (λ i. f (suc i)) (λ i. f' (suc i)) (λ i. g (suc i)) (λ i. g' (suc i)) n
        (λ i l. hf (suc i) (omega arith)) (λ i l. hg (suc i) (omega arith)) in
    ground (arith, hf 0 (omega arith), hg 0 (omega arith), rest)

pub is_equal-strncmp :
    (m : Memory) (p q n : ℕ)
    → is_equal (strncmp m p q n) ≡ same_name (λ i. m (p + i)) (λ i. m (q + i)) n
unfolding same_name strncmp
is_equal-strncmp m p q zero = refl
is_equal-strncmp m p q (suc n) =
    let rest = is_equal-strncmp m (p + 1) (q + 1) n in
    let same =
      same_name_cong (λ i. m (p + 1 + i)) (λ i. m (p + suc i)) (λ i. m (q + 1 + i))
        (λ i. m (q + suc i)) n (λ i l. ap m (omega arith)) (λ i l. ap m (omega arith)) in
    let p0 : p + 0 ≡ p = omega arith in
    let q0 : q + 0 ≡ q = omega arith in rw (p0, q0) (ground (arith, rest, same))

-- Entry `j` of a directory: the number of its inode, and whether it is in use and has the name at `name`.
unfoldable pub entry_inum : Disk → Inode → ℕ → ℕ
entry_inum d dp j = byte d dp (16 * j) + byte d dp (16 * j + 1) * 256

unfoldable pub is_entry : Disk → Inode → Memory → ℕ → ℕ → Bool
is_entry d dp m name j =
    not (entry_inum d dp j == 0)
    && same_name (λ i. m (name + i)) (λ i. byte d dp (16 * j + 2 + i)) 14
