-- ===== src/Fs/Dir/Lookup.antt =====
-- `dirlookup` finds the first entry with the name.
use laboratorio_ramiro.CString.{Memory}
use laboratorio_ramiro.CString.Copy.{within}
use laboratorio_ramiro.Fs.{Disk, Super, block_size}
use laboratorio_ramiro.Fs.Alloc.{IsDisk}
use laboratorio_ramiro.Fs.Inode.{half_at, Inode, maxfile}
use laboratorio_ramiro.Fs.Inode.Slots.{IsFile}
use laboratorio_ramiro.Fs.Content.{readi, moved}
use laboratorio_ramiro.Fs.Content.Bytes.{byte}
use laboratorio_ramiro.Fs.Content.Whole.{readi-IsRead}
use laboratorio_ramiro.Fs.Dir.Names.{
  same_name, same_name_cong, is_equal-strncmp, entry_inum, is_entry,
}
use laboratorio_ramiro.Prelude.{
  ap, ◌*◌, arith, ◌<◌, ◌==◌, true, ◌∙◌, not, ◌||◌, ◌≡◌, Bool, ◌-◌, false, ◌≤◌, ◌+◌, ℕ,
}
use laboratorio_ramiro.Fs.Dir.{is_equal, namecmp}

-- The directory is a file of the disk, of at most `MAXFILE` blocks.
pub record IsDir (sb : Super) (d : Disk) (dp : Inode) : Type 0 where
  pub disk : IsDisk sb d
  pub file : IsFile sb d dp
  pub bounded : dp.size ≤ maxfile * block_size

-- Reading has left the directory's content as it was.
pub record SameContent (sb : Super) (d : Disk) (dp : Inode) (d' : Disk) (dp' : Inode) : Type 0 where
  pub dir : IsDir sb d' dp'
  pub size : dp'.size ≡ dp.size
  pub bytes : (o : ℕ) → o < maxfile * block_size → byte d' dp' o ≡ byte d dp o

-- What has been read of entry `j`.
pub record IsEntryRead (sb : Super) (d : Disk) (dp : Inode) (m : Memory) (j : ℕ) (m1 : Memory)
    (d1 : Disk) (dp1 : Inode) : Type 0 where
  pub content : SameContent sb d dp d1 dp1
  pub entry : (i : ℕ) → i < 16 → m1 i ≡ byte d dp (16 * j + i)
  pub behind : (i : ℕ) → 16 ≤ i → m1 i ≡ m i

pub entry-IsEntryRead :
    (sb : Super) (has_read : ℕ → Bool) (d : Disk) (dp : Inode) (m : Memory) (j k : ℕ) {m1 : Memory}
    {d1 : Disk} {dp1 : Inode}
    → IsDir sb d dp
    → 16 * j < dp.size
    → readi sb has_read dp m (16 * j) 16 d ≡ moved k (m1, dp1, d1)
    → k ≡ 16
    → IsEntryRead sb d dp m j m1 d1 dp1
entry-IsEntryRead sb has_read d dp m j k {m1} v l e full =
    let (amount, r) =
      readi-IsRead sb has_read dp m (16 * j) 16 d v.disk v.file v.bounded (omega (arith, v.bounded))
        (omega arith) e in
    record {
      content = record {
        dir = record { disk = r.disk; file = r.file; bounded = omega (arith, r.size, v.bounded) };
        size = r.size;
        bytes = r.bytes;
      };
      entry = λ i li.
          let here : within 0 (k - 0) i ≡ true = ground arith in
          let place : i - 0 ≡ i = omega arith in r.copied i ∙ (rw (here, place));
      behind = λ i li. let out : within 0 (k - 0) i ≡ false = ground arith in r.copied i ∙ (rw out);
    }

-- The test of the loop is that of the entry in the file.
pub read-is_entry :
    (sb : Super) (d : Disk) (dp : Inode) (m : Memory) (j name : ℕ) (m1 : Memory) (d1 : Disk)
    (dp1 : Inode)
    → 16 ≤ name
    → IsEntryRead sb d dp m j m1 d1 dp1
    → (half_at m1 0 ≡ entry_inum d dp j)
      × ((half_at m1 0 == 0 || not (is_equal (namecmp m1 name 2))) ≡ not (is_entry d dp m name j))
unfolding entry_inum is_entry namecmp
read-is_entry sb d dp m j name m1 d1 dp1 high h =
    let p0 : 16 * j + 0 ≡ 16 * j = omega arith in
    let lowest : m1 0 ≡ byte d dp (16 * j) = h.entry 0 (omega arith) ∙ ap (byte d dp) p0 in
    let next : m1 1 ≡ byte d dp (16 * j + 1) = h.entry 1 (omega arith) in
    let same : same_name (λ i. m1 (name + i)) (λ i. m1 (2 + i)) 14
        ≡ same_name (λ i. m (name + i)) (λ i. byte d dp (16 * j + 2 + i)) 14 =
      same_name_cong _ _ _ _ 14 (λ i l. h.behind (name + i) (omega arith))
        (λ i l. h.entry (2 + i) (omega arith) ∙ ap (byte d dp) (omega arith)) in
    let compared = is_equal-strncmp m1 name 2 14 ∙ same in
    (ground (arith, lowest, next), ground (arith, lowest, next, compared))

-- Entries from `j` on, once the memory and the directory have been read into.
pub same-is_entry :
    (sb : Super) (d : Disk) (dp : Inode) (m : Memory) (name : ℕ) (m1 : Memory) (d1 : Disk)
    (dp1 : Inode) (i : ℕ)
    → 16 ≤ name
    → ((x : ℕ) → 16 ≤ x → m1 x ≡ m x)
    → SameContent sb d dp d1 dp1
    → IsDir sb d dp
    → 16 * i < dp.size
    → (is_entry d1 dp1 m1 name i ≡ is_entry d dp m name i)
      × (entry_inum d1 dp1 i ≡ entry_inum d dp i)
unfolding entry_inum is_entry
same-is_entry sb d dp m name m1 d1 dp1 i high behind s v l =
    let b0 = s.bytes (16 * i) (omega (arith, v.bounded)) in
    let b1 = s.bytes (16 * i + 1) (omega (arith, v.bounded)) in
    let names : same_name (λ x. m1 (name + x)) (λ x. byte d1 dp1 (16 * i + 2 + x)) 14
        ≡ same_name (λ x. m (name + x)) (λ x. byte d dp (16 * i + 2 + x)) 14 =
      same_name_cong _ _ _ _ 14 (λ x lx. behind (name + x) (omega arith))
        (λ x lx. s.bytes (16 * i + 2 + x) (omega (arith, v.bounded))) in
    (ground (arith, b0, b1, names), ground (arith, b0, b1))
