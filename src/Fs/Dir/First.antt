-- ===== src/Fs/Dir/First.antt =====
-- `dirlookup` as a whole.
use laboratorio_ramiro.Kalloc.Owners.{count}
use laboratorio_ramiro.CString.{Memory}
use laboratorio_ramiro.Fs.{Disk, Super}
use laboratorio_ramiro.Fs.Inode.{Inode}
use laboratorio_ramiro.Fs.Icache.{Icache, iget}
use laboratorio_ramiro.Fs.Icache.Counts.{Reach, iget-keeps}
use laboratorio_ramiro.Fs.Dir.{
  get_entry, entry, look_from, dirlookup, missing, panics_there, Looked,
}
use laboratorio_ramiro.Prelude.{
  Option-cases, List, some, Option, none, ◌<◌, suc, ◌≤◌, true, ◌∙◌, Bool, false, arith, inr, inl,
  ◌*◌, ◌≡◌, ℕ,
}
use laboratorio_ramiro.Fs.Dir.Lookup.{IsDir, SameContent}
use laboratorio_ramiro.Fs.Dir.Names.{entry_inum, is_entry}
use laboratorio_ramiro.Fs.Dir.Loop.{look_from-IsLooked, IsLooked}

-- What `dirlookup` answers.
pub data Answers (sb : Super) (d : Disk) (dp : Inode) (m : Memory) (name : ℕ) (held : List ℕ)
    : Option (ℕ × ℕ × Icache) → Type 0 where
  not_there :
      ((j : ℕ) → 16 * j < dp.size → is_entry d dp m name j ≡ false)
      → Answers sb d dp m name held none
  there :
      {i : ℕ} {c' : Icache} (j : ℕ)
      → 16 * j < dp.size
      → is_entry d dp m name j ≡ true
      → ((k : ℕ) → k < j → is_entry d dp m name k ≡ false)
      → (c' i).dev ≡ dp.dev
      → (c' i).inum ≡ entry_inum d dp j
      → (c' i).ref ≡ suc (count i held)
      → Answers sb d dp m name held (some (16 * j, i, c'))

looked-Answers :
    (sb : Super) (d : Disk) (dp : Inode) (m : Memory) (name : ℕ) (c : Icache) (held : List ℕ)
    (r : Looked) (o : Option (ℕ × ℕ × Icache)) (m' : Memory) (dp' : Inode) (d' : Disk)
    → Reach (c, held)
    → IsLooked sb d dp m name 0 r
    → get_entry dp c r ≡ some (o, m', dp', d')
    → Answers sb d dp m name held o × SameContent sb d dp d' dp'
unfolding get_entry
looked-Answers sb d dp m name c held panics_there o m' dp' d' r h e = absurd (ground arith)
looked-Answers sb d dp m name c held (missing m1 dp1 d1) o m' dp' d' r h e =
    let none_found : none ≡ o = ground arith in
    let node : dp1 ≡ dp' = ground arith in
    let disk : d1 ≡ d' = ground arith in
    rw (← none_found, ← node, ← disk) (not_there (λ j l. h.nowhere j (omega arith) l), h.content)
looked-Answers sb d dp m name c held (entry off inum m1 dp1 d1) o m' dp' d' r h e =
    elim (Option-cases (iget dp.dev inum c)) [
      | inl full ↦ absurd (ground arith)
      | inr ((i, c1), got) ↦
          let (same_dev, same_inum, ref, others, whole) =
            iget-keeps c c1 held dp.dev inum i r got in
          let found : some (off, i, c1) ≡ o = ground arith in
          let node : dp1 ≡ dp' = ground arith in
          let disk : d1 ≡ d' = ground arith in
          let inside : 16 * h.at < dp.size = omega (arith, h.inside, h.offset) in
          rw (← found, ← node, ← disk, h.offset)
            (
              there h.at inside h.here (λ k l. h.earlier k (omega arith) l) same_dev
                  (same_inum ∙ h.number) ref,
              h.content,
            )
    ]

-- On a directory of a disk, with at most `MAXFILE` blocks, and with the cache of inodes in a reachable state:
-- where `dirlookup` does not panic, it answers the first entry in use that has the name, as its offset
-- and a counted entry of the cache for its inode on the same device; or none, and then no entry in
-- use has the name. The content of the directory stays as it was.
pub dirlookup-Answers :
    (sb : Super) (has_read : ℕ → Bool) (dp : Inode) (name : ℕ) (m : Memory) (c : Icache)
    (held : List ℕ) (d : Disk) {o : Option (ℕ × ℕ × Icache)} {m' : Memory} {dp' : Inode} {d' : Disk}
    → IsDir sb d dp
    → 16 ≤ name
    → Reach (c, held)
    → dirlookup sb has_read dp name m c d ≡ some (o, m', dp', d')
    → Answers sb d dp m name held o × SameContent sb d dp d' dp'
unfolding dirlookup
dirlookup-Answers sb has_read dp name m c held d {o} {m'} {dp'} {d'} v high r e =
    let looked = look_from sb has_read name dp.size 0 m dp d in
    let got : get_entry dp c looked ≡ some (o, m', dp', d') = ground arith in
    looked-Answers sb d dp m name c held looked o m' dp' d' r
      (look_from-IsLooked sb has_read name dp.size 0 m dp d v high (omega arith)) got
