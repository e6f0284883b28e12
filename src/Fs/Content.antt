-- ===== src/Fs/Content.antt =====
-- xv6/fs.c: the content of files, `itrunc`, `readi` and `writei`. A device's own routine is not the file
-- system's: the result `device` stands for its call, where `devsw` has one.
pub mod Bytes
pub mod Round
pub mod Write
pub mod Read
pub mod Whole
pub mod RoundTrip
pub mod Trunc
pub mod Frees
pub mod Emptied
pub mod Itrunc
use laboratorio_ramiro.CString.Copy.{within}
use laboratorio_ramiro.Args.{word_at}
use laboratorio_ramiro.Prelude.{
  false, true, ◌%◌, ◌||◌, some, ◌/◌, leb, not, if◌then◌else◌, zero, ◌^◌, ◌==◌, Bool, ltb, ◌*◌, none,
  ℕ, suc, Option, ◌&&◌, ◌-◌, min, ◌+◌,
}
use laboratorio_ramiro.Fs.{put_block, bfree, Disk, block_size, Super}
use laboratorio_ramiro.CString.{Memory}
use laboratorio_ramiro.Fs.Inode.{nindirect, set_addr, maxfile, iupdate, bmap, ndirect, Inode}

-- The first loop of `itrunc`, from place `i` on with `n` rounds to go.
unfoldable pub free_direct : Super → ℕ → ℕ → Inode → Disk → Option (Inode × Disk)
free_direct sb zero i ip d = some (ip, d)
free_direct sb (suc n) i ip d = elim (ip.addrs i == 0) [
  | true ↦ free_direct sb n (i + 1) ip d
  | false ↦ elim (bfree sb (ip.addrs i) d) [
    | none ↦ none
    | some d1 ↦ free_direct sb n (i + 1) (set_addr ip i 0) d1
  ]
]

-- The second loop, over the table in block `t`.
unfoldable pub free_table : Super → ℕ → ℕ → ℕ → Disk → Option Disk
free_table sb zero j t d = some d
free_table sb (suc n) j t d = elim (word_at (d t) (4 * j) == 0) [
  | true ↦ free_table sb n (j + 1) t d
  | false ↦ elim (bfree sb (word_at (d t) (4 * j)) d) [
    | none ↦ none
    | some d1 ↦ free_table sb n (j + 1) t d1
  ]
]

unfoldable pub free_indirect : Super → Inode → Disk → Option (Inode × Disk)
free_indirect sb ip d = elim (ip.addrs ndirect == 0) [
  | true ↦ some (ip, d)
  | false ↦ elim (free_table sb nindirect 0 (ip.addrs ndirect) d) [
    | none ↦ none
    | some d1 ↦ elim (bfree sb (ip.addrs ndirect) d1) [
      | none ↦ none
      | some d2 ↦ some (set_addr ip ndirect 0, d2)
    ]
  ]
]

unfoldable pub itrunc : Super → Inode → Disk → Option (Inode × Disk)
itrunc sb ip d = elim (free_direct sb ndirect 0 ip d) [
  | none ↦ none
  | some (ip1, d1) ↦ elim (free_indirect sb ip1 d1) [
    | none ↦ none
    | some (ip2, d2) ↦ some (record ip2 { size = 0 }, iupdate sb (record ip2 { size = 0 }) d2)
  ]
]

-- `memmove(dst + at, src + from, n)` between two memories.
abbrev pub copy_bytes : Memory → ℕ → Memory → ℕ → ℕ → Memory
copy_bytes dst at src from n = λ i. if within at n i then src (from + (i - at)) else dst i

abbrev pub chunk : ℕ → ℕ → ℕ → ℕ
chunk tot n off = min (n - tot) (block_size - off % block_size)

-- The loops of `readi` and `writei`. A round moves at least a byte, so `n` rounds are enough.
unfoldable pub read_from :
    Super → ℕ → Memory → ℕ → ℕ → ℕ → Inode → Disk → Option (Memory × Inode × Disk)
read_from sb zero dst tot n off ip d = some (dst, ip, d)
read_from sb (suc f) dst tot n off ip d = elim (ltb tot n) [
  | false ↦ some (dst, ip, d)
  | true ↦ elim (bmap sb ip (off / block_size) d) [
    | none ↦ none
    | some (a, ip1, d1) ↦
        read_from sb f (copy_bytes dst tot (d1 a) (off % block_size) (chunk tot n off))
          (tot + chunk tot n off) n (off + chunk tot n off) ip1 d1
  ]
]

unfoldable pub write_from :
    Super → ℕ → Memory → ℕ → ℕ → ℕ → Inode → Disk → Option (ℕ × Inode × Disk)
write_from sb zero src tot n off ip d = some (off, ip, d)
write_from sb (suc f) src tot n off ip d = elim (ltb tot n) [
  | false ↦ some (off, ip, d)
  | true ↦ elim (bmap sb ip (off / block_size) d) [
    | none ↦ none
    | some (a, ip1, d1) ↦
        write_from sb f src (tot + chunk tot n off) n (off + chunk tot n off) ip1
          (put_block d1 a (copy_bytes (d1 a) (off % block_size) src tot (chunk tot n off)))
  ]
]

pub data Io {ℓ} (A : Type ℓ) : Type ℓ where
  panics : Io A
  fails : Io A
  device : Io A
  moved : ℕ → A → Io A

abbrev pub t_dev : ℕ
t_dev = 3

abbrev pub ndev : ℕ
ndev = 10

-- A negative `major` has bits above `ndev`. `has_read` tells which devices have a routine.
unfoldable pub device_io {ℓ} : {A : Type ℓ} → (ℕ → Bool) → ℕ → Io A
device_io has_routine major = if leb ndev major || not (has_routine major) then fails else device

unfoldable pub readi :
    Super → (ℕ → Bool) → Inode → Memory → ℕ → ℕ → Disk → Io (Memory × Inode × Disk)
unfolding device_io
readi sb has_read ip dst off n d =
    let last = (off + n) % 2 ^ 32 in
    let count = if ltb ip.size last then ip.size - off else n in
    let loop : Io (Memory × Inode × Disk) = elim (read_from sb count dst 0 count off ip d) [
      | none ↦ panics
      | some r ↦ moved count r
    ] in
    if ip.type == t_dev
    then device_io has_read ip.major
    else if ltb ip.size off || ltb last off
    then fails
    else loop

unfoldable pub grow : Super → ℕ → ℕ → Inode → Disk → Inode × Disk
grow sb n off ip d =
    let ip1 = record ip { size = off } in
    if ltb 0 n && ltb ip.size off then (ip1, iupdate sb ip1 d) else (ip, d)

unfoldable pub writei : Super → (ℕ → Bool) → Inode → Memory → ℕ → ℕ → Disk → Io (Inode × Disk)
unfolding device_io grow
writei sb has_write ip src off n d =
    let last = (off + n) % 2 ^ 32 in
    let loop : Io (Inode × Disk) = elim (write_from sb n src 0 n off ip d) [
      | none ↦ panics
      | some (off', ip1, d1) ↦ moved n (grow sb n off' ip1 d1)
    ] in
    if ip.type == t_dev
    then device_io has_write ip.major
    else if ltb ip.size off || ltb last off
    then fails
    else if ltb (maxfile * block_size) last
    then fails
    else loop
