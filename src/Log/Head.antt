-- ===== src/Log/Head.antt =====
-- The header block: what `write_head` writes is what `read_head` reads.
use laboratorio_ramiro.Prelude.{
  List, [], ap, ap₂, arith, get_or, get_or-set_ne, get_or-set_self, if◌then◌else◌, length,
  length-set, ltb, refl, set, ℕ, ◌&&◌, ◌+◌, ◌-◌, ◌<◌, ◌==◌, ◌∙◌, ◌∷◌, ◌≡◌, ◌≤◌,
}
use laboratorio_ramiro.Log.Disk.{
  Block, Machine, bread, bwrite, disk-bwrite, view, view-bwrite, view-bread,
}
use laboratorio_ramiro.Log.{write_head, read_words, write_words}

get_or-write_words :
    (j i : ℕ) (bs : List ℕ) (buf : Block)
    → j < i
    → get_or (write_words i bs buf) j 0 ≡ get_or buf j 0
unfolding write_words
get_or-write_words j i [] buf l = refl
get_or-write_words j i (b ∷ bs) buf l =
    get_or-write_words j (i + 1) bs (set buf i b) (omega arith)
    ∙ get_or-set_ne buf {i = i} {j = j} b 0 (omega arith)

read_words-write_words :
    (i : ℕ) (bs : List ℕ) (buf : Block)
    → i + length bs ≤ length buf
    → read_words i (length bs) (write_words i bs buf) ≡ bs
unfolding read_words write_words
read_words-write_words i [] buf l = refl
read_words-write_words i (b ∷ bs) buf l =
    ap₂ ◌∷◌
      (get_or-write_words i (i + 1) bs (set buf i b) (omega arith)
        ∙ get_or-set_self buf i b 0 (omega arith))
      (read_words-write_words (i + 1) bs (set buf i b) (omega (arith, length-set buf i b)))

-- The blocks that a header block lists.
unfoldable pub listed : Block → List ℕ
listed buf = read_words 1 (get_or buf 0 0) buf

-- The header block that lists `bs`, written over `buf`.
unfoldable pub header : List ℕ → Block → Block
header bs buf = write_words 1 bs (set buf 0 (length bs))

pub listed-header :
    (bs : List ℕ) (buf : Block) → 1 + length bs ≤ length buf → listed (header bs buf) ≡ bs
unfolding listed header
listed-header bs buf l =
    let count =
      get_or-write_words 0 1 bs (set buf 0 (length bs)) (omega arith)
      ∙ get_or-set_self buf 0 (length bs) 0 (omega arith) in
    rw count (
      read_words-write_words 1 bs (set buf 0 (length bs))
        (omega (arith, length-set buf 0 (length bs))))

pub disk-write_head :
    (start : ℕ) (bs : List ℕ) (m : Machine) (x : ℕ)
    → (write_head start bs m).disk x
      ≡ (if ltb 0 m.fuse && x == start then header bs (view m start) else m.disk x)
unfolding write_head header bread
disk-write_head start bs m x = disk-bwrite (bread m start).1 start _ x

pub view-write_head :
    (start : ℕ) (bs : List ℕ) (m : Machine) (x : ℕ)
    → view (write_head start bs m) x ≡ (if x == start then header bs (view m start) else view m x)
unfolding write_head header bread
view-write_head start bs m x =
    view-bwrite (bread m start).1 start _ x
    ∙ ap (λ v. if x == start then header bs (view m start) else v) (view-bread m start x)

pub fuse-write_head :
    (start : ℕ) (bs : List ℕ) (m : Machine) → (write_head start bs m).fuse ≡ m.fuse - 1
unfolding write_head bread bwrite
fuse-write_head start bs m = refl

pub listed-header_nil : (buf : Block) → listed (header [] buf) ≡ []
unfolding listed header write_words read_words
listed-header_nil [] = refl
listed-header_nil (w ∷ buf) = refl
