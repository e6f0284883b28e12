-- ===== src/Fs/Alloc.antt =====
-- What `balloc` and `bfree` do to the blocks.
use laboratorio_ramiro.Fs.Bitmap.{
  unmark-AreBytes, find_bit-none, find_bit-some, mark-AreBytes, is_set-unmark, is_set-mark,
  AreBytes,
}
use laboratorio_ramiro.Prelude.{
  ◌^◌, Option-cases, suc, some, zero, none, ◌-◌, inl, ltb, ap, Bool-cases, not, ◌∙◌, inr, ◌&&◌, ◌≡◌,
  false, ◌≤◌, Bool, ℕ, ◌%◌, arith, ◌/◌, ◌<◌, ◌==◌, ◌||◌, true, ◌≢◌, ◌+◌,
}
use laboratorio_ramiro.Fs.{
  Memory, bfree, find_bit, balloc, balloc_from, put_block, bzero, unmark, mark, bblock, take_block,
  is_set, bpb, Disk, Super,
}

-- The map's bit of a block.
abbrev pub is_used : Super → Disk → ℕ → Bool
is_used sb d b = is_set (d (bblock sb b)) (b % bpb)

-- The first block behind the map, as mkfs lays the disk out.
abbrev pub data_start : Super → ℕ
data_start sb = sb.bmapstart + sb.size / bpb + 1

-- The blocks before the data, those of the map among them, are in use.
pub record IsDisk (sb : Super) (d : Disk) : Type 0 where
  pub bytes : (b : ℕ) → AreBytes (d b)
  pub reserved : (b : ℕ) → b < data_start sb → is_used sb d b ≡ true
  pub room : data_start sb ≤ sb.size
  pub small : sb.size < 2 ^ 32

-- Block `a` of the data has been taken, and zeroed.
pub record IsTaken (sb : Super) (d : Disk) (a : ℕ) (d' : Disk) : Type 0 where
  pub inside : a < sb.size
  pub behind : data_start sb ≤ a
  pub was_free : is_used sb d a ≡ false
  pub used : (x : ℕ) → x < sb.size → is_used sb d' x ≡ (x == a || is_used sb d x)
  pub zero_bytes : (i : ℕ) → d' a i ≡ 0
  pub kept : (x : ℕ) → data_start sb ≤ x → x ≢ a → d' x ≡ d x
  pub before_map : (x : ℕ) → x < sb.bmapstart → d' x ≡ d x

-- Blocks with their bits in one block of the map have different bits.
same_bit : (sb : Super) (x a : ℕ) → bblock sb x ≡ bblock sb a → (x % bpb == a % bpb) ≡ (x == a)
same_bit sb x a e = ground arith

module _ (sb : Super) (d : Disk) (v : IsDisk sb d) where
  -- The map once bit of block `a` is changed, and `a` itself perhaps.
  other_map :
      (d' : Disk) (a x : ℕ)
      → bblock sb x ≢ bblock sb a
      → ((y : ℕ) → y < data_start sb → y ≢ bblock sb a → d' y ≡ d y)
      → x < sb.size
      → is_used sb d' x ≡ is_used sb d x
  other_map d' a x ne same inside =
      ap (λ m. is_set m (x % bpb)) (same (bblock sb x) (omega arith) ne)

  marked-used :
      (d' : Disk) (a x : ℕ)
      → d' (bblock sb a) ≡ mark (d (bblock sb a)) (a % bpb)
      → ((y : ℕ) → y < data_start sb → y ≢ bblock sb a → d' y ≡ d y)
      → x < sb.size
      → is_used sb d' x ≡ (x == a || is_used sb d x)
  marked-used d' a x changed same inside = elim (Bool-cases (bblock sb x == bblock sb a)) [
    | inl here ↦
        let at : bblock sb x ≡ bblock sb a = ground arith in
        rw (at, changed)
          (is_set-mark (d (bblock sb a)) (a % bpb) (x % bpb) (v.bytes (bblock sb a))
            ∙ ap (λ b. b || is_set (d (bblock sb a)) (x % bpb)) (same_bit sb x a at))
    | inr there ↦
        let other : (x == a) ≡ false = ground arith in
        rw other (other_map d' a x (ground arith) same inside)
  ]

  unmarked-used :
      (d' : Disk) (a x : ℕ)
      → d' (bblock sb a) ≡ unmark (d (bblock sb a)) (a % bpb)
      → ((y : ℕ) → y < data_start sb → y ≢ bblock sb a → d' y ≡ d y)
      → x < sb.size
      → is_used sb d' x ≡ (not (x == a) && is_used sb d x)
  unmarked-used d' a x changed same inside = elim (Bool-cases (bblock sb x == bblock sb a)) [
    | inl here ↦
        let at : bblock sb x ≡ bblock sb a = ground arith in
        rw (at, changed)
          (is_set-unmark (d (bblock sb a)) (a % bpb) (x % bpb) (v.bytes (bblock sb a))
            ∙ ap (λ b. not b && is_set (d (bblock sb a)) (x % bpb)) (same_bit sb x a at))
    | inr there ↦
        let other : (x == a) ≡ false = ground arith in
        rw other (other_map d' a x (ground arith) same inside)
  ]

  -- A free block lies behind the map.
  free_behind : (a : ℕ) → is_used sb d a ≡ false → data_start sb ≤ a
  free_behind a free = elim (Bool-cases (ltb a (data_start sb))) [
    | inl before ↦ let used = v.reserved a (ground arith) in absurd (cc)
    | inr behind ↦ ground arith
  ]

  bzero-IsTaken :
      (a : ℕ)
      → a < sb.size
      → is_used sb d a ≡ false
      → (d' : Disk) → d' ≡ bzero a (put_block d (bblock sb a) (mark (d (bblock sb a)) (a % bpb)))
      → IsTaken sb d a d' × IsDisk sb d'
  unfolding bzero
  bzero-IsTaken a inside free d' e =
      let behind = free_behind a free in
      let map : d' (bblock sb a) ≡ mark (d (bblock sb a)) (a % bpb) =
        let ne : (bblock sb a == a) ≡ false = ground arith in
        let here : (bblock sb a == bblock sb a) ≡ true = ground arith in rw (e, ne, here) in
      let rest : (y : ℕ) → y ≢ a → y ≢ bblock sb a → d' y ≡ d y = λ y na nm.
        let ne : (y == a) ≡ false = ground arith in
        let nb : (y == bblock sb a) ≡ false = ground arith in rw (e, ne, nb) in
      let used = λ (x : ℕ) (l : x < sb.size).
        marked-used d' a x map (λ y low nm. rest y (omega arith) nm) l in
      let zeroed : (i : ℕ) → d' a i ≡ 0 =
        λ i. let here : (a == a) ≡ true = ground arith in rw (e, here) in
      let all_bytes : (y : ℕ) → AreBytes (d' y) = λ y. elim (Bool-cases (y == a)) [
        | inl here ↦ let at : y ≡ a = ground arith in rw at (λ i. omega (arith, zeroed i))
        | inr there ↦ elim (Bool-cases (y == bblock sb a)) [
          | inl in_map ↦
              let at : y ≡ bblock sb a = ground arith in
              rw (at, map) (mark-AreBytes _ _ (v.bytes (bblock sb a)))
          | inr else_where ↦ rw (rest y (ground arith) (ground arith)) (v.bytes y)
        ]
      ] in
      (
        record {
          inside = inside;
          behind = behind;
          was_free = free;
          used = used;
          zero_bytes = zeroed;
          kept = λ x lo ne. rest x ne (omega arith);
          before_map = λ x lo. rest x (omega arith) (omega arith);
        },
        record {
          bytes = all_bytes;
          reserved = λ x lo. used x (omega (arith, v.room)) ∙ ground (arith, v.reserved x lo);
          room = v.room;
          small = v.small;
        },
      )

  balloc_from-IsTaken :
      (n b : ℕ) {a : ℕ} {d' : Disk}
      → b % bpb ≡ 0
      → balloc_from sb n b d ≡ some (a, d')
      → IsTaken sb d a d' × IsDisk sb d'
  unfolding balloc_from take_block
  balloc_from-IsTaken zero b round e = absurd (cc)
  balloc_from-IsTaken (suc n) b {a} {d'} round e =
      elim (Option-cases (find_bit sb (d (bblock sb b)) b bpb 0)) [
        | inl full ↦
            let rest : balloc_from sb n (b + bpb) d ≡ some (a, d') = ground arith in
            balloc_from-IsTaken n (b + bpb) (omega arith) rest
        | inr (bi, found) ↦
            let (lo, hi, inside, free) = find_bit-some sb (d (bblock sb b)) b bpb 0 found in
            let at : a ≡ b + bi = ground arith in
            let same_map : bblock sb a ≡ bblock sb b = omega arith in
            let bit : a % bpb ≡ bi = omega arith in
            let taken : d'
                ≡ bzero a (put_block d (bblock sb a) (mark (d (bblock sb a)) (a % bpb))) =
              rw (same_map, bit) (rw at (ground arith)) in
            bzero-IsTaken a (omega arith) (rw (same_map, bit) free) d' taken
      ]

  balloc_from-full :
      (n b x : ℕ)
      → b % bpb ≡ 0
      → balloc_from sb n b d ≡ none
      → b ≤ x
      → x < sb.size
      → sb.size ≤ b + n
      → is_used sb d x ≡ true
  unfolding balloc_from
  balloc_from-full zero b x round e lo inside enough = absurd (omega arith)
  balloc_from-full (suc n) b x round e lo inside enough =
      elim (Option-cases (find_bit sb (d (bblock sb b)) b bpb 0)) [
        | inr (bi, found) ↦ absurd (ground arith)
        | inl full ↦ elim (Bool-cases (ltb x (b + bpb))) [
          | inl here ↦
              let same_map : bblock sb x ≡ bblock sb b = ground arith in
              let bit : x % bpb ≡ x - b = ground arith in
              rw (same_map, bit)
                (find_bit-none sb (d (bblock sb b)) b bpb 0 (x - b) full (omega arith)
                  (ground arith) (omega arith))
          | inr later ↦
              let rest : balloc_from sb n (b + bpb) d ≡ none = ground arith in
              balloc_from-full n (b + bpb) x (omega arith) rest (ground arith) inside (omega arith)
        ]
      ]

  pub balloc-IsTaken :
      {a : ℕ} {d' : Disk} → balloc sb d ≡ some (a, d') → IsTaken sb d a d' × IsDisk sb d'
  unfolding balloc
  balloc-IsTaken e = balloc_from-IsTaken sb.size 0 (omega arith) e

  pub balloc-full : (x : ℕ) → balloc sb d ≡ none → x < sb.size → is_used sb d x ≡ true
  unfolding balloc
  balloc-full x e inside =
      balloc_from-full sb.size 0 x (omega arith) e (omega arith) inside (omega arith)

  -- Block `b` of the data has been given back.
  pub record IsFreed (b : ℕ) (d' : Disk) : Type 0 where
    pub used : (x : ℕ) → x < sb.size → is_used sb d' x ≡ (not (x == b) && is_used sb d x)
    pub kept : (x : ℕ) → x ≢ bblock sb b → d' x ≡ d x

  pub bfree-IsFreed :
      (b : ℕ)
      → data_start sb ≤ b
      → b < sb.size
      → is_used sb d b ≡ true
      → (d' : Disk) × (bfree sb b d ≡ some d') × IsFreed b d' × IsDisk sb d'
  unfolding bfree
  bfree-IsFreed b behind inside used =
      let d' = put_block d (bblock sb b) (unmark (d (bblock sb b)) (b % bpb)) in
      let map : d' (bblock sb b) ≡ unmark (d (bblock sb b)) (b % bpb) =
        let here : (bblock sb b == bblock sb b) ≡ true = ground arith in rw here in
      let rest : (y : ℕ) → y ≢ bblock sb b → d' y ≡ d y =
        λ y ne. let nb : (y == bblock sb b) ≡ false = ground arith in rw nb in
      let bits = λ (x : ℕ) (l : x < sb.size). unmarked-used d' b x map (λ y low nm. rest y nm) l in
      (
        d',
        rw used,
        record { used = bits; kept = rest },
        record {
          bytes = λ y. elim (Bool-cases (y == bblock sb b)) [
            | inl in_map ↦
                let at : y ≡ bblock sb b = ground arith in
                rw (at, map) (unmark-AreBytes _ _ (v.bytes (bblock sb b)))
            | inr else_where ↦ rw (rest y (ground arith)) (v.bytes y)
          ];
          reserved = λ x lo. bits x (omega (arith, v.room)) ∙ ground (arith, v.reserved x lo);
          room = v.room;
          small = v.small;
        },
      )

  pub bfree-panics : (b : ℕ) → is_used sb d b ≡ false → bfree sb b d ≡ none
  unfolding bfree
  bfree-panics b free = rw free

  -- A block of the data is written.
  pub written-used :
      (t x : ℕ) (m : Memory)
      → data_start sb ≤ t
      → x < sb.size
      → is_used sb (put_block d t m) x ≡ is_used sb d x
  written-used t x m behind inside = let ne : (bblock sb x == t) ≡ false = ground arith in rw ne

  pub written-IsDisk :
      (t : ℕ) (m : Memory) → data_start sb ≤ t → AreBytes m → IsDisk sb (put_block d t m)
  written-IsDisk t m behind h = record {
    bytes =
        λ y. elim (Bool-cases (y == t)) [ inl here ↦ rw here h | inr there ↦ rw there (v.bytes y) ];
    reserved = λ x lo. written-used t x m behind (omega (arith, v.room)) ∙ v.reserved x lo;
    room = v.room;
    small = v.small;
  }

  -- A block before the map is written.
  pub low-IsDisk :
      (b : ℕ) (m : Memory)
      → b < sb.bmapstart
      → AreBytes m
      → IsDisk sb (put_block d b m)
        × ((x : ℕ) → is_used sb (put_block d b m) x ≡ is_used sb d x)
        × ((x : ℕ) → data_start sb ≤ x → put_block d b m x ≡ d x)
  low-IsDisk b m low h =
      let used : (x : ℕ) → is_used sb (put_block d b m) x ≡ is_used sb d x =
        λ x. let ne : (bblock sb x == b) ≡ false = ground arith in rw ne in
      (
        record {
          bytes = λ y. elim (Bool-cases (y == b)) [
            | inl here ↦ rw here h
            | inr other ↦ rw other (v.bytes y)
          ];
          reserved = λ x l. used x ∙ v.reserved x l;
          room = v.room;
          small = v.small;
        },
        used,
        λ x l. let ne : (x == b) ≡ false = ground arith in rw ne,
      )
