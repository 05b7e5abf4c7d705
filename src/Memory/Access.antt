-- ===== src/Memory/Access.antt =====
-- What a copy and an aligned 32-bit access do to the number that a buffer writes down.
use rudp_network.Prelude.{
  ℕ, ◌+◌, ◌*◌, ◌/◌, ◌%◌, ◌^◌, ◌≤◌, ◌<◌, ◌≡◌, sym, ap, subst, ◌∙◌, List, ◌++◌, append_assoc, arith,
  some, length, take, drop, length-append, length-take, length-drop,
}
use rudp_network.Bits.{two-pow-pos, two-pow-add, join-lt, parts_of_sum}
use rudp_network.Memory.Value.{
  val, IsBytes, bytes_of, bytes_of-IsBytes, val-bytes_of, val-append, append-IsBytes, take-IsBytes,
  drop-IsBytes, val-take, val-drop, val-lt, drop-append,
}
use rudp_network.Memory.{write_at, load32, store32}

-- `mem'` is `mem` with the `width` bytes at `offset` now writing down `v`; what lies below is kept.
pub record Written (offset width v : ℕ) (mem mem' : List ℕ) : Type 0 where
  pub same_length : length mem' ≡ length mem
  pub bytes : IsBytes mem'
  pub low :
      val mem' % 2 ^ (8 * (offset + width)) ≡ val mem % 2 ^ (8 * offset) + 2 ^ (8 * offset) * v
  pub above : drop (offset + width) mem' ≡ drop (offset + width) mem

module _ (offset : ℕ) (src mem : List ℕ) (fits : offset + length src ≤ length mem)
    (bytes : IsBytes mem) (src_bytes : IsBytes src) where
  abbrev pasted : List ℕ
  pasted = take offset mem ++ (src ++ drop (offset + length src) mem)

  abbrev rest : List ℕ
  rest = drop (offset + length src) mem

  length_prefix : length (take offset mem) ≡ offset
  length_prefix = omega (arith, length-take offset mem)

  val-pasted :
      val pasted
      ≡ val mem % 2 ^ (8 * offset)
        + 2 ^ (8 * offset) * val src
        + 2 ^ (8 * (offset + length src)) * val rest
  val-pasted = omega (
    arith,
    val-append (take offset mem) (src ++ rest),
    val-append src rest,
    ap (λ (t : ℕ). 2 ^ (8 * t) * val (src ++ rest)) length_prefix,
    ap (λ (t : ℕ). 2 ^ (8 * offset) * t) (val-append src rest),
    val-take offset mem bytes (omega arith),
    ap (λ (t : ℕ). t * val rest) (two-pow-add (8 * offset) (8 * length src)),
    ap (λ (t : ℕ). 2 ^ t * val rest) (widths offset (length src)),
  )
    where
      widths : (a b : ℕ) → 8 * (a + b) ≡ 8 * a + 8 * b
      widths a b = omega arith

  low_fits :
      val mem % 2 ^ (8 * offset) + 2 ^ (8 * offset) * val src < 2 ^ (8 * (offset + length src))
  low_fits =
      subst (λ (t : ℕ). val mem % 2 ^ (8 * offset) + 2 ^ (8 * offset) * val src < 2 ^ t)
        (omega arith)
        (join-lt (8 * offset) (8 * length src) (val mem % 2 ^ (8 * offset)) (val src)
          (omega (arith, two-pow-pos (8 * offset))) (val-lt src src_bytes))

  drop-pasted : drop (offset + length src) pasted ≡ rest
  drop-pasted =
      ap (drop (offset + length src)) (sym (append_assoc (take offset mem) src rest))
      ∙ drop-append (offset + length src) (take offset mem ++ src) rest
          (omega (arith, length-append (take offset mem) src, length_prefix))

  pub write_at-Written :
      (mem' : List ℕ) × (write_at offset src mem ≡ some mem')
      × Written offset (length src) (val src) mem mem'
  unfolding write_at
  write_at-Written = (
    pasted,
    ground arith,
    record {
      same_length = omega (
        arith,
        length-append (take offset mem) (src ++ rest),
        length-append src rest,
        length_prefix,
        length-drop (offset + length src) mem,
      );
      bytes =
          append-IsBytes (take offset mem) (src ++ rest) (take-IsBytes offset mem bytes)
            (append-IsBytes src rest src_bytes (drop-IsBytes (offset + length src) mem bytes));
      above = drop-pasted;
      low =
          (parts_of_sum (8 * (offset + length src)) _ (val rest) (val pasted) low_fits
            val-pasted).0;
    },
  )

pub store32-Written :
    (i w : ℕ) (mem : List ℕ)
    → 4 * i + 4 ≤ length mem
    → IsBytes mem
    → w < 2 ^ 32
    → (mem' : List ℕ) × (store32 i w mem ≡ some mem') × Written (4 * i) 4 w mem mem'
unfolding store32
store32-Written i w mem h b hw =
    let r = write_at-Written (4 * i) (bytes_of 4 w) mem h b (bytes_of-IsBytes 4 w) in
    (r.0, r.1, subst (λ (v : ℕ). Written (4 * i) 4 v mem r.0) (omega (arith, val-bytes_of 4 w)) r.2)

pub load32_lem :
    (i : ℕ) (mem : List ℕ)
    → 4 * i + 4 ≤ length mem
    → IsBytes mem
    → load32 i mem ≡ some (val mem / 2 ^ (32 * i) % 2 ^ 32)
unfolding load32
load32_lem i mem h b =
    let bytes : IsBytes (drop (4 * i) mem) = drop-IsBytes (4 * i) mem b in
    let word : val (take 4 (drop (4 * i) mem)) ≡ val (drop (4 * i) mem) % 2 ^ 32 =
      val-take 4 (drop (4 * i) mem) bytes (omega (arith, length-drop (4 * i) mem)) in
    let high : val (drop (4 * i) mem) ≡ val mem / 2 ^ (8 * (4 * i)) =
      val-drop (4 * i) mem b (omega arith) in
    let e : 8 * (4 * i) ≡ 32 * i = omega arith in
    ground (arith, word, high, ap (λ (t : ℕ). val mem / 2 ^ t) e)
