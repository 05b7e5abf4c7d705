-- ===== src/BitWriter/Bytes.antt =====
-- svr/library/networking/BitWriter.h: WriteBytes, by single bytes up to a word, whole words, and
-- single bytes again.
use rudp_network.Prelude.{
  ℕ, ◌+◌, ◌-◌, ◌*◌, ◌/◌, ◌%◌, ◌^◌, ◌≤◌, ◌<◌, ◌≡◌, ◌∙◌, refl, sym, ap, subst, arith, List, [], ◌∷◌,
  some, length, take, drop, min, inl, inr, ◌==◌, Bool-cases, ==_iff, length-take, length-drop,
}
use rudp_network.Memory.{val, IsBytes, drop-drop, val-split, take-IsBytes, drop-IsBytes}
use rudp_network.BitWriter.{BitWriter, align_bits, write_each, write_words, write_bytes, flush_bits}
use rudp_network.BitWriter.Refines.{Refines}
use rudp_network.BitWriter.Words.{
  Extended, Extended-trans, write_each-Extended, write_words-Extended, flush_bits_border,
}

-- The bytes of the head, of the whole words and of the tail.
val_parts :
    (h k : ℕ) (src : List ℕ)
    → h + k ≤ length src
    → val src
      ≡ val (take h src)
        + 2 ^ (8 * h) * (val (take k (drop h src)) + 2 ^ (8 * k) * val (drop (h + k) src))
val_parts h k src fits =
    let rest : List ℕ = drop h src in
    let split : val rest ≡ val (take k rest) + 2 ^ (8 * k) * val (drop (h + k) src) =
      val-split k rest (omega (arith, length-drop h src))
      ∙ ap (λ (l : List ℕ). val (take k rest) + 2 ^ (8 * k) * val l) (drop-drop h k src) in
    val-split h src (omega arith) ∙ ap (λ (t : ℕ). val (take h src) + 2 ^ (8 * h) * t) split

take_all : (xs : List ℕ) → take (length xs) xs ≡ xs
take_all [] = refl
take_all (x ∷ xs) = ap (λ (l : List ℕ). x ∷ l) (take_all xs)

module _ (src : List ℕ) (w : BitWriter) {stream : ℕ} (r : Refines w stream) (b : IsBytes src)
    (aligned : w.bits_written % 8 ≡ 0) (fits : w.bits_written + 8 * length src ≤ w.num_bits) where
  abbrev n : ℕ
  n = length src

  abbrev head : ℕ
  head = min ((4 - w.bits_written % 32 / 8) % 4) n

  abbrev words : ℕ
  words = (n - head) / 4

  abbrev middle : List ℕ
  middle = take (words * 4) (drop head src)

  abbrev tail : List ℕ
  tail = drop (head + words * 4) src

  -- The head ends at a word's border, where the words and the tail follow.
  words_written :
      (w1 : BitWriter)
      → Extended w stream (8 * length (take head src)) (val (take head src)) w1
      → head < n
      → (w2 w3 : BitWriter) × (flush_bits w1 ≡ some w1)
        × (write_words middle w1 ≡ some w2)
        × (write_each tail w2 ≡ some w3)
        × (w1.bits_written % 8 ≡ 0)
        × (w2.bits_written % 8 ≡ 0)
        × (w3.bits_written % 8 ≡ 0)
        × Extended w stream (8 * n) (val src) w3
  words_written w1 q long =
      let size1 : length (take head src) ≡ head = omega (arith, length-take head src) in
      let size2 : length middle ≡ words * 4 =
        omega (arith, length-take (words * 4) (drop head src), length-drop head src) in
      let size3 : length tail ≡ n - (head + words * 4) = length-drop (head + words * 4) src in
      let border : w1.bits_written % 32 ≡ 0 = omega (arith, q.bits_written, size1, aligned, long) in
      let two =
        write_words-Extended middle words w1 q.refines
          (take-IsBytes (words * 4) (drop head src) (drop-IsBytes head src b)) size2 border
          (omega (arith, q.bits_written, q.same.num_bits, size1, size2, fits)) in
      let three =
        write_each-Extended tail two.0 two.2.refines (drop-IsBytes (head + words * 4) src b) (
          omega (
            arith, q.bits_written, q.same.num_bits, two.2.bits_written, two.2.same.num_bits, size1,
            size2, size3, fits,
          )) in
      let both = Extended-trans q (Extended-trans two.2 three.2) in
      let value : val (take head src)
            + 2 ^ (8 * length (take head src)) * (val middle + 2 ^ (8 * length middle) * val tail)
          ≡ val src =
        ap
          (λ (t : ℕ).
            val (take head src) + 2 ^ (8 * t) * (val middle + 2 ^ (8 * length middle) * val tail))
          size1
        ∙ ap
            (λ (t : ℕ).
              val (take head src) + 2 ^ (8 * head) * (val middle + 2 ^ (8 * t) * val tail))
            size2
        ∙ sym (val_parts head (words * 4) src (omega arith)) in
      (
        two.0,
        three.0,
        flush_bits_border w1 q.refines border,
        two.1,
        three.1,
        omega (arith, border),
        omega (arith, two.2.bits_written, border),
        omega (arith, two.2.bits_written, three.2.bits_written, border),
        subst (λ (t : ℕ). Extended w stream t (val src) three.0)
            (omega (arith, size1, size2, size3))
            (subst
              (λ (t : ℕ).
                Extended w stream
                  (8 * length (take head src) + (8 * length middle + 8 * length tail)) t three.0)
              value both),
      )

  -- WriteBytes at a byte's border, with room for the bytes, returns and appends them, the first
  -- lowest, to the stream.
  pub write_bytes-Extended :
      (w' : BitWriter) × (write_bytes src w ≡ some w')
      × Extended w stream (8 * length src) (val src) w'
  unfolding write_bytes align_bits
  write_bytes-Extended =
      let size1 : length (take head src) ≡ head = omega (arith, length-take head src) in
      let one =
        write_each-Extended (take head src) w r (take-IsBytes head src b) (omega (arith, size1)) in
      elim (Bool-cases (head == n)) [
        | inl short ↦
            let whole : head ≡ n = (==_iff _ _).0 short in
            let all : take head src ≡ src = ap (λ (t : ℕ). take t src) whole ∙ take_all src in
            (
              one.0,
              ground (arith, aligned, fits, one.1, short),
              subst (λ (l : List ℕ). Extended w stream (8 * length l) (val l) one.0) all one.2,
            )
        | inr long ↦
            let two = words_written one.0 one.2 (ground (arith, long)) in
            (
              two.1,
              ground (arith, aligned, fits, one.1, long, two.2, two.3, two.4, two.5, two.6, two.7),
              two.8,
            )
      ]
