-- ===== src/BitReader/Bytes.antt =====
-- svr/library/networking/BitReader.h: ReadBytes, by single bytes up to a word, whole words, and
-- single bytes again.
use rudp_network.Prelude.{
  ℕ, zero, suc, ◌+◌, ◌-◌, ◌*◌, ◌/◌, ◌%◌, ◌^◌, ◌≤◌, ◌<◌, ◌≡◌, ◌∙◌, refl, sym, ap, subst, arith, List,
  [], ◌∷◌, ◌++◌, some, length, take, drop, min, ◌==◌, Bool-cases, inl, inr, ==_iff, u8, length-take,
  length-drop, length-append,
}
use rudp_network.Bits.{mod-two-pow-add, div-two-pow-add}
use rudp_network.Memory.{
  val, IsBytes, read_at, val-append, val-take, val-drop, append-IsBytes, take-IsBytes, drop-IsBytes,
}
use rudp_network.BitReader.{BitReader, align_bits, read_each, read_words, read_bytes}
use rudp_network.BitReader.Refines.{Refines, Taken, read_bits-Taken}

-- `n` bytes `xs` were read off the low end of `rest`.
pub record Fetched (r : BitReader) (rest n : ℕ) (xs : List ℕ) (r' : BitReader) : Type 0 where
  pub size : length xs ≡ n
  pub is_bytes : IsBytes xs
  pub value : val xs ≡ rest % 2 ^ (8 * n)
  pub taken : Taken r rest (8 * n) r'

Taken-none : (r : BitReader) {rest : ℕ} → Refines r rest → Taken r rest 0 r
Taken-none r q = record {
  bits_read = omega arith;
  num_bits = refl;
  refines = subst (Refines r) (omega arith) q;
}

pub Fetched-none : (r : BitReader) {rest : ℕ} → Refines r rest → Fetched r rest 0 [] r
Fetched-none r q = record {
  size = refl;
  is_bytes = tt;
  value = omega arith;
  taken = Taken-none r q;
}

pub Fetched-trans :
    {r r' r'' : BitReader} {rest a b : ℕ} {xs ys : List ℕ}
    → Fetched r rest a xs r'
    → Fetched r' (rest / 2 ^ (8 * a)) b ys r''
    → Fetched r rest (a + b) (xs ++ ys) r''
Fetched-trans {r'' = r''} {rest = rest} {a = a} {b = b} {xs = xs} {ys = ys} p q =
    let total : 8 * (a + b) ≡ 8 * a + 8 * b = omega arith in
    record {
      size = omega (arith, p.size, q.size, length-append xs ys);
      is_bytes = append-IsBytes xs ys p.is_bytes q.is_bytes;
      value =
          val-append xs ys
          ∙ ap (λ (t : ℕ). val xs + 2 ^ (8 * t) * val ys) p.size
          ∙ omega (
            arith,
            p.value,
            ap (λ (t : ℕ). 2 ^ (8 * a) * t) q.value,
            mod-two-pow-add rest (8 * a) (8 * b),
          )
          ∙ ap (λ (t : ℕ). rest % 2 ^ t) (sym total);
      taken = record {
        bits_read = omega (arith, p.taken.bits_read, q.taken.bits_read);
        num_bits = q.taken.num_bits ∙ p.taken.num_bits;
        refines =
            subst (Refines r'')
              (sym (div-two-pow-add rest (8 * a) (8 * b))
                ∙ ap (λ (t : ℕ). rest / 2 ^ t) (sym total))
              q.taken.refines;
      };
    }

-- Single bytes.
read_each-Fetched :
    (n : ℕ) (r : BitReader) {rest : ℕ}
    → Refines r rest
    → r.bits_read + 8 * n ≤ r.num_bits
    → (xs : List ℕ) × (r' : BitReader) × (read_each n r ≡ some (xs, r')) × Fetched r rest n xs r'
unfolding read_each
read_each-Fetched zero r q fits = ([], r, refl, Fetched-none r q)
read_each-Fetched (suc n) r {rest} q fits =
    let one = read_bits-Taken 8 r q (omega arith) (omega arith) (omega arith) in
    let first : Fetched r rest 1 (u8 (rest % 2 ^ 8) ∷ []) one.0 = record {
      size = refl;
      is_bytes = (omega arith, tt);
      value = omega arith;
      taken = one.2;
    } in
    let rest' =
      read_each-Fetched n one.0 first.taken.refines
        (omega (arith, one.2.bits_read, one.2.num_bits)) in
    (
      u8 (rest % 2 ^ 8) ∷ rest'.0,
      rest'.1,
      rw (one.1, rest'.2) refl,
      subst (λ (t : ℕ). Fetched r rest t (u8 (rest % 2 ^ 8) ∷ rest'.0) rest'.1) (omega arith)
          (Fetched-trans first rest'.3),
    )

-- At a word's border the scratch is empty.
empty_scratch :
    (r : BitReader) {rest : ℕ}
    → Refines r rest
    → r.bits_read % 32 ≡ 0
    → (r.scratch_bits ≡ 0) × (r.bits_read ≡ 32 * r.word_index)
empty_scratch r q h =
    (omega (arith, q.position, q.scratch_lt), omega (arith, q.position, q.scratch_lt))

-- Whole words.
read_words-Fetched :
    (words : ℕ) (r : BitReader) {rest : ℕ}
    → Refines r rest
    → r.bits_read % 32 ≡ 0
    → r.bits_read + 8 * (words * 4) ≤ r.num_bits
    → (xs : List ℕ) × (r' : BitReader) × (read_words words r ≡ some (xs, r'))
      × Fetched r rest (words * 4) xs r'
unfolding read_words read_at
read_words-Fetched zero r q border fits = ([], r, refl, Fetched-none r q)
read_words-Fetched (suc k) r {rest} q border fits =
    let n : ℕ = suc k * 4 in
    let off : ℕ = 4 * r.word_index in
    let empty = empty_scratch r q border in
    let bytes : IsBytes (drop off r.buffer) = drop-IsBytes off r.buffer q.bytes in
    let room : off + n ≤ length r.buffer = omega (arith, q.size, q.room, empty.1, fits) in
    let left : length (drop off r.buffer) ≡ length r.buffer - off = length-drop off r.buffer in
    let at : 8 * off ≡ r.bits_read = omega (arith, empty.1) in
    (
      take n (drop off r.buffer),
      record r {
        bits_read = r.bits_read + suc k * 32;
        word_index = r.word_index + suc k;
        scratch_bits = 0;
      },
      ground (arith, border, room),
      record {
        size = omega (arith, length-take n (drop off r.buffer), left, room);
        is_bytes = take-IsBytes n (drop off r.buffer) bytes;
        value =
            val-take n (drop off r.buffer) bytes (omega (arith, left, room))
            ∙ ap (λ (t : ℕ). t % 2 ^ (8 * n))
                (val-drop off r.buffer q.bytes (omega (arith, room))
                  ∙ ap (λ (t : ℕ). val r.buffer / 2 ^ t) at
                  ∙ q.unread);
        taken = record {
          bits_read = omega arith;
          num_bits = refl;
          refines = record {
            position = omega (arith, empty.1);
            scratch_lt = omega arith;
            size = q.size;
            room = q.room;
            within = omega (arith, fits);
            bytes = q.bytes;
            unread =
                ap (λ (t : ℕ). val r.buffer / 2 ^ (r.bits_read + t)) (omega arith)
                ∙ div-two-pow-add (val r.buffer) r.bits_read (8 * n)
                ∙ ap (λ (t : ℕ). t / 2 ^ (8 * n)) q.unread;
            scratch = omega (arith, q.scratch, ap (λ (t : ℕ). rest % 2 ^ t) empty.0);
          };
        };
      },
    )

module _ (n : ℕ) (r : BitReader) {rest : ℕ} (q : Refines r rest) (aligned : r.bits_read % 8 ≡ 0)
    (fits : r.bits_read + 8 * n ≤ r.num_bits) where
  abbrev head : ℕ
  head = min ((4 - r.bits_read % 32 / 8) % 4) n

  abbrev words : ℕ
  words = (n - head) / 4

  abbrev tail : ℕ
  tail = n - (head + words * 4)

  -- The head ends at a word's border, where the words and the tail follow.
  words_read :
      (hs : List ℕ) (r1 : BitReader)
      → Fetched r rest head hs r1
      → head < n
      → (ws ts : List ℕ) × (r2 r3 : BitReader) × (read_words words r1 ≡ some (ws, r2))
        × (read_each tail r2 ≡ some (ts, r3))
        × (r1.bits_read % 8 ≡ 0)
        × (r2.bits_read % 8 ≡ 0)
        × (r3.bits_read % 8 ≡ 0)
        × Fetched r rest n (hs ++ (ws ++ ts)) r3
  words_read hs r1 f long =
      let t1 = f.taken in
      let border : r1.bits_read % 32 ≡ 0 = omega (arith, t1.bits_read, aligned, long) in
      let two =
        read_words-Fetched words r1 t1.refines border
          (omega (arith, t1.bits_read, t1.num_bits, fits)) in
      let t2 = two.3.taken in
      let three =
        read_each-Fetched tail two.1 t2.refines
          (omega (arith, t1.bits_read, t1.num_bits, t2.bits_read, t2.num_bits, fits)) in
      (
        two.0,
        three.0,
        two.1,
        three.1,
        two.2,
        three.2,
        omega (arith, border),
        omega (arith, t2.bits_read, border),
        omega (arith, t2.bits_read, three.3.taken.bits_read, border),
        subst (λ (t : ℕ). Fetched r rest t (hs ++ (two.0 ++ three.0)) three.1) (omega arith)
            (Fetched-trans f (Fetched-trans two.3 three.3)),
      )

  -- ReadBytes at a byte's border, of bytes within the packet, returns the bytes at the low end of
  -- what is unread, the first lowest, and leaves the rest.
  pub read_bytes-Fetched :
      (xs : List ℕ) × (r' : BitReader) × (read_bytes n r ≡ some (xs, r')) × Fetched r rest n xs r'
  unfolding read_bytes align_bits
  read_bytes-Fetched =
      let one = read_each-Fetched head r q (omega arith) in
      elim (Bool-cases (head == n)) [
        | inl short ↦ (
          one.0,
          one.1,
          ground (arith, aligned, fits, one.2, short),
          subst (λ (t : ℕ). Fetched r rest t one.0 one.1) ((==_iff _ _).0 short) one.3,
        )
        | inr long ↦
            let two = words_read one.0 one.1 one.3 (ground (arith, long)) in
            (
              one.0 ++ (two.0 ++ two.1),
              two.3,
              ground (arith, aligned, fits, one.2, long, two.4, two.5, two.6, two.7, two.8),
              two.9,
            )
      ]
