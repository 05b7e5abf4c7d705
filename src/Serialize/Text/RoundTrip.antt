-- ===== src/Serialize/Text/RoundTrip.antt =====
-- serialize_string: the string that a writing stream writes is the one that a reading stream stores.
use rudp_network.Prelude.{
  ℕ, ◌+◌, ◌-◌, ◌*◌, ◌%◌, ◌^◌, ◌≤◌, ◌<◌, ◌≡◌, ◌∙◌, refl, sym, ap, subst, arith, List, [], ◌∷◌, ◌++◌,
  some, true, length, take, drop, set, length-append, length-drop,
}
use rudp_network.Prelude.Int.{ℤ, pos}
use rudp_network.Memory.{val, IsBytes, take-append, drop-drop}
use rudp_network.Util.BitsRequired.{IsWidth}
use rudp_network.Stream.{write_stream, read_stream}
use rudp_network.Stream.Write.{WriteStream}
use rudp_network.Stream.Read
use rudp_network.Stream.Read.{ReadStream}
use rudp_network.Stream.Advance.{
  Writing, Reading, Wrote, Readed, IsRange, Width, gap, gap-lt, write_integer-Wrote,
  read_integer-Readed, range-Width,
}
use rudp_network.Stream.Codec.{Wrote-both, Readed-both, field_parts}
use rudp_network.Stream.Bytes.{padding, bytes_travel}
use rudp_network.Serialize.{serialize_int, serialize_bytes}
use rudp_network.Serialize.Text.{strlen, serialize_string}

-- Characters of a string: bytes that are not zero.
abbrev pub IsText : List ℕ → Type 0
IsText [] = Unit
IsText (c ∷ cs) = (0 < c) × IsText cs

strlen_lem : (text rest : List ℕ) → IsText text → strlen (text ++ 0 ∷ rest) ≡ some (length text)
unfolding strlen
strlen_lem [] rest h = refl
strlen_lem (c ∷ cs) rest (h, hs) = ground (arith, strlen_lem cs rest hs)

set_behind :
    (text rest : List ℕ)
    → 0 < length rest
    → set (text ++ rest) (length text) 0 ≡ text ++ 0 ∷ drop 1 rest
set_behind [] [] h = absurd (omega arith)
set_behind [] (x ∷ xs) h = refl
set_behind (c ∷ cs) rest h = ap (λ (l : List ℕ). c ∷ l) (set_behind cs rest h)

-- What the string is in the stream: its length in `width` bits, the padding, its bytes.
abbrev pub string_code : ℕ → ℕ → List ℕ → ℕ
string_code width pad text = length text + 2 ^ width * (2 ^ pad * val text)

-- A reading stream that gives the length and the bytes.
read_string_runs :
    (buffer_size n : ℕ) (t t1 t2 : ReadStream) (target stored : List ℕ)
    → n < buffer_size
    → 1 < buffer_size
    → Read.serialize_integer t (pos 0) (pos 0) (pos (buffer_size - 1))
      ≡ some (record { ok = true; stream = t1; value = pos n })
    → Read.serialize_bytes t1 target n ≡ some (record { ok = true; stream = t2; value = stored })
    → n < length stored
    → serialize_string read_stream buffer_size t target
      ≡ some (record { ok = true; stream = t2; value = set stored n 0 })
unfolding serialize_string serialize_int serialize_bytes
read_string_runs buffer_size n t t1 t2 target stored small several l b long =
    ground (arith, l, b, small, several, long)

module _ (buffer_size width : ℕ) (small : buffer_size < 2 ^ 31)
    (is_width : Width (pos 0) (pos (buffer_size - 1)) width) (text rest : List ℕ)
    (is_text : IsText text) (bytes : IsBytes (text ++ 0 ∷ rest))
    (fits : length text + 1 < buffer_size) where
  abbrev n : ℕ
  n = length text

  abbrev string : List ℕ
  string = text ++ 0 ∷ rest

  range : IsRange (pos 0) (pos (buffer_size - 1))
  range = omega arith

  is_enough : IsWidth (gap (pos 0) (pos (buffer_size - 1))) width
  is_enough =
      let w = range-Width (pos 0) (pos (buffer_size - 1)) range in
      let same : w.0 ≡ width = cc (w.1, is_width) in
      subst (IsWidth (gap (pos 0) (pos (buffer_size - 1)))) same w.2

  -- Serialize_string, for a buffer size below 2^31, on a buffer of bytes that begins with a
  -- string of non-zero characters, at least two shorter than the buffer size, on streams with no
  -- error and with room for its length, padding and bytes: the writing stream returns true and
  -- appends the length, the padding and the characters, and a reading stream at the same place
  -- within a byte, when it finds such a field, returns true and stores the string, ended by a
  -- zero, at the start of its longer buffer, whose other bytes stay as they are.
  pub serialize_string_round_trip :
      (s : WriteStream) (t : ReadStream) (target : List ℕ) {stream unread : ℕ} (pad : ℕ)
      → Writing s stream
      → Reading t unread
      → pad ≡ padding ((s.writer).bits_written + width)
      → (t.reader).bits_read % 8 ≡ (s.writer).bits_written % 8
      → n < length target
      → (s.writer).bits_written + (width + (pad + 8 * n)) ≤ (s.writer).num_bits
      → (t.reader).bits_read + (width + (pad + 8 * n)) ≤ (t.reader).num_bits
      → unread % 2 ^ (width + (pad + 8 * n)) ≡ string_code width pad text
      → (s' : WriteStream) × (t' : ReadStream) × (serialize_string write_stream buffer_size s string
          ≡ some (record { ok = true; stream = s'; value = string }))
        × Wrote s stream (string_code width pad text) (width + (pad + 8 * n)) s'
        × (serialize_string read_stream buffer_size t target
            ≡ some (record { ok = true; stream = t'; value = text ++ 0 ∷ drop (n + 1) target }))
        × Readed t unread (width + (pad + 8 * n)) t'
  unfolding serialize_string serialize_int serialize_bytes
  serialize_string_round_trip s t target {stream} {unread} pad v q at same long room inside field =
      let top : ℤ = pos (buffer_size - 1) in
      let same_gap : gap (pos 0) (pos n) ≡ n = omega arith in
      let c_lt : n < 2 ^ width = omega (
        arith,
        gap-lt (pos 0) top (pos n) range (omega arith) (omega arith) is_width is_enough,
        same_gap,
      ) in
      let parts = field_parts unread n (2 ^ pad * val text) width (pad + 8 * n) c_lt field in
      let w =
        write_integer-Wrote (pos 0) top (pos n) range (omega arith) (omega arith) is_width is_enough
          s v (omega (arith, room)) in
      let r =
        read_integer-Readed (pos 0) top (pos n) range (omega arith) (omega arith) is_width is_enough
          t (pos 0) q (omega (arith, inside)) (parts.0 ∙ sym same_gap) in
      let wrote : Wrote s stream n width w.0 =
        subst (λ (c : ℕ). Wrote s stream c width w.0) same_gap w.2 in
      let whole : take n string ≡ text = take-append text (0 ∷ rest) in
      let b =
        bytes_travel w.0 r.0 string target n pad wrote.writing r.2.reading bytes
          (omega (arith, length-append text (0 ∷ rest))) (ap padding wrote.bits_written ∙ sym at)
          (ap padding r.2.bits_read ∙ omega (arith, same, at)) (omega (arith, long))
          (omega (arith, wrote.bits_written, wrote.same.num_bits, room))
          (omega (arith, r.2.bits_read, r.2.num_bits, inside))
          (parts.1 ∙ ap (λ (l : List ℕ). 2 ^ pad * val l) (sym whole)) in
      let stored =
        b.4
        ∙ ap (λ (l : List ℕ). some (record { ok = true; stream = b.1; value = l ++ drop n target }))
            whole in
      let after : set (text ++ drop n target) n 0 ≡ text ++ 0 ∷ drop (n + 1) target =
        set_behind text (drop n target) (omega (arith, length-drop n target, long))
        ∙ ap (λ (l : List ℕ). text ++ 0 ∷ l) (drop-drop n 1 target) in
      let total : n < length (text ++ drop n target) =
        omega (arith, length-append text (drop n target), length-drop n target, long) in
      (
        b.0,
        b.1,
        ground (arith, strlen_lem text rest is_text, fits, w.1, b.2),
        Wrote-both stream n (2 ^ pad * val text) width (pad + 8 * n) wrote (
            subst
              (λ (l : List ℕ).
                Wrote w.0 (stream + 2 ^ (s.writer).bits_written * n) (2 ^ pad * val l) (pad + 8 * n)
                  b.0)
              whole b.3),
        read_string_runs buffer_size n t r.0 b.1 target (text ++ drop n target) (omega arith)
              (omega arith) r.1 stored total
            ∙ ap (λ (l : List ℕ). some (record { ok = true; stream = b.1; value = l })) after,
        Readed-both unread width (pad + 8 * n) r.2 b.5,
      )
