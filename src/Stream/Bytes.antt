-- ===== src/Stream/Bytes.antt =====
-- svr/library/networking/Serialization.h: SerializeBytes, which aligns to a byte first.
use rudp_network.Prelude.{
  ℕ, ◌+◌, ◌-◌, ◌*◌, ◌/◌, ◌%◌, ◌^◌, ◌≤◌, ◌≡◌, ◌∙◌, refl, sym, ap, subst, arith, List, ◌++◌, some,
  true, length, take, drop, length-take,
}
use rudp_network.Bits.{
  two-pow-add, two-pow-pos, div-two-pow-add, mod-two-pow-low, mod-two-pow-high, parts_of_sum,
}
use rudp_network.Memory.{val, IsBytes, read_at, take-IsBytes, val-injective}
use rudp_network.BitWriter.Refines as WriterView
use rudp_network.BitWriter.Flush.{write_align-Refines}
use rudp_network.BitWriter.Bytes.{write_bytes-Extended}
use rudp_network.BitReader
use rudp_network.BitReader.Refines as ReaderView
use rudp_network.BitReader.Refines.{read_align-Aligned}
use rudp_network.BitReader.Bytes.{read_bytes-Fetched}
use rudp_network.Stream.Write
use rudp_network.Stream.Write.{WriteStream}
use rudp_network.Stream.Read
use rudp_network.Stream.Read.{ReadStream}
use rudp_network.Stream.Advance.{Writing, Reading, Wrote, Readed}

-- The bits up to the next byte.
abbrev pub padding : ℕ → ℕ
padding bits = (8 - bits % 8) % 8

module _ (s : WriteStream) (source : List ℕ) (n : ℕ) {stream : ℕ} (v : Writing s stream)
    (b : IsBytes source) (enough : n ≤ length source) where
  abbrev bits : ℕ
  bits = (s.writer).bits_written

  abbrev pad : ℕ
  pad = padding bits

  write_bytes-Wrote :
      bits + (pad + 8 * n) ≤ (s.writer).num_bits
      → (s' : WriteStream) × (Write.serialize_bytes s source n
          ≡ some (record { ok = true; stream = s'; value = source }))
        × Wrote s stream (2 ^ pad * val (take n source)) (pad + 8 * n) s'
  unfolding Write.serialize_bytes Write.serialize_align read_at
  write_bytes-Wrote fits =
      let a = write_align-Refines s.writer v.view (omega (arith, v.view.size)) in
      let size : length (take n source) ≡ n = omega (arith, length-take n source, enough) in
      let w =
        write_bytes-Extended (take n source) a.0 a.4 (take-IsBytes n source b) (omega (arith, a.3))
          (omega (arith, a.2.num_bits, a.3, size, fits)) in
      let at : (a.0).bits_written ≡ bits + pad = omega (arith, a.3) in
      let code : 2 ^ (a.0).bits_written * val (take n source)
          ≡ 2 ^ bits * (2 ^ pad * val (take n source)) =
        ap (λ (t : ℕ). 2 ^ t * val (take n source)) at
        ∙ omega (arith, ap (λ (t : ℕ). t * val (take n source)) (two-pow-add bits pad)) in
      (
        record s { writer = w.0 },
        ground (arith, a.1, w.1, enough),
        record {
          same = record {
            num_words = w.2.same.num_words ∙ a.2.num_words;
            num_bits = w.2.same.num_bits ∙ a.2.num_bits;
            length_buffer = w.2.same.length_buffer ∙ a.2.length_buffer;
          };
          bits_written = omega (arith, w.2.bits_written, at, size);
          writing = record {
            no_error = v.no_error;
            view = subst (λ (t : ℕ). WriterView.Refines w.0 (stream + t)) code w.2.refines;
          };
        },
      )

-- A field of zeros and, above them, `v`.
zeros_then :
    (pad width v rest : ℕ)
    → rest % 2 ^ (pad + width) ≡ 2 ^ pad * v
    → (rest % 2 ^ pad ≡ 0) × (rest / 2 ^ pad % 2 ^ width ≡ v)
zeros_then pad width v rest h =
    let parts = parts_of_sum pad 0 v (2 ^ pad * v) (two-pow-pos pad) (omega arith) in
    (
      sym (mod-two-pow-low rest pad width) ∙ ap (λ (t : ℕ). t % 2 ^ pad) h ∙ parts.0,
      sym (mod-two-pow-high rest pad width) ∙ ap (λ (t : ℕ). t / 2 ^ pad) h ∙ parts.1,
    )

module _ (t : ReadStream) (target xs : List ℕ) {rest : ℕ} (v : Reading t rest)
    (b : IsBytes xs) where
  abbrev bits_read : ℕ
  bits_read = (t.reader).bits_read

  abbrev ReadsBytes : ℕ → ℕ → Type 0
  ReadsBytes pad n =
      n ≤ length target
      → bits_read + (pad + 8 * n) ≤ (t.reader).num_bits
      → rest % 2 ^ (pad + 8 * n) ≡ 2 ^ pad * val xs
      → (t' : ReadStream) × (Read.serialize_bytes t target n
          ≡ some (record { ok = true; stream = t'; value = xs ++ drop n target }))
        × Readed t rest (pad + 8 * n) t'

  read_bytes-Readed : ReadsBytes (padding bits_read) (length xs)
  unfolding Read.serialize_bytes Read.serialize_align BitReader.would_overflow BitReader.align_bits
  read_bytes-Readed holds fits field =
      let n : ℕ = length xs in
      let pad : ℕ = padding bits_read in
      let parts = zeros_then pad (8 * n) (val xs) rest field in
      let a = read_align-Aligned t.reader v.view in
      let ok : a.0 ≡ true = a.3.1 parts.0 in
      let r =
        read_bytes-Fetched n a.1 a.4.refines (omega (arith, a.4.bits_read))
          (omega (arith, a.4.bits_read, a.4.num_bits, fits)) in
      let same : r.0 ≡ xs = val-injective r.0 xs r.3.is_bytes b r.3.size (r.3.value ∙ parts.1) in
      (
        Read.advanced (Read.advanced t pad a.1) (n * 8) r.1,
        ground (arith, a.2, ok, r.2, same, holds, fits, a.4.bits_read, a.4.num_bits),
        record {
          num_bits = r.3.taken.num_bits ∙ a.4.num_bits;
          bits_read = omega (arith, r.3.taken.bits_read, a.4.bits_read);
          reading = record {
            no_error = v.no_error;
            counted = omega (arith, v.counted, r.3.taken.bits_read, a.4.bits_read);
            view =
                subst (ReaderView.Refines r.1) (sym (div-two-pow-add rest pad (8 * n)))
                  r.3.taken.refines;
          };
        },
      )

-- What SerializeBytes of both streams does with `pad` bits of padding.
abbrev pub BytesTravel : WriteStream → ReadStream → List ℕ → List ℕ → ℕ → ℕ → ℕ → ℕ → Type 0
BytesTravel s t source target n stream rest pad =
    n ≤ length target
    → (s.writer).bits_written + (pad + 8 * n) ≤ (s.writer).num_bits
    → (t.reader).bits_read + (pad + 8 * n) ≤ (t.reader).num_bits
    → rest % 2 ^ (pad + 8 * n) ≡ 2 ^ pad * val (take n source)
    → (s' : WriteStream) × (t' : ReadStream) × (Write.serialize_bytes s source n
        ≡ some (record { ok = true; stream = s'; value = source }))
      × Wrote s stream (2 ^ pad * val (take n source)) (pad + 8 * n) s'
      × (Read.serialize_bytes t target n
          ≡ some (record { ok = true; stream = t'; value = take n source ++ drop n target }))
      × Readed t rest (pad + 8 * n) t'

pub bytes_travel :
    (s : WriteStream) (t : ReadStream) (source target : List ℕ) (n pad : ℕ) {stream rest : ℕ}
    → Writing s stream
    → Reading t rest
    → IsBytes source
    → n ≤ length source
    → padding (s.writer).bits_written ≡ pad
    → padding (t.reader).bits_read ≡ pad
    → BytesTravel s t source target n stream rest pad
bytes_travel s t source target n pad {stream} {rest} v q b enough at at' holds room fits field =
    let size : length (take n source) ≡ n = omega (arith, length-take n source, enough) in
    let xs : List ℕ = take n source in
    let xs_bytes : IsBytes xs = take-IsBytes n source b in
    let w =
      subst
        (λ (k : ℕ).
          (s.writer).bits_written + (k + 8 * n) ≤ (s.writer).num_bits
          → (s' : WriteStream) × (Write.serialize_bytes s source n
              ≡ some (record { ok = true; stream = s'; value = source }))
            × Wrote s stream (2 ^ k * val (take n source)) (k + 8 * n) s')
        at (write_bytes-Wrote s source n v b enough) room in
    let r =
      subst (λ (k : ℕ). ReadsBytes t target xs q xs_bytes k n) at'
        (subst (λ (k : ℕ). ReadsBytes t target xs q xs_bytes (padding (t.reader).bits_read) k) size
          (read_bytes-Readed t target xs q xs_bytes))
        holds fits field in
    (w.0, r.0, w.1, w.2, r.1, r.2)

-- SerializeBytes of a writing and of a reading stream, with no error, at the same place within a
-- byte and with room for the padding and the bytes in the streams and for the bytes in the
-- target: the writing stream returns true and appends zero bits up to the next byte and then the
-- bytes, and the reading stream, when it finds such a field, returns true and stores the bytes at
-- the start of the target, whose other bytes stay as they are.
pub read_bytes-write_bytes :
    (s : WriteStream) (t : ReadStream) (source target : List ℕ) (n : ℕ) {stream rest : ℕ}
    → Writing s stream
    → Reading t rest
    → IsBytes source
    → n ≤ length source
    → n ≤ length target
    → (s.writer).bits_written + (padding (s.writer).bits_written + 8 * n) ≤ (s.writer).num_bits
    → (t.reader).bits_read % 8 ≡ (s.writer).bits_written % 8
    → (t.reader).bits_read + (padding (s.writer).bits_written + 8 * n) ≤ (t.reader).num_bits
    → rest % 2 ^ (padding (s.writer).bits_written + 8 * n)
      ≡ 2 ^ padding (s.writer).bits_written * val (take n source)
    → (s' : WriteStream) × (t' : ReadStream) × (Write.serialize_bytes s source n
        ≡ some (record { ok = true; stream = s'; value = source }))
      × Wrote s stream
          (2 ^ padding (s.writer).bits_written * val (take n source))
          (padding (s.writer).bits_written + 8 * n)
          s'
      × (Read.serialize_bytes t target n
          ≡ some (record { ok = true; stream = t'; value = take n source ++ drop n target }))
      × Readed t rest (padding (s.writer).bits_written + 8 * n) t'
read_bytes-write_bytes s t source target n v q b enough holds room same fits field =
    bytes_travel s t source target n (padding (s.writer).bits_written) v q b enough refl
      (ap (λ (k : ℕ). (8 - k) % 8) same) holds room fits field
