-- ===== src/Stream/Codec.antt =====
-- What it means that a writing and a reading Serialize function agree: both run, the bits written
-- are a number of a fixed width, and reading that number gives the object back.
use rudp_network.Prelude.{
  ℕ, ◌+◌, ◌*◌, ◌/◌, ◌%◌, ◌^◌, ◌≤◌, ◌<◌, ◌≡◌, refl, ap, subst, sym, ◌∙◌, arith, some, true,
}
use rudp_network.Bits.{
  two-pow-add, join-lt, mod-two-pow-low, mod-two-pow-high, div-two-pow-add, parts_of_sum,
}
use rudp_network.Stream.Write.{WriteStream}
use rudp_network.Stream.Read.{ReadStream}
use rudp_network.Stream.Advance.{Writing, Wrote, Reading, Readed}
use rudp_network.Serialize.{Serializer, on, ◌⨾◌}

-- Where there is room, `f` succeeds on `p` and appends the number `code` of `width` bits.
abbrev pub Writes : {P : Type 0} → Serializer WriteStream P → P → ℕ → ℕ → Type 0
Writes f p code width =
    (s : WriteStream) (stream : ℕ)
    → Writing s stream
    → (s.writer).bits_written + width ≤ (s.writer).num_bits
    → (s' : WriteStream) × (f s p ≡ some (record { ok = true; stream = s'; value = p }))
      × Wrote s stream code width s'

-- Where the next `width` bits are the number `code`, `f` succeeds and turns `p` into `q`.
abbrev pub Reads : {P : Type 0} → Serializer ReadStream P → P → P → ℕ → ℕ → Type 0
Reads f p q code width =
    (s : ReadStream) (rest : ℕ)
    → Reading s rest
    → (s.reader).bits_read + width ≤ (s.reader).num_bits
    → rest % 2 ^ width ≡ code
    → (s' : ReadStream) × (f s p ≡ some (record { ok = true; stream = s'; value = q }))
      × Readed s rest width s'

-- Writing `p` with `f`, and reading the bits with `g` into `before`, gives `after`.
pub record Codec {P : Type 0} (f : Serializer WriteStream P) (g : Serializer ReadStream P)
    (p before after : P) (width : ℕ) : Type 0 where
  pub code : ℕ
  pub code_lt : code < 2 ^ width
  pub writes : Writes f p code width
  pub reads : Reads g before after code width

-- Nothing written, and nothing read.
pub Wrote-none : (s : WriteStream) {stream : ℕ} → Writing s stream → Wrote s stream 0 0 s
Wrote-none s w = record {
  same = record { num_words = refl; num_bits = refl; length_buffer = refl };
  bits_written = omega arith;
  writing = subst (Writing s) (omega arith) w;
}

pub Readed-none : (s : ReadStream) {rest : ℕ} → Reading s rest → Readed s rest 0 s
Readed-none s w = record {
  num_bits = refl;
  bits_read = omega arith;
  reading = subst (Reading s) (omega arith) w;
}

-- Two writes in a row are one.
pub Wrote-both :
    {s u v : WriteStream} (stream c d m n : ℕ)
    → Wrote s stream c m u
    → Wrote u (stream + 2 ^ (s.writer).bits_written * c) d n v
    → Wrote s stream (c + 2 ^ m * d) (m + n) v
Wrote-both {s} {u} {v} stream c d m n p q = record {
  same = record {
    num_words = q.same.num_words ∙ p.same.num_words;
    num_bits = q.same.num_bits ∙ p.same.num_bits;
    length_buffer = q.same.length_buffer ∙ p.same.length_buffer;
  };
  bits_written = omega (arith, p.bits_written, q.bits_written);
  writing = subst (Writing v) (sum _ _ p.bits_written) q.writing;
}
  where
    sum : (k l : ℕ) → l ≡ k + m → stream + 2 ^ k * c + 2 ^ l * d ≡ stream + 2 ^ k * (c + 2 ^ m * d)
    sum k l e = omega (arith, ap (λ (t : ℕ). 2 ^ t * d) e, ap (λ (t : ℕ). t * d) (two-pow-add k m))

-- And so are two reads.
pub Readed-both :
    {s u v : ReadStream} (rest m n : ℕ)
    → Readed s rest m u
    → Readed u (rest / 2 ^ m) n v
    → Readed s rest (m + n) v
Readed-both {s} {u} {v} rest m n p q = record {
  num_bits = q.num_bits ∙ p.num_bits;
  bits_read = omega (arith, p.bits_read, q.bits_read);
  reading = subst (Reading v) (sym (div-two-pow-add rest m n)) q.reading;
}

-- A field of `m + n` bits is its two parts.
pub field_parts :
    (rest c d m n : ℕ)
    → c < 2 ^ m
    → rest % 2 ^ (m + n) ≡ c + 2 ^ m * d
    → (rest % 2 ^ m ≡ c) × (rest / 2 ^ m % 2 ^ n ≡ d)
field_parts rest c d m n h e =
    let parts = parts_of_sum m c d (rest % 2 ^ (m + n)) h e in
    (sym (mod-two-pow-low rest m n) ∙ parts.0, sym (mod-two-pow-high rest m n) ∙ parts.1)

module _ {P : Type 0} {f1 f2 : Serializer WriteStream P} {g1 g2 : Serializer ReadStream P}
    {p a b c : P} {m n : ℕ} (x : Codec f1 g1 p a b m) (y : Codec f2 g2 p b c n) where
  abbrev both : ℕ
  both = x.code + 2 ^ m * y.code

  Writes-both : Writes (f1 ⨾ f2) p both (m + n)
  Writes-both s stream w fits =
      let u = x.writes s stream w (omega arith) in
      let v = y.writes u.0 _ u.2.writing (omega (arith, u.2.bits_written, u.2.same.num_bits)) in
      (v.0, ground (arith, u.1, v.1), Wrote-both stream x.code y.code m n u.2 v.2)

  Reads-both : Reads (g1 ⨾ g2) a c both (m + n)
  Reads-both s rest w fits field =
      let parts = field_parts rest x.code y.code m n x.code_lt field in
      let u = x.reads s rest w (omega arith) parts.0 in
      let v =
        y.reads u.0 (rest / 2 ^ m) u.2.reading (omega (arith, u.2.bits_read, u.2.num_bits))
          parts.1 in
      (v.0, ground (arith, u.1, v.1), Readed-both rest m n u.2 v.2)

  -- Statements in a row.
  pub codec_then : Codec (f1 ⨾ f2) (g1 ⨾ g2) p a c (m + n)
  codec_then = record {
    code = both;
    code_lt = join-lt m n x.code y.code x.code_lt y.code_lt;
    writes = Writes-both;
    reads = Reads-both;
  }

-- A statement on a field.
pub codec_on :
    {P V : Type 0} (get : P → V) (set : V → P → P) {f : Serializer WriteStream V}
    {g : Serializer ReadStream V} {p a : P} {v : V} {width : ℕ}
    → set (get p) p ≡ p
    → Codec f g (get p) (get a) v width
    → Codec (on get set f) (on get set g) p a (set v a) width
codec_on get set {p} {a} {v} same x = record {
  code = x.code;
  code_lt = x.code_lt;
  writes = λ s stream w fits.
      let u = x.writes s stream w fits in
      (u.0, rw u.1 (ap (λ q. some (record { ok = true; stream = u.0; value = q })) same), u.2);
  reads = λ s rest w fits field. let u = x.reads s rest w fits field in (u.0, rw u.1, u.2);
}
