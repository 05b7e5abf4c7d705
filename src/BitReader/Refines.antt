-- ===== src/BitReader/Refines.antt =====
-- The abstract view of a BitReader: one number, what the buffer writes down above the bits that
-- have been read. ReadBits takes the field at its low end.
use native.Mathlib.Nat.{mod-lt, mod-eq_of_lt}
use native.Mathlib.Decide.{dec_lt, ℕ_discrete}
use rudp_network.Prelude.{
  ℕ, ◌+◌, ◌-◌, ◌*◌, ◌/◌, ◌%◌, ◌^◌, ◌≤◌, ◌<◌, ◌≡◌, refl, sym, ◌∙◌, ap, subst, arith, List, length,
  some, bit_or, ◌<<◌, u64, true, Bool, ◌↔◌, ◌==◌,
}
use rudp_network.Bits.{
  two-pow-pos, two-pow_mono, join-lt, bit_or-eq-add, bit_and-low_mask, div-two-pow-add,
  mod-two-pow-add, mod-two-pow-low, mod-two-pow-high,
}
use rudp_network.Memory.{val, IsBytes}
use rudp_network.Memory.Access.{load32_lem}
use rudp_network.BitReader.{BitReader, opened, refill, take_bits, read_bits, read_align, align_bits}

pub record Refines (r : BitReader) (rest : ℕ) : Type 0 where
  pub position : r.bits_read + r.scratch_bits ≡ 32 * r.word_index
  pub scratch_lt : r.scratch_bits < 32
  pub size : r.num_bits ≡ 8 * r.num_bytes
  pub room : (r.num_bytes + 3) / 4 * 4 ≤ length r.buffer
  pub within : r.bits_read ≤ r.num_bits
  pub bytes : IsBytes r.buffer
  pub unread : val r.buffer / 2 ^ r.bits_read ≡ rest
  pub scratch : r.scratch ≡ rest % 2 ^ r.scratch_bits

-- What a successful read leaves.
pub record Taken (r : BitReader) (rest bits : ℕ) (r' : BitReader) : Type 0 where
  pub bits_read : r'.bits_read ≡ r.bits_read + bits
  pub num_bits : r'.num_bits ≡ r.num_bits
  pub refines : Refines r' (rest / 2 ^ bits)

-- A scratch that holds `s` bits of `rest`, with the word behind them.
joined :
    (s rest : ℕ)
    → s < 32
    → bit_or (rest % 2 ^ s) (u64 ((rest / 2 ^ s % 2 ^ 32) << s)) ≡ rest % 2 ^ (s + 32)
joined s rest h =
    let w : ℕ = rest / 2 ^ s % 2 ^ 32 in
    let low : rest % 2 ^ s < 2 ^ s = mod-lt rest (two-pow-pos s) in
    let no_wrap : w * 2 ^ s < 2 ^ 64 = omega (
      arith,
      join-lt s 32 (rest % 2 ^ s) w low (omega arith),
      two-pow_mono {a = s + 32} {b = 64} (omega arith),
    ) in
    rw (mod-eq_of_lt no_wrap)
      (bit_or-eq-add s (rest % 2 ^ s) w low ∙ sym (mod-two-pow-add rest s 32))

-- The low `bits` of `s` bits, and those above them.
cut :
    (s bits rest : ℕ)
    → bits ≤ s
    → (rest % 2 ^ s % 2 ^ bits ≡ rest % 2 ^ bits)
      × (rest % 2 ^ s / 2 ^ bits ≡ rest / 2 ^ bits % 2 ^ (s - bits))
cut s bits rest h =
    subst
      (λ (t : ℕ).
        (rest % 2 ^ t % 2 ^ bits ≡ rest % 2 ^ bits)
        × (rest % 2 ^ t / 2 ^ bits ≡ rest / 2 ^ bits % 2 ^ (s - bits)))
      (omega arith) (mod-two-pow-low rest bits (s - bits), mod-two-pow-high rest bits (s - bits))

take_bits_lem :
    (bits rest : ℕ) (r : BitReader)
    → bits ≤ 32
    → bits ≤ r.scratch_bits
    → r.scratch ≡ rest % 2 ^ r.scratch_bits
    → take_bits bits r
      ≡ some (
        rest % 2 ^ bits,
        record r {
          scratch = rest / 2 ^ bits % 2 ^ (r.scratch_bits - bits);
          scratch_bits = r.scratch_bits - bits;
        },
      )
unfolding take_bits
take_bits_lem bits rest r word h e =
    let c = cut r.scratch_bits bits rest h in
    let small : rest % 2 ^ bits < 2 ^ 32 =
      omega (arith, mod-lt rest (two-pow-pos bits), two-pow_mono word) in
    ground (
      arith,
      bit_and-low_mask bits r.scratch,
      mod-eq_of_lt small,
      ap (λ (t : ℕ). t % 2 ^ bits) e,
      ap (λ (t : ℕ). t / 2 ^ bits) e,
      c,
    )

module _ (bits : ℕ) (r : BitReader) {rest : ℕ} (q : Refines r rest) (pos_bits : 0 < bits)
    (word_bits : bits ≤ 32) (fits : r.bits_read + bits ≤ r.num_bits) where
  abbrev r1 : BitReader
  r1 = record r { bits_read = r.bits_read + bits }

  abbrev Result : Type 0
  Result = (r' : BitReader) × (read_bits bits r ≡ some (rest % 2 ^ bits, r')) × Taken r rest bits r'

  unread' : val r.buffer / 2 ^ (r.bits_read + bits) ≡ rest / 2 ^ bits
  unread' = div-two-pow-add (val r.buffer) r.bits_read bits ∙ ap (λ (t : ℕ). t / 2 ^ bits) q.unread

  abbrev s : ℕ
  s = r.scratch_bits

  -- The scratch holds the whole field.
  at_hand : bits ≤ s → Result
  unfolding read_bits
  at_hand h = (
    record r1 { scratch = rest / 2 ^ bits % 2 ^ (s - bits); scratch_bits = s - bits },
    ground (arith, take_bits_lem bits rest r1 word_bits h q.scratch, q.scratch_lt),
    record {
      bits_read = refl;
      num_bits = refl;
      refines = record {
        position = omega (arith, q.position);
        scratch_lt = omega (arith, q.scratch_lt);
        size = q.size;
        room = q.room;
        within = fits;
        bytes = q.bytes;
        unread = unread';
        scratch = refl;
      };
    },
  )

  abbrev r2 : BitReader
  r2 = record r1 {
    scratch = rest % 2 ^ (s + 32);
    scratch_bits = s + 32;
    word_index = r.word_index + 1;
  }

  refilled : s < bits → refill r1 ≡ some r2
  unfolding refill
  refilled h =
      let e : val r.buffer / 2 ^ (32 * r.word_index) ≡ rest / 2 ^ s =
        ap (λ (t : ℕ). val r.buffer / 2 ^ t) (sym q.position)
        ∙ div-two-pow-add (val r.buffer) r.bits_read s
        ∙ ap (λ (t : ℕ). t / 2 ^ s) q.unread in
      ground (
        arith,
        load32_lem r.word_index r.buffer (omega (arith, q.position, q.size, q.room)) q.bytes,
        ap (λ (t : ℕ). t % 2 ^ 32) e,
        q.scratch,
        joined s rest q.scratch_lt,
      )

  -- The field runs into the next word.
  loads : s < bits → Result
  unfolding read_bits
  loads h = (
    record r2 { scratch = rest / 2 ^ bits % 2 ^ (s + 32 - bits); scratch_bits = s + 32 - bits },
    ground
        (arith, refilled h, take_bits_lem bits rest r2 word_bits (omega arith) refl, q.scratch_lt),
    record {
      bits_read = refl;
      num_bits = refl;
      refines = record {
        position = omega (arith, q.position);
        scratch_lt = omega (arith, q.scratch_lt);
        size = q.size;
        room = q.room;
        within = fits;
        bytes = q.bytes;
        unread = unread';
        scratch = refl;
      };
    },
  )

-- A field of 1 to 32 bits within the packet is read: the call returns the low bits of what is
-- unread, and leaves the rest.
pub read_bits-Taken :
    (bits : ℕ) (r : BitReader) {rest : ℕ}
    → Refines r rest
    → 0 < bits
    → bits ≤ 32
    → r.bits_read + bits ≤ r.num_bits
    → (r' : BitReader) × (read_bits bits r ≡ some (rest % 2 ^ bits, r')) × Taken r rest bits r'
read_bits-Taken bits r q h k fits = elim (dec_lt r.scratch_bits bits) [
  | yes short ↦ loads bits r q h k fits short
  | no enough ↦ at_hand bits r q h k fits (omega arith)
]

-- ReadAlign skipped `pad` bits, and returned true exactly when they are zero.
abbrev pub Aligned : BitReader → ℕ → ℕ → Type 0
Aligned r rest pad =
    (b : Bool) × (r' : BitReader) × (read_align r ≡ some (b, r'))
    × ((b ≡ true) ↔ (rest % 2 ^ pad ≡ 0))
    × Taken r rest pad r'

-- ReadAlign returns, skips to the next byte, and its result is true exactly when the bits that it
-- skips are zero.
pub read_align-Aligned : (r : BitReader) {rest : ℕ} → Refines r rest → Aligned r rest (align_bits r)
unfolding read_align align_bits
read_align-Aligned r {rest} q = elim (ℕ_discrete (r.bits_read % 8) 0) [
  | yes aligned ↦ subst (Aligned r rest) {x = 0} (omega arith) (
    true,
    r,
    ground arith,
    ground arith,
    record {
      bits_read = omega arith;
      num_bits = refl;
      refines = subst (Refines r) (omega arith) q;
    },
  )
  | no ragged ↦
      let pad : ℕ = 8 - r.bits_read % 8 in
      let t =
        read_bits-Taken pad r q (omega arith) (omega arith) (omega (arith, q.within, q.size)) in
      subst (Aligned r rest) {x = pad} (omega arith)
        (rest % 2 ^ pad == 0, t.0, ground (arith, t.1, t.2.bits_read), ground arith, t.2)
]

-- A new reader has the whole buffer before it.
pub opened-Refines :
    (buffer : List ℕ) (bytes : ℕ)
    → IsBytes buffer
    → (bytes + 3) / 4 * 4 ≤ length buffer
    → Refines (opened buffer bytes) (val buffer)
unfolding opened
opened-Refines buffer bytes b room = record {
  position = omega arith;
  scratch_lt = omega arith;
  size = omega arith;
  room = room;
  within = omega arith;
  bytes = b;
  unread = omega arith;
  scratch = omega arith;
}
