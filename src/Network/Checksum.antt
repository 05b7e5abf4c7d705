-- ===== src/Network/Checksum.antt =====
-- The checksum of a packet: the one that ReadPacket computes over the received bytes is the one
-- that WritePacket stored.
use native.Mathlib.Nat.{mod-eq_of_lt, mod-lt}
use rudp_network.Prelude.{
  ℕ, ◌+◌, ◌-◌, ◌*◌, ◌/◌, ◌%◌, ◌^◌, ◌≤◌, ◌<◌, ◌≡◌, sym, ap, ◌∙◌, arith, List, ◌++◌, some, leb, true,
  length, take, drop, length-take, length-drop,
}
use rudp_network.Bits.{parts_of_sum, mod-two-pow-high, two-pow-pos}
use rudp_network.Memory.{
  val, IsBytes, bytes_of, bytes_of-IsBytes, length-bytes_of, val-bytes_of, val-drop, val-take,
  drop-IsBytes, take-IsBytes, take-add, drop-drop, val-injective, read_at,
}
use rudp_network.Memory.Access.{Written, write_at-Written}
use rudp_network.Util.Crc.{calculate_crc32, calculate_crc32-lt, calculate_crc32-append}
use rudp_network.Packet.{PacketInfo}
use rudp_network.Network.{protocol_crc, write_checksum, expected_checksum}

pub protocol_crc-lt : (id : ℕ) → protocol_crc id < 2 ^ 32
unfolding protocol_crc
protocol_crc-lt id = calculate_crc32-lt (bytes_of 4 id) 0 (omega arith)

-- The buffer after the checksum was stored: a reader finds the checksum that it expects, and all
-- that lies behind is as before.
pub record Checked (info : PacketInfo) (bytes : ℕ) (mem mem' : List ℕ) : Type 0 where
  pub crc : ℕ
  pub expected : expected_checksum info bytes mem' ≡ some crc
  pub stored : val mem' / 2 ^ (8 * info.prefix_bytes) % 2 ^ 32 ≡ crc
  pub is_bytes : IsBytes mem'
  pub same_length : length mem' ≡ length mem
  pub above :
      val mem' / 2 ^ (8 * (info.prefix_bytes + 4)) ≡ val mem / 2 ^ (8 * (info.prefix_bytes + 4))

module _ (info : PacketInfo) (bytes : ℕ) (mem : List ℕ) (b : IsBytes mem)
    (enough : info.prefix_bytes + 4 ≤ bytes) (fits : bytes ≤ length mem) (int : bytes < 2 ^ 31)
    (zero_field : val mem / 2 ^ (8 * info.prefix_bytes) % 2 ^ 32 ≡ 0) where
  abbrev p : ℕ
  p = info.prefix_bytes

  abbrev behind : List ℕ
  behind = drop (p + 4) mem

  -- What WritePacket takes the checksum of.
  abbrev covered : List ℕ
  covered = take (bytes - p) (drop p mem)

  abbrev tail : List ℕ
  tail = take (bytes - (p + 4)) behind

  field_is_zero : take 4 (drop p mem) ≡ bytes_of 4 0
  field_is_zero =
      val-injective (take 4 (drop p mem)) (bytes_of 4 0)
        (take-IsBytes 4 (drop p mem) (drop-IsBytes p mem b)) (bytes_of-IsBytes 4 0)
        (omega (arith, length-take 4 (drop p mem), length-drop p mem))
        (val-take 4 (drop p mem) (drop-IsBytes p mem b) (omega (arith, length-drop p mem))
          ∙ ap (λ (t : ℕ). t % 2 ^ 32) (val-drop p mem b (omega arith))
          ∙ zero_field)

  covered_parts : covered ≡ bytes_of 4 0 ++ tail
  covered_parts =
      ap (λ (t : ℕ). take t (drop p mem)) {x = bytes - p} {y = 4 + (bytes - (p + 4))} (omega arith)
      ∙ take-add 4 (bytes - (p + 4)) (drop p mem)
      ∙ ap (λ (l : List ℕ). l ++ take (bytes - (p + 4)) (drop 4 (drop p mem))) field_is_zero
      ∙ ap (λ (l : List ℕ). bytes_of 4 0 ++ take (bytes - (p + 4)) l) (drop-drop p 4 mem)

  abbrev crc : ℕ
  crc = calculate_crc32 covered (protocol_crc info.protocol_id)

  crc-lt : crc < 2 ^ 32
  crc-lt = calculate_crc32-lt covered _ (protocol_crc-lt info.protocol_id)

  crc_in_pieces :
      calculate_crc32 tail (calculate_crc32 (bytes_of 4 0) (protocol_crc info.protocol_id)) ≡ crc
  crc_in_pieces = sym (
      ap (λ (l : List ℕ). calculate_crc32 l (protocol_crc info.protocol_id)) covered_parts
      ∙ calculate_crc32-append (bytes_of 4 0) tail _ (protocol_crc-lt info.protocol_id))

  module _ (mem' : List ℕ) (w : Written p 4 (val (bytes_of 4 crc)) mem mem') where
    stored_crc : val mem' / 2 ^ (8 * p) % 2 ^ 32 ≡ crc
    stored_crc =
        sym (mod-two-pow-high (val mem') (8 * p) 32)
        ∙ ap (λ (t : ℕ). val mem' % 2 ^ t / 2 ^ (8 * p)) {x = 8 * p + 32} {y = 8 * (p + 4)}
            (omega arith)
        ∙ (parts_of_sum (8 * p) (val mem % 2 ^ (8 * p)) (val (bytes_of 4 crc)) _
            (mod-lt (val mem) (two-pow-pos (8 * p))) w.low).1
        ∙ (val-bytes_of 4 crc ∙ mod-eq_of_lt crc-lt)

    expected_crc : expected_checksum info bytes mem' ≡ some crc
    unfolding expected_checksum read_at
    expected_crc =
        let count : (bytes + 2 ^ 64 - 4 - p) % 2 ^ 64 ≡ bytes - (p + 4) = omega arith in
        let same : take (bytes - (p + 4)) (drop (p + 4) mem') ≡ tail =
          ap (take (bytes - (p + 4))) w.above in
        let room : leb (p + 4 + (bytes - (p + 4))) (length mem') ≡ true =
          ground (arith, w.same_length) in
        rw (count, read_at, room, same) (ap some crc_in_pieces)

    checked : Checked info bytes mem mem'
    checked = record {
      crc = crc;
      expected = expected_crc;
      stored = stored_crc;
      is_bytes = w.bytes;
      same_length = w.same_length;
      above =
          sym (val-drop (p + 4) mem' w.bytes (omega (arith, w.same_length)))
          ∙ ap val w.above
          ∙ val-drop (p + 4) mem b (omega arith);
    }

  -- In a buffer of bytes whose checksum field is zero and within the reported size, WritePacket
  -- stores a checksum that ReadPacket expects, and leaves all behind the field as it was.
  pub write_checksum-Checked :
      (mem' : List ℕ) × (write_checksum info bytes mem ≡ some mem') × Checked info bytes mem mem'
  unfolding write_checksum read_at
  write_checksum-Checked =
      let r =
        write_at-Written p (bytes_of 4 crc) mem (omega (arith, length-bytes_of 4 crc)) b
          (bytes_of-IsBytes 4 crc) in
      let room : leb (p + (bytes - p)) (length mem) ≡ true = ground arith in
      (r.0, rw room r.1, checked r.0 r.2)
