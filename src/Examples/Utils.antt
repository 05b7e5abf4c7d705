-- ===== src/Examples/Utils.antt =====
-- The hashes, the folded signs and the number of bits at particular values.
use rudp_network.Prelude.{ℕ, ◌≡◌, arith, some}
use rudp_network.Prelude.Int.{pos, negsuc, to_uint32}
use rudp_network.Util.Template.{bits_required_result, bits_required_result-bits_required}
use rudp_network.Util.BitsRequired.{bits_required, IsWidth}
use rudp_network.Util.Signed.{
  signed_to_unsigned, unsigned_to_signed, unsigned_to_signed-signed_to_unsigned,
}
use rudp_network.Util.Portable.{portable_bits_required, portable_bits_required-bits_required}

unsigned_to_signed-signed_to_unsigned_example :
    unsigned_to_signed (to_uint32 (signed_to_unsigned (negsuc 41))) ≡ negsuc 41
unsigned_to_signed-signed_to_unsigned_example =
    unsigned_to_signed-signed_to_unsigned (negsuc 41) (omega arith) (omega arith)

portable_bits_required-bits_required_example :
    bits_required 4294967291 95 ≡ some (portable_bits_required 4294967291 95)
portable_bits_required-bits_required_example =
    portable_bits_required-bits_required 4294967291 95 (omega arith) (omega arith) (omega arith)

bits_required_result-bits_required_example :
    (bits : ℕ) × (bits_required_result (negsuc 4) (pos 100) ≡ some bits)
    × (bits_required (to_uint32 (negsuc 4)) (to_uint32 (pos 100)) ≡ some bits)
    × IsWidth 105 bits
bits_required_result-bits_required_example =
    bits_required_result-bits_required (negsuc 4) (pos 100) (omega arith) (omega arith)
