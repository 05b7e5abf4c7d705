-- ===== src/Network/Prefix.antt =====
-- svr/library/networking/Network.cpp: the loops that skip the prefix.
use rudp_network.Prelude.{ℕ, zero, suc, ◌+◌, ◌*◌, ◌≤◌, ◌≡◌, refl, subst, arith, some}
use rudp_network.Stream.Write.{WriteStream}
use rudp_network.Stream.Read.{ReadStream}
use rudp_network.Stream.Advance.{
  Writing, Wrote, Reading, Readed, write_bits-Wrote, read_bits-Readed,
}
use rudp_network.Stream.Codec.{Wrote-none, Readed-none, Wrote-both, Readed-both}
use rudp_network.Network.{write_prefix, read_prefix}

-- The prefix is zero bytes.
pub write_prefix-Wrote :
    (n : ℕ) (s : WriteStream) {stream : ℕ}
    → Writing s stream
    → (s.writer).bits_written + 8 * n ≤ (s.writer).num_bits
    → (s' : WriteStream) × (write_prefix n s ≡ some s') × Wrote s stream 0 (8 * n) s'
unfolding write_prefix
write_prefix-Wrote zero s w fits = (s, refl, Wrote-none s w)
write_prefix-Wrote (suc n) s {stream} w fits =
    let a = write_bits-Wrote s 0 8 w (omega arith) (omega arith) (omega arith) in
    let b =
      write_prefix-Wrote n a.0 a.2.writing (omega (arith, a.2.bits_written, a.2.same.num_bits)) in
    (
      b.0,
      ground (arith, a.1, b.1),
      subst (λ (t : ℕ). Wrote s stream 0 t b.0) (omega arith)
          (subst (λ (t : ℕ). Wrote s stream t (8 + 8 * n) b.0) (omega arith)
            (Wrote-both stream 0 0 8 (8 * n) a.2 b.2)),
    )

-- A reader skips the prefix, whatever it holds.
pub read_prefix-Readed :
    (n : ℕ) (s : ReadStream) {rest : ℕ}
    → Reading s rest
    → (s.reader).bits_read + 8 * n ≤ (s.reader).num_bits
    → (s' : ReadStream) × (read_prefix n s ≡ some s') × Readed s rest (8 * n) s'
unfolding read_prefix
read_prefix-Readed zero s w fits = (s, refl, Readed-none s w)
read_prefix-Readed (suc n) s {rest} w fits =
    let a = read_bits-Readed s 0 8 w (omega arith) (omega arith) (omega arith) in
    let b = read_prefix-Readed n a.0 a.2.reading (omega (arith, a.2.bits_read, a.2.num_bits)) in
    (
      b.0,
      ground (arith, a.1, b.1),
      subst (λ (t : ℕ). Readed s rest t b.0) (omega arith) (Readed-both rest 8 (8 * n) a.2 b.2),
    )
