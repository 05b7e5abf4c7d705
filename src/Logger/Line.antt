-- ===== src/Logger/Line.antt =====
-- svr/library/commlib/logging.cpp: how logv builds a line in its buffer of 4096 bytes. A pointer
-- into the buffer is its offset.
use rudp_network.Prelude.{
  ℕ, zero, suc, ◌+◌, ◌-◌, List, [], ◌∷◌, ◌++◌, ◌==◌, min, Option, some, none, ◌>>=◌, if◌then◌else◌,
  length, take, get_elem?, u64, ◌^◌,
}
use rudp_network.Prelude.Int.{ℤ, pos, ◌+ℤ◌}
use rudp_network.Memory.{write_at}
use rudp_network.Logger.{Tm}
use rudp_network.Logger.Text.{digits, print_int}

abbrev pub buffer_size : ℕ
buffer_size = 4096

-- snprintf(buffer + p, size, ...) of a text: at most size - 1 of its characters, and a '\0'.
unfoldable pub snprintf : ℕ → ℕ → List ℕ → List ℕ → Option (List ℕ)
unfolding write_at
snprintf p zero text mem = some mem
snprintf p (suc size) text mem = write_at p (take size text ++ (0 ∷ [])) mem

-- The text in front of the message: "%04d/%02d/%02d-%02d:%02d:%02d.%06d %lx %s %s:%d ".
unfoldable pub header : Tm → ℤ → ℕ → List ℕ → List ℕ → ℤ → List ℕ
unfolding print_int digits
header t usec tid level_str file line =
    print_int 4 (t.tm_year +ℤ pos 1900)
    ++ (47
        ∷ (print_int 2 (t.tm_mon +ℤ pos 1)
            ++ (47
                ∷ (print_int 2 t.tm_mday
                    ++ (45
                        ∷ (print_int 2 t.tm_hour
                            ++ (58
                                ∷ (print_int 2 t.tm_min
                                    ++ (58
                                        ∷ (print_int 2 t.tm_sec
                                            ++ (46
                                                ∷ (print_int 6 usec
                                                    ++ (32
                                                        ∷ (digits 16 16 tid []
                                                            ++ (32
                                                            ∷ (level_str
                                                            ++ (32
                                                            ∷ (file
                                                            ++ (58
                                                            ∷ (print_int 0 line
                                                            ++ (32 ∷ [])))))))))))))))))))))

-- `while (*--p == '\n') {}`: the offset that it stops at. It is undefined to pass the start.
unfoldable pub trim : ℕ → List ℕ → Option ℕ
trim zero mem = none
trim (suc p) mem = do let more = trim p mem; c ← get_elem? mem p; if c == 10 then more else some p

-- Both prints. The first gives the length that the header would have, below 2^31, and the second is
-- of `limit - p` bytes as a size_t, which is near 2^64 when that is behind the limit.
unfoldable pub print_both : List ℕ → List ℕ → List ℕ → Option (List ℕ)
unfolding snprintf
print_both head message mem = do
  printed ← snprintf 0 buffer_size head mem
  snprintf (length head) (u64 (buffer_size + 2 ^ 64 - length head)) message printed

-- The buffer and the length of the line in it, from the two prints on.
unfoldable pub build_line : List ℕ → List ℕ → List ℕ → Option (List ℕ × ℕ)
unfolding print_both trim write_at
build_line head message mem = do
  printed ← print_both head message mem
  last ← trim (min (length head + length message) (buffer_size - 2)) printed
  ended ← write_at (last + 1) (10 ∷ []) printed
  closed ← write_at (last + 2) (0 ∷ []) ended
  some (closed, last + 2)
