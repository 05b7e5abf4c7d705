-- ===== src/Util/Sequence.antt =====
-- svr/library/networking/NetworkUtil.h: sequence_greater_than, sequence_less_than and
-- sequence_difference on 16-bit sequence numbers.
use rudp_network.Prelude.{
  ℕ, ◌+◌, ◌-◌, ◌%◌, ◌≤◌, ◌<◌, ◌≡◌, ◌≢◌, not, arith, ltb, leb, Bool, true, ◌&&◌, ◌||◌, if◌then◌else◌,
}
use rudp_network.Prelude.Int.{ℤ, pos, sub_ℕ}

-- The subtractions are made only where they do not go below 0.
unfoldable pub sequence_greater_than : ℕ → ℕ → Bool
sequence_greater_than s1 s2 =
    (ltb s2 s1 && leb (s1 - s2) 32768) || (ltb s1 s2 && ltb 32768 (s2 - s1))

unfoldable pub sequence_less_than : ℕ → ℕ → Bool
unfolding sequence_greater_than
sequence_less_than s1 s2 = sequence_greater_than s2 s1

-- The source compares with 32786.
unfoldable pub sequence_difference : ℕ → ℕ → ℤ
sequence_difference s1 s2 =
    if leb 32786 (s1 - s2 + (s2 - s1))
    then (if ltb s2 s1 then sub_ℕ s1 (s2 + 65536) else sub_ℕ (s1 + 65536) s2)
    else sub_ℕ s1 s2

-- Of two different 16-bit sequence numbers exactly one is greater than the other.
pub sequence_greater_than_total :
    (s1 s2 : ℕ)
    → s1 < 65536
    → s2 < 65536
    → s1 ≢ s2
    → not (sequence_greater_than s1 s2) ≡ sequence_less_than s1 s2
unfolding sequence_less_than
sequence_greater_than_total s1 s2 h k ne = ground arith

-- A 16-bit sequence number that follows another by 1 to 32750 steps modulo 65536 is greater, and
-- the difference is the number of steps.
pub sequence_difference_ahead :
    (s d : ℕ)
    → s < 65536
    → 0 < d
    → d ≤ 32750
    → (sequence_greater_than ((s + d) % 65536) s ≡ true)
      × (sequence_difference ((s + d) % 65536) s ≡ pos d)
unfolding sequence_greater_than sequence_difference
sequence_difference_ahead s d h p k = ground arith

-- For a number that follows another by 32769 to 32785 steps without a wrap, it is less as a
-- sequence number, and the difference is positive.
pub sequence_difference_sign :
    (s d : ℕ)
    → s + d < 65536
    → 32768 < d
    → d < 32786
    → (sequence_less_than (s + d) s ≡ true) × (sequence_difference (s + d) s ≡ pos d)
unfolding sequence_less_than sequence_difference
sequence_difference_sign s d h p k = ground arith
