-- ===== src/Rdma/Positions.antt =====
-- What the 64-bit position arithmetic of InputChannelConnection.cpp amounts to where no position
-- exceeds 64 bits.
use flesnet.Base.{ℕ, ◌+◌, ◌-◌, ◌≤◌, ◌<◌, ◌≡◌, Bool, true, ◌&&◌, arith, u64_mod, add64, sub64}
use flesnet.Rdma.{
  Position, InputConnection, check_for_buffer_space, skip_required, same_position, data_size,
  desc_size,
}

-- The free space computed with wrap-around is the true one.
pub free_space :
    (ack wp size : ℕ)
    → ack ≤ wp
    → wp ≤ ack + size
    → wp < u64_mod
    → size < u64_mod
    → add64 (sub64 ack wp) size ≡ ack + size - wp
free_space ack wp size a b c d = ground arith

pub and_split : (a b : Bool) → (a && b) ≡ true → (a ≡ true) × (b ≡ true)
and_split a b e = ground arith

-- Space that was checked is there.
pub check_for_buffer_space_lem :
    (c : InputConnection) (data_len desc_len : ℕ)
    → c.cn_ack.data_index ≤ c.cn_wp.data_index
    → c.cn_wp.data_index ≤ c.cn_ack.data_index + data_size c
    → c.cn_ack.desc ≤ c.cn_wp.desc
    → c.cn_wp.desc ≤ c.cn_ack.desc + desc_size c
    → c.cn_wp.data_index < u64_mod
    → c.cn_wp.desc < u64_mod
    → data_size c < u64_mod
    → desc_size c < u64_mod
    → check_for_buffer_space c data_len desc_len ≡ true
    → (c.cn_wp.data_index + data_len ≤ c.cn_ack.data_index + data_size c)
      × (c.cn_wp.desc + desc_len ≤ c.cn_ack.desc + desc_size c)
unfolding check_for_buffer_space
check_for_buffer_space_lem c data_len desc_len a1 a2 b1 b2 r1 r2 s1 s2 h =
    let f1 = free_space c.cn_ack.data_index c.cn_wp.data_index (data_size c) a1 a2 r1 s1 in
    let f2 = free_space c.cn_ack.desc c.cn_wp.desc (desc_size c) b1 b2 r2 s2 in
    ground (arith, f1, f2, h)

-- The skip is less than one buffer.
pub skip_required-le : (c : InputConnection) (len : ℕ) → skip_required c len ≤ data_size c
unfolding skip_required
skip_required-le c len = ground arith

pub same_position-desc : (a b : Position) → same_position a b ≡ true → a.desc ≡ b.desc
unfolding same_position
same_position-desc a b h = ground (arith, h)
