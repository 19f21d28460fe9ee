-- ===== src/Rdma/Request.antt =====
-- What the requests of send_data (lib/fles_rdma/InputChannelConnection.cpp) write.
use flesnet.Base.{
  ℕ, ◌+◌, ◌-◌, ◌%◌, ◌≤◌, bit_and, ◌≡◌, Option, none, some, List, [], length, take, add64,
}
use flesnet.Rdma.{InputConnection, data_size}
use flesnet.Rdma.Write.{Sge, RdmaWrite, Request, gather}

abbrev first : ℕ → List Sge × List Sge × ℕ → List Sge
first n r = take (n - r.2) (r.0)

-- The bytes at the begin of the buffer, if there are any.
unfoldable pub wrapped : (ℕ → ℕ) → Option RdmaWrite → List ℕ
wrapped m none = []
wrapped m (some w) = gather m w.sg_list

-- A second write, if there is one, is to this address.
unfoldable pub StartsAt : ℕ → Option RdmaWrite → Type 0
StartsAt addr none = Unit {0}
StartsAt addr (some w) = w.remote_addr ≡ addr

-- The bytes left in the target buffer from where a component begins.
abbrev room : InputConnection → ℕ → ℕ
room c skip = data_size c - bit_and (add64 c.cn_wp.data_index skip) (data_size c - 1)

-- Where the two writes of a component go, in a target buffer at `data_addr`: the first begins at
-- the cell of the written position after the skip and ends within the buffer, and the second, if
-- there is one, begins at the begin of the buffer.
pub record IsPlaced (m : ℕ → ℕ) (c : InputConnection) (data_addr skip : ℕ) (q : Request)
    : Type 0 where
  pub begins :
      q.rest_of_buffer.remote_addr ≡ data_addr + add64 c.cn_wp.data_index skip % data_size c
  pub ends :
      q.rest_of_buffer.remote_addr + length (gather m q.rest_of_buffer.sg_list)
      ≤ data_addr + data_size c
  pub wraps : StartsAt data_addr q.wrap
