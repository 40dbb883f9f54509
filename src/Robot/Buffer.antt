-- ===== src/Robot/Buffer.antt =====
-- The circular buffer of lab6/src/common.c, between a thread that pushes frames and one that pops.
-- A function that takes `buf->mutex` for its whole length is one step; `buffer_pop` gives the mutex
-- back while it waits.
pub mod Queue
use sys_op.Prelude.{
  ℕ, ◌+◌, ◌-◌, ◌%◌, ◌==◌, List, Bool, true, false, not, ◌&&◌, if◌then◌else◌, get_or, set,
}

abbrev pub buffer_size : ℕ
buffer_size = 64

-- The frames are only moved, so they may be of any type; `d` is what an unused slot holds.
module _ {F : Type 0} (d : F) where
  pub record FrameBuffer : Type 0 where
    pub buffer : List F
    pub head : ℕ  -- write index
    pub tail : ℕ  -- read index
    pub count : ℕ

  unfoldable pub buffer_init : FrameBuffer → FrameBuffer
  buffer_init b = record b { head = 0; tail = 0; count = 0 }

  -- `if (buf->count == BUFFER_SIZE)`: the oldest frame is dropped.
  abbrev pub make_room : FrameBuffer → FrameBuffer
  make_room b =
      if b.count == buffer_size
      then record b { tail = (b.tail + 1) % buffer_size; count = b.count - 1 }
      else b

  unfoldable pub buffer_push : FrameBuffer → F → FrameBuffer
  buffer_push b frame =
      let r = make_room b in
      record r {
        buffer = set r.buffer r.head frame;
        head = (r.head + 1) % buffer_size;
        count = r.count + 1;
      }

  -- What `buffer_pop` does when it has the mutex: it waits, gives up, or has a frame.
  pub data Pop : Type 0 where
    waits : Pop
    aborts : Pop
    pops : F → FrameBuffer → Pop

  unfoldable pub buffer_pop : FrameBuffer → Bool → Pop
  buffer_pop b is_running =
      if b.count == 0 && is_running
      then waits
      else if not is_running && b.count == 0
      then aborts
      else pops (get_or b.buffer b.tail d)
          (record b { tail = (b.tail + 1) % buffer_size; count = b.count - 1 })
