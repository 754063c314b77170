-- ===== src/Memory/Tests.antt =====
-- The theorem on common/memory.c at a buffer that is made shorter.
use chats.Memory.{BufferPolicy, Buffer}

abbrev sixteen : Buffer
sixteen = record { pol = BufferPolicy.shrink; real_size = 16; user_size = 16; block = 16 }

-- The block has 4 bytes then, and the size is 16 still.
