-- ===== src/Emulation/PacketBuffer.antt =====
-- `PacketBuffer` of server/packetbuffer.h and server/packetbuffer.cpp. A pointer is its distance from
-- `buffer_`, where `head_` always points; `end_` is the size of the memory. The lengths that callers
-- pass are not negative. A read outside the memory, which is undefined in the source, reads 0 here,
-- and a write outside it writes nothing; what is proved of packets is for those that are long enough.
pub mod Bounds
pub mod Contents
pub mod Reads
use ostinato.Base.{
  ℕ, ◌+◌, ◌-◌, ◌*◌, ◌/◌, ◌%◌, ◌^◌, Option, none, some, List, [], ◌∷◌, ltb, ◌==◌, if◌then◌else◌, u8,
  ◌>>>◌, length, get_or, set, take, drop,
}

pub record PacketBuffer : Type 0 where
  pub memory : List ℕ
  pub data' : ℕ
  pub tail : ℕ

-- The size that `PacketBuffer(int)` asks for.
unfoldable pub buffer_size : ℕ → ℕ
buffer_size size = if size == 0 then 1600 else size

-- `PacketBuffer(int)`, on the memory that `new` returned.
unfoldable pub new_buffer : List ℕ → PacketBuffer
new_buffer memory = record { memory = memory; data' = 0; tail = 0 }

-- `PacketBuffer(const uchar *, int)`.
unfoldable pub wrap_buffer : List ℕ → PacketBuffer
wrap_buffer memory = record { memory = memory; data' = 0; tail = length memory }

unfoldable pub buffer_length : PacketBuffer → ℕ
buffer_length p = p.tail - p.data'

unfoldable pub reserve : ℕ → PacketBuffer → PacketBuffer
reserve len p = record p { data' = p.data' + len; tail = p.tail + len }

-- The pointer that is returned, and the buffer.
unfoldable pub pull : ℕ → PacketBuffer → Option ℕ × PacketBuffer
pull len p =
    if ltb (p.tail - p.data') len
    then (none, p)
    else (some (p.data' + len), record p { data' = p.data' + len })

unfoldable pub push_data : ℕ → PacketBuffer → Option ℕ × PacketBuffer
push_data len p =
    if ltb p.data' len
    then (none, p)
    else (some (p.data' - len), record p { data' = p.data' - len })

unfoldable pub put : ℕ → PacketBuffer → Option ℕ × PacketBuffer
put len p =
    if ltb (length p.memory - p.tail) len
    then (none, p)
    else (some p.tail, record p { tail = p.tail + len })

-- Stores of bytes at a pointer and behind it.
unfoldable pub store : ℕ → List ℕ → List ℕ → List ℕ
store at [] memory = memory
store at (b ∷ bytes) memory = store (at + 1) bytes (set memory at b)

unfoldable pub write : ℕ → List ℕ → PacketBuffer → PacketBuffer
write at bytes p = record p { memory = store at bytes p.memory }

-- What `transmitPacket` sends of a buffer.
unfoldable pub contents : PacketBuffer → List ℕ
contents p = take (p.tail - p.data') (drop p.data' p.memory)

-- `qFromBigEndian` at a pointer.
unfoldable pub read8 : ℕ → PacketBuffer → ℕ
read8 at p = get_or p.memory at 0

unfoldable pub read16 : ℕ → PacketBuffer → ℕ
read16 at p = read8 at p * 2 ^ 8 + read8 (at + 1) p

unfoldable pub read32 : ℕ → PacketBuffer → ℕ
read32 at p = read16 at p * 2 ^ 16 + read16 (at + 2) p

-- `qToBigEndian`.
unfoldable pub bytes16 : ℕ → List ℕ
bytes16 x = u8 (x >>> 8) ∷ u8 x ∷ []

unfoldable pub bytes32 : ℕ → List ℕ
bytes32 x = u8 (x >>> 24) ∷ u8 (x >>> 16) ∷ u8 (x >>> 8) ∷ u8 x ∷ []

-- What follows a call that returns a pointer: where it is null, and where it is not.
unfoldable pub pointed {ℓ} :
    {A : Type ℓ} → Option ℕ × PacketBuffer → (PacketBuffer → A) → (ℕ → PacketBuffer → A) → A
pointed (none, p) null at = null p
pointed (some pointer, p) null at = at pointer p
