-- ===== src/Ipc/Copy.antt =====
-- The functions of kernel/ipc_2.c that copy a message. `own` and `phys` translate the addresses of
-- the running process and of the other one (MemoryVirtual2physical); the memory is by physical
-- addresses, and the page that VirtualSpaceMmap maps is used through its physical addresses.
use ukernel_mp.Base.{
  ℕ, zero, suc, ◌+◌, ◌-◌, ◌%◌, ◌^◌, Option, none, some, ltb, if◌then◌else◌, update,
}

abbrev pub page_size : ℕ
page_size = 4096

-- a - b, as a `uint32_t`
abbrev pub sub32 : ℕ → ℕ → ℕ
sub32 a b = (a + 2 ^ 32 - b) % 2 ^ 32

-- `MsgCopy` of `left` bytes from byte `i` on; byte `i` of the source is at the physical address
-- `from i`.
unfoldable pub msg_copy : (left : ℕ) → (from to : ℕ → ℕ) → (i : ℕ) → (ℕ → ℕ) → (ℕ → ℕ)
msg_copy zero from to i b = b
msg_copy (suc left) from to i b = msg_copy left from to (suc i) (update b (to i) (b (from i)))

-- Byte `i` of the buffer at `base`, from `off` on.
abbrev pub buffer : (space : ℕ → ℕ) → (base off i : ℕ) → ℕ
buffer space base off i = space ((base + off + i) % 2 ^ 32)

unfoldable pub msg_copy_size : (sbytes soff rbytes roff : ℕ) → ℕ
msg_copy_size sbytes soff rbytes roff =
    if ltb (sub32 sbytes soff) (sub32 rbytes roff) then sub32 sbytes soff else sub32 rbytes roff

-- Both buffers are of the running process.
unfoldable pub msg_direct_copy :
    (own : ℕ → ℕ) → (send sbytes soff recv rbytes roff : ℕ) → (ℕ → ℕ) → ℕ × (ℕ → ℕ)
unfolding msg_copy_size msg_copy
msg_direct_copy own send sbytes soff recv rbytes roff b =
    let size = msg_copy_size sbytes soff rbytes roff in
    (size, msg_copy size (buffer own send soff) (buffer own recv roff) 0 b)

-- `mapSize` in front of the loop.
abbrev pub first_part : (size addr_off : ℕ) → ℕ
first_part size addr_off = if ltb size (page_size - addr_off) then size else page_size - addr_off

-- `mapSize` in the loop.
abbrev pub next_part : (size mapped : ℕ) → ℕ
next_part size mapped =
    if ltb size ((mapped + page_size) % 2 ^ 32) then sub32 size mapped else page_size

-- The loop of `MsgMapReceiverCopy` and of `MsgMapSenderCopy`: `copy n mapped page` copies `n` bytes
-- of the message, from byte `mapped` on, between the running process's buffer and the page of the
-- other one. No result is a loop that has not ended within its fuel.
unfoldable pub map_loop :
    ℕ
    → (copy : ℕ → ℕ → (ℕ → ℕ) → (ℕ → ℕ) → (ℕ → ℕ)) → (phys : ℕ → ℕ)
    → (size mapped addr_off vcopy map_size bp : ℕ) → (ℕ → ℕ)
    → Option (ℕ → ℕ)
map_loop zero copy phys size mapped addr_off vcopy map_size bp b = none
map_loop (suc fuel) copy phys size mapped addr_off vcopy map_size bp b =
    let done = (mapped + map_size) % 2 ^ 32 in
    let after = (vcopy + map_size) % 2 ^ 32 in
    let rest =
      map_loop fuel copy phys size done 0 after (next_part size done) (phys after)
        (copy map_size mapped (λ i. bp + addr_off + i) b) in
    if ltb mapped size then rest else some b

-- With the address of the other process's buffer.
unfoldable pub map_copy :
    ℕ
    → (copy : ℕ → ℕ → (ℕ → ℕ) → (ℕ → ℕ) → (ℕ → ℕ)) → (phys : ℕ → ℕ) → (base off size : ℕ) → (ℕ → ℕ)
    → Option (ℕ → ℕ)
unfolding map_loop
map_copy fuel copy phys base off size b =
    let vcopy = (base + off) % 2 ^ 32 in
    let addr_off = phys vcopy % page_size in
    map_loop fuel copy phys size 0 addr_off vcopy (first_part size addr_off) (phys vcopy - addr_off)
      b

-- `size` bytes of the running process's buffer at `send` to the other process's at `recv`.
unfoldable pub msg_map_receiver_copy :
    (fuel : ℕ)
    → (own phys : ℕ → ℕ) → (send send_off recv rcv_off size : ℕ) → (ℕ → ℕ)
    → Option (ℕ → ℕ)
unfolding map_copy msg_copy
msg_map_receiver_copy fuel own phys send send_off recv rcv_off size =
    map_copy fuel (λ n mapped page. msg_copy n (λ i. buffer own send send_off (mapped + i)) page 0)
      phys recv rcv_off size

-- `size` bytes of the other process's buffer at `send` to the running process's at `recv`.
unfoldable pub msg_map_sender_copy :
    (fuel : ℕ)
    → (own phys : ℕ → ℕ) → (send send_off recv rcv_off size : ℕ) → (ℕ → ℕ)
    → Option (ℕ → ℕ)
unfolding map_copy msg_copy
msg_map_sender_copy fuel own phys send send_off recv rcv_off size =
    map_copy fuel (λ n mapped page. msg_copy n page (λ i. buffer own recv rcv_off (mapped + i)) 0)
      phys send send_off size
