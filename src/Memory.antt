-- ===== src/Memory.antt =====
-- The address space of the process, and the accessors and the copy routine of
-- middleware/safemlib/src/rtss_mailbox_lib.c that everything else reads and writes it by.
-- An address is a number, NULL is 0, and a byte is stored at each address. Pointer sums do not
-- wrap: the mapping and the buffers lie inside the 64-bit address space.
pub mod Word
pub mod Copy
pub mod Tests
use rtss_mailbox_umd.Base.{
  ℕ, zero, suc, ◌+◌, ◌-◌, ◌*◌, ◌/◌, ◌%◌, Bool, ◌&&◌, ◌||◌, ltb, leb, ◌==◌, if◌then◌else◌,
}

abbrev pub Memory : Type 0
Memory = ℕ → ℕ

-- A little-endian 32-bit load. The barrier behind it orders it against other observers, and
-- does nothing to a memory that one thread sees.
unfoldable pub get_reg : Memory → ℕ → ℕ
get_reg m a = m a + 256 * m (a + 1) + 65536 * m (a + 2) + 16777216 * m (a + 3)

-- The same for registers that do not change once the mailbox exists.
abbrev pub get_const_reg : Memory → ℕ → ℕ
get_const_reg m a = get_reg m a

-- A little-endian 32-bit store.
unfoldable pub set_reg : Memory → ℕ → ℕ → Memory
set_reg m a v p =
    if p == a
    then v % 256
    else if p == a + 1
    then v / 256 % 256
    else if p == a + 2
    then v / 65536 % 256
    else if p == a + 3
    then v / 16777216 % 256
    else m p

-- `n` bytes from `s` on, written from `d` on, all read before the first is written.
unfoldable pub copy_run : Memory → ℕ → ℕ → ℕ → Memory
copy_run m d s n p = if leb d p && ltb p (d + n) then m (s + (p - d)) else m p

-- The variables of a copy loop: the memory and the two pointers that move.
pub record Cursor : Type 0 where
  pub mem : Memory
  pub dest : ℕ
  pub src : ℕ

-- `*dest++ = *src++` at pointers to `w` bytes.
pub move : ℕ → Cursor → Cursor
move w c = record { mem = copy_run c.mem c.dest c.src w; dest = c.dest + w; src = c.src + w }

-- `while (count >= 4)`: the unrolled loop, and what is left of the count.
pub quads : ℕ → Cursor → ℕ → Cursor × ℕ
unfolding move
quads w c zero = (c, 0)
quads w c (suc zero) = (c, 1)
quads w c (suc (suc zero)) = (c, 2)
quads w c (suc (suc (suc zero))) = (c, 3)
quads w c (suc (suc (suc (suc n)))) = quads w (move w (move w (move w (move w c)))) n

-- `while (count > 0)`
pub singles : ℕ → Cursor → ℕ → Cursor
unfolding move
singles w c zero = c
singles w c (suc n) = singles w (move w c) n

-- Both loops over items of `w` bytes, one behind the other.
unfoldable pub loops : ℕ → Cursor → ℕ → Cursor
unfolding quads singles
loops w c n = let (c', left) = quads w c n in singles w c' left

unfoldable pub libmbcopy_bytes : Memory → ℕ → ℕ → ℕ → Memory
libmbcopy_bytes m dest src byte_num =
    let aligned = dest % 8 == 0 && src % 8 == 0 in
    let word_count : ℕ = if aligned then byte_num / 8 else 0 in
    let byte_count : ℕ = if aligned then byte_num % 8 else byte_num in
    let start : Cursor = record { mem = m; dest = dest; src = src } in
    if src == 0 || dest == 0 || byte_num == 0
    then m
    else (loops 1 (loops 8 start word_count) byte_count).mem
