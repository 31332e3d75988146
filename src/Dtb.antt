-- ===== src/Dtb.antt =====
-- kern/driver/dtb.c: the size of physical memory, from the device tree that the firmware hands over.
-- Memory is the byte at each address. `memory` and `reg` are where the two string literals are.
pub mod Words
pub mod Tree
pub mod Found
mod Examples
use lab.Base.{
  ℕ, zero, suc, ◌+◌, ◌-◌, ◌*◌, ◌/◌, ◌%◌, ◌^◌, Bool, true, false, ◌&&◌, leb, ◌==◌, if◌then◌else◌,
  Option, none, some, ℤ, pos, negsuc, Outcome, ok, out_of_fuel, ◌>>=◌,
}
use lab.Space.{Bytes}
use lab.Load.{read_le}
use lab.Strings.Compare.{is_equal}
use lab.Strings.{strlen, strcmp, strncmp}

pub record Literals : Type 0 where
  pub memory : ℕ
  pub reg : ℕ

abbrev pub fdt_begin_node : ℕ
fdt_begin_node = 1

abbrev pub fdt_end_node : ℕ
fdt_end_node = 2

abbrev pub fdt_prop : ℕ
fdt_prop = 3

abbrev pub fdt_nop : ℕ
fdt_nop = 4

abbrev pub fdt_magic : ℕ
fdt_magic = 0xD00DFEED

-- The bytes that are shifted into place have no bit in common.
abbrev pub fdt32_to_cpu : ℕ → ℕ
fdt32_to_cpu x =
    x % 256 * 2 ^ 24 + x / 2 ^ 8 % 256 * 2 ^ 16 + x / 2 ^ 16 % 256 * 2 ^ 8 + x / 2 ^ 24 % 256

abbrev pub fdt64_to_cpu : ℕ → ℕ
fdt64_to_cpu x = fdt32_to_cpu (x % 2 ^ 32) * 2 ^ 32 + fdt32_to_cpu (x / 2 ^ 32)

-- `fdt32_to_cpu(*struct_ptr)` and `struct_ptr + 1`.
abbrev pub word_at : Bytes → ℕ → ℕ
word_at mem p = fdt32_to_cpu (read_le 4 p mem)

abbrev pub next_word : ℕ → ℕ
next_word p = (p + 4) % 2 ^ 64

-- `n & ~3`
abbrev pub align_down : ℕ → ℕ
align_down n = n - n % 4

-- What a round of the loop does: it goes on at `struct_ptr` with `in_memory_node`, it has found the base
-- and the size, or there is nothing to find.
pub data Round : Type 0 where
  goes_on : ℕ → Bool → Round
  found : ℕ → ℕ → Round
  not_found : Round

-- `int name_len` is the length for names of fewer than 2 ^ 31 characters.
unfoldable pub begin_node : ℕ → Literals → Bytes → ℕ → Bool → Outcome Round
begin_node chars lit mem name in_memory_node = do
  name_len ← strlen chars mem name
  ok (
      goes_on (align_down ((name + name_len + 4) % 2 ^ 64))
        (if is_equal (strncmp mem name lit.memory 6) then true else in_memory_node))

-- Is it the `reg` property of the memory node? Its name is read only there.
unfoldable pub is_memory_reg : ℕ → Literals → Bytes → ℕ → ℕ → Bool → Outcome Bool
is_memory_reg chars lit mem prop_name prop_len false = ok false
is_memory_reg chars lit mem prop_name prop_len true = do
  difference ← strcmp chars mem prop_name lit.reg
  ok (is_equal difference && leb 16 prop_len)

-- `case FDT_PROP`: prop_len and prop_nameoff are read, and then comes prop_data.
unfoldable pub property_at : ℕ → Literals → ℕ → Bytes → Bool → ℕ → ℕ → ℕ → Outcome Round
unfolding is_memory_reg
property_at chars lit strings_base mem in_memory_node prop_len prop_nameoff prop_data = do
  let prop_name = (strings_base + prop_nameoff) % 2 ^ 64
  it ← is_memory_reg chars lit mem prop_name prop_len in_memory_node
  ok (
      if it
      then found (fdt64_to_cpu (read_le 8 prop_data mem))
          (fdt64_to_cpu (read_le 8 (prop_data + 8) mem))
      else goes_on (align_down ((prop_data + prop_len + 3) % 2 ^ 64)) in_memory_node)

unfoldable pub property : ℕ → Literals → ℕ → Bytes → ℕ → Bool → Outcome Round
unfolding property_at
property chars lit strings_base mem p in_memory_node =
    property_at chars lit strings_base mem in_memory_node (word_at mem p)
      (word_at mem (next_word p)) (next_word (next_word p))

-- `switch (token)`, where the pointer is behind the token.
unfoldable pub switch_token : ℕ → Literals → ℕ → Bytes → ℕ → Bool → ℕ → Outcome Round
unfolding begin_node property
switch_token chars lit strings_base mem p in_memory_node token =
    if token == fdt_begin_node
    then begin_node chars lit mem p in_memory_node
    else if token == fdt_end_node
    then ok (goes_on p false)
    else if token == fdt_prop
    then property chars lit strings_base mem p in_memory_node
    else if token == fdt_nop
    then ok (goes_on p in_memory_node)
    else ok not_found

-- The loop of extract_memory_info; its result 0 with the base and the size, or -1.
unfoldable pub scan : ℕ → ℕ → Literals → ℕ → Bytes → ℕ → Bool → Outcome (Option (ℕ × ℕ))
unfolding switch_token
scan zero chars lit strings_base mem struct_ptr in_memory_node = out_of_fuel
scan (suc fuel) chars lit strings_base mem struct_ptr in_memory_node = do
  let token = word_at mem struct_ptr
  r ← switch_token chars lit strings_base mem (next_word struct_ptr) in_memory_node token
  elim r [
    | goes_on p b ↦ scan fuel chars lit strings_base mem p b
    | found base size ↦ ok (some (base, size))
    | not_found ↦ ok none
  ]

unfoldable pub extract_memory_info : ℕ → ℕ → Literals → Bytes → ℕ → Outcome (Option (ℕ × ℕ))
unfolding scan
extract_memory_info fuel chars lit mem dtb_vaddr =
    let struct_offset = word_at mem (dtb_vaddr + 8) in
    let strings_offset = word_at mem (dtb_vaddr + 12) in
    scan fuel chars lit ((dtb_vaddr + strings_offset) % 2 ^ 64) mem
      ((dtb_vaddr + struct_offset) % 2 ^ 64) false

-- `memory_base` and `memory_size`, which get_memory_base and get_memory_size return.
pub record PhysicalMemory : Type 0 where
  pub memory_base : ℕ
  pub memory_size : ℕ

abbrev pub physical_memory_offset : ℕ
physical_memory_offset = 0xFFFFFFFF40000000

-- `*mem_base` and `*mem_size` are saved if they are found.
abbrev pub save : PhysicalMemory → Option (ℕ × ℕ) → PhysicalMemory
save old none = old
save old (some (base, size)) = record { memory_base = base; memory_size = size }

unfoldable pub dtb_init : ℕ → ℕ → Literals → Bytes → ℕ → PhysicalMemory → Outcome PhysicalMemory
unfolding extract_memory_info
dtb_init fuel chars lit mem boot_dtb old =
    let dtb_vaddr = (boot_dtb + physical_memory_offset) % 2 ^ 64 in
    if boot_dtb == 0
    then ok old
    else if word_at mem dtb_vaddr == fdt_magic
    then (do info ← extract_memory_info fuel chars lit mem dtb_vaddr; ok (save old info))
    else ok old
