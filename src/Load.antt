-- ===== src/Load.antt =====
-- `load_icode` of kern/process/proc.c up to the user stack, with libs/elf.h: the segments of a program.
-- Bytes of memory are beside the words that `Paging` reads, by physical address, and `binary` is the
-- file. The page tables are walked in `Paging`. Fuel bounds the pages of a segment.
pub mod Pages
pub mod Rounds
pub mod Segment
pub mod Contents
pub mod Wrapped
pub mod Samples
mod Examples
use Prim.Native.Nat.{bit_or}
use lab.Base.{
  ℕ, zero, suc, ◌+◌, ◌-◌, ◌*◌, ◌%◌, ◌^◌, Bool, true, false, ◌&&◌, ◌||◌, not, ltb, leb, ◌==◌,
  if◌then◌else◌, Option, none, some, ℤ, pos, negsuc, Outcome, ok, panic, out_of_fuel, ◌>>=◌, ◌>>◌,
  assert,
}
use lab.Vmm.{
  Mm, e_no_mem, page_size, word, any_of, vm_read, vm_write, vm_stack, user_top, round_down, mm_map,
}
use lab.Paging.{Perm, Machine, no_perm, is_zero, pgdir_alloc_page}
use lab.Space.{Bytes}

-- E_INVAL_ELF of libs/error.h, negated.
abbrev pub e_inval_elf : ℤ
e_inval_elf = negsuc 7

-- A little-endian number of `n` bytes.
abbrev pub read_le : ℕ → ℕ → Bytes → ℕ
read_le zero at file = 0
read_le (suc n) at file = file at + 256 * read_le n (at + 1) file

abbrev pub elf_magic : ℕ
elf_magic = 0x464C457F

-- The fields of `struct elfhdr` and `struct proghdr` that are used.
pub record Elf : Type 0 where
  pub e_magic : ℕ
  pub e_entry : ℕ
  pub e_phoff : ℕ
  pub e_phnum : ℕ

pub record ProgHdr : Type 0 where
  pub p_type : ℕ
  pub p_flags : ℕ
  pub p_offset : ℕ
  pub p_va : ℕ
  pub p_filesz : ℕ
  pub p_memsz : ℕ

unfoldable pub elf_header : Bytes → Elf
elf_header binary = record {
  e_magic = read_le 4 0 binary;
  e_entry = read_le 8 24 binary;
  e_phoff = read_le 8 32 binary;
  e_phnum = read_le 2 56 binary;
}

-- sizeof(struct proghdr)
abbrev pub proghdr_size : ℕ
proghdr_size = 56

unfoldable pub program_header : ℕ → Bytes → ProgHdr
program_header at binary = record {
  p_type = read_le 4 at binary;
  p_flags = read_le 4 (at + 4) binary;
  p_offset = read_le 8 (at + 8) binary;
  p_va = read_le 8 (at + 16) binary;
  p_filesz = read_le 8 (at + 32) binary;
  p_memsz = read_le 8 (at + 40) binary;
}

abbrev pub elf_pt_load : ℕ
elf_pt_load = 1

-- VM_EXEC of vmm.h.
abbrev pub vm_exec : ℕ
vm_exec = 0x4

-- ELF_PF_X, ELF_PF_W and ELF_PF_R, as flags of an area.
abbrev pub segment_flags : ℕ → ℕ
segment_flags p_flags =
    let exec = if any_of p_flags 1 then bit_or 0 vm_exec else 0 in
    let write = if any_of p_flags 2 then bit_or exec vm_write else exec in
    if any_of p_flags 4 then bit_or write vm_read else write

abbrev pub segment_perm : ℕ → Perm
segment_perm vm_flags = record no_perm {
  user = true;
  read = any_of vm_flags vm_read || any_of vm_flags vm_write;
  write = any_of vm_flags vm_write;
  exec = any_of vm_flags vm_exec;
}

-- `len` bytes from `dst` on are written, the byte at `dst + i` as `value i`: `memcpy` and `memset`.
abbrev pub write_bytes : ℕ → ℕ → (ℕ → ℕ) → Bytes → Bytes
write_bytes dst len value mem =
    λ a. if leb dst a && ltb a (dst + len) then value (a - dst) else mem a

-- The variables of a segment's loops: `page`, `start`, `la` and `from`; and the memory.
pub record Fill : Type 0 where
  pub page : ℕ
  pub start : ℕ
  pub la : ℕ
  pub from : ℕ
  pub machine : Machine
  pub bytes : Bytes

-- `size = PGSIZE - off; if (end < la) size -= la - end;`
abbrev pub chunk : ℕ → ℕ → ℕ → ℕ
chunk off la end =
    let size = (page_size + word - off) % word in
    if ltb end la then (size + word - (la - end)) % word else size

-- A round of the two loops with the page `p` for `la`: the bytes come from `source`. The check in page2kva
-- that the page is in memory always holds for pages of the allocator.
abbrev pub fill_page : ℕ → Bytes → ℕ → Machine → Fill → Fill
fill_page p source end m s =
    let off = (s.start + word - s.la) % word in
    let la = (s.la + page_size) % word in
    let size = chunk off la end in
    record {
      page = p;
      start = (s.start + size) % word;
      la = la;
      from = s.from + size;
      machine = m;
      bytes = write_bytes (p * page_size + off) size (λ i. source (s.from + i)) s.bytes;
    }

-- The loops (3.6.1), where `source` is the file, and (3.6.2), where it is zeros.
unfoldable pub fill_pages : ℕ → ℕ → ℕ → Perm → Bytes → ℕ → Fill → Outcome (ℤ × Fill)
fill_pages zero fuel pgdir perm source end s = out_of_fuel
fill_pages (suc rounds) fuel pgdir perm source end s =
    let round : Outcome (ℤ × Fill) = (do
      (page, m) ← pgdir_alloc_page fuel pgdir s.la perm s.machine
      elim page [
        | none ↦ ok (e_no_mem, record s { machine = m })
        | some p ↦ fill_pages rounds fuel pgdir perm source end (fill_page p source end m s)
      ]) in
    if ltb s.start end then round else ok (pos 0, s)

-- The bytes that are cleared in the last page of the file's part.
abbrev pub rest_size : ℕ → ℕ → ℕ → ℕ
rest_size start la end = chunk ((start + page_size + word - la) % word) la end

-- Behind the file's part, in the page that it ends in. Virtual addresses have 39 bits: a memset of more
-- than 2 ^ 39 bytes meets one with no page behind it, after whatever it has overwritten, and a page fault
-- in the kernel is a panic.
unfoldable pub clear_rest : ℕ → Fill → Outcome Fill
clear_rest end s =
    let off = (s.start + page_size + word - s.la) % word in
    let size = rest_size s.start s.la end in
    let start = (s.start + size) % word in
    if not (ltb s.start s.la)
    then ok s
    else if s.start == end
    then ok s
    else if ltb (2 ^ 39) size
    then panic
    else (do
      assert ((ltb end s.la && (start == end)) || (leb s.la end && (start == s.la)))
      ok (record s {
        start = start;
        bytes = write_bytes (s.page * page_size + off) size (λ i. 0) s.bytes;
      }))

-- The contents of the area that a segment has got: 0, or the error.
unfoldable pub fill_segment :
    ℕ → ℕ → ℕ → Bytes → ProgHdr → Machine → Bytes → Outcome (ℤ × Machine × Bytes)
unfolding fill_pages clear_rest round_down
fill_segment rounds fuel pgdir binary ph m bytes = do
  let perm = segment_perm (segment_flags ph.p_flags)
  let s : Fill = record {
    page = 0;
    start = ph.p_va;
    la = round_down ph.p_va page_size;
    from = ph.p_offset;
    machine = m;
    bytes = bytes;
  }
  (ret, s₁) ← fill_pages rounds fuel pgdir perm binary ((ph.p_va + ph.p_filesz) % word) s
  let end = (ph.p_va + ph.p_memsz) % word
  if not (is_zero ret) then ok (ret, s₁.machine, s₁.bytes) else (do
    s₂ ← clear_rest end s₁
    (ret', s₃) ← fill_pages rounds fuel pgdir perm (λ a. 0) end s₂
    ok (ret', s₃.machine, s₃.bytes))

-- What the loop over the program headers changes.
pub record Image : Type 0 where
  pub mm : Mm
  pub machine : Machine
  pub bytes : Bytes

-- A program header. `kmalloc_ok` tells whether `vma_create` gets its memory.
unfoldable pub load_segment : ℕ → ℕ → (ℕ → Bool) → ℕ → Bytes → ProgHdr → Image → Outcome (ℤ × Image)
unfolding fill_segment
load_segment rounds fuel kmalloc_ok pgdir binary ph i = do
  (ret, mm) ← mm_map (kmalloc_ok ph.p_va) i.mm ph.p_va ph.p_memsz (segment_flags ph.p_flags)
  if not (is_zero ret) then ok (ret, record i { mm = mm }) else (do
    (ret', m, bytes) ← fill_segment rounds fuel pgdir binary ph i.machine i.bytes
    ok (ret', record { mm = mm; machine = m; bytes = bytes }))

-- The loop over the `n` program headers from `at` on.
unfoldable pub load_segments : ℕ → ℕ → ℕ → (ℕ → Bool) → ℕ → Bytes → ℕ → Image → Outcome (ℤ × Image)
unfolding program_header load_segment
load_segments zero rounds fuel kmalloc_ok pgdir binary at i = ok (pos 0, i)
load_segments (suc n) rounds fuel kmalloc_ok pgdir binary at i =
    let ph = program_header at binary in
    let rest = load_segments n rounds fuel kmalloc_ok pgdir binary (at + proghdr_size) in
    let load : Outcome (ℤ × Image) = (do
      (ret, i') ← load_segment rounds fuel kmalloc_ok pgdir binary ph i
      if is_zero ret then rest i' else ok (ret, i')) in
    if not (ph.p_type == elf_pt_load)
    then rest i
    else if ltb ph.p_memsz ph.p_filesz
    then ok (e_inval_elf, i)
    else load
