-- ===== src/Dtb/Tree.antt =====
-- Device trees as lists of tokens, the bytes that hold one, and what extract_memory_info looks for.
use lab.Base.{
  ℕ, ◌+◌, ◌^◌, ◌<◌, ◌≡◌, Bool, true, false, ◌&&◌, leb, if◌then◌else◌, Option, none, some, List, [],
  ◌∷◌, length,
}
use lab.Space.{Bytes}
use lab.Strings.Copy.{IsString, char_at}
use lab.Strings.Compare.{same, starts_with}
use lab.Dtb.Words.{number, bytes_at}
use lab.Dtb.{Literals, align_down}

-- A property has a name, which is at an offset in the block of strings, and a value.
pub data Item : Type 0 where
  begins : List ℕ → Item
  ends : Item
  prop : ℕ → List ℕ → List ℕ → Item
  nop : Item

-- "memory" and "reg"
abbrev pub memory_name : List ℕ
memory_name = 109 ∷ 101 ∷ 109 ∷ 111 ∷ 114 ∷ 121 ∷ []

abbrev pub reg_name : List ℕ
reg_name = 114 ∷ 101 ∷ 103 ∷ []

abbrev pub big_endian : ℕ → ℕ → Bytes → ℕ
big_endian n a mem = number 0 (bytes_at n a mem)

-- Memory is made of bytes and has the two literals.
pub record HasLiterals (lit : Literals) (mem : Bytes) : Type 0 where
  pub small : (a : ℕ) → mem a < 256
  pub memory : IsString mem lit.memory memory_name
  pub reg : IsString mem lit.reg reg_name

-- A name that `chars` steps are enough for.
pub record IsName (chars : ℕ) (mem : Bytes) (a : ℕ) (name : List ℕ) : Type 0 where
  pub text : IsString mem a name
  pub short : length name < chars

pub record IsProperty (chars strings_base : ℕ) (mem : Bytes) (p offset : ℕ) (name value : List ℕ)
    : Type 0 where
  pub token : big_endian 4 p mem ≡ 3
  pub len : big_endian 4 (p + 4) mem ≡ length value
  pub nameoff : big_endian 4 (p + 8) mem ≡ offset
  pub inside : strings_base + offset < 2 ^ 64
  pub name_text : IsName chars mem (strings_base + offset) name
  pub bytes : (i : ℕ) → i < length value → mem (p + 12 + i) ≡ char_at value i

-- The tokens are at `p`, each aligned to four bytes, then the token that ends the tree, all below 2^64.
abbrev pub Holds : ℕ → ℕ → Bytes → ℕ → List Item → Type 0
Holds chars strings_base mem p [] = (big_endian 4 p mem ≡ 9) × (p + 4 < 2 ^ 64)
Holds chars strings_base mem p (begins name ∷ items) =
    (big_endian 4 p mem ≡ 1)
    × IsName chars mem (p + 4) name
    × (p + 8 + length name < 2 ^ 64)
    × Holds chars strings_base mem (align_down (p + 8 + length name)) items
Holds chars strings_base mem p (ends ∷ items) =
    (big_endian 4 p mem ≡ 2) × (p + 4 < 2 ^ 64) × Holds chars strings_base mem (p + 4) items
Holds chars strings_base mem p (prop offset name value ∷ items) =
    IsProperty chars strings_base mem p offset name value
    × (p + 15 + length value < 2 ^ 64)
    × Holds chars strings_base mem (align_down (p + 15 + length value)) items
Holds chars strings_base mem p (nop ∷ items) =
    (big_endian 4 p mem ≡ 4) × (p + 4 < 2 ^ 64) × Holds chars strings_base mem (p + 4) items

-- The first two numbers of 64 bits of a value.
abbrev pub base_and_size : List ℕ → ℕ × ℕ
base_and_size value = (big_endian 8 0 (char_at value), big_endian 8 8 (char_at value))

-- What the first property `reg` of at least 16 bytes says, between the start of a node whose name
-- starts with "memory" and the next end of a node.
abbrev pub find_memory : Bool → List Item → Option (ℕ × ℕ)
find_memory in_memory [] = none
find_memory in_memory (begins name ∷ items) =
    find_memory (if starts_with name memory_name then true else in_memory) items
find_memory in_memory (ends ∷ items) = find_memory false items
find_memory in_memory (prop offset name value ∷ items) =
    if in_memory && (same name reg_name && leb 16 (length value))
    then some (base_and_size value)
    else find_memory in_memory items
find_memory in_memory (nop ∷ items) = find_memory in_memory items
