-- ===== src/Load/Samples.antt =====
-- The header of a program without segments that starts at 0x800020.
use lab.Base.{◌==◌, if◌then◌else◌}
use lab.Space.{Bytes}

abbrev pub elf_file : Bytes
elf_file i =
    if i == 0
    then 0x7F
    else if i == 1
    then 0x45
    else if i == 2
    then 0x4C
    else if i == 3
    then 0x46
    else if i == 24
    then 0x20
    else if i == 26
    then 0x80
    else 0
