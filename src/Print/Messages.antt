-- ===== src/Print/Messages.antt =====
-- The table `error_string` of libs/printfmt.c, as lists of characters.
use lab.Base.{ℕ, ◌==◌, if◌then◌else◌, Option, none, some, List, [], ◌∷◌}

-- MAXERROR of libs/error.h.
abbrev pub max_error : ℕ
max_error = 24

-- "unspecified error"
abbrev unspecified_error_text : List ℕ
unspecified_error_text =
    117 ∷ 110 ∷ 115 ∷ 112 ∷ 101 ∷ 99 ∷ 105 ∷ 102 ∷ 105 ∷ 101 ∷ 100 ∷ 32 ∷ 101 ∷ 114 ∷ 114 ∷ 111
    ∷ 114 ∷ []

-- "bad process"
abbrev bad_process_text : List ℕ
bad_process_text = 98 ∷ 97 ∷ 100 ∷ 32 ∷ 112 ∷ 114 ∷ 111 ∷ 99 ∷ 101 ∷ 115 ∷ 115 ∷ []

-- "invalid parameter"
abbrev invalid_parameter_text : List ℕ
invalid_parameter_text =
    105 ∷ 110 ∷ 118 ∷ 97 ∷ 108 ∷ 105 ∷ 100 ∷ 32 ∷ 112 ∷ 97 ∷ 114 ∷ 97 ∷ 109 ∷ 101 ∷ 116 ∷ 101 ∷ 114
    ∷ []

-- "out of memory"
abbrev out_of_memory_text : List ℕ
out_of_memory_text = 111 ∷ 117 ∷ 116 ∷ 32 ∷ 111 ∷ 102 ∷ 32 ∷ 109 ∷ 101 ∷ 109 ∷ 111 ∷ 114 ∷ 121 ∷ []

-- "out of processes"
abbrev out_of_processes_text : List ℕ
out_of_processes_text =
    111 ∷ 117 ∷ 116 ∷ 32 ∷ 111 ∷ 102 ∷ 32 ∷ 112 ∷ 114 ∷ 111 ∷ 99 ∷ 101 ∷ 115 ∷ 115 ∷ 101 ∷ 115 ∷ []

-- "segmentation fault"
abbrev segmentation_fault_text : List ℕ
segmentation_fault_text =
    115 ∷ 101 ∷ 103 ∷ 109 ∷ 101 ∷ 110 ∷ 116 ∷ 97 ∷ 116 ∷ 105 ∷ 111 ∷ 110 ∷ 32 ∷ 102 ∷ 97 ∷ 117 ∷ 108
    ∷ 116 ∷ []

-- "invalid elf file"
abbrev invalid_elf_file_text : List ℕ
invalid_elf_file_text =
    105 ∷ 110 ∷ 118 ∷ 97 ∷ 108 ∷ 105 ∷ 100 ∷ 32 ∷ 101 ∷ 108 ∷ 102 ∷ 32 ∷ 102 ∷ 105 ∷ 108 ∷ 101 ∷ []

-- "process is killed"
abbrev process_is_killed_text : List ℕ
process_is_killed_text =
    112 ∷ 114 ∷ 111 ∷ 99 ∷ 101 ∷ 115 ∷ 115 ∷ 32 ∷ 105 ∷ 115 ∷ 32 ∷ 107 ∷ 105 ∷ 108 ∷ 108 ∷ 101 ∷ 100
    ∷ []

-- "panic failure"
abbrev panic_failure_text : List ℕ
panic_failure_text = 112 ∷ 97 ∷ 110 ∷ 105 ∷ 99 ∷ 32 ∷ 102 ∷ 97 ∷ 105 ∷ 108 ∷ 117 ∷ 114 ∷ 101 ∷ []

abbrev pub error_string : ℕ → Option (List ℕ)
error_string err =
    if err == 1
    then some unspecified_error_text
    else if err == 2
    then some bad_process_text
    else if err == 3
    then some invalid_parameter_text
    else if err == 4
    then some out_of_memory_text
    else if err == 5
    then some out_of_processes_text
    else if err == 6
    then some segmentation_fault_text
    else if err == 8
    then some invalid_elf_file_text
    else if err == 9
    then some process_is_killed_text
    else if err == 10
    then some panic_failure_text
    else none
