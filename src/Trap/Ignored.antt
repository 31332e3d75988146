-- ===== src/Trap/Ignored.antt =====
-- The exceptions for which the kernel only prints a message.
use lab.Base.{ℕ, ◌<◌, ◌≤◌, ◌≡◌}

-- CAUSE_MISALIGNED_FETCH, CAUSE_FETCH_ACCESS, CAUSE_ILLEGAL_INSTRUCTION, CAUSE_MISALIGNED_LOAD,
-- CAUSE_LOAD_ACCESS or CAUSE_STORE_ACCESS.
pub data IsIgnored (cause : ℕ) : Type 0 where
  fetch_or_illegal : cause < 3 → IsIgnored cause
  load : 4 ≤ cause → cause < 6 → IsIgnored cause
  store_access : cause ≡ 7 → IsIgnored cause
