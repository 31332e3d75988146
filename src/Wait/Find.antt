-- ===== src/Wait/Find.antt =====
-- `find_proc` and the hash lists.
use lab.Base.{ℕ, ◌<◌, ◌≡◌, ◌≢◌, refl, ℤ, pos, negsuc, arith}
use lab.Proc.{Kernel}
use lab.Pid.{max_pid}
use lab.Wait.{HashList, hash_proc, find_pid, find_proc}

-- Once `hash_proc` has added a process with a pid from 1 on and below MAX_PID, `find_proc` finds it
-- by that pid, and finds for every other pid, valid or not, what it found before.
pub hash_proc-find_proc :
    (k : Kernel) (hash : HashList) (proc pid : ℕ)
    → (k.procs proc).pid ≡ pos pid
    → 0 < pid
    → pid < max_pid
    → (find_proc (pos pid) k (hash_proc proc k hash) ≡ proc)
      × ((other : ℤ)
          → other ≢ pos pid
          → find_proc other k (hash_proc proc k hash) ≡ find_proc other k hash)
unfolding find_proc hash_proc find_pid
hash_proc-find_proc k hash proc pid e low high = (ground arith, λ other ne. same other ne)
  where
    same :
        (other : ℤ)
        → other ≢ pos pid
        → find_proc other k (hash_proc proc k hash) ≡ find_proc other k hash
    same (pos n) ne = ground arith
    same (negsuc n) ne = refl
