-- ===== src/Log/Bounds.antt =====
-- How large a log file becomes.
use pikamgr.Base.{
  ℕ, suc, ◌+◌, ◌*◌, ◌<◌, true, List, [], ◌∷◌, some, ◌≡◌, arith, Bool-cases, inl, inr,
}
use pikamgr.Base.Int.{pos}
use pikamgr.Log.{Writer, Env, log_file_max_size, need_rotate, do_rotate, write_open, write}

-- Below 2 ^ 43 MB the size in bytes is exact; any multiple of 2 ^ 44 MB on top is not seen, so a
-- limit of 2 ^ 44 MB is one of 0, which turns the rotation by size off.
log_file_max_size-exact :
    (n k : ℕ)
    → n < 8796093022208
    → (log_file_max_size (pos n) ≡ pos (n * 1048576))
      × (log_file_max_size (pos (n + k * 17592186044416)) ≡ pos (n * 1048576))
unfolding log_file_max_size
log_file_max_size-exact n k h = (ground arith, ground arith)

-- All bytes that were written, renamed files included.
abbrev pub sum : List ℕ → ℕ
sum [] = 0
sum (x ∷ xs) = x + sum xs

-- The writer has an open file under its name, and counts its bytes.
pub record IsTracked (w : Writer) : Type 0 where
  pub open_ : w.is_open ≡ true
  pub there : w.is_there ≡ true
  pub counted : w.current_size ≡ w.file_size

-- A write to a file that is rotated by size, on a disk that works: the writer stays in order, the
-- file has less than the limit before what was written last, and no byte of what was written
-- before is lost.
pub write-IsTracked :
    (w : Writer) (env : Env) (m n : ℕ)
    → IsTracked w
    → w.max_size ≡ pos (suc m)
    → env.renames ≡ true
    → env.opens ≡ true
    → env.writes ≡ some n
    → let (r, w') = write w env in
      (r ≡ some n)
      × IsTracked w'
      × (w'.file_size < suc m + n)
      × (sum w'.archived + w'.file_size ≡ sum w.archived + w.file_size + n)
unfolding write do_rotate write_open need_rotate
write-IsTracked w env m n h limit renames opens writes = elim (Bool-cases (need_rotate w env.day)) [
  | inl rotate ↦ (
    ground arith,
    record { open_ = ground arith; there = ground arith; counted = ground arith },
    ground arith,
    ground arith,
  )
  | inr stay ↦ (
    ground arith,
    record { open_ = ground arith; there = ground arith; counted = ground arith },
    ground arith,
    ground arith,
  )
]
