-- ===== src/Log/Broken.antt =====
-- A rotation that fails half way.
use pikamgr.Base.{ℕ, true, false, List, [], ◌∷◌, Option, none, ◌≡◌, refl, arith, map}
use pikamgr.Log.{Writer, Env, need_rotate, do_rotate, write}

-- The results of some calls of `Write`.
unfoldable pub write_all : List Env → Writer → List (Option ℕ)
write_all [] w = []
write_all (env ∷ envs) w = let (r, w') = write w env in r ∷ write_all envs w'

-- Nothing is open, and there is no file under the name.
record IsBroken (w : Writer) : Type 0 where
  shut : w.is_open ≡ false
  missing : w.is_there ≡ false

abbrev fails : Env → Option ℕ
fails env = none

write-IsBroken : (w : Writer) (env : Env) → IsBroken w → write w env ≡ (none, w)
unfolding write do_rotate
write-IsBroken w env h = ground arith

write_all-IsBroken : (envs : List Env) (w : Writer) → IsBroken w → write_all envs w ≡ map fails envs
unfolding write_all
write_all-IsBroken [] w h = refl
write_all-IsBroken (env ∷ envs) w h =
    ground (arith, write-IsBroken w env h, write_all-IsBroken envs w h)

-- If a rotation renames the file and cannot open a new one, then this write and all later ones
-- fail, also when the disk works again: there is no file under the name for a rotation to find.
pub write_all-fails :
    (w : Writer) (env : Env) (envs : List Env)
    → w.is_there ≡ true
    → need_rotate w env.day ≡ true
    → env.renames ≡ true
    → env.opens ≡ false
    → write_all (env ∷ envs) w ≡ map (λ e. none) (env ∷ envs)
unfolding write_all write do_rotate
write_all-fails w env envs there rotate renames opens =
    let w' : Writer = (write w env).1 in
    let broken : IsBroken w' = record { shut = ground arith; missing = ground arith } in
    ground (arith, write_all-IsBroken envs w' broken)
