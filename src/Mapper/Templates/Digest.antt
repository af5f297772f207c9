-- ===== src/Mapper/Templates/Digest.antt =====
-- What the digests of the template file mapper tell apart.
use mathlib.Core.List.{append_cancel_right}
use pikamgr.Base.{ℕ, true, List, ◌++◌, ◌≡◌, ◌↔◌, some, ap}
use pikamgr.Coordinate.Plain.{segment_eq_iff}
use pikamgr.Mapper.Templates.{is_same, template_file}

-- For any digest of no bytes: `doMonitor` takes a file for unchanged exactly if its content is the
-- old one. No collision of the digests can hide a change, because the "MD5" that the mapper keeps
-- is the content itself with the digest of no bytes behind it.
is_same-template_file :
    (md5_empty old new : List ℕ)
    → (is_same (some (template_file md5_empty old)) (template_file md5_empty new) ≡ true)
      ↔ (old ≡ new)
unfolding is_same
is_same-template_file md5_empty old new =
    let (to, from) = segment_eq_iff (old ++ md5_empty) (new ++ md5_empty) in
    (λ h. append_cancel_right old new md5_empty (to h), λ e. from (ap (λ l. l ++ md5_empty) e))
