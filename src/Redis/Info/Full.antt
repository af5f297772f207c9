-- ===== src/Redis/Info/Full.antt =====
-- `InfoFull` of topom/client/redis/client.go: what a server reports, with the address of its master
-- and its limit on memory.
use pikamgr.Base.{
  Bool, true, false, ◌&&◌, ◌||◌, List, [], ◌∷◌, ◌++◌, Option, none, some, ◌≡◌, ap, ◌∙◌, eqb,
  is_empty, if◌then◌else◌, codes, arith,
}
use pikamgr.Base.Int.{ℤ}
use pikamgr.Coordinate.{segment_eq}
use pikamgr.Coordinate.Plain.{segment_eq_iff}
use pikamgr.Redis.HostPort.{itoa}
use pikamgr.Redis.Info.{Text, Fields, field_at, set_field, info, or_empty}
use pikamgr.Redis.Info.Written.{
  InfoLine, report, written, AreLines, info-report, field_at-set_field,
}

-- What `Do("CONFIG", "GET", "maxmemory")` returns: an error, a reply of which `redigo.Values` and
-- `redigo.Int` do not make a name and a number, or that number.
pub data ConfigReply : Type 0 where
  refused malformed : ConfigReply
  answer : ℤ → ConfigReply

abbrev pub has_colon : Text → Bool
has_colon [] = false
has_colon (c ∷ cs) = eqb c 58 || has_colon cs

-- `net.JoinHostPort`
unfoldable pub join_text : Text → Text → Text
join_text host port = if has_colon host then (91 ∷ host) ++ 93 ∷ 58 ∷ port else host ++ 58 ∷ port

abbrev pub master_host : Fields → Text
master_host f = or_empty (field_at (codes "master_host") f)

abbrev pub master_port : Fields → Text
master_port f = or_empty (field_at (codes "master_port") f)

unfoldable pub note_master : Text → Text → Fields → Fields
unfolding join_text
note_master host port f =
    if is_empty host && is_empty port
    then f
    else set_field (codes "master_addr") (join_text host port) f

unfoldable pub with_master : Fields → Fields
unfolding note_master
with_master f = note_master (master_host f) (master_port f) f

unfoldable pub with_config : Text → Fields → ConfigReply → Option (Text × Fields)
with_config text f refused = none
with_config text f malformed = none
with_config text f (answer v) = some (
  text ++ codes "\n#Config Get\nmaxmemory:" ++ codes (itoa v),
  set_field (codes "maxmemory") (codes (itoa v)) f,
)

abbrev pub after_info : Text → ConfigReply → Option Fields → Option (Text × Fields)
after_info text reply none = none
after_info text reply (some f) = with_config text (with_master f) reply

-- The answers to both commands; the second is asked for only after the first was served.
unfoldable pub info_full : Option Text → ConfigReply → Option (Text × Fields)
unfolding info with_master with_config
info_full none reply = none
info_full (some text) reply = after_info text reply (info (some text))

-- What a server says of its master in lines of INFO.
abbrev pub host_written : List InfoLine → Text
host_written ls = or_empty (written (codes "master_host") ls none)

abbrev pub port_written : List InfoLine → Text
port_written ls = or_empty (written (codes "master_port") ls none)

-- The address of the master that the fields give, if the server says anything of one.
abbrev pub master_written : List InfoLine → Option Text
master_written ls =
    if is_empty (host_written ls) && is_empty (port_written ls)
    then written (codes "master_addr") ls none
    else some (join_text (host_written ls) (port_written ls))

-- What `InfoFull` has to find under a key.
abbrev pub full_written : Text → List InfoLine → ℤ → Option Text
full_written k ls v =
    if segment_eq (codes "maxmemory") k
    then some (codes (itoa v))
    else if segment_eq (codes "master_addr") k
    then master_written ls
    else written k ls none

-- What the fields hold when an address is noted under a key, which is there already if nothing is
-- noted.
field_at-noted :
    (b : Bool) (key k : Text) (v : Text) (f : Fields)
    → field_at k (if b then f else set_field key v f)
      ≡ (if segment_eq key k then if b then field_at key f else some v else field_at k f)
field_at-noted true key k v f = ground (arith, segment_eq_iff key k)
field_at-noted false key k v f = field_at-set_field key k v f

module _ (ls : List InfoLine) (f : Fields)
    (found : (k : Text) → field_at k f ≡ written k ls none) where
  with_master-report :
      (k : Text)
      → field_at k (with_master f)
        ≡ (if segment_eq (codes "master_addr") k then master_written ls else written k ls none)
  unfolding with_master note_master
  with_master-report k =
      let host : master_host f ≡ host_written ls = ap or_empty (found (codes "master_host")) in
      let port : master_port f ≡ port_written ls = ap or_empty (found (codes "master_port")) in
      (λ i. field_at k (note_master (host i) (port i) f))
      ∙ field_at-noted (is_empty (host_written ls) && is_empty (port_written ls))
          (codes "master_addr") k (join_text (host_written ls) (port_written ls)) f
      ∙ (λ i.
          if segment_eq (codes "master_addr") k
          then if is_empty (host_written ls) && is_empty (port_written ls)
            then found (codes "master_addr") i
            else some (join_text (host_written ls) (port_written ls))
          else found k i)

  with_config-report :
      (k : Text) (v : ℤ)
      → field_at k (set_field (codes "maxmemory") (codes (itoa v)) (with_master f))
        ≡ full_written k ls v
  with_config-report k v =
      field_at-set_field (codes "maxmemory") k (codes (itoa v)) (with_master f)
      ∙ ap (λ o. if segment_eq (codes "maxmemory") k then some (codes (itoa v)) else o)
          (with_master-report k)

info_full-found :
    (text : Text) (f : Fields) (reply : ConfigReply)
    → info (some text) ≡ some f
    → info_full (some text) reply ≡ with_config text (with_master f) reply
unfolding info_full
info_full-found text f reply read = ap (after_info text reply) read

-- Whatever a server writes in the format of INFO, `InfoFull` returns fields if `CONFIG GET` is
-- answered with a number: under `maxmemory` that number in decimal digits, under `master_addr` the
-- joined host and port that were written last, if either was written and is not empty, and under
-- any other key the value that was written last. It returns nothing if it is not so answered.
pub info_full-report :
    (ls : List InfoLine)
    → AreLines ls
    → ((v : ℤ)
        → (f : Fields) × (text : Text) × (info_full (some (report ls)) (answer v) ≡ some (text, f))
          × ((k : Text) → field_at k f ≡ full_written k ls v))
      × (info_full (some (report ls)) refused ≡ none)
      × (info_full (some (report ls)) malformed ≡ none)
unfolding with_config
info_full-report ls h =
    let (f, read, found) = info-report ls h in
    (
      λ v. (
        _,
        _,
        info_full-found (report ls) f (answer v) read,
        λ k. with_config-report ls f found k v,
      ),
      info_full-found (report ls) f refused read,
      info_full-found (report ls) f malformed read,
    )
