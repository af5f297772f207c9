-- ===== src/Handler/Created.antt =====
-- What an answer of the handlers says.
use pikamgr.Base.{
  ℕ, ◌≤◌, eqb, ◌==◌, String, true, false, ◌||◌, none, some, lookup, lookup-insert_self, ◌≡◌, refl,
  ap, sym, ◌∙◌, codes, arith, inl, inr, Bool-cases, Option-cases,
}
use pikamgr.Base.Int.{ℤ, pos, negsuc, int_eq}
use pikamgr.Coordinate.{group_path}
use pikamgr.Coordinate.Plain.{path_eq_refl}
use mathlib.Core.Option.{some-injective}
use pikamgr.Redis.Commands.Answers.{parse_int}
use pikamgr.Dao.{group_value}
use pikamgr.World.{World, State, Result, ok, err, client_update, request}
use pikamgr.Mapper.{group_create}
use pikamgr.Service.Checks.{is_bad_name, find_conflict, new_group}
use pikamgr.Service.Groups.{create_group}
use pikamgr.Service.Groups.Changes.{stored}
use pikamgr.Service.Api.{perform}
use pikamgr.Handler.{
  Request, group_route, put_create, ok_status, valid_port, port_of, create_call, group_call,
  status_of, handle,
}

-- A `CreateGroup` that returns no error has made the group, in the cache and in the coordinator.
create_group-ok :
    (w : World) (name : String) (r p : ℤ) (s : State)
    → (create_group w name r p s).0 ≡ ok tt
    → let s' = (create_group w name r p s).1 in
      let g = new_group name r p (w.now s.trace) in
      (int_eq r p ≡ false)
      × (lookup name s.groups ≡ none)
      × (lookup name s'.groups ≡ some g)
      × (s'.store (group_path w.product_name name) ≡ some (group_value g))
unfolding create_group group_create client_update request
create_group-ok w name r p s h = elim (Option-cases (lookup name s.groups)) [
  | inr (g, e) ↦ absurd (ground arith)
  | inl fresh ↦ elim (Option-cases (find_conflict r p s.groups)) [
    | inr (k, clash) ↦ absurd (ground arith)
    | inl clear ↦ elim (Bool-cases (int_eq r p || is_bad_name name)) [
      | inl bad ↦ absurd (ground arith)
      | inr good ↦ elim (Bool-cases (stored w name r p s)) [
        | inr failed ↦ absurd (ground arith)
        | inl served ↦
            let g = new_group name r p (w.now s.trace) in
            (
              ground arith,
              fresh,
              ground (arith, lookup-insert_self name g s.groups),
              ground (arith, path_eq_refl (group_path w.product_name name)),
            )
      ]
    ]
  ]
]

status_of-ok : (r : Result (Unit {0})) → status_of r ≡ ok_status → r ≡ ok tt
status_of-ok (ok _) h = refl
status_of-ok (err e) h = absurd (ground arith)

-- The text of a number from 10000 to 59999.
pub record IsPort (text : String) (n : ℕ) : Type 0 where
  pub read : parse_int (codes text) ≡ some (pos n)
  pub above : 10000 ≤ n
  pub below : n ≤ 59999

valid_port-pos : (x : ℤ) → valid_port x ≡ true → (n : ℕ) × (x ≡ pos n) × (10000 ≤ n) × (n ≤ 59999)
unfolding valid_port
valid_port-pos (pos n) h = (n, refl, ground arith, ground arith)
valid_port-pos (negsuc n) h = absurd (ground arith)

port_of-IsPort :
    (text : String) (r : ℤ) → port_of text ≡ some r → (n : ℕ) × (r ≡ pos n) × IsPort text n
unfolding port_of
port_of-IsPort text r e = elim (Option-cases (parse_int (codes text))) [
  | inl no_number ↦ absurd (ground (arith, no_number, e))
  | inr (x, found) ↦ elim (Bool-cases (valid_port x)) [
    | inr low ↦ absurd (ground (arith, found, low, e))
    | inl fine ↦
        let (n, is_n, above, below) = valid_port-pos x fine in
        let same : x ≡ r = some-injective x r (ground (arith, found, fine, e)) in
        (n, sym same ∙ is_n, record { read = found ∙ ap some is_n; above = above; below = below })
  ]
]

abbrev pub create_request : String → String → String → String → Request
create_request xauth name read_port write_port = record {
  xauth = xauth;
  route = group_route (put_create name read_port write_port);
}

create_request-call :
    (w : World) (xauth name read_port write_port : String) (r p : ℤ) (s : State)
    → port_of read_port ≡ some r
    → port_of write_port ≡ some p
    → (name == "") ≡ false
    → handle w (create_request xauth name read_port write_port) s
      ≡ (status_of (create_group w name r p s).0, (create_group w name r p s).1)
unfolding handle group_call create_call perform
create_request-call w xauth name read_port write_port r p s read write named =
    ground (arith, read, write, named)

-- The answer 200 to the creation of a group says that both ports were numbers from 10000 to 59999
-- and not the same, that there was no group of this name, and that there is one now with these
-- ports and no server, in the cache as in the coordinator.
pub group_create-ok :
    (w : World) (xauth name read_port write_port : String) (s : State)
    → (handle w (create_request xauth name read_port write_port) s).0 ≡ ok_status
    → let s' = (handle w (create_request xauth name read_port write_port) s).1 in
      (r p : ℕ) × IsPort read_port r
      × IsPort write_port p
      × (eqb r p ≡ false)
      × (lookup name s.groups ≡ none)
      × (lookup name s'.groups ≡ some (new_group name (pos r) (pos p) (w.now s.trace)))
      × (s'.store (group_path w.product_name name)
          ≡ some (group_value (new_group name (pos r) (pos p) (w.now s.trace))))
unfolding handle group_call create_call
group_create-ok w xauth name read_port write_port s h = elim (Option-cases (port_of read_port)) [
  | inl no_read ↦ absurd (ground (arith, no_read, h))
  | inr (x, read) ↦ elim (Option-cases (port_of write_port)) [
    | inl no_write ↦ absurd (ground (arith, read, no_write, h))
    | inr (y, write) ↦ elim (Bool-cases (name == "")) [
      | inl nameless ↦ absurd (ground (arith, read, write, nameless, h))
      | inr named ↦
          let (r, is_r, port_r) = port_of-IsPort read_port x read in
          let (p, is_p, port_p) = port_of-IsPort write_port y write in
          let run =
            create_request-call w xauth name read_port write_port (pos r) (pos p) s
              (read ∙ ap some is_r) (write ∙ ap some is_p) named in
          let (two, fresh, cached, kept) = create_group-ok w name (pos r) (pos p) s (
            status_of-ok (create_group w name (pos r) (pos p) s).0 (sym (ap (λ a. a.0) run) ∙ h)) in
          (
            r,
            p,
            port_r,
            port_p,
            two,
            fresh,
            ap (λ a. lookup name a.1.groups) run ∙ cached,
            ap (λ a. a.1.store (group_path w.product_name name)) run ∙ kept,
          )
    ]
  ]
]
