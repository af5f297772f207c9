-- ===== src/Service/Groups/Valid.antt =====
-- The invariant of the groups: names, ports and servers are never shared.
use mathlib.Core.Path.{subst₂}
use pikamgr.Base.{
  String, true, false, some, ◌==◌, ◌≡◌, sym, ◌∙◌, subst, ◌≢◌, ◌⊎◌, arith, Assoc, lookup, eq_iff,
  if◌then◌else◌, Bool-cases, inl, inr,
}
use pikamgr.Base.Int.{int_eq, int_eq_iff}
use pikamgr.Dao.{Group}
use pikamgr.Service.Checks.{ports_conflict, has_server}
use pikamgr.Service.Servers.{AreOnce}

-- What must hold of one cached group.
pub record IsSound (k : String) (g : Group) : Type 0 where
  pub named : g.name ≡ k
  pub two_ports : int_eq g.proxy_read_port g.proxy_write_port ≡ false
  pub once : AreOnce g.servers

-- What must hold of two.
pub record AreApart (g h : Group) : Type 0 where
  pub ports : ports_conflict g.proxy_read_port g.proxy_write_port h ≡ false
  pub servers : (a : String) → has_server a g.servers ≡ true → has_server a h.servers ≡ false

-- Each cached group stands under its own name, has two ports and no server twice, and no two groups
-- share a port or a server.
pub record IsValid (groups : Assoc Group) : Type 0 where
  pub sound : (k : String) (g : Group) → lookup k groups ≡ some g → IsSound k g
  pub apart :
      (j k : String) (g h : Group)
      → j ≢ k
      → lookup j groups ≡ some g
      → lookup k groups ≡ some h
      → AreApart g h

pub AreApart-sym : (g h : Group) → AreApart g h → AreApart h g
unfolding ports_conflict
AreApart-sym g h p = record {
  ports = ground (
    arith,
    p.ports,
    int_eq_iff g.proxy_read_port h.proxy_read_port,
    int_eq_iff g.proxy_read_port h.proxy_write_port,
    int_eq_iff g.proxy_write_port h.proxy_read_port,
    int_eq_iff g.proxy_write_port h.proxy_write_port,
    int_eq_iff h.proxy_read_port g.proxy_read_port,
    int_eq_iff h.proxy_read_port g.proxy_write_port,
    int_eq_iff h.proxy_write_port g.proxy_read_port,
    int_eq_iff h.proxy_write_port g.proxy_write_port,
  );
  servers = λ a e. elim (Bool-cases (has_server a g.servers)) [
    | inl yes_g ↦ ground (arith, p.servers a yes_g)
    | inr no_g ↦ no_g
  ];
}

-- The view of a map after one entry is set.
abbrev pub IsSetAt : String → Group → Assoc Group → Assoc Group → Type 0
IsSetAt k g before after =
    (j : String) → lookup j after ≡ (if k == j then some g else lookup j before)

IsSetAt-cases :
    (k j : String) (g h : Group) (before after : Assoc Group)
    → IsSetAt k g before after
    → lookup j after ≡ some h
    → ((k ≡ j) × (g ≡ h)) ⊎ ((k ≢ j) × (lookup j before ≡ some h))
IsSetAt-cases k j g h before after view e = elim (Bool-cases (k == j)) [
  | inl same ↦ inl ((eq_iff k j).0 same, ground (arith, view j))
  | inr differ ↦ inr (λ p. cc ((eq_iff k j).1 p), ground (arith, view j))
]

-- A sound group that is apart from all others may be set.
pub IsValid-set :
    (k : String) (g : Group) (before after : Assoc Group)
    → IsValid before
    → IsSetAt k g before after
    → IsSound k g
    → ((j : String) (h : Group) → k ≢ j → lookup j before ≡ some h → AreApart g h)
    → IsValid after
IsValid-set k g before after v view sound apart = record {
  sound = λ j h e. elim (IsSetAt-cases k j g h before after view e) [
    | inl (ek, eg) ↦ subst₂ IsSound ek eg sound
    | inr (ne, old) ↦ v.sound j h old
  ];
  apart = λ i j h l ne p q. elim (IsSetAt-cases k i g h before after view p) [
    | inl (ek, eg) ↦ elim (IsSetAt-cases k j g l before after view q) [
      | inl (fk, fg) ↦ absurd (ne (sym ek ∙ fk))
      | inr (nf, old) ↦ subst (λ x. AreApart x l) eg (apart j l nf old)
    ]
    | inr (nk, old) ↦ elim (IsSetAt-cases k j g l before after view q) [
      | inl (fk, fg) ↦ subst (λ x. AreApart h x) fg (AreApart-sym g h (apart i h nk old))
      | inr (nf, older) ↦ v.apart i j h l ne old older
    ]
  ];
}

-- A group that keeps its name and its ports and gets no new server.
pub record Shrinks (g h : Group) : Type 0 where
  pub name : h.name ≡ g.name
  pub read : h.proxy_read_port ≡ g.proxy_read_port
  pub write : h.proxy_write_port ≡ g.proxy_write_port
  pub fewer : (a : String) → has_server a h.servers ≡ true → has_server a g.servers ≡ true
  pub once : AreOnce h.servers

AreApart-Shrinks : (g h l : Group) → Shrinks g h → AreApart g l → AreApart h l
unfolding ports_conflict
AreApart-Shrinks g h l p q = record {
  ports = ground (arith, p.read, p.write, q.ports);
  servers = λ a e. q.servers a (p.fewer a e);
}

pub IsValid-shrink :
    (k : String) (g h : Group) (before after : Assoc Group)
    → IsValid before
    → lookup k before ≡ some g
    → IsSetAt k h before after
    → Shrinks g h
    → IsValid after
IsValid-shrink k g h before after v e view p =
    let old : IsSound k g = v.sound k g e in
    IsValid-set k h before after v view
      (record {
        named = p.name ∙ old.named;
        two_ports = rw (p.read, p.write) old.two_ports;
        once = p.once;
      })
      (λ j l ne q. AreApart-Shrinks g h l p (v.apart k j g l ne e q))
