-- ===== src/Service/Life/Closing.antt =====
-- What holds in the life of a service.
use pikamgr.Base.{true, false, ◌≡◌, ◌≢◌, arith, refl}
use pikamgr.Service.Life.{
  StartAt, not_started, up, gave_up, CloseAt, not_closed, signalling, waiting, deleting, deleted,
  failed, finished, Life, Step, start_call, first_select, first_stop, create_ok, create_fails,
  second_select, second_stop, go_online, run_stats, stats_exit, close_call, close_done, close_wait,
  delete_ok, delete_fails, go_offline, other_create, other_delete, Owner, nobody, own, another,
  Reach, here, next,
}

-- No call of `Start` is under way.
abbrev pub IsSettled : StartAt → Type 0
IsSettled not_started = Unit
IsSettled up = Unit
IsSettled gave_up = Unit
IsSettled _ = ⊥

-- What is over at each point of `Close`.
abbrev IsReleased : CloseAt → Life → Type 0
IsReleased deleting l = l.polling ≡ false
IsReleased deleted l = (l.polling ≡ false) × (l.node ≢ own)
IsReleased failed l = l.polling ≡ false
IsReleased finished l = (l.polling ≡ false) × (l.node ≢ own) × (l.online ≡ false)
IsReleased _ l = Unit

nobody-own : nobody ≢ own
nobody-own e = cc e

-- Another dashboard does not make this one's node.
IsReleased-node :
    (x : CloseAt) (l : Life) (o : Owner)
    → o ≢ own
    → IsReleased x l
    → IsReleased x (record l { node = o })
IsReleased-node not_closed l o n h = tt
IsReleased-node signalling l o n h = tt
IsReleased-node waiting l o n h = tt
IsReleased-node deleting l o n h = h
IsReleased-node deleted l o n h = (h.0, n)
IsReleased-node failed l o n h = h
IsReleased-node finished l o n h = (h.0, n, h.2)

record IsClosing (l : Life) : Type 0 where
  steady : IsSettled l.start
  closed : l.closed ≡ true
  released : IsReleased l.close l

IsReleased-quiet :
    (x : CloseAt) (l : Life) → IsReleased x l → IsReleased x (record l { polling = false })
IsReleased-quiet not_closed l h = tt
IsReleased-quiet signalling l h = tt
IsReleased-quiet waiting l h = tt
IsReleased-quiet deleting l h = refl
IsReleased-quiet deleted l h = (refl, h.1)
IsReleased-quiet failed l h = refl
IsReleased-quiet finished l h = (refl, h.1, h.2)

Step-IsClosing : {l m : Life} → Step l m → IsClosing l → IsClosing m
Step-IsClosing (start_call l a b) h = absurd (ground (arith, h.closed))
Step-IsClosing (first_select l a b) h = absurd (rw a at h.steady)
Step-IsClosing (first_stop l a b) h = absurd (rw a at h.steady)
Step-IsClosing (create_ok l a b) h = absurd (rw a at h.steady)
Step-IsClosing (create_fails l a) h = absurd (rw a at h.steady)
Step-IsClosing (second_select l a) h = absurd (rw a at h.steady)
Step-IsClosing (second_stop l a b) h = absurd (rw a at h.steady)
Step-IsClosing (go_online l a) h = absurd (rw a at h.steady)
Step-IsClosing (run_stats l a) h = absurd (rw a at h.steady)
Step-IsClosing (stats_exit l a b) h = record {
  steady = h.steady;
  closed = h.closed;
  released = IsReleased-quiet l.close l h.released;
}
Step-IsClosing (close_call l a b) h = absurd (ground (arith, h.closed))
Step-IsClosing (close_done l a) h = record { steady = h.steady; closed = h.closed; released = tt }
Step-IsClosing (close_wait l a b) h = record { steady = h.steady; closed = h.closed; released = b }
Step-IsClosing (delete_ok l a) h = record {
  steady = h.steady;
  closed = h.closed;
  released = (rw a at h.released, nobody-own);
}
Step-IsClosing (delete_fails l a) h = record {
  steady = h.steady;
  closed = h.closed;
  released = rw a at h.released;
}
Step-IsClosing (go_offline l a) h =
    let (quiet, gone) : IsReleased deleted l = rw a at h.released in
    record { steady = h.steady; closed = h.closed; released = (quiet, gone, refl) }
Step-IsClosing (other_create l a) h = record {
  steady = h.steady;
  closed = h.closed;
  released = IsReleased-node l.close l another (λ e. cc e) h.released;
}
Step-IsClosing (other_delete l) h = record {
  steady = h.steady;
  closed = h.closed;
  released = IsReleased-node l.close l nobody nobody-own h.released;
}

Reach-IsClosing : {l m : Life} → IsClosing l → Reach l m → IsClosing m
Reach-IsClosing h here = h
Reach-IsClosing h (next r s) = Step-IsClosing s (Reach-IsClosing h r)

-- If no call of `Start` is under way when `Close` begins, then a `Close` that returns no error
-- leaves no node of this dashboard in the coordinator, is not online, and the polling has ended,
-- whatever steps of this and of other dashboards lie between.
pub Reach-finished :
    (l m : Life)
    → IsSettled l.start
    → l.closed ≡ true
    → l.close ≡ signalling
    → Reach l m
    → m.close ≡ finished
    → (m.polling ≡ false) × (m.node ≢ own) × (m.online ≡ false)
Reach-finished l m steady closed begun r over =
    let h : IsClosing l = record { steady = steady; closed = closed; released = rw begun tt } in
    rw over at (Reach-IsClosing h r).released
