-- ===== src/Tests/Connections.antt =====
-- A connection that sends one command in a pipeline and receives its reply.
use pikamgr.Base.{
  ℕ, suc, ◌-◌, Bool, true, false, not, List, [], ◌∷◌, none, some, ◌≡◌, refl, arith, if◌then◌else◌,
}
use pikamgr.Redis.Conn.{Redigo, new_client, is_recyclable, send, flush, receive}
use pikamgr.Redis.Conn.Step.{
  Owes, Use, send_use, flush_use, receive_use, use_client, use_all, AreAskedFor,
  is_recyclable-pending,
}

-- A connection that serves everything until it is closed: the replies to come, and whether it is
-- broken. A command is only buffered, so it is taken even then.
abbrev Wire : Type 0
Wire = ℕ × Bool

abbrev pending : Wire → ℕ
pending (n, b) = n

abbrev wire : Redigo Wire ℕ
wire = record {
  run = λ cmd s. (if s.1 then none else some 0, (0, s.1));
  send = λ cmd s. (true, (suc s.0, s.1));
  flush = λ s. (not s.1, s);
  receive = λ s. (if s.1 then none else some 0, (s.0 - 1, s.1));
  close = λ s. (0, true);
  is_broken = λ s. s.1;
  is_error = λ v. false;
}

wire-Owes : Owes wire pending
wire-Owes = record {
  closes = λ s. refl;
  run_stays = λ cmd s b. b;
  send_stays = λ cmd s b. b;
  flush_stays = λ s b. b;
  receive_stays = λ s b. b;
  runs = λ cmd s v e. refl;
  sends = λ cmd s e. refl;
  flushes = λ s e. refl;
  receives = λ s v e. refl;
}

abbrev uses : List Use
uses = send_use 1 ("SENTINEL", "masters" ∷ []) ∷ flush_use 2 ∷ receive_use 3 ∷ []

uses-AreAskedFor : AreAskedFor wire uses (new_client wire 0 5 (0, false))
unfolding new_client use_client send flush receive
uses-AreAskedFor = ground arith

goes-back : is_recyclable wire 4 (use_all wire uses (new_client wire 0 5 (0, false))) ≡ true
unfolding is_recyclable new_client use_all use_client send flush receive
goes-back = refl

is_recyclable-pending_example :
    pending (use_all wire uses (new_client wire 0 5 (0, false))).conn ≡ 0
is_recyclable-pending_example =
    is_recyclable-pending wire pending uses 0 5 4 (0, false) wire-Owes refl uses-AreAskedFor
      goes-back
