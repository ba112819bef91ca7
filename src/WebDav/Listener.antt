-- ===== src/WebDav/Listener.antt =====
-- network-loader/webdavserver.cpp, `Listener`: the connections that have a worker. A worker is an
-- instance of CWebDAVServer, and so is the listener itself.
use rapi_bootloader.Base.{
  ℕ, ◌+◌, ◌-◌, ◌≤◌, ◌≡◌, refl, ap, ◌∙◌, inl, inr, true, false, Option, none, some, List, [], ◌∷◌,
  ◌++◌, arith, ltb, leb, if◌then◌else◌, Bool-cases, length, length-append,
}

abbrev pub max_clients : ℕ
max_clients = 4

module _ (Conn : Type 0) where
  -- `s_nInstanceCount`, and the connections of the workers.
  pub record Clients : Type 0 where
    pub instance_count : ℕ
    pub workers : List Conn

  -- The constructor of the listener.
  abbrev pub listening : Clients
  listening = record { instance_count = 1; workers = [] }

  -- A turn of the loop, with what `Accept` gives: null where it fails.
  unfoldable pub accept_turn : Clients → Option Conn → Clients
  accept_turn s none = s
  accept_turn s (some conn) =
      if leb (max_clients + 1) s.instance_count
      then s
      else record { instance_count = s.instance_count + 1; workers = conn ∷ s.workers }

  -- The destructor of a worker, between those that go on.
  unfoldable pub worker_ends : Clients → List Conn → List Conn → Clients
  worker_ends s before after = record {
    instance_count = s.instance_count - 1;
    workers = before ++ after;
  }

  -- What can happen while the listener runs.
  pub data ListenerStep : Clients → Clients → Type 0 where
    accepts : {s : Clients} (accepted : Option Conn) → ListenerStep s (accept_turn s accepted)
    ends :
        {s : Clients} (before after : List Conn) (conn : Conn)
        → s.workers ≡ before ++ conn ∷ after
        → ListenerStep s (worker_ends s before after)

  pub data ListenerReach : Clients → Type 0 where
    starts : ListenerReach listening
    steps : {s s' : Clients} → ListenerReach s → ListenerStep s s' → ListenerReach s'

  -- The count is that of the workers and the listener, and no more than the bound.
  pub record IsBounded (s : Clients) : Type 0 where
    pub counted : s.instance_count ≡ 1 + length s.workers
    pub bounded : length s.workers ≤ max_clients

  IsBounded-accept_turn :
      (s : Clients) (accepted : Option Conn) → IsBounded s → IsBounded (accept_turn s accepted)
  unfolding accept_turn
  IsBounded-accept_turn s none h = h
  IsBounded-accept_turn s (some conn) h =
      elim (Bool-cases (leb (max_clients + 1) s.instance_count)) [
        | inl full ↦ rw full h
        | inr room ↦ rw room (record {
          counted = omega (arith, h.counted);
          bounded = ground (arith, room, h.counted);
        })
      ]

  IsBounded-worker_ends :
      (s : Clients) (before after : List Conn) (conn : Conn)
      → s.workers ≡ before ++ conn ∷ after
      → IsBounded s
      → IsBounded (worker_ends s before after)
  unfolding worker_ends
  IsBounded-worker_ends s before after conn e h =
      let whole = ap length e ∙ length-append before (conn ∷ after) in
      let left = length-append before after in
      record {
        counted = omega (arith, h.counted, whole, left);
        bounded = omega (arith, h.bounded, whole, left);
      }

  IsBounded-ListenerStep : {s s' : Clients} → ListenerStep s s' → IsBounded s → IsBounded s'
  IsBounded-ListenerStep {s} (accepts accepted) h = IsBounded-accept_turn s accepted h
  IsBounded-ListenerStep {s} (ends before after conn e) h =
      IsBounded-worker_ends s before after conn e h

  IsBounded-ListenerReach : {s : Clients} → ListenerReach s → IsBounded s
  IsBounded-ListenerReach starts = record { counted = refl; bounded = omega arith }
  IsBounded-ListenerReach (steps r step) = IsBounded-ListenerStep step (IsBounded-ListenerReach r)

  -- Whatever connections come and whichever workers end, the count of instances is that of the
  -- workers and the listener, no more than four workers run at a time, and a connection gets a worker
  -- if fewer than four are running and is turned away otherwise.
  pub accept_turn-IsBounded :
      {s : Clients} (conn : Conn)
      → ListenerReach s
      → IsBounded s
        × (accept_turn s (some conn) ≡ (
            if ltb (length s.workers) max_clients
            then record { instance_count = s.instance_count + 1; workers = conn ∷ s.workers }
            else s))
  unfolding accept_turn
  accept_turn-IsBounded {s} conn r =
      let h = IsBounded-ListenerReach r in
      elim (Bool-cases (ltb (length s.workers) max_clients)) [
        | inl free ↦
            let room : leb (max_clients + 1) s.instance_count ≡ false =
              ground (arith, h.counted, free) in
            (h, rw (room, free) refl)
        | inr busy ↦
            let full : leb (max_clients + 1) s.instance_count ≡ true =
              ground (arith, h.counted, busy) in
            (h, rw (full, busy) refl)
      ]
