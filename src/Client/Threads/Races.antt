-- ===== src/Client/Threads/Races.antt =====
-- What the threads of a client can come to.
use tcp_server_client.Prelude.{Bool, true, false, ◌≡◌, refl, arith, ◌⊎◌, inl, inr}
use tcp_server_client.Client.Threads.{
  idle, shut, joined, absent, ended, System, init, Starts, connects, fails, spawns, throws,
  sets_running, Stops, clears, shuts, shuts_none, joins, has_none, closes_socket, leaves_socket,
  Receives, loses, shuts_too, shut_fails, closes_too, Sends, sees_running, writes, silent, writing,
  starting, ending, receiving, sending, Steps, here, later, breaks, Reach,
}

-- No receive thread runs.
abbrev pub IsQuiet : System → Type 0
IsQuiet s = (s.receiver ≡ absent) ⊎ (s.receiver ≡ ended)

-- A receive thread that runs can be joined, `stop` has joined it when it goes on, and before that has
-- ended the connection, and what can be joined has been started.
pub record IsSafe (s : System) : Type 0 where
  pub unjoined : s.joinable ≡ false → IsQuiet s
  pub after_join : (success : Bool) → s.caller ≡ joined success → s.joinable ≡ false
  pub after_shut : (success : Bool) → s.caller ≡ shut success → s.is_connected ≡ false
  pub has_run : s.joinable ≡ true → ¬ (s.receiver ≡ absent)

init-IsSafe : IsSafe init
init-IsSafe = record {
  unjoined = λ e. inl refl;
  after_join = λ b e. refl;
  after_shut = λ b e. cc;
  has_run = λ e f. cc;
}

Starts-IsSafe : (s : System) {t : System} → Starts s t → IsSafe s → IsSafe t
Starts-IsSafe s (connects a b) h = record {
  unjoined = h.unjoined;
  after_join = λ b e. cc;
  after_shut = λ b e. cc;
  has_run = h.has_run;
}
Starts-IsSafe s (fails a) h = record {
  unjoined = h.unjoined;
  after_join = λ b e. cc;
  after_shut = λ b e. cc;
  has_run = h.has_run;
}
Starts-IsSafe s (spawns a b) h = record {
  unjoined = λ e. cc;
  after_join = λ b e. cc;
  after_shut = λ b e. cc;
  has_run = λ e f. cc;
}
Starts-IsSafe s (throws a b) h = record {
  unjoined = h.unjoined;
  after_join = λ b e. cc;
  after_shut = λ b e. cc;
  has_run = h.has_run;
}
Starts-IsSafe s (sets_running a) h = record {
  unjoined = h.unjoined;
  after_join = λ b e. cc;
  after_shut = λ b e. cc;
  has_run = h.has_run;
}

Stops-IsSafe : (s : System) {t : System} → Stops s t → IsSafe s → IsSafe t
Stops-IsSafe s (clears a) h = record {
  unjoined = h.unjoined;
  after_join = λ b e. cc;
  after_shut = λ b e. cc;
  has_run = h.has_run;
}
Stops-IsSafe s (shuts a) h = record {
  unjoined = h.unjoined;
  after_join = λ b e. cc;
  after_shut = λ b e. refl;
  has_run = h.has_run;
}
Stops-IsSafe s (shuts_none a b) h = record {
  unjoined = h.unjoined;
  after_join = λ b e. cc;
  after_shut = λ _ e. b;
  has_run = h.has_run;
}
Stops-IsSafe s (joins r a b c) h = record {
  unjoined = λ e. inr c;
  after_join = λ b e. refl;
  after_shut = λ b e. cc;
  has_run = λ e f. cc;
}
Stops-IsSafe s (has_none r a b) h = record {
  unjoined = h.unjoined;
  after_join = λ _ e. b;
  after_shut = λ b e. cc;
  has_run = h.has_run;
}
Stops-IsSafe s (closes_socket a) h = record {
  unjoined = h.unjoined;
  after_join = λ b e. cc;
  after_shut = λ b e. cc;
  has_run = h.has_run;
}
Stops-IsSafe s (leaves_socket a) h = record {
  unjoined = h.unjoined;
  after_join = λ b e. cc;
  after_shut = λ b e. cc;
  has_run = h.has_run;
}

Receives-IsSafe : (s : System) {t : System} → Receives s t → IsSafe s → IsSafe t
Receives-IsSafe s (loses a b) h = record {
  unjoined = λ e. ground (arith, h.unjoined e, a);
  after_join = h.after_join;
  after_shut = h.after_shut;
  has_run = λ e f. cc;
}
Receives-IsSafe s (shuts_too a) h = record {
  unjoined = λ e. ground (arith, h.unjoined e, a);
  after_join = h.after_join;
  after_shut = λ b e. refl;
  has_run = λ e f. cc;
}
Receives-IsSafe s (shut_fails a b) h = record {
  unjoined = λ e. inr refl;
  after_join = h.after_join;
  after_shut = h.after_shut;
  has_run = λ e f. cc;
}
Receives-IsSafe s (closes_too a) h = record {
  unjoined = λ e. inr refl;
  after_join = h.after_join;
  after_shut = h.after_shut;
  has_run = λ e f. cc;
}

Sends-IsSafe : (s : System) {t : System} → Sends s t → IsSafe s → IsSafe t
Sends-IsSafe s (sees_running a b) h = record {
  unjoined = h.unjoined;
  after_join = h.after_join;
  after_shut = h.after_shut;
  has_run = h.has_run;
}
Sends-IsSafe s (writes a) h = record {
  unjoined = h.unjoined;
  after_join = h.after_join;
  after_shut = h.after_shut;
  has_run = h.has_run;
}

pub Reach-IsSafe : {s : System} → Reach s → IsSafe s
Reach-IsSafe here = init-IsSafe
Reach-IsSafe (later r (starting st)) = Starts-IsSafe _ st (Reach-IsSafe r)
Reach-IsSafe (later r (ending st)) = Stops-IsSafe _ st (Reach-IsSafe r)
Reach-IsSafe (later r (receiving st)) = Receives-IsSafe _ st (Reach-IsSafe r)
Reach-IsSafe (later r (sending st)) = Sends-IsSafe _ st (Reach-IsSafe r)
Reach-IsSafe (breaks r) =
    let h = Reach-IsSafe r in
    record {
      unjoined = h.unjoined;
      after_join = h.after_join;
      after_shut = λ b e. refl;
      has_run = h.has_run;
    }

-- When `stop` goes on after its join, no receive thread runs, however the threads are
-- interleaved: the close of the socket at its end hits no read.
pub joined_receiver_ended :
    {s : System} → Reach s → (success : Bool) → s.caller ≡ joined success → IsQuiet s
joined_receiver_ended r success e =
    (Reach-IsSafe r).unjoined ((Reach-IsSafe r).after_join success e)

-- From every state in which a client may be started, with no receive thread to be joined, a `start`
-- and a `stop` can close the one socket twice: both threads shut it down and close it.
pub closes_twice :
    (s : System)
    → s.caller ≡ idle
    → s.running ≡ false
    → s.joinable ≡ false
    → (t : System) × Steps s t × (t.caller ≡ idle) × (t.closes ≡ 2)
closes_twice s e off none_left = (
  _,
  later
      (later
        (later
          (later
            (later
              (later
                (later
                  (later
                    (later (later here (starting (connects e off)))
                      (starting (spawns refl none_left)))
                    (starting (sets_running refl)))
                  (ending (clears refl)))
                (ending (shuts refl)))
              (receiving (loses refl refl)))
            (receiving (shuts_too refl)))
          (receiving (closes_too refl)))
        (ending (joins true refl refl refl)))
      (ending (closes_socket refl)),
  refl,
  refl,
)

-- From every such state, `start` can also return with a client that counts as running while its
-- receive thread has ended: the connection breaks before `start` sets the flag.
pub runs_without_receiver :
    (s : System)
    → s.caller ≡ idle
    → s.running ≡ false
    → s.joinable ≡ false
    → (t : System) × Steps s t × (t.caller ≡ idle) × (t.running ≡ true) × (t.receiver ≡ ended)
runs_without_receiver s e off none_left = (
  _,
  later
      (later
        (later
          (breaks
            (later (later here (starting (connects e off))) (starting (spawns refl none_left))))
          (receiving (loses refl refl)))
        (receiving (shut_fails refl refl)))
      (starting (sets_running refl)),
  refl,
  refl,
  refl,
)

-- From every such state in which no message is being sent, the calls of `start` and `sendMsg` can run
-- in such an order that `sendMsg` is about to write after the receive thread has closed the socket and
-- ended: its test of the flag came before, and nothing keeps the socket open until it has written.
pub writes_to_closed :
    (s : System)
    → s.caller ≡ idle
    → s.running ≡ false
    → s.joinable ≡ false
    → s.sender ≡ silent
    → (t : System) × Steps s t
      × (t.sender ≡ writing)
      × (t.closes ≡ 1)
      × (t.running ≡ false)
      × (t.receiver ≡ ended)
writes_to_closed s e off none_left quiet = (
  _,
  later
      (later
        (later
          (breaks (
            later
              (later
                (later (later here (starting (connects e off))) (starting (spawns refl none_left)))
                (starting (sets_running refl)))
              (sending (sees_running quiet refl))))
          (receiving (loses refl refl)))
        (receiving (shuts_too refl)))
      (receiving (closes_too refl)),
  refl,
  refl,
  refl,
  refl,
)
