-- ===== src/Exchange/Between.antt =====
-- A sender and a receiver in fragmented mode, whatever they write and read with.
use tcp_server_client.Prelude.{
  ℕ, ◌+◌, ◌*◌, ◌<◌, Bool, Bool-cases, ◌&&◌, true, false, List, [], ◌∷◌, ◌++◌, length, ◌≡◌, ◌⊎◌, inl,
  inr, refl, sym, subst, ap, ◌∙◌,
}
use tcp_server_client.Prelude.Int.{ℤ, eqb_ℤ, eqb_ℤ_iff, eqb_ℤ-refl, to_signed}
use tcp_server_client.Exec.{Bytes, Call, Os, Machine, Outcome, Exec, ok, throws, diverges}
use tcp_server_client.Exec.Runs.{Returns, RunsTo, Runs}
use tcp_server_client.Framing.{Framing, may_send, frame, size_mod, contains}
use tcp_server_client.Framing.RoundTrip.{stream, appended}
use tcp_server_client.Framing.Scan.{scan}
use tcp_server_client.ReadMsg.{maximum_receive_package_size}
use tcp_server_client.Server.{send_msg}
use tcp_server_client.Server.Transport.{ReadsAtMost}
use tcp_server_client.Server.Receive.{listen_message}
use tcp_server_client.Server.Stream as Server
use tcp_server_client.Server.Faithful as ServerFaithful
use tcp_server_client.Client.Faithful as ClientFaithful
use tcp_server_client.Server.Faithful.{listen_message-IsFaithful}
use tcp_server_client.Client as Client
use tcp_server_client.Client.Receive.{receive}
use tcp_server_client.Client.Faithful.{IsFaithful, receive-IsFaithful}
use tcp_server_client.Workers.Prune.{Worker, vectors}
use tcp_server_client.Workers.Total.{AllJoinable}
use tcp_server_client.Exchange.Sent.{
  Wire, sent, texts_for, AllMaySend, AllShort, AllFit-short, SendsFrames, send_all, AllSent,
  send_all-AllSent,
}
use tcp_server_client.Exchange.Prefix.{LacksAtMost, scan-LacksAtMost}
use tcp_server_client.Server as ServerApi
use tcp_server_client.Server.Transport as ServerTransport
use tcp_server_client.Client.Transport as ClientTransport

and-true : (a b : Bool) → (a && b) ≡ true → a ≡ true
and-true true b e = refl
and-true false b e = e

-- What is known of a `sendMsg`, as `SendsFrames` has it.
pub told-sent :
    (wire : Wire) (os : Os) (fd : ℤ) (cfg : Framing) (msg : Bytes) (open_now done : Bool)
    (log log' : List Call)
    → let sending = wire.write fd (frame cfg msg) in
      ((may_send cfg msg && open_now) ≡ true)
          × (log' ≡ sending ∷ log)
          × (done ≡ eqb_ℤ (os.result log sending) (to_signed wire.bits (length (frame cfg msg))))
        ⊎ ((may_send cfg msg && open_now) ≡ false) × (log' ≡ log) × (done ≡ false)
      → (done ≡ false)
        ⊎ (may_send cfg msg ≡ true)
          × (log' ≡ sending ∷ log)
          × (os.result log sending ≡ to_signed wire.bits (length (frame cfg msg)))
told-sent wire os fd cfg msg open_now done log log' (inl (tests, logged, told)) =
    elim (Bool-cases done) [
      | inl all ↦
          inr
            (and-true (may_send cfg msg) open_now tests, logged, (eqb_ℤ_iff _ _).0 (sym told ∙ all))
      | inr not_all ↦ inl not_all
    ]
told-sent wire os fd cfg msg open_now done log log' (inr (_, _, not_all)) = inl not_all

-- All messages are for the one socket.
pub texts_for-all :
    (fd : ℤ) (msgs : List Bytes) → texts_for (λ (_ : Bytes). fd) (λ msg. msg) fd msgs ≡ msgs
texts_for-all fd [] = refl
texts_for-all fd (msg ∷ rest) = rw (eqb_ℤ-refl fd) (ap (◌∷◌ msg) (texts_for-all fd rest))

-- What is known of a thread's last state if it returned, and if it has not yet.
settled :
    {S A : Type 0} (Q R F : Machine S → Type 0) (r : Outcome A) (m : Machine S)
    → ((m' : Machine S) → Q m' → F m')
    → ((m' : Machine S) → R m' → F m')
    → RunsTo (λ _. Q) R r m
    → F m
settled Q R F (ok a) m q l h = q m h
settled Q R F (throws e) m q l h = absurd h
settled Q R F diverges m q l h = l m h

module _ (cfg : Framing) (on : cfg.enabled ≡ true)
    (clean : contains cfg.delimiter cfg.append ≡ false) where
  pub arrived :
      (msgs handed : List Bytes) (taken read late : Bytes)
      → AllMaySend cfg msgs
      → AllShort cfg msgs
      → taken ≡ stream cfg msgs
      → taken ≡ read ++ late
      → handed ≡ (scan cfg.delimiter cfg.max_length [] read).messages
      → LacksAtMost handed late (appended cfg msgs)
  arrived msgs handed taken read late may short whole cut faithful = rw faithful (
      scan-LacksAtMost cfg msgs read late on clean (AllFit-short cfg msgs may short)
        (sym whole ∙ cut))

  -- What the system has taken, if all messages were told to be sent.
  pub sent_whole :
      {S I : Type 0} {wire : Wire} {os : Os} {s : S} {addressee : I → ℤ} {text : I → Bytes}
      {send_one : I → Exec S Bool} (l : SendsFrames wire os s cfg addressee text send_one) (fd : ℤ)
      (items : List I) (m : Machine S)
      → length (stream cfg (texts_for addressee text fd items)) < wire.limit
      → send_all send_one items (record { self = s; log = [] }) ≡ (ok true, m)
      → (sent os fd m.log ≡ stream cfg (texts_for addressee text fd items))
        × AllMaySend cfg (texts_for addressee text fd items)
  unfolding sent
  sent_whole {S = S} {s = s} l fd items m small e = elim (told.1) [
    | inl no_more ↦ cc
    | inr (taken, may) ↦ (taken, may)
  ]
    where
      told : AllSent l fd items (record { self = s; log = [] }) true m
      told =
          subst
            (λ (x : Outcome Bool × Machine S).
              Returns (AllSent l fd items (record { self = s; log = [] })) x)
            e (send_all-AllSent l fd items (record { self = s; log = [] }) refl small)

  -- What the receive thread of a connection of a server has handed on so far.
  pub server_heard :
      {D : Type 0} (os : Os) {p : ServerApi.Protocol D} (t : ServerTransport.Transport os p)
      (s : ServerApi.Server D) (client flag : ℤ) (fuel : ℕ) (r : Outcome (Unit {0}))
      (m : Machine (ServerApi.Server D))
      → s.framing ≡ cfg
      → ServerTransport.ReadsAtMost os
      → maximum_receive_package_size * fuel < size_mod
      → listen_message os p fuel client flag (record { self = s; log = [] }) ≡ (r, m)
      → Server.IsFaithful D os client cfg m
  server_heard {D = D} os {p = p} t s client flag fuel r m same most fits listened =
      settled (Server.IsFaithful D os client cfg) (IsLong fuel) (Server.IsFaithful D os client cfg)
        r m (λ _ h. h) (λ _ h. h.0)
        (subst
          (λ (x : Outcome (Unit {0}) × Machine (ServerApi.Server D)).
            Runs (λ _. Server.IsFaithful D os client cfg) (IsLong fuel) x)
          listened (listen_message-IsFaithful D os client t cfg on most fuel flag s same fits))
    where
      IsLong : ℕ → Machine (ServerApi.Server D) → Type 0
      IsLong = ServerFaithful.IsLong D os client t cfg on most

  -- What the receive thread of a client has handed on so far.
  pub client_heard :
      {D : Type 0} (os : Os) {p : Client.Protocol D} (t : ClientTransport.Transport os p)
      (c : Client.Client D) (fuel : ℕ) (ws : List Worker) (r : Outcome (Unit {0}))
      (m : Machine (Client.Client D))
      → c.framing ≡ cfg
      → ServerTransport.ReadsAtMost os
      → c.work ≡ vectors ws
      → AllJoinable ws
      → length ws + maximum_receive_package_size * fuel < size_mod
      → receive os p fuel (record { self = c; log = [] }) ≡ (r, m)
      → IsFaithful D os cfg m
  client_heard {D = D} os {p = p} t c fuel ws r m same most e all fits received =
      settled IsDone IsLong (IsFaithful D os cfg) r m (λ _ h. h.0) (λ _ h. h.0)
        (subst (λ (x : Outcome (Unit {0}) × Machine (Client.Client D)). Runs (λ _. IsDone) IsLong x)
          received (receive-IsFaithful D os t cfg on most fuel ws c same e all fits))
    where
      IsDone : Machine (Client.Client D) → Type 0
      IsDone = ClientFaithful.IsDone D os t cfg on most

      IsLong : Machine (Client.Client D) → Type 0
      IsLong = ClientFaithful.IsLong D os t cfg on most fuel
