-- ===== src/Exchange/Sent.antt =====
-- What a thread has sent on a socket, after any number of calls of `sendMsg`.
use Prim.Native.Nat.{◌≤◌}
use tcp_server_client.Prelude.{
  ℕ, ◌+◌, ◌<◌, Bool, true, false, List, [], ◌∷◌, ◌++◌, length, length-append, take, append_assoc,
  append-nil, ◌≡◌, refl, sym, ap, ◌∙◌, arith, if◌then◌else◌, inl, inr, ◌⊎◌,
}
use tcp_server_client.Prelude.Int.{ℤ, pos, pos_part, to_signed, eqb_ℤ}
use tcp_server_client.Exec.{Bytes, Call, send, ssl_write, Os, Machine, Exec, pure, ◌>>=◌}
use tcp_server_client.Exec.Runs.{Returns, Returns-weaken, Runs-bind, Runs-if}
use tcp_server_client.Framing.{Framing, may_send, frame}
use tcp_server_client.Framing.RoundTrip.{AllFit, stream}

-- What the system takes of a text, on the socket `fd`.
abbrev pub sent_by : Os → ℤ → List Call → Call → Bytes
sent_by os fd log (send s text) =
    if eqb_ℤ s fd then take (pos_part (os.result log (send s text))) text else []
sent_by os fd log (ssl_write s text len) =
    if eqb_ℤ s fd then take (pos_part (os.result log (ssl_write s text len))) text else []
sent_by os fd log _ = []

-- All bytes that the system has taken on the socket `fd`, in order.
unfoldable pub sent : Os → ℤ → List Call → Bytes
sent os fd [] = []
sent os fd (c ∷ log) = sent os fd log ++ sent_by os fd log c

take-all : (text : Bytes) → take (length text) text ≡ text
take-all [] = refl
take-all (c ∷ cs) = ap (◌∷◌ c) (take-all cs)

-- How a class writes: its call, the bits of the number that it holds the length of a text to be, and
-- the length from which on that number is another one.
pub record Wire : Type 0 where
  pub write : ℤ → Bytes → Call
  pub bits : ℕ
  pub limit : ℕ
  pub takes :
      (os : Os) (fd s : ℤ) (log : List Call) (text : Bytes)
      → sent_by os fd log (write s text)
        ≡ (if eqb_ℤ s fd then take (pos_part (os.result log (write s text))) text else [])
  pub fits : (n : ℕ) → n < limit → to_signed bits n ≡ pos n

pub fits_64 : (n : ℕ) → n < 9223372036854775808 → to_signed 64 n ≡ pos n
fits_64 n h = ground arith

pub fits_32 : (n : ℕ) → n < 2147483648 → to_signed 32 n ≡ pos n
fits_32 n h = ground arith

-- `send`, and `SSL_write`, which is asked for an `int`.
abbrev pub tcp_wire : Wire
tcp_wire = record {
  write = send;
  bits = 64;
  limit = 9223372036854775808;
  takes = λ os fd s log text. refl;
  fits = fits_64;
}

abbrev pub tls_wire : Wire
tls_wire = record {
  write = λ s text. ssl_write s text (to_signed 32 (length text));
  bits = 32;
  limit = 2147483648;
  takes = λ os fd s log text. refl;
  fits = fits_32;
}

module _ (wire : Wire) where
  -- A write whose result is the length of its text has taken the whole of it.
  sent_by-whole :
      (os : Os) (fd s : ℤ) (log : List Call) (text : Bytes)
      → eqb_ℤ s fd ≡ true
      → length text < wire.limit
      → os.result log (wire.write s text) ≡ to_signed wire.bits (length text)
      → sent_by os fd log (wire.write s text) ≡ text
  sent_by-whole os fd s log text same small e =
      wire.takes os fd s log text
      ∙ rw (same, e)
          (ap (λ n. take (pos_part n) text) (wire.fits (length text) small) ∙ take-all text)

  -- A write to another socket.
  sent_by-other :
      (os : Os) (fd s : ℤ) (log : List Call) (text : Bytes)
      → eqb_ℤ s fd ≡ false
      → sent_by os fd log (wire.write s text) ≡ []
  sent_by-other os fd s log text other = wire.takes os fd s log text ∙ rw other refl

module _ {I : Type 0} (addressee : I → ℤ) (text : I → Bytes) (fd : ℤ) where
  -- The texts for the socket `fd`.
  abbrev pub texts_for : List I → List Bytes
  texts_for [] = []
  texts_for (i ∷ rest) = if eqb_ℤ (addressee i) fd then text i ∷ texts_for rest else texts_for rest

abbrev pub AllMaySend : Framing → List Bytes → Type 0
AllMaySend cfg [] = Unit
AllMaySend cfg (msg ∷ rest) = (may_send cfg msg ≡ true) × AllMaySend cfg rest

-- The messages keep to the documented limit, with the appended text.
abbrev pub AllShort : Framing → List Bytes → Type 0
AllShort cfg [] = Unit
AllShort cfg (msg ∷ rest) = (length msg + length cfg.append ≤ cfg.max_length) × AllShort cfg rest

pub AllFit-short :
    (cfg : Framing) (msgs : List Bytes) → AllMaySend cfg msgs → AllShort cfg msgs → AllFit cfg msgs
AllFit-short cfg [] may short = tt
AllFit-short cfg (msg ∷ rest) may short = (may.0, short.0, AllFit-short cfg rest may.1 short.1)

-- The object is as it was, and if the message is told to be sent, it passed the tests, and the system
-- has taken the whole of its frame.
abbrev pub SentBy :
    {S : Type 0} → Wire → Os → S → Framing → ℤ → Bytes → Machine S → Bool → Machine S → Type 0
SentBy wire os s cfg fd msg m done m' =
    (m'.self ≡ s)
    × ((done ≡ false)
        ⊎ (may_send cfg msg ≡ true)
          × (m'.log ≡ wire.write fd (frame cfg msg) ∷ m.log)
          × (os.result m.log (wire.write fd (frame cfg msg))
              ≡ to_signed wire.bits (length (frame cfg msg))))

-- What `sendMsg` of an object promises.
pub record SendsFrames {S I : Type 0} (wire : Wire) (os : Os) (s : S) (cfg : Framing)
    (addressee : I → ℤ) (text : I → Bytes) (send_one : I → Exec S Bool) : Type 0 where
  pub law :
      (i : I) (m : Machine S)
      → m.self ≡ s
      → Returns (SentBy wire os s cfg (addressee i) (text i) m) (send_one i m)

module _ {S I : Type 0} (send_one : I → Exec S Bool) where
  -- Messages are sent in turn, up to the first that is not sent. Were all sent?
  unfoldable pub send_all : List I → Exec S Bool
  send_all [] = pure true
  send_all (i ∷ rest) = do done ← send_one i; if done then send_all rest else pure false

module _ {S I : Type 0} {wire : Wire} {os : Os} {s : S} {cfg : Framing} {addressee : I → ℤ}
    {text : I → Bytes} {send_one : I → Exec S Bool}
    (l : SendsFrames wire os s cfg addressee text send_one) (fd : ℤ) where
  -- If all messages were sent, the system has taken exactly the frames of those for the socket `fd`
  -- on it.
  abbrev pub AllSent : List I → Machine S → Bool → Machine S → Type 0
  AllSent items m done m' =
      (m'.self ≡ s)
      × ((done ≡ false)
          ⊎ (sent os fd m'.log ≡ sent os fd m.log ++ stream cfg (texts_for addressee text fd items))
            × AllMaySend cfg (texts_for addressee text fd items))

  sent-step :
      (i : I) (rest : List I) (log : List Call) (sent_after : Bytes) (here : Bool)
      → eqb_ℤ (addressee i) fd ≡ here
      → length (stream cfg (texts_for addressee text fd (i ∷ rest))) < wire.limit
      → may_send cfg (text i) ≡ true
      → os.result log (wire.write (addressee i) (frame cfg (text i)))
        ≡ to_signed wire.bits (length (frame cfg (text i)))
      → sent_after
        ≡ sent os fd (wire.write (addressee i) (frame cfg (text i)) ∷ log)
          ++ stream cfg (texts_for addressee text fd rest)
      → AllMaySend cfg (texts_for addressee text fd rest)
      → (sent_after ≡ sent os fd log ++ stream cfg (texts_for addressee text fd (i ∷ rest)))
        × AllMaySend cfg (texts_for addressee text fd (i ∷ rest))
  unfolding sent
  sent-step i rest log after true here small may whole e mays = rw here (
    e
        ∙ ap (λ l. (sent os fd log ++ l) ++ stream cfg (texts_for addressee text fd rest))
            (sent_by-whole wire os fd (addressee i) log (frame cfg (text i)) here
              (let fits = rw here at small in
                omega (
                  arith,
                  length-append (frame cfg (text i))
                      (stream cfg (texts_for addressee text fd rest)),
                ))
              whole)
        ∙ append_assoc (sent os fd log) (frame cfg (text i))
            (stream cfg (texts_for addressee text fd rest)),
    (may, mays),
  )
  sent-step i rest log after false here small may whole e mays = rw here (
    e
        ∙ ap (λ l. (sent os fd log ++ l) ++ stream cfg (texts_for addressee text fd rest))
            (sent_by-other wire os fd (addressee i) log (frame cfg (text i)) here)
        ∙ ap (λ l. l ++ stream cfg (texts_for addressee text fd rest))
            (append-nil (sent os fd log)),
    mays,
  )

  -- The texts of later messages take no more room.
  length-texts_for :
      (i : I) (rest : List I) (here : Bool)
      → eqb_ℤ (addressee i) fd ≡ here
      → length (stream cfg (texts_for addressee text fd rest))
        ≤ length (stream cfg (texts_for addressee text fd (i ∷ rest)))
  length-texts_for i rest true here = rw here (
      omega
        (arith, length-append (frame cfg (text i)) (stream cfg (texts_for addressee text fd rest))))
  length-texts_for i rest false here = rw here (omega arith)

  pub send_all-AllSent :
      (items : List I) (m : Machine S)
      → m.self ≡ s
      → length (stream cfg (texts_for addressee text fd items)) < wire.limit
      → Returns (AllSent items m) (send_all send_one items m)
  unfolding send_all
  send_all-AllSent [] m same small = (same, inr (sym (append-nil (sent os fd m.log)), tt))
  send_all-AllSent (i ∷ rest) m same small =
      Runs-bind (AllSent (i ∷ rest) m) (λ _. ⊥) (send_one i) _ m (l.law i m same)
        (λ done m1 h.
          Runs-if (AllSent (i ∷ rest) m) (λ _. ⊥) done (send_all send_one rest) (pure false) m1
            (λ e. elim h.1 [
              | inl x ↦ cc
              | inr (may, logged, whole) ↦
                  Returns-weaken (AllSent (i ∷ rest) m) (send_all send_one rest m1)
                    (λ _ m2 k. (
                      k.0,
                      elim k.1 [
                        | inl f ↦ inl f
                        | inr (got, mays) ↦ inr (
                            sent-step i rest m.log (sent os fd m2.log) (eqb_ℤ (addressee i) fd) refl
                              small may whole
                              (got
                                ∙ ap
                                    (λ log.
                                      sent os fd log
                                      ++ stream cfg (texts_for addressee text fd rest))
                                    logged)
                              mays)
                      ],
                    ))
                    (send_all-AllSent rest m1 h.0
                      (omega (arith, small, length-texts_for i rest (eqb_ℤ (addressee i) fd) refl)))
            ])
            (λ e. (h.0, inl refl)))
