-- ===== src/Server/Restart.antt =====
-- A server that is stopped twice, with a run in between.
use tcp_server_client.Prelude.{
  Bool, true, false, List, [], ◌∷◌, ◌≡◌, refl, subst, sym, ◌∙◌, if-true,
}
use tcp_server_client.Prelude.Int.{ℤ, eqb_ℤ, eqb_ℤ-refl}
use tcp_server_client.Exec.{Os, Machine, Exec, throws, system_error, shutdown, shut_rd, ◌>>=◌}
use tcp_server_client.Exec.Runs.{bind-throws, Returns, Runs-bind}
use tcp_server_client.Maps.{find, set, keys}
use tcp_server_client.Server.{Server}
use tcp_server_client.Server.Accept.{
  join_thread, join_handler, join_handlers, shutdown_all, finish_accepting,
}

module _ (D : Type 0) (os : Os) where
  -- The one receive handler, and whether its thread is joinable.
  abbrev pub HasHandler : ℤ → ℤ → Bool → Server D → Type 0
  HasHandler id handle joinable s =
      s.rec_handlers ≡ (id, record { handle = handle; joinable = joinable }) ∷ []

  pub shutdown_all-same :
      (ids : List ℤ) (m : Machine (Server D))
      → Returns (λ _ m'. m'.self ≡ m.self) (shutdown_all os ids m)
  unfolding shutdown_all
  shutdown_all-same [] m = refl
  shutdown_all-same (id ∷ rest) m =
      shutdown_all-same rest (record m { log = shutdown id shut_rd ∷ m.log })

  -- The one handler is joined, which throws if it was joined before.
  join_handlers-once :
      (id handle : ℤ) (m : Machine (Server D))
      → HasHandler id handle true m.self
      → Returns
          (λ _ m'. HasHandler id handle false m'.self)
          (join_handlers os (keys m.self.rec_handlers) m)
  unfolding join_handlers join_handler join_thread find set
  join_handlers-once id handle m e =
      rw (e, find) (rw (eqb_ℤ-refl id) (if-true (eqb_ℤ id id) _ _ (eqb_ℤ-refl id)))

  join_handlers-twice :
      (id handle : ℤ) (m : Machine (Server D))
      → HasHandler id handle false m.self
      → (join_handlers os (keys m.self.rec_handlers) m).0 ≡ throws system_error
  unfolding join_handlers join_handler join_thread find
  join_handlers-twice id handle m e = rw e (rw (eqb_ℤ-refl id) refl)

  finish_accepting-once :
      (id handle : ℤ) (m : Machine (Server D))
      → HasHandler id handle true m.self
      → Returns (λ _ m'. HasHandler id handle false m'.self) (finish_accepting os m)
  unfolding finish_accepting
  finish_accepting-once id handle m e =
      Runs-bind (λ _ m'. HasHandler id handle false m'.self) (λ _. ⊥)
        (shutdown_all os (keys m.self.active_connections)) _ m
        (shutdown_all-same (keys m.self.active_connections) m)
        (λ _ m' same.
          join_handlers-once id handle m' (subst (HasHandler id handle true) (sym same) e))

  finish_accepting-twice :
      (id handle : ℤ) (m : Machine (Server D))
      → HasHandler id handle false m.self
      → (finish_accepting os m).0 ≡ throws system_error
  unfolding finish_accepting
  finish_accepting-twice id handle m e =
      bind-throws system_error (shutdown_all os (keys m.self.active_connections) m).0 _
        (shutdown_all os (keys m.self.active_connections) m).1
        (shutdown_all-same (keys m.self.active_connections) m)
        (λ _ m' same.
          join_handlers-twice id handle m' (subst (HasHandler id handle false) (sym same) e))

  -- A server whose accept thread ends with one receive handler, and joins it, leaves it in the map:
  -- when the accept thread of a second run ends, it joins the same thread again, which throws, as
  -- long as what happens in between leaves the map of handlers alone.
  pub second_run_throws :
      (between : Exec (Server D) (Unit {0})) (id handle : ℤ) (m : Machine (Server D))
      → ((m' : Machine (Server D))
          → Returns (λ _ m''. m''.self.rec_handlers ≡ m'.self.rec_handlers) (between m'))
      → HasHandler id handle true m.self
      → ((finish_accepting os >>= λ _. between >>= λ _. finish_accepting os) m).0
        ≡ throws system_error
  second_run_throws between id handle m keeps e =
      bind-throws system_error (finish_accepting os m).0 _ (finish_accepting os m).1
        (finish_accepting-once id handle m e)
        (λ _ m1 h.
          bind-throws system_error (between m1).0 _ (between m1).1 (keeps m1)
            (λ _ m2 same. finish_accepting-twice id handle m2 (same ∙ h)))
