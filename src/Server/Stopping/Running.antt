-- ===== src/Server/Stopping/Running.antt =====
-- NetLib/LanServer.cpp: the threads' loops as steps of the server.
use game_server_portfolio.Base.{
  ℕ, zero, suc, ◌≡◌, refl, sym, ap, ap₂, subst, ◌∙◌, inl, inr, true, ◌||◌, ◌&&◌, List, [], ◌∷◌,
  ◌++◌, some, of-some, Option-cases, Bool-cases, ◌==◌, arith,
}
use game_server_portfolio.Server.State.{IoType, io_recv, io_send, Server}
use game_server_portfolio.Server.Handlers.{worker_round, on_accept}
use game_server_portfolio.Server.Threads.{
  Completion, null_completion, completed_io, Accepted, client, accept_error, sock_err_intr,
  sock_err_notsock, accept_thread, same_type, take_pending, handle, worker_threads,
}
use game_server_portfolio.Server.Sound.Reach.{accepted, completed, Steps, step, with_pending}

same_type→eq : (t u : IoType) → same_type t u ≡ true → t ≡ u
same_type→eq io_recv io_recv e = refl
same_type→eq io_recv io_send e = ground (arith, e)
same_type→eq io_send io_recv e = ground (arith, e)
same_type→eq io_send io_send e = refl

take_pending_split :
    (i : ℕ) (type : IoType) (ops ops' : List (ℕ × IoType))
    → take_pending i type ops ≡ some ops'
    → (before : List (ℕ × IoType)) × (behind : List (ℕ × IoType)) × (ops
        ≡ before ++ (i, type) ∷ behind)
      × (ops' ≡ before ++ behind)
unfolding take_pending
take_pending_split i type [] ops' e = ground (arith, e)
take_pending_split i type ((j, t) ∷ ops) ops' e = elim (Bool-cases (i == j && same_type type t)) [
  | inl same ↦
      let e₁ : i ≡ j = ground (arith, same) in
      let e₂ : type ≡ t = same_type→eq type t (ground (arith, same)) in
      ([], ops, ap₂ (λ k x. (k, x) ∷ ops) (sym e₁) (sym e₂), ground (arith, e, same))
  | inr differ ↦ elim (Option-cases (take_pending i type ops)) [
    | inl absent ↦ ground (arith, e, differ, absent)
    | inr (later, found) ↦
        let (before, behind, split, left) = take_pending_split i type ops later found in
        let e' : ops' ≡ (j, t) ∷ later = ground (arith, e, differ, found) in
        ((j, t) ∷ before, behind, ap (◌∷◌ (j, t)) split, e' ∙ ap (◌∷◌ (j, t)) left)
  ]
]

module _ (fresh : List ℕ) (garbage : ℕ) where
  pub accept_thread-Steps :
      (accepts : List Accepted) (u v : Server)
      → Steps fresh garbage u v
      → Steps fresh garbage u (accept_thread accepts v).1
  unfolding accept_thread
  accept_thread-Steps [] u v run = run
  accept_thread-Steps (client client_socket address ∷ as') u v run =
      accept_thread-Steps as' u (on_accept v client_socket address)
        (step u v (on_accept v client_socket address) run (accepted v client_socket address))
  accept_thread-Steps (accept_error error ∷ as') u v run =
      elim (Bool-cases (error == sock_err_intr || error == sock_err_notsock)) [
        | inl last ↦
            subst (Steps fresh garbage u)
              (let e : v ≡ (accept_thread (accept_error error ∷ as') v).1 = ground (arith, last) in
                e)
              run
        | inr more ↦
            subst (Steps fresh garbage u)
              (let e : (accept_thread as' v).1 ≡ (accept_thread (accept_error error ∷ as') v).1 =
                  ground (arith, more) in
                e)
              (accept_thread-Steps as' u v run)
      ]

  handle-Steps :
      (u v v' : Server) (i : ℕ) (type : IoType) (n : ℕ)
      → handle fresh garbage v i type n ≡ some v'
      → Steps fresh garbage u v
      → Steps fresh garbage u v'
  unfolding handle
  handle-Steps u v v' i type n e run = elim (Option-cases (take_pending i type v.sockets.pending)) [
    | inl absent ↦ ground (arith, e, absent)
    | inr (ops, taken) ↦
        let (before, behind, split, left) = take_pending_split i type v.sockets.pending ops taken in
        let e' : worker_round fresh garbage (with_pending v ops) i type n ≡ some v' =
          ground (arith, e, taken) in
        let e'' : worker_round fresh garbage (with_pending v (before ++ behind)) i type n
            ≡ some v' =
          subst (λ o. worker_round fresh garbage (with_pending v o) i type n ≡ some v') left e' in
        step u v v' run (completed v v' before behind i type n split e'')
  ]

  pub worker_threads-Steps :
      (running running' : ℕ) (queue queue' : List Completion) (u v v' : Server)
      → worker_threads fresh garbage running queue v ≡ some (running', queue', v')
      → Steps fresh garbage u v
      → Steps fresh garbage u v'
  unfolding worker_threads
  worker_threads-Steps zero running' queue queue' u v v' e run =
      subst (Steps fresh garbage u) (ap (λ x. x.2) (of-some e)) run
  worker_threads-Steps (suc running) running' [] queue' u v v' e run =
      subst (Steps fresh garbage u) (ap (λ x. x.2) (of-some e)) run
  worker_threads-Steps (suc running) running' (null_completion ∷ queue) queue' u v v' e run =
      worker_threads-Steps running running' queue queue' u v v' e run
  worker_threads-Steps (suc running) running' (completed_io i type n ∷ queue) queue' u v v' e run =
      elim (Option-cases (handle fresh garbage v i type n)) [
        | inl stuck ↦ ground (arith, e, stuck)
        | inr (w, handled) ↦
            worker_threads-Steps (suc running) running' queue queue' u w v'
              (ground (arith, e, handled)) (handle-Steps u v w i type n handled run)
      ]
