-- ===== src/Server/Stopping.antt =====
-- NetLib/LanServer.cpp: what `Stop` waits for.
pub mod Starting
pub mod Running
pub mod Tests
use game_server_portfolio.Base.{
  ℕ, zero, suc, ◌<◌, ◌≡◌, refl, sym, ap, subst, ◌∙◌, inl, inr, true, false, List, [], ◌∷◌, ◌++◌,
  Option, none, some, of-some, Option-cases, replicate, arith,
}
use game_server_portfolio.Server.State.{IoType, Server}
use game_server_portfolio.Server.Threads.{
  Completion, null_completion, completed_io, LanServer, Accepted, accept_thread,
  close_accept_thread, close_worker_threads, handle, worker_threads, waiting_for_multi_thread_end,
  stop,
}
use game_server_portfolio.Server.Sound.Reach.{Steps, here}
use game_server_portfolio.Server.Stopping.Running.{accept_thread-Steps, worker_threads-Steps}

module _ (fresh : List ℕ) (garbage : ℕ) where
  -- The completions handled one after the other.
  unfoldable pub handle_all : List (ℕ × IoType × ℕ) → Server → Option Server
  handle_all [] v = some v
  handle_all ((i, type, n) ∷ ops) v = elim (handle fresh garbage v i type n) [
    | none ↦ none
    | some v' ↦ handle_all ops v'
  ]

  -- The port with these completions, and behind them as many null completions.
  abbrev pub queued_ops : List (ℕ × IoType × ℕ) → List Completion → List Completion
  queued_ops [] queue = queue
  queued_ops ((i, type, n) ∷ ops) queue = completed_io i type n ∷ queued_ops ops queue

  all_end :
      (running : ℕ) (v : Server)
      → worker_threads fresh garbage running (replicate running null_completion) v ≡ some (0, [], v)
  unfolding worker_threads
  all_end zero v = refl
  all_end (suc running) v = all_end running v

  worker_threads-handle_all :
      (running : ℕ) (ops : List (ℕ × IoType × ℕ)) (queue : List Completion) (v v' : Server)
      → handle_all ops v ≡ some v'
      → worker_threads fresh garbage (suc running) (queued_ops ops queue) v
        ≡ worker_threads fresh garbage (suc running) queue v'
  unfolding worker_threads handle_all
  worker_threads-handle_all running [] queue v v' e =
      ap (worker_threads fresh garbage (suc running) queue) (of-some e)
  worker_threads-handle_all running ((i, type, n) ∷ ops) queue v v' e =
      elim (Option-cases (handle fresh garbage v i type n)) [
        | inl stuck ↦ ground (arith, e, stuck)
        | inr (w, handled) ↦
            let later =
              worker_threads-handle_all running ops queue w v' (ground (arith, e, handled)) in
            ground (arith, handled, later)
      ]

  queued_ops-append :
      (ops : List (ℕ × IoType × ℕ)) (queue : List Completion)
      → queued_ops ops [] ++ queue ≡ queued_ops ops queue
  queued_ops-append [] queue = refl
  queued_ops-append ((i, type, n) ∷ ops) queue =
      ap (◌∷◌ (completed_io i type n)) (queued_ops-append ops queue)

  all_handled :
      (n : ℕ) (ops : List (ℕ × IoType × ℕ)) (v v' : Server)
      → 0 < n
      → handle_all ops v ≡ some v'
      → worker_threads fresh garbage n (queued_ops ops (replicate n null_completion)) v
        ≡ some (0, [], v')
  all_handled zero ops v v' some_run e = absurd (omega arith)
  all_handled (suc n) ops v v' some_run e =
      worker_threads-handle_all n ops (replicate (suc n) null_completion) v v' e
      ∙ all_end (suc n) v'

  -- `Stop` of a server whose threads run, one worker thread at least, returns with none running, if
  -- `accept` on the closed socket ends the accept thread, and the completions that the port held can
  -- be handled: they all have been, behind the clients that were still accepted. The server it leaves
  -- is reached from the one it found.
  pub stop_ends :
      (accepts : List Accepted) (l : LanServer) (ops : List (ℕ × IoType × ℕ)) (v v' : Server)
      → l.accept_thread ≡ true
      → 0 < l.worker_threads
      → l.worker_threads ≡ l.number_of_worker_threads
      → l.queue ≡ queued_ops ops []
      → accept_thread accepts l.server ≡ (true, v)
      → handle_all ops v ≡ some v'
      → (l' : LanServer) × (stop fresh garbage accepts l ≡ some l')
        × (l'.accept_thread ≡ false)
        × (l'.worker_threads ≡ 0)
        × (l'.queue ≡ [])
        × (l'.server ≡ v')
        × Steps fresh garbage l.server v'
  unfolding stop waiting_for_multi_thread_end close_worker_threads close_accept_thread
  stop_ends accepts l ops v v' on some_run all_run port ended handled =
      let n = l.worker_threads in
      let nulls = replicate l.number_of_worker_threads null_completion in
      let queue_is : queued_ops ops (replicate n null_completion) ≡ l.queue ++ nulls =
        ap (λ k. queued_ops ops (replicate k null_completion)) all_run
        ∙ sym (queued_ops-append ops nulls)
        ∙ ap (λ q. q ++ nulls) (sym port) in
      let ran : worker_threads fresh garbage n (l.queue ++ nulls) v ≡ some (0, [], v') =
        subst (λ q. worker_threads fresh garbage n q v ≡ some (0, [], v')) queue_is
          (all_handled n ops v v' some_run handled) in
      let l' : LanServer = record l {
        listen_socket = none;
        accept_thread = false;
        worker_threads = 0;
        queue = [];
        server = v';
      } in
      let to_v : Steps fresh garbage l.server v =
        subst (λ r. Steps fresh garbage l.server r.1) ended
          (accept_thread-Steps fresh garbage accepts l.server l.server (here l.server)) in
      (
        l',
        ground (arith, on, ended, ran),
        refl,
        refl,
        refl,
        refl,
        worker_threads-Steps fresh garbage n 0 (l.queue ++ nulls) [] l.server v v' ran to_v,
      )
