-- ===== src/Console/Run.antt =====
-- What the rounds of the console leave.
use native.Mathlib.Decide.{ℕ_discrete}
use game_server_portfolio.Base.{
  ap, sym, ◌∙◌, refl, subst, ◌⊎◌, inl, inr, ℕ, ◌+◌, ◌<◌, ◌≡◌, ◌==◌, true, false, List, [], ◌∷◌,
  ◌++◌, append-nil, append_assoc, replicate, none, some, if◌then◌else◌, count, arith,
}
use game_server_portfolio.SystemLogger.{
  debug_level, error_level, system_level, SystemLogger, Line, level_to_char, at_least, write,
  syslog_level,
}
use game_server_portfolio.Server.State.{IoType, Server}
use game_server_portfolio.Server.Threads.{
  Accepted, LanServer, accept_thread, worker_threads, close_accept_thread, close_worker_threads,
  waiting_for_multi_thread_end, null_completion, stop,
}
use game_server_portfolio.Server.Stopping.{queued_ops, handle_all, stop_ends}
use game_server_portfolio.Console.{
  Message, server_stopped, unknown_command, ConsoleHandler, key_stop, key_debug, key_error,
  key_profile, press, run,
}

-- None of the server's threads runs, and it has become this one.
pub record IsStopped (l : LanServer) (v : Server) : Type 0 where
  pub no_accept : l.accept_thread ≡ false
  pub no_workers : l.worker_threads ≡ 0
  pub server_is : l.server ≡ v

abbrev pub system_line : Message → Line Message
system_line message = record { level = level_to_char system_level; message = message }

-- the lines that a key prints, and those that these keys print
abbrev line_of : ℕ → List (Line Message)
line_of key =
    if key == key_stop
    then system_line server_stopped ∷ []
    else if key == key_debug
    then []
    else if key == key_error
    then []
    else if key == key_profile
    then []
    else system_line unknown_command ∷ []

abbrev pub printed : List ℕ → List (Line Message)
printed [] = []
printed (key ∷ keys) = line_of key ++ printed keys

-- A line of the highest level is printed at every level.
write-system_level :
    (message : Message) (s : SystemLogger Message)
    → write system_level message s ≡ record s { lines = s.lines ++ system_line message ∷ [] }
unfolding write at_least
write-system_level message s = refl

module _ (fresh : List ℕ) (garbage : ℕ) (accepts : List Accepted) where
  stop-IsStopped :
      (l : LanServer) (v : Server)
      → IsStopped l v
      → (l' : LanServer) × (stop fresh garbage accepts l ≡ some l') × IsStopped l' v
  unfolding stop waiting_for_multi_thread_end close_worker_threads close_accept_thread
      worker_threads
  stop-IsStopped l v s =
      let l' : LanServer = record l {
        listen_socket = none;
        queue = l.queue ++ replicate l.number_of_worker_threads null_completion;
      } in
      (
        l',
        ground (arith, s.no_accept, s.no_workers),
        record { no_accept = s.no_accept; no_workers = s.no_workers; server_is = s.server_is },
      )

  -- What a round, or these rounds, leave of the console.
  abbrev pub Pressed :
      List (Line Message) → ℕ → ℕ → Server → ConsoleHandler → ConsoleHandler → Type 0
  Pressed lines profiles stops v c c' =
      (c'.logger.lines ≡ c.logger.lines ++ lines)
      × (c'.profiles ≡ c.profiles + profiles)
      × ((stops ≡ 0) × (c'.server ≡ c.server) ⊎ IsStopped c'.server v)

  -- `Stop` of this server returns.
  abbrev Stops : LanServer → Server → Type 0
  Stops l v = (l' : LanServer) × (stop fresh garbage accepts l ≡ some l') × IsStopped l' v

  press-Pressed :
      (key : ℕ) (c : ConsoleHandler) (v : Server)
      → Stops c.server v
      → (c' : ConsoleHandler) × (press fresh garbage accepts c key ≡ some c')
        × Pressed
            (line_of key)
            (if key == key_profile then 1 else 0)
            (if key == key_stop then 1 else 0)
            v
            c
            c'
  unfolding press
  press-Pressed key c v (l', stopped, s) = elim (ℕ_discrete key key_stop) [
    | yes e ↦
        let c' : ConsoleHandler = record c {
          server = l';
          logger = write system_level server_stopped c.logger;
        } in
        let line = ap (λ s. s.lines) (write-system_level server_stopped c.logger) in
        (c', ground (arith, e, stopped), (ground (arith, e, line), ground (arith, e), inr s))
    | no ne ↦ elim (ℕ_discrete key key_debug) [
      | yes e ↦
          let c' : ConsoleHandler = record c { logger = syslog_level debug_level c.logger } in
          (
            c',
            ground (arith, e),
            (
              ground (arith, e, append-nil c.logger.lines),
              ground (arith, e),
              inl (ground (arith, ne), refl),
            ),
          )
      | no ne' ↦ elim (ℕ_discrete key key_error) [
        | yes e ↦
            let c' : ConsoleHandler = record c { logger = syslog_level error_level c.logger } in
            (
              c',
              ground (arith, e),
              (
                ground (arith, e, append-nil c.logger.lines),
                ground (arith, e),
                inl (ground (arith, ne), refl),
              ),
            )
        | no ne'' ↦ elim (ℕ_discrete key key_profile) [
          | yes e ↦
              let c' : ConsoleHandler = record c { profiles = c.profiles + 1 } in
              (
                c',
                ground (arith, e),
                (
                  ground (arith, e, append-nil c.logger.lines),
                  ground (arith, e),
                  inl (ground (arith, ne), refl),
                ),
              )
          | no other ↦
              let c' : ConsoleHandler = record c {
                logger = write system_level unknown_command c.logger;
              } in
              let line = ap (λ s. s.lines) (write-system_level unknown_command c.logger) in
              (
                c',
                ground (arith, ne, ne', ne'', other),
                (
                  ground (arith, line, ne, ne', ne'', other),
                  ground (arith, other),
                  inl (ground (arith, ne), refl),
                ),
              )
        ]
      ]
    ]
  ]

  run-Pressed :
      (keys : List ℕ) (c : ConsoleHandler) (v : Server)
      → Stops c.server v
      → (c' : ConsoleHandler) × (run fresh garbage accepts keys c ≡ some c')
        × Pressed (printed keys) (count key_profile keys) (count key_stop keys) v c c'
  unfolding run
  run-Pressed [] c v stops =
      (c, refl, (sym (append-nil c.logger.lines), omega arith, inl (refl, refl)))
  run-Pressed (key ∷ keys) c v stops =
      let (c₁, e, (lines, profiles, server)) = press-Pressed key c v stops in
      let stops₁ : Stops c₁.server v = elim server [
        | inl (_, same) ↦ subst (λ l. Stops l v) (sym same) stops
        | inr s ↦ stop-IsStopped c₁.server v s
      ] in
      let (c', e', (lines', profiles', server')) = run-Pressed keys c₁ v stops₁ in
      let server'' : (count key_stop (key ∷ keys) ≡ 0) × (c'.server ≡ c.server)
          ⊎ IsStopped c'.server v =
        elim server' [
          | inr s' ↦ inr s'
          | inl (zeroed', same') ↦ elim server [
            | inr s ↦ inr (subst (λ l. IsStopped l v) (sym same') s)
            | inl (zeroed, same) ↦ inl (ground (arith, zeroed, zeroed'), same' ∙ same)
          ]
        ] in
      (
        c',
        ground (arith, e, e'),
        (
          lines'
              ∙ ap (λ ls. ls ++ printed keys) lines
              ∙ append_assoc c.logger.lines (line_of key) (printed keys),
          ground (arith, profiles, profiles'),
          server'',
        ),
      )

  -- On the console of a server whose threads run, one worker thread at least, where `accept` on the
  -- closed socket ends the accept thread and the completions that the port holds can be handled, all
  -- rounds return, whatever keys are pressed: each `s` and each unknown key has printed its line, in
  -- their order and at every level of the log, and each `p` has written the profile once; and the
  -- server is as it was if no `s` was pressed, or no thread of it runs, and the completions have all
  -- been handled.
  pub run_ends :
      (keys : List ℕ) (c : ConsoleHandler) (ops : List (ℕ × IoType × ℕ)) (v v' : Server)
      → c.server.accept_thread ≡ true
      → 0 < c.server.worker_threads
      → c.server.worker_threads ≡ c.server.number_of_worker_threads
      → c.server.queue ≡ queued_ops fresh garbage ops []
      → accept_thread accepts c.server.server ≡ (true, v)
      → handle_all fresh garbage ops v ≡ some v'
      → (c' : ConsoleHandler) × (run fresh garbage accepts keys c ≡ some c')
        × Pressed (printed keys) (count key_profile keys) (count key_stop keys) v' c c'
  run_ends keys c ops v v' on some_run all_run port ended handled =
      let (l', e, no_accept, no_workers, _, server_is, _) =
        stop_ends fresh garbage accepts c.server ops v v' on some_run all_run port ended handled in
      run-Pressed keys c v'
        (l', e, record { no_accept = no_accept; no_workers = no_workers; server_is = server_is })
