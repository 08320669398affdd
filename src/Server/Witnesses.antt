-- ===== src/Server/Witnesses.antt =====
-- A start of src/main.cpp at which the theorem is applied.
use tinychat_server.Base.{◌⊎◌, ◌<◌, length, ℕ, ◌≡◌, refl, true, false, some, [], ◌∷◌}
use tinychat_server.Base.Int.{pos}
use tinychat_server.Text.{codes}
use tinychat_server.Config.Witnesses.{file, loaded}
use tinychat_server.Listener.{create}
use tinychat_server.Server.{all_return, init_log, Host, main, serves}
use tinychat_server.Server.Threads.{
  Run, next, here, Step, signal, run, on_signal, in_run, left, run_ends, returned, terminated,
}
use tinychat_server.Server.Startup.{configured, main_lem}

-- The port is taken: `bind` fails.
abbrev host : Host
host = record {
  indeterminate = 77;
  exists = λ name. true;
  read_ini = λ name. some (file (pos 8));
  log_returns = λ call. true;
  has_driver = true;
  connects = λ n. true;
  now = 1000;
  later = 1001 ∷ [];
  is_address = λ name. true;
  acceptor = record { open_ok = true; set_option_ok = true; bind_ok = false; listen_ok = true };
}

main_lem_example :
    main {Task = ℕ} host (codes "config.ini" ∷ [])
    ≡ serves (create host.acceptor loaded.server_.doc_root_) (configured host loaded)
unfolding all_return init_log
main_lem_example =
    (main_lem {Task = ℕ} host (codes "config.ini") []
        (create host.acceptor loaded.server_.doc_root_) (configured host loaded)).1
      (
        loaded,
        record {
          t = file (pos 8);
          exists = refl;
          parsed = refl;
          database = record {
            sqlconnpool_max_size_given = (refl, refl);
            server_given = (refl, refl);
            user_given = (refl, refl);
            passwd_given = (refl, refl);
            db_given = (refl, refl);
          };
          server = record {
            host_given = (refl, refl);
            port_given = (refl, refl);
            doc_root_given = (refl, refl);
            io_threads_given = (refl, refl);
            worker_threads_given = (refl, refl);
            jwt_secret_given = (refl, refl);
            log_file_given = (refl, refl);
            queue_limit_given = (refl, refl);
            custom_epoch_given = (refl, refl);
            service_id_given = (refl, refl);
          };
          logs = refl;
          driver = refl;
          connected = λ n b. refl;
          address = refl;
        },
        refl,
        refl,
      )

-- A server with two threads that a signal has stopped.
abbrev halted : Run
halted = on_signal (run 2)

run_ends_example :
    (halted.stopped ≡ false → (in_run halted.threads ≡ 2) × (length halted.threads ≡ 2))
    × (halted.phase ≡ returned → (halted.stopped ≡ true) × (halted.threads ≡ []))
    × (halted.stopped ≡ true
        → ((halted.phase ≡ returned) ⊎ (halted.phase ≡ terminated) ⊎ ((r' : Run) × Step halted r'))
          × ((r' : Run) → Step halted r' → left r' < left halted))
unfolding run
run_ends_example = run_ends {io_threads = 2} (next here (signal refl refl))
