-- ===== src/Tests/AcceptRuns.antt =====
-- A server of one worker that takes a connection, handles it, and is stopped when it has accepted
-- another one, which it loses.
use ntu_computer_network.Base.{refl, [], arith, fetch, store}
use ntu_computer_network.Queue
use ntu_computer_network.Queue.{Cell, enqueue, dequeue, lock, append}
use ntu_computer_network.Pool.{
  thread_pool_create, put_item, thread_pool_push, nobody, takes, tests, returns, stop, stop_push,
  stop_pushed, joins, frees,
}
use ntu_computer_network.HttpServer.{ServerConfig, server_config_create}
use ntu_computer_network.HttpServer.Accept.{
  Server, accepts, hands_over, hands_late, refuses, works, Serves, opens, goes_on,
}
use ntu_computer_network.HttpServer.Accept.Connections.{QueueWithin}

abbrev one_worker : ServerConfig
unfolding server_config_create
one_worker = record server_config_create { worker_limit = 1 }

record Run : Type 0 where
  last : Server
  serves : Serves one_worker last
  within : QueueWithin 32 serves

abbrev accepted : Run
unfolding one_worker thread_pool_create thread_pool_push put_item enqueue append lock Queue.create
    store
accepted = record {
  last = _;
  serves =
      goes_on (goes_on (goes_on (opens 3) (refuses refl)) (accepts 9 refl refl))
        (hands_over 1 refl refl refl (nobody refl));
  within = (((tt, omega arith), omega arith), omega arith);
}

abbrev handled : Run
unfolding accepted dequeue Queue.remove fetch
handled = record {
  last = _;
  serves =
      goes_on
        (goes_on
          (goes_on (goes_on accepted.serves (works (takes 1 [] [] refl refl) refl))
            (works (tests 1 [] [] refl) refl))
          (works (returns 1 [] [] refl) refl))
        (accepts 10 refl refl);
  within = ((((accepted.within, omega arith), omega arith), omega arith), omega arith);
}

abbrev stopping_one : Run
unfolding handled thread_pool_push put_item enqueue append lock store
stopping_one = record {
  last = _;
  serves =
      goes_on
        (goes_on
          (goes_on (goes_on handled.serves (works (stop refl) refl))
            (hands_late 2 (λ e. cc) (λ e. cc) refl refl))
          (works (stop_push 0 refl refl (nobody refl)) refl))
        (works (stop_pushed refl) refl);
  within = ((((handled.within, omega arith), omega arith), omega arith), omega arith);
}

abbrev over : Run
unfolding stopping_one dequeue Queue.remove fetch
over = record {
  last = _;
  serves =
      goes_on
        (goes_on
          (goes_on (goes_on stopping_one.serves (works (takes 0 [] [] refl refl) refl))
            (works (tests 0 [] [] refl) refl))
          (works (joins 0 refl refl) refl))
        (works (frees refl) refl);
  within = ((((stopping_one.within, omega arith), omega arith), omega arith), omega arith);
}
