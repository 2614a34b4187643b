-- ===== src/Startup/Tests.antt =====
-- Examples of the main programs.
use graduation_research_prog.Base.{ℕ, ◌≡◌, refl, true, none, some, [], ◌∷◌, get_elem?, arith}
use graduation_research_prog.Outcome.{done}
use graduation_research_prog.Samples.{zeros, tx_of, batch_of}
use graduation_research_prog.Config.{
  proposed_method, conventional_method, get_port_finish_from_client,
  get_port_master_sequencer_from_client_interface,
}
use graduation_research_prog.Config.Constants.{replica_num}
use graduation_research_prog.System.{datagram_of_sent}
use graduation_research_prog.Scheduler.{Node}
use graduation_research_prog.Scheduler.Threads.{write_scheduler_startup, read_scheduler_startup}
use graduation_research_prog.Startup.{
  NodeConfig, master_config, master_finish_step, slave_finish_step, finish_loop, finish_message,
  finish_messages, start_message,
}
use graduation_research_prog.Startup.Arguments.{
  master_arguments, slave_arguments, method_text, arguments-text,
}
use graduation_research_prog.Startup.Finish.{finish_reaches, start_begins}
use graduation_research_prog.Startup.Idle.{master_schedulers_idle}
use graduation_research_prog.Startup.Spawn.{
  master_threads, spawned, spawn_receivers, spawn_clients, spawn_senders, my_port,
  recieve_tx_connection, master_threads-ports,
}

abbrev config : NodeConfig
config = master_config proposed_method [] none

-- behind a receive that failed and the start
finish_reaches_example :
    (get_elem? (finish_messages replica_num 0) 2 ≡ some (finish_message 2))
    × ((finish_message 2).port ≡ get_port_finish_from_client 2)
    × ((after : NodeConfig) × (finish_loop master_finish_step
            (none
              ∷ some (datagram_of_sent start_message)
              ∷ some (datagram_of_sent (finish_message 2))
              ∷ [])
            zeros
            config
          ≡ done after)
        × (after.system_finish_request ≡ 1))
    × ((after : NodeConfig) × (finish_loop slave_finish_step
            (none
              ∷ some (datagram_of_sent start_message)
              ∷ some (datagram_of_sent (finish_message 2))
              ∷ [])
            zeros
            config
          ≡ done after)
        × (after.system_finish_request ≡ 1))
finish_reaches_example =
    finish_reaches 2 2
      (none
        ∷ some (datagram_of_sent start_message)
        ∷ some (datagram_of_sent (finish_message 2))
        ∷ [])
      zeros config (omega arith) refl

start_begins_example :
    ((master_finish_step (some (datagram_of_sent start_message)) zeros config).1
      ≡ record config { system_finish_request = 0 })
    × ((master_finish_step (some (datagram_of_sent start_message)) zeros config).2 ≡ true)
    × ((slave_finish_step (some (datagram_of_sent start_message)) zeros config).1 ≡ config)
    × ((slave_finish_step (some (datagram_of_sent start_message)) zeros config).2 ≡ true)
start_begins_example = start_begins zeros config

abbrev node : Node
node = record { storage = record { storage_size = 6; records = 0 ∷ 0 ∷ [] }; waiting = [] }

-- a batch and a read are queued
master_schedulers_idle_example :
    let c = master_config proposed_method [] none in
    (write_scheduler_startup c.my_replica_id 0
        ((c.system_finish_request, some (batch_of 0)) ∷ [])
        node
      ≡ done (node, 0))
    × (read_scheduler_startup c.storage ((c.system_finish_request, some (tx_of 0)) ∷ []) ≡ done [])
master_schedulers_idle_example =
    master_schedulers_idle proposed_method [] none (some (batch_of 0)) (some (tx_of 0)) [] [] node

arguments-text_example :
    (master_arguments ([] ∷ method_text conventional_method ∷ []) ≡ done conventional_method)
    × (slave_arguments ([] ∷ (51 ∷ []) ∷ method_text conventional_method ∷ [])
        ≡ done (3, conventional_method))
arguments-text_example = arguments-text [] 3 conventional_method [] (omega arith)

-- the thread of client 1 of replica 1
abbrev place : ℕ
place = 1

master_threads-ports_example :
    (master_threads (λ _. 0) proposed_method ≡ done (spawned proposed_method)) × (place ≡ place)
unfolding spawned master_threads spawn_receivers spawn_clients spawn_senders my_port
    get_port_master_sequencer_from_client_interface
master_threads-ports_example =
    master_threads-ports (λ _. 0) proposed_method place place _ (recieve_tx_connection 1 1)
      (recieve_tx_connection 1 1) (λ _. refl) refl refl refl refl
