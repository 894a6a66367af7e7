-- ===== src/Tests/Persistence.antt =====
-- The persistent graph of pkg/graph/persistent.go over a log, and its theorems there.
use astrolabe_server.Common.{string_key, none, List, [], ◌∷◌, ◌≡◌, refl, true, false, inr, arith}
use astrolabe_server.Graph.Types.{ref_key}
use astrolabe_server.Graph.Store.{new_graph}
use astrolabe_server.Graph.Steps.{IsConsistent, new_graph-IsConsistent}
use astrolabe_server.Processors.Objects.{event_add}
use astrolabe_server.Processors.Registry.{process}
use astrolabe_server.Persistence.Backend.{
  Backend, WriteOp, save_node_op, delete_node_op, save_edge_op, delete_edge_op,
}
use astrolabe_server.Persistence.Writer
use astrolabe_server.Persistence.Writer.{
  PersistentGraph, new_persistent_graph, close, persist, receive, flush, persistent,
}
use astrolabe_server.Persistence.Refines.{
  Action, call_action, add_node_call, receive_action, tick_action, act_all, call_all, calls_of,
  close_refines,
}
use astrolabe_server.Persistence.Bounds.{IsBounded, act_all-IsBounded}
use astrolabe_server.Persistence.Events.{process-IsConsistent}
use astrolabe_server.Tests.{pod_object, web_node, settings_node, program}

-- A backend that keeps a log of what it is told.
abbrev log : Backend (List WriteOp)
log = record {
  save_node = λ n t. (save_node_op n ∷ t, none);
  delete_node = λ uid t. (delete_node_op uid ∷ t, none);
  save_edge = λ e t. (save_edge_op e ∷ t, none);
  delete_edge = λ from to t. (delete_edge_op from to ∷ t, none);
  load_graph = λ t. inr new_graph;
  save_graph = λ g t. (t, none);
}

abbrev actions : List Action
actions =
    call_action (add_node_call web_node)
    ∷ receive_action
    ∷ call_action (add_node_call settings_node)
    ∷ tick_action
    ∷ []

close_refines_example :
    ((close log (act_all log actions (new_persistent_graph true true []))).stored
      ≡ (call_all log (calls_of actions) (new_persistent_graph true false [])).stored)
    × ((act_all log actions (new_persistent_graph true true [])).graph
        ≡ (call_all log (calls_of actions) (new_persistent_graph true false [])).graph)
unfolding program Writer.add_node receive flush
close_refines_example = close_refines log actions [] refl

act_all-IsBounded_example : IsBounded (act_all log actions (new_persistent_graph true true []))
act_all-IsBounded_example =
    act_all-IsBounded log actions (new_persistent_graph true true []) (omega arith, omega arith)

process-IsConsistent_example :
    IsConsistent
      (process
        (persistent log)
        pod_object
        "Pod"
        event_add
        (new_persistent_graph true true [])).0.graph
process-IsConsistent_example =
    process-IsConsistent log pod_object "Pod" event_add (new_persistent_graph true true [])
      new_graph-IsConsistent
