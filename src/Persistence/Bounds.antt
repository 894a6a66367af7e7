-- ===== src/Persistence/Bounds.antt =====
-- The bounds of the channel and of the batch of pkg/graph/persistent.go.
use astrolabe_server.Common.{
  ◌<◌, ◌≤◌, length, length-append, List, [], ◌∷◌, arith, Bool-cases, List-cases, inl, inr,
}
use astrolabe_server.Graph.Types.{Edge, Graph}
use astrolabe_server.Graph.Store
use astrolabe_server.Persistence.Backend.{
  Backend, WriteOp, save_node_op, delete_node_op, save_edge_op, delete_edge_op,
}
use astrolabe_server.Persistence.Writer
use astrolabe_server.Persistence.Writer.{
  PersistentGraph, capacity, batch_size, persist, receive, flush, close, persistent,
}
use astrolabe_server.Persistence.Refines.{
  Call, add_node_call, remove_node_call, add_edge_call, remove_edge_call, add_pending_edge_call,
  add_reverse_pending_edge_call, Action, call_action, receive_action, tick_action, call, act_all,
}

-- The channel holds no more than its capacity, and the batch less than its size.
abbrev pub IsBounded : {T : Type 0} → PersistentGraph T → Type 0
IsBounded s = (length s.channel ≤ capacity) × (length s.batch < batch_size)

abbrev pub changed : {T : Type 0} → (Graph → Graph) → PersistentGraph T → PersistentGraph T
changed f s = record s { graph = f s.graph }

module _ {T : Type 0} (b : Backend T) where
  persist-IsBounded :
      (op : WriteOp) (s : PersistentGraph T) → IsBounded s → IsBounded (persist b op s)
  unfolding persist
  persist-IsBounded op s h = ground (arith, length-append s.channel (op ∷ []), h.0, h.1)

  add_edge-IsBounded :
      (e : Edge) (s : PersistentGraph T) → IsBounded s → IsBounded (Writer.add_edge b e s).0
  unfolding Writer.add_edge
  add_edge-IsBounded e s h = elim (Bool-cases (Store.add_edge e s.graph).1) [
    | inl yes' ↦
        rw yes' (persist-IsBounded (save_edge_op e) (changed (λ g. (Store.add_edge e g).0) s) h)
    | inr no' ↦ rw no' h
  ]

  call-IsBounded : (c : Call) (s : PersistentGraph T) → IsBounded s → IsBounded (call b c s)
  unfolding Writer.add_node Writer.remove_node Writer.remove_edge
  call-IsBounded (add_node_call n) s h =
      persist-IsBounded (save_node_op n.fields) (changed (Store.add_node n) s) h
  call-IsBounded (remove_node_call uid) s h =
      persist-IsBounded (delete_node_op uid) (changed (Store.remove_node uid) s) h
  call-IsBounded (add_edge_call e) s h = add_edge-IsBounded e s h
  call-IsBounded (remove_edge_call from to) s h =
      persist-IsBounded (delete_edge_op from to) (changed (Store.remove_edge from to) s) h
  call-IsBounded (add_pending_edge_call from ref type) s h = h
  call-IsBounded (add_reverse_pending_edge_call to ref type) s h = h

  receive-IsBounded : (s : PersistentGraph T) → IsBounded s → IsBounded (receive b s)
  unfolding receive
  receive-IsBounded s h = elim (List-cases s.channel) [
    | inl empty ↦ ground (arith, h.0, h.1)
    | inr (op, rest, e) ↦ ground (arith, length-append s.batch (op ∷ []), h.0, h.1)
  ]

  flush-IsBounded : (s : PersistentGraph T) → IsBounded s → IsBounded (flush b s)
  unfolding flush
  flush-IsBounded s h = elim (List-cases s.batch) [
    | inl empty ↦ ground (arith, h.0, h.1)
    | inr (op, ops, e) ↦ ground (arith, h.0)
  ]

  -- If the channel holds at most 1000 writes and the batch fewer than 100, so they do after any
  -- calls and steps of the writer.
  pub act_all-IsBounded :
      (actions : List Action) (s : PersistentGraph T)
      → IsBounded s
      → IsBounded (act_all b actions s)
  act_all-IsBounded [] s h = h
  act_all-IsBounded (call_action c ∷ actions) s h =
      act_all-IsBounded actions (call b c s) (call-IsBounded c s h)
  act_all-IsBounded (receive_action ∷ actions) s h =
      act_all-IsBounded actions (receive b s) (receive-IsBounded s h)
  act_all-IsBounded (tick_action ∷ actions) s h =
      act_all-IsBounded actions (flush b s) (flush-IsBounded s h)
