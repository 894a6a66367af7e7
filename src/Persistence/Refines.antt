-- ===== src/Persistence/Refines.antt =====
-- The asynchronous writer of pkg/graph/persistent.go against writes at once.
use mathlib.Core.List.{append_assoc}
use astrolabe_server.Common.{
  length, ltb, Bool, true, false, ◌&&◌, List, [], ◌∷◌, ◌++◌, ◌≡◌, refl, arith, Bool-cases,
  List-cases, inl, inr, ap, sym, subst,
}
use astrolabe_server.Graph.Types.{Uid, Node, Edge, EdgeType, RefKey, Graph}
use astrolabe_server.Graph.Store
use astrolabe_server.Graph.Pending
use astrolabe_server.Persistence.Backend.{
  Backend, WriteOp, save_node_op, delete_node_op, save_edge_op, delete_edge_op, execute_write_op,
  execute_batch,
}
use astrolabe_server.Persistence.Writer
use astrolabe_server.Persistence.Writer.{
  PersistentGraph, capacity, batch_size, persist, receive, flush, close, new_persistent_graph,
  persistent,
}

-- A call of the persistent graph, and what may happen next: a call, or a step of the writer.
pub data Call : Type 0 where
  add_node_call : Node → Call
  remove_node_call : Uid → Call
  add_edge_call : Edge → Call
  remove_edge_call : (from to : Uid) → Call
  add_pending_edge_call : (from : Uid) (ref : RefKey) (type : EdgeType) → Call
  add_reverse_pending_edge_call : (to : Uid) (ref : RefKey) (type : EdgeType) → Call

pub data Action : Type 0 where
  call_action : Call → Action
  receive_action tick_action : Action

-- The calls among the actions, without the writer.
abbrev pub calls_of : List Action → List Call
calls_of [] = []
calls_of (call_action c ∷ actions) = c ∷ calls_of actions
calls_of (_ ∷ actions) = calls_of actions

module _ {T : Type 0} (b : Backend T) where
  abbrev pub call : Call → PersistentGraph T → PersistentGraph T
  call (add_node_call n) s = Writer.add_node b n s
  call (remove_node_call uid) s = Writer.remove_node b uid s
  call (add_edge_call e) s = (Writer.add_edge b e s).0
  call (remove_edge_call from to) s = Writer.remove_edge b from to s
  call (add_pending_edge_call from ref type) s = (persistent b).add_pending_edge from ref type s
  call (add_reverse_pending_edge_call to ref type) s =
      (persistent b).add_reverse_pending_edge to ref type s

  abbrev pub act : Action → PersistentGraph T → PersistentGraph T
  act (call_action c) = call c
  act receive_action = receive b
  act tick_action = flush b

  abbrev pub act_all : List Action → PersistentGraph T → PersistentGraph T
  act_all [] s = s
  act_all (a ∷ actions) s = act_all actions (act a s)

  abbrev pub call_all : List Call → PersistentGraph T → PersistentGraph T
  call_all [] s = s
  call_all (c ∷ calls) s = call_all calls (call c s)

  -- Every call finds room in the channel.
  abbrev pub has_room : List Action → PersistentGraph T → Bool
  has_room [] s = true
  has_room (call_action c ∷ actions) s =
      ltb (length s.channel) capacity && has_room actions (call c s)
  has_room (receive_action ∷ actions) s = has_room actions (receive b s)
  has_room (tick_action ∷ actions) s = has_room actions (flush b s)

  pub execute_batch-append :
      (ops ops' : List WriteOp) (t : T)
      → execute_batch b (ops ++ ops') t ≡ execute_batch b ops' (execute_batch b ops t)
  unfolding execute_batch
  execute_batch-append [] ops' t = refl
  execute_batch-append (op ∷ ops) ops' t = execute_batch-append ops ops' (execute_write_op b op t)

  -- An asynchronous graph and one that writes at once: the same graph, and the backend of the first
  -- is behind by what waits.
  record Behind (s d : PersistentGraph T) : Type 0 where
    on : s.enabled ≡ true
    on_too : d.enabled ≡ true
    waits : s.async_writes ≡ true
    writes : d.async_writes ≡ false
    same_graph : s.graph ≡ d.graph
    owed : execute_batch b (s.batch ++ s.channel) s.stored ≡ d.stored

  persist-Behind :
      (op : WriteOp) (s d : PersistentGraph T)
      → ltb (length s.channel) capacity ≡ true
      → Behind s d
      → Behind (persist b op s) (persist b op d)
  unfolding persist execute_batch
  persist-Behind op s d room h = record {
    on = ground (arith, h.on);
    on_too = ground (arith, h.on_too, h.writes);
    waits = ground (arith, h.on, h.waits);
    writes = ground (arith, h.on_too, h.writes);
    same_graph = ground (arith, h.on, h.on_too, h.waits, h.writes, h.same_graph);
    owed = ground (
      arith,
      h.on,
      h.on_too,
      h.waits,
      h.writes,
      h.owed,
      execute_batch-append (s.batch ++ s.channel) (op ∷ []) s.stored,
      append_assoc s.batch s.channel (op ∷ []),
    );
  }

  -- Both graphs change alike.
  changed-Behind :
      (g : Graph) (s d : PersistentGraph T)
      → Behind s d
      → Behind (record s { graph = g }) (record d { graph = g })
  changed-Behind g s d h = record {
    on = h.on;
    on_too = h.on_too;
    waits = h.waits;
    writes = h.writes;
    same_graph = refl;
    owed = h.owed;
  }

  changed_by-Behind :
      (f : Graph → Graph) (s d : PersistentGraph T)
      → Behind s d
      → Behind (record s { graph = f s.graph }) (record d { graph = f d.graph })
  changed_by-Behind f s d h =
      subst (λ (g : Graph). Behind (record s { graph = f s.graph }) (record d { graph = f g }))
        h.same_graph (changed-Behind (f s.graph) s d h)

  add_edge-Behind :
      (e : Edge) (s d : PersistentGraph T)
      → ltb (length s.channel) capacity ≡ true
      → Behind s d
      → Behind (Writer.add_edge b e s).0 (Writer.add_edge b e d).0
  unfolding Writer.add_edge
  add_edge-Behind e s d room h =
      let graphs = changed_by-Behind (λ g. (Store.add_edge e g).0) s d h in
      let success : (Store.add_edge e d.graph).1 ≡ (Store.add_edge e s.graph).1 =
        ap (λ g. (Store.add_edge e g).1) (sym h.same_graph) in
      elim (Bool-cases (Store.add_edge e s.graph).1) [
        | inl yes' ↦ rw (success, yes') (persist-Behind (save_edge_op e) _ _ room graphs)
        | inr no' ↦ rw (success, no') graphs
      ]

  call-Behind :
      (c : Call) (s d : PersistentGraph T)
      → ltb (length s.channel) capacity ≡ true
      → Behind s d
      → Behind (call c s) (call c d)
  unfolding Writer.add_node Writer.remove_node Writer.remove_edge
  call-Behind (add_node_call n) s d room h =
      persist-Behind (save_node_op n.fields) _ _ room (changed_by-Behind (Store.add_node n) s d h)
  call-Behind (remove_node_call uid) s d room h =
      persist-Behind (delete_node_op uid) _ _ room (changed_by-Behind (Store.remove_node uid) s d h)
  call-Behind (add_edge_call e) s d room h = add_edge-Behind e s d room h
  call-Behind (remove_edge_call from to) s d room h =
      persist-Behind (delete_edge_op from to) _ _ room
        (changed_by-Behind (Store.remove_edge from to) s d h)
  call-Behind (add_pending_edge_call from ref type) s d room h =
      changed_by-Behind (Pending.add_pending_edge from ref type) s d h
  call-Behind (add_reverse_pending_edge_call to ref type) s d room h =
      changed_by-Behind (Pending.add_reverse_pending_edge to ref type) s d h

  flush-Behind : (s d : PersistentGraph T) → Behind s d → Behind (flush b s) d
  unfolding flush
  flush-Behind s d h = elim (List-cases s.batch) [
    | inl empty ↦ simp (empty, flush) h
    | inr (op, ops, e) ↦ record {
      on = ground (arith, h.on);
      on_too = h.on_too;
      waits = ground (arith, h.waits);
      writes = h.writes;
      same_graph = ground (arith, h.same_graph);
      owed = ground (arith, h.owed, execute_batch-append s.batch s.channel s.stored);
    }
  ]

  receive-Behind : (s d : PersistentGraph T) → Behind s d → Behind (receive b s) d
  unfolding receive
  receive-Behind s d h = elim (List-cases s.channel) [
    | inl empty ↦ simp (empty, receive) h
    | inr (op, rest, e) ↦ record {
      on = ground (arith, h.on);
      on_too = h.on_too;
      waits = ground (arith, h.waits);
      writes = h.writes;
      same_graph = ground (arith, h.same_graph);
      owed = ground (
        arith,
        h.owed,
        append_assoc s.batch (op ∷ []) rest,
        execute_batch-append (s.batch ++ (op ∷ [])) rest s.stored,
      );
    }
  ]

  act_all-Behind :
      (actions : List Action) (s d : PersistentGraph T)
      → has_room actions s ≡ true
      → Behind s d
      → Behind (act_all actions s) (call_all (calls_of actions) d)
  act_all-Behind [] s d room h = h
  act_all-Behind (call_action c ∷ actions) s d room h =
      act_all-Behind actions (call c s) (call c d) (ground arith)
        (call-Behind c s d (ground arith) h)
  act_all-Behind (receive_action ∷ actions) s d room h =
      act_all-Behind actions (receive b s) d room (receive-Behind s d h)
  act_all-Behind (tick_action ∷ actions) s d room h =
      act_all-Behind actions (flush b s) d room (flush-Behind s d h)

  close-Behind : (s d : PersistentGraph T) → Behind s d → (close b s).stored ≡ d.stored
  unfolding close flush execute_batch
  close-Behind s d h = elim (List-cases s.batch) [
    | inl empty ↦ ground (arith, h.on, h.waits, h.owed)
    | inr (op, ops, e) ↦
        ground (arith, h.on, h.waits, h.owed, execute_batch-append s.batch s.channel s.stored)
  ]

  -- Start an empty asynchronous persistent graph over any backend, and let calls, receipts of the
  -- writer and periodic flushes follow in any order, each call with room in the channel. After
  -- `Close` the backend holds what it holds if the same calls write at once, and the graph is the
  -- same.
  pub close_refines :
      (actions : List Action) (t : T)
      → has_room actions (new_persistent_graph true true t) ≡ true
      → ((close b (act_all actions (new_persistent_graph true true t))).stored
          ≡ (call_all (calls_of actions) (new_persistent_graph true false t)).stored)
        × ((act_all actions (new_persistent_graph true true t)).graph
            ≡ (call_all (calls_of actions) (new_persistent_graph true false t)).graph)
  unfolding execute_batch
  close_refines actions t room =
      let begun : Behind (new_persistent_graph true true t) (new_persistent_graph true false t) =
        record {
          on = refl;
          on_too = refl;
          waits = refl;
          writes = refl;
          same_graph = refl;
          owed = refl;
        } in
      let h = act_all-Behind actions _ _ room begun in (close-Behind _ _ h, h.same_graph)
