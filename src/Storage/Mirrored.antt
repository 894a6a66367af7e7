-- ===== src/Storage/Mirrored.antt =====
-- The persistent graph of pkg/graph/persistent.go over the Redis store of pkg/storage/redis.go: the
-- nodes in memory and the nodes in Redis.
use astrolabe_server.Common.{
  ℕ, String, string_key, true, false, none, List, [], ◌∷◌, ◌≡◌, inl, inr, refl, arith, Bool-cases,
  ap, sym, ◌∙◌,
}
use astrolabe_server.Common.Dict.{get}
use astrolabe_server.Graph.Types.{Uid, Edge}
use astrolabe_server.Graph.Store
use astrolabe_server.Graph.Pending
use astrolabe_server.Graph.Lookup.{All}
use astrolabe_server.Graph.Views.{fields_of}
use astrolabe_server.Graph.Additions.{IsFresh, fields_of-add_node}
use astrolabe_server.Graph.Edges.{fields_of-add_edge, fields_of-remove_node, fields_of-remove_edge}
use astrolabe_server.Persistence.Backend.{
  Backend, WriteOp, save_node_op, delete_node_op, save_edge_op, delete_edge_op, execute_write_op,
}
use astrolabe_server.Persistence.Writer
use astrolabe_server.Persistence.Writer.{PersistentGraph, new_persistent_graph, persist, close}
use astrolabe_server.Persistence.Refines.{
  Call, add_node_call, remove_node_call, add_edge_call, remove_edge_call, add_pending_edge_call,
  add_reverse_pending_edge_call, call, call_all, act_all, Action, calls_of, has_room, close_refines,
}
use astrolabe_server.Storage.Client.{Client, Codec, IsRedis, IsCodec, IsDeleting, value, is_literal}
use astrolabe_server.Storage.Layout.{node_key}
use astrolabe_server.Storage.Redis.{redis_store}
use astrolabe_server.Storage.Keys.{has_colon}
use astrolabe_server.Storage.Saving.{node_at, node_at-save_node, node_at-save_edge}
use astrolabe_server.Storage.Stored.{
  IsStored, save_node-IsStored, save_edge-IsStored, empty-IsStored,
}
use astrolabe_server.Storage.Removing.{
  node_at-delete_edge, node_at-delete_node, delete_edge-IsStored, delete_node-IsStored,
}

-- New nodes without edges, and UIDs as Kubernetes gives them, in the calls that build a key or a
-- pattern of two parts.
abbrev pub IsProperCall : Call → Type 0
IsProperCall (add_node_call n) = IsFresh n
IsProperCall (remove_node_call uid) = is_literal uid ≡ true
IsProperCall (add_edge_call e) = (has_colon e.from_uid ≡ false) × (has_colon e.to_uid ≡ false)
IsProperCall (remove_edge_call from to) = Unit
IsProperCall (add_pending_edge_call from ref type) = Unit
IsProperCall (add_reverse_pending_edge_call to ref type) = Unit

module _ {R D : Type 0} (client : Client R D) (codec : Codec D) (rounds : R → ℕ)
    (redis : IsRedis rounds client) (deletes : IsDeleting rounds client)
    (json : IsCodec codec) where
  abbrev store : Backend R
  store = redis_store client codec rounds

  -- A graph that writes at once, with its nodes in the store and each value under its own key.
  record IsMirrored (s : PersistentGraph R) : Type 0 where
    enabled : s.enabled ≡ true
    at_once : s.async_writes ≡ false
    nodes : (u : Uid) → node_at client codec rounds u s.stored ≡ fields_of u s.graph.nodes
    stored : IsStored client codec rounds s.stored

  persisted :
      (op : WriteOp) (s : PersistentGraph R)
      → s.enabled ≡ true
      → s.async_writes ≡ false
      → persist store op s ≡ record s { stored = execute_write_op store op s.stored }
  unfolding persist
  persisted op s on off = rw (on, off) refl

  pub add_edge_hit :
      (e : Edge) (s : PersistentGraph R)
      → (Store.add_edge e s.graph).1 ≡ true
      → (Writer.add_edge store e s).0
        ≡ persist store (save_edge_op e) (record s { graph = (Store.add_edge e s.graph).0 })
  unfolding Writer.add_edge
  add_edge_hit e s hit = ground (arith)

  pub add_edge_miss :
      (e : Edge) (s : PersistentGraph R)
      → (Store.add_edge e s.graph).1 ≡ false
      → (Writer.add_edge store e s).0 ≡ record s { graph = (Store.add_edge e s.graph).0 }
  unfolding Writer.add_edge
  add_edge_miss e s miss = ground (arith)

  call-IsMirrored :
      (c : Call) (s : PersistentGraph R)
      → IsProperCall c
      → IsMirrored s
      → IsMirrored (call store c s)
  unfolding Writer.add_node Writer.remove_node Writer.remove_edge execute_write_op
      Pending.add_pending_edge Pending.add_reverse_pending_edge
  call-IsMirrored (add_node_call n) s p h =
      rw
        (persisted (save_node_op n.fields) (record s { graph = Store.add_node n s.graph }) h.enabled
          h.at_once)
        (record {
          enabled = h.enabled;
          at_once = h.at_once;
          nodes = λ u. ground (
            arith,
            node_at-save_node client codec rounds redis json n.fields s.stored u,
            fields_of-add_node n s.graph u,
            h.nodes u,
          );
          stored = save_node-IsStored client codec rounds redis json n.fields s.stored h.stored;
        })
  call-IsMirrored (remove_node_call uid) s p h =
      rw
        (persisted (delete_node_op uid) (record s { graph = Store.remove_node uid s.graph })
          h.enabled h.at_once)
        (record {
          enabled = h.enabled;
          at_once = h.at_once;
          nodes = λ u. ground (
            arith,
            node_at-delete_node client codec rounds deletes uid p s.stored u,
            fields_of-remove_node uid s.graph u,
            h.nodes u,
          );
          stored = delete_node-IsStored client codec rounds deletes uid s.stored h.stored;
        })
  call-IsMirrored (add_edge_call e) s p h =
      let added = record s { graph = (Store.add_edge e s.graph).0 } in
      elim (Bool-cases (Store.add_edge e s.graph).1) [
        | inl hit ↦
            rw (add_edge_hit e s hit, persisted (save_edge_op e) added h.enabled h.at_once)
              (record {
                enabled = h.enabled;
                at_once = h.at_once;
                nodes = λ u.
                    node_at-save_edge client codec rounds redis json e s.stored u
                    ∙ h.nodes u
                    ∙ sym (fields_of-add_edge e s.graph u);
                stored =
                    save_edge-IsStored client codec rounds redis json e s.stored p.0 p.1 h.stored;
              })
        | inr miss ↦ rw (add_edge_miss e s miss) (record {
          enabled = h.enabled;
          at_once = h.at_once;
          nodes = λ u. h.nodes u ∙ sym (fields_of-add_edge e s.graph u);
          stored = h.stored;
        })
      ]
  call-IsMirrored (remove_edge_call from to) s p h =
      rw
        (persisted (delete_edge_op from to) (record s { graph = Store.remove_edge from to s.graph })
          h.enabled h.at_once)
        (record {
          enabled = h.enabled;
          at_once = h.at_once;
          nodes = λ u.
              node_at-delete_edge client codec rounds deletes from to s.stored u
              ∙ h.nodes u
              ∙ sym (fields_of-remove_edge from to s.graph u);
          stored = delete_edge-IsStored client codec rounds deletes from to s.stored h.stored;
        })
  call-IsMirrored (add_pending_edge_call from ref type) s p h = record {
    enabled = h.enabled;
    at_once = h.at_once;
    nodes = h.nodes;
    stored = h.stored;
  }
  call-IsMirrored (add_reverse_pending_edge_call to ref type) s p h = record {
    enabled = h.enabled;
    at_once = h.at_once;
    nodes = h.nodes;
    stored = h.stored;
  }

  call_all-IsMirrored :
      (calls : List Call) (s : PersistentGraph R)
      → All IsProperCall calls
      → IsMirrored s
      → IsMirrored (call_all store calls s)
  call_all-IsMirrored [] s p h = h
  call_all-IsMirrored (c ∷ calls) s p h =
      call_all-IsMirrored calls (call store c s) p.1 (call-IsMirrored c s p.0 h)

  module _ (r : R) (empty : (k : String) → value client k r ≡ none) where
    new-IsMirrored : IsMirrored (new_persistent_graph true false r)
    unfolding get
    new-IsMirrored = record {
      enabled = refl;
      at_once = refl;
      nodes = λ u. ground (arith, empty (node_key u));
      stored = empty-IsStored client codec rounds redis json r empty;
    }

    -- After `Close` the nodes of the store are those of the graph.
    pub node_at-close :
        (actions : List Action) (u : Uid)
        → All IsProperCall (calls_of actions)
        → has_room store actions (new_persistent_graph true true r) ≡ true
        → node_at client codec rounds u
            (close store (act_all store actions (new_persistent_graph true true r))).stored
          ≡ fields_of u (act_all store actions (new_persistent_graph true true r)).graph.nodes
    node_at-close actions u proper room =
        let (same_stored, same_graph) = close_refines store actions r room in
        let m =
          call_all-IsMirrored (calls_of actions) (new_persistent_graph true false r) proper
            new-IsMirrored in
        ap (node_at client codec rounds u) same_stored
        ∙ m.nodes u
        ∙ ap (λ g. fields_of u g.nodes) (sym same_graph)
