-- ===== src/Storage/Queued.antt =====
-- The writes that wait in the persistent graph of pkg/graph/persistent.go, over the Redis store of
-- pkg/storage/redis.go.
use mathlib.Core.List.{append_assoc}
use astrolabe_server.Common.{
  ℕ, length, ltb, leb, string_key, true, false, List, [], ◌∷◌, ◌++◌, ◌≡◌, inl, inr, arith,
  Bool-cases, List-cases, ap, sym, ◌∙◌, subst,
}
use astrolabe_server.Graph.Types.{Graph}
use astrolabe_server.Graph.Store
use astrolabe_server.Graph.Store.{new_graph}
use astrolabe_server.Graph.Lookup.{All}
use astrolabe_server.Graph.Steps.{
  Reach, next, add_node_step, remove_node_step, add_edge_step, remove_edge_step, add_pending_step,
  add_reverse_step,
}
use astrolabe_server.Persistence.Backend.{
  Backend, WriteOp, save_node_op, delete_node_op, save_edge_op, delete_edge_op,
}
use astrolabe_server.Persistence.Writer
use astrolabe_server.Persistence.Writer.{
  PersistentGraph, new_persistent_graph, persist, close, snapshot, receive, flush, capacity,
  batch_size,
}
use astrolabe_server.Persistence.Refines.{
  Call, add_node_call, remove_node_call, add_edge_call, remove_edge_call, add_pending_edge_call,
  add_reverse_pending_edge_call, call, act_all, Action, call_action, receive_action, tick_action,
  calls_of,
}
use astrolabe_server.Graph.Pending
use astrolabe_server.Api.Ends.{All-append}
use astrolabe_server.Storage.Rewriting.{IsProperOp, execute_batch-IsStored}
use astrolabe_server.Storage.Mirrored.{IsProperCall, add_edge_hit, add_edge_miss}
use astrolabe_server.Storage.Client.{Client, Codec, IsRedis, IsCodec, IsDeleting}
use astrolabe_server.Storage.Redis.{redis_store}
use astrolabe_server.Storage.Stored.{IsStored}

module _ {R D : Type 0} (client : Client R D) (codec : Codec D) (rounds : R → ℕ)
    (redis : IsRedis rounds client) (deletes : IsDeleting rounds client)
    (json : IsCodec codec) where
  abbrev store : Backend R
  store = redis_store client codec rounds

  -- An asynchronous graph whose waiting writes are proper.
  pub record IsQueued (s : PersistentGraph R) : Type 0 where
    pub enabled : s.enabled ≡ true
    pub waits : s.async_writes ≡ true
    pub proper : All IsProperOp (s.batch ++ s.channel)
    pub stored : IsStored client codec rounds s.stored
    pub reach : Reach new_graph s.graph

  persist_room :
      (op : WriteOp) (s : PersistentGraph R)
      → s.enabled ≡ true
      → s.async_writes ≡ true
      → ltb (length s.channel) capacity ≡ true
      → persist store op s ≡ record s { channel = s.channel ++ (op ∷ []) }
  unfolding persist
  persist_room op s on waits room = ground (arith)

  persist_full :
      (op : WriteOp) (s : PersistentGraph R)
      → s.enabled ≡ true
      → s.async_writes ≡ true
      → ltb (length s.channel) capacity ≡ false
      → persist store op s ≡ s
  unfolding persist
  persist_full op s on waits full = ground (arith)

  persist-IsQueued :
      (op : WriteOp) (s : PersistentGraph R)
      → IsProperOp op
      → IsQueued s
      → IsQueued (persist store op s)
  persist-IsQueued op s p h = elim (Bool-cases (ltb (length s.channel) capacity)) [
    | inl room ↦ rw (persist_room op s h.enabled h.waits room) (record {
      enabled = h.enabled;
      waits = h.waits;
      proper =
          subst (All IsProperOp) (append_assoc s.batch s.channel (op ∷ []))
            (All-append IsProperOp (s.batch ++ s.channel) (op ∷ []) h.proper (p, tt));
      stored = h.stored;
      reach = h.reach;
    })
    | inr full ↦ rw (persist_full op s h.enabled h.waits full) h
  ]

  moved-IsQueued :
      (s : PersistentGraph R) (g : Graph)
      → Reach new_graph g
      → IsQueued s
      → IsQueued (record s { graph = g })
  moved-IsQueued s g r h = record {
    enabled = h.enabled;
    waits = h.waits;
    proper = h.proper;
    stored = h.stored;
    reach = r;
  }

  call-IsQueued :
      (c : Call) (s : PersistentGraph R) → IsProperCall c → IsQueued s → IsQueued (call store c s)
  unfolding Writer.add_node Writer.remove_node Writer.remove_edge
  call-IsQueued (add_node_call n) s p h =
      let g = Store.add_node n s.graph in
      persist-IsQueued (save_node_op n.fields) (record s { graph = g }) tt
        (moved-IsQueued s g (next h.reach (add_node_step n p)) h)
  call-IsQueued (remove_node_call u) s p h =
      let g = Store.remove_node u s.graph in
      persist-IsQueued (delete_node_op u) (record s { graph = g }) p
        (moved-IsQueued s g (next h.reach (remove_node_step u)) h)
  call-IsQueued (add_edge_call e) s p h =
      let g = (Store.add_edge e s.graph).0 in
      let moved = moved-IsQueued s g (next h.reach (add_edge_step e)) h in
      elim (Bool-cases (Store.add_edge e s.graph).1) [
        | inl hit ↦
            rw (add_edge_hit client codec rounds redis deletes json e s hit)
              (persist-IsQueued (save_edge_op e) (record s { graph = g }) p moved)
        | inr miss ↦ rw (add_edge_miss client codec rounds redis deletes json e s miss) moved
      ]
  call-IsQueued (remove_edge_call a b) s p h =
      let g = Store.remove_edge a b s.graph in
      persist-IsQueued (delete_edge_op a b) (record s { graph = g }) tt
        (moved-IsQueued s g (next h.reach (remove_edge_step a b)) h)
  call-IsQueued (add_pending_edge_call from ref type) s p h =
      moved-IsQueued s (Pending.add_pending_edge from ref type s.graph)
        (next h.reach (add_pending_step from ref type)) h
  call-IsQueued (add_reverse_pending_edge_call to ref type) s p h =
      moved-IsQueued s (Pending.add_reverse_pending_edge to ref type s.graph)
        (next h.reach (add_reverse_step to ref type)) h

  All-left : (xs ys : List WriteOp) → All IsProperOp (xs ++ ys) → All IsProperOp xs
  All-left [] ys h = tt
  All-left (x ∷ xs) ys h = (h.0, All-left xs ys h.1)

  All-right : (xs ys : List WriteOp) → All IsProperOp (xs ++ ys) → All IsProperOp ys
  All-right [] ys h = h
  All-right (x ∷ xs) ys h = All-right xs ys h.1

  receive-IsQueued : (s : PersistentGraph R) → IsQueued s → IsQueued (receive store s)
  unfolding receive
  receive-IsQueued s h = elim (List-cases s.channel) [
    | inl p ↦ rw (p, receive) h
    | inr (op, rest, p) ↦
        let batch = s.batch ++ (op ∷ []) in
        let moved : All IsProperOp (batch ++ rest) =
          subst (All IsProperOp)
            (ap (λ c. s.batch ++ c) p ∙ sym (append_assoc s.batch (op ∷ []) rest)) h.proper in
        elim (Bool-cases (leb batch_size (length batch))) [
          | inl full ↦
              rw (p, receive, full)
                (record {
                  enabled = h.enabled;
                  waits = h.waits;
                  proper = All-right batch rest moved;
                  stored =
                      execute_batch-IsStored client codec rounds redis deletes json batch s.stored
                        (All-left batch rest moved) h.stored;
                  reach = h.reach;
                })
          | inr room ↦
              rw (p, receive, room)
                (record {
                  enabled = h.enabled;
                  waits = h.waits;
                  proper = moved;
                  stored = h.stored;
                  reach = h.reach;
                })
        ]
  ]

  flush-IsQueued : (s : PersistentGraph R) → IsQueued s → IsQueued (flush store s)
  unfolding flush
  flush-IsQueued s h = elim (List-cases s.batch) [
    | inl p ↦ rw (p, flush) h
    | inr (op, ops, p) ↦
        let split = subst (λ b. All IsProperOp (b ++ s.channel)) p h.proper in
        rw (p, flush)
          (record {
            enabled = h.enabled;
            waits = h.waits;
            proper = All-right (op ∷ ops) s.channel split;
            stored =
                execute_batch-IsStored client codec rounds redis deletes json (op ∷ ops) s.stored
                  (All-left (op ∷ ops) s.channel split) h.stored;
            reach = h.reach;
          })
  ]

  pub act_all-IsQueued :
      (actions : List Action) (s : PersistentGraph R)
      → All IsProperCall (calls_of actions)
      → IsQueued s
      → IsQueued (act_all store actions s)
  act_all-IsQueued [] s p h = h
  act_all-IsQueued (call_action c ∷ actions) s p h =
      act_all-IsQueued actions (call store c s) p.1 (call-IsQueued c s p.0 h)
  act_all-IsQueued (receive_action ∷ actions) s p h =
      act_all-IsQueued actions (receive store s) p (receive-IsQueued s h)
  act_all-IsQueued (tick_action ∷ actions) s p h =
      act_all-IsQueued actions (flush store s) p (flush-IsQueued s h)
