-- ===== src/Storage/Rewriting.antt =====
-- Writes to the Redis store of pkg/storage/redis.go that are executed again over their own result.
use astrolabe_server.Common.{
  ℕ, str_dec, string_key, true, false, Option, none, some, List, [], ◌∷◌, ◌≡◌, ◌⊎◌, inl, inr, arith,
  sym, ◌∙◌,
}
use astrolabe_server.Graph.Types.{Uid, NodeData}
use astrolabe_server.Graph.Lookup.{All}
use astrolabe_server.Persistence.Backend.{
  Backend, WriteOp, save_node_op, delete_node_op, save_edge_op, delete_edge_op, execute_write_op,
  execute_batch,
}
use astrolabe_server.Storage.Client.{Client, Codec, IsRedis, IsCodec, IsDeleting, is_literal}
use astrolabe_server.Storage.Redis.{redis_store}
use astrolabe_server.Storage.Keys.{has_colon}
use astrolabe_server.Storage.Saving.{node_at, node_at-save_node, node_at-save_edge}
use astrolabe_server.Storage.Stored.{IsStored, save_node-IsStored, save_edge-IsStored}
use astrolabe_server.Storage.Removing.{
  node_at-delete_edge, node_at-delete_node, delete_edge-IsStored, delete_node-IsStored,
}

abbrev pub IsProperOp : WriteOp → Type 0
IsProperOp (save_node_op n) = Unit
IsProperOp (delete_node_op uid) = is_literal uid ≡ true
IsProperOp (save_edge_op e) = (has_colon e.from_uid ≡ false) × (has_colon e.to_uid ≡ false)
IsProperOp (delete_edge_op from to) = Unit

module _ {R D : Type 0} (client : Client R D) (codec : Codec D) (rounds : R → ℕ)
    (redis : IsRedis rounds client) (deletes : IsDeleting rounds client)
    (json : IsCodec codec) where
  abbrev store : Backend R
  store = redis_store client codec rounds

  execute_write_op-IsStored :
      (op : WriteOp) (r : R)
      → IsProperOp op
      → IsStored client codec rounds r
      → IsStored client codec rounds (execute_write_op store op r)
  unfolding execute_write_op
  execute_write_op-IsStored (save_node_op n) r p =
      save_node-IsStored client codec rounds redis json n r
  execute_write_op-IsStored (delete_node_op uid) r p =
      delete_node-IsStored client codec rounds deletes uid r
  execute_write_op-IsStored (save_edge_op e) r p =
      save_edge-IsStored client codec rounds redis json e r p.0 p.1
  execute_write_op-IsStored (delete_edge_op from to) r p =
      delete_edge-IsStored client codec rounds deletes from to r

  pub execute_batch-IsStored :
      (ops : List WriteOp) (r : R)
      → All IsProperOp ops
      → IsStored client codec rounds r
      → IsStored client codec rounds (execute_batch store ops r)
  unfolding execute_batch
  execute_batch-IsStored [] r p h = h
  execute_batch-IsStored (op ∷ ops) r p h =
      execute_batch-IsStored ops (execute_write_op store op r) p.1
        (execute_write_op-IsStored op r p.0 h)

  -- A write leaves a node as it is, or sets it whatever it was.
  module _ (u : Uid) where
    abbrev Sets : WriteOp → Type 0
    Sets op =
        ((r : R)
          → node_at client codec rounds u (execute_write_op store op r)
            ≡ node_at client codec rounds u r)
        ⊎ ((x : Option NodeData) × ((r : R)
              → node_at client codec rounds u (execute_write_op store op r) ≡ x))

    sets : (op : WriteOp) → IsProperOp op → Sets op
    unfolding execute_write_op
    sets (save_node_op n) p = elim (str_dec n.uid u) [
      | yes q ↦
          inr (some n, λ r. ground (arith, node_at-save_node client codec rounds redis json n r u))
      | no q ↦ inl (λ r. ground (arith, node_at-save_node client codec rounds redis json n r u))
    ]
    sets (delete_node_op uid) p = elim (str_dec uid u) [
      | yes q ↦
          inr (none, λ r. ground (arith, node_at-delete_node client codec rounds deletes uid p r u))
      | no q ↦ inl (λ r. ground (arith, node_at-delete_node client codec rounds deletes uid p r u))
    ]
    sets (save_edge_op e) p = inl (λ r. node_at-save_edge client codec rounds redis json e r u)
    sets (delete_edge_op from to) p =
        inl (λ r. node_at-delete_edge client codec rounds deletes from to r u)

    -- Writes that are executed again over their own result change no node.
    pub execute_batch-same :
        (ops : List WriteOp) (t t' : R)
        → All IsProperOp ops
        → (node_at client codec rounds u t' ≡ node_at client codec rounds u t)
          ⊎ (node_at client codec rounds u t'
              ≡ node_at client codec rounds u (execute_batch store ops t))
        → node_at client codec rounds u (execute_batch store ops t')
          ≡ node_at client codec rounds u (execute_batch store ops t)
    unfolding execute_batch
    execute_batch-same [] t t' p (inl e) = e
    execute_batch-same [] t t' p (inr e) = e
    execute_batch-same (op ∷ ops) t t' p h =
        let one = λ (r : R). execute_write_op store op r in
        elim (sets op p.0) [
          | inr (x, set) ↦ execute_batch-same ops (one t) (one t') p.1 (inl (set t' ∙ sym (set t)))
          | inl keep ↦ elim h [
            | inl e ↦ execute_batch-same ops (one t) (one t') p.1 (inl (keep t' ∙ e ∙ sym (keep t)))
            | inr e ↦ execute_batch-same ops (one t) (one t') p.1 (inr (keep t' ∙ e))
          ]
        ]
