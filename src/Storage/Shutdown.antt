-- ===== src/Storage/Shutdown.antt =====
-- The end of the server of cmd/astrolabe/main.go with Redis: a last snapshot, and then `Close` of the
-- persistent graph, whose waiting writes follow the snapshot.
use astrolabe_server.Common.{
  ℕ, String, string_key, true, false, Option, none, some, List, ◌∷◌, ◌++◌, ◌≡◌, inl, inr, refl,
  arith, Option-cases, List-cases, ap, sym, ◌∙◌,
}
use astrolabe_server.Common.Dict.{get}
use astrolabe_server.Graph.Types.{Uid, Node, Graph}
use astrolabe_server.Graph.Lookup.{All}
use astrolabe_server.Graph.Views.{fields_of}
use astrolabe_server.Graph.Steps.{here, Reach-IsConsistent, new_graph-IsConsistent, IsConsistent}
use astrolabe_server.Graph.Once.{new_graph-IsOnce}
use astrolabe_server.Persistence.Backend.{Backend, WriteOp, execute_batch}
use astrolabe_server.Persistence.Writer.{
  PersistentGraph, new_persistent_graph, close, snapshot, flush, load_from_backend,
}
use astrolabe_server.Persistence.Refines.{execute_batch-append, act_all, Action, calls_of, has_room}
use astrolabe_server.Storage.Client.{Client, Codec, IsRedis, IsCodec, IsDeleting, value}
use astrolabe_server.Storage.Redis.{redis_store, load_graph, save_graph}
use astrolabe_server.Storage.Keys.{has_colon}
use astrolabe_server.Storage.Saving.{node_at}
use astrolabe_server.Storage.Stored.{empty-IsStored, save_graph-IsStored}
use astrolabe_server.Storage.Snapshot.{IsPlain, node_at-save_graph}
use astrolabe_server.Storage.Loaded.{load_graph_exact}
use astrolabe_server.Storage.Mirrored.{IsProperCall, node_at-close}
use astrolabe_server.Storage.Queued.{IsQueued, act_all-IsQueued}
use astrolabe_server.Storage.Rewriting.{execute_batch-same, execute_batch-IsStored}

-- The part of `main` after the API server has stopped, with persistence: errors are logged.
unfoldable pub shut_down : {T : Type 0} → Backend T → PersistentGraph T → PersistentGraph T
unfolding snapshot close
shut_down b s = close b (snapshot b s).0

-- The part of `main` that makes the persistent graph: it starts with what the backend holds, or
-- empty where that cannot be loaded.
unfoldable pub start_up : {T : Type 0} → Backend T → T → PersistentGraph T × Option String
unfolding load_from_backend
start_up b t = load_from_backend b (new_persistent_graph true true t)

start_up_loaded :
    {T : Type 0} (b : Backend T) (t : T) (h : Graph)
    → b.load_graph t ≡ inr h
    → (((start_up b t).1 ≡ none) × ((start_up b t).0.graph ≡ h))
unfolding start_up load_from_backend
start_up_loaded b t h p = ground (arith)

close_ops :
    {T : Type 0} (b : Backend T) (s : PersistentGraph T)
    → s.enabled ≡ true
    → s.async_writes ≡ true
    → (close b s).stored ≡ execute_batch b (s.batch ++ s.channel) s.stored
unfolding close flush execute_batch
close_ops b s on waits = elim (List-cases s.batch) [
  | inl p ↦ ground (arith)
  | inr (op, ops, p) ↦ ground (arith, execute_batch-append b (op ∷ ops) s.channel s.stored)
]

shut_down_ops :
    {T : Type 0} (b : Backend T) (s : PersistentGraph T)
    → s.enabled ≡ true
    → s.async_writes ≡ true
    → (shut_down b s).stored
      ≡ execute_batch b (s.batch ++ s.channel) (b.save_graph s.graph s.stored).0
unfolding shut_down snapshot
shut_down_ops b s on waits =
    let saved = record s { stored = (b.save_graph s.graph s.stored).0 } in
    let taken : (snapshot b s).0 ≡ saved = ground (arith) in
    ap (λ x. (close b x).stored) taken ∙ close_ops b saved on waits

module _ {R D : Type 0} (client : Client R D) (codec : Codec D) (rounds : R → ℕ)
    (redis : IsRedis rounds client) (deletes : IsDeleting rounds client) (json : IsCodec codec)
    (r : R) (empty : (k : String) → value client k r ≡ none) (actions : List Action)
    (proper : All IsProperCall (calls_of actions)) where
  abbrev store : Backend R
  store = redis_store client codec rounds

  abbrev begun : PersistentGraph R
  begun = new_persistent_graph true true r

  abbrev ended : PersistentGraph R
  ended = act_all store actions begun

  ended-IsQueued : IsQueued client codec rounds redis deletes json ended
  ended-IsQueued =
      act_all-IsQueued client codec rounds redis deletes json actions begun proper (record {
        enabled = refl;
        waits = refl;
        proper = tt;
        stored = empty-IsStored client codec rounds redis json r empty;
        reach = here;
      })

  module _ (room : has_room store actions begun ≡ true)
      (uids : (u : Uid) (n : Node) → get u ended.graph.nodes ≡ some n → has_colon u ≡ false) where
    abbrev ops : List WriteOp
    ops = ended.batch ++ ended.channel

    abbrev saved : R
    saved = (save_graph client codec rounds ended.graph ended.stored).0

    abbrev c : IsConsistent ended.graph
    c = Reach-IsConsistent ended-IsQueued.reach new_graph-IsConsistent

    abbrev plain : IsPlain ended.graph.nodes
    plain =
        let once = new_graph-IsOnce ended-IsQueued.reach in
        record { distinct = once.nodes; distinct_edges = once.edges; uids = uids }

    node_at-ops :
        (u : Uid)
        → node_at client codec rounds u (execute_batch store ops ended.stored)
          ≡ fields_of u ended.graph.nodes
    node_at-ops u =
        ap (node_at client codec rounds u)
          (sym (close_ops store ended ended-IsQueued.enabled ended-IsQueued.waits))
        ∙ node_at-close client codec rounds redis deletes json r empty actions u proper room

    node_at-shut_down :
        (u : Uid)
        → node_at client codec rounds u (execute_batch store ops saved)
          ≡ fields_of u ended.graph.nodes
    node_at-shut_down u =
        let kept =
          node_at-save_graph client codec rounds redis json ended.graph ended.stored u c.linked
            plain in
        execute_batch-same client codec rounds redis deletes json u ops ended.stored saved
          ended-IsQueued.proper
          (elim (Option-cases (fields_of u ended.graph.nodes)) [
            | inl p ↦ inl (ground (arith, kept))
            | inr (n, p) ↦ inr (ground (arith, kept, node_at-ops u))
          ])
        ∙ node_at-ops u

    load_graph-shut_down :
        (h : Graph) × (load_graph client codec rounds (shut_down store ended).stored ≡ inr h)
        × ((u : Uid) → fields_of u h.nodes ≡ fields_of u ended.graph.nodes)
    load_graph-shut_down =
        let stored =
          execute_batch-IsStored client codec rounds redis deletes json ops saved
            ended-IsQueued.proper
            (save_graph-IsStored client codec rounds redis json ended.graph ended.stored c.linked
              plain ended-IsQueued.stored) in
        let (h, ok, loaded) =
          load_graph_exact client codec rounds redis (execute_batch store ops saved) stored in
        (
          h,
          ap (load_graph client codec rounds)
                (shut_down_ops store ended ended-IsQueued.enabled ended-IsQueued.waits)
              ∙ ok,
          λ u. loaded.nodes u ∙ node_at-shut_down u,
        )

    -- Start an asynchronous persistent graph over an empty Redis server that answers as documented,
    -- with an encoding that decodes what it encodes, and let calls and steps of the writer follow
    -- in any order, each call with room in the channel: new nodes come without edges, new edges
    -- have UIDs without colons, a removed UID has no glob character. Let the UIDs of the nodes at
    -- the end have no colon. Shut down as `main` does, with a last snapshot before `Close`, and
    -- start again: loading succeeds, with exactly the nodes that the graph had, so none is lost and
    -- no removed node returns.
    pub start_up-shut_down :
        (((start_up store (shut_down store ended).stored).1 ≡ none)
          × ((u : Uid)
              → fields_of u (start_up store (shut_down store ended).stored).0.graph.nodes
                ≡ fields_of u ended.graph.nodes))
    start_up-shut_down =
        let (h, ok, same) = load_graph-shut_down in
        let (fine, loaded) = start_up_loaded store (shut_down store ended).stored h ok in
        (fine, λ u. ap (λ g. fields_of u g.nodes) loaded ∙ same u)
