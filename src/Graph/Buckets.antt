-- ===== src/Graph/Buckets.antt =====
-- The indexes of pkg/graph/types.go bucket by bucket: how often a UID stands in the slice that an
-- index holds under a key, and what adding and removing change.
use astrolabe_server.Common.{
  ℕ, suc, ◌-◌, String, str_dec, string_key, none, List, [], ◌∷◌, ◌++◌, ite, ◌≡◌, arith, refl,
  Option-cases, inl, inr, true,
}
use astrolabe_server.Common.Dict.{Dict, get, get_or, get-put, get-delete}
use astrolabe_server.Graph.Types.{Uid, NodeData}
use astrolabe_server.Graph.Indexes.{
  is_empty, remove_node_from_slice, append_at, remove_at, index_add, index_remove,
}

abbrev pub count_uid : Uid → List NodeData → ℕ
count_uid u [] = 0
count_uid u (n ∷ ns) = ite (str_dec n.uid u) (suc (count_uid u ns)) (count_uid u ns)

abbrev pub bucket : String → Dict String (List NodeData) → List NodeData
bucket k m = get_or k [] m

abbrev pub inner_bucket :
    String → String → Dict String (Dict String (List NodeData)) → List NodeData
inner_bucket k j m = get_or j [] (get_or k [] m)

count_uid-append_one :
    (u : Uid) (ns : List NodeData) (n : NodeData)
    → count_uid u (ns ++ (n ∷ [])) ≡ ite (str_dec n.uid u) (suc (count_uid u ns)) (count_uid u ns)
count_uid-append_one u [] n = refl
count_uid-append_one u (m ∷ ns) n = ground (arith, count_uid-append_one u ns n)

count_uid-remove :
    (u uid : Uid) (ns : List NodeData)
    → count_uid u (remove_node_from_slice ns uid)
      ≡ ite (str_dec uid u) (count_uid u ns - 1) (count_uid u ns)
unfolding remove_node_from_slice
count_uid-remove u uid [] = ground arith
count_uid-remove u uid (m ∷ ns) = ground (arith, count_uid-remove u uid ns)

count_uid-is_empty : (u : Uid) (ns : List NodeData) → is_empty ns ≡ true → count_uid u ns ≡ 0
count_uid-is_empty u [] h = refl
count_uid-is_empty u (n ∷ ns) h = cc

-- One level.
module _ (u : Uid) (i k : String) (m : Dict String (List NodeData)) where
  pub count_uid-append_at :
      (n : NodeData)
      → count_uid u (bucket i (append_at k n m))
        ≡ ite
            (str_dec k i)
            (ite (str_dec n.uid u) (suc (count_uid u (bucket i m))) (count_uid u (bucket i m)))
            (count_uid u (bucket i m))
  unfolding append_at
  count_uid-append_at n =
      ground
        (arith, get-put i k (get_or k [] m ++ (n ∷ [])) m, count_uid-append_one u (bucket k m) n)

  pub count_uid-remove_at :
      (uid : Uid)
      → count_uid u (bucket i (remove_at k uid m))
        ≡ ite
            (str_dec k i)
            (ite (str_dec uid u) (count_uid u (bucket i m) - 1) (count_uid u (bucket i m)))
            (count_uid u (bucket i m))
  unfolding remove_at
  count_uid-remove_at uid = elim (Option-cases (get k m)) [
    | inl p ↦ ground arith
    | inr (ns, p) ↦ ground (
      arith,
      get-put i k (remove_node_from_slice ns uid) m,
      get-delete i k m,
      count_uid-remove u uid ns,
      count_uid-is_empty u (remove_node_from_slice ns uid),
    )
  ]

is_empty-get : (j : String) (m : Dict String (List NodeData)) → is_empty m ≡ true → get j m ≡ none
unfolding get
is_empty-get j [] h = refl
is_empty-get j (x ∷ m) h = cc

-- Two levels.
module _ (u : Uid) (i i' k k' : String) (m : Dict String (Dict String (List NodeData))) where
  pub count_uid-index_add :
      (n : NodeData)
      → count_uid u (inner_bucket i i' (index_add k k' n m))
        ≡ ite
            (str_dec k i)
            (ite
              (str_dec k' i')
              (ite
                (str_dec n.uid u)
                (suc (count_uid u (inner_bucket i i' m)))
                (count_uid u (inner_bucket i i' m)))
              (count_uid u (inner_bucket i i' m)))
            (count_uid u (inner_bucket i i' m))
  unfolding index_add
  count_uid-index_add n = ground (
    arith,
    get-put i k (append_at k' n (get_or k [] m)) m,
    count_uid-append_at u i' k' (get_or k [] m) n,
  )

  pub count_uid-index_remove :
      (uid : Uid)
      → count_uid u (inner_bucket i i' (index_remove k k' uid m))
        ≡ ite
            (str_dec k i)
            (ite
              (str_dec k' i')
              (ite
                (str_dec uid u)
                (count_uid u (inner_bucket i i' m) - 1)
                (count_uid u (inner_bucket i i' m)))
              (count_uid u (inner_bucket i i' m)))
            (count_uid u (inner_bucket i i' m))
  unfolding index_remove
  count_uid-index_remove uid = elim (Option-cases (get k m)) [
    | inl p ↦ ground (arith, is_empty-get i' [] refl)
    | inr (inner, p) ↦ ground (
      arith,
      get-put i k (remove_at k' uid inner) m,
      get-delete i k m,
      count_uid-remove_at u i' k' inner uid,
      is_empty-get i' (remove_at k' uid inner),
    )
  ]
