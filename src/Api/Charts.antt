-- ===== src/Api/Charts.antt =====
-- The charts that `handleCharts` of pkg/api/server.go answers with, for a namespace.
use astrolabe_server.Common.{
  String, str_dec, string_key, Bool, true, false, not, ◌&&◌, List, [], ◌∷◌, ◌≡◌, ◌≢◌, ◌↔◌, inl, inr,
  refl, arith, Bool-cases, ap, sym, ◌∙◌, subst, ◌==◌,
}
use astrolabe_server.Common.Dict.{Dict, get, put, get_or, get-put}
use astrolabe_server.Graph.Types.{Node, Graph}
use astrolabe_server.Graph.Queries.{get_all_nodes}
use astrolabe_server.Api.Related.{In}
use astrolabe_server.Api.Replies.{charts_in, handle_charts}
use astrolabe_server.Api.Drawn.{marked}

-- A node of the list in the namespace with the chart.
abbrev pub HasChart : String → String → List Node → Type 0
HasChart namespace chart nodes =
    (n : Node) × In n nodes × (n.namespace ≡ namespace) × (n.helm_chart ≡ chart)

module _ (namespace : String) where
  abbrev is_new : Node → Dict String Bool → Bool
  is_new n charts =
      n.namespace == namespace && not (n.helm_chart == "") && not (get_or n.helm_chart false charts)

  charts_in_new :
      (n : Node) (nodes : List Node) (charts : Dict String Bool)
      → is_new n charts ≡ true
      → charts_in namespace (n ∷ nodes) charts
        ≡ (n.helm_chart ∷ charts_in namespace nodes (put n.helm_chart true charts))
  unfolding charts_in
  charts_in_new n nodes charts h = rw (h, charts_in) refl

  charts_in_old :
      (n : Node) (nodes : List Node) (charts : Dict String Bool)
      → is_new n charts ≡ false
      → charts_in namespace (n ∷ nodes) charts ≡ charts_in namespace nodes charts
  unfolding charts_in
  charts_in_old n nodes charts h = rw (h, charts_in) refl

  HasChart-later :
      (c : String) (x : Node) (nodes : List Node)
      → HasChart namespace c nodes
      → HasChart namespace c (x ∷ nodes)
  HasChart-later c x nodes (n, i, p, q) = (n, inr i, p, q)

  charts_in_sound :
      (c : String) (nodes : List Node) (charts : Dict String Bool)
      → In c (charts_in namespace nodes charts)
      → (c ≢ "") × (marked c charts ≡ false) × HasChart namespace c nodes
  unfolding charts_in
  charts_in_sound c [] charts i = elim i [ ]
  charts_in_sound c (n ∷ nodes) charts i = elim (Bool-cases (is_new n charts)) [
    | inl new ↦
        let there : In c (n.helm_chart ∷ charts_in namespace nodes (put n.helm_chart true charts)) =
          subst (In c) (charts_in_new n nodes charts new) i in
        elim there [
          | inl p ↦ (
            (λ e. ground (arith)),
            ap (λ (x : String). marked x charts) (sym p) ∙ ground (arith),
            (n, inl refl, ground (arith), p),
          )
          | inr l ↦
              let (nonempty, unmarked, h) =
                charts_in_sound c nodes (put n.helm_chart true charts) l in
              (
                nonempty,
                ground (arith, get-put c n.helm_chart true charts),
                HasChart-later c n nodes h,
              )
        ]
    | inr old ↦
        let (nonempty, unmarked, h) =
          charts_in_sound c nodes charts (subst (In c) (charts_in_old n nodes charts old) i) in
        (nonempty, unmarked, HasChart-later c n nodes h)
  ]

  charts_in_complete :
      (c : String) (nodes : List Node) (charts : Dict String Bool)
      → c ≢ ""
      → marked c charts ≡ false
      → HasChart namespace c nodes
      → In c (charts_in namespace nodes charts)
  unfolding charts_in
  charts_in_complete c [] charts nonempty out (m, i, _, _) = elim i [ ]
  charts_in_complete c (n ∷ nodes) charts nonempty out (m, i, p, q) =
      elim (Bool-cases (is_new n charts)) [
        | inl new ↦
            subst (In c) (sym (charts_in_new n nodes charts new)) (elim (str_dec n.helm_chart c) [
              | yes same ↦ inl same
              | no other ↦ elim i [
                | inl here ↦ absurd (other (ap (λ x. x.helm_chart) here ∙ q))
                | inr later ↦ inr (
                    charts_in_complete c nodes (put n.helm_chart true charts) nonempty
                      (ground (arith, get-put c n.helm_chart true charts)) (m, later, p, q))
              ]
            ])
        | inr old ↦ elim i [
          | inl here ↦
              let space : n.namespace ≡ namespace = ap (λ x. x.namespace) here ∙ p in
              let chart : n.helm_chart ≡ c = ap (λ x. x.helm_chart) here ∙ q in
              let unmarked : marked n.helm_chart charts ≡ false =
                ap (λ (x : String). marked x charts) chart ∙ out in
              absurd (ground (arith))
          | inr later ↦
              subst (In c) (sym (charts_in_old n nodes charts old))
                (charts_in_complete c nodes charts nonempty out (m, later, p, q))
        ]
      ]

-- For a non-empty namespace, a chart stands in the answer of `handleCharts` exactly if it is not
-- empty and some stored node of the namespace has it.
pub handle_charts_exact :
    (g : Graph) (namespace c : String)
    → namespace ≢ ""
    → In c (handle_charts g namespace) ↔ ((c ≢ "") × HasChart namespace c (get_all_nodes g))
unfolding handle_charts get
handle_charts_exact g namespace c named = elim (Bool-cases (namespace == "")) [
  | inl p ↦ absurd (ground (arith))
  | inr p ↦
      rw (p, handle_charts)
        (
          (λ i.
              let (nonempty, _, h) = charts_in_sound namespace c (get_all_nodes g) [] i in
              (nonempty, h)),
          (λ h. charts_in_complete namespace c (get_all_nodes g) [] h.0 refl h.1),
        )
]
