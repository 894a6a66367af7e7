-- ===== src/Storage/Patterns.antt =====
-- The two patterns of `deleteNodeEdges` of pkg/storage/redis.go: the keys of the edges from a UID and
-- of the edges to it.
use text.Mathlib.TextLemmas.{
  append-nil, nil-append, cons-append, append_assoc, append_cancel_left, append_inj,
}
use astrolabe_server.Common.{
  ℕ, ℕ_discrete, String, string_key, true, false, ◌≡◌, ◌≢◌, refl, arith, ap, sym, ◌∙◌,
}
use astrolabe_server.Common.Format.{◌<>◌}
use astrolabe_server.Graph.Types.{Uid}
use astrolabe_server.Storage.Client.{Client, IsDeleting, is_literal}
use astrolabe_server.Storage.Layout.{node_key, edge_key, edge_key_prefix}
use astrolabe_server.Storage.Keys.{has_colon, parted, node-ne-edge_prefix}

is_literal-append :
    (a b : String) → is_literal a ≡ true → is_literal b ≡ true → is_literal (a <> b) ≡ true
is_literal-append String.[] b p q = ap is_literal (nil-append b) ∙ q
is_literal-append (String.◌∷◌ c a) b p q =
    ap is_literal (cons-append c a b) ∙ ground (arith, is_literal-append a b)

abbrev pub from_pattern : Uid → String
from_pattern uid = edge_key_prefix <> uid <> ":*"

abbrev pub to_pattern : Uid → String
to_pattern uid = edge_key_prefix <> "*:" <> uid

from_pattern-star : (uid : Uid) → from_pattern uid ≡ (edge_key_prefix <> uid <> ":") <> "*" <> ""
from_pattern-star uid = sym (
    append_assoc edge_key_prefix (uid <> ":") ("*" <> "")
    ∙ ap (λ s. edge_key_prefix <> s) (append_assoc uid ":" ("*" <> "")))

to_pattern-star : (uid : Uid) → to_pattern uid ≡ edge_key_prefix <> "*" <> ":" <> uid
to_pattern-star uid = ap (λ s. edge_key_prefix <> s) (append_assoc "*" ":" uid)

module _ {R D : Type 0} (client : Client R D) (rounds : R → ℕ) (deletes : IsDeleting rounds client)
    (uid : Uid) (plain : is_literal uid ≡ true) where
  from_literal : is_literal (edge_key_prefix <> uid <> ":") ≡ true
  unfolding ℕ_discrete
  from_literal =
      is_literal-append edge_key_prefix (uid <> ":") refl (is_literal-append uid ":" plain refl)

  to_literal : is_literal (":" <> uid) ≡ true
  unfolding ℕ_discrete
  to_literal = is_literal-append ":" uid refl plain

  prefix_literal : is_literal edge_key_prefix ≡ true
  unfolding ℕ_discrete
  prefix_literal = refl

  pub from_pattern-matches :
      (a b : Uid)
      → has_colon a ≡ false
      → has_colon b ≡ false
      → (deletes.matches (from_pattern uid) (edge_key a b) ≡ true)
      → uid ≡ a
  from_pattern-matches a b p q m =
      let (rest, e) =
        (deletes.matches_around (edge_key_prefix <> uid <> ":") "" (edge_key a b) from_literal
            refl).0
          (ap (λ s. deletes.matches s (edge_key a b)) (sym (from_pattern-star uid)) ∙ m) in
      let whole : edge_key_prefix <> uid <> ":" <> rest <> "" ≡ edge_key_prefix <> a <> ":" <> b =
        sym (
          e
          ∙ append_assoc edge_key_prefix (uid <> ":") (rest <> "")
          ∙ ap (λ s. edge_key_prefix <> s) (append_assoc uid ":" (rest <> ""))) in
      (parted uid (rest <> "") a b p q (append_cancel_left edge_key_prefix _ _ whole)).0

  pub from_pattern-edge_key : (b : Uid) → deletes.matches (from_pattern uid) (edge_key uid b) ≡ true
  from_pattern-edge_key b =
      ap (λ s. deletes.matches s (edge_key uid b)) (from_pattern-star uid)
      ∙ (deletes.matches_around (edge_key_prefix <> uid <> ":") "" (edge_key uid b) from_literal
            refl).1
          (
            b,
            sym (
                append_assoc edge_key_prefix (uid <> ":") (b <> "")
                ∙ ap (λ s. edge_key_prefix <> s)
                    (append_assoc uid ":" (b <> "") ∙ ap (λ s. uid <> ":" <> s) (append-nil b))),
          )

  pub to_pattern-matches :
      (a b : Uid)
      → has_colon a ≡ false
      → has_colon b ≡ false
      → deletes.matches (to_pattern uid) (edge_key a b) ≡ true
      → uid ≡ b
  to_pattern-matches a b p q m =
      let (rest, e) =
        (deletes.matches_around edge_key_prefix (":" <> uid) (edge_key a b) prefix_literal
            to_literal).0
          (ap (λ s. deletes.matches s (edge_key a b)) (sym (to_pattern-star uid)) ∙ m) in
      (parted rest uid a b p q (append_cancel_left edge_key_prefix _ _ (sym e))).1

  pub to_pattern-edge_key : (a : Uid) → deletes.matches (to_pattern uid) (edge_key a uid) ≡ true
  to_pattern-edge_key a =
      ap (λ s. deletes.matches s (edge_key a uid)) (to_pattern-star uid)
      ∙ (deletes.matches_around edge_key_prefix (":" <> uid) (edge_key a uid) prefix_literal
            to_literal).1
          (a, refl)

  pub from_pattern-node_key : (v : Uid) → deletes.matches (from_pattern uid) (node_key v) ≢ true
  from_pattern-node_key v m =
      let (rest, e) =
        (deletes.matches_around (edge_key_prefix <> uid <> ":") "" (node_key v) from_literal refl).0
          (ap (λ s. deletes.matches s (node_key v)) (sym (from_pattern-star uid)) ∙ m) in
      node-ne-edge_prefix
        (append_inj (e ∙ append_assoc edge_key_prefix (uid <> ":") (rest <> "")) refl).0

  pub to_pattern-node_key : (v : Uid) → deletes.matches (to_pattern uid) (node_key v) ≢ true
  to_pattern-node_key v m =
      let (rest, e) =
        (deletes.matches_around edge_key_prefix (":" <> uid) (node_key v) prefix_literal
            to_literal).0
          (ap (λ s. deletes.matches s (node_key v)) (sym (to_pattern-star uid)) ∙ m) in
      node-ne-edge_prefix (append_inj e refl).0
