-- ===== src/Tests/Globs.antt =====
-- The glob patterns of a `SCAN`, for the test server of the Redis store of pkg/storage/redis.go: `*`
-- stands for any text.
use Prim.Native.Char.{Char, char, code}
use text.Mathlib.TextEquality.{Char-path}
use text.Mathlib.TextLemmas.{nil-append, cons-append}
use astrolabe_server.Common.{
  ℕ_discrete, String, Bool, true, false, ◌||◌, ◌≡◌, ◌≢◌, inl, inr, refl, arith, Bool-cases, ite, ap,
  sym, ◌∙◌,
}
use astrolabe_server.Common.Format.{◌<>◌}
use astrolabe_server.Storage.Client.{is_literal}

unfoldable any_tail : (String → Bool) → String → Bool
any_tail f String.[] = f ""
any_tail f (String.◌∷◌ c k) = let rest = any_tail f k in f (String.◌∷◌ c k) || rest

unfoldable pub glob : String → String → Bool
unfolding any_tail ℕ_discrete
glob String.[] String.[] = true
glob String.[] (String.◌∷◌ d k) = false
glob (String.◌∷◌ c p) String.[] = let rest = glob p "" in ite (ℕ_discrete (code c) 42) rest false
glob (String.◌∷◌ c p) (String.◌∷◌ d k) =
    let tails = any_tail (glob p) (String.◌∷◌ d k) in
    let rest = glob p k in
    ite (ℕ_discrete (code c) 42) tails (ite (ℕ_discrete (code c) (code d)) rest false)

Tail : (String → Bool) → String → Type 0
Tail f k = (m : String) × (r : String) × (k ≡ m <> r) × (f r ≡ true)

any_tail_sound : (f : String → Bool) (k : String) → any_tail f k ≡ true → Tail f k
unfolding any_tail Tail
any_tail_sound f String.[] h = ("", "", sym (nil-append ""), h)
any_tail_sound f (String.◌∷◌ c k) h = elim (Bool-cases (f (String.◌∷◌ c k))) [
  | inl p ↦ ("", String.◌∷◌ c k, sym (nil-append (String.◌∷◌ c k)), p)
  | inr p ↦
      let (m, r, e, q) = any_tail_sound f k (ground (arith)) in
      (String.◌∷◌ c m, r, ap (λ s. String.◌∷◌ c s) e ∙ sym (cons-append c m r), q)
]

any_tail_complete : (f : String → Bool) (m r : String) → f r ≡ true → any_tail f (m <> r) ≡ true
unfolding any_tail
any_tail_complete f String.[] String.[] h = ap (any_tail f) (nil-append "") ∙ h
any_tail_complete f String.[] (String.◌∷◌ c r) h =
    ap (any_tail f) (nil-append (String.◌∷◌ c r)) ∙ ground (arith)
any_tail_complete f (String.◌∷◌ c m) r h =
    ap (any_tail f) (cons-append c m r) ∙ ground (arith, any_tail_complete f m r h)

module _ (c : Char) (p : String) (plain : is_literal (String.◌∷◌ c p) ≡ true) where
  no_star : code c ≢ 42
  unfolding ℕ_discrete
  no_star e = ground (arith)

  literal_rest : is_literal p ≡ true
  unfolding ℕ_discrete
  literal_rest = ground (arith)

-- A literal pattern matches itself alone.
glob_literal_sound : (s k : String) → is_literal s ≡ true → glob s k ≡ true → k ≡ s
unfolding glob
glob_literal_sound String.[] String.[] p h = refl
glob_literal_sound String.[] (String.◌∷◌ d k) p h = absurd (ground (arith))
glob_literal_sound (String.◌∷◌ c s) String.[] p h = absurd (ground (arith, no_star c s p))
glob_literal_sound (String.◌∷◌ c s) (String.◌∷◌ d k) p h =
    let same : code c ≡ code d = ground (arith, no_star c s p) in
    let rest : glob s k ≡ true = ground (arith, no_star c s p) in
    λ i.
      String.◌∷◌ (Char-path d c (sym same) i) (glob_literal_sound s k (literal_rest c s p) rest i)

glob_literal_complete : (s : String) → is_literal s ≡ true → glob s s ≡ true
unfolding glob
glob_literal_complete String.[] p = refl
glob_literal_complete (String.◌∷◌ c s) p =
    ground (arith, no_star c s p, glob_literal_complete s (literal_rest c s p))

-- A pattern with one star.
starred : (s : String) → "" <> "*" <> s ≡ String.◌∷◌ (char 42 tt) s
starred s =
    nil-append ("*" <> s)
    ∙ cons-append (char 42 tt) "" s
    ∙ ap (λ t. String.◌∷◌ (char 42 tt) t) (nil-append s)

glob_star : (s k : String) → glob (String.◌∷◌ (char 42 tt) s) k ≡ any_tail (glob s) k
unfolding glob
glob_star s String.[] = ground (arith)
glob_star s (String.◌∷◌ d k) = ground (arith)

pub glob_sound :
    (p s k : String)
    → is_literal p ≡ true
    → is_literal s ≡ true
    → glob (p <> "*" <> s) k ≡ true
    → (middle : String) × (k ≡ p <> middle <> s)
unfolding glob Tail
glob_sound String.[] s k h q g =
    let (m, r, e, f) =
      any_tail_sound (glob s) k (sym (glob_star s k) ∙ ap (λ t. glob t k) (sym (starred s)) ∙ g) in
    (m, e ∙ ap (λ t. m <> t) (glob_literal_sound s r q f) ∙ sym (nil-append (m <> s)))
glob_sound (String.◌∷◌ c p) s String.[] h q g =
    let moved = ap (λ t. glob t "") (sym (cons-append c p ("*" <> s))) ∙ g in
    absurd (ground (arith, no_star c p h, moved))
glob_sound (String.◌∷◌ c p) s (String.◌∷◌ d k) h q g =
    let moved = ap (λ t. glob t (String.◌∷◌ d k)) (sym (cons-append c p ("*" <> s))) ∙ g in
    let same : code c ≡ code d = ground (arith, no_star c p h, moved) in
    let rest : glob (p <> "*" <> s) k ≡ true = ground (arith, no_star c p h, moved) in
    let (m, e) = glob_sound p s k (literal_rest c p h) q rest in
    (m, (λ i. String.◌∷◌ (Char-path d c (sym same) i) (e i)) ∙ sym (cons-append c p (m <> s)))

pub glob_complete :
    (p m s : String)
    → is_literal p ≡ true
    → is_literal s ≡ true
    → glob (p <> "*" <> s) (p <> m <> s) ≡ true
unfolding glob
glob_complete String.[] m s h q =
    (λ i. glob (starred s i) (nil-append (m <> s) i))
    ∙ glob_star s (m <> s)
    ∙ any_tail_complete (glob s) m s (glob_literal_complete s q)
glob_complete (String.◌∷◌ c p) m s h q =
    (λ i. glob (cons-append c p ("*" <> s) i) (cons-append c p (m <> s) i))
    ∙ ground (arith, no_star c p h, glob_complete p m s (literal_rest c p h) q)
