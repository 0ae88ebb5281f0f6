-- ===== src/Pedigree/Walk.antt =====
-- A walk up a pedigree gives each rank once, from the young end to the root, and then ends.
use cilk_l.Prelude.{
  ℕ, zero, suc, ◌+◌, ◌<◌, ◌≡◌, refl, List, [], ◌∷◌, ◌++◌, length, map, replicate, ap, ◌∙◌, arith,
  true,
}
use cilk_l.Pedigree.{
  Node, Context, unstarted, at, walk_complete, Answer, completed, success, get_pedigree_info, visit,
  calls,
}

-- From `p` up, the nodes are those of the list.
unfoldable pub Ancestors : (ℕ → Node) → ℕ → List ℕ → Type 0
Ancestors nodes p [] = p ≡ 0
Ancestors nodes p (x ∷ xs) = (p ≡ x) × (0 < x) × Ancestors nodes (nodes x).parent xs

-- The answers that a walk over the nodes of a list gives.
unfoldable pub ranks : (ℕ → Node) → List ℕ → List Answer
ranks nodes xs = map (λ x. success (nodes x).rank) xs

calls-zero : (nodes : ℕ → Node) (leaf : ℕ) (context : Context) → calls 0 nodes leaf context ≡ []
unfolding calls
calls-zero nodes leaf context = refl

calls-suc :
    (n : ℕ) (nodes : ℕ → Node) (leaf : ℕ) (context context' : Context) (answer : Answer)
    → get_pedigree_info nodes leaf true context ≡ (answer, context')
    → calls (suc n) nodes leaf context ≡ answer ∷ calls n nodes leaf context'
unfolding calls
calls-suc n nodes leaf context context' answer e = rw (calls, e) refl

calls_complete :
    (n : ℕ) (nodes : ℕ → Node) (leaf : ℕ) → calls n nodes leaf walk_complete ≡ replicate n completed
unfolding calls get_pedigree_info
calls_complete zero nodes leaf = refl
calls_complete (suc n) nodes leaf = ap (λ l. completed ∷ l) (calls_complete n nodes leaf)

-- The calls from a context whose next node is null.
calls-ended :
    (n : ℕ) (nodes : ℕ → Node) (leaf : ℕ) (context : Context) (q : ℕ)
    → get_pedigree_info nodes leaf true context ≡ visit nodes q
    → q ≡ 0
    → calls n nodes leaf context ≡ replicate n completed
calls-ended zero nodes leaf context q e a = calls-zero nodes leaf context
calls-ended (suc n) nodes leaf context q e a =
    let ended : visit nodes q ≡ (completed, walk_complete) = ground (arith, a) in
    calls-suc n nodes leaf context walk_complete completed (e ∙ ended)
    ∙ ap (λ l. completed ∷ l) (calls_complete n nodes leaf)

-- The calls from a context whose next node is `q`.
calls-visit :
    (n : ℕ) (nodes : ℕ → Node) (leaf : ℕ) (context : Context) (q : ℕ) (xs : List ℕ)
    → get_pedigree_info nodes leaf true context ≡ visit nodes q
    → Ancestors nodes q xs
    → calls (length xs + n) nodes leaf context ≡ ranks nodes xs ++ replicate n completed
unfolding Ancestors ranks get_pedigree_info
calls-visit n nodes leaf context q [] e a =
    let len : length {A = ℕ} [] + n ≡ n = omega arith in
    ap (λ k. calls k nodes leaf context) len ∙ calls-ended n nodes leaf context q e a
calls-visit n nodes leaf context q (x ∷ xs) e (is, pos, a) =
    let found : visit nodes q ≡ (success (nodes x).rank, at x) = ground (arith, is, pos) in
    let len : length (x ∷ xs) + n ≡ suc (length xs + n) = omega arith in
    ap (λ k. calls k nodes leaf context) len
    ∙ calls-suc (length xs + n) nodes leaf context (at x) (success (nodes x).rank) (e ∙ found)
    ∙ ap (λ l. success (nodes x).rank ∷ l)
        (calls-visit n nodes leaf (at x) (nodes x).parent xs refl a)

-- If the nodes above the leaf are those of a list, the first calls of a walk give their ranks in order,
-- and every later call says that the walk is completed.
pub get_pedigree_info_lem :
    (nodes : ℕ → Node) (leaf n : ℕ) (xs : List ℕ)
    → Ancestors nodes (nodes leaf).parent xs
    → calls (length xs + n) nodes leaf unstarted ≡ ranks nodes xs ++ replicate n completed
unfolding get_pedigree_info
get_pedigree_info_lem nodes leaf n xs a =
    calls-visit n nodes leaf unstarted (nodes leaf).parent xs refl a
