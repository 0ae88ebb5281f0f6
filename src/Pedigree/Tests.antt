-- ===== src/Pedigree/Tests.antt =====
-- A leaf two levels below the root.
use cilk_l.Prelude.{ℕ, ◌≡◌, refl, [], ◌∷◌, arith, update}
use cilk_l.Pedigree.{Node, unstarted, success, completed, calls}
use cilk_l.Pedigree.Walk.{Ancestors, ranks, get_pedigree_info_lem}

abbrev nodes : ℕ → Node
nodes =
    update (update (λ x. record { rank = 5; parent = 0 }) 1 (record { rank = 4; parent = 2 })) 3
      (record { rank = 9; parent = 1 })

nodes-Ancestors : Ancestors nodes 1 (1 ∷ 2 ∷ [])
unfolding Ancestors
nodes-Ancestors = (refl, omega arith, (refl, omega arith, refl))

get_pedigree_info_lem_example :
    calls 4 nodes 3 unstarted ≡ success 4 ∷ success 5 ∷ completed ∷ completed ∷ []
unfolding ranks
get_pedigree_info_lem_example = get_pedigree_info_lem nodes 3 2 (1 ∷ 2 ∷ []) nodes-Ancestors
