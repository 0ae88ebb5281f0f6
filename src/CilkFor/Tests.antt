-- ===== src/CilkFor/Tests.antt =====
-- Loops on one and on two workers.
use cilk_l.Prelude.{◌≡◌, refl, false, some, arith, pos}
use cilk_l.Pedigree.{Node}
use cilk_l.CilkFor.{Globals, Strands, body, spawn, default_grainsize, grainsize, cilk_for}
use cilk_l.CilkFor.Cover.{Covers}
use cilk_l.CilkFor.Grain.{IsChosen, IsRoomy, cilk_for_lem}

abbrev globals : Globals
globals = record { p = 1; under_ptool = false }

abbrev root : Node
root = record { rank = 4; parent = 9 }

-- Five trips on one worker.
five :
    cilk_for 33 32 globals (pos 0) 5 root
    ≡ some (
      some (
          spawn
            (spawn
              (body (record { low = 0; high = 1; rank = 1 }))
              (body (record { low = 1; high = 2; rank = 2 })))
            (spawn (body (record { low = 2; high = 3; rank = 3 })) (
              spawn
                (body (record { low = 3; high = 4; rank = 4 }))
                (body (record { low = 4; high = 5; rank = 5 }))))),
      record { rank = 6; parent = 9 },
    )
unfolding cilk_for
five = refl

roomy : IsRoomy 32 globals (pos 0) 20
unfolding IsRoomy
roomy = omega arith

cilk_for_lem_example :
    (t : Strands) × (cilk_for 33 32 globals (pos 0) 20 root
      ≡ some (some t, record { rank = 6; parent = 9 }))
    × Covers 3 t 0 20
    × IsChosen globals (pos 0) 20 3
unfolding grainsize default_grainsize
cilk_for_lem_example =
    cilk_for_lem 32 globals (pos 0) 20 root (omega arith) (omega arith) (omega arith) roomy
