-- ===== src/Limits/Tests.antt =====
-- A lock and a quota in use.
use flavor_rag.Prelude.{List, [], ◌∷◌, true, false, ◌≡◌, arith, refl}
use flavor_rag.Prelude.Dict.{get}
use flavor_rag.Limits.Lock.{acquire, acquire_all, acquire-exclusive, is_held}
use flavor_rag.Limits.Quota.{Call}

acquired : (acquire "w1" [] "scheduler" 100 60).1 ≡ true
unfolding acquire is_held get
acquired = refl

acquire-exclusive_example :
    (acquire "w1"
      (acquire_all "w1"
        (("scheduler", 110, 60) ∷ ("other", 120, 60) ∷ [])
        (acquire "w1" [] "scheduler" 100 60).0)
      "scheduler"
      159
      60).1
    ≡ false
acquire-exclusive_example =
    acquire-exclusive "w1" [] "scheduler" 100 60 (("scheduler", 110, 60) ∷ ("other", 120, 60) ∷ [])
      159 60 acquired (omega arith, (omega arith, tt)) (omega arith)

abbrev calls : List Call
calls =
    record { tenant_id = "t1"; today = "2025-01-01"; prompt_tokens = 70; completion_tokens = 20 }
    ∷ record { tenant_id = "t2"; today = "2025-01-01"; prompt_tokens = 5; completion_tokens = 5 }
    ∷ []
