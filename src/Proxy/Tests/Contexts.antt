-- ===== src/Proxy/Tests/Contexts.antt =====
-- Runs of the model of src/ceph_proxy/PoolContext.h on concrete inputs.
use global_cache_adaptor.Common.{ℕ, ◌≡◌, refl, inr, List, [], ◌∷◌, some, ◌==◌, if◌then◌else◌}
use global_cache_adaptor.Common.Bytes.{bytes}
use global_cache_adaptor.Common.Int.{ℤ, pos, neg}
use global_cache_adaptor.Proxy.IoCtx.Table.{
  IoCtxTable, get_io_ctx, get_io_ctx2, create, insert_name, insert_id, delete_id,
  get_pool_id_by_pool_name,
}
use global_cache_adaptor.Proxy.IoCtx.Table.Held.{
  Request, after_all, IsHeld, after_all-IsHeld, ask, ask_again,
}

abbrev no_contexts : IoCtxTable
no_contexts = record { table1 = []; table2 = []; attempts = 0; failed = 0; live = 0 }

-- The second attempt fails.
abbrev one_fails : ℕ → ℤ
one_fails n = if n == 1 then neg 2 else pos 0

abbrev uses : List Request
uses =
    Request.by_id 5
    ∷ Request.by_name (bytes "rbd")
    ∷ Request.by_id 5
    ∷ Request.by_name (bytes "rbd")
    ∷ Request.id_of (bytes "rbd")
    ∷ Request.drop_id 5
    ∷ []

uses_run :
    after_all one_fails (λ io. pos 5) (λ io. bytes "rbd") uses no_contexts
    ≡ (record { table1 = (bytes "rbd", 2) ∷ []; table2 = []; attempts = 4; failed = 1; live = 2 })
unfolding get_io_ctx get_io_ctx2 create insert_name insert_id delete_id get_pool_id_by_pool_name
uses_run = refl

after_all-IsHeld_example :
    IsHeld (after_all one_fails (λ io. pos 5) (λ io. bytes "rbd") uses no_contexts)
after_all-IsHeld_example =
    after_all-IsHeld one_fails (λ io. pos 5) (λ io. bytes "rbd") uses no_contexts refl

first_use :
    ask one_fails (inr 5) no_contexts
    ≡ (some 0, record no_contexts { table2 = (5, 0) ∷ []; attempts = 1; live = 1 })
unfolding get_io_ctx2 create insert_id
first_use = refl

ask_again_example :
    ask one_fails (inr 5) (record no_contexts { table2 = (5, 0) ∷ []; attempts = 1; live = 1 })
    ≡ (some 0, record no_contexts { table2 = (5, 0) ∷ []; attempts = 1; live = 1 })
ask_again_example =
    ask_again one_fails one_fails (inr 5) no_contexts
      (record no_contexts { table2 = (5, 0) ∷ []; attempts = 1; live = 1 }) 0 first_use
