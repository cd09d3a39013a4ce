-- ===== src/Proxy/CcmAdaptor.antt =====
-- src/ceph_proxy/CcmAdaptor.cc, class ClusterManagerAdaptor: the function that is told of the pools.
use global_cache_adaptor.Common.{ℕ, ◌≡◌, refl, List, [], ◌∷◌, Option, none, some, if◌then◌else◌}
use global_cache_adaptor.Common.Int.{ℤ, pos, neg, is_zero}

-- A function of the cluster manager, by its answers.
abbrev pub NotifyFn : Type 0
NotifyFn = List ℕ → ℤ

-- RegisterPoolCreateReportFn: the code, and the function that is registered.
unfoldable pub register_pool_create_report_fn :
    Option NotifyFn → Option NotifyFn → ℤ × Option NotifyFn
register_pool_create_report_fn none current = (pos 0, none)
register_pool_create_report_fn (some f) none = (pos 0, some f)
register_pool_create_report_fn (some f) (some g) = (neg 1, some g)

-- ReportCreatePool: the code, and the calls of the function.
unfoldable pub report_create_pool : List ℕ → Option NotifyFn → ℤ × List (List ℕ)
report_create_pool pools none = (pos 0, [])
report_create_pool pools (some f) = (if is_zero (f pools) then pos 0 else neg 1, pools ∷ [])

-- A sequence of calls of RegisterPoolCreateReportFn, from no function.
abbrev pub register_all : List (Option NotifyFn) → Option NotifyFn → Option NotifyFn
register_all [] current = current
register_all (f ∷ fs) current = register_all fs (register_pool_create_report_fn f current).1

-- Registrations of functions, none of which takes a function back.
abbrev pub somes : List NotifyFn → List (Option NotifyFn)
somes [] = []
somes (f ∷ fs) = some f ∷ somes fs

kept : (f : NotifyFn) (fs : List NotifyFn) → register_all (somes fs) (some f) ≡ some f
unfolding register_pool_create_report_fn
kept f [] = refl
kept f (g ∷ fs) = kept f fs

-- While no call takes the function back, the first function that was registered is the one that is
-- told of the pools, and a further registration answers -1. After it is taken back, the next function
-- that is registered is told of them.
pub register_pool_create_report_fn-first :
    (f : NotifyFn) (fs : List NotifyFn) (pools : List ℕ) (g : NotifyFn)
    → let current = register_all (some f ∷ somes fs) none in
      (report_create_pool pools current ≡ report_create_pool pools (some f))
      × (register_pool_create_report_fn (some g) current ≡ (neg 1, some f))
      × (report_create_pool pools (register_all (none ∷ some g ∷ []) current)
          ≡ report_create_pool pools (some g))
unfolding register_pool_create_report_fn
register_pool_create_report_fn-first f fs pools g = rw (kept f fs) (refl, refl, refl)
