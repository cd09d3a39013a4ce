-- ===== src/Server/Config/Accepted.antt =====
-- What the checks of src/server_adaptor/osa.cpp let through.
use global_cache_adaptor.Common.{
  ℕ, ◌≤◌, ◌<◌, ◌≡◌, ◌⊎◌, refl, Bool, true, false, ◌&&◌, List, [], ◌∷◌, Option, none, some, ltb,
  ◌||◌, not, ◌==◌, if◌then◌else◌, u32, length, arith,
}
use global_cache_adaptor.Common.Bytes.{Bytes, tokens}
use global_cache_adaptor.Common.Int.{ℤ, is_neg, pos_part, pos, negsuc}
use global_cache_adaptor.Common.Number.{strtol, to_int}
use global_cache_adaptor.Server.MsgModule.{◌>>=◌}
use global_cache_adaptor.Server.Config.{
  Host, ClusterControlCfg, Settings, QosParam, is_digit, check_port, all_ports, parse_port_vec,
  parse_cores, parse_core, parse_qos, check_settings, osa_settings, read_config, between, need,
}

-- Every element of a list.
abbrev pub Each {ℓ} : {A : Type ℓ} → (A → Type 0) → List A → Type 0
Each P [] = Unit
Each P (x ∷ xs) = P x × Each P xs

-- A text of digits whose number, as `int`, is a port that a user may listen on.
pub record IsPort (s : Bytes) : Type 0 where
  pub digits : is_digit s ≡ true
  pub low : 1024 ≤ pos_part (to_int (strtol s).value)
  pub high : pos_part (to_int (strtol s).value) ≤ 65535

pub record IsValid (cpus : ℕ) (s : Settings) : Type 0 where
  pub port_count : (1 ≤ length s.ports) × (length s.ports ≤ 8)
  pub ports : Each IsPort s.ports
  pub cores : Each (λ c. c < cpus) s.cores
  pub workers : Each (λ c. c < cpus) s.worker_cores
  pub queues : (4 ≤ s.queue_amount) × (s.queue_amount ≤ 5000)
  pub capacity : (1 ≤ s.queue_max_capacity) × (s.queue_max_capacity ≤ 1024)
  pub msgr : (3 ≤ s.msgr_amount) × (s.msgr_amount ≤ 16)
  pub cycle : 1 ≤ s.qos.get_quota_cycle
  pub throttle :
      (s.qos.sa_op_throttle ≡ 0) ⊎ ((2000 ≤ s.qos.sa_op_throttle) × (s.qos.sa_op_throttle ≤ 30000))

-- The steps of a chain that ends with a result.
bind-some :
    {A B : Type 0} (o : Option A) (f : A → Option B) (b : B)
    → o >>= f ≡ some b
    → (a : A) × (o ≡ some a) × (f a ≡ some b)
bind-some none f b h = cc
bind-some (some a) f b h = (a, refl, h)

need-true : (t u : Bool) → need t ≡ some u → t ≡ true
need-true true u h = refl
need-true false u h = cc

and-true : (a b : Bool) → a && b ≡ true → (a ≡ true) × (b ≡ true)
and-true true b h = (refl, h)
and-true false b h = cc

in_range : (low high n : ℕ) → between low high n ≡ true → (low ≤ n) × (n ≤ high)
in_range low high n h = ground arith

check_port-IsPort : (s : Bytes) → check_port s ≡ true → IsPort s
unfolding check_port
check_port-IsPort s h = record {
  digits = (and-true (is_digit s) _ h).0;
  low = by_value (to_int (strtol s).value) (and-true (is_digit s) _ h).1;
  high = ground (arith, (and-true (is_digit s) _ h).1);
}
  where
    by_value :
        (z : ℤ)
        → not (ltb 65535 (pos_part z) || (is_neg z || ltb (pos_part z) 1024)) ≡ true
        → 1024 ≤ pos_part z
    by_value (pos n) h = ground arith
    by_value (negsuc n) h = ground arith

all_ports-Each : (ps : List Bytes) → all_ports ps ≡ true → Each IsPort ps
all_ports-Each [] h = tt
all_ports-Each (p ∷ ps) h =
    let (e, r) = and-true (check_port p) (all_ports ps) h in
    (check_port-IsPort p e, all_ports-Each ps r)

parse_port_vec-IsPort :
    (text : Bytes) (ports : List Bytes)
    → parse_port_vec text ≡ some ports
    → (1 ≤ length ports) × (length ports ≤ 8) × Each IsPort ports
unfolding parse_port_vec
parse_port_vec-IsPort text ports h =
    by_tests (length text == 0) (all_ports (tokens b',' text)) (tokens b',' text)
      (all_ports-Each (tokens b',' text)) h
  where
    by_tests :
        (a t : Bool) (ps : List Bytes)
        → (t ≡ true → Each IsPort ps)
        → (if (a || not t) || (length ps == 0 || ltb 8 (length ps)) then none else some ps)
          ≡ some ports
        → (1 ≤ length ports) × (length ports ≤ 8) × Each IsPort ports
    by_tests true t ps f h = cc
    by_tests false false ps f h = cc
    by_tests false true ps f h = by_count (length ps == 0 || ltb 8 (length ps)) refl h
      where
        by_count :
            (t : Bool)
            → (length ps == 0 || ltb 8 (length ps)) ≡ t
            → (if t then none else some ps) ≡ some ports
            → (1 ≤ length ports) × (length ports ≤ 8) × Each IsPort ports
        by_count true e h = cc
        by_count false e h =
            let same : ports ≡ ps = cc in rw same (ground arith, ground arith, f refl)

parse_cores-Each :
    (cpus : ℕ) (ps : List Bytes) (ids : List ℕ)
    → parse_cores cpus ps ≡ some ids
    → Each (λ c. c < cpus) ids
parse_cores-Each cpus [] ids h = let same : ids ≡ [] = cc in rw same tt
parse_cores-Each cpus (p ∷ ps) ids h =
    by_test (strtol p).failed (to_int (strtol p).value) (parse_cores-Each cpus ps) h
  where
    by_test :
        (failed : Bool) (id : ℤ)
        → ((rest : List ℕ) → parse_cores cpus ps ≡ some rest → Each (λ c. c < cpus) rest)
        → (if failed || not (not (is_neg id) && ltb (pos_part id) cpus)
            then none
            else parse_cores cpus ps >>= λ rest. some (pos_part id ∷ rest))
          ≡ some ids
        → Each (λ c. c < cpus) ids
    by_test true id f h = cc
    by_test false (negsuc n) f h = cc
    by_test false (pos n) f h = by_less (ltb n cpus) refl h
      where
        by_less :
            (t : Bool)
            → ltb n cpus ≡ t
            → (if not t then none else parse_cores cpus ps >>= λ rest. some (n ∷ rest)) ≡ some ids
            → Each (λ c. c < cpus) ids
        by_less false e h = cc
        by_less true e h =
            let (rest, r, g) = bind-some (parse_cores cpus ps) (λ rest. some (n ∷ rest)) ids h in
            let same : ids ≡ n ∷ rest = cc in rw same (ground arith, f rest r)

parse_qos-valid :
    (c : ClusterControlCfg) (q : QosParam)
    → parse_qos c ≡ some q
    → (1 ≤ q.get_quota_cycle)
      × ((q.sa_op_throttle ≡ 0) ⊎ ((2000 ≤ q.sa_op_throttle) × (q.sa_op_throttle ≤ 30000)))
unfolding parse_qos
parse_qos-valid c q h = by_tests (u32 c.get_quota_cyc) c.sa_op_throttle refl refl h
  where
    by_tests :
        (cycle t : ℕ)
        → u32 c.get_quota_cyc ≡ cycle
        → c.sa_op_throttle ≡ t
        → (if ltb cycle 1 || (not (t == 0) && (ltb t 2000 || ltb 30000 t))
            then none
            else some (record {
              limit_write = u32 c.write_qos;
              get_quota_cycle = cycle;
              enable_throttle = u32 c.get_messenger_throttle;
              sa_op_throttle = t;
            }))
          ≡ some q
        → (1 ≤ q.get_quota_cycle)
          × ((q.sa_op_throttle ≡ 0) ⊎ ((2000 ≤ q.sa_op_throttle) × (q.sa_op_throttle ≤ 30000)))
    by_tests cycle t e f h =
        by_test (ltb cycle 1 || (not (t == 0) && (ltb t 2000 || ltb 30000 t))) refl h
      where
        found : QosParam
        found = record {
          limit_write = u32 c.write_qos;
          get_quota_cycle = cycle;
          enable_throttle = u32 c.get_messenger_throttle;
          sa_op_throttle = t;
        }

        by_test :
            (b : Bool)
            → (ltb cycle 1 || (not (t == 0) && (ltb t 2000 || ltb 30000 t))) ≡ b
            → (if b then none else some found) ≡ some q
            → (1 ≤ q.get_quota_cycle)
              × ((q.sa_op_throttle ≡ 0) ⊎ ((2000 ≤ q.sa_op_throttle) × (q.sa_op_throttle ≤ 30000)))
        by_test true g h = cc
        by_test false g h = let same : q ≡ found = cc in rw same (ground arith, ground arith)

check_settings-IsValid :
    (h : Host) (c : ClusterControlCfg) (s : Settings)
    → check_settings h c ≡ some s
    → IsValid h.cpus_online s
unfolding check_settings parse_core
check_settings-IsValid h c s e =
    by_steps (need (h.local_ip c.listen_ip)) (parse_port_vec c.listen_port)
      (parse_cores h.cpus_online (tokens b',' c.core_number))
      (parse_cores h.cpus_online (tokens b',' c.worker_core)) (need (between 4 5000 amount))
      (need (between 1 1024 capacity)) (need (between 3 16 msgr)) (parse_qos c)
      (parse_port_vec-IsPort c.listen_port)
      (parse_cores-Each h.cpus_online (tokens b',' c.core_number))
      (parse_cores-Each h.cpus_online (tokens b',' c.worker_core))
      (λ t u. in_range 4 5000 amount (need-true _ t u))
      (λ t u. in_range 1 1024 capacity (need-true _ t u))
      (λ t u. in_range 3 16 msgr (need-true _ t u)) (parse_qos-valid c) e
  where
    amount : ℕ
    amount = u32 c.queue_amount

    capacity : ℕ
    capacity = u32 c.queue_max_capacity

    msgr : ℕ
    msgr = u32 c.msgr_amount

    Cores : List ℕ → Type 0
    Cores = Each (λ c. c < h.cpus_online)

    by_steps :
        (l : Option Bool) (p : Option (List Bytes)) (k w : Option (List ℕ)) (x y z : Option Bool)
        (o : Option QosParam)
        → ((v : List Bytes) → p ≡ some v → (1 ≤ length v) × (length v ≤ 8) × Each IsPort v)
        → ((v : List ℕ) → k ≡ some v → Cores v)
        → ((v : List ℕ) → w ≡ some v → Cores v)
        → ((t : Bool) → x ≡ some t → (4 ≤ amount) × (amount ≤ 5000))
        → ((t : Bool) → y ≡ some t → (1 ≤ capacity) × (capacity ≤ 1024))
        → ((t : Bool) → z ≡ some t → (3 ≤ msgr) × (msgr ≤ 16))
        → ((q : QosParam)
            → o ≡ some q
            → (1 ≤ q.get_quota_cycle)
              × ((q.sa_op_throttle ≡ 0) ⊎ ((2000 ≤ q.sa_op_throttle) × (q.sa_op_throttle ≤ 30000))))
        → (l >>= λ _. p >>= λ ports. k >>= λ cores. w >>= λ workers. x >>= λ _. y >>= λ _.
            z >>= λ _. o >>= λ q. some (record {
              addr = c.listen_ip;
              ports = ports;
              cores = cores;
              worker_cores = workers;
              queue_amount = amount;
              queue_max_capacity = capacity;
              msgr_amount = msgr;
              qos = q;
            }))
          ≡ some s
        → IsValid h.cpus_online s
    by_steps (some l) (some p) (some k) (some w) (some x) (some y) (some z) (some q) fp fk fw fx fy
          fz fq e =
        let (low, high, ports) = fp p refl in
        let (cycle, throttle) = fq q refl in
        let found : Settings = record {
          addr = c.listen_ip;
          ports = p;
          cores = k;
          worker_cores = w;
          queue_amount = amount;
          queue_max_capacity = capacity;
          msgr_amount = msgr;
          qos = q;
        } in
        let same : s ≡ found = cc in
        let valid : IsValid h.cpus_online found = record {
          port_count = (low, high);
          ports = ports;
          cores = fk k refl;
          workers = fw w refl;
          queues = fx x refl;
          capacity = fy y refl;
          msgr = fz z refl;
          cycle = cycle;
          throttle = throttle;
        } in
        rw same valid
    by_steps none p k w x y z o fp fk fw fx fy fz fq e = cc
    by_steps (some l) none k w x y z o fp fk fw fx fy fz fq e = cc
    by_steps (some l) (some p) none w x y z o fp fk fw fx fy fz fq e = cc
    by_steps (some l) (some p) (some k) none x y z o fp fk fw fx fy fz fq e = cc
    by_steps (some l) (some p) (some k) (some w) none y z o fp fk fw fx fy fz fq e = cc
    by_steps (some l) (some p) (some k) (some w) (some x) none z o fp fk fw fx fy fz fq e = cc
    by_steps (some l) (some p) (some k) (some w) (some x) (some y) none o fp fk fw fx fy fz fq e =
        cc
    by_steps (some l) (some p) (some k) (some w) (some x) (some y) (some z) none fp fk fw fx fy fz
          fq e =
        cc

-- Whatever the configuration file says: when OSA_Init goes on to build the network module, it does
-- so with 1 to 8 ports, each a text of digits whose number, cut to a 32-bit int as atoi does, is from
-- 1024 to 65535 (the digits themselves may stand for more), with cores that the machine has,
-- with 4 to 5000 queues of a capacity from 1 to 1024, 3 to 16 messengers, a quota cycle that is not
-- 0, and a limit of operations that is 0 or from 2000 to 30000.
pub osa_settings-IsValid :
    (h : Host) (s : Settings) → osa_settings h ≡ some s → IsValid h.cpus_online s
unfolding osa_settings
osa_settings-IsValid h s e =
    let (c, r, e') = bind-some (read_config h) (λ c. check_settings h c) s e in
    check_settings-IsValid h c s e'
