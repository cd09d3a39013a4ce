-- ===== src/Server/Throttle/Balance.antt =====
-- The counters of src/server_adaptor/network_module.cpp against what is counted in them, over single
-- calls of the Get…Cas and Put…Cas functions by any number of threads.
use mathlib.Core.Path.{subst}
use global_cache_adaptor.Common.{
  ℕ, ◌+◌, ◌≤◌, ◌<◌, ◌≡◌, ◌≢◌, refl, sym, List, [], ◌∷◌, ◌++◌, Option, none, some, arith, u64, total,
  total-remove,
}
use global_cache_adaptor.Server.Throttle.{
  Limits, Counters, get_lwt_cas, put_lwt_cas, get_write_lwt_cas, put_write_lwt_at, get_read_lwt_cas,
  put_read_lwt_at, get_write_iops_cas, put_write_iops_at, get_write_bw_cas, put_write_bw_at,
  get_read_bw_cas, put_read_bw_at,
}

-- What one call counts: an operation, a write, a read, a write for the limit per second, or the
-- kilobytes of a write or of a read.
pub data Kind : Type 0 where
  any_op one_write one_read write_per_second : Kind
  write_load read_load : ℕ → Kind

-- What is counted, and the value that its Put…Cas call has tested last, if one has begun.
pub record Item : Type 0 where
  pub kind : Kind
  pub tested : Option ℕ

-- What an item adds to each counter.
abbrev pub ops : Kind → ℕ
ops any_op = 1
ops _ = 0

abbrev pub writes : Kind → ℕ
writes one_write = 1
writes _ = 0

abbrev pub reads : Kind → ℕ
reads one_read = 1
reads _ = 0

abbrev pub seconds : Kind → ℕ
seconds write_per_second = 1
seconds _ = 0

abbrev pub write_kb : Kind → ℕ
write_kb (write_load n) = n
write_kb _ = 0

abbrev pub read_kb : Kind → ℕ
read_kb (read_load n) = n
read_kb _ = 0

abbrev pub weight : Kind → ℕ
weight k = ops k + writes k + reads k + seconds k + write_kb k + read_kb k

abbrev pub sum : (Kind → ℕ) → List Item → ℕ
sum f = total (λ i. f i.kind)

-- The counters, what is counted and not yet counted out, and the number of calls of PutlwtCas for
-- messages that were refused before they were counted.
pub record Flight : Type 0 where
  pub counters : Counters
  pub items : List Item
  pub refused : ℕ

-- The Get…Cas call.
abbrev pub count_in : Limits → Kind → Counters → Counters
count_in l any_op t = (get_lwt_cas 1 t).0
count_in l one_write t = (get_write_lwt_cas l 1 t).0
count_in l one_read t = (get_read_lwt_cas l 1 t).0
count_in l write_per_second t = (get_write_iops_cas l 1 t).0
count_in l (write_load n) t = (get_write_bw_cas l n t).0
count_in l (read_load n) t = (get_read_bw_cas l n t).0

-- The counter that the Put…Cas call tests.
abbrev pub counter : Kind → Counters → ℕ
counter any_op t = t.lwt_count
counter one_write t = t.lwt_write_count
counter one_read t = t.lwt_read_count
counter write_per_second t = t.write_iops
counter (write_load n) t = t.write_bw
counter (read_load n) t = t.read_bw

-- The end of the Put…Cas call that has tested the value `v`: it gives up, or swaps.
abbrev pub count_out : Kind → ℕ → Counters → Counters
count_out any_op v t = put_lwt_cas t
count_out one_write v t = put_write_lwt_at v t
count_out one_read v t = put_read_lwt_at v t
count_out write_per_second v t = put_write_iops_at v 1 t
count_out (write_load n) v t = put_write_bw_at v n t
count_out (read_load n) v t = put_read_bw_at v n t

-- The worker threads count in, one call after the other, and the accelerator's threads count out, in
-- any order. A round of a compare-and-swap loop that fails tests again. What is counted stays within
-- 64 bits.
pub data Step (l : Limits) : Flight → Flight → Type 0 where
  counts :
      (f : Flight) (k : Kind)
      → weight k + sum weight f.items < 18446744073709551616
      → Step l f (record f {
        counters = count_in l k f.counters;
        items = record { kind = k; tested = none } ∷ f.items;
      })
  tests :
      (f : Flight) (xs : List Item) (i : Item) (ys : List Item)
      → f.items ≡ xs ++ i ∷ ys
      → Step l f
          (record f { items = xs ++ record i { tested = some (counter i.kind f.counters) } ∷ ys })
  swaps :
      (f : Flight) (xs : List Item) (k : Kind) (v : ℕ) (ys : List Item)
      → f.items ≡ xs ++ record { kind = k; tested = some v } ∷ ys
      → Step l f (record f { counters = count_out k v f.counters; items = xs ++ ys })
  refuses :
      (f : Flight)
      → Step l f (record f { counters = put_lwt_cas f.counters; refused = f.refused + 1 })

pub data Reach (l : Limits) (f : Flight) : Flight → Type 0 where
  here : Reach l f f
  next : {g h : Flight} → Reach l f g → Step l g h → Reach l f h

-- Every limit is set, and the accelerator collects garbage, so that every counter is in use.
pub record IsCounting (l : Limits) (t : Counters) : Type 0 where
  pub all_ops : t.sa_op_throttle ≢ 0
  pub gc : t.is_gc ≢ 0
  pub write_op : l.write_op ≢ 0
  pub read_op : l.read_op ≢ 0
  pub write_bw : l.write_bw_limit ≢ 0
  pub read_bw : l.read_bw_limit ≢ 0
  pub write_iops : l.write_iops_limit ≢ 0

-- The sums of what is counted.
record Sums : Type 0 where
  s_ops : ℕ
  s_writes : ℕ
  s_reads : ℕ
  s_seconds : ℕ
  s_write_kb : ℕ
  s_read_kb : ℕ

abbrev sums : List Item → Sums
sums is = record {
  s_ops = sum ops is;
  s_writes = sum writes is;
  s_reads = sum reads is;
  s_seconds = sum seconds is;
  s_write_kb = sum write_kb is;
  s_read_kb = sum read_kb is;
}

abbrev plus : Kind → Sums → Sums
plus k s = record {
  s_ops = ops k + s.s_ops;
  s_writes = writes k + s.s_writes;
  s_reads = reads k + s.s_reads;
  s_seconds = seconds k + s.s_seconds;
  s_write_kb = write_kb k + s.s_write_kb;
  s_read_kb = read_kb k + s.s_read_kb;
}

-- The counters hold the sums, of which each is within 64 bits; `n` calls too many were made of
-- PutlwtCas.
record Holds (t : Counters) (s : Sums) (n : ℕ) : Type 0 where
  lwt : u64 (t.lwt_count + n) ≡ s.s_ops
  lwt_write : t.lwt_write_count ≡ s.s_writes
  lwt_read : t.lwt_read_count ≡ s.s_reads
  iops : t.write_iops ≡ s.s_seconds
  bw_write : t.write_bw ≡ s.s_write_kb
  bw_read : t.read_bw ≡ s.s_read_kb

abbrev IsSmall : Sums → Type 0
IsSmall s =
    s.s_ops + s.s_writes + s.s_reads + s.s_seconds + s.s_write_kb + s.s_read_kb
    < 18446744073709551616

count_in-Holds :
    (l : Limits) (k : Kind) (t : Counters) (s : Sums) (n : ℕ)
    → IsCounting l t
    → IsSmall (plus k s)
    → Holds t s n
    → Holds (count_in l k t) (plus k s) n
unfolding get_lwt_cas get_write_lwt_cas get_write_iops_cas get_write_bw_cas get_read_lwt_cas
    get_read_bw_cas
count_in-Holds l any_op t s n on b v = ground arith
count_in-Holds l one_write t s n on b v = ground arith
count_in-Holds l one_read t s n on b v = ground arith
count_in-Holds l write_per_second t s n on b v = ground arith
count_in-Holds l (write_load m) t s n on b v = ground arith
count_in-Holds l (read_load m) t s n on b v = ground arith

-- The value that was tested covers what is counted out.
abbrev Covers : Kind → Option ℕ → Type 0
Covers any_op o = Unit
Covers k none = Unit
Covers k (some v) = weight k ≤ v

count_out-Holds :
    (l : Limits) (k : Kind) (v : ℕ) (t : Counters) (s : Sums) (n : ℕ)
    → IsCounting l t
    → IsSmall (plus k s)
    → Covers k (some v)
    → Holds t (plus k s) n
    → Holds (count_out k v t) s n
unfolding put_lwt_cas
count_out-Holds l any_op v t s n on b c h = ground arith
count_out-Holds l one_write v t s n on b c h = ground arith
count_out-Holds l one_read v t s n on b c h = ground arith
count_out-Holds l write_per_second v t s n on b c h = ground arith
count_out-Holds l (write_load m) v t s n on b c h = ground arith
count_out-Holds l (read_load m) v t s n on b c h = ground arith

counter-Covers :
    (k : Kind) (t : Counters) (s : Sums) (n : ℕ)
    → Holds t (plus k s) n
    → Covers k (some (counter k t))
counter-Covers any_op t s n h = tt
counter-Covers one_write t s n h = ground arith
counter-Covers one_read t s n h = ground arith
counter-Covers write_per_second t s n h = ground arith
counter-Covers (write_load m) t s n h = ground arith
counter-Covers (read_load m) t s n h = ground arith

-- Every value that was tested covers its item.
abbrev AllCover : List Item → Type 0
AllCover [] = Unit
AllCover (i ∷ is) = Covers i.kind i.tested × AllCover is

cover-remove :
    (xs : List Item) (i : Item) (ys : List Item)
    → AllCover (xs ++ i ∷ ys)
    → Covers i.kind i.tested × AllCover (xs ++ ys)
cover-remove [] i ys a = a
cover-remove (x ∷ xs) i ys (c, a) = let (d, b) = cover-remove xs i ys a in (d, (c, b))

cover-insert :
    (xs : List Item) (i : Item) (ys : List Item)
    → Covers i.kind i.tested
    → AllCover (xs ++ ys)
    → AllCover (xs ++ i ∷ ys)
cover-insert [] i ys c a = (c, a)
cover-insert (x ∷ xs) i ys c (d, a) = (d, cover-insert xs i ys c a)

sums-remove :
    (xs : List Item) (i : Item) (ys : List Item)
    → sums (xs ++ i ∷ ys) ≡ plus i.kind (sums (xs ++ ys))
sums-remove xs i ys =
    rw
      (
        total-remove (λ j. ops j.kind) xs i ys,
        total-remove (λ j. writes j.kind) xs i ys,
        total-remove (λ j. reads j.kind) xs i ys,
        total-remove (λ j. seconds j.kind) xs i ys,
        total-remove (λ j. write_kb j.kind) xs i ys,
        total-remove (λ j. read_kb j.kind) xs i ys,
      )
      refl

sum-weight :
    (is : List Item)
    → sum weight is
      ≡ sum ops is
        + sum writes is
        + sum reads is
        + sum seconds is
        + sum write_kb is
        + sum read_kb is
sum-weight [] = refl
sum-weight (i ∷ is) = omega (arith, sum-weight is)

record Inv (l : Limits) (f : Flight) : Type 0 where
  counting : IsCounting l f.counters
  small : IsSmall (sums f.items)
  covers : AllCover f.items
  holds : Holds f.counters (sums f.items) f.refused

count_in-IsCounting :
    (l : Limits) (k : Kind) (t : Counters) → IsCounting l t → IsCounting l (count_in l k t)
unfolding get_lwt_cas get_write_lwt_cas get_write_iops_cas get_write_bw_cas get_read_lwt_cas
    get_read_bw_cas
count_in-IsCounting l k t on = ground arith

count_out-IsCounting :
    (l : Limits) (k : Kind) (v : ℕ) (t : Counters) → IsCounting l t → IsCounting l (count_out k v t)
unfolding put_lwt_cas
count_out-IsCounting l k v t on = ground arith

put_lwt-Holds :
    (t : Counters) (s : Sums) (n : ℕ)
    → t.sa_op_throttle ≢ 0
    → Holds t s n
    → Holds (put_lwt_cas t) s (n + 1)
unfolding put_lwt_cas
put_lwt-Holds t s n on h = ground arith

new-Covers : (k : Kind) → Covers k none
new-Covers any_op = tt
new-Covers one_write = tt
new-Covers one_read = tt
new-Covers write_per_second = tt
new-Covers (write_load n) = tt
new-Covers (read_load n) = tt

IsSmall-remove : (k : Kind) (s : Sums) → IsSmall (plus k s) → IsSmall s
IsSmall-remove k s h = omega arith

Step-Inv : {l : Limits} {f g : Flight} → Step l f g → Inv l f → Inv l g
Step-Inv {l = l} (counts f k b) v =
    let small : IsSmall (plus k (sums f.items)) = omega (arith, sum-weight f.items) in
    record {
      counting = count_in-IsCounting l k f.counters v.counting;
      small = small;
      covers = (new-Covers k, v.covers);
      holds = count_in-Holds l k f.counters (sums f.items) f.refused v.counting small v.holds;
    }
Step-Inv (tests f xs i ys e) v =
    let j : Item = record i { tested = some (counter i.kind f.counters) } in
    let before : sums f.items ≡ plus i.kind (sums (xs ++ ys)) = rw e (sums-remove xs i ys) in
    let same : sums (xs ++ j ∷ ys) ≡ sums f.items = rw before (sums-remove xs j ys) in
    let held : Holds f.counters (plus i.kind (sums (xs ++ ys))) f.refused = rw before at v.holds in
    record {
      counting = v.counting;
      small = subst IsSmall (sym same) v.small;
      covers =
          cover-insert xs j ys (counter-Covers i.kind f.counters (sums (xs ++ ys)) f.refused held)
            (cover-remove xs i ys (rw e at v.covers)).1;
      holds = subst (λ s. Holds f.counters s f.refused) (sym same) v.holds;
    }
Step-Inv {l = l} (swaps f xs k w ys e) v =
    let i : Item = record { kind = k; tested = some w } in
    let before : sums f.items ≡ plus k (sums (xs ++ ys)) = rw e (sums-remove xs i ys) in
    let held : Holds f.counters (plus k (sums (xs ++ ys))) f.refused = rw before at v.holds in
    let small : IsSmall (plus k (sums (xs ++ ys))) = subst IsSmall before v.small in
    let (c, rest) = cover-remove xs i ys (rw e at v.covers) in
    record {
      counting = count_out-IsCounting l k w f.counters v.counting;
      small = IsSmall-remove k (sums (xs ++ ys)) small;
      covers = rest;
      holds = count_out-Holds l k w f.counters (sums (xs ++ ys)) f.refused v.counting small c held;
    }
Step-Inv {l = l} (refuses f) v = record {
  counting = count_out-IsCounting l any_op 0 f.counters v.counting;
  small = v.small;
  covers = v.covers;
  holds = put_lwt-Holds f.counters (sums f.items) f.refused v.counting.all_ops v.holds;
}

Reach-Inv : {l : Limits} {f g : Flight} → Inv l f → Reach l f g → Inv l g
Reach-Inv v here = v
Reach-Inv v (next r s) = Step-Inv s (Reach-Inv v r)

-- Nothing is counted.
abbrev pub start : ℕ → ℕ → Flight
start throttle gc = record {
  counters = record {
    sa_op_throttle = throttle;
    is_gc = gc;
    lwt_count = 0;
    lwt_write_count = 0;
    lwt_read_count = 0;
    write_bw = 0;
    read_bw = 0;
    write_iops = 0;
  };
  items = [];
  refused = 0;
}

-- Each counter but `lwt_count` is the sum of what is counted in it, and that one with what was counted
-- out for refused messages, modulo 2^64.
pub record IsBalanced (f : Flight) : Type 0 where
  pub lwt : u64 (f.counters.lwt_count + f.refused) ≡ sum ops f.items
  pub lwt_write : f.counters.lwt_write_count ≡ sum writes f.items
  pub lwt_read : f.counters.lwt_read_count ≡ sum reads f.items
  pub iops : f.counters.write_iops ≡ sum seconds f.items
  pub bw_write : f.counters.write_bw ≡ sum write_kb f.items
  pub bw_read : f.counters.read_bw ≡ sum read_kb f.items

-- From counters of 0, while every limit is set, the accelerator collects garbage, and all that is
-- counted stays within 64 bits: whatever the order in which threads call the Get…Cas functions, test
-- the counters in the Put…Cas functions and swap there, and whatever messages are refused meanwhile,
-- the counters of writes, of reads, of writes per second and of the kilobytes of either are at every
-- moment exactly the sums of what is counted and not yet counted out. The counter of all operations is
-- that sum less one for each refused message, modulo 2^64.
pub counters_exact :
    (l : Limits) (throttle gc : ℕ) (f : Flight)
    → IsCounting l (start throttle gc).counters
    → Reach l (start throttle gc) f
    → IsBalanced f
counters_exact l throttle gc f on r =
    let v =
      Reach-Inv (record { counting = on; small = omega arith; covers = tt; holds = ground arith })
        r in
    record {
      lwt = v.holds.lwt;
      lwt_write = v.holds.lwt_write;
      lwt_read = v.holds.lwt_read;
      iops = v.holds.iops;
      bw_write = v.holds.bw_write;
      bw_read = v.holds.bw_read;
    }
