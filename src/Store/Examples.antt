-- ===== src/Store/Examples.antt =====
-- internal/store/store.go over a database that holds its tables as functions, and at queries with two
-- buckets.
use owlwatch.Prelude.{
  ℕ, ◌+◌, ◌/◌, ◌≡◌, refl, arith, false, List, [], ◌∷◌, none, some, ltb, ◌==◌, if◌then◌else◌, map,
  bytes, insert,
}
use owlwatch.Metrics.{Snapshot}
use owlwatch.Peers.Client.Sample.{snapshot_at}
use owlwatch.Store.{
  Arithmetic, SampleRow, Database, Written, written, sample_row, gpu_columns, mem_sum, util_sum,
  temp_max, put_disks, prune, samples, disk_samples, is_less,
}
use owlwatch.Store
use owlwatch.Store.Writes.{Tables, IsTransactional, with_sample, with_disk, without, reading}
use owlwatch.Store.Effects.{insert_lem, prune_lem}
use owlwatch.Store.Query.{
  SampleBucket, DiskBucket, Queries, Range, answer, point, query, points_of, scan_points,
  merge_disks, filled, fill, set_disk, has_bucket,
}
use owlwatch.Store.Query.Buckets.{DistinctBuckets, with_rows, query-eq-map}

abbrev whole_numbers : Arithmetic ℕ
whole_numbers = record { zero_value = 0; add = λ a b. a + b; divide_by = λ a n. a / n; less = ltb }

-- No statement fails.
abbrev in_memory : Database ℕ
in_memory = record {
  State = Tables ℕ;
  Tx = Tables ℕ;
  begin = λ s. some s;
  put_sample = λ row t. some (with_sample row t);
  put_disk = λ ts mount pct t. some (with_disk ts mount pct t);
  delete_where = λ table op n t. some (without table op n t);
  commit = λ t. some t;
}

some_is {ℓ} : {A : Type ℓ} {a b : A} → some a ≡ some b → b ≡ a
some_is e = cc

abbrev sql_in_memory : IsTransactional in_memory
sql_in_memory = record {
  view = λ t. t;
  within = λ t. t;
  begins = λ s tx e. some_is e;
  puts_sample = λ row tx tx' e. some_is e;
  puts_disk = λ ts mount pct tx tx' e. some_is e;
  deletes = λ table op n tx tx' e. some_is e;
  commits = λ tx s e. some_is e;
}

abbrev no_rows : Tables ℕ
no_rows = record { samples = λ _. none; disks = λ _ _. none }

-- The root disk is two fifths full.
abbrev with_root : Snapshot ℕ
with_root = record (snapshot_at 2000 10) {
  disks =
      record {
        mount = bytes "/";
        device = bytes "/dev/sda1";
        fstype = bytes "ext4";
        total = 10;
        used = 4;
        free = 6;
        used_pct = 40;
      }
      ∷ [];
}

abbrev stored : Tables ℕ
stored = with_disk 2000 (bytes "/") 40 (with_sample (sample_row whole_numbers with_root) no_rows)

root_inserted : Store.insert in_memory whole_numbers with_root no_rows ≡ written stored
unfolding Store.insert put_disks
root_inserted = refl

insert_lem_example :
    (stored.samples 2000
      ≡ (if 2000 == 2000 then some (sample_row whole_numbers with_root) else none))
    × (stored.disks 2000 (bytes "/")
        ≡ (if 2000 == 2000 then reading (bytes "/") with_root.disks none else none))
insert_lem_example =
    insert_lem in_memory sql_in_memory whole_numbers with_root no_rows stored root_inserted 2000
      (bytes "/")

-- Ten seconds at an age of nine.
abbrev pruned : Tables ℕ
pruned = without disk_samples is_less 1000 (without samples is_less 1000 stored)

stored-pruned : prune in_memory 10000000000 9000000000 stored ≡ written pruned
unfolding prune
stored-pruned = refl

prune_lem_example :
    (pruned.samples 2000 ≡ (if ltb 2000 1000 then none else stored.samples 2000))
    × (pruned.disks 2000 (bytes "/")
        ≡ (if ltb 2000 1000 then none else stored.disks 2000 (bytes "/")))
prune_lem_example =
    prune_lem in_memory sql_in_memory whole_numbers 10000000000 9000000000 stored pruned
      stored-pruned 2000 (bytes "/")

abbrev bucket_at : ℕ → SampleBucket ℕ
bucket_at ts = record {
  bucket = ts;
  cpu_avg = 10;
  cpu_max = 20;
  mem_used = 4;
  mem_pct = 50;
  swap_used = 0;
  gpu_util = none;
  gpu_max = none;
  gpu_mem = none;
  gpu_temp = none;
}

abbrev buckets : List (SampleBucket ℕ)
buckets = bucket_at 10000 ∷ bucket_at 20000 ∷ []

-- The last row belongs to no bucket of the samples.
abbrev disk_rows : List (DiskBucket ℕ)
disk_rows =
    record { bucket = 20000; mount = bytes "/"; pct = 40 }
    ∷ record { bucket = 10000; mount = bytes "/nas"; pct = 70 }
    ∷ record { bucket = 30000; mount = bytes "/"; pct = 41 }
    ∷ []

abbrev two_buckets : Queries ℕ
two_buckets = record {
  samples = λ _ _ _. some (map some buckets, false);
  disks = λ _ _ _. some (map some disk_rows, false);
}

abbrev last_hour : Range
last_hour = record { dur = 3600000000000; bucket = 10000000000 }

mounts_by_bucket :
    query (λ n. n) two_buckets last_hour 7200000000000
    ≡ answer (
        record (point (λ n. n) (bucket_at 10000)) { disks = (bytes "/nas", 70) ∷ [] }
        ∷ record (point (λ n. n) (bucket_at 20000)) { disks = (bytes "/", 40) ∷ [] }
        ∷ [])
unfolding query points_of scan_points merge_disks filled fill set_disk has_bucket point insert
mounts_by_bucket = refl

buckets-DistinctBuckets : DistinctBuckets buckets
unfolding DistinctBuckets
buckets-DistinctBuckets = ((refl, tt), (tt, tt))

query-eq-map_example :
    query (λ n. n) two_buckets last_hour 7200000000000
    ≡ answer (map (λ row. with_rows disk_rows (point (λ n. n) row)) buckets)
query-eq-map_example =
    query-eq-map (λ n. n) two_buckets last_hour 7200000000000 buckets disk_rows (omega arith) refl
      refl buckets-DistinctBuckets
