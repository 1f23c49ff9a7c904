-- ===== src/Kernel/Lease/Tests.antt =====
-- Runs of the lease operations over the store of the self-tests, and their theorems there.
use Prim.Native.String.{◌++◌}
use one_company.Prelude.{
  ℕ, ◌≤◌, ◌≡◌, ◌≢◌, refl, ◌⊎◌, inl, String, List, [], ◌∷◌, none, some, ok, arith, any,
}
use one_company.Kernel.Types.{normal, Observation, Intent, pending, Lease, is_allowlisted}
use one_company.Kernel.Memory.{
  MemoryCasStore, init, update, memory_store, read, cas, read_repo_mode,
}
use one_company.Kernel.Lease.{
  next_lease, swap, acquire, intent_recovery, resolve_done, passed, fence_ok,
}
use one_company.Kernel.Lease.Steps.{KeepsIntent}
use one_company.Kernel.Lease.Fencing.{
  Op, acquires, attaches, releases, perform, run, Grown, perform-KeepsIntent, run-Grown,
  fence_ok-superseded, fence_ok-one_holder,
}
use one_company.Kernel.Lease.Acquire.{Kept, Granted, Free, acquire_lem}
use one_company.Kernel.Lease.FencePassed.{Guarded, fence_ok-passed_iff}

abbrev observed : Observation
observed = record { head = "h"; base = "b"; wu_body_hash = "w"; pr_updated_at = "t" }

abbrev idem_key : String → String → String → String → String → String
idem_key repo item head base op = repo ++ (item ++ (head ++ (base ++ op)))

abbrev merging : Intent
merging = record {
  op_id = "op-1";
  idem_key = "r1hbmerge";
  operation = "merge";
  expected_head = "h";
  expected_base = "b";
  epoch = 1;
  state = pending;
}

-- The lease of the first holder, and with a pending intent.
abbrev first : Lease
first = next_lease none "k" "alice" observed 0 10

abbrev first_merging : Lease
first_merging = record first { intent = some merging; version = 2 }

-- The lease of a second holder, after the first.
abbrev second : Lease
second = next_lease (some first) "k" "bob" observed 20 10

abbrev holding : Lease → MemoryCasStore
holding l = record { leases = update (λ k. none) "k" l; modes = update (λ r. none) "r" (normal, 1) }

program : Unit {0}
unfolding read cas read_repo_mode acquire swap run perform is_allowlisted any
program = tt

acquired :
    acquire memory_store init "k" "alice" observed 0 10
    ≡ ok ((cas init "k" none first).0, some first)
unfolding program
acquired = refl

free_again :
    read (run memory_store idem_key (holding first) (acquires "k" "bob" observed 20 10 ∷ [])) "k"
    ≡ some second
unfolding program
free_again = refl

unresolved_kept :
    read
      (run memory_store idem_key (holding first_merging) (acquires "k" "bob" observed 20 10 ∷ []))
      "k"
    ≡ some first_merging
unfolding program
unresolved_kept = refl

applied_recovered : intent_recovery first_merging "APPLIED" ≡ ok resolve_done
unfolding intent_recovery
applied_recovered = refl

guarded : Guarded memory_store (holding first_merging) "r" first_merging observed 5
unfolding program
guarded = record {
  intent = merging;
  current = refl;
  live = refl;
  in_time = ground arith;
  unchanged = refl;
  attached = refl;
  unresolved = refl;
  same_epoch = refl;
  known = refl;
  mode = inl refl;
}

fence_ok-passed_iff_example :
    fence_ok memory_store (holding first_merging) "r" first_merging observed 2 2 1 ≡ passed
fence_ok-passed_iff_example =
    (fence_ok-passed_iff memory_store (holding first_merging) "r" first_merging observed 2 2 1).1
      guarded

acquire_lem_example :
    Kept memory_store (holding first) "k" 20
      × (acquire memory_store (holding first) "k" "bob" observed 20 10 ≡ ok (holding first, none))
    ⊎ ((epoch version : ℕ) × (l : Lease) × (s' : MemoryCasStore) × Free memory_store
          (holding first)
          "k"
          20
          epoch
          version
        × Granted "k" "bob" observed 20 10 epoch version l
        × (acquire memory_store (holding first) "k" "bob" observed 20 10 ≡ ok (s', some l))
        × (read s' "k" ≡ some l)
        × ((j : String) → j ≢ "k" → read s' j ≡ read (holding first) j))
acquire_lem_example =
    acquire_lem memory_store (holding first) "k" "bob" observed 20 10 (ground arith)

perform-KeepsIntent_example :
    (n : Lease) × (read
        (perform memory_store idem_key (holding first_merging) (releases first_merging 4)).0
        "k"
      ≡ some n)
    × ((n ≡ first_merging) ⊎ KeepsIntent first_merging n)
unfolding program
perform-KeepsIntent_example =
    perform-KeepsIntent memory_store idem_key (holding first_merging) (releases first_merging 4) "k"
      first_merging refl refl

abbrev takeover : List Op
takeover = acquires "k" "bob" observed 20 10 ∷ attaches second "r" "1" "merge" "op-2" 21 ∷ []

run-Grown_example :
    (n : Lease) × (read (run memory_store idem_key (holding first) takeover) "k" ≡ some n)
    × Grown first n
unfolding program
run-Grown_example = run-Grown memory_store idem_key (holding first) takeover "k" first refl

fence_ok-superseded_example :
    fence_ok memory_store
      (run memory_store idem_key (holding second) takeover)
      "r"
      first
      observed
      20
      1
      1
    ≢ passed
unfolding program
fence_ok-superseded_example =
    fence_ok-superseded memory_store idem_key (holding second) takeover "r" first second observed 20
      1 1 refl (ground arith)

Guarded-after :
    Guarded memory_store
      (run memory_store idem_key (holding first_merging) (acquires "k" "bob" observed 20 10 ∷ []))
      "r"
      first_merging
      observed
      5
unfolding program
Guarded-after = record guarded { current = unresolved_kept }

fence_ok-one_holder_example : (1 ≤ 1) × (◌≡◌ {A = ℕ} 1 1 → ◌≡◌ {A = String} "alice" "alice")
fence_ok-one_holder_example =
    fence_ok-one_holder memory_store idem_key (holding first_merging)
      (acquires "k" "bob" observed 20 10 ∷ []) "r" first_merging first_merging observed observed 2 2
      2 1 refl
      ((fence_ok-passed_iff memory_store (holding first_merging) "r" first_merging observed 2 2 1).1
        guarded)
      ((fence_ok-passed_iff memory_store
          (run memory_store idem_key (holding first_merging)
            (acquires "k" "bob" observed 20 10 ∷ []))
          "r" first_merging observed 2 2 1).1
        Guarded-after)
