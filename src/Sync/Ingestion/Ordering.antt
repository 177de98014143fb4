-- ===== src/Sync/Ingestion/Ordering.antt =====
-- The order of the calls of the ingestion service: the recreation of the index, and the deletes.
pub mod Whole
use mathlib.Core.Path.{subst}
use Prim.{Unit, tt}
use alice_skilltech_tools.Prelude.{
  ℕ, suc, String, Bool, true, false, not, ◌&&◌, ◌||◌, ◌≡◌, refl, sym, ◌∙◌, ap, Option, none, some,
  List, [], ◌∷◌, ◌++◌, if◌then◌else◌, filter, any, str_eq, eq_iff, ◌==◌, arith, Bool-cases,
  Option-cases, if_cases, inl, inr, ◌↔◌,
}
use alice_skilltech_tools.Sync.Inventory.{
  FileInfo, IndexedFile, nonempty, inventory_key, SyncPlan, partition_by_inventory, inventory_of,
  index_orphans, key_elem, key_of, str_elem, add_key,
}
use alice_skilltech_tools.Sync.Ingestion.{
  SyncRun, Step, job_cancelled, returned, Answer, ServiceCall, delete_documents, ingest_files,
  IngestEnd, raised, answered, ids_of, names_of, discard, record_file_failure, publish_file_state,
  call, settle, submit, replace_and_submit, ingest_one_file, Preparation, prepare_single_file,
  prepare_files, download_raises, processor_raises, no_output, processed,
}
use alice_skilltech_tools.Sync.Ingestion.Whole.{
  SyncEnd, sync_cancelled, sync_raised, synced, ingest_prepared_files, skip_files, ids_of_entries,
  names_of_entries, delete_indexed_entries, delete_orphans, delete_index_orphans,
  skip_unchanged_files, prepare_and_ingest, new_run, sync_with_hayhooks,
}

-- The call put documents of the file into the index.
abbrev pub is_success : IngestEnd → Bool
is_success raised = false
is_success (answered cancelled success timed_out documents_ingested) =
    not cancelled && success && not (documents_ingested == 0)

abbrev pub is_ingested : ServiceCall → Bool
is_ingested (delete_documents ids names) = false
is_ingested (ingest_files f recreate e) = is_success e

abbrev pub is_ingested_under : String → ServiceCall → Bool
is_ingested_under k (delete_documents ids names) = false
is_ingested_under k (ingest_files f recreate e) = is_success e && str_elem k (add_key (key_of f) [])

-- Every call of a forced sync recreates the index, up to the first one that ingests a file.
unfoldable pub RecreatesUntilIngested : Bool → List ServiceCall → Type 0
RecreatesUntilIngested force [] = Unit
RecreatesUntilIngested force (delete_documents ids names ∷ calls) =
    RecreatesUntilIngested force calls
RecreatesUntilIngested force (ingest_files f recreate e ∷ calls) =
    (recreate ≡ (force && not (any is_ingested calls))) × RecreatesUntilIngested force calls

-- Nothing that the same sync has ingested is deleted by it.
unfoldable pub KeepsIngested : List ServiceCall → Type 0
KeepsIngested [] = Unit
KeepsIngested (delete_documents ids names ∷ calls) =
    ((k : String) → (str_elem k (ids ++ names) && any (is_ingested_under k) calls) ≡ false)
    × KeepsIngested calls
KeepsIngested (ingest_files f recreate e ∷ calls) = KeepsIngested calls

-- What holds between two files: `pending` is the flag of the next call.
pub record IsOrdered (force pending : Bool) (calls : List ServiceCall) (keys : List String)
    : Type 0 where
  pub recreates : RecreatesUntilIngested force calls
  pub keeps : KeepsIngested calls
  pub flag : pending ≡ (force && not (any is_ingested calls))
  pub fresh : (k : String) → any (is_ingested_under k) calls ≡ true → str_elem k keys ≡ false

-- What `settle` leaves alone, and what it returns.
unfoldable pub IsSettled : IngestEnd → SyncRun → Step → Type 0
IsSettled e r (job_cancelled r') = (r'.calls ≡ r.calls) × (r'.keys_to_replace ≡ r.keys_to_replace)
IsSettled e r (returned succeeded r') =
    (succeeded ≡ is_success e) × (r'.calls ≡ r.calls) × (r'.keys_to_replace ≡ r.keys_to_replace)

settle-IsSettled : (f : FileInfo) (e : IngestEnd) (r : SyncRun) → IsSettled e r (settle f e r)
unfolding IsSettled settle record_file_failure publish_file_state
settle-IsSettled f raised r = (refl, refl, refl)
settle-IsSettled f (answered cancelled success timed_out n) r =
    let e = answered cancelled success timed_out n in
    if_cases (IsSettled e r) cancelled (λ _. (refl, refl))
      (λ c.
        if_cases (IsSettled e r) (not success) (λ s. (ground (arith, c, s), refl, refl))
          (λ s.
            if_cases (IsSettled e r) (n == 0) (λ z. (ground (arith, c, s, z), refl, refl))
              (λ z. (ground (arith, c, s, z), refl, refl))))

-- The log of a step, and what holds after it.
unfoldable pub StaysOrdered : Bool → Bool → Step → Type 0
StaysOrdered force pending (job_cancelled r) =
    RecreatesUntilIngested force r.calls × KeepsIngested r.calls
StaysOrdered force pending (returned succeeded r) =
    IsOrdered force (if succeeded then false else pending) r.calls r.keys_to_replace

and_false : (b : Bool) → (b && false) ≡ false
and_false b = ground arith

str_elem-same_key :
    (o : Option String) (k : String) (ks : List String)
    → str_elem k (add_key o []) ≡ true
    → str_elem k ks ≡ key_elem o ks
unfolding str_elem add_key key_elem
str_elem-same_key none k ks h = ground (arith, h)
str_elem-same_key (some j) k ks h =
    subst (λ i. str_elem k ks ≡ str_elem i ks) (sym ((eq_iff j k).0 (ground (arith, h)))) refl

str_elem-filter :
    (p : String → Bool) (k : String) (ks : List String)
    → str_elem k ks ≡ false
    → str_elem k (filter p ks) ≡ false
unfolding str_elem
str_elem-filter p k [] h = refl
str_elem-filter p k (j ∷ ks) h =
    ground (arith, h, Bool-cases (p j), Bool-cases (str_eq j k), str_elem-filter p k ks)

str_elem-discard :
    (o : Option String) (k : String) (ks : List String)
    → str_elem k ks ≡ false
    → str_elem k (discard o ks) ≡ false
unfolding discard
str_elem-discard none k ks h = h
str_elem-discard (some j) k ks h = str_elem-filter (λ i. not (str_eq i j)) k ks h

key_elem-discard : (o : Option String) (ks : List String) → key_elem o (discard o ks) ≡ false
unfolding key_elem discard str_elem
key_elem-discard none ks = refl
key_elem-discard (some k) [] = refl
key_elem-discard (some k) (j ∷ ks) =
    ground (arith, Bool-cases (str_eq j k), key_elem-discard (some k) ks)

-- The service is asked to delete under the key of the file.
str_elem-deleted :
    (f : FileInfo) (k : String) (ks : List String)
    → str_elem k (ids_of f ++ names_of f) ≡ true
    → key_elem (key_of f) ks ≡ true
    → str_elem k ks ≡ true
unfolding ids_of names_of key_of inventory_key str_elem key_elem add_key nonempty
str_elem-deleted f k ks h u =
    str_elem-same_key (key_of f) k ks (elim (Option-cases (nonempty f.file_id)) [
      | inl e ↦ elim (Bool-cases (str_eq f.filename "")) [
        | inl b ↦ absurd (ground (arith, e, b, u))
        | inr b ↦ ground (arith, e, b, h)
      ]
      | inr (id, e) ↦ ground (arith, e, h)
    ])
    ∙ u

submit-StaysOrdered :
    (force pending : Bool) (f : FileInfo) (e : IngestEnd) (r : SyncRun)
    → IsOrdered force pending r.calls r.keys_to_replace
    → key_elem (key_of f) r.keys_to_replace ≡ false
    → StaysOrdered force pending (submit f pending e r)
unfolding StaysOrdered IsSettled RecreatesUntilIngested KeepsIngested submit call str_elem add_key
    key_elem
submit-StaysOrdered force pending f e r o u =
    go (settle f e (call c r)) (settle-IsSettled f e (call c r))
  where
    c : ServiceCall
    c = ingest_files f pending e

    fresh :
        (k : String)
        → any (is_ingested_under k) (c ∷ r.calls) ≡ true
        → str_elem k r.keys_to_replace ≡ false
    fresh k h = elim (Bool-cases (any (is_ingested_under k) r.calls)) [
      | inl old ↦ o.fresh k old
      | inr new ↦ str_elem-same_key (key_of f) k r.keys_to_replace (ground (arith, h, new)) ∙ u
    ]

    next : IsOrdered force (if is_success e then false else pending) (c ∷ r.calls) r.keys_to_replace
    next = record {
      recreates = (o.flag, o.recreates);
      keeps = o.keeps;
      flag = ground (arith, o.flag, Bool-cases (is_success e));
      fresh = fresh;
    }

    go : (s : Step) → IsSettled e (call c r) s → StaysOrdered force pending s
    go (job_cancelled r') (h, h') =
        subst (λ calls. RecreatesUntilIngested force calls × KeepsIngested calls) (sym h)
          (next.recreates, next.keeps)
    go (returned succeeded r') (b, h, h') =
        subst (λ x. IsOrdered force (if x then false else pending) r'.calls r'.keys_to_replace)
          (sym b)
          (subst
            (λ calls.
              IsOrdered force (if is_success e then false else pending) calls r'.keys_to_replace)
            (sym h)
            (subst
              (λ keys. IsOrdered force (if is_success e then false else pending) (c ∷ r.calls) keys)
              (sym h') next))

replace_and_submit-StaysOrdered :
    (force pending : Bool) (f : FileInfo) (answer : Answer) (r : SyncRun)
    → IsOrdered force pending r.calls r.keys_to_replace
    → StaysOrdered force pending (replace_and_submit f pending answer r)
unfolding StaysOrdered RecreatesUntilIngested KeepsIngested replace_and_submit record_file_failure
    publish_file_state call
replace_and_submit-StaysOrdered force pending f answer r o =
    if_cases (StaysOrdered force pending) (not (key_elem (key_of f) r.keys_to_replace))
      (λ u. submit-StaysOrdered force pending f answer.end_of_call r o (ground (arith, u)))
      (λ u.
        if_cases (StaysOrdered force pending) answer.delete_raises (λ d. after (ground (arith, u)))
          (λ d.
            submit-StaysOrdered force pending f answer.end_of_call
              (record (call (delete_documents (ids_of f) (names_of f)) r) {
                keys_to_replace = discard (key_of f) r.keys_to_replace;
              })
              (record {
                recreates = o.recreates;
                keeps = (after (ground (arith, u))).keeps;
                flag = o.flag;
                fresh = λ k h. str_elem-discard (key_of f) k r.keys_to_replace (o.fresh k h);
              })
              (key_elem-discard (key_of f) r.keys_to_replace)))
  where
    after :
        key_elem (key_of f) r.keys_to_replace ≡ true
        → IsOrdered force pending
            (delete_documents (ids_of f) (names_of f) ∷ r.calls)
            r.keys_to_replace
    after u = record {
      recreates = o.recreates;
      keeps = (
        λ k. elim (Bool-cases (any (is_ingested_under k) r.calls)) [
          | inl old ↦ elim (Bool-cases (str_elem k (ids_of f ++ names_of f))) [
            | inl h ↦
                absurd (ground (arith, o.fresh k old, str_elem-deleted f k r.keys_to_replace h u))
            | inr h ↦ ap (λ b. b && any (is_ingested_under k) r.calls) h
          ]
          | inr new ↦
              ap (λ b. str_elem k (ids_of f ++ names_of f) && b) new
              ∙ and_false (str_elem k (ids_of f ++ names_of f))
        ],
        o.keeps,
      );
      flag = o.flag;
      fresh = o.fresh;
    }

pub ingest_one_file-StaysOrdered :
    (force pending : Bool) (f : FileInfo) (answer : Answer) (r : SyncRun)
    → IsOrdered force pending r.calls r.keys_to_replace
    → StaysOrdered force pending (ingest_one_file f pending answer r)
unfolding StaysOrdered ingest_one_file publish_file_state
ingest_one_file-StaysOrdered force pending f answer r o =
    if_cases (StaysOrdered force pending) answer.is_job_cancelled (λ _. (o.recreates, o.keeps))
      (λ _. replace_and_submit-StaysOrdered force pending f answer _ o)
