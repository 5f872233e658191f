-- ===== src/Runtimed/OperationStore/Calls/Fence.antt =====
-- An idempotency key starts one operation.
use kruntimes.Base.{
  ◌≡◌, ◌≢◌, inl, inr, refl, ap, ◌∙◌, String, string_eq, ◌==◌, Bool, true, false, ◌||◌, Option, none,
  some, arith, eq_iff, Bool-cases, if◌then◌else◌,
}
use kruntimes.Base.Maps.{lookup, lookup-insert_self}
use kruntimes.Base.Results.{ok, err}
use kruntimes.Api.Run.{Run}
use kruntimes.Runtimed.OperationStore.{StoredOperation, already_exists, Codec}
use kruntimes.Runtimed.OperationStore.Journal.{new_operation}
use kruntimes.Runtimed.OperationStore.Calls.{
  JournalWorld, OperationStore, Begun, fenced, memory_key, begin_in_memory, begin_with_key,
  begin_operation,
}

module _ (c : Codec) where
  -- The record under the key, with the digest it was begun with.
  pub record IsBegun (key digest : String) (o : StoredOperation) (s : OperationStore) : Type 0 where
    pub in_memory : s.has_client ≡ false
    pub kept : lookup key s.memory ≡ some o
    pub same_digest : o.digest ≡ digest

  pub begin_in_memory-IsBegun :
      (w : JournalWorld) (key id digest : String) (entry : Option StoredOperation)
      (s : OperationStore) (o : StoredOperation) (fresh : Bool)
      → lookup key s.memory ≡ entry
      → s.has_client ≡ false
      → (begin_in_memory c w key id digest entry s).0 ≡ ok (o, fresh)
      → IsBegun key digest o (begin_in_memory c w key id digest entry s).1
  unfolding begin_in_memory fenced
  begin_in_memory-IsBegun w key id digest (some p) s o fresh e m h =
      elim (Bool-cases (p.digest == digest)) [
        | inl same ↦
            let pair : ◌≡◌ {A = Begun} (ok (p, false)) (ok (o, fresh)) = rw same at h in
            let is_o : p ≡ o = cc in
            record {
              in_memory = m;
              kept = rw (← is_o) e;
              same_digest = rw (← is_o) ((eq_iff p.digest digest).0 same);
            }
        | inr other ↦ absurd (ground (arith, rw other at h))
      ]
  begin_in_memory-IsBegun w key id digest none s o fresh e m h =
      let new : new_operation id digest w.now ≡ o = cc in
      record {
        in_memory = m;
        kept = rw (← new) (lookup-insert_self key (new_operation id digest w.now) s.memory);
        same_digest = rw (← new) refl;
      }

  pick_false : {A : Type 0} (b : Bool) (x y : A) → b ≡ false → (if b then x else y) ≡ y
  pick_false b x y h = rw h refl

  pub begin_with_key-memory :
      (w : JournalWorld) (key id digest : String) (s : OperationStore)
      → s.has_client ≡ false
      → begin_with_key c w key id digest s
        ≡ begin_in_memory c w key id digest (lookup key s.memory) s
  unfolding begin_with_key
  begin_with_key-memory w key id digest s m = pick_false s.has_client _ _ m

  pub begin_operation-key :
      {Q : Type 0} (w : JournalWorld) (run : Run Q) (id digest : String) (s : OperationStore)
      → (run.uid == "" || (run.namespace == "" || (id == "" || digest == ""))) ≡ false
      → s.has_client ≡ false
      → begin_operation c w (some run) id digest s
        ≡ begin_in_memory c w
            (memory_key (some run) id)
            id
            digest
            (lookup (memory_key (some run) id) s.memory)
            s
  unfolding begin_operation
  begin_operation-key w run id digest s named m =
      pick_false (run.uid == "" || (run.namespace == "" || (id == "" || digest == ""))) _ _ named
      ∙ begin_with_key-memory w (memory_key (some run) id) id digest s m

  pub begin_in_memory-again :
      (w : JournalWorld) (key id digest : String) (s : OperationStore) (o : StoredOperation)
      → IsBegun key digest o s
      → begin_in_memory c w key id digest (lookup key s.memory) s ≡ (ok (o, false), s)
  unfolding begin_in_memory fenced
  begin_in_memory-again w key id digest s o h =
      let same : (o.digest == digest) ≡ true = (eq_iff o.digest digest).1 h.same_digest in
      ap (λ entry. begin_in_memory c w key id digest entry s) h.kept
      ∙ ap (λ (b : Bool). (if b then ok (o, false) else err already_exists, s)) same

  pub begin_in_memory-other :
      (w : JournalWorld) (key id digest other : String) (s : OperationStore) (o : StoredOperation)
      → other ≢ digest
      → IsBegun key digest o s
      → begin_in_memory c w key id other (lookup key s.memory) s ≡ (err already_exists, s)
  unfolding begin_in_memory fenced
  begin_in_memory-other w key id digest other s o ne h =
      let differs : (o.digest == other) ≡ false =
        ground (arith, eq_iff o.digest other, h.same_digest, ne) in
      ap (λ entry. begin_in_memory c w key id other entry s) h.kept
      ∙ ap (λ (b : Bool). (if b then ok (o, false) else err already_exists, s)) differs
