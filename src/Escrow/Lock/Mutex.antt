-- ===== src/Escrow/Lock/Mutex.antt =====
-- etcdLocker under any interleaving of its clients: Lock is a read and then one atomic write, and
-- Unlock is one atomic write, so a schedule is the list of the clients in the order of their steps.
use snet_daemon.Prelude.{
  ℕ, String, Bool, true, false, Option, none, some, List, [], ◌∷◌, ◌≡◌, ◌≢◌, inl, inr, refl, sym,
  ap, ◌∙◌, arith, Bool-cases, str_eq, eq_iff, ◌==◌, if◌then◌else◌,
}
use snet_daemon.Effects.{Result, ok, err, Verdict-cases}
use snet_daemon.Storage.Interface.{AtomicStorage}
use snet_daemon.Storage.Contract.{Values, IsKeyValueStorage, set_value}
use snet_daemon.Escrow.Lock.{locked, unlocked, acquire, etcd_unlock}

-- Where a client stands: it has no lock, it has read the value in Lock, or it has the lock.
pub data Phase : Type 0 where
  idle holding : Phase
  seen : Option String → Phase

pub record Clients (S : Type 0) : Type 0 where
  pub store : S
  pub phases : ℕ → Phase

abbrev pub moved : {S : Type 0} → ℕ → Clients S → Phase → S → Clients S
moved i c phase store = record { store = store; phases = λ j. if i == j then phase else c.phases j }

abbrev pub after_read : Result (Option String) → Phase
after_read (ok v) = seen v
after_read (err _) = idle

abbrev pub after_write : Result Bool → Phase
after_write (ok true) = holding
after_write (ok false) = idle
after_write (err _) = idle

module _ {S T : Type 0} (storage : AtomicStorage S T) (name : String) where
  -- The next step of a client in this phase.
  abbrev step_from : Phase → ℕ → Clients S → Clients S
  step_from idle i c = let (r, store) = storage.get name c.store in moved i c (after_read r) store
  step_from (seen v) i c =
      let (r, store) = acquire storage name v c.store in moved i c (after_write r) store
  step_from holding i c = let (r, store) = etcd_unlock storage name c.store in moved i c idle store

  abbrev pub step : ℕ → Clients S → Clients S
  step i c = step_from (c.phases i) i c

  unfoldable pub run : List ℕ → Clients S → Clients S
  run [] c = c
  run (i ∷ schedule) c = run schedule (step i c)

  module _ (values : S → Values) (w : IsKeyValueStorage storage values) where
    -- What is stored under the lock's name.
    abbrev value : S → Option String
    value s = values s name

    -- Whoever holds the lock has its value at "locked", and there is one holder at most.
    pub record IsExclusive (c : Clients S) : Type 0 where
      pub held : (i : ℕ) → c.phases i ≡ holding → value c.store ≡ some locked
      pub only : (i j : ℕ) → c.phases i ≡ holding → c.phases j ≡ holding → i ≡ j

    unlocked-ne-locked : some unlocked ≢ some locked
    unlocked-ne-locked e = ground (arith, eq_iff unlocked locked)

    now : {f g : Values} → f ≡ g → f name ≡ g name
    now e = ap (λ (f : Values). f name) e

    set_now : (new : String) (v : Values) → set_value name (some new) v name ≡ some new
    set_now new v = ground (arith, eq_iff name name)

    absent_keeps :
        (new : String) (s : S)
        → value s ≡ some locked
        → value (storage.put_if_absent name new s).1 ≡ some locked
    absent_keeps new s h = elim (Verdict-cases (storage.put_if_absent name new s).0) [
      | inl done ↦ absurd (ground (arith, (w.absent_done name new s done).0, h))
      | inr (inl refused) ↦ now (w.absent_refused name new s refused).1 ∙ h
      | inr (inr (e, failed)) ↦ elim (w.absent_failed name new s e failed) [
        | inl kept ↦ now kept ∙ h
        | inr (free, _) ↦ absurd (ground (arith, free, h))
      ]
    ]

    swap_keeps :
        (new : String) (s : S)
        → value s ≡ some locked
        → value (storage.compare_and_swap name unlocked new s).1 ≡ some locked
    swap_keeps new s h = elim (Verdict-cases (storage.compare_and_swap name unlocked new s).0) [
      | inl done ↦ absurd (unlocked-ne-locked (sym (w.swap_done name unlocked new s done).0 ∙ h))
      | inr (inl refused) ↦ now (w.swap_refused name unlocked new s refused).1 ∙ h
      | inr (inr (e, failed)) ↦ elim (w.swap_failed name unlocked new s e failed) [
        | inl kept ↦ now kept ∙ h
        | inr (free, _) ↦ absurd (unlocked-ne-locked (sym free ∙ h))
      ]
    ]

    -- A successful acquisition finds the lock not held and leaves it held.
    acquire_done :
        (v : Option String) (s : S)
        → (acquire storage name v s).0 ≡ ok true
        → (value s ≢ some locked) × (value (acquire storage name v s).1 ≡ some locked)
    unfolding acquire
    acquire_done none s e =
        let done = w.absent_done name locked s e in
        (λ h. ground (arith, done.0, h), now done.1 ∙ set_now locked (values s))
    acquire_done (some v) s e = elim (Bool-cases (str_eq v locked)) [
      | inl same ↦ absurd (ground (arith, same))
      | inr other ↦
          let done = w.swap_done name unlocked locked s (ground (arith, other)) in
          (
            λ h. unlocked-ne-locked (sym done.0 ∙ h),
            rw other (now done.1 ∙ set_now locked (values s)),
          )
    ]

    -- Whatever comes of an acquisition, a held lock stays held.
    acquire_keeps :
        (v : Option String) (s : S)
        → value s ≡ some locked
        → value (acquire storage name v s).1 ≡ some locked
    unfolding acquire
    acquire_keeps none s h = absent_keeps locked s h
    acquire_keeps (some v) s h = elim (Bool-cases (str_eq v locked)) [
      | inl same ↦ rw same h
      | inr other ↦ rw other (swap_keeps locked s h)
    ]

    -- A client moves to a phase without the lock, and the value stays locked for the others.
    moved_out :
        (i : ℕ) (c : Clients S) (phase : Phase) (store : S)
        → phase ≢ holding
        → ((j : ℕ) → i ≢ j → c.phases j ≡ holding → value store ≡ some locked)
        → IsExclusive c
        → IsExclusive (moved i c phase store)
    moved_out i c phase store out kept x = record {
      held = λ j e. ground (arith, kept j);
      only = λ j k e f. ground (arith, x.only j k);
    }

    -- A client takes the lock that nobody has.
    moved_in :
        (i : ℕ) (c : Clients S) (store : S)
        → ((j : ℕ) → c.phases j ≢ holding)
        → value store ≡ some locked
        → IsExclusive (moved i c holding store)
    moved_in i c store free taken = record {
      held = λ j e. taken;
      only = λ j k e f. ground (arith, free j, free k);
    }

    read_not_holding : (r : Result (Option String)) → after_read r ≢ holding
    read_not_holding (ok v) e = ground arith
    read_not_holding (err x) e = ground arith

    read-IsExclusive : (i : ℕ) (c : Clients S) → IsExclusive c → IsExclusive (step_from idle i c)
    read-IsExclusive i c x =
        let (r, store) = storage.get name c.store in
        moved_out i c (after_read r) store (read_not_holding r)
          (λ j other e. now (w.get_keeps name c.store) ∙ x.held j e) x

    -- The write of Lock that does not succeed.
    missed :
        (v : Option String) (i : ℕ) (c : Clients S)
        → after_write (acquire storage name v c.store).0 ≢ holding
        → IsExclusive c
        → IsExclusive (step_from (seen v) i c)
    missed v i c out x =
        let (r, store) = acquire storage name v c.store in
        moved_out i c (after_write r) store out (λ j other e. acquire_keeps v c.store (x.held j e))
          x

    take-IsExclusive :
        (v : Option String) (i : ℕ) (c : Clients S)
        → IsExclusive c
        → IsExclusive (step_from (seen v) i c)
    take-IsExclusive v i c x =
        let (r, store) = acquire storage name v c.store in
        elim (Verdict-cases r) [
          | inl done ↦
              let (free, taken) = acquire_done v c.store done in
              rw done (moved_in i c store (λ j e. free (x.held j e)) taken)
          | inr (inl refused) ↦ missed v i c (λ e. ground (arith, refused)) x
          | inr (inr (e, failed)) ↦ missed v i c (λ e. ground (arith, failed)) x
        ]

    -- Only the holder unlocks, so nobody else is there to lose the lock.
    release-IsExclusive :
        (i : ℕ) (c : Clients S)
        → c.phases i ≡ holding
        → IsExclusive c
        → IsExclusive (step_from holding i c)
    release-IsExclusive i c at x =
        let (r, store) = etcd_unlock storage name c.store in
        moved_out i c idle store (λ e. ground arith) (λ j other e. absurd (other (x.only i j at e)))
          x

    step-IsExclusive : (i : ℕ) (c : Clients S) → IsExclusive c → IsExclusive (step i c)
    step-IsExclusive i c x = go (c.phases i) refl
      where
        go : (phase : Phase) → c.phases i ≡ phase → IsExclusive (step_from phase i c)
        go idle at = read-IsExclusive i c x
        go (seen v) at = take-IsExclusive v i c x
        go holding at = release-IsExclusive i c at x

    run-IsExclusive :
        (schedule : List ℕ) (c : Clients S) → IsExclusive c → IsExclusive (run schedule c)
    unfolding run
    run-IsExclusive [] c x = x
    run-IsExclusive (i ∷ schedule) c x =
        run-IsExclusive schedule (step i c) (step-IsExclusive i c x)

    -- Over a storage that keeps the contract of AtomicStorage: however the clients of one lock
    -- interleave their reads and writes, and whatever their writes report, two of them never hold
    -- the lock together. From a state in which nobody holds it, every schedule ends in one with at
    -- most one holder.
    pub mutual_exclusion :
        (schedule : List ℕ) (c : Clients S) (i j : ℕ)
        → ((k : ℕ) → c.phases k ≢ holding)
        → i ≢ j
        → (run schedule c).phases i ≡ holding
        → (run schedule c).phases j ≢ holding
    mutual_exclusion schedule c i j free other hi hj = other (
        (run-IsExclusive schedule c
            (record { held = λ k e. absurd (free k e); only = λ k l e f. absurd (free k e) })).only
          i j hi hj)
