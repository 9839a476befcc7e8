-- ===== src/Runtime/StateStore/Generations.antt =====
-- The store under any interleaving of its operations. An operation makes its tests before it waits
-- for the lock, so the tests and the locked part are steps of their own: between them other
-- operations may run.
use arena_hero_agent.Prelude.{
  ℕ, ◌≤◌, ◌≡◌, refl, [], Option-cases, Bool-cases, ◌⊎◌, inl, inr, true, false, ◌&&◌, none, some,
  ◌==◌, if◌then◌else◌, String, str_eq, eq_iff, arith,
}
use arena_hero_agent.Prelude.Dict.{lookup, lookup-insert}
use arena_hero_agent.Domain.ValueObjects.{TenantId, Generation}
use arena_hero_agent.Runtime.StateStore.{
  StateView, LeaseView, eq_generation, Snapshot, States, cas_admitted, cas_locked, compare_and_set,
  restore_admitted, restore_locked, restore, load,
}

-- The generation of what is stored for a tenant, 0 where nothing is.
module _ {State : Type 0} where
  abbrev pub generation_of : TenantId → States State → ℕ
  generation_of t states = elim (load t states) [
    | none ↦ 0
    | some snapshot ↦ snapshot.generation.value
  ]

module _ {State : Type 0} (view : StateView State) where
  -- The locked parts that may run: each after its own tests, made at some earlier moment.
  pub data Step (states : States State) : States State → Type 0 where
    setting :
        (t : TenantId) (expected next : Generation) (d : String) (x : State) (lease : LeaseView)
        → cas_admitted view t expected next d x lease ≡ true
        → Step states (cas_locked view t expected next d x states).1
    restoring :
        (t : TenantId) (g : Generation) (d : String) (x : State) (lease : LeaseView)
        → restore_admitted view t g d x lease ≡ true
        → Step states (restore_locked view t g d x states).1

  pub data Run (states : States State) : States State → Type 0 where
    here : Run states states
    and_then : {s s' : States State} → Run states s → Step s s' → Run states s'

  -- A stored snapshot is a state of the tenant it is stored under, with its own digest.
  pub IsSound : States State → Type 0
  unfolding load
  IsSound states =
      (t : TenantId) (snapshot : Snapshot State)
      → load t states ≡ some snapshot
      → (view.owner snapshot.state ≡ t) × (view.digest snapshot.state ≡ snapshot.state_digest)

  cas_locked_lem :
      (t u : TenantId) (expected next : Generation) (d : String) (x : State) (states : States State)
      → let (done, states') = cas_locked view t expected next d x states in
        (done ≡ (expected.value == generation_of t states))
        × (load u states' ≡ (
            if done && str_eq u t
            then some (record { generation = next; state_digest = d; state = x })
            else load u states))
  unfolding cas_locked load lookup
  cas_locked_lem t u expected next d x states =
      let written : Snapshot State = record { generation = next; state_digest = d; state = x } in
      ground (arith, eq_iff u t, lookup-insert t u written states)

  restore_locked_lem :
      (t u : TenantId) (g : Generation) (d : String) (x : State) (states : States State)
      → let (done, states') = restore_locked view t g d x states in
        (load u states' ≡ load u states)
        ⊎ ((u ≡ t)
            × (generation_of t states ≤ g.value)
            × (load u states' ≡ some (record { generation = g; state_digest = d; state = x })))
  unfolding restore_locked load lookup
  restore_locked_lem t u g d x states =
      let written : Snapshot State = record { generation = g; state_digest = d; state = x } in
      ground (arith, eq_iff u t, lookup-insert t u written states)

  Step-generation :
      (u : TenantId) {states states' : States State}
      → Step states states'
      → generation_of u states ≤ generation_of u states'
  unfolding cas_admitted load lookup
  Step-generation u {states} (setting t expected next d x lease admitted) =
      ground (arith, eq_iff u t, cas_locked_lem t u expected next d x states)
  Step-generation u {states} (restoring t g d x lease admitted) =
      ground (arith, restore_locked_lem t u g d x states)

  -- In every interleaving of compare-and-sets and restores, in which other operations may run between
  -- the tests of an operation and its locked part, no tenant's generation decreases.
  pub generations_never_decrease :
      (u : TenantId) {states states' : States State}
      → Run states states'
      → generation_of u states ≤ generation_of u states'
  generations_never_decrease u here = omega arith
  generations_never_decrease u (and_then run last) =
      omega (arith, generations_never_decrease u run, Step-generation u last)

  Step-IsSound :
      {states states' : States State} → Step states states' → IsSound states → IsSound states'
  unfolding IsSound cas_admitted restore_admitted
  Step-IsSound {states} (setting t expected next d x lease admitted) sound u snapshot found =
      ground (
        arith,
        eq_iff (view.owner x) t,
        eq_iff (view.digest x) d,
        eq_iff u t,
        cas_locked_lem t u expected next d x states,
        sound u snapshot,
      )
  Step-IsSound {states} (restoring t g d x lease admitted) sound u snapshot found = ground (
    arith,
    eq_iff (view.owner x) t,
    eq_iff (view.digest x) d,
    restore_locked_lem t u g d x states,
    sound u snapshot,
  )

  -- In every interleaving from the empty store, a stored snapshot is a state that belongs to the
  -- tenant it is stored under and whose digest is the stored one.
  pub Run-IsSound : {states : States State} → Run [] states → IsSound states
  unfolding IsSound load lookup
  Run-IsSound here = λ t snapshot found. ground arith
  Run-IsSound (and_then run last) = Step-IsSound last (Run-IsSound run)

  -- A compare-and-set returns true exactly where its tests pass and the expected generation is the
  -- stored one, or 0 where nothing is stored; it then stores the state at the next generation. Else
  -- it changes nothing, and in no case does it change another tenant's snapshot.
  pub compare_and_set_lem :
      (t u : TenantId) (expected next : Generation) (d : String) (x : State) (lease : LeaseView)
      (states : States State)
      → let (done, states') = compare_and_set view t expected next d x lease states in
        (done ≡ (
          cas_admitted view t expected next d x lease
          && (expected.value == generation_of t states)))
        × (load u states' ≡ (
            if done && str_eq u t
            then some (record { generation = next; state_digest = d; state = x })
            else load u states))
  unfolding compare_and_set
  compare_and_set_lem t u expected next d x lease states =
      ground (arith, cas_locked_lem t u expected next d x states)

  -- Of the compare-and-sets that expect one generation of one tenant, at most one succeeds: after a
  -- successful one, whatever runs next, another returns false and changes nothing.
  pub one_winner :
      (t : TenantId) (expected next next' : Generation) (d d' : String) (x x' : State)
      (lease lease' : LeaseView) (states : States State) {later : States State}
      → (compare_and_set view t expected next d x lease states).0 ≡ true
      → Run (compare_and_set view t expected next d x lease states).1 later
      → compare_and_set view t expected next' d' x' lease' later ≡ (false, later)
  unfolding compare_and_set cas_admitted cas_locked load
  one_winner t expected next next' d d' x x' lease lease' states {later} won run = ground (
    arith,
    eq_iff t t,
    compare_and_set_lem t t expected next d x lease states,
    generations_never_decrease t run,
  )

  -- A restore that returns true leaves the tenant with a snapshot of the restored generation and
  -- digest, and that generation is not below the one that was stored.
  pub restore_lem :
      (t : TenantId) (g : Generation) (d : String) (x : State) (lease : LeaseView)
      (states : States State)
      → (restore view t g d x lease states).0 ≡ true
      → (generation_of t states ≤ g.value)
        × (snapshot : Snapshot State) × (load t (restore view t g d x lease states).1
            ≡ some snapshot)
        × (snapshot.generation.value ≡ g.value)
        × (snapshot.state_digest ≡ d)
  unfolding restore restore_locked load lookup
  restore_lem t g d x lease states done =
      let written : Snapshot State = record { generation = g; state_digest = d; state = x } in
      elim (Option-cases (load t states)) [
        | inl fresh ↦ (
          ground arith,
          written,
          ground (arith, eq_iff t t, lookup-insert t t written states),
          refl,
          refl,
        )
        | inr (current, stored) ↦ elim (Bool-cases (eq_generation current.generation g)) [
          | inl same ↦ (
            ground arith,
            current,
            ground arith,
            ground arith,
            ground (arith, eq_iff current.state_digest d),
          )
          | inr other ↦ (
            ground arith,
            written,
            ground (arith, eq_iff t t, lookup-insert t t written states),
            refl,
            refl,
          )
        ]
      ]
