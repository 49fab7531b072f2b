-- ===== src/PageDb/Txn/Rules.antt =====
-- Reasoning about the steps of a transaction.
use aduana.Common.{ℕ, ◌+◌, ◌≡◌, true, false, Bool-cases, inl, inr}
use aduana.PageDb.Env.{Env}
use aduana.PageDb.Txn.{Result, goes_on, jumps, undefined, Txn, Action, pure, call, unsafe_call}

-- Some call of LMDB fails.
abbrev pub Fault : Env → Type 0
Fault env = (k : ℕ) × (env.fault k ≡ true)

-- The transaction goes through with `Post`, or a call of LMDB fails.
abbrev pub Ends : (env : Env) {A : Type 0} → (A → Txn env → Type 0) → Result (A × Txn env) → Type 0
Ends env Post (goes_on (a, t)) = Post a t
Ends env Post jumps = Fault env
Ends env Post undefined = Fault env

module _ (env : Env) {A : Type 0} where
  pub call_rule :
      (Post : A → Txn env → Type 0) (m : Action (Txn env) A) (t : Txn env)
      → Ends env Post (m (record t { calls = t.calls + 1 }))
      → Ends env Post (call env m t)
  unfolding call
  call_rule Post m t h = elim (Bool-cases (env.fault t.calls)) [
    | inl bad ↦ rw bad (t.calls, bad)
    | inr good ↦ rw good h
  ]

  pub bind_rule :
      {B : Type 0} (Mid : A → Txn env → Type 0) (Post : B → Txn env → Type 0)
      (r : Result (A × Txn env)) (f : A → Action (Txn env) B)
      → Ends env Mid r
      → ((a : A) (t : Txn env) → Mid a t → Ends env Post (f a t))
      → Ends env Post (elim r [ goes_on (a, t) ↦ f a t | jumps ↦ jumps | undefined ↦ undefined ])
  bind_rule Mid Post (goes_on (a, t)) f h k = k a t h
  bind_rule Mid Post jumps f h k = h
  bind_rule Mid Post undefined f h k = h

  pub map_rule :
      (Post Post' : A → Txn env → Type 0) (r : Result (A × Txn env))
      → ((a : A) (t : Txn env) → Post a t → Post' a t)
      → Ends env Post r
      → Ends env Post' r
  map_rule Post Post' (goes_on (a, t)) f h = f a t h
  map_rule Post Post' jumps f h = h
  map_rule Post Post' undefined f h = h

-- A call that only may fail.
pub step_rule :
    (env : Env) {B : Type 0} (Post : B → Txn env → Type 0) (t : Txn env)
    (f : Unit {0} → Action (Txn env) B)
    → Ends env Post (f tt (record t { calls = t.calls + 1 }))
    → Ends env Post (elim (call env (pure tt) t) [
      | goes_on (a, t') ↦ f a t'
      | jumps ↦ jumps
      | undefined ↦ undefined
    ])
unfolding call
step_rule env Post t f h = elim (Bool-cases (env.fault t.calls)) [
  | inl bad ↦ rw (Ends, call, bad) (t.calls, bad)
  | inr good ↦ rw (Ends, call, good) h
]

-- The same for a call whose failure is not handled.
pub unsafe_rule :
    (env : Env) {B : Type 0} (Post : B → Txn env → Type 0) (t : Txn env)
    (f : Unit {0} → Action (Txn env) B)
    → Ends env Post (f tt (record t { calls = t.calls + 1 }))
    → Ends env Post (elim (unsafe_call env (pure tt) t) [
      | goes_on (a, t') ↦ f a t'
      | jumps ↦ jumps
      | undefined ↦ undefined
    ])
unfolding unsafe_call
unsafe_rule env Post t f h = elim (Bool-cases (env.fault t.calls)) [
  | inl bad ↦ rw (Ends, unsafe_call, bad) (t.calls, bad)
  | inr good ↦ rw (Ends, unsafe_call, good) h
]

-- The two ways of a call.
pub call_cases :
    (env : Env) {A : Type 0} (Post : Result (A × Txn env) → Type 0) (m : Action (Txn env) A)
    (t : Txn env)
    → (env.fault t.calls ≡ true → Post jumps)
    → (env.fault t.calls ≡ false → Post (m (record t { calls = t.calls + 1 })))
    → Post (call env m t)
unfolding call
call_cases env Post m t bad good = elim (Bool-cases (env.fault t.calls)) [
  | inl f ↦ rw f (bad f)
  | inr f ↦ rw f (good f)
]

-- The two ways of a call that only may fail, with what follows it.
pub step_cases :
    (env : Env) {B : Type 0} (Post : Result (B × Txn env) → Type 0) (t : Txn env)
    (f : Unit {0} → Action (Txn env) B)
    → (env.fault t.calls ≡ true → Post jumps)
    → (env.fault t.calls ≡ false → Post (f tt (record t { calls = t.calls + 1 })))
    → Post (elim (call env (pure tt) t) [
      | goes_on (a, t') ↦ f a t'
      | jumps ↦ jumps
      | undefined ↦ undefined
    ])
unfolding call
step_cases env Post t f bad good =
    call_cases env
      (λ r. Post (elim r [ goes_on (a, t') ↦ f a t' | jumps ↦ jumps | undefined ↦ undefined ]))
      (pure tt) t bad good
